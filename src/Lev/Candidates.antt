-- ===== src/Lev/Candidates.antt =====
-- libdictd/lev.h: the words that `dict_search_lev_8bit` makes and checks, in order. The loops that
-- change `buf` in place and change it back thread the buffer.
use dictd.Prelude.{ℕ, zero, suc, ◌-◌, List, [], ◌∷◌, ◌++◌, ◌==◌, if◌then◌else◌, length, get_or, set}

-- What a round makes: the words to check, and the buffer.
abbrev pub Round : Type 0
Round = List (List ℕ) × List ℕ

-- The rounds of a loop from `i`, on the buffer.
unfoldable pub sweep : (ℕ → List ℕ → Round) → ℕ → ℕ → List ℕ → List (List ℕ)
sweep body i zero buf = []
sweep body i (suc n) buf = let (words, buf') = body i buf in words ++ sweep body (suc i) n buf'

-- Deletions: the inner loop, from `j`, leaves out the character at `i`.
unfoldable pub copy_but : ℕ → ℕ → List ℕ → List ℕ
copy_but i j [] = []
copy_but i j (c ∷ word) = let rest = copy_but i (suc j) word in if i == j then rest else c ∷ rest

unfoldable pub deletion_round : ℕ → List ℕ → Round
deletion_round i word = (copy_but i 0 word ∷ [], word)

-- Transpositions: exchanges the characters at `i` and `i + 1`.
unfoldable pub exchange : ℕ → List ℕ → List ℕ
exchange i buf = set (set buf i (get_or buf (suc i) 0)) (suc i) (get_or buf i 0)

unfoldable pub transposition_round : ℕ → List ℕ → Round
transposition_round i buf = let changed = exchange i buf in (changed ∷ [], exchange i changed)

-- Insertions: the inner loop, from `j`, puts a letter behind the character at `i`.
unfoldable pub copy_with : ℕ → ℕ → ℕ → List ℕ → List ℕ
copy_with letter i j [] = []
copy_with letter i j (c ∷ word) =
    let rest = copy_with letter i (suc j) word in c ∷ (if i == j then letter ∷ rest else rest)

unfoldable pub insert_letters : ℕ → List ℕ → List ℕ → List (List ℕ)
insert_letters i word [] = []
insert_letters i word (letter ∷ alphabet) =
    copy_with letter i 0 word ∷ insert_letters i word alphabet

unfoldable pub insertion_round : List ℕ → ℕ → List ℕ → Round
unfolding insert_letters
insertion_round alphabet i word = (insert_letters i word alphabet, word)

unfoldable pub beginnings : List ℕ → List ℕ → List (List ℕ)
beginnings word [] = []
beginnings word (letter ∷ alphabet) = (letter ∷ word) ∷ beginnings word alphabet

-- Substitutions of the character at `i` by the letters.
unfoldable pub substitution_round : List ℕ → ℕ → List ℕ → Round
substitution_round [] i buf = ([], buf)
substitution_round (letter ∷ alphabet) i buf =
    let tmp = get_or buf i 0 in
    let changed = set buf i letter in
    let skipped = substitution_round alphabet i buf in
    let (words, buf') = substitution_round alphabet i (set changed i tmp) in
    if tmp == letter then skipped else (changed ∷ words, buf')

unfoldable pub candidates : List ℕ → List ℕ → List (List ℕ)
candidates alphabet word =
    sweep deletion_round 0 (length word) word
    ++ (sweep transposition_round 0 (length word - 1) word
        ++ (sweep (insertion_round alphabet) 0 (length word) word
            ++ (beginnings word alphabet
                ++ sweep (substitution_round alphabet) 0 (length word) word)))
