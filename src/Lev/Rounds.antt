-- ===== src/Lev/Rounds.antt =====
-- libdictd/lev.h: what a round of each loop makes at a place of the word.
use dictd.Prelude.{
  ℕ, suc, ◌+◌, ◌<◌, ◌≡◌, refl, sym, ap, ◌∙◌, inl, inr, List, [], ◌∷◌, ◌++◌, true, false, arith,
  ◌==◌, if◌then◌else◌, length, length-append, get_or, set, Bool-cases,
}
use dictd.Lev.Candidates.{
  sweep, copy_but, deletion_round, exchange, transposition_round, copy_with, insert_letters,
  insertion_round, substitution_round,
}
use dictd.Lev.Sites.{Site, move_one}

-- Deletions.
copy_but_past : (i j : ℕ) (b : List ℕ) → i < j → copy_but i j b ≡ b
unfolding copy_but
copy_but_past i j [] h = refl
copy_but_past i j (c ∷ b) h =
    let e : (i == j) ≡ false = ground (arith, h) in
    rw (e, copy_but_past i (suc j) b (omega (arith, h))) refl

copy_but_at :
    (j : ℕ) (a : List ℕ) (c : ℕ) (b : List ℕ) → copy_but (j + length a) j (a ++ (c ∷ b)) ≡ a ++ b
unfolding copy_but
copy_but_at j [] c b =
    let e : (j + 0 == j) ≡ true = ground arith in
    rw (e, copy_but_past (j + 0) (suc j) b (omega arith)) refl
copy_but_at j (d ∷ a) c b =
    let e : (j + suc (length a) == j) ≡ false = ground arith in
    let k : j + suc (length a) ≡ suc j + length a = omega arith in
    rw (e)
      (ap (λ l. d ∷ l) (ap (λ i. copy_but i (suc j) (a ++ (c ∷ b))) k ∙ copy_but_at (suc j) a c b))

abbrev pub deletions_at : Site
deletions_at a c b = (a ++ b) ∷ []

pub deletion_round_at :
    (a : List ℕ) (c : ℕ) (b : List ℕ)
    → deletion_round (length a) (a ++ (c ∷ b)) ≡ (deletions_at a c b, a ++ (c ∷ b))
unfolding deletion_round
deletion_round_at a c b =
    let z : length a ≡ 0 + length a = omega arith in
    ap (λ l. (l ∷ [], a ++ (c ∷ b))) (ap (λ i. copy_but i 0 (a ++ (c ∷ b))) z ∙ copy_but_at 0 a c b)

-- Insertions.
copy_with_past : (x i j : ℕ) (b : List ℕ) → i < j → copy_with x i j b ≡ b
unfolding copy_with
copy_with_past x i j [] h = refl
copy_with_past x i j (c ∷ b) h =
    let e : (i == j) ≡ false = ground (arith, h) in
    rw (e, copy_with_past x i (suc j) b (omega (arith, h))) refl

copy_with_at :
    (x j : ℕ) (a : List ℕ) (c : ℕ) (b : List ℕ)
    → copy_with x (j + length a) j (a ++ (c ∷ b)) ≡ a ++ (c ∷ (x ∷ b))
unfolding copy_with
copy_with_at x j [] c b =
    let e : (j + 0 == j) ≡ true = ground arith in
    rw (e, copy_with_past x (j + 0) (suc j) b (omega arith)) refl
copy_with_at x j (d ∷ a) c b =
    let e : (j + suc (length a) == j) ≡ false = ground arith in
    let k : j + suc (length a) ≡ suc j + length a = omega arith in
    rw (e) (
      ap (λ l. d ∷ l)
        (ap (λ i. copy_with x i (suc j) (a ++ (c ∷ b))) k ∙ copy_with_at x (suc j) a c b))

abbrev pub letters_at : List ℕ → Site
letters_at [] a c b = []
letters_at (x ∷ alphabet) a c b = (a ++ (c ∷ (x ∷ b))) ∷ letters_at alphabet a c b

insert_letters_at :
    (alphabet a : List ℕ) (c : ℕ) (b : List ℕ)
    → insert_letters (length a) (a ++ (c ∷ b)) alphabet ≡ letters_at alphabet a c b
unfolding insert_letters
insert_letters_at [] a c b = refl
insert_letters_at (x ∷ alphabet) a c b =
    let z : length a ≡ 0 + length a = omega arith in
    let e = ap (λ i. copy_with x i 0 (a ++ (c ∷ b))) z ∙ copy_with_at x 0 a c b in
    rw (e, insert_letters_at alphabet a c b) refl

pub insertion_round_at :
    (alphabet a : List ℕ) (c : ℕ) (b : List ℕ)
    → insertion_round alphabet (length a) (a ++ (c ∷ b)) ≡ (letters_at alphabet a c b, a ++ (c ∷ b))
unfolding insertion_round
insertion_round_at alphabet a c b = ap (λ l. (l, a ++ (c ∷ b))) (insert_letters_at alphabet a c b)

-- Substitutions.
pub get_or_at : (a : List ℕ) (c : ℕ) (b : List ℕ) → get_or (a ++ (c ∷ b)) (length a) 0 ≡ c
get_or_at [] c b = refl
get_or_at (d ∷ a) c b = get_or_at a c b

pub set_at : (a : List ℕ) (c x : ℕ) (b : List ℕ) → set (a ++ (c ∷ b)) (length a) x ≡ a ++ (x ∷ b)
set_at [] c x b = refl
set_at (d ∷ a) c x b = ap (λ l. d ∷ l) (set_at a c x b)

abbrev pub others_at : List ℕ → Site
others_at [] a c b = []
others_at (x ∷ alphabet) a c b =
    if c == x then others_at alphabet a c b else (a ++ (x ∷ b)) ∷ others_at alphabet a c b

pub substitution_round_at :
    (alphabet a : List ℕ) (c : ℕ) (b : List ℕ)
    → substitution_round alphabet (length a) (a ++ (c ∷ b))
      ≡ (others_at alphabet a c b, a ++ (c ∷ b))
unfolding substitution_round
substitution_round_at [] a c b = refl
substitution_round_at (x ∷ alphabet) a c b =
    let ih = substitution_round_at alphabet a c b in
    rw (get_or_at a c b, set_at a c x b, set_at a x c b, ih)
      (elim (Bool-cases (c == x)) [ inl e ↦ rw e refl | inr e ↦ rw e refl ])

-- Transpositions.
exchange_at :
    (a : List ℕ) (c d : ℕ) (b : List ℕ)
    → exchange (length a) (a ++ (c ∷ (d ∷ b))) ≡ a ++ (d ∷ (c ∷ b))
unfolding exchange
exchange_at [] c d b = refl
exchange_at (x ∷ a) c d b = ap (λ l. x ∷ l) (exchange_at a c d b)

abbrev pub exchanges : List ℕ → ℕ → List ℕ → List (List ℕ)
exchanges a c [] = []
exchanges a c (d ∷ b) = (a ++ (d ∷ (c ∷ b))) ∷ exchanges (a ++ (c ∷ [])) d b

pub sweep-exchanges :
    (a : List ℕ) (c : ℕ) (b : List ℕ)
    → sweep transposition_round (length a) (length b) (a ++ (c ∷ b)) ≡ exchanges a c b
unfolding sweep transposition_round
sweep-exchanges a c [] = refl
sweep-exchanges a c (d ∷ b) =
    let l : length (a ++ (c ∷ [])) ≡ suc (length a) = omega (arith, length-append a (c ∷ [])) in
    rw (exchange_at a c d b, exchange_at a d c b)
      (ap (λ r. (a ++ (d ∷ (c ∷ b))) ∷ r)
        (ap (λ k. sweep transposition_round k (length b) (a ++ (c ∷ (d ∷ b)))) (sym l)
          ∙ ap (λ w. sweep transposition_round (length (a ++ (c ∷ []))) (length b) w)
              (sym (move_one a (d ∷ b) c))
          ∙ sweep-exchanges (a ++ (c ∷ [])) d b))
