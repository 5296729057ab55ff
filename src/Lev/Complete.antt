-- ===== src/Lev/Complete.antt =====
-- libdictd/lev.h: the candidates are exactly the words at one edit.
use dictd.Prelude.{
  ℕ, ◌≢◌, ◌↔◌, refl, sym, ap, inl, inr, List, [], ◌∷◌, ◌++◌, arith, ◌==◌, Bool-cases,
}
use mathlib.Core.List.Memᴰ
use mathlib.Core.List.{Memᴰ}
use dictd.Lev.Candidates.{beginnings, candidates}
use dictd.Lev.Rounds.{deletions_at, letters_at, others_at}
use dictd.Lev.Sites.{sites, move_one, Mem-sites}
use dictd.Lev.Edits.{
  Edit, deletion, transposition, insertion, substitution, exchanges_of, parts, exchanges_of-Edit,
  deletions-Edit, letters-Edit, others-Edit, beginnings-Edit, candidates-parts,
}

-- From an edit to a list of candidates.
Mem-letters :
    (alphabet : List ℕ) (x : ℕ) (a : List ℕ) (c : ℕ) (b : List ℕ)
    → Memᴰ x alphabet
    → Memᴰ (a ++ (c ∷ (x ∷ b))) (letters_at alphabet a c b)
Mem-letters [] x a c b m = absurd (Memᴰ.not-nil m)
Mem-letters (y ∷ alphabet) x a c b m = elim (Memᴰ.cases_cons m) [
  | inl e ↦ Memᴰ.head (ap (λ z. a ++ (c ∷ (z ∷ b))) e)
  | inr k ↦ Memᴰ.tail (Mem-letters alphabet x a c b k)
]

Mem-others :
    (alphabet : List ℕ) (x : ℕ) (a : List ℕ) (c : ℕ) (b : List ℕ)
    → Memᴰ x alphabet
    → c ≢ x
    → Memᴰ (a ++ (x ∷ b)) (others_at alphabet a c b)
Mem-others [] x a c b m n = absurd (Memᴰ.not-nil m)
Mem-others (y ∷ alphabet) x a c b m n = elim (Bool-cases (c == y)) [
  | inl h ↦ rw h (elim (Memᴰ.cases_cons m) [
    | inl e ↦ absurd (n (ground (arith, h, e)))
    | inr k ↦ Mem-others alphabet x a c b k n
  ])
  | inr h ↦ rw h (elim (Memᴰ.cases_cons m) [
    | inl e ↦ Memᴰ.head (ap (λ z. a ++ (z ∷ b)) e)
    | inr k ↦ Memᴰ.tail (Mem-others alphabet x a c b k n)
  ])
]

Mem-beginnings :
    (alphabet : List ℕ) (x : ℕ) (w : List ℕ)
    → Memᴰ x alphabet
    → Memᴰ (x ∷ w) (beginnings w alphabet)
unfolding beginnings
Mem-beginnings [] x w m = absurd (Memᴰ.not-nil m)
Mem-beginnings (y ∷ alphabet) x w m = elim (Memᴰ.cases_cons m) [
  | inl e ↦ Memᴰ.head (ap (λ z. z ∷ w) e)
  | inr k ↦ Memᴰ.tail (Mem-beginnings alphabet x w k)
]

Mem-exchanges :
    (a p : List ℕ) (c d : ℕ) (q : List ℕ)
    → Memᴰ (a ++ (p ++ (d ∷ (c ∷ q)))) (exchanges_of a (p ++ (c ∷ (d ∷ q))))
Mem-exchanges a [] c d q = Memᴰ.head refl
Mem-exchanges a (e ∷ []) c d q =
    Memᴰ.tail
      (Memᴰ.cast (sym (move_one a (d ∷ (c ∷ q)) e)) (Mem-exchanges (a ++ (e ∷ [])) [] c d q))
Mem-exchanges a (e ∷ f ∷ p) c d q = Memᴰ.tail (
    Memᴰ.cast (sym (move_one a (f ∷ (p ++ (d ∷ (c ∷ q)))) e))
      (Mem-exchanges (a ++ (e ∷ [])) (f ∷ p) c d q))

-- A member of one of the five parts.
in_deletions :
    (alphabet v w : List ℕ) → Memᴰ v (sites deletions_at [] w) → Memᴰ v (parts alphabet w)
in_deletions alphabet v w m =
    Memᴰ.append_left
      (exchanges_of [] w
        ++ (sites (letters_at alphabet) [] w
            ++ (beginnings w alphabet ++ sites (others_at alphabet) [] w)))
      m

in_exchanges : (alphabet v w : List ℕ) → Memᴰ v (exchanges_of [] w) → Memᴰ v (parts alphabet w)
in_exchanges alphabet v w m = Memᴰ.append_right (sites deletions_at [] w) (
    Memᴰ.append_left
      (sites (letters_at alphabet) [] w
        ++ (beginnings w alphabet ++ sites (others_at alphabet) [] w))
      m)

in_rest :
    (alphabet v w : List ℕ)
    → Memᴰ v (
        sites (letters_at alphabet) [] w
        ++ (beginnings w alphabet ++ sites (others_at alphabet) [] w))
    → Memᴰ v (parts alphabet w)
in_rest alphabet v w m =
    Memᴰ.append_right (sites deletions_at [] w) (Memᴰ.append_right (exchanges_of [] w) m)

-- An insertion behind a character.
behind :
    (alphabet a : List ℕ) (c : ℕ) (p : List ℕ) (x : ℕ) (b : List ℕ)
    → Memᴰ x alphabet
    → Memᴰ (a ++ (c ∷ (p ++ (x ∷ b)))) (sites (letters_at alphabet) a (c ∷ (p ++ b)))
behind alphabet a c [] x b m =
    Memᴰ.append_left (sites (letters_at alphabet) (a ++ (c ∷ [])) b)
      (Mem-letters alphabet x a c b m)
behind alphabet a c (d ∷ p) x b m = Memᴰ.append_right (letters_at alphabet a c (d ∷ (p ++ b))) (
    Memᴰ.cast (sym (move_one a (d ∷ (p ++ (x ∷ b))) c)) (behind alphabet (a ++ (c ∷ [])) d p x b m))

-- An insertion at the start, or behind a character.
in_insertions :
    (alphabet : List ℕ) (a : List ℕ) (x : ℕ) (b : List ℕ)
    → Memᴰ x alphabet
    → Memᴰ (a ++ (x ∷ b)) (parts alphabet (a ++ b))
in_insertions alphabet [] x b m = in_rest alphabet (x ∷ b) b (
    Memᴰ.append_right (sites (letters_at alphabet) [] b)
      (Memᴰ.append_left (sites (others_at alphabet) [] b) (Mem-beginnings alphabet x b m)))
in_insertions alphabet (c ∷ a) x b m = in_rest alphabet (c ∷ (a ++ (x ∷ b))) (c ∷ (a ++ b)) (
    Memᴰ.append_left
      (beginnings (c ∷ (a ++ b)) alphabet ++ sites (others_at alphabet) [] (c ∷ (a ++ b)))
      (behind alphabet [] c a x b m))

Edit-Mem : (alphabet w v : List ℕ) → Edit alphabet w v → Memᴰ v (parts alphabet w)
Edit-Mem alphabet w v (deletion a c b) =
    in_deletions alphabet (a ++ b) (a ++ (c ∷ b))
      (Mem-sites deletions_at (a ++ b) [] a c b (Memᴰ.head refl))
Edit-Mem alphabet w v (transposition a c d b) =
    in_exchanges alphabet (a ++ (d ∷ (c ∷ b))) (a ++ (c ∷ (d ∷ b))) (Mem-exchanges [] a c d b)
Edit-Mem alphabet w v (insertion a x b m) = in_insertions alphabet a x b m
Edit-Mem alphabet w v (substitution a c x b m n) = in_rest alphabet (a ++ (x ∷ b)) (a ++ (c ∷ b)) (
    Memᴰ.append_right (sites (letters_at alphabet) [] (a ++ (c ∷ b))) (
      Memᴰ.append_right (beginnings (a ++ (c ∷ b)) alphabet)
        (Mem-sites (others_at alphabet) (a ++ (x ∷ b)) [] a c b (Mem-others alphabet x a c b m n))))

Mem-Edit : (alphabet w v : List ℕ) → Memᴰ v (parts alphabet w) → Edit alphabet w v
Mem-Edit alphabet w v m = elim (Memᴰ.append_cases (sites deletions_at [] w) m) [
  | inl k ↦ deletions-Edit alphabet v w k
  | inr k ↦ elim (Memᴰ.append_cases (exchanges_of [] w) k) [
    | inl h ↦ exchanges_of-Edit alphabet v w h
    | inr h ↦ elim (Memᴰ.append_cases (sites (letters_at alphabet) [] w) h) [
      | inl g ↦ letters-Edit alphabet v w g
      | inr g ↦ elim (Memᴰ.append_cases (beginnings w alphabet) g) [
        | inl l ↦ beginnings-Edit alphabet v w l
        | inr l ↦ others-Edit alphabet v w l
      ]
    ]
  ]
]

-- The words that dict_search_lev_8bit checks are exactly those at one edit from its word: one
-- character left out, two neighbours exchanged, a letter of the alphabet put in anywhere, or a
-- character replaced by another letter.
pub candidates-Edit : (alphabet w v : List ℕ) → Memᴰ v (candidates alphabet w) ↔ Edit alphabet w v
candidates-Edit alphabet w v =
    rw (candidates-parts alphabet w) ((Mem-Edit alphabet w v), (Edit-Mem alphabet w v))
