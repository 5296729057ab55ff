-- ===== src/Lev/Edits.antt =====
-- libdictd/lev.h: every candidate is at one edit.
use dictd.Prelude.{
  ℕ, suc, ◌-◌, ◌≡◌, ◌≢◌, refl, sym, ◌∙◌, inl, inr, List, [], ◌∷◌, ◌++◌, arith, ◌==◌, length,
  Bool-cases,
}
use mathlib.Core.Path.{subst}
use mathlib.Core.List.Memᴰ
use mathlib.Core.List.{Memᴰ}
use dictd.Lev.Candidates.{
  sweep, deletion_round, transposition_round, insertion_round, beginnings, substitution_round,
  candidates,
}
use dictd.Lev.Rounds.{
  deletions_at, deletion_round_at, letters_at, insertion_round_at, others_at, substitution_round_at,
  exchanges, sweep-exchanges,
}
use dictd.Lev.Sites.{sites, move_one, sites-Mem, sweep-sites}

-- One character left out, two neighbours exchanged, a letter put in, a character replaced by
-- another letter.
pub data Edit (alphabet : List ℕ) : List ℕ → List ℕ → Type 0 where
  deletion : (a : List ℕ) (c : ℕ) (b : List ℕ) → Edit alphabet (a ++ (c ∷ b)) (a ++ b)
  transposition :
      (a : List ℕ) (c d : ℕ) (b : List ℕ) → Edit alphabet (a ++ (c ∷ (d ∷ b))) (a ++ (d ∷ (c ∷ b)))
  insertion :
      (a : List ℕ) (x : ℕ) (b : List ℕ) → Memᴰ x alphabet → Edit alphabet (a ++ b) (a ++ (x ∷ b))
  substitution :
      (a : List ℕ) (c x : ℕ) (b : List ℕ)
      → Memᴰ x alphabet
      → c ≢ x
      → Edit alphabet (a ++ (c ∷ b)) (a ++ (x ∷ b))

-- From a list of candidates to an edit.
pub deletions-Edit : (alphabet v w : List ℕ) → Memᴰ v (sites deletions_at [] w) → Edit alphabet w v
deletions-Edit alphabet v w m =
    let (p, c, q, e, k) = sites-Mem deletions_at v [] w m in
    rw (e, Memᴰ.eq_of_singleton k) (deletion p c q)

exchanges-Edit :
    (alphabet v a : List ℕ) (c : ℕ) (b : List ℕ)
    → Memᴰ v (exchanges a c b)
    → Edit alphabet (a ++ (c ∷ b)) v
exchanges-Edit alphabet v a c [] m = absurd (Memᴰ.not-nil m)
exchanges-Edit alphabet v a c (d ∷ b) m = elim (Memᴰ.cases_cons m) [
  | inl e ↦ rw e (transposition a c d b)
  | inr k ↦
      subst (λ w. Edit alphabet w v) (move_one a (d ∷ b) c)
        (exchanges-Edit alphabet v (a ++ (c ∷ [])) d b k)
]

letters-Mem :
    (alphabet v a : List ℕ) (c : ℕ) (b : List ℕ)
    → Memᴰ v (letters_at alphabet a c b)
    → (x : ℕ) × Memᴰ x alphabet × (v ≡ a ++ (c ∷ (x ∷ b)))
letters-Mem [] v a c b m = absurd (Memᴰ.not-nil m)
letters-Mem (x ∷ alphabet) v a c b m = elim (Memᴰ.cases_cons m) [
  | inl e ↦ (x, Memᴰ.head refl, e)
  | inr k ↦ let (y, h, e) = letters-Mem alphabet v a c b k in (y, Memᴰ.tail h, e)
]

others-Mem :
    (alphabet v a : List ℕ) (c : ℕ) (b : List ℕ)
    → Memᴰ v (others_at alphabet a c b)
    → (x : ℕ) × Memᴰ x alphabet × (c ≢ x) × (v ≡ a ++ (x ∷ b))
others-Mem [] v a c b m = absurd (Memᴰ.not-nil m)
others-Mem (x ∷ alphabet) v a c b m = elim (Bool-cases (c == x)) [
  | inl e ↦ let (y, h, n, k) = others-Mem alphabet v a c b (rw e at m) in (y, Memᴰ.tail h, n, k)
  | inr e ↦ elim (Memᴰ.cases_cons (rw e at m)) [
    | inl k ↦ (x, Memᴰ.head refl, (λ p. ground (arith, e, p)), k)
    | inr k ↦ let (y, h, n, g) = others-Mem alphabet v a c b k in (y, Memᴰ.tail h, n, g)
  ]
]

beginnings-Mem :
    (alphabet v w : List ℕ)
    → Memᴰ v (beginnings w alphabet)
    → (x : ℕ) × Memᴰ x alphabet × (v ≡ x ∷ w)
unfolding beginnings
beginnings-Mem [] v w m = absurd (Memᴰ.not-nil m)
beginnings-Mem (x ∷ alphabet) v w m = elim (Memᴰ.cases_cons m) [
  | inl e ↦ (x, Memᴰ.head refl, e)
  | inr k ↦ let (y, h, e) = beginnings-Mem alphabet v w k in (y, Memᴰ.tail h, e)
]

abbrev pub exchanges_of : List ℕ → List ℕ → List (List ℕ)
exchanges_of a [] = []
exchanges_of a (c ∷ b) = exchanges a c b

pub exchanges_of-Edit : (alphabet v w : List ℕ) → Memᴰ v (exchanges_of [] w) → Edit alphabet w v
exchanges_of-Edit alphabet v [] m = absurd (Memᴰ.not-nil m)
exchanges_of-Edit alphabet v (c ∷ b) m = exchanges-Edit alphabet v [] c b m

pub letters-Edit :
    (alphabet v w : List ℕ) → Memᴰ v (sites (letters_at alphabet) [] w) → Edit alphabet w v
letters-Edit alphabet v w m =
    let (p, c, q, e, k) = sites-Mem (letters_at alphabet) v [] w m in
    let (x, h, g) = letters-Mem alphabet v p c q k in
    subst (λ r. Edit alphabet r v) (move_one p q c ∙ sym e)
      (subst (λ r. Edit alphabet ((p ++ (c ∷ [])) ++ q) r) (move_one p (x ∷ q) c ∙ sym g)
        (insertion (p ++ (c ∷ [])) x q h))

pub others-Edit :
    (alphabet v w : List ℕ) → Memᴰ v (sites (others_at alphabet) [] w) → Edit alphabet w v
others-Edit alphabet v w m =
    let (p, c, q, e, k) = sites-Mem (others_at alphabet) v [] w m in
    let (x, h, n, g) = others-Mem alphabet v p c q k in
    subst (λ r. Edit alphabet r v) (sym e)
      (subst (λ r. Edit alphabet (p ++ (c ∷ q)) r) (sym g) (substitution p c x q h n))

pub beginnings-Edit : (alphabet v w : List ℕ) → Memᴰ v (beginnings w alphabet) → Edit alphabet w v
beginnings-Edit alphabet v w m =
    let (x, h, e) = beginnings-Mem alphabet v w m in
    subst (λ r. Edit alphabet w r) (sym e) (insertion [] x w h)

sweep-exchanges_of : (w : List ℕ) → sweep transposition_round 0 (length w - 1) w ≡ exchanges_of [] w
unfolding sweep
sweep-exchanges_of [] = refl
sweep-exchanges_of (c ∷ b) =
    let k : suc (length b) - 1 ≡ length b = omega arith in rw k (sweep-exchanges [] c b)

abbrev pub parts : List ℕ → List ℕ → List (List ℕ)
parts alphabet w =
    sites deletions_at [] w
    ++ (exchanges_of [] w
        ++ (sites (letters_at alphabet) [] w
            ++ (beginnings w alphabet ++ sites (others_at alphabet) [] w)))

pub candidates-parts : (alphabet w : List ℕ) → candidates alphabet w ≡ parts alphabet w
unfolding candidates
candidates-parts alphabet w =
    rw
      (
        sweep-sites deletion_round deletions_at deletion_round_at [] w,
        sweep-exchanges_of w,
        sweep-sites (insertion_round alphabet) (letters_at alphabet) (insertion_round_at alphabet)
            [] w,
        sweep-sites (substitution_round alphabet) (others_at alphabet)
            (substitution_round_at alphabet) [] w,
      )
      refl
