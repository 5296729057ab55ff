-- ===== src/Lev/Sites.antt =====
-- Lists made from the places of a word.
use dictd.Prelude.{
  ℕ, suc, ◌≡◌, refl, sym, ap, ◌∙◌, inl, inr, List, [], ◌∷◌, ◌++◌, append-nil, append_assoc, arith,
  length, length-append,
}
use mathlib.Core.Path.{subst}
use mathlib.Core.List.Memᴰ
use mathlib.Core.List.{Memᴰ}
use dictd.Lev.Candidates.{Round, sweep}

-- At each place: the part before, the character, the part behind.
abbrev pub Site : Type 0
Site = List ℕ → ℕ → List ℕ → List (List ℕ)

abbrev pub sites : Site → List ℕ → List ℕ → List (List ℕ)
sites f a [] = []
sites f a (c ∷ b) = f a c b ++ sites f (a ++ (c ∷ [])) b

pub move_one : (a b : List ℕ) (c : ℕ) → (a ++ (c ∷ [])) ++ b ≡ a ++ (c ∷ b)
move_one a b c = append_assoc a (c ∷ []) b

pub sites-Mem :
    (f : Site) (v a b : List ℕ)
    → Memᴰ v (sites f a b)
    → (p : List ℕ) × (c : ℕ) × (q : List ℕ) × (b ≡ p ++ (c ∷ q)) × Memᴰ v (f (a ++ p) c q)
sites-Mem f v a [] m = absurd (Memᴰ.not-nil m)
sites-Mem f v a (c ∷ b) m = elim (Memᴰ.append_cases (f a c b) m) [
  | inl h ↦ ([], c, b, refl, rw (append-nil a) h)
  | inr h ↦
      let (p, d, q, e, k) = sites-Mem f v (a ++ (c ∷ [])) b h in
      (c ∷ p, d, q, ap (λ l. c ∷ l) e, subst (λ l. Memᴰ v (f l d q)) (move_one a p c) k)
]

pub Mem-sites :
    (f : Site) (v a p : List ℕ) (c : ℕ) (q : List ℕ)
    → Memᴰ v (f (a ++ p) c q)
    → Memᴰ v (sites f a (p ++ (c ∷ q)))
Mem-sites f v a [] c q m =
    Memᴰ.append_left (sites f (a ++ (c ∷ [])) q) (subst (λ l. Memᴰ v (f l c q)) (append-nil a) m)
Mem-sites f v a (d ∷ p) c q m =
    Memᴰ.append_right (f a d (p ++ (c ∷ q)))
      (Mem-sites f v (a ++ (d ∷ [])) p c q (subst (λ l. Memᴰ v (f l c q)) (sym (move_one a p d)) m))

-- A loop over the places that leaves the buffer as it was.
pub sweep-sites :
    (body : ℕ → List ℕ → Round) (f : Site)
    → ((a : List ℕ) (c : ℕ) (b : List ℕ) → body (length a) (a ++ (c ∷ b)) ≡ (f a c b, a ++ (c ∷ b)))
    → (a b : List ℕ) → sweep body (length a) (length b) (a ++ b) ≡ sites f a b
unfolding sweep
sweep-sites body f h a [] = refl
sweep-sites body f h a (c ∷ b) =
    let ih = sweep-sites body f h (a ++ (c ∷ [])) b in
    let l : length (a ++ (c ∷ [])) ≡ suc (length a) = omega (arith, length-append a (c ∷ [])) in
    rw (h a c b) (
      ap (λ r. f a c b ++ r)
        (ap (λ k. sweep body k (length b) (a ++ (c ∷ b))) (sym l)
          ∙ ap (λ w. sweep body (length (a ++ (c ∷ []))) (length b) w) (sym (move_one a b c))
          ∙ ih))
