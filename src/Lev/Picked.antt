-- ===== src/Lev/Picked.antt =====
-- libdictd/lev.h: the words that `dict_search_lev_8bit` counts, of a list of candidates.
use dictd.Prelude.{
  ℕ, ◌≡◌, refl, sym, ap, ◌∙◌, inl, inr, List, [], ◌∷◌, Option, none, some, Bool, true, false, arith,
  if◌then◌else◌, Bool-cases,
}
use mathlib.Core.List.Memᴰ
use mathlib.Core.List.{Memᴰ}
use dictd.Daemon.Databases.{same_string}
use dictd.Session.Longest.{same_string_eq, same_string_refl}
use dictd.Index.Word.{DictWord}
use dictd.Lev.Search.{set_member}

set_member-Mem : (s : List (List ℕ)) (w : List ℕ) → set_member s w ≡ true → Memᴰ w s
unfolding set_member
set_member-Mem [] w h = absurd (ground (arith, h))
set_member-Mem (v ∷ s) w h = elim (Bool-cases (same_string v w)) [
  | inl e ↦ Memᴰ.head (sym (same_string_eq v w e))
  | inr e ↦ Memᴰ.tail (set_member-Mem s w (ground (arith, e, h)))
]

Mem-set_member : (s : List (List ℕ)) (w : List ℕ) → Memᴰ w s → set_member s w ≡ true
unfolding set_member
Mem-set_member [] w m = absurd (Memᴰ.not-nil m)
Mem-set_member (v ∷ s) w m = elim (Memᴰ.cases_cons m) [
  | inl e ↦ rw (e, same_string_refl v) refl
  | inr k ↦ ground (arith, Mem-set_member s w k)
]

-- No word twice.
abbrev pub Unrepeated : List (List ℕ) → Type 0
Unrepeated [] = Unit
Unrepeated (w ∷ l) = (Memᴰ w l → ⊥) × Unrepeated l

module _ (answer : List ℕ → Option DictWord) where
  abbrev pub is_some : Option DictWord → Bool
  is_some none = false
  is_some (some e) = true

  -- The words that are counted, of these and with those seen before; and their entries.
  abbrev pub pick : List (List ℕ) → List (List ℕ) → List (List ℕ)
  pick seen [] = []
  pick seen (w ∷ words) =
      if is_some (answer w)
      then (if set_member seen w then pick seen words else w ∷ pick (w ∷ seen) words)
      else pick seen words

  abbrev pub with_entry : Option DictWord → List DictWord → List DictWord
  with_entry none l = l
  with_entry (some e) l = e ∷ l

  abbrev pub entries : List (List ℕ) → List DictWord
  entries [] = []
  entries (w ∷ words) = with_entry (answer w) (entries words)

  -- What is picked: words of the list that have an entry and were not seen.
  pub pick-Mem :
      (seen words : List (List ℕ)) (v : List ℕ)
      → Memᴰ v (pick seen words)
      → Memᴰ v words × (is_some (answer v) ≡ true) × (set_member seen v ≡ false)
  unfolding set_member
  pick-Mem seen [] v m = absurd (Memᴰ.not-nil m)
  pick-Mem seen (w ∷ words) v m = elim (Bool-cases (is_some (answer w))) [
    | inr e ↦ let (h, a, n) = pick-Mem seen words v (rw e at m) in (Memᴰ.tail h, a, n)
    | inl e ↦ elim (Bool-cases (set_member seen w)) [
      | inl f ↦ let (h, a, n) = pick-Mem seen words v (rw (e, f) at m) in (Memᴰ.tail h, a, n)
      | inr f ↦ elim (Memᴰ.cases_cons (rw (e, f) at m)) [
        | inl g ↦ (Memᴰ.head g, rw g e, rw g f)
        | inr k ↦
            let (h, a, n) = pick-Mem (w ∷ seen) words v k in (Memᴰ.tail h, a, ground (arith, n))
      ]
    ]
  ]

  pub Mem-pick :
      (seen words : List (List ℕ)) (v : List ℕ)
      → Memᴰ v words
      → is_some (answer v) ≡ true
      → set_member seen v ≡ false
      → Memᴰ v (pick seen words)
  unfolding set_member
  Mem-pick seen [] v m a n = absurd (Memᴰ.not-nil m)
  Mem-pick seen (w ∷ words) v m a n = elim (Memᴰ.cases_cons m) [
    | inl g ↦
        let e : is_some (answer w) ≡ true = ap (λ u. is_some (answer u)) (sym g) ∙ a in
        let f : set_member seen w ≡ false = ap (set_member seen) (sym g) ∙ n in
        rw (e, f) (Memᴰ.head g)
    | inr k ↦ elim (Bool-cases (is_some (answer w))) [
      | inr e ↦ rw e (Mem-pick seen words v k a n)
      | inl e ↦ elim (Bool-cases (set_member seen w)) [
        | inl f ↦ rw (e, f) (Mem-pick seen words v k a n)
        | inr f ↦ elim (Bool-cases (same_string w v)) [
          | inl h ↦ rw (e, f) (Memᴰ.head (sym (same_string_eq w v h)))
          | inr h ↦ rw (e, f) (Memᴰ.tail (Mem-pick (w ∷ seen) words v k a (ground (arith, h, n))))
        ]
      ]
    ]
  ]

  pub pick-Unrepeated : (seen words : List (List ℕ)) → Unrepeated (pick seen words)
  unfolding set_member
  pick-Unrepeated seen [] = tt
  pick-Unrepeated seen (w ∷ words) = elim (Bool-cases (is_some (answer w))) [
    | inr e ↦ rw e (pick-Unrepeated seen words)
    | inl e ↦ elim (Bool-cases (set_member seen w)) [
      | inl f ↦ rw (e, f) (pick-Unrepeated seen words)
      | inr f ↦
          rw (e, f)
            (
              (λ m.
                  let (h, a, n) = pick-Mem (w ∷ seen) words w m in
                  ground (arith, n, same_string_refl w)),
              pick-Unrepeated (w ∷ seen) words,
            )
    ]
  ]
