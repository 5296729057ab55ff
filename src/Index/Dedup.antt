-- ===== src/Index/Dedup.antt =====
-- libdictd/index.c: `previous` is never set, so `uniq_only` has no effect.
use dictd.Prelude.{
  ℕ, zero, suc, ◌≡◌, refl, List, Option, none, some, Bool, true, false, ltb, if◌then◌else◌, length,
  Bool-cases, inl, inr, ◌-◌,
}
use dictd.Prelude.Result.{Result, ok, err, ◌>>=◌}
use dictd.Index.Types.{SearchFault, Tables, DictIndex, Cmp, less, prefix, equal, greater}
use dictd.Index.Compare.{compare}
use dictd.Index.Lines.{find_next}
use dictd.Index.Search.{dict_index_search}
use dictd.Index.Word.{DictWord}
use dictd.Index.Exact.{
  Matches, ExactStep, differs_from_previous, store, exact_match, exact_step, exact_loop, exact_from,
  dict_search_exact,
}

module _ (b64_decode_buf : List ℕ → ℕ) (t : Tables) (x : DictIndex) (limit : ℕ)
    (word : List ℕ) where
  exact_step-uniq :
      (pt : ℕ) (m : Matches)
      → exact_step b64_decode_buf t x limit word true pt none m
        ≡ exact_step b64_decode_buf t x limit word false pt none m
  unfolding exact_step exact_match differs_from_previous
  exact_step-uniq pt m = refl

  -- The value of `previous` behind a round that began with NULL.
  StaysNull : Result SearchFault ExactStep → Type 0
  StaysNull (ok (more, previous, m)) = previous ≡ none
  StaysNull (err e) = Unit

  StaysNull-bind :
      (r : Result SearchFault (Bool × Matches))
      → StaysNull (r >>= λ (s : Bool × Matches). ok (s.0, none, s.1))
  unfolding StaysNull
  StaysNull-bind (ok s) = refl
  StaysNull-bind (err e) = tt

  exact_match-StaysNull :
      (u : Bool) (pt : ℕ) (m : Matches)
      → StaysNull (exact_match b64_decode_buf t x limit word u pt none m)
  unfolding exact_match differs_from_previous
  exact_match-StaysNull true pt m = StaysNull-bind (store b64_decode_buf t x limit word m pt)
  exact_match-StaysNull false pt m = StaysNull-bind (store b64_decode_buf t x limit word m pt)

  -- What the comparison decides in a round.
  decide : Bool → ℕ → Matches → Cmp → Result SearchFault ExactStep
  decide u pt m c = elim c [
    | equal ↦ exact_match b64_decode_buf t x limit word u pt none m
    | _ ↦ ok (false, none, m)
  ]

  decide-StaysNull :
      (u : Bool) (pt : ℕ) (m : Matches) (r : Result SearchFault Cmp)
      → StaysNull (r >>= decide u pt m)
  unfolding StaysNull decide
  decide-StaysNull u pt m (ok equal) = exact_match-StaysNull u pt m
  decide-StaysNull u pt m (ok less) = refl
  decide-StaysNull u pt m (ok prefix) = refl
  decide-StaysNull u pt m (ok greater) = refl
  decide-StaysNull u pt m (err e) = tt

  exact_step-StaysNull :
      (u : Bool) (pt : ℕ) (m : Matches)
      → StaysNull (exact_step b64_decode_buf t x limit word u pt none m)
  unfolding exact_step decide
  exact_step-StaysNull u pt m = decide-StaysNull u pt m (compare t x word pt (length x.bytes))

  -- The rest of the loop behind a round.
  go_on : Bool → ℕ → ℕ → ExactStep → Result SearchFault Matches
  go_on u fuel next (more, previous, m) =
      let rest = exact_loop b64_decode_buf t x limit word u fuel next previous m in
      if more then rest else ok m

  go_on_eq :
      (fuel next : ℕ)
      → ((m : Matches)
          → exact_loop b64_decode_buf t x limit word true fuel next none m
            ≡ exact_loop b64_decode_buf t x limit word false fuel next none m)
      → (r : Result SearchFault ExactStep) → StaysNull r
      → (r >>= go_on true fuel next) ≡ (r >>= go_on false fuel next)
  unfolding go_on StaysNull
  go_on_eq fuel next ih (ok (true, previous, m)) h = rw h (ih m)
  go_on_eq fuel next ih (ok (false, previous, m)) h = refl
  go_on_eq fuel next ih (err e) h = refl

  exact_loop-uniq :
      (fuel pt : ℕ) (m : Matches)
      → exact_loop b64_decode_buf t x limit word true fuel pt none m
        ≡ exact_loop b64_decode_buf t x limit word false fuel pt none m
  unfolding exact_loop go_on
  exact_loop-uniq zero pt m = refl
  exact_loop-uniq (suc fuel) pt m =
      let next = find_next x.bytes pt (length x.bytes) in
      let step = exact_step b64_decode_buf t x limit word false pt none m in
      let same =
        go_on_eq fuel next (exact_loop-uniq fuel next) step (exact_step-StaysNull false pt m) in
      rw (exact_step-uniq pt m) (elim (Bool-cases (ltb pt (length x.bytes))) [
        | inl room ↦ rw room same
        | inr gone ↦ rw gone refl
      ])

  exact_from-uniq :
      (l : Option (List DictWord)) (found : Option ℕ)
      → exact_from b64_decode_buf t x limit word l true found
        ≡ exact_from b64_decode_buf t x limit word l false found
  unfolding exact_from
  exact_from-uniq l none = refl
  exact_from-uniq l (some pt) = exact_loop-uniq (suc (length x.bytes - pt)) pt _

  bind_eq :
      (r : Result SearchFault (Option ℕ)) (f g : Option ℕ → Result SearchFault Matches)
      → ((o : Option ℕ) → f o ≡ g o)
      → (r >>= f) ≡ (r >>= g)
  bind_eq (ok o) f g h = h o
  bind_eq (err e) f g h = refl

  -- `uniq_only`, which a MATCH asks for, changes nothing: on every index, sorted or not, for every
  -- word, limit and list, `dict_search_exact` gives with it what it gives without it, duplicates
  -- included.
  pub dict_search_exact-uniq :
      (l : Option (List DictWord))
      → dict_search_exact b64_decode_buf t x limit word l true
        ≡ dict_search_exact b64_decode_buf t x limit word l false
  unfolding dict_search_exact
  dict_search_exact-uniq l = bind_eq (dict_index_search t x word) _ _ (exact_from-uniq l)
