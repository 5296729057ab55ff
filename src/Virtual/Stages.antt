-- ===== src/Virtual/Stages.antt =====
-- libdictd/index.c: the stages of `dict_search` count what they add.
use dictd.Prelude.{
  ℕ, ◌≡◌, refl, sym, ◌∙◌, ◌⊎◌, inl, inr, List, [], append-nil, Bool, true, false, ◌&&◌, arith,
  if◌then◌else◌, length, Bool-cases,
}
use dictd.Prelude.Int.{ℤ, pos, eqb_ℤ}
use dictd.Prelude.Result.{ok, ◌>>=◌, Returns, Returns-bind}
use dictd.Daemon.Types.{DictWord}
use dictd.Daemon.Search.{not_found}
use dictd.Virtual.Search.{
  Info, Search, Counted, replace_database, replace_new, mark_found, is_disabled, index_if,
  own_index, stage, after_plugin, plugin_result, after_index, search_with,
}
use dictd.Virtual.Shown.{
  Grew, Any, same_list, none_found, mark_found-Grew, fresh_list, same_returned, replace_new-Grew,
}

-- A property that the words of a database have, and all that are replaced.
module _ (search_index : Info → Search → Counted) (search_plugin : Info → Search → Counted)
    (norm_strategy : ℕ) (P : DictWord → Type 0) (info : Info) (l : List DictWord)
    (fresh : (l ≡ []) ⊎ ((w : DictWord) → P w))
    (replaced : (w : DictWord) → P (replace_database info.database w)) where
  stage-Grew :
      (search : Search → Counted) (r : ℤ × Search)
      → ((s : Search) → Returns (search s) (Grew Any s.list))
      → Grew P l r
      → Returns (stage search_index search_plugin norm_strategy info.database search r) (Grew P l)
  unfolding stage
  stage-Grew search (count, s) total g = elim (Bool-cases (eqb_ℤ count (pos 0))) [
    | inr h ↦ rw h g
    | inl h ↦
        let e = none_found P l count s h g in
        rw h (
          Returns-bind (search s) (λ r. ok (replace_new info.database (length s.list) r))
            (Grew Any s.list) (Grew P l) (total s)
            (λ r k. same_list P s.list l (replace_new info.database (length s.list) r) e (
              replace_new-Grew P info.database s.list r (fresh_list P l s.list e fresh) replaced
                k)))
  ]

  module _ (members mime : Search → Counted)
      (members_total : (s : Search) → Returns (members s) (Grew Any s.list))
      (mime_total : (s : Search) → Returns (mime s) (Grew Any s.list)) where
    after_plugin-Grew :
        (r : ℤ × Search)
        → Grew P l r
        → Returns
            (after_plugin search_index search_plugin norm_strategy info members mime r)
            (Grew P l)
    unfolding after_plugin
    after_plugin-Grew r g =
        let st = stage search_index search_plugin norm_strategy info.database in
        Returns-bind (st members r) (λ r1. st mime r1 >>= λ r2. ok (mark_found r2)) (Grew P l)
          (Grew P l) (stage-Grew members r members_total g)
          (λ r1 g1.
            Returns-bind (st mime r1) (λ r2. ok (mark_found r2)) (Grew P l) (Grew P l)
              (stage-Grew mime r1 mime_total g1) (λ r2 g2. mark_found-Grew P l r2 g2))

    plugin_result-Grew :
        (r : ℤ × Search)
        → Grew P l r
        → Returns
            (plugin_result search_index search_plugin norm_strategy info members mime r)
            (Grew P l)
    unfolding plugin_result
    plugin_result-Grew (count, s) g = elim (Bool-cases (eqb_ℤ count (pos 0))) [
      | inl h ↦ rw h (after_plugin-Grew (count, s) g)
      | inr h ↦ rw h g
    ]

    module _ (plugin_total : (s : Search) → Returns (search_plugin info s) (Grew P s.list))
        (index_total : (s : Search) → Returns (search_index info s) (Grew P s.list))
        (ready : Returns
          (is_disabled search_index search_plugin norm_strategy info)
          (λ b. Unit {0})) where
      after_index-Grew :
          (r : ℤ × Search)
          → Grew P l r
          → Returns
              (after_index search_index search_plugin norm_strategy info members mime r)
              (Grew P l)
      unfolding after_index
      after_index-Grew (count, s) g = elim (Bool-cases (eqb_ℤ count (pos 0) && info.has_plugin)) [
        | inr h ↦ rw h (after_plugin-Grew (count, s) g)
        | inl h ↦
            let e = none_found P l count s (ground (arith, h)) g in
            rw h (
              Returns-bind (search_plugin info s)
                (plugin_result search_index search_plugin norm_strategy info members mime)
                (Grew P s.list) (Grew P l) (plugin_total s)
                (λ r k. plugin_result-Grew r (same_list P s.list l r e k)))
      ]

      own_index-Grew :
          (b : Bool) (s : Search)
          → Returns (index_if search_index search_plugin norm_strategy b info s) (Grew P s.list)
      unfolding index_if
      own_index-Grew true s = index_total s
      own_index-Grew false s = ([], sym (append-nil s.list), refl, tt)

      pub search_with-Grew :
          (s : Search)
          → s.list ≡ l
          → Returns
              (search_with search_index search_plugin norm_strategy info members mime s)
              (Grew P l)
      unfolding search_with own_index
      search_with-Grew s e =
          let s0 : Search = record s { extra = not_found } in
          let after = after_index search_index search_plugin norm_strategy info members mime in
          let own = own_index search_index search_plugin norm_strategy info in
          Returns-bind (is_disabled search_index search_plugin norm_strategy info)
            (λ disabled. if disabled then ok (pos 0, s0) else (own s0 >>= after)) (λ b. Unit {0})
            (Grew P l) ready
            (λ disabled _.
              elim disabled
                as (λ b. Returns (if b then ok (pos 0, s0) else (own s0 >>= after)) (Grew P l)) [
                  | true ↦ ([], e ∙ sym (append-nil l), refl, tt)
                  | false ↦
                      Returns-bind (own s0) after (Grew P l) (Grew P l)
                        (same_returned P s.list l (own s0) e (own_index-Grew info.has_index s0))
                        (λ r g. after_index-Grew r g)
                ])
