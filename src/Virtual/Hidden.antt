-- ===== src/Virtual/Hidden.antt =====
-- libdictd/index.c: a search in a virtual database shows no hidden member.
use dictd.Prelude.{
  ℕ, zero, suc, ◌+◌, ◌<◌, ◌≡◌, refl, sym, ap, ◌∙◌, inr, List, [], ◌∷◌, ◌++◌, append-nil,
  append_assoc, Option, none, some, Bool, true, false, arith, length, length-append, get_elem?,
}
use dictd.Prelude.Int.{ℤ, pos, add_ℤ}
use dictd.Prelude.Result.{ok, ◌>>=◌, Returns, Returns-bind, Returns-map}
use dictd.Daemon.Types.{DictWord}
use dictd.Virtual.Search.{
  Info, Node, node, VirtualList, no_list, virtual_list, Members, no_more, member, Mime, no_mime,
  mime_pair, Search, Counted, flag_at, disabled_in, is_disabled, add_to, dict_search, search_list,
  search_members, search_mime,
}
use dictd.Virtual.Shown.{Grew, Any, every, Shown, All-map}
use dictd.Virtual.Stages.{search_with-Grew}

-- The words are of the database.
abbrev pub Own : Info → DictWord → Type 0
Own info w = w.database ≡ info.database

-- The array of disabled strategies, if there is one, has room for the strategy.
abbrev pub HasRoom : ℕ → Option (List Bool) → Type 0
HasRoom n none = Unit
HasRoom n (some a) = n < length a

-- In a database and in all its members; and no list of members is empty.
unfoldable mutual
  pub Room : ℕ → Node → Type 0
  Room n (node info list m) = HasRoom n info.strategy_disabled × RoomList n list × RoomMime n m

  pub RoomList : ℕ → VirtualList → Type 0
  RoomList n no_list = Unit
  RoomList n (virtual_list no_more) = ⊥
  RoomList n (virtual_list (member d rest)) = RoomMembers n (member d rest)

  pub RoomMembers : ℕ → Members → Type 0
  RoomMembers n no_more = Unit
  RoomMembers n (member d rest) = Room n d × RoomMembers n rest

  pub RoomMime : ℕ → Mime → Type 0
  RoomMime n no_mime = Unit
  RoomMime n (mime_pair a b) = Room n a × Room n b

get_elem?-some : (a : List Bool) (n : ℕ) → n < length a → (b : Bool) × (get_elem? a n ≡ some b)
get_elem?-some [] n h = absurd (omega arith)
get_elem?-some (b ∷ a) zero h = (b, refl)
get_elem?-some (b ∷ a) (suc n) h = get_elem?-some a n (omega arith)

Grew-map :
    (P Q : DictWord → Type 0) (l : List DictWord) (m : Counted)
    → ((w : DictWord) → P w → Q w)
    → Returns m (Grew P l)
    → Returns m (Grew Q l)
Grew-map P Q l m f h =
    Returns-map m (Grew P l) (Grew Q l) h (λ r (new, e, c, a). (new, e, c, All-map P Q new f a))

add_pos : (a b : ℕ) → add_ℤ (pos a) (pos b) ≡ pos (a + b)
add_pos a b = ground arith

add_to-Grew :
    (l : List DictWord) (count : ℤ) (s : Search) (r : ℤ × Search)
    → Grew Any l (count, s)
    → Grew Any s.list r
    → Grew Any l (add_to count r)
add_to-Grew l count s (n, t) (new, e, c, _) (more, f, d, _) = (
  new ++ more,
  f ∙ ap (λ k. k ++ more) e ∙ append_assoc l new more,
  ap (λ k. add_ℤ k n) c
      ∙ ap (add_ℤ (pos (length new))) d
      ∙ add_pos (length new) (length more)
      ∙ ap pos (sym (length-append new more)),
  every Any (new ++ more) (λ w. tt),
)

module _ (search_index : Info → Search → Counted) (search_plugin : Info → Search → Counted)
    (norm_strategy : ℕ)
    (index_total : (info : Info) (s : Search)
      → Returns (search_index info s) (Grew (Own info) s.list))
    (plugin_total : (info : Info) (s : Search)
      → Returns (search_plugin info s) (Grew (Own info) s.list)) where
  disabled_in-Returns :
      (o : Option (List Bool))
      → HasRoom norm_strategy o
      → Returns (disabled_in search_index search_plugin norm_strategy o) (λ b. Unit {0})
  unfolding disabled_in flag_at
  disabled_in-Returns none h = tt
  disabled_in-Returns (some a) h = let (b, e) = get_elem?-some a norm_strategy h in rw e tt

  ready :
      (info : Info)
      → HasRoom norm_strategy info.strategy_disabled
      → Returns (is_disabled search_index search_plugin norm_strategy info) (λ b. Unit {0})
  unfolding is_disabled
  ready info h = disabled_in-Returns info.strategy_disabled h

  own_index-Any : (info : Info) (s : Search) → Returns (search_index info s) (Grew Any s.list)
  own_index-Any info s =
      Grew-map (Own info) Any s.list (search_index info s) (λ w _. tt) (index_total info s)

  plugin-Any : (info : Info) (s : Search) → Returns (search_plugin info s) (Grew Any s.list)
  plugin-Any info s =
      Grew-map (Own info) Any s.list (search_plugin info s) (λ w _. tt) (plugin_total info s)

  mutual
    unfolding dict_search Room

    dict_search-Any :
        (mime : Bool) (n : Node) (s : Search)
        → Room norm_strategy n
        → Returns (dict_search search_index search_plugin norm_strategy mime n s) (Grew Any s.list)
    dict_search-Any mime (node info list m) s (h, hs, hm) =
        search_with-Grew search_index search_plugin norm_strategy Any info s.list (inr (λ w. tt))
          (λ w. tt) (search_list search_index search_plugin norm_strategy mime list)
          (search_mime search_index search_plugin norm_strategy mime m)
          (λ s. search_list-Any mime list s hs) (λ s. search_mime-Any mime m s hm) (plugin-Any info)
          (own_index-Any info) (ready info h) s refl

    search_list-Any :
        (mime : Bool) (list : VirtualList) (s : Search)
        → RoomList norm_strategy list
        → Returns
            (search_list search_index search_plugin norm_strategy mime list s)
            (Grew Any s.list)
    search_list-Any mime no_list s h = ([], sym (append-nil s.list), refl, tt)
    search_list-Any mime (virtual_list no_more) s h = absurd h
    search_list-Any mime (virtual_list (member n rest)) s h =
        search_members-Any mime (member n rest) s h

    search_members-Any :
        (mime : Bool) (members : Members) (s : Search)
        → RoomMembers norm_strategy members
        → Returns
            (search_members search_index search_plugin norm_strategy mime members s)
            (Grew Any s.list)
    search_members-Any mime no_more s h = ([], sym (append-nil s.list), refl, tt)
    search_members-Any mime (member n rest) s (h, hs) =
        Returns-bind (dict_search search_index search_plugin norm_strategy mime n s)
          (λ (count, s').
            search_members search_index search_plugin norm_strategy mime rest s' >>= λ r.
            ok (add_to count r))
          (Grew Any s.list) (Grew Any s.list) (dict_search-Any mime n s h)
          (λ (count, s') g.
            Returns-bind (search_members search_index search_plugin norm_strategy mime rest s')
              (λ r. ok (add_to count r)) (Grew Any s'.list) (Grew Any s.list)
              (search_members-Any mime rest s' hs) (λ r k. add_to-Grew s.list count s' r g k))

    search_mime-Any :
        (mime : Bool) (m : Mime) (s : Search)
        → RoomMime norm_strategy m
        → Returns (search_mime search_index search_plugin norm_strategy mime m s) (Grew Any s.list)
    search_mime-Any mime no_mime s h = ([], sym (append-nil s.list), refl, tt)
    search_mime-Any true (mime_pair a b) s (ha, hb) = dict_search-Any false a s ha
    search_mime-Any false (mime_pair a b) s (ha, hb) = dict_search-Any false b s hb
