-- ===== src/Virtual/Search.antt =====
-- libdictd/index.c: `dict_search` and `replace_invisible_databases`. A virtual database holds the
-- list of its members, a MIME database a pair. The search in one index (`dict_search_database_`)
-- and in one plugin (`dict_search_plugin`) are parameters.
use dictd.Prelude.{
  ℕ, zero, suc, List, [], ◌∷◌, Option, none, some, Bool, true, false, ◌&&◌, if◌then◌else◌, length,
  get_elem?,
}
use dictd.Prelude.Int.{ℤ, pos, add_ℤ, ltb_ℤ, eqb_ℤ}
use dictd.Prelude.Result.{Result, ok, err, ◌>>=◌}
use dictd.Daemon.Types.{Database, DictWord}
use dictd.Daemon.Search.{DaemonFault, assertion, overflow, PluginResult, found, not_found}

-- Of dictDatabase: what the search looks at beside the members.
pub record Info : Type 0 where
  pub database : Database
  pub strategy_disabled : Option (List Bool)
  pub has_index : Bool
  pub has_plugin : Bool

-- With `virtual_db_list` (NULL or a list), and with `mime_mimeDB` and `mime_nomimeDB`.
mutual
  pub data Node : Type 0 where
    node : Info → VirtualList → Mime → Node

  pub data VirtualList : Type 0 where
    no_list : VirtualList
    virtual_list : Members → VirtualList

  pub data Members : Type 0 where
    no_more : Members
    member : Node → Members → Members

  pub data Mime : Type 0 where
    no_mime : Mime
    mime_pair : Node → Node → Mime

-- The list, and `*extra_result`.
pub record Search : Type 0 where
  pub list : List DictWord
  pub extra : PluginResult

abbrev pub Counted : Type 0
Counted = Result DaemonFault (ℤ × Search)

-- `dw -> database && dw -> database -> invisible && !dw -> database_visible`
unfoldable pub visible_as : Database → DictWord → Option Database → DictWord
visible_as db dw none =
    if dw.database.invisible then record dw { database_visible = some db } else dw
visible_as db dw (some _) = dw

unfoldable pub replace_database : Database → DictWord → DictWord
unfolding visible_as
replace_database db dw = visible_as db dw dw.database_visible

-- `replace_invisible_databases` from a position of the list.
unfoldable pub replace_invisible_databases : Database → ℕ → List DictWord → List DictWord
unfolding replace_database
replace_invisible_databases db n [] = []
replace_invisible_databases db zero (dw ∷ l) =
    replace_database db dw ∷ replace_invisible_databases db zero l
replace_invisible_databases db (suc n) (dw ∷ l) = dw ∷ replace_invisible_databases db n l

-- `if (count > old_count)`
unfoldable pub replace_new : Database → ℕ → ℤ × Search → ℤ × Search
replace_new db old_count (count, s) =
    if ltb_ℤ (pos old_count) count
    then (count, record s { list = replace_invisible_databases db old_count s.list })
    else (count, s)

-- `if (count > 0 && extra_result) *extra_result = FOUND`
unfoldable pub mark_found : ℤ × Search → ℤ × Search
mark_found (count, s) = (count, if ltb_ℤ (pos 0) count then record s { extra = found } else s)

-- `count += dict_search(...)`
abbrev pub add_to : ℤ → ℤ × Search → ℤ × Search
add_to count (n, s) = (add_ℤ count n, s)

module _ (search_index : Info → Search → Counted) (search_plugin : Info → Search → Counted)
    (norm_strategy : ℕ) where
  unfoldable pub flag_at : Option Bool → Result DaemonFault Bool
  flag_at none = err overflow
  flag_at (some b) = ok b

  -- `strategy_disabled [norm_strategy]`
  unfoldable pub disabled_in : Option (List Bool) → Result DaemonFault Bool
  disabled_in none = ok false
  disabled_in (some a) = flag_at (get_elem? a norm_strategy)

  unfoldable pub is_disabled : Info → Result DaemonFault Bool
  is_disabled info = disabled_in info.strategy_disabled

  unfoldable pub index_if : Bool → Info → Search → Counted
  index_if true info s = search_index info s
  index_if false info s = ok (pos 0, s)

  unfoldable pub own_index : Info → Search → Counted
  own_index info s = index_if info.has_index info s

  -- A stage for the members, after `count`: only if nothing was found.
  unfoldable pub stage : Database → (Search → Counted) → ℤ × Search → Counted
  stage db search (count, s) =
      if eqb_ℤ count (pos 0)
      then (do r ← search s; ok (replace_new db (length s.list) r))
      else ok (count, s)

  -- After the search in the plugin: a result ends the search.
  unfoldable pub after_plugin :
      Info → (Search → Counted) → (Search → Counted) → ℤ × Search → Counted
  after_plugin info members mime r = do
    r1 ← stage info.database members r
    r2 ← stage info.database mime r1
    ok (mark_found r2)

  unfoldable pub plugin_result :
      Info → (Search → Counted) → (Search → Counted) → ℤ × Search → Counted
  plugin_result info members mime (count, s) =
      if eqb_ℤ count (pos 0) then after_plugin info members mime (count, s) else ok (count, s)

  unfoldable pub after_index : Info → (Search → Counted) → (Search → Counted) → ℤ × Search → Counted
  after_index info members mime (count, s) =
      if eqb_ℤ count (pos 0) && info.has_plugin
      then (do r ← search_plugin info s; plugin_result info members mime r)
      else after_plugin info members mime (count, s)

  -- The body of `dict_search`, with the searches in the members.
  unfoldable pub search_with : Info → (Search → Counted) → (Search → Counted) → Search → Counted
  search_with info members mime s = do
    disabled ← is_disabled info
    if disabled then ok (pos 0, record s { extra = not_found }) else (do
      r ← own_index info (record s { extra = not_found })
      after_index info members mime r)

  -- With `option_mime`.
  unfoldable mutual
    pub dict_search : Bool → Node → Search → Counted
    dict_search option_mime (node info members mime) s =
        search_with info (search_list option_mime members) (search_mime option_mime mime) s

    -- `assert(lst_init_position(...))` fails on a list without members.
    pub search_list : Bool → VirtualList → Search → Counted
    search_list option_mime no_list s = ok (pos 0, s)
    search_list option_mime (virtual_list no_more) s = err assertion
    search_list option_mime (virtual_list (member n rest)) s =
        search_members option_mime (member n rest) s

    -- LST_ITERATE, with the count of the members behind added in front.
    pub search_members : Bool → Members → Search → Counted
    search_members option_mime no_more s = ok (pos 0, s)
    search_members option_mime (member n rest) s = do
      (count, s') ← dict_search option_mime n s
      r ← search_members option_mime rest s'
      ok (add_to count r)

    pub search_mime : Bool → Mime → Search → Counted
    search_mime option_mime no_mime s = ok (pos 0, s)
    search_mime option_mime (mime_pair mime_db nomime_db) s =
        let with_mime = dict_search false mime_db s in
        let without = dict_search false nomime_db s in if option_mime then with_mime else without
