-- ===== src/Tests/Virtual.antt =====
-- Tests of dict_search of libdictd/index.c: a virtual database with one hidden member.
use dictd.Prelude.{◌≡◌, refl, [], ◌∷◌, ◌++◌, none, some, true, false}
use dictd.Prelude.Int.{pos, eqb_ℤ, ltb_ℤ}
use dictd.Prelude.Result.{ok, err}
use dictd.Daemon.Types.{DictWord}
use dictd.Daemon.Search.{assertion, found, not_found}
use dictd.Virtual.Search.{
  Info, Node, node, VirtualList, no_list, virtual_list, no_more, member, no_mime, Search, Counted,
  dict_search, is_disabled, disabled_in, search_with, own_index, index_if, after_index,
  after_plugin, stage, replace_new, mark_found, replace_invisible_databases,
}
use dictd.Virtual.Shown.{Shown}
use dictd.Tests.Daemon.{web, hidden, entry, hi}

abbrev hidden_info : Info
hidden_info = record {
  database = hidden;
  strategy_disabled = none;
  has_index = true;
  has_plugin = false;
}

abbrev web_info : Info
web_info = record hidden_info { database = web; has_index = false }

abbrev hidden_member : VirtualList
hidden_member = virtual_list (member (node hidden_info no_list no_mime) no_more)

abbrev web_node : Node
web_node = node web_info hidden_member no_mime

-- One word in every index.
abbrev one_word : Info → Search → Counted
one_word info s = ok (pos 1, record s { list = s.list ++ (entry hi info.database ∷ []) })

-- Found in the hidden member, shown as one of the virtual database.
abbrev shown_as_web : DictWord
shown_as_web = record (entry hi hidden) { database_visible = some web }

hidden_is_replaced :
    dict_search one_word one_word 1 true web_node (record { list = []; extra = not_found })
    ≡ ok (pos 1, record { list = shown_as_web ∷ []; extra = found })
unfolding dict_search search_with is_disabled disabled_in own_index index_if after_index eqb_ℤ
    after_plugin stage replace_new ltb_ℤ mark_found replace_invisible_databases
hidden_is_replaced = refl

-- With a word in the list before, it is not.
hidden_is_left :
    dict_search one_word one_word 1 true web_node
      (record { list = entry hi web ∷ []; extra = not_found })
    ≡ ok (pos 1, record { list = entry hi web ∷ entry hi hidden ∷ []; extra = found })
unfolding dict_search search_with is_disabled disabled_in own_index index_if after_index eqb_ℤ
    after_plugin stage replace_new ltb_ℤ mark_found
hidden_is_left = refl

-- A list without members.
empty_list_stops :
    dict_search one_word one_word 1 true
      (node web_info (virtual_list no_more) no_mime)
      (record { list = []; extra = not_found })
    ≡ err assertion
unfolding dict_search search_with is_disabled disabled_in own_index index_if after_index eqb_ℤ
    after_plugin stage
empty_list_stops = refl
