-- ===== src/Tests/Daemon.antt =====
-- Tests of dictd/daemon.c: three databases, of which one is hidden, and a search that finds the word
-- itself once in each.
use dictd.Prelude.{ℕ, ◌+◌, refl, List, [], ◌∷◌, ◌++◌, Option, none, some, true, false, length}
use dictd.Prelude.Int.{ℤ, pos}
use dictd.Prelude.Result.{Result, ok, ◌>>=◌, Returns, Returns-bind}
use dictd.Daemon.Types.{Database, DictWord}
use dictd.Daemon.Search.{SearchOps, Progress, DaemonFault, found, dict_search_databases}
use dictd.Daemon.Handlers.{Searched, Session, daemon_define, daemon_match}
use dictd.Daemon.Answers.{Defined, Matched, daemon_define-Defined, daemon_match-Matched}
use dictd.Daemon.Totals.{PlainReply, is_plain}
use dictd.Daemon.Planned.{planned, Gives, dict_search_databases-Gives}

abbrev pub web : Database
web = record {
  id = 1;
  database_name = 119 ∷ [];
  database_short = 87 ∷ [];
  available = true;
  invisible = false;
  exit_db = false;
  filter = none;
  mime_header = none;
}

abbrev pub hidden : Database
hidden = record web { id = 2; database_name = 104 ∷ []; invisible = true }

abbrev pub last_mark : Database
last_mark = record web { id = 3; database_name = 45 ∷ []; exit_db = true }

abbrev pub foldoc : Database
foldoc = record web { id = 4; database_name = 102 ∷ [] }

abbrev pub dbl : List Database
dbl = hidden ∷ web ∷ foldoc ∷ last_mark ∷ web ∷ []

abbrev pub hi : List ℕ
hi = 104 ∷ 105 ∷ []

abbrev pub entry : List ℕ → Database → DictWord
entry w db = record {
  database = db;
  database_visible = none;
  word = w;
  start = db.id;
  stop = 5;
  def = none;
  def_bytes = [];
  def_size = pos 0;
}

-- The state counts the searches.
abbrev find : ℕ → List ℕ → Database → List DictWord × ℕ
find s w db = (entry w db ∷ [], s + 1)

abbrev pop : List DictWord → Option (DictWord × List DictWord)
pop [] = none
pop (w ∷ l) = some (w, l)

abbrev ops : SearchOps ℕ
ops = record {
  dict_search = λ s l w db strategy. record {
    count = pos (length (find s w db).0);
    result = found;
    list = l ++ (find s w db).0;
    state = (find s w db).1;
  };
  lst_pop = pop;
}

plain :
    (strategy s : ℕ) (l : List DictWord) (w : List ℕ) (db : Database)
    → PlainReply ops strategy find s l w db
unfolding is_plain
plain strategy s l w db = record { result = found; plain = refl; reply = refl }

-- The search over the databases, as the handlers of the daemon call it.
abbrev searched : ℤ × Progress ℕ → Result DaemonFault Searched
searched (n, p) = ok (record { returned = n; db_found = p.db_found; list = p.list })

abbrev search : List ℕ → List ℕ → ℕ → Result DaemonFault Searched
search name word strategy = dict_search_databases ops strategy dbl [] name word 0 >>= searched

search_total :
    (name word : List ℕ) (strategy : ℕ) → Returns (search name word strategy) (λ r. Unit {0})
search_total name word strategy =
    Returns-bind (dict_search_databases ops strategy dbl [] name word 0) searched
      (Gives ops strategy find (plain strategy) name word []
        (planned ops strategy find (plain strategy) name word dbl 0))
      (λ r. Unit {0})
      (dict_search_databases-Gives ops strategy find (plain strategy) name word dbl [] 0)
      (λ r _. tt)

abbrev text_of : Database → DictWord → List ℕ
text_of db w = w.word

abbrev no_filter : List ℕ → List ℕ → List ℕ
no_filter text command = text

abbrev lookup : List ℕ → Option ℕ
lookup name = some 1

abbrev session : Session
session = record { daemon_mime = false; dict_defines = 2; dict_matches = 0 }

-- `d hi` and `m hi`.
daemon_define-Defined_example :
    Returns
      (daemon_define search lookup text_of no_filter session ((100 ∷ []) ∷ hi ∷ []))
      (Defined session)
daemon_define-Defined_example =
    daemon_define-Defined search lookup text_of no_filter search_total session
      ((100 ∷ []) ∷ hi ∷ [])

daemon_match-Matched_example :
    Returns
      (daemon_match search lookup text_of no_filter session ((109 ∷ []) ∷ hi ∷ []))
      (Matched session)
daemon_match-Matched_example =
    daemon_match-Matched search lookup text_of no_filter search_total session ((109 ∷ []) ∷ hi ∷ [])
