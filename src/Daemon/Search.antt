-- ===== src/Daemon/Search.antt =====
-- dictd/daemon.c: `dict_search_words` and `dict_search_databases`. The search of one database
-- (`dict_search`) is an interface: from its state and the list it adds to, to the reply; so is
-- libmaa's `lst_pop`. Memory is not freed in the model.
use dictd.Prelude.{
  ℕ, zero, suc, ◌+◌, List, [], ◌∷◌, ◌++◌, Option, none, some, Bool, true, false, ◌&&◌, ◌==◌,
  if◌then◌else◌, length,
}
use dictd.Prelude.Int.{ℤ, pos, negsuc}
use dictd.Prelude.Result.{Result, ok, err, ◌>>=◌}
use dictd.Daemon.Types.{Database, DictWord, star, bang}
use dictd.Daemon.Databases.{Found, next_database}

-- DICT_PLUGIN_RESULT_...
pub data PluginResult : Type 0 where
  not_found found exit preprocess : PluginResult

-- An assertion that fails, a NULL that is used, a buffer that is too small.
pub data DaemonFault : Type 0 where
  assertion null_word overflow no_fuel : DaemonFault

pub record Reply (S : Type 0) : Type 0 where
  pub count : ℤ
  pub result : PluginResult
  pub list : List DictWord
  pub state : S

pub record SearchOps (S : Type 0) : Type 0 where
  pub dict_search : S → List DictWord → List ℕ → Database → ℕ → Reply S
  pub lst_pop : List DictWord → Option (DictWord × List DictWord)

-- What `dict_search_words` leaves: `mc`, `*error`, `*result`, `l`, the word list.
pub record Words (S : Type 0) : Type 0 where
  pub mc : ℕ
  pub error : Bool
  pub result : PluginResult
  pub list : List DictWord
  pub word_list : List (Option (List ℕ))
  pub state : S

abbrev pub add_count : {S : Type 0} → ℕ → Option (List ℕ) → Words S → Words S
add_count n w r = record r { mc = n + r.mc; word_list = w ∷ r.word_list }

-- A plugin's word as one more word to search for.
unfoldable pub preprocessed : DictWord → List (Option (List ℕ))
preprocessed dw = elim dw.def_size [
  | negsuc _ ↦ some dw.word ∷ []
  | pos n ↦ if n == 0 then [] else some dw.def_bytes ∷ []
]

-- `*databaseName == c`
unfoldable pub starts_with : ℕ → List ℕ → Bool
starts_with c [] = false
starts_with c (d ∷ s) = d == c

-- What `dict_search_databases` works on: `matches` (-1 as none), `error`, `*db_found`.
pub record Progress (S : Type 0) : Type 0 where
  pub matches : Option ℕ
  pub error : Bool
  pub db_found : Bool
  pub list : List DictWord
  pub preprocessed_words : List (Option (List ℕ))
  pub state : S

abbrev pub start_or : Option ℕ → ℕ
start_or none = 0
start_or (some n) = n

-- `error ? -matches : matches`, where -1 stands for "no database searched".
unfoldable pub result_of : Bool → Option ℕ → ℤ
result_of error none = negsuc 0
result_of error (some zero) = pos 0
result_of error (some (suc n)) = if error then negsuc n else pos (suc n)

module _ {S : Type 0} (ops : SearchOps S) (strategy : ℕ) where
  -- A word's reply: the entry of the word list becomes NULL for a preprocessing plugin, whose
  -- count must be positive, and a negative count ends the loop.
  unfoldable pub after_reply :
      List ℕ
      → List (Option (List ℕ))
      → Reply S
      → Result DaemonFault (Words S)
      → Result DaemonFault (Words S)
  after_reply word rest r more = elim r.count [
    | pos n ↦ elim r.result [
      | preprocess ↦ if n == 0 then err assertion else (do ws ← more; ok (add_count n none ws))
      | _ ↦ (do ws ← more; ok (add_count n (some word) ws))
    ]
    | negsuc n ↦ elim r.result [
      | preprocess ↦ err assertion
      | _ ↦ ok (record {
        mc = suc n;
        error = true;
        result = r.result;
        list = r.list;
        word_list = some word ∷ rest;
        state = r.state;
      })
    ]
  ]

  unfoldable pub dict_search_words :
      Database
      → PluginResult
      → List DictWord
      → List (Option (List ℕ))
      → S
      → Result DaemonFault (Words S)
  unfolding after_reply
  dict_search_words db result l [] s =
      ok (record { mc = 0; error = false; result = result; list = l; word_list = []; state = s })
  dict_search_words db result l (none ∷ rest) s = do
    ws ← dict_search_words db result l rest s
    ok (record ws { word_list = none ∷ ws.word_list })
  dict_search_words db result l (some word ∷ rest) s =
      let r = ops.dict_search s l word db strategy in
      after_reply word rest r (dict_search_words db r.result r.list rest r.state)

  -- `matches_count` words are taken off the list again and searched for instead.
  unfoldable pub pop_words :
      ℕ
      → List DictWord
      → List (Option (List ℕ))
      → Result DaemonFault (List DictWord × List (Option (List ℕ)))
  unfolding preprocessed
  pop_words zero l words = ok (l, words)
  pop_words (suc n) l words = elim (ops.lst_pop l) [
    | none ↦ err null_word
    | some (dw, l') ↦ pop_words n l' (words ++ preprocessed dw)
  ]

  -- After the words of one database; `more` goes on with the next database.
  unfoldable pub after_words :
      List ℕ
      → Progress S
      → Words S
      → (Progress S → Result DaemonFault (Progress S))
      → Result DaemonFault (Progress S)
  unfolding starts_with
  after_words name p ws more =
      let total = start_or p.matches + ws.mc in
      let next : Progress S = record {
        matches = some total;
        error = ws.error;
        db_found = true;
        list = ws.list;
        preprocessed_words = ws.word_list;
        state = ws.state;
      } in
      elim ws.result [
        | preprocess ↦ (do
          (l, words) ← pop_words ws.mc ws.list ws.word_list
          more (record next {
            matches = some (start_or p.matches);
            list = l;
            preprocessed_words = words;
          }))
        | exit ↦ ok next
        | _ ↦
            if starts_with star name
            then more next
            else if (total == 0) && starts_with bang name
            then more next
            else ok next
      ]

  -- A round: with what `next_database` gave, and the rest of the loop as `next`.
  unfoldable pub search_round :
      List ℕ
      → Found
      → Progress S
      → (List Database → Progress S → Result DaemonFault (Progress S))
      → Result DaemonFault (Progress S)
  search_round name (none, rest) p next = ok p
  search_round name (some db, rest) p next =
      let searched = (do
        ws ← dict_search_words db not_found p.list p.preprocessed_words p.state
        after_words name p ws (λ p'. if p'.error then ok p' else next rest p')) in
      if db.exit_db then ok p else searched

  unfoldable pub search_databases :
      List ℕ → ℕ → List Database → Progress S → Result DaemonFault (Progress S)
  unfolding search_round
  search_databases name zero position p = err no_fuel
  search_databases name (suc fuel) position p =
      search_round name (next_database position name) p
        (λ rest p'. search_databases name fuel rest p')

  unfoldable pub dict_search_databases :
      List Database → List DictWord → List ℕ → List ℕ → S → Result DaemonFault (ℤ × Progress S)
  unfolding result_of
  dict_search_databases dbl l name word s = do
    p ← search_databases name (suc (length dbl)) dbl (record {
      matches = none;
      error = false;
      db_found = false;
      list = l;
      preprocessed_words = some word ∷ [];
      state = s;
    })
    ok (result_of p.error p.matches, p)
