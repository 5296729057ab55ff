-- ===== src/Daemon/Totals.antt =====
-- dictd/daemon.c: what a search over the databases finds when no plugin interferes.
use dictd.Prelude.{
  ℕ, ◌+◌, ◌≡◌, refl, List, [], ◌∷◌, ◌++◌, Option, some, Bool, true, false, ◌&&◌, ◌||◌, arith, ◌==◌,
  if◌then◌else◌, length, ap, ◌∙◌,
}
use dictd.Prelude.Int.{pos}
use dictd.Prelude.Result.{Result, ok, ◌>>=◌}
use dictd.Daemon.Types.{Database, DictWord, star, bang}
use dictd.Daemon.Search.{
  PluginResult, found, not_found, exit, preprocess, add_count, SearchOps, Words, Progress,
  DaemonFault, starts_with, start_or, after_reply, after_words, dict_search_words, search_round,
}

-- What a search gives: the words, whether a database was searched.
pub record Outcome : Type 0 where
  pub words : List DictWord
  pub searched : Bool

-- No plugin asks to stop or to search for other words.
unfoldable pub is_plain : PluginResult → Bool
is_plain found = true
is_plain not_found = true
is_plain exit = false
is_plain preprocess = false

module _ {S : Type 0} (ops : SearchOps S) (strategy : ℕ)
    (find : S → List ℕ → Database → List DictWord × S) where
  -- The search of a database as a plain one: it appends what `find` gives and returns its number,
  -- and no plugin asks to stop or to search for other words.
  pub record PlainReply (s : S) (l : List DictWord) (word : List ℕ) (db : Database) : Type 0 where
    pub result : PluginResult
    pub plain : is_plain result ≡ true
    pub reply : ops.dict_search s l word db strategy ≡ record {
      count = pos (length (find s word db).0);
      result = result;
      list = l ++ (find s word db).0;
      state = (find s word db).1;
    }

  -- The search as a plan: every database up to an end mark for `*`, those up to the first with a
  -- match for `!`, and only the first for a name.
  unfoldable pub plan : List ℕ → List ℕ → List Database → S → Outcome
  plan name word [] s = record { words = []; searched = false }
  plan name word (db ∷ rest) s =
      let (ws, s') = find s word db in
      let more = plan name word rest s' in
      let go = starts_with star name || (length ws == 0) && starts_with bang name in
      if db.exit_db
      then record { words = []; searched = false }
      else record { words = if go then ws ++ more.words else ws; searched = true }

  -- How far the loop has come at its end, from where it stood before.
  pub record Ends (p : Progress S) (o : Outcome) (r : Progress S) : Type 0 where
    pub list : r.list ≡ p.list ++ o.words
    pub matches :
        r.matches ≡ (if o.searched then some (start_or p.matches + length o.words) else p.matches)
    pub db_found : r.db_found ≡ (p.db_found || o.searched)
    pub error : r.error ≡ false

  -- The state before a round.
  pub record Ready (name word : List ℕ) (p : Progress S) : Type 0 where
    pub words : p.preprocessed_words ≡ some word ∷ []
    pub error : p.error ≡ false
    pub none_yet : starts_with star name ≡ false → start_or p.matches ≡ 0

  abbrev pub next_progress : Progress S → List ℕ → Database → Progress S
  next_progress p word db = record {
    matches = some (start_or p.matches + (length (find p.state word db).0 + 0));
    error = false;
    db_found = true;
    list = p.list ++ (find p.state word db).0;
    preprocessed_words = some word ∷ [];
    state = (find p.state word db).1;
  }

  module _
      (plain : (s : S) (l : List DictWord) (word : List ℕ) (db : Database)
        → PlainReply s l word db) where
    after_reply_plain :
        (word : List ℕ) (result : PluginResult) (n : ℕ) (l : List DictWord) (s : S) (ws : Words S)
        → is_plain result ≡ true
        → after_reply ops strategy word []
            (record { count = pos n; result = result; list = l; state = s })
            (ok ws)
          ≡ ok (add_count n (some word) ws)
    unfolding after_reply is_plain
    after_reply_plain word found n l s ws h = refl
    after_reply_plain word not_found n l s ws h = refl
    after_reply_plain word exit n l s ws h = refl
    after_reply_plain word preprocess n l s ws h = ground arith

    after_words_plain :
        (name : List ℕ) (p : Progress S) (result : PluginResult) (n : ℕ) (l : List DictWord)
        (w : List (Option (List ℕ))) (s : S) (more : Progress S → Result DaemonFault (Progress S))
        → is_plain result ≡ true
        → after_words ops strategy name p
            (record { mc = n; error = false; result = result; list = l; word_list = w; state = s })
            more
          ≡ (let next : Progress S = record {
            matches = some (start_or p.matches + n);
            error = false;
            db_found = true;
            list = l;
            preprocessed_words = w;
            state = s;
          } in
              if starts_with star name
              then more next
              else if (start_or p.matches + n == 0) && starts_with bang name
              then more next
              else ok next)
    unfolding after_words is_plain
    after_words_plain name p found n l w s more h = refl
    after_words_plain name p not_found n l w s more h = refl
    after_words_plain name p exit n l w s more h = ground arith
    after_words_plain name p preprocess n l w s more h = ground arith

    words_of : (s : S) (l : List DictWord) (word : List ℕ) (db : Database) → Words S
    words_of s l word db = record {
      mc = length (find s word db).0 + 0;
      error = false;
      result = (plain s l word db).result;
      list = l ++ (find s word db).0;
      word_list = some word ∷ [];
      state = (find s word db).1;
    }

    dict_search_words_plain :
        (s : S) (l : List DictWord) (word : List ℕ) (db : Database)
        → dict_search_words ops strategy db not_found l (some word ∷ []) s
          ≡ ok (words_of s l word db)
    unfolding dict_search_words words_of
    dict_search_words_plain s l word db =
        let q = plain s l word db in
        rw q.reply (
          after_reply_plain word q.result (length (find s word db).0) (l ++ (find s word db).0)
            (find s word db).1
            (record {
              mc = 0;
              error = false;
              result = q.result;
              list = l ++ (find s word db).0;
              word_list = [];
              state = (find s word db).1;
            })
            q.plain)

    pub search_round_plain :
        (name word : List ℕ) (db : Database) (rest : List Database) (p : Progress S)
        (next : List Database → Progress S → Result DaemonFault (Progress S))
        → p.preprocessed_words ≡ some word ∷ []
        → db.exit_db ≡ false
        → search_round ops strategy name (some db, rest) p next ≡ (
            let n = next_progress p word db in
            if starts_with star name
            then next rest n
            else if (start_or p.matches + (length (find p.state word db).0 + 0) == 0)
                && starts_with bang name
            then next rest n
            else ok n)
    unfolding search_round words_of
    search_round_plain name word db rest p next e x =
        let after = λ (ws : Words S).
          after_words ops strategy name p ws (λ p'. if p'.error then ok p' else next rest p') in
        let searched = λ (w : List (Option (List ℕ))).
          dict_search_words ops strategy db not_found p.list w p.state >>= after in
        ap (λ b. if b then ok p else searched p.preprocessed_words) x
        ∙ ap searched e
        ∙ ap (λ m. m >>= after) (dict_search_words_plain p.state p.list word db)
        ∙ after_words_plain name p (plain p.state p.list word db).result
            (length (find p.state word db).0 + 0) (p.list ++ (find p.state word db).0)
            (some word ∷ []) (find p.state word db).1
            (λ p'. if p'.error then ok p' else next rest p') (plain p.state p.list word db).plain
