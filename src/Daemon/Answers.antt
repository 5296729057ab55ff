-- ===== src/Daemon/Answers.antt =====
-- dictd/daemon.c: the shape of the answers to DEFINE and MATCH.
use dictd.Prelude.{
  ℕ, ◌+◌, ◌≡◌, refl, List, [], ◌∷◌, ◌++◌, Option, none, some, not, ◌&&◌, arith, ltb, Bool-cases,
  inl, inr,
}
use dictd.Prelude.Result.{Result, ok, Returns, Returns-bind}
use dictd.Daemon.Types.{Database, DictWord}
use dictd.Daemon.Search.{DaemonFault}
use dictd.Daemon.Print.{
  Output, status, count_line, daemon_count_defs, daemon_dump_defs, daemon_count_matches,
  daemon_dump_matches,
}
use dictd.Daemon.Counted.{definitions, matches, daemon_dump_defs-count, daemon_dump_matches-count}
use dictd.Daemon.Handlers.{
  Searched, Session, is_letter, abs, define_args, define_reply, define_with, daemon_define,
  match_args, match_reply, match_found, match_with, daemon_match, strat_exact, match_mask,
}

-- An answer of one line, which says that the command failed.
pub data Refused : List Output → Type 0 where
  illegal_param : Refused (status 501 ∷ [])
  invalid_db : Refused (status 550 ∷ [])
  invalid_strategy : Refused (status 551 ∷ [])
  no_match : Refused (status 552 ∷ [])

-- An answer to DEFINE or MATCH that counts its items in the first line: with the code, the number
-- of the items by `count`, and the final `ok`.
pub data Answer (code : ℕ) (count : List Output → ℕ) : ℕ → List Output → Type 0 where
  refused : {o : List Output} → Refused o → Answer code count 0 o
  answered :
      (items : List Output) (n : ℕ)
      → count items ≡ n
      → Answer code count n (count_line code n ∷ (items ++ (status 250 ∷ [])))

-- What DEFINE leaves: a proper answer, and `_dict_defines` raised by the number announced.
abbrev pub Defined : Session → Session × List Output → Type 0
Defined se (se', o) =
    (n : ℕ) × (Answer 150 definitions n o × (se'.dict_defines ≡ se.dict_defines + n))

abbrev pub Matched : Session → Session × List Output → Type 0
Matched se (se', o) = (n : ℕ) × (Answer 152 matches n o × (se'.dict_matches ≡ se.dict_matches + n))

Defined-Refused : (se : Session) (o : List Output) → Refused o → Defined se (se, o)
Defined-Refused se o r = (0, (refused r, omega arith))

Matched-Refused : (se : Session) (o : List Output) → Refused o → Matched se (se, o)
Matched-Refused se o r = (0, (refused r, omega arith))

module _ (search : List ℕ → List ℕ → ℕ → Result DaemonFault Searched)
    (lookup_strategy : List ℕ → Option ℕ) (dict_data_obtain : Database → DictWord → List ℕ)
    (dict_data_filter : List ℕ → List ℕ → List ℕ) where
  define_reply-Defined :
      (se : Session) (r : Searched)
      → Defined se (define_reply search lookup_strategy dict_data_obtain dict_data_filter se r)
  unfolding define_reply
  define_reply-Defined se r = elim (Bool-cases (r.db_found && ltb 0 (abs r.returned))) [
    | inl e ↦ rw e (
        let o = daemon_dump_defs dict_data_obtain dict_data_filter se.daemon_mime r.list in
        (
          daemon_count_defs r.list,
          (
            answered o (daemon_count_defs r.list)
                (daemon_dump_defs-count dict_data_obtain dict_data_filter se.daemon_mime r.list),
            refl,
          ),
        ))
    | inr e ↦ rw e (elim (Bool-cases (not r.db_found)) [
      | inl f ↦ rw f (Defined-Refused se (status 550 ∷ []) invalid_db)
      | inr f ↦ rw f (Defined-Refused se (status 552 ∷ []) no_match)
    ])
  ]

  match_reply-Matched :
      (se : Session) (r : Searched)
      → Matched se (match_reply search lookup_strategy dict_data_obtain dict_data_filter se r)
  unfolding match_reply
  match_reply-Matched se r = elim (Bool-cases (r.db_found && ltb 0 (abs r.returned))) [
    | inl e ↦ rw e (
        (
          daemon_count_matches r.list,
          (
            answered (daemon_dump_matches se.daemon_mime r.list) (daemon_count_matches r.list)
                (daemon_dump_matches-count se.daemon_mime r.list),
            refl,
          ),
        ))
    | inr e ↦ rw e (elim (Bool-cases (not r.db_found)) [
      | inl f ↦ rw f (Matched-Refused se (status 550 ∷ []) invalid_db)
      | inr f ↦ rw f (Matched-Refused se (status 552 ∷ []) no_match)
    ])
  ]

  module _
      (total : (db word : List ℕ) (strategy : ℕ)
        → Returns (search db word strategy) (λ r. Unit {0})) where
    define_with-Defined :
        (se : Session) (a : Option (List ℕ × List ℕ))
        → Returns
            (define_with search lookup_strategy dict_data_obtain dict_data_filter se a)
            (Defined se)
    unfolding define_with
    define_with-Defined se none = Defined-Refused se (status 501 ∷ []) illegal_param
    define_with-Defined se (some (db, word)) =
        Returns-bind (search db word strat_exact)
          (λ r. ok (define_reply search lookup_strategy dict_data_obtain dict_data_filter se r))
          (λ r. Unit {0}) (Defined se) (total db word strat_exact)
          (λ r _. define_reply-Defined se r)

    match_found-Matched :
        (se : Session) (db word : List ℕ) (strategy : Option ℕ)
        → Returns
            (match_found search lookup_strategy dict_data_obtain dict_data_filter se db word
              strategy)
            (Matched se)
    unfolding match_found
    match_found-Matched se db word none = Matched-Refused se (status 551 ∷ []) invalid_strategy
    match_found-Matched se db word (some n) =
        Returns-bind (search db word (n + match_mask))
          (λ r. ok (match_reply search lookup_strategy dict_data_obtain dict_data_filter se r))
          (λ r. Unit {0}) (Matched se) (total db word (n + match_mask))
          (λ r _. match_reply-Matched se r)

    match_with-Matched :
        (se : Session) (a : Option (List ℕ × List ℕ × List ℕ))
        → Returns
            (match_with search lookup_strategy dict_data_obtain dict_data_filter se a)
            (Matched se)
    unfolding match_with
    match_with-Matched se none = Matched-Refused se (status 501 ∷ []) illegal_param
    match_with-Matched se (some (db, strategy, word)) =
        match_found-Matched se db word (lookup_strategy strategy)

    -- Where the search over the databases gives a result, DEFINE with any arguments is answered:
    -- with one error line, or with a 150 line, exactly as many definitions as that line announces,
    -- and a final 250; and the counter of definitions is raised by the number announced, 0 on an
    -- error.
    pub daemon_define-Defined :
        (se : Session) (argv : List (List ℕ))
        → Returns
            (daemon_define search lookup_strategy dict_data_obtain dict_data_filter se argv)
            (Defined se)
    unfolding daemon_define
    daemon_define-Defined se argv = define_with-Defined se (define_args (is_letter 100 argv) argv)

    -- Where the search over the databases gives a result, MATCH with any arguments is answered:
    -- with one error line, or with a 152 line, exactly as many matches as that line announces, and
    -- a final 250; and the counter of matches is raised by the number announced, 0 on an error.
    pub daemon_match-Matched :
        (se : Session) (argv : List (List ℕ))
        → Returns
            (daemon_match search lookup_strategy dict_data_obtain dict_data_filter se argv)
            (Matched se)
    unfolding daemon_match
    daemon_match-Matched se argv = match_with-Matched se (match_args (is_letter 109 argv) argv)
