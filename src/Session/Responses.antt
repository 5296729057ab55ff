-- ===== src/Session/Responses.antt =====
-- dictd/daemon.c: the handlers of the session have output.
use dictd.Prelude.{
  ℕ, suc, ◌<◌, ◌≡◌, inl, inr, List, [], ◌∷◌, Option, none, some, Bool, true, false, arith, ◌==◌,
  if◌then◌else◌, length, Bool-cases,
}
use dictd.Prelude.Text.{codes}
use dictd.Prelude.Result.{ok, Returns, Returns-bind}
use dictd.Daemon.Types.{Database}
use dictd.Daemon.Databases.{Found, next_database, listed}
use dictd.Daemon.Print.{Output, status}
use dictd.Daemon.Handlers.{Session, daemon_show_db}
use dictd.Daemon.Answers.{Refused, Answer}
use dictd.Session.Info.{
  Services, info_found, info_search, info_entry, described, info_of, is_wildcard, info_answer,
  daemon_show_strat, daemon_show_info,
}
use dictd.Session.Listing.{daemon_show_db-listed}

Refused-answered : (o : List Output) → Refused o → 0 < length o
Refused-answered o Refused.illegal_param = omega arith
Refused-answered o Refused.invalid_db = omega arith
Refused-answered o Refused.invalid_strategy = omega arith
Refused-answered o Refused.no_match = omega arith

pub Answer-answered :
    (code : ℕ) (count : List Output → ℕ) (n : ℕ) (o : List Output)
    → Answer code count n o
    → 0 < length o
Answer-answered code count n o (Answer.refused r) = Refused-answered o r
Answer-answered code count n o (Answer.answered items n' e) = omega arith

pub one_or_two :
    (b : Bool) (out o : List Output)
    → 0 < length out
    → o ≡ (if b then out else status 501 ∷ out)
    → 0 < length o
one_or_two true out o h e = rw e h
one_or_two false out o h e = rw e (omega arith)

pub daemon_show_db-answered :
    (dbl : List Database) (se : Session) (argv : List (List ℕ))
    → Returns (daemon_show_db dbl se argv) (λ r. 0 < length r.1)
unfolding daemon_show_db
daemon_show_db-answered dbl se [] = omega arith
daemon_show_db-answered dbl se (a ∷ []) = omega arith
daemon_show_db-answered dbl se (a ∷ b ∷ []) =
    rw (daemon_show_db-listed dbl se a b) (elim (Bool-cases (length (listed dbl) == 0)) [
      | inl e ↦ rw e (omega arith)
      | inr e ↦ rw e (omega arith)
    ])
daemon_show_db-answered dbl se (a ∷ b ∷ c ∷ argv) =
    let e : (suc (suc (suc (length argv))) == 2) ≡ false = ground arith in rw e (omega arith)

module _ (sv : Services) where
  pub daemon_show_strat-answered :
      (se : Session) (argv : List (List ℕ)) → 0 < length (daemon_show_strat sv se argv)
  unfolding daemon_show_strat
  daemon_show_strat-answered se argv = ground arith

  module _
      (info_total : (db : Database) (word : List ℕ)
        → Returns (sv.dict_search db word) (λ r. Unit {0})) where
    info_search-answered :
        (se : Session) (name : List ℕ) (db : Database) (entry : List ℕ)
        → Returns (info_search sv se name db entry) (λ out. 0 < length out)
    unfolding info_search info_found
    info_search-answered se name db entry =
        Returns-bind (sv.dict_search db entry) (λ r. ok (info_found sv se name db r))
          (λ r. Unit {0}) (λ out. 0 < length out) (info_total db entry) (λ r _. omega arith)

    described-answered :
        (se : Session) (name : List ℕ) (db : Database) (info : List ℕ) (entry : Option (List ℕ))
        → Returns (described sv se name db info entry) (λ out. 0 < length out)
    unfolding described
    described-answered se name db info none = omega arith
    described-answered se name db info (some entry) = info_search-answered se name db entry

    info_of-answered :
        (se : Session) (name : List ℕ) (db : Database) (info : Option (List ℕ))
        → Returns (info_of sv se name db info) (λ out. 0 < length out)
    unfolding info_of
    info_of-answered se name db none = info_search-answered se name db (codes "00-database-info")
    info_of-answered se name db (some info) =
        described-answered se name db info (info_entry sv info)

    info_answer-answered :
        (se : Session) (name : List ℕ) (f : Found)
        → Returns (info_answer sv se name f) (λ out. 0 < length out)
    unfolding info_answer
    info_answer-answered se name (none, rest) = omega arith
    info_answer-answered se name (some db, rest) = info_of-answered se name db (sv.database_info db)

    pub daemon_show_info-answered :
        (dbl : List Database) (se : Session) (argv : List (List ℕ))
        → Returns (daemon_show_info sv dbl se argv) (λ out. 0 < length out)
    unfolding daemon_show_info
    daemon_show_info-answered dbl se [] = omega arith
    daemon_show_info-answered dbl se (a ∷ []) = omega arith
    daemon_show_info-answered dbl se (a ∷ b ∷ []) = omega arith
    daemon_show_info-answered dbl se (a ∷ b ∷ name ∷ []) = elim (Bool-cases (is_wildcard sv name)) [
      | inl e ↦ rw e (omega arith)
      | inr e ↦ rw e (info_answer-answered se name (next_database dbl name))
    ]
    daemon_show_info-answered dbl se (a ∷ b ∷ name ∷ c ∷ argv) = omega arith
