-- ===== src/Daemon/Planned.antt =====
-- dictd/daemon.c: the result of `dict_search_databases` without plugins.
use dictd.Prelude.{
  ℕ, zero, suc, ◌+◌, ◌<◌, ◌≡◌, refl, inl, inr, List, [], ◌∷◌, ◌++◌, none, some, Bool, true, false,
  arith, if◌then◌else◌, length, Bool-cases, ap, ◌∙◌,
}
use dictd.Prelude.Int.{ℤ, pos, negsuc}
use dictd.Prelude.Result.{Result, ok, Returns, Returns-bind}
use dictd.Daemon.Types.{Database, DictWord}
use dictd.Daemon.Databases.{
  Found, First, next_database, chosen, select, select-length, next_database-First,
}
use dictd.Daemon.Search.{
  SearchOps, Progress, DaemonFault, search_round, search_databases, result_of,
  dict_search_databases,
}
use dictd.Daemon.Totals.{Outcome, PlainReply, plan, Ends, Ready}
use dictd.Daemon.Plan.{Ends-stop, plan_exit, round_plain}

Returns_exit :
    {E A : Type 0} (b : Bool) (a : A) (m : Result E A) (P : A → Type 0)
    → b ≡ true
    → P a
    → Returns (if b then ok a else m) P
Returns_exit true a m P h x = x
Returns_exit false a m P h x = ground (arith, h)

result_of-some : (n : ℕ) → result_of false (some n) ≡ pos n
unfolding result_of
result_of-some zero = refl
result_of-some (suc n) = refl

result_of-if :
    (b : Bool) (n k : ℕ)
    → n ≡ k
    → result_of false (if b then some n else none) ≡ (if b then pos k else negsuc 0)
unfolding result_of
result_of-if true n k e = result_of-some n ∙ ap pos e
result_of-if false n k e = refl

module _ {S : Type 0} (ops : SearchOps S) (strategy : ℕ)
    (find : S → List ℕ → Database → List DictWord × S)
    (plain : (s : S) (l : List DictWord) (word : List ℕ) (db : Database)
      → PlainReply ops strategy find s l word db)
    (name word : List ℕ) where
  -- The outcome planned for the databases from a position on.
  abbrev pub planned : List Database → S → Outcome
  planned l s = plan ops strategy find name word (select (chosen name) l) s

  module _ (fuel : ℕ) (next : List Database → Progress S → Result DaemonFault (Progress S))
      (ih : (l : List Database) (p : Progress S)
        → Ready ops strategy find name word p
        → length (select (chosen name) l) < fuel
        → Returns (next l p) (Ends ops strategy find p (planned l p.state))) where
    search_round-Ends :
        (l : List Database) (f : Found) (p : Progress S)
        → First (chosen name) l f
        → Ready ops strategy find name word p
        → length (select (chosen name) l) < suc fuel
        → Returns
            (search_round ops strategy name f p next)
            (Ends ops strategy find p (planned l p.state))
    unfolding search_round plan
    search_round-Ends l (none, rest) p (e, _) ready h =
        rw e (Ends-stop ops strategy find p ready.error)
    search_round-Ends l (some db, rest) p e ready h = elim (Bool-cases db.exit_db) [
      | inl x ↦ rw e (
          rw (plan_exit ops strategy find name word db (select (chosen name) rest) p.state x) (
            Returns_exit db.exit_db p _
              (Ends ops strategy find p (record { words = []; searched = false })) x
              (Ends-stop ops strategy find p ready.error)))
      | inr x ↦ rw e (
          round_plain ops strategy find plain name word fuel next ih db rest p ready x
            (omega (arith, ap length e)))
    ]

  search_databases-Ends :
      (fuel : ℕ) (l : List Database) (p : Progress S)
      → Ready ops strategy find name word p
      → length (select (chosen name) l) < fuel
      → Returns
          (search_databases ops strategy name fuel l p)
          (Ends ops strategy find p (planned l p.state))
  unfolding search_databases
  search_databases-Ends zero l p ready h = absurd (omega arith)
  search_databases-Ends (suc fuel) l p ready h =
      search_round-Ends fuel (λ rest p'. search_databases ops strategy name fuel rest p')
        (search_databases-Ends fuel) l (next_database l name) p (next_database-First l name) ready h

  abbrev start : List DictWord → S → Progress S
  start l s = record {
    matches = none;
    error = false;
    db_found = false;
    list = l;
    preprocessed_words = some word ∷ [];
    state = s;
  }

  start-Ready : (l : List DictWord) (s : S) → Ready ops strategy find name word (start l s)
  start-Ready l s = record { words = refl; error = refl; none_yet = λ h. refl }

  -- What `dict_search_databases` gives, by the planned outcome.
  pub record Gives (l : List DictWord) (o : Outcome) (r : ℤ × Progress S) : Type 0 where
    pub list : r.1.list ≡ l ++ o.words
    pub count : r.0 ≡ (if o.searched then pos (length o.words) else negsuc 0)
    pub db_found : r.1.db_found ≡ o.searched

  pub dict_search_databases-Gives :
      (dbl : List Database) (l : List DictWord) (s : S)
      → Returns (dict_search_databases ops strategy dbl l name word s) (Gives l (planned dbl s))
  unfolding dict_search_databases
  dict_search_databases-Gives dbl l s =
      let o = planned dbl s in
      Returns-bind (search_databases ops strategy name (suc (length dbl)) dbl (start l s))
        (λ p. ok (result_of p.error p.matches, p)) (Ends ops strategy find (start l s) o)
        (Gives l o)
        (search_databases-Ends (suc (length dbl)) dbl (start l s) (start-Ready l s)
          (omega (arith, select-length (chosen name) dbl)))
        (λ p e. record {
          list = e.list;
          count =
              ap (λ b. result_of b p.matches) e.error
              ∙ ap (result_of false) e.matches
              ∙ result_of-if o.searched (0 + length o.words) (length o.words) (omega arith);
          db_found = e.db_found;
        })
