-- ===== src/Daemon/Plan.antt =====
-- dictd/daemon.c: `dict_search_databases` follows the plan of the database name.
use dictd.Prelude.{
  ℕ, ◌+◌, ◌<◌, ◌≡◌, refl, inl, inr, List, [], ◌∷◌, ◌++◌, some, Bool, true, false, ◌&&◌, ◌||◌, arith,
  ◌==◌, if◌then◌else◌, length, length-append, append_assoc, append-nil, Bool-cases, ap, ◌∙◌, sym,
}
use dictd.Prelude.Result.{Result, Returns, Returns-map}
use dictd.Daemon.Types.{Database, DictWord, star, bang}
use dictd.Daemon.Databases.{chosen, select}
use dictd.Daemon.Search.{SearchOps, Progress, DaemonFault, starts_with, start_or, search_round}
use dictd.Daemon.Totals.{Outcome, PlainReply, plan, Ends, Ready, next_progress, search_round_plain}

module _ {S : Type 0} (ops : SearchOps S) (strategy : ℕ)
    (find : S → List ℕ → Database → List DictWord × S) where
  -- Does the plan go on after `n` matches?
  abbrev goes_on : List ℕ → ℕ → Bool
  goes_on name n = starts_with star name || (n == 0) && starts_with bang name

  plan-none :
      (name word : List ℕ) (l : List Database) (s : S)
      → (plan ops strategy find name word l s).searched ≡ false
      → (plan ops strategy find name word l s).words ≡ []
  unfolding plan
  plan-none name word [] s h = refl
  plan-none name word (db ∷ l) s h = ground (arith, h)

  pub Ends-stop :
      (p : Progress S)
      → p.error ≡ false
      → Ends ops strategy find p (record { words = []; searched = false }) p
  Ends-stop p e = record {
    list = sym (append-nil p.list);
    matches = refl;
    db_found = ground arith;
    error = e;
  }

  -- A round and then the end of the rest, as the end of the whole.
  Ends-next :
      (p : Progress S) (word : List ℕ) (db : Database) (o : Outcome) (r : Progress S)
      → (o.searched ≡ false → o.words ≡ [])
      → Ends ops strategy find (next_progress ops strategy find p word db) o r
      → Ends ops strategy find p
          (record { words = (find p.state word db).0 ++ o.words; searched = true })
          r
  Ends-next p word db o r h e = record {
    list = e.list ∙ append_assoc p.list (find p.state word db).0 o.words;
    matches = e.matches ∙ elim (Bool-cases o.searched) [
      | inl x ↦ rw x (ap some (omega (arith, length-append (find p.state word db).0 o.words)))
      | inr x ↦
          rw x (
            ap some
              (omega (arith, length-append (find p.state word db).0 o.words, ap length (h x))))
    ];
    db_found = e.db_found ∙ ground arith;
    error = e.error;
  }

  Ends-last :
      (p : Progress S) (word : List ℕ) (db : Database)
      → Ends ops strategy find p
          (record { words = (find p.state word db).0; searched = true })
          (next_progress ops strategy find p word db)
  Ends-last p word db = record {
    list = refl;
    matches = ap some (omega arith);
    db_found = ground arith;
    error = refl;
  }

  pub plan_exit :
      (name word : List ℕ) (db : Database) (l : List Database) (s : S)
      → db.exit_db ≡ true
      → plan ops strategy find name word (db ∷ l) s ≡ record { words = []; searched = false }
  unfolding plan
  plan_exit name word db l s x = ground (arith, x)

  plan_step :
      (name word : List ℕ) (db : Database) (l : List Database) (s : S) (go : Bool)
      → db.exit_db ≡ false
      → goes_on name (length (find s word db).0) ≡ go
      → plan ops strategy find name word (db ∷ l) s ≡ (
          let ws = (find s word db).0 in
          let more = plan ops strategy find name word l (find s word db).1 in
          record { words = if go then ws ++ more.words else ws; searched = true })
  unfolding plan
  plan_step name word db l s go x g = ground (arith, x, g)

  module _
      (plain : (s : S) (l : List DictWord) (word : List ℕ) (db : Database)
        → PlainReply ops strategy find s l word db) where
    module _ (name word : List ℕ) (fuel : ℕ)
        (next : List Database → Progress S → Result DaemonFault (Progress S))
        (ih : (l : List Database) (p : Progress S)
          → Ready ops strategy find name word p
          → length (select (chosen name) l) < fuel
          → Returns (next l p) (
              Ends ops strategy find p
                (plan ops strategy find name word (select (chosen name) l) p.state))) where
      -- A round that goes on.
      round_go :
          (db : Database) (rest : List Database) (p : Progress S)
          → Ready ops strategy find name word (next_progress ops strategy find p word db)
          → db.exit_db ≡ false
          → goes_on name (length (find p.state word db).0) ≡ true
          → length (select (chosen name) rest) < fuel
          → Returns (next rest (next_progress ops strategy find p word db)) (
              Ends ops strategy find p
                (plan ops strategy find name word (db ∷ select (chosen name) rest) p.state))
      round_go db rest p ready x g h =
          let n = next_progress ops strategy find p word db in
          let l = select (chosen name) rest in
          let o = plan ops strategy find name word l n.state in
          rw (plan_step name word db l p.state true x g) (
            Returns-map (next rest n) (Ends ops strategy find n o)
              (Ends ops strategy find p
                (record { words = (find p.state word db).0 ++ o.words; searched = true }))
              (ih rest n ready h)
              (λ r e. Ends-next p word db o r (plan-none name word l n.state) e))

      round_stop :
          (db : Database) (rest : List Database) (p : Progress S)
          → db.exit_db ≡ false
          → goes_on name (length (find p.state word db).0) ≡ false
          → Ends ops strategy find p
              (plan ops strategy find name word (db ∷ select (chosen name) rest) p.state)
              (next_progress ops strategy find p word db)
      round_stop db rest p x g =
          rw (plan_step name word db (select (chosen name) rest) p.state false x g)
            (Ends-last p word db)

      pub round_plain :
          (db : Database) (rest : List Database) (p : Progress S)
          → Ready ops strategy find name word p
          → db.exit_db ≡ false
          → length (select (chosen name) rest) < fuel
          → Returns (search_round ops strategy name (some db, rest) p next) (
              Ends ops strategy find p
                (plan ops strategy find name word (db ∷ select (chosen name) rest) p.state))
      round_plain db rest p ready x h =
          rw (search_round_plain ops strategy find plain name word db rest p next ready.words x)
            (elim (Bool-cases (starts_with star name)) [
              | inl a ↦ rw a (
                  round_go db rest p
                    (record { words = refl; error = refl; none_yet = λ b. ground (arith, a, b) }) x
                    (ground (arith, a)) h)
              | inr a ↦
                  rw a
                    (elim (Bool-cases (
                      (start_or p.matches + (length (find p.state word db).0 + 0) == 0)
                      && starts_with bang name)) [
                        | inl b ↦ rw b (
                            round_go db rest p
                              (record {
                                words = refl;
                                error = refl;
                                none_yet = λ c. ground (arith, b);
                              })
                              x (ground (arith, a, b)) h)
                        | inr b ↦
                            rw b (round_stop db rest p x (ground (arith, a, b, ready.none_yet a)))
                      ])
            ])
