-- ===== src/Session/Answered.antt =====
-- dictd/daemon.c: AUTH lets in only who knows the secret.
use dictd.Prelude.{
  ℕ, suc, ◌≡◌, refl, inl, inr, List, [], ◌∷◌, ◌++◌, Option, none, some, ◌==◌, if◌then◌else◌, length,
  Bool-cases, arith,
}
use dictd.Prelude.Result.{Result, ok, err, ◌>>=◌, Returns, Returns-bind, Returns-assoc}
use dictd.Daemon.Types.{Database}
use dictd.Daemon.Databases.{same_string}
use dictd.Daemon.Print.{Output, status}
use dictd.Access.Checks.{AccessFault}
use dictd.Access.Lists.{daemon_check_auth}
use dictd.Access.Auth.{Short, daemon_check_auth-Returns}
use dictd.Session.Longest.{same_string_eq}
use dictd.Session.Auth.{
  Security, lift_access, find_secret, check_user, Authenticated, check_digest, daemon_auth,
}

three_words : (n : ℕ) → (suc (suc (suc n)) == 3) ≡ (n == 0)
three_words n = ground arith

module _ (sc : Security) where
  -- The user has a secret, and the word given is the sum of the stamp and the secret.
  pub record Verified (user given : List ℕ) : Type 0 where
    pub table : List ℕ → Option (List ℕ)
    pub secret : List ℕ
    pub has_table : sc.usl ≡ some table
    pub has_secret : table user ≡ some secret
    pub digest : sc.md5_hex (sc.daemon_stamp ++ secret) ≡ given

  -- The two outcomes: the databases as they were, or as the access lists have them for the user.
  pub data Outcome (dbl : List Database) (user given : List ℕ)
      : List Database × List Output → Type 0 where
    refused : Outcome dbl user given (dbl, status 531 ∷ [])
    accepted :
        (n : ℕ) (dbl' : List Database)
        → Verified user given
        → daemon_check_auth sc.client (some user) sc.acl sc.db_acl dbl ≡ ok (n, dbl')
        → Outcome dbl user given (dbl', status 230 ∷ [])

  module _ (short : Short sc.acl) (shorts : (db : Database) → Short (sc.db_acl db)) where
    lift_access-Outcome :
        (dbl : List Database) (user given : List ℕ) (m : Result AccessFault (ℕ × List Database))
        → Verified user given
        → daemon_check_auth sc.client (some user) sc.acl sc.db_acl dbl ≡ m
        → Returns m (λ r. Unit {0})
        → Returns (lift_access m >>= λ dbl'. ok (dbl', status 230 ∷ [])) (Outcome dbl user given)
    unfolding lift_access
    lift_access-Outcome dbl user given (ok (n, dbl')) v e h = accepted n dbl' v e
    lift_access-Outcome dbl user given (err f) v e h = h

    check_user-Outcome :
        (dbl : List Database) (user given : List ℕ)
        → Verified user given
        → Returns (check_user sc dbl (some user)) (Outcome dbl user given)
    unfolding check_user
    check_user-Outcome dbl user given v =
        lift_access-Outcome dbl user given
          (daemon_check_auth sc.client (some user) sc.acl sc.db_acl dbl) v refl
          (daemon_check_auth-Returns sc.client (some user) sc.db_acl shorts sc.acl dbl short)

    check_digest-Outcome :
        (dbl : List Database) (user given : List ℕ) (table : List ℕ → Option (List ℕ))
        (secret : Option (List ℕ))
        → sc.usl ≡ some table
        → table user ≡ secret
        → Returns (check_digest sc dbl (some user) secret (some given)) (Outcome dbl user given)
    unfolding check_digest
    check_digest-Outcome dbl user given table none e f = refused
    check_digest-Outcome dbl user given table (some secret) e f =
        elim (Bool-cases (same_string (sc.md5_hex (sc.daemon_stamp ++ secret)) given)) [
          | inl h ↦ rw h (
              check_user-Outcome dbl user given (record {
                table = table;
                secret = secret;
                has_table = e;
                has_secret = f;
                digest = same_string_eq (sc.md5_hex (sc.daemon_stamp ++ secret)) given h;
              }))
          | inr h ↦ rw h refused
        ]

    secret_digest-Outcome :
        (dbl : List Database) (user given : List ℕ) (usl : Option (List ℕ → Option (List ℕ)))
        → sc.usl ≡ usl
        → Returns
            (find_secret sc usl (some user) >>= λ secret.
              check_digest sc dbl (some user) secret (some given))
            (Outcome dbl user given)
    unfolding find_secret check_digest
    secret_digest-Outcome dbl user given none e = refused
    secret_digest-Outcome dbl user given (some table) e =
        check_digest-Outcome dbl user given table (table user) e refl

    -- AUTH with a user, a word and perhaps more arguments always gives one of two outcomes, if the
    -- specifications of the access lists are shorter than 128 characters: it is refused and nothing
    -- changes; or the user has a secret, the word is the sum of the stamp and the secret, and the
    -- databases are what daemon_check_auth makes of them for the user. More arguments than these
    -- add an error line in front of the answer.
    pub daemon_auth-Outcome :
        (dbl : List Database) (name user given : List ℕ) (more : List (List ℕ))
        → Returns (daemon_auth sc dbl (name ∷ user ∷ given ∷ more)) (λ r.
          (out : List Output) × Outcome dbl user given (r.0, out)
          × (r.1 ≡ (if length more == 0 then out else status 501 ∷ out)))
    unfolding daemon_auth
    daemon_auth-Outcome dbl name user given more =
        let f : Option (List ℕ) → Authenticated =
          λ secret. check_digest sc dbl (some user) secret (some given) in
        let g : List Database × List Output → Authenticated = λ r.
          ok (r.0, if length (name ∷ user ∷ given ∷ more) == 3 then r.1 else status 501 ∷ r.1) in
        let Q : List Database × List Output → Type 0 = λ r.
          (out : List Output) × Outcome dbl user given (r.0, out)
          × (r.1 ≡ (if length more == 0 then out else status 501 ∷ out)) in
        Returns-assoc (find_secret sc sc.usl (some user)) f g Q (
          Returns-bind (find_secret sc sc.usl (some user) >>= f) g (Outcome dbl user given) Q
            (secret_digest-Outcome dbl user given sc.usl refl)
            (λ r o. (r.1, o, rw (three_words (length more)) refl)))
