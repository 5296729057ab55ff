-- ===== src/Access/Auth.antt =====
-- dictd/daemon.c: which databases `daemon_check_auth` makes available.
use dictd.Prelude.{
  ℕ, ◌<◌, ◌≡◌, refl, ◌↔◌, List, [], ◌∷◌, Option, none, some, Bool, true, arith, length, All,
}
use dictd.Prelude.Result.{Result, ok, ◌>>=◌, Returns, Returns-bind, Returns-self}
use dictd.Daemon.Types.{Database}
use dictd.Access.Checks.{
  Access, deny, allow, auth_only, user, group, found_match, no_match, AccessFault, Client,
}
use dictd.Access.Lists.{
  Entry, daemon_check_list, is_allow, set_available, after_list, daemon_check_auth,
}
use dictd.Access.Laws.{Verdict, daemon_check_list-Verdict}

-- No list, or one with short specifications.
abbrev pub Short : Option (List Entry) → Type 0
Short none = Unit
Short (some acl) = All (λ (a : Entry). length a.spec < 128) acl

abbrev ok_result : Access → Result AccessFault Access
ok_result r = ok r

is_allow_iff : (r : Access) → (is_allow r ≡ true) ↔ (ok_result r ≡ ok allow)
unfolding is_allow
is_allow_iff deny = ground arith
is_allow_iff allow = ground arith
is_allow_iff auth_only = ground arith
is_allow_iff user = ground arith
is_allow_iff group = ground arith
is_allow_iff found_match = ground arith
is_allow_iff no_match = ground arith

module _ (cl : Client) (name : Option (List ℕ)) (db_acl : Database → Option (List Entry)) where
  -- The databases as they were but for `available`, which tells whether the list of the database
  -- allows the client.
  pub data Available : List Database → List Database → Type 0 where
    all_set : Available [] []
    set_one :
        (db : Database) (b : Bool) (l m : List Database)
        → ((b ≡ true) ↔ (daemon_check_list cl name (db_acl db) ≡ ok allow))
        → Available l m
        → Available (db ∷ l) (record db { available = b } ∷ m)

  module _ (short : (db : Database) → Short (db_acl db)) where
    list-Returns :
        (acl : Option (List Entry))
        → Short acl
        → Returns (daemon_check_list cl name acl) (λ r. daemon_check_list cl name acl ≡ ok r)
    unfolding daemon_check_list
    list-Returns none h = refl
    list-Returns (some acl) h =
        Returns-self (daemon_check_list cl name (some acl)) Verdict
          (daemon_check_list-Verdict cl name acl h)

    set_available-Available :
        (dbl : List Database) → Returns (set_available cl name db_acl dbl) (Available dbl)
    unfolding set_available
    set_available-Available [] = all_set
    set_available-Available (db ∷ dbl) =
        Returns-bind (daemon_check_list cl name (db_acl db))
          (λ r. set_available cl name db_acl dbl >>= λ rest.
            ok (record db { available = is_allow r } ∷ rest))
          (λ r. daemon_check_list cl name (db_acl db) ≡ ok r) (Available (db ∷ dbl))
          (list-Returns (db_acl db) (short db))
          (λ r e.
            Returns-bind (set_available cl name db_acl dbl)
              (λ rest. ok (record db { available = is_allow r } ∷ rest)) (Available dbl)
              (Available (db ∷ dbl)) (set_available-Available dbl)
              (λ m h. set_one db (is_allow r) dbl m (rw e (is_allow_iff r)) h))

    after_list-Returns :
        (r : Access) (dbl : List Database)
        → Returns (after_list cl name r db_acl dbl) (λ r. Unit {0})
    unfolding after_list
    after_list-Returns allow dbl =
        Returns-bind (set_available cl name db_acl dbl) (λ l. ok (0, l)) (Available dbl)
          (λ r. Unit {0}) (set_available-Available dbl) (λ l h. tt)
    after_list-Returns deny dbl = tt
    after_list-Returns auth_only dbl =
        let m = set_available cl name db_acl dbl >>= λ l. ok (0, l) in
        let h : Returns m (λ r. Unit {0}) =
          Returns-bind (set_available cl name db_acl dbl) (λ l. ok (0, l)) (Available dbl)
            (λ r. Unit {0}) (set_available-Available dbl) (λ l h. tt) in
        elim name
          as (λ k.
            Returns
              (elim k as (λ _. Result AccessFault (ℕ × List Database)) [
                | none ↦ ok (0, dbl)
                | some _ ↦ m
              ])
              (λ r. Unit {0})) [ none ↦ tt | some u ↦ h ]
    after_list-Returns user dbl = tt
    after_list-Returns group dbl = tt
    after_list-Returns found_match dbl = tt
    after_list-Returns no_match dbl = tt

    pub daemon_check_auth-Returns :
        (acl : Option (List Entry)) (dbl : List Database)
        → Short acl
        → Returns (daemon_check_auth cl name acl db_acl dbl) (λ r. Unit {0})
    unfolding daemon_check_auth
    daemon_check_auth-Returns acl dbl h =
        Returns-bind (daemon_check_list cl name acl) (λ r. after_list cl name r db_acl dbl)
          (λ r. daemon_check_list cl name acl ≡ ok r) (λ r. Unit {0}) (list-Returns acl h)
          (λ r e. after_list-Returns r dbl)
