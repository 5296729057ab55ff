-- ===== src/Access/Lists.antt =====
-- dictd/daemon.c: `daemon_check_list` and `daemon_check_auth`. The access list of a database is
-- given by a function, since `Database` does not hold it.
use dictd.Prelude.{ℕ, List, [], ◌∷◌, Option, none, some, Bool, true, false, if◌then◌else◌}
use dictd.Prelude.Result.{Result, ok, ◌>>=◌}
use dictd.Daemon.Types.{Database}
use dictd.Daemon.Databases.{same_string}
use dictd.Access.Checks.{
  Access, deny, allow, auth_only, user, found_match, AccessFault, Client, check_spec,
}

-- `dictAccess`
pub record Entry : Type 0 where
  pub type : Access
  pub spec : List ℕ

-- `user && !strcmp(user, spec)`
unfoldable pub is_user : Option (List ℕ) → List ℕ → Bool
unfolding same_string
is_user none spec = false
is_user (some name) spec = same_string name spec

-- What the check of an address entry does: ends the loop with a result, or goes on with `more`.
unfoldable pub after_check : Access → Access → Result AccessFault Access → Result AccessFault Access
after_check type deny more = ok deny
after_check type found_match more = ok type
after_check type _ more = more

-- `case DICT_ALLOW: db->available = 1`
unfoldable pub is_allow : Access → Bool
is_allow allow = true
is_allow _ = false

module _ (cl : Client) (name : Option (List ℕ)) where
  -- One entry; `more` is the rest of the loop.
  unfoldable pub check_entry :
      Access → List ℕ → Result AccessFault Access → Result AccessFault Access
  unfolding after_check is_user
  check_entry user spec more = if is_user name spec then ok allow else more
  check_entry deny spec more = do r ← check_spec cl spec; after_check deny r more
  check_entry allow spec more = do r ← check_spec cl spec; after_check allow r more
  check_entry auth_only spec more = do r ← check_spec cl spec; after_check auth_only r more
  check_entry _ spec more = more

  unfoldable pub check_entries : List Entry → Result AccessFault Access
  unfolding check_entry
  check_entries [] = ok deny
  check_entries (a ∷ acl) = check_entry a.type a.spec (check_entries acl)

  -- No list allows.
  unfoldable pub daemon_check_list : Option (List Entry) → Result AccessFault Access
  unfolding check_entries
  daemon_check_list none = ok allow
  daemon_check_list (some acl) = check_entries acl

  -- The loop over the databases.
  unfoldable pub set_available :
      (Database → Option (List Entry)) → List Database → Result AccessFault (List Database)
  unfolding is_allow
  set_available db_acl [] = ok []
  set_available db_acl (db ∷ dbl) = do
    r ← daemon_check_list (db_acl db)
    rest ← set_available db_acl dbl
    ok (record db { available = is_allow r } ∷ rest)

  -- Did the client get in (0), and what is available to it?
  unfoldable pub after_list :
      Access
      → (Database → Option (List Entry))
      → List Database
      → Result AccessFault (ℕ × List Database)
  unfolding set_available
  after_list allow db_acl dbl = do l ← set_available db_acl dbl; ok (0, l)
  after_list auth_only db_acl dbl = elim name [
    | none ↦ ok (0, dbl)
    | some _ ↦ do l ← set_available db_acl dbl; ok (0, l)
  ]
  after_list _ db_acl dbl = ok (1, dbl)

  unfoldable pub daemon_check_auth :
      Option (List Entry)
      → (Database → Option (List Entry))
      → List Database
      → Result AccessFault (ℕ × List Database)
  unfolding after_list
  daemon_check_auth acl db_acl dbl = do r ← daemon_check_list acl; after_list r db_acl dbl
