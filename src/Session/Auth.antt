-- ===== src/Session/Auth.antt =====
-- dictd/daemon.c: `daemon_auth`. The MD5 sum, in hexadecimal digits, is a parameter.
use dictd.Prelude.{
  ℕ, List, [], ◌∷◌, ◌++◌, Option, none, some, ◌==◌, if◌then◌else◌, length, get_elem?,
}
use dictd.Prelude.Result.{Result, ok, err, ◌>>=◌}
use dictd.Daemon.Types.{Database}
use dictd.Daemon.Databases.{same_string}
use dictd.Daemon.Search.{DaemonFault, null_word, overflow}
use dictd.Daemon.Print.{Output, status}
use dictd.Access.Checks.{AccessFault, Client}
use dictd.Access.Lists.{Entry, daemon_check_auth}

-- The secrets of the users, if there are any; the stamp of the connection; the access lists.
pub record Security : Type 0 where
  pub usl : Option (List ℕ → Option (List ℕ))
  pub md5_hex : List ℕ → List ℕ
  pub daemon_stamp : List ℕ
  pub client : Client
  pub acl : Option (List Entry)
  pub db_acl : Database → Option (List Entry)

abbrev pub Authenticated : Type 0
Authenticated = Result DaemonFault (List Database × List Output)

unfoldable pub lift_access :
    Result AccessFault (ℕ × List Database) → Result DaemonFault (List Database)
lift_access (ok (denied, dbl)) = ok dbl
lift_access (err e) = err overflow

module _ (sc : Security) where
  -- `hsh_retrieve(h, argv[1])` for the user's secret; a NULL name is an error.
  unfoldable pub find_secret :
      Option (List ℕ → Option (List ℕ)) → Option (List ℕ) → Result DaemonFault (Option (List ℕ))
  find_secret none user = ok none
  find_secret (some table) none = err null_word
  find_secret (some table) (some user) = ok (table user)

  unfoldable pub check_user : List Database → Option (List ℕ) → Authenticated
  unfolding lift_access
  check_user dbl user = do
    dbl' ← lift_access (daemon_check_auth sc.client user sc.acl sc.db_acl dbl)
    ok (dbl', status 230 ∷ [])

  unfoldable pub check_digest :
      List Database → Option (List ℕ) → Option (List ℕ) → Option (List ℕ) → Authenticated
  unfolding check_user same_string
  check_digest dbl user none given = ok (dbl, status 531 ∷ [])
  check_digest dbl user (some secret) none = err null_word
  check_digest dbl user (some secret) (some given) =
      if same_string (sc.md5_hex (sc.daemon_stamp ++ secret)) given
      then check_user dbl user
      else ok (dbl, status 531 ∷ [])

  -- A wrong number of arguments is answered, but does not end the handler.
  unfoldable pub daemon_auth : List Database → List (List ℕ) → Authenticated
  unfolding check_digest find_secret
  daemon_auth dbl argv = do
    secret ← find_secret sc.usl (get_elem? argv 1)
    (dbl', out) ← check_digest dbl (get_elem? argv 1) secret (get_elem? argv 2)
    ok (dbl', if length argv == 3 then out else status 501 ∷ out)
