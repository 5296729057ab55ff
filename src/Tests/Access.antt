-- ===== src/Tests/Access.antt =====
-- Tests of the access lists of dictd/daemon.c, with addresses written as one character.
use dictd.Prelude.{
  ℕ, ◌≤◌, ◌≡◌, refl, ◌↔◌, List, [], ◌∷◌, ◌++◌, Option, none, some, Bool, true, false, arith,
}
use dictd.Prelude.Int.{pos}
use dictd.Prelude.Result.{Returns}
use dictd.Daemon.Types.{Database}
use dictd.Access.Checks.{
  Client, deny, allow, user, colon, found_match, daemon_check_range, is_empty,
}
use dictd.Access.Lists.{Entry, daemon_check_list}
use dictd.Access.Laws.{Verdict, daemon_check_list-Verdict, daemon_check_range-in_range}

abbrev first_char : List ℕ → Option ℕ
first_char [] = none
first_char (c ∷ s) = some c

abbrev matches_all : List ℕ → Option (List ℕ → Bool)
matches_all pattern = some (λ text. true)

abbrev pub client : Client
client = record {
  inet_pton = first_char;
  strtol = λ s. pos 8;
  regcomp = matches_all;
  hostname = 104 ∷ [];
  ip = 75 ∷ [];
}

-- No addresses from 80 to 90; then everybody is allowed.
abbrev range_list : List Entry
range_list =
    record { type = deny; spec = 80 ∷ (colon ∷ 90 ∷ []) }
    ∷ record { type = allow; spec = 42 ∷ [] }
    ∷ []

daemon_check_list-Verdict_example :
    Returns (daemon_check_list client none (some range_list)) Verdict
daemon_check_list-Verdict_example =
    daemon_check_list-Verdict client none range_list (omega arith, (omega arith, tt))

daemon_check_range-in_range_example :
    (daemon_check_range client ((70 ∷ []) ++ (colon ∷ (80 ∷ []))) ≡ found_match)
    ↔ ((70 ≤ 75) × (75 ≤ 80))
unfolding is_empty
daemon_check_range-in_range_example =
    daemon_check_range-in_range client (70 ∷ []) (80 ∷ []) 75 70 80 (refl, tt) (refl, tt) refl refl
      refl refl

abbrev wiki : Database
wiki = record {
  id = 1;
  database_name = 119 ∷ [];
  database_short = 87 ∷ [];
  available = false;
  invisible = false;
  exit_db = false;
  filter = none;
  mime_header = none;
}

abbrev no_list : Database → Option (List Entry)
no_list _ = none

abbrev for_users : List Entry
for_users = record { type = user; spec = 117 ∷ [] } ∷ []
