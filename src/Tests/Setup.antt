-- ===== src/Tests/Setup.antt =====
-- Tests of dictd/dictd.c: the members of a virtual database.
use dictd.Prelude.{ℕ, ◌≡◌, refl, List, [], ◌∷◌, true, arith}
use dictd.Prelude.Text.{join}
use dictd.Prelude.Result.{ok}
use dictd.Daemon.Types.{Database}
use dictd.Daemon.Databases.{same_string}
use dictd.Setup.Members.{dbname2database, known, append_named, string_loop, string2virtual_db_list}
use dictd.Setup.Exits.{make_dictexit_invisible, exits_hidden, make_dictexit_invisible-hidden}
use dictd.Tests.Daemon.{web, hidden, foldoc, last_mark}

abbrev all_databases : List Database
all_databases = web ∷ foldoc ∷ hidden ∷ []

-- "h" and "w"
abbrev two_names : List (List ℕ)
two_names = (104 ∷ []) ∷ (119 ∷ []) ∷ []

two_members : string2virtual_db_list all_databases (join two_names) ≡ ok (hidden ∷ web ∷ [])
unfolding string2virtual_db_list string_loop append_named dbname2database same_string known
two_members = refl

-- Only the last mark has nothing behind it that is not hidden.
abbrev with_marks : List Database
with_marks = last_mark ∷ web ∷ last_mark ∷ hidden ∷ []

make_dictexit_invisible-hidden_example :
    make_dictexit_invisible with_marks ≡ exits_hidden with_marks
make_dictexit_invisible-hidden_example =
    make_dictexit_invisible-hidden with_marks
      ((λ e. refl), ((λ e. refl), ((λ e. refl), ((λ e. ground (arith, e)), tt))))

last_is_hidden :
    exits_hidden with_marks ≡ last_mark ∷ web ∷ record last_mark { invisible = true } ∷ hidden ∷ []
last_is_hidden = refl
