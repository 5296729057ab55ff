-- ===== src/Setup/Members.antt =====
-- dictd/dictd.c: `dbname2database`, `string2virtual_db_list`, `init_virtual_db_list` and
-- `init_mime_db_list`. The search for the entry with the names and its data are parameters.
use dictd.Prelude.{
  ℕ, List, [], ◌∷◌, ◌++◌, Option, none, some, Bool, true, false, ◌||◌, ◌==◌, if◌then◌else◌,
}
use dictd.Prelude.Int.{ℤ, pos, eqb_ℤ}
use dictd.Prelude.Result.{Result, ok, err, ◌>>=◌}
use dictd.Daemon.Types.{Database, DictWord}
use dictd.Daemon.Databases.{same_string}

-- Why the server stops: an unknown database (`exit(2)`, or `err_fatal` for a MIME database), a
-- missing keyword, more than one entry; and an empty list that is popped.
pub data SetupFault : Type 0 where
  unknown_database incorrect_name no_keyword more_entries no_entry : SetupFault

-- The first database of the name.
unfoldable pub dbname2database : List Database → List ℕ → Option Database
unfolding same_string
dbname2database [] name = none
dbname2database (db ∷ dbl) name =
    let rest = dbname2database dbl name in
    if same_string db.database_name name then some db else rest

unfoldable pub known : Option Database → Result SetupFault Database
known none = err unknown_database
known (some db) = ok db

abbrev pub is_separator : ℕ → Bool
is_separator c = c == 44 || c == 10

-- `if (*p)`: the name from `p` on, unless it is empty.
unfoldable pub append_named :
    List Database → List ℕ → List Database → Result SetupFault (List Database)
unfolding known
append_named dbl [] l = ok l
append_named dbl (c ∷ name) l = do db ← known (dbname2database dbl (c ∷ name)); ok (l ++ (db ∷ []))

-- The loop; `name` is the part between `p` and `i`, and the end of the string is a separator.
unfoldable pub string_loop :
    List Database → List ℕ → List ℕ → List Database → Result SetupFault (List Database)
string_loop dbl name [] l = append_named dbl name l
string_loop dbl name (c ∷ s) l =
    let behind = string_loop dbl [] s in
    let longer = string_loop dbl (name ++ (c ∷ [])) s l in
    if is_separator c then append_named dbl name l >>= behind else longer

unfoldable pub string2virtual_db_list : List Database → List ℕ → Result SetupFault (List Database)
unfolding string_loop
string2virtual_db_list dbl s = string_loop dbl [] s []

module _ (dict_data_obtain : Database → DictWord → List ℕ) where
  -- `lst_pop` of the search's list.
  unfoldable pub names_of :
      List Database → Database → List DictWord → Result SetupFault (List Database)
  names_of dbl db [] = err no_entry
  names_of dbl db (dw ∷ l) = string2virtual_db_list dbl (dict_data_obtain db dw)

  -- `switch (ret)`; `none` leaves the list of the database as it is.
  unfoldable pub switch_found :
      List Database → Database → ℤ × List DictWord → Result SetupFault (Option (List Database))
  switch_found dbl db (ret, list) =
      if eqb_ℤ ret (pos 1) || eqb_ℤ ret (pos 2)
      then (do l ← names_of dbl db list; ok (some l))
      else if eqb_ℤ ret (pos 0)
      then ok none
      else err more_entries

  -- With `database_list`, and with what the search in the index gives, if there is one.
  unfoldable pub init_virtual_db_list :
      List Database
      → Database
      → Option (List ℕ)
      → Option (ℤ × List DictWord)
      → Result SetupFault (Option (List Database))
  init_virtual_db_list dbl db (some names) searched = do
    l ← string2virtual_db_list dbl names
    ok (some l)
  init_virtual_db_list dbl db none none = ok none
  init_virtual_db_list dbl db none (some r) = switch_found dbl db r

-- One of the two names of a MIME database.
unfoldable pub correct : Option Database → Result SetupFault Database
correct none = err incorrect_name
correct (some db) = ok db

unfoldable pub mime_member : List Database → Option (List ℕ) → Result SetupFault Database
unfolding correct
mime_member dbl none = err no_keyword
mime_member dbl (some name) = correct (dbname2database dbl name)

-- With `mime_db` and the two names.
unfoldable pub init_mime_db_list :
    List Database
    → Bool
    → Option (List ℕ)
    → Option (List ℕ)
    → Result SetupFault (Option (Database × Database))
unfolding mime_member
init_mime_db_list dbl false mime nomime = ok none
init_mime_db_list dbl true mime nomime = do
  a ← mime_member dbl mime
  b ← mime_member dbl nomime
  ok (some (a, b))
