-- ===== src/Daemon/Types.antt =====
-- libcommon/defs.h: the databases and the words found, as far as the daemon looks at them. A
-- database is known by `id`, which stands for its address.
use dictd.Prelude.{ℕ, List, Option, Bool}
use dictd.Prelude.Int.{ℤ}

pub record Database : Type 0 where
  pub id : ℕ
  pub database_name : List ℕ
  pub database_short : List ℕ
  pub available : Bool
  pub invisible : Bool
  pub exit_db : Bool
  pub filter : Option (List ℕ)
  pub mime_header : Option (List ℕ)

-- `def` is the address of a definition that a plugin gave, NULL for one in a file; what a plugin
-- stored there is `def_bytes`. `def_size` is -1 for a word that is not a definition.
pub record DictWord : Type 0 where
  pub database : Database
  pub database_visible : Option Database
  pub word : List ℕ
  pub start : ℕ
  pub stop : ℕ
  pub def : Option ℕ
  pub def_bytes : List ℕ
  pub def_size : ℤ

abbrev pub star : ℕ
star = 42

abbrev pub bang : ℕ
bang = 33
