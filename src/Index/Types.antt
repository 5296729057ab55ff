-- ===== src/Index/Types.antt =====
-- libdictd/index.c and libcommon/defs.h: an index file in memory, and the character tables.
-- A pointer into the file is its offset from `start`; `end` is the length. The tables that
-- `dict_table_init` fills from the locale's ctype functions are parameters.
use dictd.Prelude.{ℕ, List, Bool, ◌||◌, ◌==◌}

-- Results of a comparison, in the order -2, -1, 0, 1. (2 is announced as an error, never returned.)
pub data Cmp : Type 0 where
  less prefix equal greater : Cmp

-- How a search can fail: a byte past the file is read, a malformed line or a failed assertion stops the server; and the
-- fuel of the model can run out, which the theorems exclude.
pub data SearchFault : Type 0 where
  past_end bad_index too_many_tabs too_few_tabs bad_upper no_fuel : SearchFault

pub record Tables : Type 0 where
  pub utf8_mode : Bool
  pub opt_start_mode : Bool
  pub tolower : ℕ → ℕ
  pub c2i : ℕ → ℕ
  pub i2c : ℕ → ℕ

pub record DictIndex : Type 0 where
  pub bytes : List ℕ
  pub opt_start : ℕ → ℕ
  pub flag_utf8 : Bool
  pub flag_8bit : Bool
  pub flag_allchars : Bool
  pub flag_casesensitive : Bool
  pub isspacealnum : ℕ → Bool

abbrev pub tab : ℕ
tab = 9

abbrev pub newline : ℕ
newline = 10

-- The bytes that end a column or a line.
abbrev pub is_stop : ℕ → Bool
is_stop c = c == tab || c == newline
