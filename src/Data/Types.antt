-- ===== src/Data/Types.antt =====
-- The data file and its cache of decompressed chunks (libcommon/defs.h, `dictCache`, `dictData`).
-- `count` is kept beside the bytes of `inBuffer` that are in use. zlib is a parameter: `inflate`
-- takes the stream's state, the compressed bytes and the room for output.
use dictd.Prelude.{ℕ, List, [], ◌∷◌, Option, Bool}
use dictd.Prelude.Int.{ℤ, negsuc}

pub data FileType : Type 0 where
  unknown text gzip dzip : FileType

-- The ways in which the server stops, and the undefined behaviour that C leaves open.
pub data Fault : Type 0 where
  unknown_type : Fault
  pure_gzip : Fault
  division_by_zero : Fault
  int_overflow : Fault
  bad_chunk : Fault
  chunk_too_large : Fault
  past_file : Fault
  uninitialized_count : Fault
  filter_overflow : Fault
  inflate_failed : Fault
  not_flushed : Fault
  bad_length : Fault
  stale_bytes : Fault

pub record Slot : Type 0 where
  pub chunk : ℤ
  pub in_buffer : List ℕ
  pub stamp : ℤ
  pub count : ℕ

pub record DictData : Type 0 where
  pub mapped : List ℕ
  pub file_type : FileType
  pub chunk_length : ℕ
  pub chunks : List ℕ
  pub offsets : List ℕ

-- What changes while the file is read: the cache, the function's static `stamp`, the stream.
pub record State (Z : Type 0) : Type 0 where
  pub slots : List Slot
  pub stamp : ℕ
  pub initialized : Bool
  pub stream : Z

-- The outcome of `inflate`: did it return Z_OK, `avail_in` left over, the output, the new stream.
pub record Inflated (Z : Type 0) : Type 0 where
  pub z_ok : Bool
  pub pending : ℕ
  pub out : List ℕ
  pub next : Z

abbrev pub out_buffer_size : ℕ
out_buffer_size = 65535

-- ((OUT_BUFFER_SIZE - 12) * 89 / 100)
abbrev pub in_buffer_size : ℕ
in_buffer_size = 58315

abbrev pub empty_slot : Slot
empty_slot = record { chunk = negsuc 0; in_buffer = []; stamp = negsuc 0; count = 0 }

-- The cache that `dict_data_open` sets up: DICT_CACHE_SIZE slots.
abbrev pub empty_slots : List Slot
empty_slots = empty_slot ∷ empty_slot ∷ empty_slot ∷ empty_slot ∷ empty_slot ∷ []

-- A filter program, if the database names one.
abbrev pub Filter : Type 0
Filter = Option (List ℕ → List ℕ)
