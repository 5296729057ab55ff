-- ===== src/Tests/Data.antt =====
-- Tests of libdictd/data.c on a file of ten bytes in three chunks, with a stream that copies.
use dictd.Prelude.{ℕ, zero, suc, ◌+◌, ◌*◌, ◌<◌, ◌≡◌, refl, List, [], ◌∷◌, none, true, false, arith}
use dictd.Prelude.Slices.{slice}
use dictd.Prelude.Words.{to_int}
use dictd.Prelude.Int.{eqb_ℤ, ltb_ℤ}
use dictd.Prelude.Result.{Result, err, Returns}
use dictd.Data.Types.{Fault, int_overflow, DictData, State, Inflated, dzip, empty_slots}
use dictd.Data.Read.{
  access, access_slot, decompress, piece, read_chunks, initialize, last_chunk, read_range,
  read_dzip, dict_data_read,
}
use dictd.Data.Cache.{IsDzip, IsCache, HasChunk, Inflates, empty_slots-IsFresh}
use dictd.Data.Definition.{dict_data_read-slice, dict_data_read_empty}

abbrev digits : List ℕ
digits = 0 ∷ 1 ∷ 2 ∷ 3 ∷ 4 ∷ 5 ∷ 6 ∷ 7 ∷ 8 ∷ 9 ∷ []

-- A stream whose state is the number of calls.
abbrev copy : ℕ → List ℕ → ℕ → Inflated ℕ
copy z bytes room = record { z_ok = true; pending = 0; out = bytes; next = z + 1 }

abbrev file : DictData
file = record {
  mapped = digits;
  file_type = dzip;
  chunk_length = 4;
  chunks = 4 ∷ 4 ∷ 2 ∷ [];
  offsets = 0 ∷ 4 ∷ 8 ∷ [];
}

abbrev fresh : State ℕ
fresh = record { slots = empty_slots; stamp = 0; initialized = false; stream = 0 }

abbrev size_of : ℕ → ℕ
size_of (suc (suc zero)) = 2
size_of k = 4

has_chunk : (k : ℕ) → k < 3 → HasChunk file k (size_of k) (k * 4)
has_chunk zero h = record {
  chunk = refl;
  offset_at = refl;
  fits = omega arith;
  inside = omega arith;
}
has_chunk (suc zero) h = record {
  chunk = refl;
  offset_at = refl;
  fits = omega arith;
  inside = omega arith;
}
has_chunk (suc (suc zero)) h = record {
  chunk = refl;
  offset_at = refl;
  fits = omega arith;
  inside = omega arith;
}
has_chunk (suc (suc (suc k))) h = absurd (omega arith)

inflates :
    (k : ℕ) → k < 3 → Inflates copy (slice (k * 4) (size_of k) digits) (slice (k * 4) 4 digits)
inflates zero h = record { z_ok = λ z. refl; pending = λ z. refl; out = λ z. refl }
inflates (suc zero) h = record { z_ok = λ z. refl; pending = λ z. refl; out = λ z. refl }
inflates (suc (suc zero)) h = record { z_ok = λ z. refl; pending = λ z. refl; out = λ z. refl }
inflates (suc (suc (suc k))) h = absurd (omega arith)

abbrev file_of_digits : IsDzip copy file digits
file_of_digits = record {
  positive = omega arith;
  covers = omega arith;
  len = size_of;
  offset = λ k. k * 4;
  has_chunk = has_chunk;
  inflates = inflates;
}

-- A read across the three chunks, and the one slot of the cache that a read of one chunk fills.
Bytes : Result Fault (List ℕ × State ℕ) → List ℕ → Type 0
Bytes r bytes = Returns r (λ s. s.0 ≡ bytes)

across : Bytes (dict_data_read copy 0 file none none fresh 3 6) (3 ∷ 4 ∷ 5 ∷ 6 ∷ 7 ∷ 8 ∷ [])
unfolding Bytes dict_data_read read_dzip read_range read_chunks access access_slot decompress piece
    initialize last_chunk to_int eqb_ℤ ltb_ℤ
across = refl

dict_data_read-slice_example :
    Returns
      (dict_data_read copy 0 file none none fresh 3 6)
      (λ r. (r.0 ≡ slice 3 6 digits) × IsCache copy file digits r.1)
dict_data_read-slice_example =
    dict_data_read-slice copy 0 file digits file_of_digits fresh 3 6
      (empty_slots-IsFresh copy file digits) (omega arith) (omega arith) (omega arith) (omega arith)
      (omega arith) refl

abbrev dictzip_file : DictData
dictzip_file = record file { chunk_length = 58315 }

dict_data_read_empty_example :
    dict_data_read copy 0 dictzip_file none none fresh 0 0 ≡ err int_overflow
dict_data_read_empty_example = dict_data_read_empty copy 0 dictzip_file none none fresh refl refl
