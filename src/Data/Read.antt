-- ===== src/Data/Read.antt =====
-- libdictd/data.c, `dict_data_read_` and `dict_data_filter`.
use dictd.Prelude.{
  ℕ, zero, suc, ◌+◌, ◌-◌, ◌*◌, ◌/◌, ◌%◌, List, [], ◌∷◌, ◌++◌, none, some, Bool, true, false, ltb,
  leb, ◌==◌, ◌&&◌, if◌then◌else◌, length, get_elem?, set,
}
use dictd.Prelude.Slices.{slice}
use dictd.Prelude.Int.{ℤ, pos, negsuc, ltb_ℤ, eqb_ℤ}
use dictd.Prelude.Words.{int_max, ulong_mod, to_int}
use dictd.Prelude.Result.{Result, ok, err, ◌>>=◌}
use dictd.Data.Types.{
  Fault, unknown_type, pure_gzip, division_by_zero, int_overflow, bad_chunk, chunk_too_large,
  past_file, uninitialized_count, filter_overflow, inflate_failed, not_flushed, bad_length,
  stale_bytes, Slot, DictData, State, Inflated, unknown, text, gzip, dzip, out_buffer_size,
  in_buffer_size, empty_slot, Filter,
}

-- `pr_filter` runs the program on the buffer; its output must fit `max_length`.
unfoldable pub dict_data_filter : List ℕ → ℕ → Filter → Result Fault (List ℕ)
dict_data_filter buffer max_length none = ok buffer
dict_data_filter buffer max_length (some program) =
    if ltb max_length (length (program buffer)) then err filter_overflow else ok (program buffer)

-- The first loop: is chunk `i` in the cache, and else which slot is the oldest.
unfoldable pub scan_slots : ℕ → List Slot → ℕ → ℕ → ℤ → Bool × ℕ
scan_slots i [] j target last_stamp = (false, target)
scan_slots i (s ∷ rest) j target last_stamp =
    let older = ltb_ℤ s.stamp last_stamp in
    let later =
      scan_slots i rest (j + 1) (if older then j else target)
        (if older then s.stamp else last_stamp) in
    if eqb_ℤ s.chunk (pos i) then (true, j) else later

-- `h->cache[target]`.
unfoldable pub slot_at : List Slot → ℕ → Slot
slot_at [] k = empty_slot
slot_at (s ∷ rest) zero = s
slot_at (s ∷ rest) (suc k) = slot_at rest k

-- `memcpy(pt, inBuffer + from, to - from)`, of bytes that the last decompression wrote.
unfoldable pub copy_range : Slot → ℕ → ℕ → Result Fault (List ℕ)
copy_range s from to =
    if leb from to && leb to s.count
    then ok (slice from (to - from) s.in_buffer)
    else err stale_bytes

-- `lastChunk`: an `int`, raised to `firstChunk`.
unfoldable pub last_chunk : ℕ → ℕ → ℕ → ℕ
last_chunk first stop chunk_length =
    elim (to_int ((stop + ulong_mod - 1) % ulong_mod / chunk_length)) [
      | negsuc _ ↦ first
      | pos n ↦ if ltb n first then first else n
    ]

module _ {Z : Type 0} (inflate : Z → List ℕ → ℕ → Inflated Z) (inflate_init : Z) (h : DictData)
    (pre_filter post_filter : Filter) where
  -- The compressed bytes of chunk `i`, copied to `outBuffer`.
  unfoldable pub compressed : ℕ → Result Fault (List ℕ)
  compressed i = elim (get_elem? h.chunks i) [
    | none ↦ err bad_chunk
    | some len ↦ elim (get_elem? h.offsets i) [
      | none ↦ err bad_chunk
      | some offset ↦
          if leb out_buffer_size len
          then err chunk_too_large
          else if leb (offset + len) (length h.mapped)
          then ok (slice offset len h.mapped)
          else err past_file
    ]
  ]

  -- The pre-filter is handed `count` before anything is stored there.
  unfoldable pub run_pre_filter : List ℕ → Result Fault (List ℕ)
  run_pre_filter bytes = elim pre_filter [ none ↦ ok bytes | some _ ↦ err uninitialized_count ]

  unfoldable pub check_inflated : Inflated Z → Result Fault (List ℕ × Z)
  check_inflated r =
      if r.z_ok
      then (if r.pending == 0 then ok (r.out, r.next) else err not_flushed)
      else err inflate_failed

  -- Chunk `i` from the file: copied, filtered, inflated, filtered again.
  unfoldable pub decompress : Z → ℕ → Result Fault (List ℕ × Z)
  unfolding compressed run_pre_filter check_inflated dict_data_filter
  decompress z i = do
    bytes ← compressed i
    bytes' ← run_pre_filter bytes
    (out, z') ← check_inflated (inflate z bytes' in_buffer_size)
    out' ← dict_data_filter out in_buffer_size post_filter
    ok (out', z')

  -- The slot with chunk `i`: a hit, or the oldest slot filled anew. Its stamp becomes the newest.
  unfoldable pub access_slot : State Z → ℕ → Result Fault (Slot × State Z)
  unfolding scan_slots slot_at
  access_slot st i =
      let (found, target) = scan_slots i st.slots 0 0 (pos int_max) in
      let stamp = st.stamp + 1 in
      let hit : Slot = record (slot_at st.slots target) { stamp = pos stamp } in
      if found then ok (hit, record st { slots = set st.slots target hit; stamp = stamp }) else (do
        (out, z) ← decompress st.stream i
        let fresh : Slot = record {
          chunk = pos i;
          in_buffer = out;
          stamp = pos stamp;
          count = length out;
        }
        ok (fresh, record st { slots = set st.slots target fresh; stamp = stamp; stream = z }))

  -- `++stamp` of the static int.
  unfoldable pub access : State Z → ℕ → Result Fault (Slot × State Z)
  access st i = if leb int_max st.stamp then err int_overflow else access_slot st i

  -- What one chunk contributes: its tail, its head, all of it, or a part of the only one.
  unfoldable pub piece : ℕ → ℕ → ℕ → ℤ → ℕ → Slot → Result Fault (List ℕ)
  unfolding copy_range
  piece first last first_offset last_offset i s =
      if i == first
      then (if i == last
          then elim last_offset [ negsuc _ ↦ err stale_bytes | pos n ↦ copy_range s first_offset n ]
          else (if s.count == h.chunk_length
              then copy_range s first_offset h.chunk_length
              else err bad_length))
      else (if i == last
          then elim last_offset [ negsuc _ ↦ err stale_bytes | pos n ↦ copy_range s 0 n ]
          else (if s.count == h.chunk_length
              then copy_range s 0 h.chunk_length
              else err bad_length))

  -- The loop over the chunks, `rounds` of them from `i` on; `out` is what `pt` has passed.
  unfoldable pub read_chunks :
      ℕ → ℕ → ℕ → ℕ → ℤ → ℕ → State Z → List ℕ → Result Fault (List ℕ × State Z)
  read_chunks zero first last first_offset last_offset i st out = ok (out, st)
  read_chunks (suc rounds) first last first_offset last_offset i st out = do
    (s, st') ← access st i
    bytes ← piece first last first_offset last_offset i s
    read_chunks rounds first last first_offset last_offset (i + 1) st' (out ++ bytes)

  -- The first read sets the stream up.
  unfoldable pub initialize : State Z → State Z
  initialize st =
      if st.initialized then st else record st { initialized = true; stream = inflate_init }

  -- The loop set up for the chunks from `first` to the last that the range meets.
  unfoldable pub read_range : State Z → ℕ → ℕ → ℕ → Result Fault (List ℕ × State Z)
  read_range st start stop first =
      let last = last_chunk first stop h.chunk_length in
      if ltb int_max (last * h.chunk_length)
      then err int_overflow
      else read_chunks (suc (last - first)) first last (start - first * h.chunk_length)
          (to_int ((stop + ulong_mod - last * h.chunk_length) % ulong_mod)) first (initialize st) []

  -- The branch for dzip files.
  unfoldable pub read_dzip : State Z → ℕ → ℕ → Result Fault (List ℕ × State Z)
  read_dzip st start size =
      if h.chunk_length == 0 then err division_by_zero else elim (to_int (start / h.chunk_length)) [
        | negsuc _ ↦ err bad_chunk
        | pos first ↦ read_range st start ((start + size) % ulong_mod) first
      ]

  unfoldable pub dict_data_read : State Z → ℕ → ℕ → Result Fault (List ℕ × State Z)
  dict_data_read st start size = elim h.file_type [
    | unknown ↦ err unknown_type
    | gzip ↦ err pure_gzip
    | text ↦
        if leb (start + size) (length h.mapped)
        then ok (slice start size h.mapped, st)
        else err past_file
    | dzip ↦ read_dzip st start size
  ]
