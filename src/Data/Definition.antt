-- ===== src/Data/Definition.antt =====
-- libdictd/data.c: `dict_data_read_` on a dzip file returns the part of the text that is asked for.
use dictd.Prelude.{
  ℕ, suc, ◌+◌, ◌-◌, ◌*◌, ◌/◌, ◌%◌, ◌≤◌, ◌<◌, ◌≡◌, refl, ◌⊎◌, inl, inr, List, [], none, false, arith,
  ltb, ltb→lt, le→ltb, ◌==◌, if◌then◌else◌, length, Bool-cases, ap, ◌∙◌,
}
use dictd.Prelude.Slices.{slice}
use dictd.Prelude.Int.{pos}
use dictd.Prelude.Words.{int_max, ulong_mod, to_int, to_int_small}
use dictd.Prelude.Result.{Result, err, Returns}
use dictd.Data.Types.{Fault, int_overflow, DictData, State, Inflated, Filter, dzip}
use dictd.Data.Read.{last_chunk, read_chunks, initialize, read_range, read_dzip, dict_data_read}
use dictd.Data.Cache.{IsDzip, IsCache}
use dictd.Data.Extract.{read_chunks-slice, at}

div_bounds : (n d : ℕ) → 0 < d → (n / d * d ≤ n) × (n < n / d * d + d)
div_bounds n d h = grind arith

div_step : (q f d : ℕ) → q < f → q * d + d ≤ f * d
div_step q f d h = grind arith

lt_of_mul : (a b d : ℕ) → a * d < b * d → a < b
lt_of_mul a b d h = grind arith

-- In range the conversions of `lastChunk` change nothing.
last_chunk_lem :
    (first stop d : ℕ)
    → 0 < d
    → 0 < stop
    → stop < 0x8000_0000
    → last_chunk first stop d ≡ (if ltb ((stop - 1) / d) first then first else (stop - 1) / d)
unfolding last_chunk
last_chunk_lem first stop d hd hs small =
    let exact : (stop + ulong_mod - 1) % ulong_mod ≡ stop - 1 = omega arith in
    let tame : to_int ((stop - 1) / d) ≡ pos ((stop - 1) / d) =
      to_int_small ((stop - 1) / d) (omega (arith, div_bounds (stop - 1) d hd)) in
    rw (exact, tame, last_chunk) refl

-- Where the last byte lies.
record LastChunk (start size d last : ℕ) : Type 0 where
  ordered : start / d ≤ last
  low : last * d ≤ start + size
  high : start + size ≤ last * d + d
  used : (last * d ≤ start) ⊎ (last * d < start + size)

last_chunk-LastChunk :
    (start size d : ℕ)
    → 0 < d
    → 0 < start + size
    → start + size < 0x8000_0000
    → LastChunk start size d (last_chunk (start / d) (start + size) d)
last_chunk-LastChunk start size d hd hs small =
    rw (last_chunk_lem (start / d) (start + size) d hd hs small)
      (elim (Bool-cases (ltb ((start + size - 1) / d) (start / d))) [
        | inl b ↦ rw b (
            let below = ltb→lt ((start + size - 1) / d) (start / d) b in
            let step = div_step ((start + size - 1) / d) (start / d) d below in
            record {
              ordered = omega arith;
              low = omega (arith, div_bounds start d hd);
              high = omega (arith, step, div_bounds (start + size - 1) d hd);
              used = inl (omega (arith, div_bounds start d hd));
            })
        | inr a ↦ rw a (record {
          ordered = ground arith;
          low = omega (arith, div_bounds (start + size - 1) d hd);
          high = omega (arith, div_bounds (start + size - 1) d hd);
          used = inr (omega (arith, div_bounds (start + size - 1) d hd));
        })
      ])

dict_data_read_dzip :
    {Z : Type 0} (inflate : Z → List ℕ → ℕ → Inflated Z) (init : Z) (h : DictData)
    (pre post : Filter) (st : State Z) (start size : ℕ)
    → h.file_type ≡ dzip
    → dict_data_read inflate init h pre post st start size
      ≡ read_dzip inflate init h pre post st start size
unfolding dict_data_read
dict_data_read_dzip inflate init h pre post st start size e = ground (arith, e)

last_chunk_wraps : last_chunk 0 0 58315 ≡ 679873842
unfolding last_chunk to_int
last_chunk_wraps = refl

read_range_empty :
    {Z : Type 0} (inflate : Z → List ℕ → ℕ → Inflated Z) (init : Z) (h : DictData)
    (pre post : Filter) (st : State Z)
    → h.chunk_length ≡ 58315
    → read_range inflate init h pre post st 0 0 0 ≡ err int_overflow
unfolding read_range
read_range_empty inflate init h pre post st l = simp (l, last_chunk_wraps)

module _ {Z : Type 0} (inflate : Z → List ℕ → ℕ → Inflated Z) (init : Z) (h : DictData)
    (text : List ℕ) (d : IsDzip inflate h text) where
  initialize-IsCache :
      (st : State Z)
      → IsCache inflate h text st
      → IsCache inflate h text (initialize inflate init h none none st)
  unfolding initialize
  initialize-IsCache st c = ground arith

  initialize-stamp : (st : State Z) → (initialize inflate init h none none st).stamp ≡ st.stamp
  unfolding initialize
  initialize-stamp st = ground arith

  module _ (st : State Z) (start size : ℕ) (c : IsCache inflate h text st)
      (begins : start < length text) (inside : start + size ≤ length text)
      (some_byte : 0 < start + size) (small : length text < 0x8000_0000)
      (stamps : st.stamp + length h.chunks ≤ int_max) where
    abbrev L : ℕ
    L = h.chunk_length

    abbrev first : ℕ
    first = start / h.chunk_length

    Extracts : Result Fault (List ℕ × State Z) → Type 0
    Extracts r = Returns r (λ r. (r.0 ≡ slice start size text) × IsCache inflate h text r.1)

    module _ (last : ℕ) (w : LastChunk start size h.chunk_length last) where
      abbrev fo : ℕ
      fo = start - first * L

      abbrev lo : ℕ
      lo = start + size - last * L

      last-lt-chunks : last < length h.chunks
      last-lt-chunks = elim w.used [
        | inl a ↦ lt_of_mul last (length h.chunks) L (omega (arith, d.covers))
        | inr b ↦ lt_of_mul last (length h.chunks) L (omega (arith, d.covers))
      ]

      at-first : at inflate init h text first last fo lo first ≡ start
      at-first = ground (arith, div_bounds start L d.positive, w.ordered)

      read_chunks_lem : Extracts (
          read_chunks inflate init h none none
            (suc (last - first))
            first
            last
            fo
            (pos lo)
            first
            (initialize inflate init h none none st)
            [])
      unfolding Extracts
      read_chunks_lem =
          let b = div_bounds start L d.positive in
          read_chunks-slice inflate init h text first last fo lo w.ordered (omega (arith, w.low, b))
            (omega (arith, b)) (omega (arith, w.high)) (omega (arith, w.low)) last-lt-chunks d
            (suc (last - first)) first (initialize inflate init h none none st) []
            (slice start size text) (omega (arith, w.ordered)) (omega arith)
            (initialize-IsCache st c)
            (omega (arith, initialize-stamp st, last-lt-chunks, w.ordered))
            (ap (λ (k : ℕ). slice k (last * L + lo - k) text) at-first
              ∙ ap (λ (n : ℕ). slice start n text) (omega (arith, w.low)))

    read_range-slice : Extracts (read_range inflate init h none none st start (start + size) first)
    unfolding Extracts read_range
    read_range-slice =
        let last = last_chunk first (start + size) L in
        let w = last_chunk-LastChunk start size L d.positive some_byte (omega arith) in
        let tame : ltb int_max (last * L) ≡ false =
          le→ltb int_max (last * L) (omega (arith, w.low)) in
        let lo_lem : to_int ((start + size + ulong_mod - last * L) % ulong_mod)
            ≡ pos (start + size - last * L) =
          rw (mod_lem last w.low) (to_int_small _ (omega arith)) in
        rw (tame, lo_lem) (read_chunks_lem last w)
      where
        mod_lem :
            (last : ℕ)
            → last * L ≤ start + size
            → (start + size + ulong_mod - last * L) % ulong_mod ≡ start + size - last * L
        mod_lem last low = omega arith

    -- Reading a definition of a dzip file gives exactly the asked bytes of the text, whatever the
    -- cache holds of it, and leaves a cache that is good for the next read. The range lies in the
    -- text, begins before its end, and does not both begin at 0 and have no byte; the text is
    -- shorter than 2^31, and the stamp has room for an access of each chunk.
    pub read_dzip-slice :
        Returns
          (read_dzip inflate init h none none st start size)
          (λ r. (r.0 ≡ slice start size text) × IsCache inflate h text r.1)
    unfolding read_dzip Extracts
    read_dzip-slice =
        let stop_lem : (start + size) % ulong_mod ≡ start + size = omega arith in
        let first_lem : to_int first ≡ pos first =
          to_int_small first (omega (arith, div_bounds start L d.positive)) in
        let some_chunk : (L == 0) ≡ false = ground (arith, d.positive) in
        rw (some_chunk, first_lem, read_dzip) (rw stop_lem read_range-slice)

    -- Reading from a dzip file: every range of the text that begins before its end and does not both
    -- begin at 0 and have no byte is returned byte for byte, whatever mix of chunks the cache
    -- holds, and the cache left behind serves the next read as well. The text is shorter than 2^31,
    -- each chunk inflates to its part of the text, no filter is set, and the stamp and the number of
    -- the chunks do not exceed the largest int together.
    pub dict_data_read-slice :
        h.file_type ≡ dzip
        → Returns
            (dict_data_read inflate init h none none st start size)
            (λ r. (r.0 ≡ slice start size text) × IsCache inflate h text r.1)
    dict_data_read-slice e =
        rw (dict_data_read_dzip inflate init h none none st start size e) read_dzip-slice

-- A definition with no byte at offset 0 of a dzip file with dictzip's chunk length, whatever the
-- filters and the cache: `end - 1` wraps around, `lastChunk` is 679873842, and the products with it
-- overflow an `int`.
pub dict_data_read_empty :
    {Z : Type 0} (inflate : Z → List ℕ → ℕ → Inflated Z) (init : Z) (h : DictData)
    (pre post : Filter) (st : State Z)
    → h.file_type ≡ dzip
    → h.chunk_length ≡ 58315
    → dict_data_read inflate init h pre post st 0 0 ≡ err int_overflow
unfolding read_dzip to_int
dict_data_read_empty inflate init h pre post st t l =
    dict_data_read_dzip inflate init h pre post st 0 0 t
    ∙ simp (l, read_range_empty inflate init h pre post st l)
