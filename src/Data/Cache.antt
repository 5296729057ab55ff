-- ===== src/Data/Cache.antt =====
-- libdictd/data.c: what the cache of `dict_data_read_` holds, and that every access keeps it.
use dictd.Prelude.{
  ℕ, leb, zero, suc, ◌+◌, ◌*◌, ◌≤◌, ◌<◌, ◌≡◌, refl, inl, inr, List, [], ◌∷◌, none, some, true,
  false, arith, length, get_elem?, set, All, Bool-cases, ap, ◌∙◌,
}
use dictd.Prelude.Slices.{slice}
use dictd.Prelude.Int.{ℤ, pos, eqb_ℤ, eqb_ℤ→eq}
use dictd.Prelude.Words.{int_max}
use dictd.Prelude.Result.{Returns, Returns-bind}
use dictd.Data.Types.{
  Slot, DictData, State, Inflated, out_buffer_size, in_buffer_size, empty_slot, empty_slots,
}
use mathlib.Core.Bool.{false≢true}
use dictd.Data.Read.{slot_at, scan_slots, decompress, access_slot, access}

-- What `inflate` promises of a chunk that dictzip wrote: from any state of the stream (dictzip ends
-- each chunk with a full flush) it yields the chunk's text and uses all of its input.
pub record Inflates {Z : Type 0} (inflate : Z → List ℕ → ℕ → Inflated Z) (bytes text : List ℕ)
    : Type 0 where
  pub z_ok : (z : Z) → (inflate z bytes in_buffer_size).z_ok ≡ true
  pub pending : (z : Z) → (inflate z bytes in_buffer_size).pending ≡ 0
  pub out : (z : Z) → (inflate z bytes in_buffer_size).out ≡ text

-- A chunk of the table that lies in the file and fits the buffer.
pub record HasChunk (h : DictData) (k len offset : ℕ) : Type 0 where
  pub chunk : get_elem? h.chunks k ≡ some len
  pub offset_at : get_elem? h.offsets k ≡ some offset
  pub fits : len < out_buffer_size
  pub inside : offset + len ≤ length h.mapped

module _ {Z : Type 0} (inflate : Z → List ℕ → ℕ → Inflated Z) (h : DictData) (text : List ℕ) where
  -- The text of chunk `k`.
  abbrev pub plain : ℕ → List ℕ
  plain k = slice (k * h.chunk_length) h.chunk_length text

  -- A dzip file of `text`: chunk `k` lies in the file and inflates to its part of the text.
  pub record IsDzip : Type 0 where
    pub positive : 0 < h.chunk_length
    pub covers : length text ≤ length h.chunks * h.chunk_length
    pub len : ℕ → ℕ
    pub offset : ℕ → ℕ
    pub has_chunk : (k : ℕ) → k < length h.chunks → HasChunk h k (len k) (offset k)
    pub inflates :
        (k : ℕ)
        → k < length h.chunks
        → Inflates inflate (slice (offset k) (len k) h.mapped) (plain k)

  -- A slot is unused or holds the text of its chunk.
  pub record IsFresh (s : Slot) : Type 0 where
    pub holds : (k : ℕ) → s.chunk ≡ pos k → s.in_buffer ≡ plain k
    pub counted : (k : ℕ) → s.chunk ≡ pos k → s.count ≡ length s.in_buffer

  abbrev pub IsCache : State Z → Type 0
  IsCache st = All IsFresh st.slots

  All-set :
      (xs : List Slot) (i : ℕ) (v : Slot) → All IsFresh xs → IsFresh v → All IsFresh (set xs i v)
  All-set [] i v h hv = h
  All-set (x ∷ xs) zero v h hv = (hv, h.1)
  All-set (x ∷ xs) (suc i) v h hv = (h.0, All-set xs i v h.1 hv)

  empty_slot-IsFresh : IsFresh empty_slot
  empty_slot-IsFresh = record { holds = λ k e. cc; counted = λ k e. cc }

  slot_at-IsFresh : (xs : List Slot) (k : ℕ) → All IsFresh xs → IsFresh (slot_at xs k)
  unfolding slot_at
  slot_at-IsFresh [] k h = empty_slot-IsFresh
  slot_at-IsFresh (s ∷ rest) zero h = h.0
  slot_at-IsFresh (s ∷ rest) (suc k) h = slot_at-IsFresh rest k h.1

  pos-injective : {n m : ℕ} → pos n ≡ pos m → n ≡ m
  pos-injective e = cc

  -- The cache that a newly opened file has.
  pub empty_slots-IsFresh : All IsFresh empty_slots
  empty_slots-IsFresh = let f = empty_slot-IsFresh in (f, (f, (f, (f, (f, tt)))))

  -- A hit names a slot with that chunk; the scan counts its slots from `j`.
  scan_slots-hit :
      (i : ℕ) (xs : List Slot) (j target : ℕ) (last : ℤ)
      → (scan_slots i xs j target last).0 ≡ true
      → (k : ℕ) × ((scan_slots i xs j target last).1 ≡ j + k) × ((slot_at xs k).chunk ≡ pos i)
  unfolding scan_slots slot_at
  scan_slots-hit i [] j target last e = absurd (false≢true e)
  scan_slots-hit i (s ∷ rest) j target last e = elim (Bool-cases (eqb_ℤ s.chunk (pos i))) [
    | inl here ↦ (0, rw here (omega arith), eqb_ℤ→eq s.chunk (pos i) here)
    | inr next ↦
        let (k, at, chunk) = scan_slots-hit i rest (j + 1) _ _ (rw next at e) in
        (suc k, rw next (omega (arith, at)), chunk)
  ]

  -- Decompressing a chunk of a dzip file, with no filters, gives its part of the text.
  pub decompress-IsDzip :
      (init : Z)
      → IsDzip
      → (k : ℕ) (z : Z) → k < length h.chunks
      → Returns (decompress inflate init h none none z k) (λ r. r.0 ≡ plain k)
  unfolding decompress
  decompress-IsDzip init d k z hk =
      let c = d.has_chunk k hk in
      let f = d.inflates k hk in
      ground (arith, c.chunk, c.offset_at, c.fits, c.inside, f.z_ok z, f.pending z, f.out z)

  -- What an access promises: the slot holds chunk `i`, the cache is good again, and the stamp one
  -- higher.
  pub record Accessed (stamp i : ℕ) (r : Slot × State Z) : Type 0 where
    pub text_of : r.0.in_buffer ≡ plain i
    pub count_of : r.0.count ≡ length (plain i)
    pub cache : IsCache r.1
    pub stamp_of : r.1.stamp ≡ stamp + 1

  access_slot-Accessed :
      (init : Z)
      → IsDzip
      → (st : State Z) (i : ℕ) → IsCache st
      → i < length h.chunks
      → Returns (access_slot inflate init h none none st i) (Accessed st.stamp i)
  unfolding access_slot
  access_slot-Accessed init d st i fresh hi =
      elim (Bool-cases (scan_slots i st.slots 0 0 (pos int_max)).0) [
        | inl hit ↦
            let (k, at, chunk) = scan_slots-hit i st.slots 0 0 (pos int_max) hit in
            let e : (scan_slots i st.slots 0 0 (pos int_max)).1 ≡ k = omega (arith, at) in
            let old = slot_at-IsFresh st.slots k fresh in
            rw (hit, e)
              (record {
                text_of = old.holds i chunk;
                count_of = cc (old.holds i chunk, old.counted i chunk);
                cache =
                    All-set st.slots k _ fresh
                      (record { holds = old.holds; counted = old.counted });
                stamp_of = refl;
              })
        | inr miss ↦ rw miss (
            Returns-bind (decompress inflate init h none none st.stream i) _ (λ r. r.0 ≡ plain i)
              (Accessed st.stamp i) (decompress-IsDzip init d i st.stream hi)
              (λ r e. record {
                text_of = e;
                count_of = cc e;
                cache = All-set st.slots _ _ fresh (record {
                  holds = λ k same. e ∙ ap plain (pos-injective same);
                  counted = λ k same. refl;
                });
                stamp_of = refl;
              }))
      ]

  -- An access of a chunk of the file succeeds, whether it hits the cache or not, as long as the
  -- stamp can be counted up.
  pub access-Accessed :
      (init : Z)
      → IsDzip
      → (st : State Z) (i : ℕ) → IsCache st
      → st.stamp < int_max
      → i < length h.chunks
      → Returns (access inflate init h none none st i) (Accessed st.stamp i)
  unfolding access
  access-Accessed init d st i fresh room hi =
      let e : leb int_max st.stamp ≡ false = ground (arith, room) in
      rw e (access_slot-Accessed init d st i fresh hi)
