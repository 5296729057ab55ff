-- ===== src/Data/Extract.antt =====
-- libdictd/data.c: `dict_data_read_` on a dzip file extracts a part of the text.
use dictd.Prelude.{
  ℕ, zero, suc, ◌+◌, ◌-◌, ◌*◌, ◌≤◌, ◌<◌, ◌≡◌, List, ◌++◌, none, arith, ltb, ◌==◌, if◌then◌else◌,
  length, ap, ◌∙◌, append_assoc, append-nil, sym,
}
use dictd.Prelude.Slices.{slice, length-slice, slice-slice, slice-append}
use dictd.Prelude.Int.{pos}
use dictd.Prelude.Words.{int_max}
use dictd.Prelude.Result.{ok, Returns, Returns-bind}
use dictd.Data.Types.{Slot, DictData, State, Inflated}
use dictd.Data.Read.{copy_range, access, piece, read_chunks}
use dictd.Data.Cache.{IsDzip, IsCache, Accessed, access-Accessed}

module _ {Z : Type 0} (inflate : Z → List ℕ → ℕ → Inflated Z) (init : Z) (h : DictData)
    (text : List ℕ) where
  abbrev pub L : ℕ
  L = h.chunk_length

  mul_step : (i last : ℕ) → i < last → i * L + L ≤ last * L
  mul_step i last lt = grind arith

  -- A copy out of the slot of chunk `i` is a part of the text.
  copy_range_lem :
      (stamp i a b : ℕ) (r : Slot × State Z)
      → Accessed inflate h text stamp i r
      → a ≤ b
      → b ≤ L
      → i * L + b ≤ length text
      → copy_range r.0 a b ≡ ok (slice (i * L + a) (b - a) text)
  unfolding copy_range
  copy_range_lem stamp i a b r acc ab bl inside = ground (
    arith,
    acc.count_of,
    length-slice (i * L) L text,
    slice-slice (i * L) L a (b - a) text,
    ap (slice a (b - a)) acc.text_of,
  )

  -- A chunk that ends inside of the text is full.
  count_full :
      (stamp i : ℕ) (r : Slot × State Z)
      → Accessed inflate h text stamp i r
      → i * L + L ≤ length text
      → r.0.count ≡ L
  count_full stamp i r acc inside = omega (arith, acc.count_of, length-slice (i * L) L text)

  module _ (first last fo lo : ℕ) where
    abbrev pub start_of : ℕ → ℕ
    start_of i = if i == first then fo else 0

    abbrev pub stop_of : ℕ → ℕ
    stop_of i = if i == last then lo else L

    -- The place in the text that chunk `i` starts to contribute from; after the last, the end.
    abbrev pub at : ℕ → ℕ
    at i = if ltb last i then last * L + lo else i * L + start_of i

    module _ (ordered : first ≤ last) (tail : first * L + fo ≤ last * L + lo) (fo_small : fo ≤ L)
        (lo_small : lo ≤ L) (inside : last * L + lo ≤ length text)
        (exists : last < length h.chunks) where
      piece_lem :
          (stamp i : ℕ) (r : Slot × State Z)
          → Accessed inflate h text stamp i r
          → first ≤ i
          → i ≤ last
          → piece inflate init h none none first last fo (pos lo) i r.0
            ≡ ok (slice (i * L + start_of i) (stop_of i - start_of i) text)
      unfolding piece
      piece_lem stamp i r acc low high = ground (
        arith,
        copy_range_lem stamp i (start_of i) (stop_of i) r acc,
        count_full stamp i r acc,
        mul_step i last,
      )

      at_step :
          (i : ℕ)
          → first ≤ i
          → i ≤ last
          → at (i + 1) ≡ i * L + start_of i + (stop_of i - start_of i)
      at_step i low high = ground (arith, mul_step i last)

      at-le : (i : ℕ) → first ≤ i → at i ≤ last * L + lo
      at-le i low = ground (arith, mul_step i last)

      -- One more piece extends what was copied.
      out_step :
          (i : ℕ) (out : List ℕ)
          → first ≤ i
          → i ≤ last
          → (out ++ slice (i * L + start_of i) (stop_of i - start_of i) text)
              ++ slice (at (i + 1)) (last * L + lo - at (i + 1)) text
            ≡ out ++ slice (at i) (last * L + lo - at i) text
      out_step i out low high =
          let a = i * L + start_of i in
          let n = stop_of i - start_of i in
          let m = last * L + lo - at (i + 1) in
          let here : at i ≡ a = ground arith in
          let total : n + m ≡ last * L + lo - at i =
            omega (arith, at_step i low high, at-le (i + 1), here) in
          let joined : slice a n text ++ slice (at (i + 1)) m text
              ≡ slice (at i) (last * L + lo - at i) text =
            ap (λ (k : ℕ). slice a n text ++ slice k m text) (at_step i low high)
            ∙ slice-append a n m text
            ∙ cc (here, total) in
          append_assoc out (slice a n text) (slice (at (i + 1)) m text) ∙ ap (λ l. out ++ l) joined

      pub read_chunks-slice :
          (d : IsDzip inflate h text) (rounds i : ℕ) (st : State Z) (out res : List ℕ)
          → i + rounds ≡ last + 1
          → first ≤ i
          → IsCache inflate h text st
          → st.stamp + rounds ≤ int_max
          → out ++ slice (at i) (last * L + lo - at i) text ≡ res
          → Returns
              (read_chunks inflate init h none none rounds first last fo (pos lo) i st out)
              (λ r. (r.0 ≡ res) × IsCache inflate h text r.1)
      unfolding read_chunks
      read_chunks-slice d zero i st out res e low c room done =
          let left : last * L + lo - at i ≡ 0 = ground arith in
          (sym (append-nil out) ∙ rw left at done, c)
      read_chunks-slice d (suc rounds) i st out res e low c room done =
          Returns-bind (access inflate init h none none st i) _ (Accessed inflate h text st.stamp i)
            _ (access-Accessed inflate h text init d st i c (omega arith) (omega arith))
            λ r acc. rw (piece_lem st.stamp i r acc low (omega arith)) (
              read_chunks-slice d rounds (i + 1) r.1 _ res (omega arith) (omega arith) acc.cache
                (omega (arith, acc.stamp_of)) (out_step i out low (omega arith) ∙ done))
