-- ===== src/Heap/Blocks.antt =====
-- libcommon/heap.c: the blocks in use do not overlap, and are counted.
use dictd.Prelude.{
  ℕ, suc, ◌+◌, ◌-◌, ◌≤◌, ◌<◌, ◌≡◌, refl, List, [], ◌∷◌, some, Bool, true, false, ◌||◌, arith, ltb,
  leb, ◌==◌, if◌then◌else◌, length, Bool-cases, inl, inr, ap, ◌∙◌, ==_iff, ==_refl,
}
use dictd.Prelude.Int.{pos, eqb_ℤ, eqb_ℤ→eq}
use dictd.Prelude.Words.{ulong_mod}
use dictd.Prelude.Result.{Result, ok, err}
use dictd.Heap.Alloc.{
  heap_array_size, heap_limit, HeapFault, not_last, sum_overflow, copy_overflow, Pointer, inside,
  outside, Heap, add_one, sub_one, heap_alloc, heap_free, is_last, move_out, grow, realloc_inside,
  heap_realloc,
}

-- The blocks in use, the newest first: each has a byte or more, begins where the older ones have
-- ended, and ends within the bytes allocated.
abbrev pub Fits : ℕ → List (ℕ × ℕ) → Type 0
Fits bytes [] = Unit
Fits bytes ((o, n) ∷ l) = (0 < n) × ((o + n ≤ bytes) × Fits o l)

-- A heap with these blocks in use.
pub record Valid (h : Heap) (l : List (ℕ × ℕ)) : Type 0 where
  pub fits : Fits h.allocated_bytes l
  pub room : h.allocated_bytes ≤ heap_array_size
  pub count : h.allocation_count ≡ pos (length l)

-- What an allocation leaves: a new block above those in use, or a block of malloc.
abbrev pub Allocated : Heap → List (ℕ × ℕ) → ℕ → Pointer × Heap → Type 0
Allocated h l size (inside o, h') = Valid h' ((o, size) ∷ l)
Allocated h l size (outside name, h') = h' ≡ h

-- heap_alloc of a byte or more in a valid heap gives either a block of malloc, with the heap
-- unchanged, or a block in the arena that overlaps no block in use, in a heap that is valid again.
pub heap_alloc-Allocated :
    (h : Heap) (l : List (ℕ × ℕ)) (size fresh : ℕ)
    → Valid h l
    → 0 < size
    → Allocated h l size (heap_alloc h size fresh)
unfolding heap_alloc add_one
heap_alloc-Allocated h l size fresh v p =
    elim (Bool-cases (leb heap_limit size || ltb heap_array_size (h.allocated_bytes + size))) [
      | inl e ↦ rw e refl
      | inr e ↦ rw e (record {
        fits = (p, (omega arith, v.fits));
        room = ground (arith, e);
        count = ap add_one v.count;
      })
    ]

-- The blocks without the one at an offset.
abbrev pub remove : ℕ → List (ℕ × ℕ) → List (ℕ × ℕ)
remove k [] = []
remove k ((o, n) ∷ l) = if o == k then l else (o, n) ∷ remove k l

-- Is there a block at this offset?
abbrev pub in_use : ℕ → List (ℕ × ℕ) → Bool
in_use k [] = false
in_use k ((o, n) ∷ l) = o == k || in_use k l

Fits-raise : (a b : ℕ) (l : List (ℕ × ℕ)) → a ≤ b → Fits a l → Fits b l
Fits-raise a b [] h f = tt
Fits-raise a b ((o, n) ∷ l) h (p, (q, f)) = (p, (omega arith, f))

Fits-remove : (b k : ℕ) (l : List (ℕ × ℕ)) → Fits b l → Fits b (remove k l)
Fits-remove b k [] f = tt
Fits-remove b k ((o, n) ∷ l) (p, (q, f)) = elim (Bool-cases (o == k)) [
  | inl e ↦ rw e (Fits-raise o b l (omega arith) f)
  | inr e ↦ rw e (p, (q, Fits-remove o k l f))
]

length-remove :
    (k : ℕ) (l : List (ℕ × ℕ)) → in_use k l ≡ true → length l ≡ suc (length (remove k l))
length-remove k [] h = ground (arith, h)
length-remove k ((o, n) ∷ l) h = ground (arith, h, length-remove k l)

in_use-lt : (b k : ℕ) (l : List (ℕ × ℕ)) → Fits b l → in_use k l ≡ true → k < b
in_use-lt b k [] f h = ground (arith, h)
in_use-lt b k ((o, n) ∷ l) (p, (q, f)) h = elim (Bool-cases (o == k)) [
  | inl e ↦ omega (arith, (==_iff o k).0 e)
  | inr e ↦ omega (arith, in_use-lt o k l f (ground (arith, e, h)))
]

nothing-Fits : (l : List (ℕ × ℕ)) (b : ℕ) → length l ≡ 0 → Fits b l → Fits 0 l
nothing-Fits [] b h f = tt
nothing-Fits (x ∷ l) b h f = absurd (omega arith)

-- heap_free of a block in use of a valid heap leaves a heap that is valid for the other blocks.
pub heap_free-Valid :
    (h : Heap) (l : List (ℕ × ℕ)) (o : ℕ)
    → Valid h l
    → in_use o l ≡ true
    → Valid (heap_free h (some (inside o))) (remove o l)
unfolding heap_free sub_one
heap_free-Valid h l o v u =
    let below : ltb o heap_array_size ≡ true =
      ground (arith, in_use-lt h.allocated_bytes o l v.fits u, v.room) in
    let counted : sub_one h.allocation_count ≡ pos (length (remove o l)) =
      ap sub_one v.count ∙ ap (λ k. sub_one (pos k)) (length-remove o l u) in
    let f = Fits-remove h.allocated_bytes o l v.fits in
    rw below (
      rw counted (elim (Bool-cases (eqb_ℤ (pos (length (remove o l))) (pos 0))) [
        | inl e ↦ rw e (record {
          fits = nothing-Fits (remove o l) h.allocated_bytes (ground (arith, eqb_ℤ→eq _ _ e)) f;
          room = omega arith;
          count = refl;
        })
        | inr e ↦ rw e (record { fits = f; room = v.room; count = refl })
      ]))

is_last_lem : (h : Heap) (o : ℕ) → h.last ≡ some o → is_last h.last o ≡ true
unfolding is_last
is_last_lem h o e = ap (λ m. is_last m o) e ∙ ==_refl o

-- What a new size leaves: the block at its place, or moved out of the arena and still counted; or
-- the copy to its new place has overflowed. The last block begins at `o` and was the newest.
abbrev pub Resized : Heap → List (ℕ × ℕ) → ℕ → ℕ → Result HeapFault (Pointer × Heap) → Type 0
Resized h l o size (ok (inside k, h')) =
    (h.allocated_bytes + size ≤ heap_array_size) × (k ≡ o) × Valid h' ((o, size) ∷ l)
Resized h l o size (ok (outside name, h')) =
    (heap_array_size < h.allocated_bytes + size)
    × (h.allocated_bytes ≤ o + size)
    × Fits h'.allocated_bytes l
    × (h'.allocation_count ≡ pos (suc (length l)))
Resized h l o size (err copy_overflow) =
    (heap_array_size < h.allocated_bytes + size) × (o + size < h.allocated_bytes)
Resized h l o size (err sum_overflow) = ulong_mod ≤ h.allocated_bytes + size
Resized h l o size (err not_last) = ⊥

move_out-Resized :
    (h : Heap) (l : List (ℕ × ℕ)) (o n size fresh : ℕ)
    → Valid h ((o, n) ∷ l)
    → heap_array_size < h.allocated_bytes + size
    → Resized h l o size (move_out h o size fresh)
unfolding move_out
move_out-Resized h l o n size fresh v x =
    let (q, (r, f)) = v.fits in
    elim (Bool-cases (ltb size (h.allocated_bytes - o))) [
      | inl y ↦ rw y (x, ground (arith, y, r))
      | inr y ↦ rw y (x, ground (arith, y, r), f, v.count)
    ]

grow-Resized :
    (h : Heap) (l : List (ℕ × ℕ)) (o n size fresh : ℕ)
    → Valid h ((o, n) ∷ l)
    → 0 < size
    → Resized h l o size (grow h o size fresh)
unfolding grow
grow-Resized h l o n size fresh v p =
    let (q, (r, f)) = v.fits in
    elim (Bool-cases (ltb heap_array_size (h.allocated_bytes + size))) [
      | inl x ↦ rw x (move_out-Resized h l o n size fresh v (ground (arith, x)))
      | inr x ↦
          let room : h.allocated_bytes + size ≤ heap_array_size = ground (arith, x) in
          rw x (
            room,
            refl,
            record { fits = (p, (omega arith, f)); room = omega (arith, r); count = v.count },
          )
    ]

-- heap_realloc of the newest block in use, to a size of a byte or more, has one of four outcomes.
-- If the bytes allocated and the new size fit the arena together, the block stays, and the heap is
-- valid for it in its new size. If not, and if the new block has room for what is copied, the block
-- moves out of the arena and the other blocks are as before, but it is still counted. If the new
-- block is shorter than that, memcpy writes behind its end. The last outcome is a sum that a size_t
-- does not hold.
pub heap_realloc-Resized :
    (h : Heap) (l : List (ℕ × ℕ)) (o n size fresh : ℕ)
    → Valid h ((o, n) ∷ l)
    → h.last ≡ some o
    → 0 < size
    → Resized h l o size (heap_realloc h (some (inside o)) size fresh)
unfolding heap_realloc realloc_inside
heap_realloc-Resized h l o n size fresh v e p =
    let (q, (r, f)) = v.fits in
    let below : ltb o heap_array_size ≡ true = ground (arith, q, r, v.room) in
    rw below (
      rw (is_last_lem h o e) (elim (Bool-cases (leb ulong_mod (h.allocated_bytes + size))) [
        | inl x ↦ rw x (ground (arith, x))
        | inr x ↦ rw x (grow-Resized h l o n size fresh v p)
      ]))
