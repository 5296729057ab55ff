-- ===== src/Heap/Alloc.antt =====
-- libcommon/heap.c: an arena from which small blocks are cut one after the other. A pointer is an
-- offset in the arena, or the name that malloc gave to a block of its own. The magic number and
-- the bytes in the blocks are left out; of memcpy it is kept whether the bytes fit.
use dictd.Prelude.{
  ℕ, zero, suc, ◌+◌, ◌-◌, Option, none, some, Bool, false, not, ◌||◌, ltb, leb, ◌==◌, if◌then◌else◌,
}
use dictd.Prelude.Int.{ℤ, pos, negsuc, eqb_ℤ}
use dictd.Prelude.Words.{ulong_mod}
use dictd.Prelude.Result.{Result, ok, err}

abbrev pub heap_array_size : ℕ
heap_array_size = 100000

abbrev pub heap_limit : ℕ
heap_limit = 500

pub data Pointer : Type 0 where
  inside : ℕ → Pointer
  outside : ℕ → Pointer

-- The failed assertion; a sum that a size_t does not hold; and a memcpy of more bytes than the
-- new block has.
pub data HeapFault : Type 0 where
  not_last sum_overflow copy_overflow : HeapFault

pub record Heap : Type 0 where
  pub last : Option ℕ
  pub allocated_bytes : ℕ
  pub allocation_count : ℤ

abbrev pub heap_create : Heap
heap_create = record { last = none; allocated_bytes = 0; allocation_count = pos 0 }

unfoldable pub add_one : ℤ → ℤ
add_one (pos n) = pos (suc n)
add_one (negsuc zero) = pos 0
add_one (negsuc (suc n)) = negsuc n

unfoldable pub sub_one : ℤ → ℤ
sub_one (pos zero) = negsuc 0
sub_one (pos (suc n)) = pos n
sub_one (negsuc n) = negsuc (suc n)

-- `fresh` is what malloc gives if it is called.
unfoldable pub heap_alloc : Heap → ℕ → ℕ → Pointer × Heap
unfolding add_one
heap_alloc h size fresh =
    if leb heap_limit size || ltb heap_array_size (h.allocated_bytes + size)
    then (outside fresh, h)
    else (
      inside h.allocated_bytes,
      record {
        last = some h.allocated_bytes;
        allocated_bytes = h.allocated_bytes + size;
        allocation_count = add_one h.allocation_count;
      },
    )

-- `none` is NULL. A block of malloc is freed there.
unfoldable pub heap_free : Heap → Option Pointer → Heap
unfolding sub_one
heap_free h none = h
heap_free h (some (outside name)) = h
heap_free h (some (inside o)) =
    let count = sub_one h.allocation_count in
    let freed : Heap = record {
      last = none;
      allocated_bytes = if eqb_ℤ count (pos 0) then 0 else h.allocated_bytes;
      allocation_count = count;
    } in
    if ltb o heap_array_size then freed else h

unfoldable pub is_last : Option ℕ → ℕ → Bool
is_last none o = false
is_last (some l) o = l == o

-- The block moves out of the arena: everything from `o` on is copied to the new block of `size`.
unfoldable pub move_out : Heap → ℕ → ℕ → ℕ → Result HeapFault (Pointer × Heap)
move_out h o size fresh =
    if ltb size (h.allocated_bytes - o)
    then err copy_overflow
    else ok (outside fresh, record h { last = none; allocated_bytes = o })

unfoldable pub grow : Heap → ℕ → ℕ → ℕ → Result HeapFault (Pointer × Heap)
unfolding move_out
grow h o size fresh =
    if ltb heap_array_size (h.allocated_bytes + size)
    then move_out h o size fresh
    else ok (inside o, record h { allocated_bytes = o + size })

-- The block at offset `o`, which must be the last one.
unfoldable pub realloc_inside : Heap → ℕ → ℕ → ℕ → Result HeapFault (Pointer × Heap)
unfolding is_last grow
realloc_inside h o size fresh =
    if not (is_last h.last o)
    then err not_last
    else if leb ulong_mod (h.allocated_bytes + size)
    then err sum_overflow
    else grow h o size fresh

unfoldable pub heap_realloc : Heap → Option Pointer → ℕ → ℕ → Result HeapFault (Pointer × Heap)
unfolding realloc_inside
heap_realloc h none size fresh = ok (heap_alloc h size fresh)
heap_realloc h (some (outside name)) size fresh = ok (outside fresh, h)
heap_realloc h (some (inside o)) size fresh =
    if ltb o heap_array_size then realloc_inside h o size fresh else ok (outside fresh, h)

unfoldable pub heap_isempty : Heap → Bool
heap_isempty h = eqb_ℤ h.allocation_count (pos 0)
