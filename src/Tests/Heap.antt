-- ===== src/Tests/Heap.antt =====
-- Tests of libcommon/heap.c on a heap with two blocks.
use dictd.Prelude.{ℕ, ◌≡◌, refl, List, [], ◌∷◌, some, arith}
use dictd.Prelude.Int.{pos}
use dictd.Prelude.Result.{err}
use dictd.Heap.Alloc.{
  inside, copy_overflow, Heap, heap_alloc, heap_free, is_last, move_out, grow, realloc_inside,
  heap_realloc,
}
use dictd.Heap.Blocks.{
  Valid, Allocated, Resized, remove, heap_alloc-Allocated, heap_free-Valid, heap_realloc-Resized,
}

abbrev heap : Heap
heap = record { last = some 8; allocated_bytes = 20; allocation_count = pos 2 }

abbrev blocks : List (ℕ × ℕ)
blocks = (8, 12) ∷ (0, 8) ∷ []

heap-Valid : Valid heap blocks
heap-Valid = record {
  fits = (omega arith, (omega arith, (omega arith, (omega arith, tt))));
  room = omega arith;
  count = refl;
}

heap_alloc-Allocated_example : Allocated heap blocks 5 (heap_alloc heap 5 1)
heap_alloc-Allocated_example = heap_alloc-Allocated heap blocks 5 1 heap-Valid (omega arith)

heap_free-Valid_example : Valid (heap_free heap (some (inside 0))) (remove 0 blocks)
heap_free-Valid_example = heap_free-Valid heap blocks 0 heap-Valid refl

-- A size that moves the block out of the arena.
heap_realloc-Resized_example :
    Resized heap ((0, 8) ∷ []) 8 99990 (heap_realloc heap (some (inside 8)) 99990 1)
heap_realloc-Resized_example =
    heap_realloc-Resized heap ((0, 8) ∷ []) 8 12 99990 1 heap-Valid refl (omega arith)

-- A block of 400 bytes at the end of a full arena that is cut to 101 bytes.
abbrev full : Heap
full = record { last = some 99500; allocated_bytes = 99900; allocation_count = pos 1 }

copy_of_400 : heap_realloc full (some (inside 99500)) 101 1 ≡ err copy_overflow
unfolding heap_realloc realloc_inside is_last grow move_out
copy_of_400 = refl
