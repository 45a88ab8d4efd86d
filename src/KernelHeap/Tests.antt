-- ===== src/KernelHeap/Tests.antt =====
-- The first allocation of all, and a small heap.
use sbu_os.Prelude.{
  ℕ, ◌+◌, ◌-◌, ◌*◌, ◌^◌, ◌≡◌, refl, inl, inr, true, false, Option, none, some, List, [], ◌∷◌, ◌++◌,
  arith,
}
use sbu_os.Paging.{Words, write_word}
use sbu_os.KernelHeap.{
  SfHeap, header, allocate_as, sf_allocate, sf_coalescing, back_free, over_free, kbrk,
  sf_get_more_space, sf_initialize_free_block, find_fit, sf_malloc,
}
use sbu_os.KernelHeap.Free.{sf_free, sf_free_of, back_used, over_used}
use sbu_os.KernelHeap.Tiles.{Block, Tiles}
use sbu_os.KernelHeap.Allocate.{parts, units, Relinks, sf_allocate-Tiles}
use sbu_os.KernelHeap.FirstFit.{Allocated, sf_malloc-Allocated}
use sbu_os.KernelHeap.Coalesce.{free_block, Joined, sf_coalescing-Tiles}

-- Nothing is there yet.
abbrev empty : SfHeap
empty = record {
  words = λ a. 0;
  heap_start_ptr = 0;
  freelist_head = 0;
  first_page_initialized = false;
  break = 4096;
}

-- The address that a call returns, and the list of free blocks behind it.
abbrev address : Option (ℕ × SfHeap) → ℕ
address none = 0
address (some (p, s)) = p

abbrev head_after : Option (ℕ × SfHeap) → ℕ
head_after none = 0
head_after (some (p, s)) = s.freelist_head

abbrev freed_head : Option (ℕ × SfHeap) → Option ℕ
unfolding sf_free sf_free_of back_used over_used sf_coalescing back_free over_free
freed_head none = none
freed_head (some (p, s)) = elim (sf_free 5 s p) [ none ↦ none | some t ↦ some t.freelist_head ]

first_call :
    (address (sf_malloc (2 ^ 20) 5 empty 100) ≡ 4112)
    × (head_after (sf_malloc (2 ^ 20) 5 empty 100) ≡ 4232)
    × (freed_head (sf_malloc (2 ^ 20) 5 empty 100) ≡ some 4104)
unfolding sf_malloc find_fit sf_get_more_space kbrk sf_initialize_free_block sf_coalescing back_free
    over_free sf_allocate allocate_as freed_head
first_call = (refl, refl, refl)

-- The two tags of a block.
abbrev tag : Words → (a state size : ℕ) → Words
tag m a state size =
    write_word (write_word m a (header state size 0)) (a + 16 * size - 8) (header state size 0)

abbrev used_block : ℕ → Block
used_block n = record { state = 1; size = n }

-- A free block of 6 units between two in use.
abbrev between : SfHeap
between = record {
  words = tag (tag (tag (λ a. 0) 8 1 2) 40 0 6) 136 1 2;
  heap_start_ptr = 8;
  freelist_head = 40;
  first_page_initialized = true;
  break = 176;
}

abbrev three : List Block
three = used_block 2 ∷ free_block 6 ∷ used_block 2 ∷ []

between-Tiles : Tiles between.words 8 three 168
between-Tiles = (
  record { state_is = refl; size_is = refl },
  record { state_is = refl; size_is = refl },
  omega arith,
  (
    record { state_is = refl; size_is = refl },
    record { state_is = refl; size_is = refl },
    omega arith,
    (
      record { state_is = refl; size_is = refl },
      record { state_is = refl; size_is = refl },
      omega arith,
      refl,
    ),
  ),
)

sf_allocate-Tiles_example :
    ((sf_allocate between 40 20).0 ≡ 48)
    × Tiles
        (sf_allocate between 40 20).1.words
        8
        ((used_block 2 ∷ []) ++ (parts 6 (units 20) ++ (used_block 2 ∷ [])))
        168
    × Relinks between 40 6 (units 20) (sf_allocate between 40 20).1
sf_allocate-Tiles_example =
    sf_allocate-Tiles between 40 20 6 8 168 (used_block 2 ∷ []) (used_block 2 ∷ []) between-Tiles
      refl (omega arith) (omega arith) (omega arith) (omega arith) (inl (inl refl)) (inl (inl refl))

sf_malloc-Allocated_example : Allocated between 20 8 168 three (sf_malloc (2 ^ 20) 3 between 20)
sf_malloc-Allocated_example =
    sf_malloc-Allocated (2 ^ 20) 3 between 20 8 168 three (40 ∷ []) between-Tiles
      (omega arith, (omega arith, (omega arith, tt))) (omega arith)
      (refl, omega arith, inr (inl (refl, refl)), refl, omega arith, omega arith, refl)
      (omega arith) (omega arith) (omega arith) refl

-- Three free blocks of 2 units between two in use.
abbrev scattered : SfHeap
scattered = record {
  words = tag (tag (tag (tag (tag (λ a. 0) 8 1 2) 40 0 2) 72 0 2) 104 0 2) 136 1 2;
  heap_start_ptr = 8;
  freelist_head = 40;
  first_page_initialized = true;
  break = 176;
}

scattered-Tiles :
    Tiles scattered.words 8
      ((used_block 2 ∷ [])
        ++ (((free_block 2 ∷ []) ++ (free_block 2 ∷ free_block 2 ∷ [])) ++ (used_block 2 ∷ [])))
      168
scattered-Tiles = (
  record { state_is = refl; size_is = refl },
  record { state_is = refl; size_is = refl },
  omega arith,
  (
    record { state_is = refl; size_is = refl },
    record { state_is = refl; size_is = refl },
    omega arith,
    (
      record { state_is = refl; size_is = refl },
      record { state_is = refl; size_is = refl },
      omega arith,
      (
        record { state_is = refl; size_is = refl },
        record { state_is = refl; size_is = refl },
        omega arith,
        (
          record { state_is = refl; size_is = refl },
          record { state_is = refl; size_is = refl },
          omega arith,
          refl,
        ),
      ),
    ),
  ),
)

sf_coalescing-Tiles_example :
    (s' : SfHeap) × (sf_coalescing 2 scattered 72 false ≡ some (40, s'))
    × Tiles s'.words 8 ((used_block 2 ∷ []) ++ (free_block 6 ∷ used_block 2 ∷ [])) 168
    × Joined scattered 40 6 0 0 s'
sf_coalescing-Tiles_example =
    sf_coalescing-Tiles 2 scattered 72 2 8 168 (used_block 2 ∷ []) (free_block 2 ∷ [])
      (free_block 2 ∷ []) (used_block 2 ∷ []) scattered-Tiles (refl, tt) (refl, tt) refl refl refl
      (omega arith) (omega arith) (omega arith) (omega arith) (inl refl) (inl refl) (omega arith)
      (omega arith)
