-- ===== src/UserHeap.antt =====
-- libc/malloc.c as it is built (SIMPLE_MALLOC): the blocks follow one another, and `free` does nothing.
pub mod Blocks
mod Tests
use sbu_os.Prelude.{ℕ, ◌+◌, ◌*◌, ◌/◌, ◌%◌, ◌-◌, ◌^◌, List, [], ◌∷◌, ltb, ◌==◌, if◌then◌else◌}

-- `current_brk` and `allocated`, 0 before the first call.
pub record Heap : Type 0 where
  pub current_brk : ℕ
  pub allocated : ℕ

-- `(((allocated+size)-1)/4096+1)*4096`
abbrev pub want_to : (allocated size : ℕ) → ℕ
want_to allocated size = (((allocated + size + 2 ^ 64 - 1) % 2 ^ 64 / 4096 + 1) * 4096) % 2 ^ 64

-- What the first call does before it allocates; `first_brk` is the result of `brk(0)`.
abbrev pub set_up : (first_brk : ℕ) → Heap → Heap
set_up first_brk h =
    if h.current_brk == 0 then record { current_brk = first_brk; allocated = first_brk } else h

-- `malloc`: the address, and the heap. The results of the other calls of `brk` are not looked at.
unfoldable pub malloc : (first_brk : ℕ) → Heap → (size : ℕ) → ℕ × Heap
malloc first_brk h size =
    let s = set_up first_brk h in
    (
      s.allocated,
      record {
        current_brk =
            if ltb s.current_brk (want_to s.allocated size)
            then want_to s.allocated size
            else s.current_brk;
        allocated = (s.allocated + size) % 2 ^ 64;
      },
    )

-- Calls one after the other: the address and the size of each block, and the heap.
unfoldable pub malloc_all : (first_brk : ℕ) → Heap → List ℕ → List (ℕ × ℕ) × Heap
malloc_all first_brk h [] = ([], h)
malloc_all first_brk h (size ∷ sizes) =
    let (p, h') = malloc first_brk h size in
    let (blocks, h'') = malloc_all first_brk h' sizes in ((p, size) ∷ blocks, h'')
