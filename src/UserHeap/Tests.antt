-- ===== src/UserHeap/Tests.antt =====
-- Tests and examples for the heap of a program.
use sbu_os.Prelude.{◌≤◌, ◌≡◌, refl, [], ◌∷◌, arith}
use sbu_os.UserHeap.{Heap, malloc, malloc_all}
use sbu_os.UserHeap.Blocks.{Apart, malloc-Apart}

abbrev unused : Heap
unused = record { current_brk = 0; allocated = 0 }

two_blocks : malloc_all 0x600000 unused (10 ∷ 5000 ∷ []) ≡ (
  (0x600000, 10) ∷ (0x60000A, 5000) ∷ [],
  record { current_brk = 0x602000; allocated = 0x601392 },
)
unfolding malloc_all malloc
two_blocks = refl

malloc-Apart_example :
    let (blocks, h) = malloc_all 0x600000 unused (10 ∷ 5000 ∷ []) in
    Apart 0x600000 h.allocated blocks × (h.allocated ≤ h.current_brk)
malloc-Apart_example = malloc-Apart 0x600000 10 (5000 ∷ []) (ground arith) (omega arith)
