-- ===== src/Syscall/Heap.antt =====
-- The break of the heap stays behind its start.
use sbu_os.Prelude.{ℕ, ◌≤◌, ◌≡◌, refl, List, [], ◌∷◌, arith}
use sbu_os.Prelude.Int.{pos}
use sbu_os.Syscall.{HeapBounds, sys_brk}

-- The calls of sys_brk one after the other.
abbrev pub brk_all : HeapBounds → List ℕ → HeapBounds
brk_all b [] = b
brk_all b (n ∷ ns) = brk_all (sys_brk b n).1 ns

-- After any calls of sys_brk the break of the heap is not in front of its start, if it was not before,
-- and a call with 0 then gives the break and changes nothing.
pub sys_brk_bounds :
    (b : HeapBounds) (ns : List ℕ)
    → b.heap_start ≤ b.heap_break
    → ((brk_all b ns).heap_start ≡ b.heap_start)
      × (b.heap_start ≤ (brk_all b ns).heap_break)
      × (sys_brk (brk_all b ns) 0 ≡ (pos (brk_all b ns).heap_break, brk_all b ns))
unfolding sys_brk
sys_brk_bounds b [] h = (refl, h, refl)
sys_brk_bounds b (n ∷ ns) h = ground (arith, sys_brk_bounds (sys_brk b n).1 ns)
