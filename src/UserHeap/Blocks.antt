-- ===== src/UserHeap/Blocks.antt =====
-- The blocks of a program lie apart, below the break.
use sbu_os.Prelude.{
  ℕ, ◌+◌, ◌^◌, ◌≤◌, ◌<◌, ◌≡◌, ◌≢◌, refl, ap, sym, ◌∙◌, false, List, [], ◌∷◌, arith, ◌==◌,
}
use mathlib.Core.Path.{subst}
use sbu_os.UserHeap.{Heap, malloc, malloc_all}

abbrev pub sum : List ℕ → ℕ
sum [] = 0
sum (n ∷ ns) = n + sum ns

-- The blocks begin at `low` or above, each ends before the next begins, and the last ends at `high`
-- or below.
abbrev pub Apart : (low high : ℕ) → List (ℕ × ℕ) → Type 0
Apart low high [] = low ≤ high
Apart low high ((p, size) ∷ blocks) = (low ≤ p) × Apart (p + size) high blocks

-- A heap that was used: what is allocated lies below the break.
abbrev pub InUse : Heap → Type 0
InUse h = (h.current_brk ≢ 0) × (h.allocated ≤ h.current_brk)

malloc-InUse :
    (first_brk : ℕ) (h : Heap) (size : ℕ)
    → InUse h
    → h.allocated + size + 4096 < 2 ^ 64
    → let (p, h') = malloc first_brk h size in
      (p ≡ h.allocated) × (h'.allocated ≡ h.allocated + size) × InUse h'
unfolding malloc
malloc-InUse first_brk h size u room = ground arith

malloc_all-Apart :
    (sizes : List ℕ) (first_brk : ℕ) (h : Heap)
    → InUse h
    → h.allocated + sum sizes + 4096 < 2 ^ 64
    → let (blocks, h') = malloc_all first_brk h sizes in
      Apart h.allocated h'.allocated blocks × InUse h'
unfolding malloc_all
malloc_all-Apart [] first_brk h u room = (omega arith, u)
malloc_all-Apart (size ∷ sizes) first_brk h u room =
    let (at, next, u') = malloc-InUse first_brk h size u (omega arith) in
    let (apart, used) =
      malloc_all-Apart sizes first_brk (malloc first_brk h size).1 u' (omega arith) in
    (
      (
        omega (arith, at),
        subst
            (λ low.
              Apart low (malloc_all first_brk (malloc first_brk h size).1 sizes).1.allocated
                (malloc_all first_brk (malloc first_brk h size).1 sizes).0)
            (next ∙ ap (λ p. p + size) (sym at)) apart,
      ),
      used,
    )

malloc-first :
    (first_brk size : ℕ)
    → first_brk ≢ 0
    → malloc first_brk (record { current_brk = 0; allocated = 0 }) size
      ≡ malloc first_brk (record { current_brk = first_brk; allocated = first_brk }) size
unfolding malloc
malloc-first first_brk size ne = let e : (first_brk == 0) ≡ false = ground arith in rw e refl

-- From the first call on, the blocks that `malloc` gives lie one behind the other from the first
-- break on, without an overlap, and all of them below the break that the program has asked for; it is so
-- as long as the addresses do not reach the end of the address space.
pub malloc-Apart :
    (first_brk : ℕ) (size : ℕ) (sizes : List ℕ)
    → first_brk ≢ 0
    → first_brk + (size + sum sizes) + 4096 < 2 ^ 64
    → let (blocks, h) =
        malloc_all first_brk (record { current_brk = 0; allocated = 0 }) (size ∷ sizes) in
      Apart first_brk h.allocated blocks × (h.allocated ≤ h.current_brk)
unfolding malloc_all
malloc-Apart first_brk size sizes ne room =
    subst
      (λ (r : List (ℕ × ℕ) × Heap).
        Apart first_brk r.1.allocated r.0 × (r.1.allocated ≤ r.1.current_brk))
      (ap
        (λ (r : ℕ × Heap).
          let (blocks, h) = malloc_all first_brk r.1 sizes in ((r.0, size) ∷ blocks, h))
        (sym (malloc-first first_brk size ne)))
      (result.0, result.1.1)
  where
    start : Heap
    start = record { current_brk = first_brk; allocated = first_brk }

    result :
        let (blocks, h) = malloc_all first_brk start (size ∷ sizes) in
        Apart first_brk h.allocated blocks × InUse h
    result = malloc_all-Apart (size ∷ sizes) first_brk start (ne, omega arith) room
