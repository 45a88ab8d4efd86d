-- ===== src/KernelHeap/Runs.antt =====
-- The two loops of `sf_coalescing` go over the free blocks that stand side by side.
use sbu_os.Prelude.{
  ℕ, zero, suc, ◌+◌, ◌-◌, ◌*◌, ◌≤◌, ◌<◌, ◌≡◌, refl, ap, sym, ◌∙◌, Bool, true, false, not, ◌&&◌,
  some, List, [], ◌∷◌, arith, ◌==◌, length,
}
use mathlib.Core.Path.{subst}
use sbu_os.Paging.{Words}
use sbu_os.KernelHeap.{alloc, block_size, back_free, over_free}
use sbu_os.KernelHeap.Tags.{IsTagged}
use sbu_os.KernelHeap.Tiles.{Block, Tiles}

abbrev pub AllFree : List Block → Type 0
AllFree [] = Unit {0}
AllFree (b ∷ bs) = (b.state ≡ 0) × AllFree bs

-- Does the word end a run of free blocks: does it say that a block is in use, or that there is none?
abbrev pub ends_run : Words → ℕ → Bool
ends_run m x = not (alloc m x == 0 && not (block_size m x == 0))

-- The test of both loops at the tag of a free block.
goes_on :
    (m : Words) (x size : ℕ)
    → IsTagged m x 0 size
    → 2 ≤ size
    → alloc m x == 0 && not (block_size m x == 0) ≡ true
goes_on m x size t l = let a = t.state_is in let s = t.size_is in ground arith

pub over_free-run :
    (fuel : ℕ) (m : Words) (a e f : ℕ) (gs : List Block)
    → Tiles m a gs e
    → AllFree gs
    → ends_run m e ≡ true
    → f + 8 ≡ a
    → length gs < fuel
    → (last : ℕ) × (over_free fuel m f ≡ some last) × (last + 8 ≡ e)
unfolding over_free
over_free-run zero m a e f gs t free end' at l = absurd (omega arith)
over_free-run (suc fuel) m a e f [] t free end' at l =
    let stops : alloc m (f + 8) == 0 && not (block_size m (f + 8) == 0) ≡ false =
      let q : ends_run m (f + 8) ≡ true = ap (ends_run m) (at ∙ t) ∙ end' in ground (arith, q) in
    (f, rw (over_free, stops) refl, at ∙ t)
over_free-run (suc fuel) m a e f (b ∷ gs) (first, last, least, rest) free end' at l =
    let tag : IsTagged m (f + 8) 0 b.size =
      subst (λ x. IsTagged m x 0 b.size) (sym at)
        (subst (λ z. IsTagged m a z b.size) free.0 first) in
    let on = goes_on m (f + 8) b.size tag least in
    let (last', runs, ends) =
      over_free-run fuel m (a + 16 * b.size) e (f + 16 * b.size) gs rest free.1 end' (omega arith)
        (omega arith) in
    let size = tag.size_is in (last', rw (over_free, on, size) runs, ends)

-- The blocks from `b` back to `a`, the nearest one first.
abbrev pub TilesBack : Words → (b : ℕ) → List Block → (a : ℕ) → Type 0
TilesBack m b [] a = b ≡ a
TilesBack m b (r ∷ rs) a =
    IsTagged m (b - 8) r.state r.size
    × (2 ≤ r.size)
    × (16 * r.size ≤ b)
    × TilesBack m (b - 16 * r.size) rs a

abbrev pub rev_onto : List Block → List Block → List Block
rev_onto [] acc = acc
rev_onto (b ∷ bs) acc = rev_onto bs (b ∷ acc)

pub Tiles-back :
    (m : Words) (a b a0 : ℕ) (fs acc : List Block)
    → Tiles m a fs b
    → TilesBack m a acc a0
    → TilesBack m b (rev_onto fs acc) a0
Tiles-back m a b a0 [] acc t back = subst (λ x. TilesBack m x acc a0) t back
Tiles-back m a b a0 (f ∷ fs) acc (first, last, least, rest) back =
    let to : a + 16 * f.size - 16 * f.size ≡ a = omega arith in
    Tiles-back m (a + 16 * f.size) b a0 fs (f ∷ acc) rest
      (last, least, omega arith, subst (λ x. TilesBack m x acc a0) (sym to) back)

pub AllFree-rev : (fs acc : List Block) → AllFree fs → AllFree acc → AllFree (rev_onto fs acc)
AllFree-rev [] acc f g = g
AllFree-rev (b ∷ fs) acc f g = AllFree-rev fs (b ∷ acc) f.1 (f.0, g)

pub length-rev : (fs acc : List Block) → length (rev_onto fs acc) ≡ length fs + length acc
length-rev [] acc = omega arith
length-rev (b ∷ fs) acc = length-rev fs (b ∷ acc) ∙ omega arith

pub back_free-run :
    (fuel : ℕ) (m : Words) (b a : ℕ) (rs : List Block)
    → TilesBack m b rs a
    → AllFree rs
    → ends_run m (a - 8) ≡ true
    → length rs < fuel
    → back_free fuel m b ≡ some a
unfolding back_free
back_free-run zero m b a rs t free end' l = absurd (omega arith)
back_free-run (suc fuel) m b a [] t free end' l =
    let stops : alloc m (b - 8) == 0 && not (block_size m (b - 8) == 0) ≡ false =
      let q : ends_run m (b - 8) ≡ true = ap (λ x. ends_run m (x - 8)) t ∙ end' in
      ground (arith, q) in
    rw (back_free, stops) (ap some t)
back_free-run (suc fuel) m b a (r ∷ rs) (tag, least, inside, rest) free end' l =
    let tag' = subst (λ z. IsTagged m (b - 8) z r.size) free.0 tag in
    let on = goes_on m (b - 8) r.size tag' least in
    let size = tag.size_is in
    rw (back_free, on, size)
      (back_free-run fuel m (b - 16 * r.size) a rs rest free.1 end' (omega arith))
