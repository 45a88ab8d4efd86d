-- ===== src/KernelHeap/FirstFit.antt =====
-- `sf_malloc` takes the first block of the free list that is large enough.
use sbu_os.Prelude.{
  ℕ, zero, suc, ◌+◌, ◌*◌, ◌%◌, ◌^◌, ◌≤◌, ◌<◌, ◌≡◌, ◌≢◌, refl, ap, sym, ◌∙◌, ◌⊎◌, inl, inr, Bool,
  true, false, ◌||◌, Option, some, List, [], ◌∷◌, ◌++◌, arith, leb, ◌==◌, ◌>>=◌, Bool-cases, length,
}
use mathlib.Core.Path.{subst}
use sbu_os.Paging.{Words}
use sbu_os.KernelHeap.{
  SfHeap, block_size, next_free, prev_free, needed_words, sf_allocate, int_at_least, find_fit,
  check_size_validity, sf_malloc,
}
use sbu_os.KernelHeap.Tiles.{Block, block_end, Tiles, Tiles-split, IsHead, IsLink}
use sbu_os.KernelHeap.Allocate.{parts, units, Relinks, sf_allocate-Tiles}

-- A free block starts at the address.
abbrev pub IsFree : ℕ → List Block → ℕ → Type 0
IsFree a [] x = ⊥
IsFree a (b ∷ bs) x = ((x ≡ a) × (b.state ≡ 0)) ⊎ IsFree (a + 16 * b.size) bs x

abbrev pub AllSmall : List Block → Type 0
AllSmall [] = Unit {0}
AllSmall (b ∷ bs) = (b.size < 2 ^ 27) × AllSmall bs

-- The doubly linked list from `cursor` on, behind `last`: its blocks are free ones, and no two that
-- follow each other are the same.
abbrev pub IsChain : Words → (start : ℕ) → List Block → (last cursor : ℕ) → List ℕ → Type 0
IsChain m start bs last cursor [] = cursor ≡ 0
IsChain m start bs last cursor (h ∷ hs) =
    (cursor ≡ h)
    × (h ≢ 0)
    × IsFree start bs h
    × (prev_free m h ≡ last)
    × (next_free m h ≢ h)
    × (last ≢ h)
    × IsChain m start bs h (next_free m h) hs

-- Does a block of the list have the units?
abbrev pub has_fit : Words → List ℕ → (wanted : ℕ) → Bool
has_fit m [] wanted = false
has_fit m (h ∷ hs) wanted = leb wanted (block_size m h) || has_fit m hs wanted

IsFree-IsHead : (a x : ℕ) (bs : List Block) → IsFree a bs x → IsHead a bs x
IsFree-IsHead a x [] f = f
IsFree-IsHead a x (b ∷ bs) (inl (e, _)) = inl e
IsFree-IsHead a x (b ∷ bs) (inr f) = inr (IsFree-IsHead (a + 16 * b.size) x bs f)

-- The blocks around a free one.
record Around (a : ℕ) (bs : List Block) (x : ℕ) : Type 0 where
  n : ℕ
  xs : List Block
  ys : List Block
  blocks : bs ≡ xs ++ (record { state = 0; size = n } ∷ ys)
  at : x ≡ block_end a xs
  small : n < 2 ^ 27

IsFree-Around : (a x : ℕ) (bs : List Block) → AllSmall bs → IsFree a bs x → Around a bs x
IsFree-Around a x [] s f = absurd f
IsFree-Around a x (b ∷ bs) s (inl (e, free)) = record {
  n = b.size;
  xs = [];
  ys = bs;
  blocks = ap (λ z. record { state = z; size = b.size } ∷ bs) free;
  at = e;
  small = s.0;
}
IsFree-Around a x (b ∷ bs) s (inr f) =
    let k = IsFree-Around (a + 16 * b.size) x bs s.1 f in
    record {
      n = k.n;
      xs = b ∷ k.xs;
      ys = k.ys;
      blocks = ap (λ z. b ∷ z) k.blocks;
      at = k.at;
      small = k.small;
    }

-- Another block stands before it or behind it.
IsHead-other :
    (a p n : ℕ) (xs ys : List Block)
    → p ≢ block_end a xs
    → IsHead a (xs ++ (record { state = 0; size = n } ∷ ys)) p
    → IsLink a xs p ⊎ IsHead (block_end a xs + 16 * n) ys p
IsHead-other a p n [] ys ne (inl e) = absurd (ne e)
IsHead-other a p n [] ys ne (inr h) = inr h
IsHead-other a p n (b ∷ xs) ys ne (inl e) = inl (inr (inl e))
IsHead-other a p n (b ∷ xs) ys ne (inr h) = elim (IsHead-other (a + 16 * b.size) p n xs ys ne h) [
  | inl (inl e) ↦ inl (inl e)
  | inl (inr i) ↦ inl (inr (inr i))
  | inr i ↦ inr i
]

-- What the loop stops at, if a block fits: a free block that fits, and its neighbours in the list.
record Found (m : Words) (start : ℕ) (bs : List Block) (wanted : ℕ) (out : Option (ℕ × ℕ))
    : Type 0 where
  h : ℕ
  last : ℕ
  stops : out ≡ some (h, last)
  there : h ≢ 0
  free : IsFree start bs h
  fits : wanted ≤ block_size m h
  next_ok : IsLink start bs (next_free m h) × (next_free m h ≢ h)
  prev_ok : IsLink start bs (prev_free m h) × (prev_free m h ≢ h)

free-size :
    (m : Words) (a stop x : ℕ) (bs : List Block)
    → Tiles m a bs stop
    → AllSmall bs
    → IsFree a bs x
    → block_size m x < 2 ^ 27
free-size m a stop x [] t s f = absurd f
free-size m a stop x (b ∷ bs) (first, last, least, rest) s (inl (e, free)) =
    let size : block_size m x ≡ b.size = ap (block_size m) e ∙ first.size_is in
    let l = s.0 in omega arith
free-size m a stop x (b ∷ bs) (first, last, least, rest) s (inr f) =
    free-size m (a + 16 * b.size) stop x bs rest s.1 f

-- The comparison of `int`s, below 2 ^ 31.
at_least-units : (b u : ℕ) → b < 2 ^ 27 → u < 2 ^ 27 → int_at_least (16 * b) (16 * u) ≡ leb u b
at_least-units b u l k = ground arith

chain-IsLink :
    (m : Words) (start last cursor : ℕ) (bs : List Block) (hs : List ℕ)
    → IsChain m start bs last cursor hs
    → IsLink start bs cursor
chain-IsLink m start last cursor bs [] c = inl c
chain-IsLink m start last cursor bs (h ∷ hs) (e, _, free, _, _, _, _) =
    inr (subst (IsHead start bs) (sym e) (IsFree-IsHead start h bs free))

module _ (m : Words) (start stop wanted : ℕ) (bs : List Block) (tiles : Tiles m start bs stop)
    (small : AllSmall bs) (less : wanted < 2 ^ 27) where
  find_fit-Found :
      (fuel last cursor : ℕ) (hs : List ℕ)
      → IsLink start bs last
      → IsChain m start bs last cursor hs
      → length hs < fuel
      → has_fit m hs wanted ≡ true
      → Found m start bs wanted (find_fit fuel m cursor last (16 * wanted))
  unfolding find_fit
  find_fit-Found zero last cursor hs before c l fit = absurd (omega arith)
  find_fit-Found (suc fuel) last cursor [] before c l fit = absurd (cc fit)
  find_fit-Found (suc fuel) last cursor (h ∷ hs) before c l fit =
      let (e, there', free', prev', next_ne, last_ne, rest) = c in
      let not_null : (cursor == 0) ≡ false = ground arith in
      let size = free-size m start stop h bs tiles small free' in
      let test : int_at_least (16 * block_size m cursor) (16 * wanted)
          ≡ leb wanted (block_size m h) =
        ap (λ x. int_at_least (16 * block_size m x) (16 * wanted)) e
        ∙ at_least-units (block_size m h) wanted size less in
      elim (Bool-cases (leb wanted (block_size m h))) [
        | inl large ↦ record {
          h = h;
          last = last;
          stops = rw (find_fit, not_null, test, large, e) refl;
          there = there';
          free = free';
          fits = ground (arith, large);
          next_ok = (chain-IsLink m start h (next_free m h) bs hs rest, next_ne);
          prev_ok = (subst (IsLink start bs) (sym prev') before, λ z. last_ne (sym prev' ∙ z));
        }
        | inr short ↦
            let link = inr (IsFree-IsHead start h bs free') in
            let found =
              find_fit-Found fuel h (next_free m h) hs link rest (omega arith)
                (ground (arith, fit, short)) in
            let same : find_fit (suc fuel) m cursor last (16 * wanted)
                ≡ find_fit fuel m (next_free m h) h (16 * wanted) =
              rw (find_fit, not_null, test, short, e) refl in
            subst (Found m start bs wanted) (sym same) found
      ]

IsLink-other :
    (a p h n : ℕ) (bs xs ys : List Block)
    → bs ≡ xs ++ (record { state = 0; size = n } ∷ ys)
    → h ≡ block_end a xs
    → p ≢ h
    → IsLink a bs p
    → IsLink a xs p ⊎ IsHead (h + 16 * n) ys p
IsLink-other a p h n bs xs ys e at ne (inl null) = inl (inl null)
IsLink-other a p h n bs xs ys e at ne (inr i) =
    subst (λ z. IsLink a xs p ⊎ IsHead (z + 16 * n) ys p) (sym at)
      (IsHead-other a p n xs ys (λ z. ne (z ∙ sym at)) (subst (λ z. IsHead a z p) e i))

-- What `sf_malloc` has done with a block that was found.
pub record Allocated (s : SfHeap) (size start stop : ℕ) (bs : List Block)
    (out : Option (ℕ × SfHeap)) : Type 0 where
  pub n : ℕ
  pub xs : List Block
  pub ys : List Block
  pub s' : SfHeap
  pub blocks : bs ≡ xs ++ (record { state = 0; size = n } ∷ ys)
  pub enough : size + 16 ≤ 16 * n
  pub returns : out ≡ some (block_end start xs + 8, s')
  pub tiles : Tiles s'.words start (xs ++ (parts n (units size) ++ ys)) stop
  pub relinks : Relinks s (block_end start xs) n (units size) s'

-- The heap lies below 2 ^ 64 and consists of blocks side by side, each smaller than 2 ^ 31 bytes; the
-- free list is one of free blocks, no two neighbours of which are the same, and one of its blocks has
-- the units that the request needs; the request is not 0 and takes less than 2 ^ 31 bytes. Then
-- `sf_malloc`, with fuel for the blocks in the list, returns the address behind the header of a block
-- that was free and has room for the request and the two tags; the heap
-- consists of the same blocks, but that one is in use, with a free one behind it if more than 16 bytes
-- are left, which takes its place in the free list; and outside of the block and of the two links to it
-- no word has changed, and nothing of the heap but the head of the list.
pub sf_malloc-Allocated :
    (limit fuel : ℕ) (s : SfHeap) (size start stop : ℕ) (bs : List Block) (hs : List ℕ)
    → Tiles s.words start bs stop
    → AllSmall bs
    → stop ≤ 2 ^ 64
    → IsChain s.words start bs 0 s.freelist_head hs
    → length hs < fuel
    → 1 ≤ size
    → units size < 2 ^ 27
    → has_fit s.words hs (units size) ≡ true
    → Allocated s size start stop bs (sf_malloc limit fuel s size)
unfolding sf_malloc
sf_malloc-Allocated limit fuel s size start stop bs hs t small inside chain l wanted less fit =
    let m = s.words in
    let u = units size in
    let found =
      find_fit-Found m start stop u bs t small less fuel 0 s.freelist_head hs (inl refl) chain l
        fit in
    let k = IsFree-Around start found.h bs small found.free in
    let t' = subst (λ z. Tiles m start z stop) k.blocks t in
    let of_size : block_size m found.h ≡ k.n =
      ap (block_size m) k.at
      ∙ (Tiles-split m start stop k.xs (record { state = 0; size = k.n } ∷ k.ys) t').1.0.size_is in
    let valid : check_size_validity size ≡ true = ground arith in
    let needed : needed_words size * 8 % 2 ^ 32 ≡ 16 * u = omega arith in
    let there : (found.h == 0) ≡ false = ground (arith, found.there) in
    let runs : (h last : ℕ)
        → find_fit fuel m s.freelist_head 0 (16 * u) ≡ some (h, last)
        → (h == 0) ≡ false
        → (sf_allocate s h size).0 ≡ block_end start k.xs + 8
        → sf_malloc limit fuel s size ≡ some (block_end start k.xs + 8, (sf_allocate s h size).1) =
      λ h last e f g.
        rw (sf_malloc, valid, needed, e, ◌>>=◌, f)
          (ap (λ z. some (z, (sf_allocate s h size).1)) g) in
    let done =
      sf_allocate-Tiles s found.h size k.n start stop k.xs k.ys t' k.at (omega (arith, k.small))
        inside wanted (omega (arith, found.fits))
        (IsLink-other start (next_free m found.h) found.h k.n bs k.xs k.ys k.blocks k.at
          found.next_ok.1 found.next_ok.0)
        (IsLink-other start (prev_free m found.h) found.h k.n bs k.xs k.ys k.blocks k.at
          found.prev_ok.1 found.prev_ok.0) in
    record {
      n = k.n;
      xs = k.xs;
      ys = k.ys;
      s' = (sf_allocate s found.h size).1;
      blocks = k.blocks;
      enough = omega (arith, found.fits, of_size);
      returns = runs found.h found.last found.stops there (done.0 ∙ ap (λ z. z + 8) k.at);
      tiles = done.1;
      relinks = subst (λ a. Relinks s a k.n u (sf_allocate s found.h size).1) k.at done.2;
    }
