-- ===== src/KernelHeap/Tiles.antt =====
-- The heap as blocks side by side, and which words the blocks are told from.
use sbu_os.Prelude.{
  ℕ, ◌+◌, ◌-◌, ◌*◌, ◌≤◌, ◌<◌, ◌≡◌, refl, ◌⊎◌, inl, inr, List, [], ◌∷◌, ◌++◌, arith, ◌==◌,
  Bool-cases,
}
use mathlib.Core.Path.{subst}
use sbu_os.Paging.{Words, write_word}
use sbu_os.KernelHeap.{write_if}
use sbu_os.KernelHeap.Tags.{IsTagged, IsTagged-kept, write-other}

-- A block: `alloc`, and its size in units of 16 bytes.
pub record Block : Type 0 where
  pub state : ℕ
  pub size : ℕ

-- The address behind the blocks.
abbrev pub block_end : ℕ → List Block → ℕ
block_end a [] = a
block_end a (b ∷ bs) = block_end (a + 16 * b.size) bs

-- The blocks lie side by side from `a` up to `stop`, each of at least 32 bytes, and the first and the
-- last word of each say what it is.
abbrev pub Tiles : Words → ℕ → List Block → (stop : ℕ) → Type 0
Tiles m a [] stop = a ≡ stop
Tiles m a (b ∷ bs) stop =
    IsTagged m a b.state b.size
    × IsTagged m (a + 16 * b.size - 8) b.state b.size
    × (2 ≤ b.size)
    × Tiles m (a + 16 * b.size) bs stop

-- Is the word the first or the last one of a block?
abbrev pub IsTag : ℕ → List Block → ℕ → Type 0
IsTag a [] x = ⊥
IsTag a (b ∷ bs) x = (x ≡ a) ⊎ ((x ≡ a + 16 * b.size - 8) ⊎ IsTag (a + 16 * b.size) bs x)

-- Does a block start there?
abbrev pub IsHead : ℕ → List Block → ℕ → Type 0
IsHead a [] x = ⊥
IsHead a (b ∷ bs) x = (x ≡ a) ⊎ IsHead (a + 16 * b.size) bs x

-- Tiles are told from their tags alone.
pub Tiles-kept :
    (m m' : Words) (a stop : ℕ) (bs : List Block)
    → ((x : ℕ) → IsTag a bs x → m' x ≡ m x)
    → Tiles m a bs stop
    → Tiles m' a bs stop
Tiles-kept m m' a stop [] same t = t
Tiles-kept m m' a stop (b ∷ bs) same (first, last, least, rest) = (
  IsTagged-kept m m' a b.state b.size (same a (inl refl)) first,
  IsTagged-kept m m' (a + 16 * b.size - 8) b.state b.size
      (same (a + 16 * b.size - 8) (inr (inl refl))) last,
  least,
  Tiles-kept m m' (a + 16 * b.size) stop bs (λ x t. same x (inr (inr t))) rest,
)

pub Tiles-block_end :
    (m : Words) (a stop : ℕ) (bs : List Block) → Tiles m a bs stop → block_end a bs ≡ stop
Tiles-block_end m a stop [] t = t
Tiles-block_end m a stop (b ∷ bs) t = Tiles-block_end m (a + 16 * b.size) stop bs t.3

pub Tiles-split :
    (m : Words) (a stop : ℕ) (xs ys : List Block)
    → Tiles m a (xs ++ ys) stop
    → Tiles m a xs (block_end a xs) × Tiles m (block_end a xs) ys stop
Tiles-split m a stop [] ys t = (refl, t)
Tiles-split m a stop (b ∷ xs) ys (first, last, least, rest) =
    let (l, r) = Tiles-split m (a + 16 * b.size) stop xs ys rest in ((first, last, least, l), r)

pub Tiles-join :
    (m : Words) (a stop : ℕ) (xs ys : List Block)
    → Tiles m a xs (block_end a xs)
    → Tiles m (block_end a xs) ys stop
    → Tiles m a (xs ++ ys) stop
Tiles-join m a stop [] ys l r = r
Tiles-join m a stop (b ∷ xs) ys (first, last, least, rest) r =
    (first, last, least, Tiles-join m (a + 16 * b.size) stop xs ys rest r)

pub block_end-le : (m : Words) (a stop : ℕ) (bs : List Block) → Tiles m a bs stop → a ≤ stop
block_end-le m a stop [] t = omega arith
block_end-le m a stop (b ∷ bs) t = omega (arith, block_end-le m (a + 16 * b.size) stop bs t.3)

-- The tags lie between the two ends.
pub IsTag-between :
    (m : Words) (a stop x : ℕ) (bs : List Block)
    → Tiles m a bs stop
    → IsTag a bs x
    → (a ≤ x) × (x < stop)
IsTag-between m a stop x [] t i = absurd i
IsTag-between m a stop x (b ∷ bs) (first, last, least, rest) (inl e) =
    let l = block_end-le m (a + 16 * b.size) stop bs rest in (omega arith, omega arith)
IsTag-between m a stop x (b ∷ bs) (first, last, least, rest) (inr (inl e)) =
    let l = block_end-le m (a + 16 * b.size) stop bs rest in (omega arith, omega arith)
IsTag-between m a stop x (b ∷ bs) (first, last, least, rest) (inr (inr i)) =
    let (l, r) = IsTag-between m (a + 16 * b.size) stop x bs rest i in (omega arith, r)

pub IsHead-between :
    (m : Words) (a stop x : ℕ) (bs : List Block)
    → Tiles m a bs stop
    → IsHead a bs x
    → (a ≤ x) × (x + 32 ≤ stop)
IsHead-between m a stop x [] t i = absurd i
IsHead-between m a stop x (b ∷ bs) (first, last, least, rest) (inl e) =
    let l = block_end-le m (a + 16 * b.size) stop bs rest in (omega arith, omega arith)
IsHead-between m a stop x (b ∷ bs) (first, last, least, rest) (inr i) =
    let (l, r) = IsHead-between m (a + 16 * b.size) stop x bs rest i in (omega arith, r)

-- The two links of a block are no tags.
pub link-no_tag :
    (m : Words) (a stop p d : ℕ) (bs : List Block)
    → Tiles m a bs stop
    → IsHead a bs p
    → 8 ≤ d
    → d ≤ 16
    → IsTag a bs (p + d)
    → ⊥
link-no_tag m a stop p d [] t h l k i = h
link-no_tag m a stop p d (b ∷ bs) (first, last, least, rest) (inl e) l k (inl i) = omega arith
link-no_tag m a stop p d (b ∷ bs) (first, last, least, rest) (inl e) l k (inr (inl i)) = omega arith
link-no_tag m a stop p d (b ∷ bs) (first, last, least, rest) (inl e) l k (inr (inr i)) =
    let (x, y) = IsTag-between m (a + 16 * b.size) stop (p + d) bs rest i in omega arith
link-no_tag m a stop p d (b ∷ bs) (first, last, least, rest) (inr h) l k (inl i) =
    let (x, y) = IsHead-between m (a + 16 * b.size) stop p bs rest h in omega arith
link-no_tag m a stop p d (b ∷ bs) (first, last, least, rest) (inr h) l k (inr (inl i)) =
    let (x, y) = IsHead-between m (a + 16 * b.size) stop p bs rest h in omega arith
link-no_tag m a stop p d (b ∷ bs) (first, last, least, rest) (inr h) l k (inr (inr i)) =
    link-no_tag m (a + 16 * b.size) stop p d bs rest h l k i

-- A link is NULL or a block.
abbrev pub IsLink : ℕ → List Block → ℕ → Type 0
IsLink a bs p = (p ≡ 0) ⊎ IsHead a bs p

pub write_if-Tiles :
    (m : Words) (a stop p d v : ℕ) (bs : List Block)
    → IsLink a bs p
    → 8 ≤ d
    → d ≤ 16
    → Tiles m a bs stop
    → Tiles (write_if m p d v) a bs stop
write_if-Tiles m a stop p d v bs link l k t = elim (Bool-cases (p == 0)) [
  | inl null ↦ rw null t
  | inr there ↦ elim link [
    | inl e ↦ absurd (ground arith)
    | inr h ↦ rw there (
        Tiles-kept m (write_word m (p + d) v) a stop bs
          (λ x i.
            write-other m (p + d) v x
              (λ z. link-no_tag m a stop p d bs t h l k (subst (IsTag a bs) z i)))
          t)
  ]
]

pub IsHead-left : (a p : ℕ) (xs ys : List Block) → IsHead a xs p → IsHead a (xs ++ ys) p
IsHead-left a p [] ys h = absurd h
IsHead-left a p (b ∷ xs) ys (inl e) = inl e
IsHead-left a p (b ∷ xs) ys (inr h) = inr (IsHead-left (a + 16 * b.size) p xs ys h)

pub IsHead-right :
    (a p : ℕ) (xs ys : List Block) → IsHead (block_end a xs) ys p → IsHead a (xs ++ ys) p
IsHead-right a p [] ys h = h
IsHead-right a p (b ∷ xs) ys h = inr (IsHead-right (a + 16 * b.size) p xs ys h)
