-- ===== src/KernelHeap/Allocate.antt =====
-- `sf_allocate` makes of a free block one in use, and a free one if more than 16 bytes are left.
use sbu_os.Prelude.{
  ℕ, ◌+◌, ◌-◌, ◌*◌, ◌/◌, ◌%◌, ◌^◌, ◌≤◌, ◌<◌, ◌≡◌, ◌≢◌, refl, ap, sym, ◌∙◌, ◌⊎◌, inl, inr, true,
  false, List, [], ◌∷◌, ◌++◌, arith, ltb, ◌==◌, if◌then◌else◌, Bool-cases,
}
use mathlib.Core.Path.{subst}
use sbu_os.Paging.{Words, write_word}
use sbu_os.KernelHeap.{
  SfHeap, block_size, header, next_free, prev_free, write_if, needed_words, real_words, put_tags,
  allocate_as, sf_allocate,
}
use sbu_os.KernelHeap.Tags.{IsTagged, IsTagged-kept, written-IsTagged, get_footer_at, write-other}
use sbu_os.KernelHeap.Tiles.{
  Block, block_end, Tiles, IsHead, Tiles-kept, Tiles-split, Tiles-join, IsTag-between, IsLink,
  write_if-Tiles, IsHead-between, IsHead-left, IsHead-right, block_end-le,
}
use sbu_os.KernelHeap.Links.{Relinked, relinked, write_if-other}

-- What the marking of a block does.
record Tagged (m : Words) (h state size : ℕ) (m' : Words) : Type 0 where
  first : IsTagged m' h state size
  last : IsTagged m' (h + 16 * size - 8) state size
  others : (x : ℕ) → x ≢ h → x ≢ h + 16 * size - 8 → m' x ≡ m x

put_tags-Tagged :
    (m : Words) (h state size r : ℕ)
    → state < 16
    → 2 ≤ size
    → size < 2 ^ 28
    → h + 16 * size ≤ 2 ^ 64
    → Tagged m h state size (put_tags m h state size r)
put_tags-Tagged m h state size r l least most inside =
    let m1 : Words = write_word m h (header state size r) in
    let t = written-IsTagged m h state size r l most in
    let f = get_footer_at m1 h size t.size_is (omega arith) inside in
    let v : header state (block_size m1 h) 0 ≡ header state size 0 =
      ap (λ z. header state z 0) t.size_is in
    let same : put_tags m h state size r ≡ write_word m1 (h + 16 * size - 8) (header state size 0) =
      ap (λ a. write_word m1 a (header state (block_size m1 h) 0)) f
      ∙ ap (write_word m1 (h + 16 * size - 8)) v in
    subst (Tagged m h state size) (sym same) (record {
      first =
          IsTagged-kept m1 (write_word m1 (h + 16 * size - 8) (header state size 0)) h state size
            (write-other m1 (h + 16 * size - 8) (header state size 0) h (omega arith)) t;
      last = written-IsTagged m1 (h + 16 * size - 8) state size 0 l most;
      others = λ x ne nf.
          write-other m1 (h + 16 * size - 8) (header state size 0) x nf
          ∙ write-other m h (header state size r) x ne;
    })

-- The blocks that come of a free one of `n` units, of which `r` are wanted.
abbrev pub parts : (n r : ℕ) → List Block
parts n r =
    if ltb n (r + 2)
    then record { state = 1; size = n } ∷ []
    else record { state = 1; size = r } ∷ record { state = 0; size = n - r } ∷ []

-- What `sf_allocate` does to the free list, of `n` units with `r` wanted: the block leaves it if it is
-- taken as a whole, and else the rest takes its place.
abbrev pub Relinks : (s : SfHeap) (h n r : ℕ) (s' : SfHeap) → Type 0
Relinks s h n r s' =
    let next = next_free s.words h in
    let prev = prev_free s.words h in
    let rest = h + 16 * r in
    Relinked s h n next prev (if ltb n (r + 2) then prev else rest)
      (if ltb n (r + 2) then next else rest) s'
    × ((n < r + 2) ⊎ ((next_free s'.words rest ≡ next) × (prev_free s'.words rest ≡ prev)))

-- The units that a request needs.
abbrev pub units : ℕ → ℕ
units size = needed_words size / 2

-- `real8Bytes` and what is left of it, in units.
real_whole :
    (n size : ℕ)
    → 2 ≤ n
    → n < 2 ^ 28
    → ltb n (units size + 2) ≡ true
    → real_words (2 * n) (needed_words size) ≡ 2 * n
real_whole n size l k h = ground (arith, h)

real_part :
    (n size : ℕ)
    → 2 ≤ n
    → n < 2 ^ 28
    → ltb n (units size + 2) ≡ false
    → real_words (2 * n) (needed_words size) ≡ 2 * units size
real_part n size l k h = ground (arith, h)

-- A word of the block is not a link in a block that lies outside.
word-outside :
    (h n p d x : ℕ)
    → (p ≡ 0) ⊎ ((p + 32 ≤ h) ⊎ (h + 16 * n ≤ p))
    → d ≤ 16
    → h ≤ x
    → x < h + 16 * n
    → (p ≡ 0) ⊎ (x ≢ p + d)
word-outside h n p d x (inl e) l from to = inl e
word-outside h n p d x (inr out) l from to = inr λ z. absurd (omega arith)

-- The tags of two blocks side by side do not reach into the free ones around them.
module _ (s : SfHeap) (h size n start stop : ℕ) (xs ys : List Block)
    (tiles : Tiles s.words start (xs ++ (record { state = 0; size = n } ∷ ys)) stop)
    (at : h ≡ block_end start xs) (small : n < 2 ^ 28) (inside : stop ≤ 2 ^ 64) (wanted : 1 ≤ size)
    (fits : units size ≤ n)
    (next_link : IsLink start xs (next_free s.words h)
      ⊎ IsHead (h + 16 * n) ys (next_free s.words h))
    (prev_link : IsLink start xs (prev_free s.words h)
      ⊎ IsHead (h + 16 * n) ys (prev_free s.words h)) where
  abbrev m : Words
  m = s.words

  around :
      Tiles m start xs h
      × IsTagged m h 0 n
      × IsTagged m (h + 16 * n - 8) 0 n
      × (2 ≤ n)
      × Tiles m (h + 16 * n) ys stop
  around =
      let (l, (first, last, least, r)) =
        Tiles-split m start stop xs (record { state = 0; size = n } ∷ ys) tiles in
      subst
        (λ a.
          Tiles m start xs a
          × IsTagged m a 0 n
          × IsTagged m (a + 16 * n - 8) 0 n
          × (2 ≤ n)
          × Tiles m (a + 16 * n) ys stop)
        (sym at) (subst (Tiles m start xs) refl l, first, last, least, r)

  end-le : h + 16 * n ≤ stop
  end-le = block_end-le m (h + 16 * n) stop ys around.4

  -- A link of the free block, among the blocks that come of it.
  IsLink-in :
      (bs : List Block) (p : ℕ)
      → block_end h bs ≡ h + 16 * n
      → IsLink start xs p ⊎ IsHead (h + 16 * n) ys p
      → IsLink start (xs ++ (bs ++ ys)) p
  IsLink-in bs p ends (inl (inl e)) = inl e
  IsLink-in bs p ends (inl (inr i)) = inr (IsHead-left start p xs (bs ++ ys) i)
  IsLink-in bs p ends (inr i) = inr (
      IsHead-right start p xs (bs ++ ys) (
        subst (λ a. IsHead a (bs ++ ys) p) at
          (IsHead-right h p bs ys (subst (λ a. IsHead a ys p) (sym ends) i))))

  -- Memory that changed inside the free block at most, and holds other blocks there.
  replaced :
      (m' : Words) (bs : List Block)
      → block_end h bs ≡ h + 16 * n
      → Tiles m' h bs (h + 16 * n)
      → ((x : ℕ) → (x < h) ⊎ (h + 16 * n ≤ x) → m' x ≡ m x)
      → Tiles m' start (xs ++ (bs ++ ys)) stop
  replaced m' bs ends inner same =
      let left' : Tiles m' start xs h =
        Tiles-kept m m' start h xs (λ x i. same x (inl (IsTag-between m start h x xs around.0 i).1))
          around.0 in
      let right' : Tiles m' (h + 16 * n) ys stop =
        Tiles-kept m m' (h + 16 * n) stop ys
          (λ x i. same x (inr (IsTag-between m (h + 16 * n) stop x ys around.4 i).0)) around.4 in
      let inner' : Tiles m' h (bs ++ ys) stop =
        Tiles-join m' h stop bs ys (subst (Tiles m' h bs) (sym ends) inner)
          (subst (λ a. Tiles m' a ys stop) (sym ends) right') in
      Tiles-join m' start stop xs (bs ++ ys) (subst (Tiles m' start xs) at left')
        (subst (λ a. Tiles m' a (bs ++ ys) stop) at inner')

  -- The links of the neighbours in the list, whatever they are set to.
  linked :
      (m' : Words) (bs : List Block) (v w : ℕ)
      → block_end h bs ≡ h + 16 * n
      → Tiles m' start (xs ++ (bs ++ ys)) stop
      → Tiles
          (write_if (write_if m' (next_free m h) 16 v) (prev_free m h) 8 w)
          start
          (xs ++ (bs ++ ys))
          stop
  linked m' bs v w ends t =
      write_if-Tiles (write_if m' (next_free m h) 16 v) start stop (prev_free m h) 8 w
        (xs ++ (bs ++ ys)) (IsLink-in bs (prev_free m h) ends prev_link) (omega arith) (omega arith)
        (write_if-Tiles m' start stop (next_free m h) 16 v (xs ++ (bs ++ ys))
          (IsLink-in bs (next_free m h) ends next_link) (omega arith) (omega arith) t)

  -- A link lies outside of the free block.
  link-outside :
      (p : ℕ)
      → IsLink start xs p ⊎ IsHead (h + 16 * n) ys p
      → (p ≡ 0) ⊎ ((p + 32 ≤ h) ⊎ (h + 16 * n ≤ p))
  link-outside p (inl (inl e)) = inl e
  link-outside p (inl (inr i)) = inr (inl (IsHead-between m start h p xs around.0 i).1)
  link-outside p (inr i) = inr (inr (IsHead-between m (h + 16 * n) stop p ys around.4 i).0)

  -- The links of the neighbours, when the block has changed.
  relinks :
      (m' : Words) (v w : ℕ)
      → ((x : ℕ) → (x < h) ⊎ (h + 16 * n ≤ x) → m' x ≡ m x)
      → Relinked s h n (next_free m h) (prev_free m h) v w (record s {
        words = write_if (write_if m' (next_free m h) 16 v) (prev_free m h) 8 w;
        freelist_head = if prev_free m h == 0 then w else s.freelist_head;
      })
  relinks m' v w same =
      let free : List Block = record { state = 0; size = n } ∷ [] in
      relinked s h n (next_free m h) (prev_free m h) v w start stop (xs ++ (free ++ ys)) m m' tiles
        (IsLink-in free (next_free m h) refl next_link)
        (IsLink-in free (prev_free m h) refl prev_link) same

  allocate_as-whole :
      (real left : ℕ)
      → real ≡ 2 * n
      → left ≡ 0
      → ((allocate_as s h size real left).0 ≡ h + 8)
        × Tiles
            (allocate_as s h size real left).1.words
            start
            (xs ++ ((record { state = 1; size = n } ∷ []) ++ ys))
            stop
        × Relinked s h n
            (next_free m h)
            (prev_free m h)
            (prev_free m h)
            (next_free m h)
            (allocate_as s h size real left).1
  unfolding allocate_as
  allocate_as-whole real left r l =
      let half : real / 2 ≡ n = omega arith in
      let m2 : Words = put_tags m h 1 n size in
      let k = put_tags-Tagged m h 1 n size (omega arith) around.3 small (omega (arith, end-le)) in
      let bs : List Block = record { state = 1; size = n } ∷ [] in
      let same : (x : ℕ) → (x < h) ⊎ (h + 16 * n ≤ x) → m2 x ≡ m x =
        λ x out. k.others x (omega (arith, around.3)) (omega (arith, around.3)) in
      let t = replaced m2 bs refl (k.first, k.last, around.3, refl) same in
      rw (allocate_as, l, half)
        (
          refl,
          linked m2 bs (prev_free m h) (next_free m h) refl t,
          relinks m2 (prev_free m h) (next_free m h) same,
        )

  allocate_as-part :
      (real left : ℕ)
      → real ≡ 2 * units size
      → left ≡ 2 * (n - units size)
      → units size + 2 ≤ n
      → ((allocate_as s h size real left).0 ≡ h + 8)
        × Tiles
            (allocate_as s h size real left).1.words
            start
            (xs
              ++ ((record { state = 1; size = units size }
                    ∷ record { state = 0; size = n - units size }
                    ∷ [])
                  ++ ys))
            stop
        × Relinked s h n
            (next_free m h)
            (prev_free m h)
            (h + 16 * units size)
            (h + 16 * units size)
            (allocate_as s h size real left).1
        × (next_free (allocate_as s h size real left).1.words (h + 16 * units size) ≡ next_free m h)
        × (prev_free (allocate_as s h size real left).1.words (h + 16 * units size) ≡ prev_free m h)
  unfolding allocate_as
  allocate_as-part real left r l more =
      let q = units size in
      let two : 2 ≤ q = omega arith in
      let half : real / 2 ≡ q = omega arith in
      let half' : left / 2 ≡ n - q = omega arith in
      let some_left : (left == 0) ≡ false = ground arith in
      let behind_it : h + 8 * real ≡ h + 16 * q = omega arith in
      let rest = h + 16 * q in
      let m2 : Words = put_tags m h 1 q size in
      let m4 : Words = put_tags m2 rest 0 (n - q) 0 in
      let m5 : Words =
        write_word (write_word m4 (rest + 8) (next_free m h)) (rest + 16) (prev_free m h) in
      let e = end-le in
      let k = put_tags-Tagged m h 1 q size (omega arith) two (omega arith) (omega arith) in
      let k' =
        put_tags-Tagged m2 rest 0 (n - q) 0 (omega arith) (omega arith) (omega arith)
          (omega arith) in
      let bs : List Block =
        record { state = 1; size = q } ∷ record { state = 0; size = n - q } ∷ [] in
      let ends : block_end h bs ≡ h + 16 * n = omega arith in
      let last' : rest + 16 * (n - q) ≡ h + 16 * n = omega arith in
      let links : (x : ℕ) → x ≢ rest + 8 → x ≢ rest + 16 → m5 x ≡ m4 x = λ x n8 n16.
        write-other (write_word m4 (rest + 8) (next_free m h)) (rest + 16) (prev_free m h) x n16
        ∙ write-other m4 (rest + 8) (next_free m h) x n8 in
      let same : (x : ℕ) → (x < h) ⊎ (h + 16 * n ≤ x) → m5 x ≡ m x = λ x out.
        links x (omega arith) (omega arith)
        ∙ k'.others x (omega arith) (omega arith)
        ∙ k.others x (omega arith) (omega arith) in
      let t =
        replaced m5 bs ends
          (
            IsTagged-kept m2 m5 h 1 q
                (links h (omega arith) (omega arith) ∙ k'.others h (omega arith) (omega arith))
                k.first,
            IsTagged-kept m2 m5 (h + 16 * q - 8) 1 q
                (links (h + 16 * q - 8) (omega arith) (omega arith)
                  ∙ k'.others (h + 16 * q - 8) (omega arith) (omega arith))
                k.last,
            two,
            (
              IsTagged-kept m4 m5 rest 0 (n - q) (links rest (omega arith) (omega arith)) k'.first,
              IsTagged-kept m4 m5 (rest + 16 * (n - q) - 8) 0 (n - q)
                  (links (rest + 16 * (n - q) - 8) (omega arith) (omega arith)) k'.last,
              omega arith,
              last',
            ),
          )
          same in
      let out_next = link-outside (next_free m h) next_link in
      let out_prev = link-outside (prev_free m h) prev_link in
      let m6 : Words = write_if m5 (next_free m h) 16 rest in
      let kept : (x : ℕ)
          → (h ≤ x)
          → (x < h + 16 * n)
          → write_if m6 (prev_free m h) 8 rest x ≡ m5 x =
        λ x from to.
          write_if-other m6 (prev_free m h) 8 rest x
            (word-outside h n (prev_free m h) 8 x out_prev (omega arith) from to)
          ∙ write_if-other m5 (next_free m h) 16 rest x
              (word-outside h n (next_free m h) 16 x out_next (omega arith) from to) in
      rw (allocate_as, some_left, half, half', behind_it)
        (
          refl,
          linked m5 bs rest rest ends t,
          relinks m5 rest rest same,
          kept (rest + 8) (omega arith) (omega arith) ∙ ground arith,
          kept (rest + 16) (omega arith) (omega arith) ∙ ground arith,
        )

-- The heap lies below 2 ^ 64 and consists of blocks side by side; one of them is free, smaller than
-- 2 ^ 28 units and large enough for the request, which is not 0; and its two links are NULL or other
-- blocks. Then `sf_allocate` returns the address behind its header, and the heap consists of the same
-- blocks but for that one: it is in use as a whole if no more than one unit of 16 bytes would be left,
-- and else it is a block in use of just the units that the request needs, and behind that a free one of
-- the others. In the free list the block gives way to that rest, or leaves it; outside of the block and
-- of the two links to it no word changes, and nothing of the heap but the head of the list.
pub sf_allocate-Tiles :
    (s : SfHeap) (h size n start stop : ℕ) (xs ys : List Block)
    → Tiles s.words start (xs ++ (record { state = 0; size = n } ∷ ys)) stop
    → h ≡ block_end start xs
    → n < 2 ^ 28
    → stop ≤ 2 ^ 64
    → 1 ≤ size
    → units size ≤ n
    → IsLink start xs (next_free s.words h) ⊎ IsHead (h + 16 * n) ys (next_free s.words h)
    → IsLink start xs (prev_free s.words h) ⊎ IsHead (h + 16 * n) ys (prev_free s.words h)
    → ((sf_allocate s h size).0 ≡ h + 8)
      × Tiles (sf_allocate s h size).1.words start (xs ++ (parts n (units size) ++ ys)) stop
      × Relinks s h n (units size) (sf_allocate s h size).1
unfolding sf_allocate
sf_allocate-Tiles s h size n start stop xs ys tiles at small inside wanted fits next prev =
    let (l, first, last, least, r) =
      around s h size n start stop xs ys tiles at small inside wanted fits next prev in
    let real = real_words (2 * block_size s.words h) (needed_words size) in
    let left = (2 * block_size s.words h + 2 ^ 64 - real) % 2 ^ 64 in
    let real' : real ≡ real_words (2 * n) (needed_words size) =
      ap (λ z. real_words (2 * z) (needed_words size)) first.size_is in
    let of_size = first.size_is in
    elim (Bool-cases (ltb n (units size + 2))) [
      | inl whole ↦
          let e : real ≡ 2 * n = real' ∙ real_whole n size least small whole in
          let none' : left ≡ 0 = omega (arith, e, of_size) in
          rw (sf_allocate, whole)
            (let (address, t, relinked') =
                allocate_as-whole s h size n start stop xs ys tiles at small inside wanted fits next
                  prev real left e none' in
              (address, t, (relinked', inl (ground (arith, whole)))))
      | inr part ↦
          let e : real ≡ 2 * units size = real' ∙ real_part n size least small part in
          let more : units size + 2 ≤ n = ground (arith, part) in
          let some' : left ≡ 2 * (n - units size) = omega (arith, e, of_size) in
          rw (sf_allocate, part)
            (let (address, t, relinked', on, back) =
                allocate_as-part s h size n start stop xs ys tiles at small inside wanted fits next
                  prev real left e some' more in
              (address, t, (relinked', inr (on, back))))
    ]
