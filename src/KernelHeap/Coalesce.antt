-- ===== src/KernelHeap/Coalesce.antt =====
-- `sf_coalescing` makes one free block of those that stand side by side.
use sbu_os.Prelude.{
  ℕ, ◌+◌, ◌-◌, ◌*◌, ◌/◌, ◌^◌, ◌≤◌, ◌<◌, ◌≡◌, ◌≢◌, refl, ap, sym, ◌∙◌, ◌⊎◌, inl, inr, true, false,
  some, List, [], ◌∷◌, ◌++◌, arith, ◌==◌, if◌then◌else◌, ◌>>=◌, Bool-cases, length,
}
use mathlib.Core.Path.{subst}
use sbu_os.Paging.{Words, write_word}
use sbu_os.KernelHeap.{
  SfHeap, header, next_free, prev_free, get_footer, get_header, write_if, back_free, over_free,
  sf_coalescing,
}
use sbu_os.KernelHeap.Tags.{IsTagged-kept, written-IsTagged, get_footer_at, write-other}
use sbu_os.KernelHeap.Tiles.{
  Block, block_end, Tiles, IsTag, IsHead, IsLink, Tiles-kept, Tiles-split, Tiles-join,
  IsTag-between, block_end-le, link-no_tag, IsHead-right,
}
use sbu_os.KernelHeap.Links.{Relinked, relinked, write_if-other, two-links, IsHead-IsTag}
use sbu_os.KernelHeap.Runs.{
  AllFree, ends_run, over_free-run, TilesBack, rev_onto, Tiles-back, AllFree-rev, length-rev,
  back_free-run,
}

-- A tag is not hit by the write to a link.
link-kept :
    (m m0 : Words) (a stop p d v x : ℕ) (bs : List Block)
    → Tiles m0 a bs stop
    → IsLink a bs p
    → 8 ≤ d
    → d ≤ 16
    → IsTag a bs x
    → write_if m p d v x ≡ m x
link-kept m m0 a stop p d v x bs t link l k i = elim (Bool-cases (p == 0)) [
  | inl null ↦ rw null refl
  | inr there ↦ elim link [
    | inl e ↦ absurd (ground arith)
    | inr h ↦ rw there (
        write-other m (p + d) v x
          (λ z. link-no_tag m0 a stop p d bs t h l k (subst (IsTag a bs) z i)))
  ]
]

abbrev pub free_block : ℕ → Block
free_block n = record { state = 0; size = n }

-- The units of blocks.
abbrev pub total : List Block → ℕ
total [] = 0
total (b ∷ bs) = b.size + total bs

block_end-total : (a : ℕ) (bs : List Block) → block_end a bs ≡ a + 16 * total bs
block_end-total a [] = omega arith
block_end-total a (b ∷ bs) = block_end-total (a + 16 * b.size) bs ∙ omega arith

-- Memory in which one free block takes the place of others.
merged :
    (m : Words) (start stop : ℕ) (xs ms ys : List Block)
    → Tiles m start (xs ++ (ms ++ ys)) stop
    → 2 ≤ total ms
    → total ms < 2 ^ 28
    → Tiles
        (write_word
          (write_word m (block_end start xs) (header 0 (total ms) 0))
          (block_end start xs + 16 * total ms - 8)
          (header 0 (total ms) 0))
        start
        (xs ++ (free_block (total ms) ∷ ys))
        stop
merged m start stop xs ms ys t least small =
    let a = block_end start xs in
    let n = total ms in
    let f = a + 16 * n - 8 in
    let v = header 0 n 0 in
    let m1 : Words = write_word m a v in
    let m2 : Words = write_word m1 f v in
    let (l, rest) = Tiles-split m start stop xs (ms ++ ys) t in
    let (_, r) = Tiles-split m a stop ms ys rest in
    let to : block_end a ms ≡ a + 16 * n = block_end-total a ms in
    let r' : Tiles m (a + 16 * n) ys stop = subst (λ z. Tiles m z ys stop) to r in
    let same : (x : ℕ) → (x < a) ⊎ (a + 16 * n ≤ x) → m2 x ≡ m x =
      λ x out. write-other m1 f v x (omega arith) ∙ write-other m a v x (omega arith) in
    Tiles-join m2 start stop xs (free_block n ∷ ys)
      (Tiles-kept m m2 start a xs (λ x i. same x (inl (IsTag-between m start a x xs l i).1)) l)
      (
        IsTagged-kept m1 m2 a 0 n (write-other m1 f v a (omega arith))
            (written-IsTagged m a 0 n 0 (omega arith) small),
        written-IsTagged m1 f 0 n 0 (omega arith) small,
        least,
        Tiles-kept m m2 (a + 16 * n) stop ys
            (λ x i. same x (inr (IsTag-between m (a + 16 * n) stop x ys r' i).0)) r',
      )

-- The header of the new block, and its links and those to it.
abbrev linked_words : Words → (a n prev next : ℕ) → Words
linked_words m a n prev next =
    let m1 = write_word m a (header 0 n 0) in
    let m2 = write_word (write_word m1 (a + 8) next) (a + 16) prev in
    write_if (write_if m2 next 16 a) prev 8 a

-- What `sf_coalescing` writes, and the memory of `merged`, agree on the tags.
module _ (m : Words) (start stop prev next : ℕ) (xs ms ys : List Block)
    (t : Tiles m start (xs ++ (ms ++ ys)) stop) (least : 2 ≤ total ms) (small : total ms < 2 ^ 28)
    (prev_link : IsLink start (xs ++ (free_block (total ms) ∷ ys)) prev)
    (next_link : IsLink start (xs ++ (free_block (total ms) ∷ ys)) next) where
  abbrev a : ℕ
  a = block_end start xs

  abbrev last_word : ℕ
  last_word = a + 16 * total ms - 8

  abbrev v : ℕ
  v = header 0 (total ms) 0

  abbrev m1 : Words
  m1 = write_word m a v

  abbrev m2 : Words
  m2 = write_word (write_word m1 (a + 8) next) (a + 16) prev

  abbrev m3 : Words
  m3 = linked_words m a (total ms) prev next

  abbrev blocks : List Block
  blocks = xs ++ (free_block (total ms) ∷ ys)

  tiles : Tiles (write_word m1 last_word v) start blocks stop
  tiles = merged m start stop xs ms ys t least small

  first-IsHead : IsHead start blocks a
  first-IsHead = IsHead-right start a xs (free_block (total ms) ∷ ys) (inl refl)

  m3-m1 : (x : ℕ) → IsTag start blocks x → m3 x ≡ m1 x
  m3-m1 x i =
      let mt : Words = write_word m1 last_word v in
      link-kept (write_if m2 next 16 a) mt start stop prev 8 a x blocks tiles prev_link
        (omega arith) (omega arith) i
      ∙ link-kept m2 mt start stop next 16 a x blocks tiles next_link (omega arith) (omega arith) i
      ∙ write-other (write_word m1 (a + 8) next) (a + 16) prev x (λ z.
        link-no_tag mt start stop a 16 blocks tiles first-IsHead (omega arith) (omega arith)
          (subst (IsTag start blocks) z i))
      ∙ write-other m1 (a + 8) next x (λ z.
        link-no_tag mt start stop a 8 blocks tiles first-IsHead (omega arith) (omega arith)
          (subst (IsTag start blocks) z i))

  IsTag-first : IsTag start blocks a
  IsTag-first = IsHead-IsTag start a blocks first-IsHead

  coalesced-Tiles : Tiles (write_word m3 last_word (m3 a)) start blocks stop
  coalesced-Tiles =
      let at_first : m3 a ≡ v = m3-m1 a IsTag-first ∙ ground arith in
      Tiles-kept (write_word m1 last_word v) (write_word m3 last_word (m3 a)) start stop blocks
        (λ x i. elim (Bool-cases (x == last_word)) [
          | inl here ↦ ground (arith, here, at_first)
          | inr other ↦ ground (arith, other, m3-m1 x i)
        ])
        tiles

last-IsTag :
    (a n : ℕ) (xs ys : List Block)
    → IsTag a (xs ++ (free_block n ∷ ys)) (block_end a xs + 16 * n - 8)
last-IsTag a n [] ys = inr (inl refl)
last-IsTag a n (b ∷ xs) ys = inr (inr (last-IsTag (a + 16 * b.size) n xs ys))

-- The links, when the footer is written as well.
module _ (s : SfHeap) (start stop prev next tag : ℕ) (xs ms ys : List Block)
    (t : Tiles s.words start (xs ++ (ms ++ ys)) stop) (least : 2 ≤ total ms)
    (small : total ms < 2 ^ 28) (prev_link : IsLink start (xs ++ (free_block (total ms) ∷ ys)) prev)
    (next_link : IsLink start (xs ++ (free_block (total ms) ∷ ys)) next)
    (prev_ne : prev ≢ block_end start xs) (next_ne : next ≢ block_end start xs) where
  abbrev first : ℕ
  first = block_end start xs

  abbrev footer : ℕ
  footer = first + 16 * total ms - 8

  abbrev result_blocks : List Block
  result_blocks = xs ++ (free_block (total ms) ∷ ys)

  abbrev headed : Words
  headed = write_word s.words first (header 0 (total ms) 0)

  abbrev inner : Words
  inner = write_word (write_word headed (first + 8) next) (first + 16) prev

  abbrev linked' : Words
  linked' = linked_words s.words first (total ms) prev next

  abbrev tagged : Words
  tagged = write_word headed footer (header 0 (total ms) 0)

  tagged-Tiles : Tiles tagged start result_blocks stop
  tagged-Tiles = merged s.words start stop xs ms ys t least small

  block_end-IsHead : IsHead start result_blocks first
  block_end-IsHead = IsHead-right start first xs (free_block (total ms) ∷ ys) (inl refl)

  -- The links of the new block itself.
  own_link : (e : ℕ) → (e ≡ 8) ⊎ (e ≡ 16) → linked' (first + e) ≡ inner (first + e)
  own_link e k =
      write_if-other (write_if inner next 16 first) prev 8 first (first + e) (
        two-links tagged start stop first prev 8 e result_blocks tagged-Tiles block_end-IsHead
          prev_link prev_ne (inl refl) k)
      ∙ write_if-other inner next 16 first (first + e) (
          two-links tagged start stop first next 16 e result_blocks tagged-Tiles block_end-IsHead
            next_link next_ne (inr refl) k)

  own_next : linked' (first + 8) ≡ next
  own_next = own_link 8 (inl refl) ∙ ground arith

  own_prev : linked' (first + 16) ≡ prev
  own_prev = own_link 16 (inr refl) ∙ ground arith

  -- The footer is no link.
  footer_other :
      (p d : ℕ)
      → IsHead start result_blocks p
      → 8 ≤ d
      → d ≤ 16
      → write_word linked' footer tag (p + d) ≡ linked' (p + d)
  footer_other p d i l k = write-other linked' footer tag (p + d) λ z.
      link-no_tag tagged start stop p d result_blocks tagged-Tiles i l k
        (subst (IsTag start result_blocks) (sym z) (last-IsTag start (total ms) xs ys))

  abbrev coalesced : SfHeap
  coalesced = record s {
    words = write_word linked' footer tag;
    freelist_head = if prev == 0 then first else s.freelist_head;
  }

  coalesced-Relinked :
      Relinked s first (total ms) next prev first first coalesced
      × (next_free coalesced.words first ≡ next)
      × (prev_free coalesced.words first ≡ prev)
  coalesced-Relinked =
      let r =
        relinked s first (total ms) next prev first first start stop result_blocks tagged inner
          tagged-Tiles next_link prev_link
          (λ x out.
            write-other (write_word headed (first + 8) next) (first + 16) prev x (omega arith)
            ∙ write-other headed (first + 8) next x (omega arith)
            ∙ write-other s.words first (header 0 (total ms) 0) x (omega arith)) in
      (
        record {
          next_link = elim r.next_link [
            | inl null ↦ inl null
            | inr back ↦ elim next_link [
              | inl null ↦ inl null
              | inr i ↦ inr (footer_other next 16 i (omega arith) (omega arith) ∙ back)
            ]
          ];
          prev_link = elim r.prev_link [
            | inl null ↦ inl null
            | inr (ne, on, head) ↦ elim prev_link [
              | inl null ↦ absurd (ne null)
              | inr i ↦ inr (ne, footer_other prev 8 i (omega arith) (omega arith) ∙ on, head)
            ]
          ];
          others = λ x out n p.
              write-other linked' footer tag x (omega (arith, least)) ∙ r.others x out n p;
          same_heap = r.same_heap;
        },
        footer_other first 8 block_end-IsHead (omega arith) (omega arith) ∙ own_next,
        footer_other first 16 block_end-IsHead (omega arith) (omega arith) ∙ own_prev,
      )

-- What `sf_coalescing` does to the free list, for `n` units from `a` on and the blocks `next` and `prev`
-- in the list: they lead to the one block, and it to them.
abbrev pub Joined : (s : SfHeap) (a n next prev : ℕ) (s' : SfHeap) → Type 0
Joined s a n next prev s' =
    Relinked s a n next prev a a s' × (next_free s'.words a ≡ next) × (prev_free s'.words a ≡ prev)

-- A block that is free stands between free blocks `fs` and `gs`; in front of these and behind them is a
-- tag of a block in use, or one of size 0; the heap lies below 2 ^ 64, and all of these together are
-- smaller than 2 ^ 28 units; and the links that the first of them has to the one before it in the free
-- list, and the last one to the next, are NULL or other blocks. Then `sf_coalescing` of that block, with
-- fuel for the blocks, returns the address of the first of them, and the heap consists of the same
-- blocks, but there is one free block in the place of all of these. That block has the two links, and they
-- lead back to it; outside of it and of these no word changes, and nothing of the heap but the head of
-- the list.
pub sf_coalescing-Tiles :
    (fuel : ℕ) (s : SfHeap) (h n start stop : ℕ) (xs fs gs ys : List Block)
    → Tiles s.words start (xs ++ ((fs ++ (free_block n ∷ gs)) ++ ys)) stop
    → AllFree fs
    → AllFree gs
    → h ≡ block_end (block_end start xs) fs
    → ends_run s.words (block_end start xs - 8) ≡ true
    → ends_run s.words (block_end (block_end start xs) (fs ++ (free_block n ∷ gs))) ≡ true
    → stop ≤ 2 ^ 64
    → total (fs ++ (free_block n ∷ gs)) < 2 ^ 28
    → length fs < fuel
    → length gs < fuel
    → IsLink start
        (xs ++ (free_block (total (fs ++ (free_block n ∷ gs))) ∷ ys))
        (prev_free s.words (block_end start xs))
    → IsLink start (xs ++ (free_block (total (fs ++ (free_block n ∷ gs))) ∷ ys)) (
        next_free s.words
          (get_header s.words (block_end start xs + 16 * total (fs ++ (free_block n ∷ gs)) - 8)))
    → prev_free s.words (block_end start xs) ≢ block_end start xs
    → next_free s.words
        (get_header s.words (block_end start xs + 16 * total (fs ++ (free_block n ∷ gs)) - 8))
      ≢ block_end start xs
    → (s' : SfHeap) × (sf_coalescing fuel s h false ≡ some (block_end start xs, s'))
      × Tiles s'.words start (xs ++ (free_block (total (fs ++ (free_block n ∷ gs))) ∷ ys)) stop
      × Joined s
          (block_end start xs)
          (total (fs ++ (free_block n ∷ gs)))
          (next_free s.words
            (get_header s.words (block_end start xs + 16 * total (fs ++ (free_block n ∷ gs)) - 8)))
          (prev_free s.words (block_end start xs))
          s'
unfolding sf_coalescing
sf_coalescing-Tiles fuel s h n start stop xs fs gs ys t free free' at before behind_it inside small
      l l' prev next prev_ne next_ne =
    let m = s.words in
    let ms = fs ++ (free_block n ∷ gs) in
    let a' = block_end start xs in
    let (_, t1) = Tiles-split m start stop xs (ms ++ ys) t in
    let (t2, t2') = Tiles-split m a' stop ms ys t1 in
    let (t3, (first, last, least, t4)) =
      Tiles-split m a' (block_end a' ms) fs (free_block n ∷ gs) t2 in
    let to : block_end a' ms ≡ a' + 16 * total ms = block_end-total a' ms in
    let top = block_end-le m (block_end a' ms) stop ys t2' in
    let top' = block_end-le m (block_end a' fs + 16 * n) (block_end a' ms) gs t4 in
    let low = block_end-le m a' (block_end a' fs) fs t3 in
    let footer : get_footer m h ≡ block_end a' fs + 16 * n - 8 =
      ap (get_footer m) at
      ∙ get_footer_at m (block_end a' fs) n first.size_is (omega arith) (omega arith) in
    let back : back_free fuel m h ≡ some a' =
      back_free-run fuel m h a' (rev_onto fs [])
        (subst (λ z. TilesBack m z (rev_onto fs []) a') (sym at)
          (Tiles-back m a' (block_end a' fs) a' fs [] t3 refl))
        (AllFree-rev fs [] free tt) before (omega (arith, length-rev fs [])) in
    let (last', over, ends) =
      over_free-run fuel m (block_end a' fs + 16 * n) (block_end a' ms)
        (block_end a' fs + 16 * n - 8) gs t4 free' behind_it (omega arith) l' in
    let where_last : last' ≡ a' + 16 * total ms - 8 = omega arith in
    let over' : over_free fuel m (get_footer m h) ≡ some (a' + 16 * total ms - 8) =
      ap (over_free fuel m) footer ∙ over ∙ ap some where_last in
    let size : (a' + 16 * total ms - 8 + 8 - a') / 16 ≡ total ms = omega arith in
    let result =
      coalesced-Tiles m start stop (prev_free m a')
        (next_free m (get_header m (a' + 16 * total ms - 8))) xs ms ys t (omega arith) small prev
        next in
    let w =
      linked_words m a' (total ms) (prev_free m a')
        (next_free m (get_header m (a' + 16 * total ms - 8))) in
    let s' : SfHeap = record s {
      words = write_word w (a' + 16 * total ms - 8) (w a');
      freelist_head = if w (a' + 16) == 0 then a' else s.freelist_head;
    } in
    let its_next = next_free m (get_header m (a' + 16 * total ms - 8)) in
    let its_prev =
      own_prev s start stop (prev_free m a') its_next (w a') xs ms ys t (omega arith) small prev
        next prev_ne next_ne in
    let joined =
      coalesced-Relinked s start stop (prev_free m a') its_next (w a') xs ms ys t (omega arith)
        small prev next prev_ne next_ne in
    (
      s',
      rw (sf_coalescing, back, ◌>>=◌, over', ◌>>=◌, size) refl,
      result,
      subst
          (λ z. Joined s a' (total ms) its_next (prev_free m a') (record s {
            words = write_word w (a' + 16 * total ms - 8) (w a');
            freelist_head = if z == 0 then a' else s.freelist_head;
          }))
          (sym its_prev) joined,
    )
