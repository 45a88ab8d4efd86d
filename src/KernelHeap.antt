-- ===== src/KernelHeap.antt =====
-- sys/memory/kmalloc.c, the heap of the kernel: blocks with a header and a footer, and a doubly linked
-- list of the free ones. The memory is read in words of 64 bits by the address of their first byte, and
-- NULL is 0. A header holds `alloc` in 4 bits, `block_size` in 28 bits, in units of 16 bytes, and
-- `requested_size` in 32 bits. The messages of `error` are left out: it prints and goes on.
-- `block_size << 4` is an `int`, which is written out where it is compared; a block is smaller than 2 GiB. The break is
-- a number; `kbrk` panics behind `limit`. Loops run on fuel: one round for each block, and one.
pub mod Free
pub mod Tags
pub mod Tiles
pub mod Links
pub mod Allocate
pub mod FirstFit
pub mod Runs
pub mod Coalesce
mod Tests
use sbu_os.Prelude.{
  ℕ, zero, suc, ◌+◌, ◌-◌, ◌*◌, ◌/◌, ◌%◌, ◌^◌, Bool, true, false, not, ◌&&◌, ◌||◌, Option, none,
  some, ltb, leb, ◌==◌, if◌then◌else◌, ◌>>=◌,
}
use sbu_os.Paging.{Words, write_word}

pub record SfHeap : Type 0 where
  pub words : Words
  pub heap_start_ptr : ℕ
  pub freelist_head : ℕ
  pub first_page_initialized : Bool
  pub break : ℕ

abbrev pub alloc : Words → ℕ → ℕ
alloc m h = m h % 16

abbrev pub block_size : Words → ℕ → ℕ
block_size m h = m h / 16 % 2 ^ 28

abbrev pub requested_size : Words → ℕ → ℕ
requested_size m h = m h / 2 ^ 32 % 2 ^ 32

-- A header that all three fields have been written to.
abbrev pub header : (alloc' size requested : ℕ) → ℕ
header alloc' size requested = alloc' % 16 + size % 2 ^ 28 * 16 + requested % 2 ^ 32 * 2 ^ 32

abbrev pub next_free : Words → ℕ → ℕ
next_free m h = m (h + 8)

abbrev pub prev_free : Words → ℕ → ℕ
prev_free m h = m (h + 16)

abbrev pub get_footer : Words → ℕ → ℕ
get_footer m h = (h + 16 * block_size m h - 8) % 2 ^ 64

abbrev pub get_header : Words → ℕ → ℕ
get_header m f = f + 8 - 16 * block_size m f

-- A write behind a pointer that may be NULL: `if(p != NULL) p->… = v`.
abbrev pub write_if : Words → (p offset v : ℕ) → Words
write_if m p offset v = if p == 0 then m else write_word m (p + offset) v

-- `real8Bytes` of `sf_allocate`
abbrev pub needed_words : ℕ → ℕ
needed_words size = (size + 15) / 16 * 2 + 2

-- The bytes of a block are never left with less than 32: then it is taken as a whole.
abbrev pub real_words : (available least : ℕ) → ℕ
real_words available least =
    if ltb ((available + 2 ^ 64 - 4) % 2 ^ 64) least then available else least

-- The header of a block, and the footer that it leads to.
abbrev pub put_tags : Words → (h state size requested : ℕ) → Words
put_tags m h state size requested =
    let m1 = write_word m h (header state size requested) in
    write_word m1 (get_footer m1 h) (header state (block_size m1 h) 0)

-- `sf_allocate`, behind `real8Bytes`, with `leftFree8Bytes`: its result, and the heap.
unfoldable pub allocate_as : SfHeap → (h required_size real left : ℕ) → ℕ × SfHeap
allocate_as s h required_size real left =
    let m = s.words in
    let prev = prev_free m h in
    let next = next_free m h in
    let m2 = put_tags m h 1 (real / 2) required_size in
    let rest = h + 8 * real in
    let m5 =
      write_word (write_word (put_tags m2 rest 0 (left / 2) 0) (rest + 8) next) (rest + 16) prev in
    if left == 0
    then (
      h + 8,
      record s {
        words = write_if (write_if m2 next 16 prev) prev 8 next;
        freelist_head = if prev == 0 then next else s.freelist_head;
      },
    )
    else (
      h + 8,
      record s {
        words = write_if (write_if m5 next 16 rest) prev 8 rest;
        freelist_head = if prev == 0 then rest else s.freelist_head;
      },
    )

unfoldable pub sf_allocate : SfHeap → (free_header required_size : ℕ) → ℕ × SfHeap
unfolding allocate_as
sf_allocate s h required_size =
    let available = 2 * block_size s.words h in
    let real = real_words available (needed_words required_size) in
    allocate_as s h required_size real ((available + 2 ^ 64 - real) % 2 ^ 64)

-- The first loop of `sf_coalescing`: from a header back over the free blocks.
unfoldable pub back_free : (fuel : ℕ) → Words → (h : ℕ) → Option ℕ
back_free zero m h = none
back_free (suc fuel) m h =
    let rest = back_free fuel m (h - 16 * block_size m (h - 8)) in
    if alloc m (h - 8) == 0 && not (block_size m (h - 8) == 0) then rest else some h

-- The second one: from a footer on over the free blocks.
unfoldable pub over_free : (fuel : ℕ) → Words → (f : ℕ) → Option ℕ
over_free zero m f = none
over_free (suc fuel) m f =
    let rest = over_free fuel m (f + 16 * block_size m (f + 8)) in
    if alloc m (f + 8) == 0 && not (block_size m (f + 8) == 0) then rest else some f

-- `sf_coalescing`: the header of the block that comes of it.
unfoldable pub sf_coalescing :
    (fuel : ℕ) → SfHeap → (h : ℕ) → (only_forward : Bool) → Option (ℕ × SfHeap)
unfolding back_free over_free
sf_coalescing fuel s h only_forward = do
  let m = s.words
  first ← if only_forward then some h else back_free fuel m h
  last ← over_free fuel m (get_footer m h)
  let prev = prev_free m first
  let next = next_free m (get_header m last)
  let m1 = write_word m first (header 0 ((last + 8 - first) / 16) 0)
  let m2 = write_word (write_word m1 (first + 8) next) (first + 16) prev
  let m3 = write_if (write_if m2 next 16 first) prev 8 first
  some (
    first,
    record s {
      words = write_word m3 last (m3 first);
      freelist_head = if m3 (first + 16) == 0 then first else s.freelist_head;
    },
  )

-- A 32-bit `int` as 64 bits.
abbrev pub sign_extend : ℕ → ℕ
sign_extend n = if ltb (n % 2 ^ 32) (2 ^ 31) then n % 2 ^ 32 else n % 2 ^ 32 + (2 ^ 64 - 2 ^ 32)

-- `a >= b` for 32-bit `int`s
abbrev pub int_at_least : ℕ → ℕ → Bool
int_at_least a b = leb ((b + 2 ^ 31) % 2 ^ 32) ((a + 2 ^ 31) % 2 ^ 32)

-- `kbrk`: the old break; new pages are zero.
unfoldable pub kbrk : (limit : ℕ) → SfHeap → (size : ℕ) → Option (ℕ × SfHeap)
kbrk limit s size =
    if not (size % 4096 == 0) || ltb limit (s.break + size)
    then none
    else some (
      s.break,
      record s {
        words = λ a. if leb s.break a && ltb a (s.break + size) then 0 else s.words a;
        break = s.break + size;
      },
    )

-- `sf_getMoreSpace`: where the new pages start, and their bytes.
unfoldable pub sf_get_more_space : (limit : ℕ) → SfHeap → (size : ℕ) → Option ((ℕ × ℕ) × SfHeap)
unfolding kbrk
sf_get_more_space limit s size = do
  let last = s.break - 16
  let missing =
      if s.first_page_initialized
      then (if alloc s.words last == 0
          then (size + 2 ^ 64 - 16 * block_size s.words last) % 2 ^ 64
          else size)
      else (size + 16) % 2 ^ 64
  let bytes = sign_extend ((missing + 4095) % 2 ^ 64 / 4096 * 4096)
  (start, t) ← kbrk limit s bytes
  some ((start, bytes), t)

-- `sf_initializeFreeBlock`, with the `sf_coalescing` at its end.
unfoldable pub sf_initialize_free_block :
    (fuel : ℕ) → SfHeap → (start last_block new_page_size : ℕ) → Option (ℕ × SfHeap)
unfolding sf_coalescing
sf_initialize_free_block fuel s start last_block new_page_size =
    let h = if s.first_page_initialized then start - 8 else start + 8 in
    let size = if s.first_page_initialized then new_page_size / 16 else new_page_size / 16 - 1 in
    let m1 = write_word s.words h (header 0 size 0) in
    let m2 = write_word (write_word m1 (h + 8) 0) (h + 16) last_block in
    let f = get_footer m2 h in
    let m3 = write_word m2 f (header 0 size 0) in
    let m4 = if s.first_page_initialized then m3 else write_word m3 (h - 8) 0 in
    let m5 = write_if (write_word m4 (f + 8) 0) last_block 8 h in
    sf_coalescing fuel
      (record s {
        words = m5;
        heap_start_ptr = if s.first_page_initialized then s.heap_start_ptr else h;
        freelist_head = if last_block == 0 then h else s.freelist_head;
      })
      h false

-- `checkSizeValidity`
abbrev pub check_size_validity : ℕ → Bool
check_size_validity size = not (size == 0) && leb size (4 * 2 ^ 30)

-- The loop of `sf_malloc`: `cursor`, which is NULL at the end of the list, and `lastCursor`.
unfoldable pub find_fit : (fuel : ℕ) → Words → (cursor last_cursor size_needed : ℕ) → Option (ℕ × ℕ)
find_fit zero m cursor last_cursor size_needed = none
find_fit (suc fuel) m cursor last_cursor size_needed =
    let rest = find_fit fuel m (next_free m cursor) cursor size_needed in
    if cursor == 0 || int_at_least (16 * block_size m cursor) size_needed
    then some (cursor, last_cursor)
    else rest

-- `sf_malloc`. The size it looks for is an `int`.
unfoldable pub sf_malloc : (limit fuel : ℕ) → SfHeap → (size : ℕ) → Option (ℕ × SfHeap)
unfolding find_fit sf_allocate sf_get_more_space sf_initialize_free_block sf_coalescing
sf_malloc limit fuel s size = if not (check_size_validity size) then some (0, s) else (do
  let size_needed = needed_words size * 8 % 2 ^ 32
  (cursor, last) ← find_fit fuel s.words s.freelist_head 0 size_needed
  if not (cursor == 0) then some (sf_allocate s cursor size) else (do
    ((start, bytes), t) ← sf_get_more_space limit s (sign_extend size_needed)
    (h, u) ← sf_initialize_free_block fuel t start last bytes
    (h', v) ← sf_coalescing fuel (record u { first_page_initialized = true }) h false
    some (sf_allocate v h' size)))
