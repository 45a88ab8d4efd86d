-- ===== src/KernelHeap/Free.antt =====
-- sys/memory/kmalloc.c: `checkPtrValidity`, `sf_free_of`, `sf_free`, `sf_realloc` and `sf_calloc`.
use sbu_os.Prelude.{
  ℕ, zero, suc, ◌+◌, ◌-◌, ◌*◌, ◌/◌, ◌%◌, ◌^◌, Bool, true, false, not, ◌&&◌, ◌||◌, Option, none,
  some, ltb, leb, ◌==◌, if◌then◌else◌, ◌>>=◌, max,
}
use sbu_os.Paging.{Words, write_word}
use sbu_os.KernelHeap.{
  SfHeap, alloc, block_size, requested_size, header, next_free, prev_free, get_footer, get_header,
  write_if, needed_words, sf_allocate, sf_coalescing, check_size_validity, sf_malloc,
}

-- `checkPtrValidity`
abbrev pub check_ptr_validity : SfHeap → (ptr : ℕ) → Bool
check_ptr_validity s ptr =
    let f = get_footer s.words (ptr - 8) in
    not (ltb s.break ptr || ltb ptr s.heap_start_ptr)
    && ptr % 16 == 0
    && not (
        ltb s.break f
        || ltb f s.heap_start_ptr
        || ltb f ptr
        || not (block_size s.words (ptr - 8) == block_size s.words f)
          && ltb 1 (block_size s.words f))

-- The loop of `sf_free_of` back over the blocks in use, from a header.
unfoldable pub back_used : (fuel : ℕ) → Words → (h : ℕ) → Option ℕ
back_used zero m h = none
back_used (suc fuel) m h =
    let rest = back_used fuel m (h - 16 * block_size m (h - 8)) in
    if alloc m (h - 8) == 1 && not (block_size m (h - 8) == 0) then rest else some h

-- The loop over the blocks in use behind a footer.
unfoldable pub over_used : (fuel : ℕ) → Words → (f : ℕ) → Option ℕ
over_used zero m f = none
over_used (suc fuel) m f =
    let rest = over_used fuel m (f + 16 * block_size m (f + 8)) in
    if alloc m (f + 8) == 1 && not (block_size m (f + 8) == 0) then rest else some f

-- `sf_free_of`
unfoldable pub sf_free_of : (fuel : ℕ) → SfHeap → (ptr : ℕ) → (only_forward : Bool) → Option SfHeap
unfolding back_used over_used sf_coalescing
sf_free_of fuel s ptr only_forward = if not (check_ptr_validity s ptr) then some s else (do
  let h = ptr - 8
  let m1 = write_word s.words h (header 0 (block_size s.words h) 0)
  let f = get_footer m1 h
  let m2 = write_word m1 f (header 0 (block_size m1 f) 0)
  first ← back_used fuel m2 h
  let prev = if block_size m2 (first - 8) == 0 then 0 else first - 16 * block_size m2 (first - 8)
  last ← over_used fuel m2 (get_footer m2 h)
  let next =
      if block_size m2 (last + 8) == 0
      then 0
      else get_header m2 (last + 16 * block_size m2 (last + 8))
  let m3 = write_word (write_word m2 (h + 8) next) (h + 16) prev
  let m4 = write_if (write_if m3 next 16 h) prev 8 h
  (merged, t) ←
      sf_coalescing fuel
        (record s { words = m4; freelist_head = if m4 (h + 16) == 0 then h else s.freelist_head }) h
        only_forward
  some t)

unfoldable pub sf_free : (fuel : ℕ) → SfHeap → (ptr : ℕ) → Option SfHeap
unfolding sf_free_of
sf_free fuel s ptr = sf_free_of fuel s ptr false

-- `memcpy` of bytes between regions that lie apart and start at words.
abbrev pub copy_bytes : Words → (dest src n : ℕ) → Words
copy_bytes m dest src n a =
    if leb dest a && leb (a + 8) (dest + n)
    then m (src + (a - dest))
    else if leb dest a && ltb a (dest + n)
    then m a / 2 ^ (8 * (n % 8)) * 2 ^ (8 * (n % 8)) + m (src + (a - dest)) % 2 ^ (8 * (n % 8))
    else m a

-- `memset` of bytes to 0 from a word on.
abbrev pub zero_bytes : Words → (dest n : ℕ) → Words
zero_bytes m dest n a =
    if leb dest a && leb (a + 8) (dest + n)
    then 0
    else if leb dest a && ltb a (dest + n)
    then m a / 2 ^ (8 * (n % 8)) * 2 ^ (8 * (n % 8))
    else m a

-- The size in bytes that a block takes for a request.
abbrev pub real_size : ℕ → ℕ
real_size size = needed_words size * 8

-- The branch that grows a block into the free one behind it.
unfoldable pub realloc_merge : (fuel : ℕ) → SfHeap → (ptr size : ℕ) → Option (ℕ × SfHeap)
unfolding sf_free_of sf_allocate
realloc_merge fuel s ptr size = do
  let h = ptr - 8
  let data_in_next = next_free s.words h
  let data_in_prev = prev_free s.words h
  t ← sf_free_of fuel s (h + 8) true
  let (p, u) = sf_allocate t h size
  let m = write_word (write_word u.words (p - 8 + 16) data_in_prev) (p - 8 + 8) data_in_next
  some (p, record u { words = m })

-- The branch that moves the data to a new block.
unfoldable pub realloc_move : (limit fuel : ℕ) → SfHeap → (ptr size : ℕ) → Option (ℕ × SfHeap)
unfolding sf_malloc sf_free
realloc_move limit fuel s ptr size = do
  (new_space, t) ← sf_malloc limit fuel s size
  if new_space == 0 then some (0, t) else (do
    let m = copy_bytes t.words new_space ptr (requested_size t.words (ptr - 8))
    u ← sf_free fuel (record t { words = m }) ptr
    some (new_space, u))

-- The branch that breaks the block down.
unfoldable pub realloc_split : (fuel : ℕ) → SfHeap → (ptr size : ℕ) → Option (ℕ × SfHeap)
unfolding sf_free
realloc_split fuel s ptr size = do
  let h = ptr - 8
  let old = 16 * block_size s.words h
  let m1 = write_word s.words h (header (alloc s.words h) (real_size size / 16) size)
  let f = get_footer m1 h
  let m2 = write_word m1 f (header 1 (block_size m1 h) size)
  let freed = f + 8
  let m3 = write_word m2 freed (header 1 ((old + 2 ^ 64 - real_size size) % 2 ^ 64 / 16) 0)
  let m4 = write_word m3 (get_footer m3 freed) (m3 freed)
  t ← sf_free fuel (record s { words = m4 }) (freed + 8)
  some (ptr, t)

-- `requested_size` of a header.
abbrev pub with_requested : ℕ → ℕ → ℕ
with_requested w size = w % 2 ^ 32 + size % 2 ^ 32 * 2 ^ 32

-- `sf_realloc`
unfoldable pub sf_realloc : (limit fuel : ℕ) → SfHeap → (ptr size : ℕ) → Option (ℕ × SfHeap)
unfolding realloc_merge realloc_move realloc_split
sf_realloc limit fuel s ptr size =
    if not (check_size_validity size) || not (check_ptr_validity s ptr)
    then some (0, s)
    else (let h = ptr - 8 in
        let m = s.words in
        let old = 16 * block_size m h in
        let next_header = h + 16 * block_size m h in
        let total =
          if alloc m next_header == 0
          then (old + 16 * block_size m next_header + 2 ^ 64 - 16) % 2 ^ 64
          else old in
        if ltb old (real_size size)
        then (if leb (real_size size) total
            then realloc_merge fuel s ptr size
            else realloc_move limit fuel s ptr size)
        else if ltb (max old 32 - 32) (real_size size)
        then (let m1 = write_word m h (with_requested (m h) size) in
            some (
              ptr,
              record s {
                words =
                    write_word m1 (get_footer m1 h) (with_requested (m1 (get_footer m1 h)) size);
              },
            ))
        else realloc_split fuel s ptr size)

-- `sf_calloc`
unfoldable pub sf_calloc : (limit fuel : ℕ) → SfHeap → (nmemb size : ℕ) → Option (ℕ × SfHeap)
unfolding sf_malloc
sf_calloc limit fuel s nmemb size =
    let bytes = nmemb * size % 2 ^ 64 in
    if not (check_size_validity bytes) then some (0, s) else (do
      (new_space, t) ← sf_malloc limit fuel s bytes
      some (
        new_space,
        if new_space == 0 then t else record t { words = zero_bytes t.words new_space bytes },
      ))
