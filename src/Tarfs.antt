-- ===== src/Tarfs.antt =====
-- sys/tarfs.c: the files in the archive that the kernel carries, from `tarfs_start` to `tarfs_end`.
-- An address, a size and an offset are the bit patterns of words of 64 bits.
pub mod Lookup
mod Tests
use sbu_os.Prelude.{
  ℕ, zero, suc, ◌+◌, ◌-◌, ◌*◌, ◌/◌, ◌%◌, ◌^◌, Bool, true, false, not, ◌||◌, Option, none, some, ltb,
  ◌==◌, if◌then◌else◌, ◌>>=◌,
}
use sbu_os.Memory.{Ram, memcpy, streq}

-- The loop `for(c=str; *c; c++)`; `none`: the fuel ran out.
unfoldable pub end_from : (fuel : ℕ) → Ram → (c : ℕ) → Option ℕ
end_from zero m c = none
end_from (suc fuel) m c = let rest = end_from fuel m (c + 1) in if m c == 0 then some c else rest

-- `str[len]-'0'`, an `int`, as the bit pattern of 32 bits; a `char` has a sign.
abbrev pub digit : (c : ℕ) → ℕ
digit c = (if ltb c 128 then c + 2 ^ 32 - b'0' else c + 2 ^ 32 - 256 - b'0') % 2 ^ 32

-- `digit << count` in 32 bits, where the shift takes the count below 32, as a `long long`.
abbrev pub shifted : (digit' count : ℕ) → ℕ
shifted digit' count =
    let x = digit' * 2 ^ (count % 32) % 2 ^ 32 in if ltb x (2 ^ 31) then x else x + 2 ^ 64 - 2 ^ 32

-- The loop over `len`, from `left - 1` down to 0. `accu` is the bit pattern of a `long long`.
unfoldable pub oct_loop : Ram → (str left index accu : ℕ) → ℕ
oct_loop m str zero index accu = accu
oct_loop m str (suc left) index accu =
    oct_loop m str left (index + 1) ((accu + shifted (digit (m (str + left))) (index * 3)) % 2 ^ 64)

-- `read_oct`
unfoldable pub read_oct : (fuel : ℕ) → Ram → (str : ℕ) → Option ℕ
unfolding end_from oct_loop
read_oct fuel m str = do c ← end_from fuel m str; some (oct_loop m str (c - str) 0 0)

-- `x >> 9` of a signed word.
abbrev pub shift_9 : ℕ → ℕ
shift_9 x = if ltb x (2 ^ 63) then x / 512 else x / 512 + 2 ^ 64 - 2 ^ 55

-- `a > b` of signed words of 64 bits.
abbrev pub greater : ℕ → ℕ → Bool
greater a b = ltb ((b + 2 ^ 63) % 2 ^ 64) ((a + 2 ^ 63) % 2 ^ 64)

-- `((((size-1)>>9)+1)<<9) + 512`, by which `cursor` moves on.
abbrev pub step : (size : ℕ) → ℕ
step size = (shift_9 ((size + 2 ^ 64 - 1) % 2 ^ 64) + 1) * 512 % 2 ^ 64 + 512

-- `&((posix_header_ustar*)cursor)->size`
abbrev pub size_field : (cursor : ℕ) → ℕ
size_field cursor = cursor + 124

-- `while(cursor<tarfs_end)` and `if(name[0] == 0) break`
abbrev pub at_end : Ram → (tarfs_end cursor : ℕ) → Bool
at_end m tarfs_end cursor = not (ltb cursor tarfs_end) || m cursor == 0

-- Strings are read with the fuel `text`; `none`: that ran out.
module _ (text : ℕ) (m : Ram) (tarfs_start tarfs_end : ℕ) where
  -- The loop that `tarfs_read`, `tarfs_find_offset` and `tarfs_file_info` share: the header with the
  -- name, and its size, if there is one.
  unfoldable pub find_header : (fuel path cursor : ℕ) → Option (Option (ℕ × ℕ))
  find_header zero path cursor = none
  find_header (suc fuel) path cursor = if at_end m tarfs_end cursor then some none else (do
    file_size ← read_oct text m (size_field cursor)
    found ← streq text m cursor (path + 1)
    let rest = find_header fuel path ((cursor + step file_size) % 2 ^ 64)
    if found then some (some (cursor, file_size)) else rest)

  -- `tarfs_find_offset`
  unfoldable pub tarfs_find_offset : (fuel file_path : ℕ) → Option ℕ
  tarfs_find_offset fuel file_path = do
    header ← find_header fuel file_path tarfs_start
    some (elim header [ none ↦ 0 | some (cursor, file_size) ↦ cursor + 512 ])

  -- `tarfs_file_info`: `mem_offset`, and `size`, which is not set for a file that is not there.
  unfoldable pub tarfs_file_info : (fuel file_path : ℕ) → Option (ℕ × Option ℕ)
  tarfs_file_info fuel file_path = do
    header ← find_header fuel file_path tarfs_start
    some (elim header [
      | none ↦ (0, none)
      | some (cursor, file_size) ↦ (cursor + 512, some file_size)
    ])

  -- `tarfs_read` behind the search. The result -1 is `none`; otherwise the number of bytes, with the
  -- memory.
  unfoldable pub copy_out : (buffer size offset : ℕ) → Option (ℕ × ℕ) → Option ℕ × Ram
  copy_out buffer size offset none = (none, m)
  copy_out buffer size offset (some (cursor, file_size)) =
      let left = (file_size + 2 ^ 64 - offset) % 2 ^ 64 in
      let size_to_copy = if greater left size then size else left in
      if greater size_to_copy 0
      then (some size_to_copy, memcpy m buffer (cursor + 512 + offset) size_to_copy)
      else (none, m)

  -- `tarfs_read`
  unfoldable pub tarfs_read : (fuel file_path buffer size offset : ℕ) → Option (Option ℕ × Ram)
  unfolding find_header copy_out
  tarfs_read fuel file_path buffer size offset = do
    header ← find_header fuel file_path tarfs_start
    some (copy_out buffer size offset header)
