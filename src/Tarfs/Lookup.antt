-- ===== src/Tarfs/Lookup.antt =====
-- The archive as a list of files.
use sbu_os.Prelude.{
  ℕ, zero, suc, ◌+◌, ◌-◌, ◌%◌, ◌^◌, ◌≤◌, ◌<◌, ◌≡◌, ◌⊎◌, refl, ap, ◌∙◌, sym, true, false, Option,
  none, some, List, [], ◌∷◌, arith, if◌then◌else◌, ◌>>=◌, length, min, if-ap,
}
use sbu_os.Memory.{Ram, memcpy}
use sbu_os.Memory.Laws.{within, memcpy_lem}
use sbu_os.Memory.Text.{CString, same, streq-same}
use sbu_os.Tarfs.{
  read_oct, step, size_field, greater, at_end, find_header, tarfs_find_offset, tarfs_file_info,
  copy_out, tarfs_read,
}

-- A file: its name, and its size.
pub record File : Type 0 where
  pub name : List ℕ
  pub file_size : ℕ

module _ (text : ℕ) (m : Ram) (tarfs_start tarfs_end : ℕ) where
  -- From `cursor` on the memory holds the headers of just these files.
  abbrev pub Archive : (cursor : ℕ) → List File → Type 0
  Archive cursor [] = at_end m tarfs_end cursor ≡ true
  Archive cursor (f ∷ fs) =
      (at_end m tarfs_end cursor ≡ false)
      × CString m cursor f.name
      × (length f.name < text)
      × (read_oct text m (size_field cursor) ≡ some f.file_size)
      × Archive ((cursor + step f.file_size) % 2 ^ 64) fs

  -- The first file with the name: its header, and its size.
  abbrev pub lookup : (path : List ℕ) → (cursor : ℕ) → List File → Option (ℕ × ℕ)
  lookup path cursor [] = none
  lookup path cursor (f ∷ fs) =
      if same f.name path
      then some (cursor, f.file_size)
      else lookup path ((cursor + step f.file_size) % 2 ^ 64) fs

  pub find_header-lookup :
      (fuel path cursor : ℕ) (name : List ℕ) (fs : List File)
      → Archive cursor fs
      → CString m (path + 1) name
      → length fs < fuel
      → find_header text m tarfs_start tarfs_end fuel path cursor ≡ some (lookup name cursor fs)
  unfolding find_header
  find_header-lookup zero path cursor name fs a p h = absurd (omega arith)
  find_header-lookup (suc fuel) path cursor name [] a p h = rw a refl
  find_header-lookup (suc fuel) path cursor name (f ∷ fs) (more, n, short, size, rest) p h =
      rw (more, size, streq-same m text cursor (path + 1) f.name name n p short)
        (ap (λ r. if same f.name name then some (some (cursor, f.file_size)) else r)
            (find_header-lookup fuel path ((cursor + step f.file_size) % 2 ^ 64) name fs rest p
              (omega arith))
          ∙ sym (
              if-ap (λ r. some r) (same f.name name) (some (cursor, f.file_size))
                (lookup name ((cursor + step f.file_size) % 2 ^ 64) fs)))

  -- `tarfs_file_info` and `tarfs_find_offset` give the place of the bytes of the first file with the
  -- name behind the slash of the path, and its size, and 0 if no file has the name; it is so for as
  -- much fuel as there are files, and one.
  pub tarfs_file_info-lookup :
      (fuel path : ℕ) (name : List ℕ) (fs : List File)
      → Archive tarfs_start fs
      → CString m (path + 1) name
      → length fs < fuel
      → let file = lookup name tarfs_start fs in
        (tarfs_file_info text m tarfs_start tarfs_end fuel path
          ≡ some (elim file [ none ↦ (0, none) | some (c, n) ↦ (c + 512, some n) ]))
        × (tarfs_find_offset text m tarfs_start tarfs_end fuel path
            ≡ some (elim file [ none ↦ 0 | some (c, n) ↦ c + 512 ]))
  unfolding tarfs_file_info tarfs_find_offset
  tarfs_file_info-lookup fuel path name fs a p h =
      let e = find_header-lookup fuel path tarfs_start name fs a p h in rw e (refl, refl)

  copy_out-part :
      (buffer size offset c n : ℕ)
      → 0 < size
      → size < 2 ^ 63
      → offset < n
      → n < 2 ^ 63
      → copy_out text m tarfs_start tarfs_end buffer size offset (some (c, n))
        ≡ (some (min size (n - offset)), memcpy m buffer (c + 512 + offset) (min size (n - offset)))
  unfolding copy_out
  copy_out-part buffer size offset c n s small o short =
      let left : (n + 2 ^ 64 - offset) % 2 ^ 64 ≡ n - offset = omega (arith, o, short) in
      let e : (if greater (n - offset) size then size else n - offset) ≡ min size (n - offset) =
        ground (arith, small, short) in
      let more : greater (min size (n - offset)) 0 ≡ true = ground (arith, s, o, small, short) in
      rw (copy_out, left, e, more) refl

  -- Reading a file that is there, of less than 2^63 bytes, at an offset inside it, and with a size
  -- that is positive as a signed word, gives as many bytes as were asked for or
  -- are left, and copies just them into the buffer, if that begins in front of them or lies behind
  -- them.
  pub tarfs_read-copies :
      (fuel path buffer size offset : ℕ) (name : List ℕ) (fs : List File) (c n : ℕ)
      → Archive tarfs_start fs
      → CString m (path + 1) name
      → length fs < fuel
      → lookup name tarfs_start fs ≡ some (c, n)
      → 0 < size
      → size < 2 ^ 63
      → offset < n
      → n < 2 ^ 63
      → (buffer ≤ c + 512 + offset) ⊎ (c + 512 + n ≤ buffer)
      → (m' : Ram) × (tarfs_read text m tarfs_start tarfs_end fuel path buffer size offset
          ≡ some (some (min size (n - offset)), m'))
        × ((x : ℕ)
            → m' x ≡ (
                if within x buffer (min size (n - offset))
                then m (c + 512 + offset + (x - buffer))
                else m x))
  unfolding tarfs_read
  tarfs_read-copies fuel path buffer size offset name fs c n a p h found s small o short apart =
      let e = find_header-lookup fuel path tarfs_start name fs a p h ∙ ap some found in
      (
        memcpy m buffer (c + 512 + offset) (min size (n - offset)),
        ap (λ o. o >>= λ r. some (copy_out text m tarfs_start tarfs_end buffer size offset r)) e
            ∙ ap (λ r. some r) (copy_out-part buffer size offset c n s small o short),
        λ x. memcpy_lem m buffer (c + 512 + offset) (min size (n - offset)) x (ground arith),
      )
