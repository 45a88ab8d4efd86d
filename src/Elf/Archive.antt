-- ===== src/Elf/Archive.antt =====
-- `read_elf_tarfs` of sys/elf64.c reads with `tarfs_read` of sys/tarfs.c, which keeps the laws of a reader.
use sbu_os.Prelude.{
  ℕ, zero, suc, ◌+◌, ◌-◌, ◌%◌, ◌^◌, ◌≤◌, ◌<◌, ◌≡◌, ◌⊎◌, inl, inr, refl, ap, ap₂, sym, ◌∙◌, Option,
  none, some, List, [], ◌∷◌, arith, ltb, leb, ◌&&◌, if◌then◌else◌, ◌>>=◌, length, min, take, drop,
  ◌==◌, Bool-cases, true,
}
use sbu_os.Memory.{Ram}
use sbu_os.Memory.Laws.{within}
use sbu_os.Memory.Text.{CString}
use sbu_os.Tarfs.{greater, copy_out, tarfs_read}
use sbu_os.Tarfs.Lookup.{File, Archive, lookup, find_header-lookup, tarfs_read-copies}
use sbu_os.Elf.{
  Reader, full_read, e_phoff, e_phnum, e_entry, has_sig, elf64_sig, read_elf, read_elf_tarfs,
}
use sbu_os.Elf.Table.{Reads, fits, table, read_elf-table}

-- The bytes of the memory from an address on.
abbrev pub bytes_from : Ram → (a count : ℕ) → List ℕ
bytes_from m a zero = []
bytes_from m a (suc count) = m a ∷ bytes_from m (a + 1) count

length-bytes_from : (m : Ram) (a count : ℕ) → length (bytes_from m a count) ≡ count
length-bytes_from m a zero = refl
length-bytes_from m a (suc count) = ap (λ n. suc n) (length-bytes_from m (a + 1) count)

take-bytes_from :
    (m : Ram) (a size n : ℕ) → size ≤ n → take size (bytes_from m a n) ≡ bytes_from m a size
take-bytes_from m a zero n l = refl
take-bytes_from m a (suc size) zero l = absurd (omega arith)
take-bytes_from m a (suc size) (suc n) l =
    ap (λ bs. m a ∷ bs) (take-bytes_from m (a + 1) size n (omega arith))

window-bytes_from :
    (m : Ram) (a offset size n : ℕ)
    → offset + size ≤ n
    → take size (drop offset (bytes_from m a n)) ≡ bytes_from m (a + offset) size
window-bytes_from m a zero size n l =
    take-bytes_from m a size n (omega arith) ∙ ap (λ b. bytes_from m b size) (omega arith)
window-bytes_from m a (suc offset) size zero l = absurd (omega arith)
window-bytes_from m a (suc offset) size (suc n) l =
    window-bytes_from m (a + 1) offset size n (omega arith)
    ∙ ap (λ b. bytes_from m b size) (omega arith)

same-bytes_from :
    (m m' : Ram) (a b count : ℕ)
    → ((k : ℕ) → k < count → m' (b + k) ≡ m (a + k))
    → bytes_from m' b count ≡ bytes_from m a count
same-bytes_from m m' a b zero h = refl
same-bytes_from m m' a b (suc count) h =
    ap₂ (λ x xs. x ∷ xs)
      (let e : b + 0 ≡ b = omega arith in
        let f : a + 0 ≡ a = omega arith in ap m' (sym e) ∙ h 0 (omega arith) ∙ ap m f)
      (same-bytes_from m m' (a + 1) (b + 1) count λ k l.
        let e : b + 1 + k ≡ b + (k + 1) = omega arith in
        let f : a + (k + 1) ≡ a + 1 + k = omega arith in ap m' e ∙ h (k + 1) (omega arith) ∙ ap m f)

-- What the call gives, with the bytes in the buffer.
abbrev pub got_bytes : (buffer : ℕ) → Option (Option ℕ × Ram) → Option (List ℕ)
got_bytes buffer none = none
got_bytes buffer (some (none, m)) = none
got_bytes buffer (some (some n, m)) = some (bytes_from m buffer n)

module _ (text : ℕ) (m : Ram) (tarfs_start tarfs_end fuel path buffer : ℕ) where
  -- `tarfs_read` of a file as a reader: the archive stays, since the buffer is apart from it.
  abbrev pub tarfs_reader : Reader Ram
  unfolding tarfs_read
  tarfs_reader offset size s =
      (got_bytes buffer (tarfs_read text m tarfs_start tarfs_end fuel path buffer size offset), s)

  module _ (name : List ℕ) (fs : List File) (c n : ℕ)
      (archive : Archive text m tarfs_start tarfs_end tarfs_start fs)
      (named : CString m (path + 1) name) (rounds : length fs < fuel)
      (found : lookup text m tarfs_start tarfs_end name tarfs_start fs ≡ some (c, n))
      (room : n < 2 ^ 63) (apart : (buffer ≤ c + 512) ⊎ (c + 512 + n ≤ buffer)) where
    at_the_end :
        (size : ℕ)
        → 0 < size
        → size < 2 ^ 63
        → tarfs_read text m tarfs_start tarfs_end fuel path buffer size n ≡ some (none, m)
    unfolding tarfs_read copy_out
    at_the_end size s small =
        let e =
          find_header-lookup text m tarfs_start tarfs_end fuel path tarfs_start name fs archive
            named rounds
          ∙ ap some found in
        let left : (n + 2 ^ 64 - n) % 2 ^ 64 ≡ 0 = omega (arith, room) in
        let least : (if greater 0 size then size else 0) ≡ 0 = ground (arith, small) in
        rw (tarfs_read, e, ◌>>=◌, copy_out, left, least) refl

    -- A read inside the file.
    inside :
        (offset size : ℕ)
        → 0 < size
        → size < 2 ^ 63
        → offset < n
        → (tarfs_reader offset size m).0
          ≡ some (bytes_from m (c + 512 + offset) (min size (n - offset)))
    unfolding tarfs_reader tarfs_read
    inside offset size s small l =
        let (m', e, at) =
          tarfs_read-copies text m tarfs_start tarfs_end fuel path buffer size offset name fs c n
            archive named rounds found s small l room
            (elim apart [ inl h ↦ inl (omega arith) | inr h ↦ inr h ]) in
        ap (got_bytes buffer) e
        ∙ ap some (
            same-bytes_from m m' (c + 512 + offset) buffer (min size (n - offset)) λ k less.
              let here : within (buffer + k) buffer (min size (n - offset)) ≡ true =
                ground (arith, less) in
              let back : buffer + k - buffer ≡ k = omega arith in
              at (buffer + k) ∙ rw (here, back) refl)

    -- The file in the archive is read as the laws say.
    pub tarfs_reader-Reads : Reads tarfs_reader (bytes_from m (c + 512) n) (λ s. Unit {0})
    unfolding tarfs_reader tarfs_read
    tarfs_reader-Reads =
        let size_is = length-bytes_from m (c + 512) n in
        record {
          enough = λ s offset size good more l.
              let least : min size (n - offset) ≡ size = ground (arith, l, size_is) in
              inside offset size more (omega (arith, room, size_is)) (omega (arith, size_is))
              ∙ ap (λ k. some (bytes_from m (c + 512 + offset) k)) least
              ∙ ap some
                  (sym (window-bytes_from m (c + 512) offset size n (omega (arith, size_is))));
          short = λ s offset size good more small l k. elim (Bool-cases (offset == n)) [
            | inl end ↦
                let e : offset ≡ n = ground (arith, end) in
                rw e (ap (λ o. full_read size (got_bytes buffer o)) (at_the_end size more small))
            | inr before ↦
                let less : offset < n = ground (arith, l, size_is, before) in
                let short' : ltb (length (bytes_from m (c + 512 + offset) (min size (n - offset))))
                      size
                    ≡ true =
                  ground (
                    arith,
                    k,
                    size_is,
                    length-bytes_from m (c + 512 + offset) (min size (n - offset)),
                  ) in
                ap (full_read size) (inside offset size more small less) ∙ rw short' refl
          ];
          keeps = λ s offset size good. good;
        }

    pub read_elf_tarfs-table :
        e_phoff (bytes_from m (c + 512) n) ≤ n
        → let file = bytes_from m (c + 512) n in
          (read_elf_tarfs tarfs_reader m).0 ≡ (
            if leb 64 n && has_sig file elf64_sig 0 && fits file (e_phnum file) (e_phoff file)
            then table file (e_phnum file) (e_phoff file) (e_entry file)
            else [])
    unfolding read_elf_tarfs read_elf
    read_elf_tarfs-table l =
        let file = bytes_from m (c + 512) n in
        let size_is = length-bytes_from m (c + 512) n in
        read_elf-table tarfs_reader file (λ s. Unit {0}) m tarfs_reader-Reads
          (omega (arith, room, size_is)) tt (omega (arith, l, size_is))
        ∙ ap
            (λ k.
              if leb 64 k && has_sig file elf64_sig 0 && fits file (e_phnum file) (e_phoff file)
              then table file (e_phnum file) (e_phoff file) (e_entry file)
              else [])
            size_is
