-- ===== src/Elf/Table.antt =====
-- The sections are the program headers of the file.
use sbu_os.Prelude.{
  ℕ, zero, suc, ◌+◌, ◌*◌, ◌%◌, ◌^◌, ◌≤◌, ◌<◌, ◌≡◌, refl, ap, ap₂, ◌∙◌, inl, inr, Bool, true, false,
  ◌&&◌, none, some, List, [], ◌∷◌, arith, ltb, leb, ◌==◌, if◌then◌else◌, Bool-cases, get_or, take,
  drop, length, length-take, length-drop,
}
use sbu_os.Elf.{
  Section, field_at, e_entry, e_phoff, e_phnum, section_from, elf64_sig, has_sig, Reader, full_read,
  read_sections, read_elf,
}

-- A byte in a window of the file.
get_or-window :
    (xs : List ℕ) (i n j k : ℕ)
    → k ≡ i + j
    → j < n
    → get_or (take n (drop i xs)) j 0 ≡ get_or xs k 0
get_or-window [] zero zero j k e l = absurd (omega arith)
get_or-window [] zero (suc n) j k e l = refl
get_or-window [] (suc i) zero j k e l = absurd (omega arith)
get_or-window [] (suc i) (suc n) j k e l = refl
get_or-window (x ∷ xs) zero zero j k e l = absurd (omega arith)
get_or-window (x ∷ xs) zero (suc n) zero zero e l = refl
get_or-window (x ∷ xs) zero (suc n) zero (suc k) e l = absurd (omega arith)
get_or-window (x ∷ xs) zero (suc n) (suc j) zero e l = absurd (omega arith)
get_or-window (x ∷ xs) zero (suc n) (suc j) (suc k) e l =
    get_or-window xs zero n j k (omega arith) (omega arith)
get_or-window (x ∷ xs) (suc i) n j zero e l = absurd (omega arith)
get_or-window (x ∷ xs) (suc i) n j (suc k) e l = get_or-window xs i n j k (omega arith) l

field_at-window :
    (xs : List ℕ) (i n j count : ℕ)
    → j + count ≤ n
    → field_at (take n (drop i xs)) j count ≡ field_at xs (i + j) count
unfolding field_at
field_at-window xs i n j zero l = refl
field_at-window xs i n j (suc count) l =
    ap₂ (λ a b. a + 256 * b) (get_or-window xs i n j (i + j) refl (omega arith))
      (let next : i + (j + 1) ≡ i + j + 1 = omega arith in
        field_at-window xs i n (j + 1) count (omega arith) ∙ ap (λ k. field_at xs k count) next)

has_sig-window :
    (xs sig : List ℕ) (n i : ℕ) → i + length sig ≤ n → has_sig (take n xs) sig i ≡ has_sig xs sig i
unfolding has_sig
has_sig-window xs [] n i l = refl
has_sig-window xs (c ∷ sig) n i l =
    ap₂ (λ a b. (a == c) && b) (get_or-window xs 0 n i i (omega arith) (omega arith))
      (has_sig-window xs sig n (i + 1) (omega arith))

section_from-window :
    (xs : List ℕ) (i entry : ℕ)
    → section_from (take 0x38 (drop i xs)) 0 entry ≡ section_from xs i entry
unfolding section_from
section_from-window xs i entry =
    rw
      (
        section_from,
        field_at-window xs i 0x38 8 8 (omega arith),
        field_at-window xs i 0x38 16 8 (omega arith),
        field_at-window xs i 0x38 32 8 (omega arith),
        field_at-window xs i 0x38 40 8 (omega arith),
      )
      refl

-- The program headers that stand in the file.
abbrev pub table : (file : List ℕ) → (count offset entry : ℕ) → List Section
unfolding section_from
table file zero offset entry = []
table file (suc count) offset entry =
    section_from file offset entry ∷ table file count (offset + 0x38) entry

-- Has the file all of them?
abbrev pub fits : (file : List ℕ) → (count offset : ℕ) → Bool
fits file zero offset = true
fits file (suc count) offset = leb (offset + 56 * suc count) (length file)

fits-rest :
    (file : List ℕ) (count offset : ℕ)
    → offset + 56 ≤ length file
    → fits file count (offset + 0x38) ≡ fits file (suc count) offset
fits-rest file zero offset l = ground arith
fits-rest file (suc count) offset l =
    let e : offset + 0x38 + 56 * suc count ≡ offset + 56 * suc (suc count) = omega arith in
    ap (λ x. leb x (length file)) e

-- A reader of the file, at offsets inside it or at its end: it gives the bytes that are asked for, if the
-- file has them all, and else fails or gives fewer. Nothing is said of an offset behind the end, where
-- `file_read` takes a wrapped difference for the bytes that are left.
pub record Reads {S : Type 0} (read_at : Reader S) (file : List ℕ) (Good : S → Type 0)
    : Type 0 where
  pub enough :
      (s : S) (offset size : ℕ)
      → Good s
      → 0 < size
      → offset + size ≤ length file
      → (read_at offset size s).0 ≡ some (take size (drop offset file))
  pub short :
      (s : S) (offset size : ℕ)
      → Good s
      → 0 < size
      → size < 2 ^ 63
      → offset ≤ length file
      → length file < offset + size
      → full_read size (read_at offset size s).0 ≡ none
  pub keeps : (s : S) (offset size : ℕ) → Good s → Good (read_at offset size s).1

module _ {S : Type 0} (read_at : Reader S) (file : List ℕ) (Good : S → Type 0)
    (reads : Reads read_at file Good) (room : length file < 2 ^ 63) where
  full_read-enough :
      (s : S) (offset size : ℕ)
      → Good s
      → 0 < size
      → offset + size ≤ length file
      → full_read size (read_at offset size s).0 ≡ some (take size (drop offset file))
  full_read-enough s offset size good more l =
      let got = reads.enough s offset size good more l in
      let whole : ltb (length (take size (drop offset file))) size ≡ false =
        ground (arith, length-take size (drop offset file), length-drop offset file) in
      rw (got, whole) refl

  -- The loop: all headers, if the file has them, and NULL otherwise.
  read_sections-table :
      (count offset entry : ℕ) (s : S)
      → Good s
      → offset ≤ length file
      → (read_sections read_at count offset entry s).0
        ≡ (if fits file count offset then some (table file count offset entry) else none)
  unfolding read_sections
  read_sections-table zero offset entry s good l = refl
  read_sections-table (suc count) offset entry s good l =
      elim (Bool-cases (leb (offset + 56) (length file))) [
        | inr short ↦
            let no : full_read 0x38 (read_at offset 0x38 s).0 ≡ none =
              reads.short s offset 0x38 good (omega arith) (omega arith) l
                (ground (arith, short)) in
            let test : fits file (suc count) offset ≡ false = ground (arith, short) in
            rw (read_sections, no, test) refl
        | inl there ↦
            let inside : offset + 56 ≤ length file = ground (arith, there) in
            let got = full_read-enough s offset 0x38 good (omega arith) inside in
            let next : (offset + 0x38) % 2 ^ 64 ≡ offset + 0x38 = omega arith in
            let rest =
              read_sections-table count (offset + 0x38) entry (read_at offset 0x38 s).1
                (reads.keeps s offset 0x38 good) (omega arith) in
            let same = fits-rest file count offset inside in
            let one = section_from-window file offset entry in
            elim (Bool-cases (fits file (suc count) offset)) [
              | inl all ↦ rw (read_sections, got, next, rest, same, all, one) refl
              | inr missing ↦ rw (read_sections, got, next, rest, same, missing) refl
            ]
      ]

-- A reader that at offsets up to the end of a file, which is below 2 ^ 63, gives the bytes of the file,
-- and fails or gives fewer where the file has not all of them; and the table of the program headers does
-- not begin behind the end of the file. Then `read_elf` gives the program headers that stand in the file, one behind
-- the other, each with its five fields; and it gives NULL if the file is shorter than its header, does
-- not begin with the signature, or ends before the last program header.
pub read_elf-table :
    {S : Type 0} (read_at : Reader S) (file : List ℕ) (Good : S → Type 0) (s : S)
    → Reads read_at file Good
    → length file < 2 ^ 63
    → Good s
    → e_phoff file ≤ length file
    → (read_elf read_at s).0 ≡ (
        if leb 64 (length file)
          && has_sig file elf64_sig 0
          && fits file (e_phnum file) (e_phoff file)
        then table file (e_phnum file) (e_phoff file) (e_entry file)
        else [])
unfolding read_elf
read_elf-table read_at file Good s reads room good l = elim (Bool-cases (leb 64 (length file))) [
  | inr short ↦
      let no =
        reads.short s 0 0x40 good (omega arith) (omega arith) (omega arith)
          (ground (arith, short)) in
      rw (read_elf, no, short) refl
  | inl there ↦
      let inside : 64 ≤ length file = ground (arith, there) in
      let got = full_read-enough read_at file Good reads room s 0 0x40 good (omega arith) inside in
      let num = field_at-window file 0 64 56 2 (omega arith) in
      let off = field_at-window file 0 64 32 8 (omega arith) in
      let ent = field_at-window file 0 64 24 8 (omega arith) in
      let sig = has_sig-window file elf64_sig 64 0 (omega arith) in
      let rest =
        read_sections-table read_at file Good reads room (e_phnum file) (e_phoff file)
          (e_entry file) (read_at 0 0x40 s).1 (reads.keeps s 0 0x40 good) l in
      elim (Bool-cases (has_sig file elf64_sig 0)) [
        | inr other ↦ rw (read_elf, got, sig, there, other) refl
        | inl signed ↦ elim (Bool-cases (fits file (e_phnum file) (e_phoff file))) [
          | inl all ↦ rw (read_elf, got, sig, there, signed, num, off, ent, rest, all) refl
          | inr missing ↦ rw (read_elf, got, sig, there, signed, num, off, ent, rest, missing) refl
        ]
      ]
]
