-- ===== src/Elf.antt =====
-- sys/elf64.c, the program headers of an ELF file: `read_elf`, and `read_elf_tarfs`, which differs in
-- what it reads with. A list of sections stands for the linked list, and [] for NULL.
pub mod Table
pub mod Archive
mod Tests
use sbu_os.Prelude.{
  ℕ, zero, suc, ◌+◌, ◌*◌, ◌%◌, ◌^◌, Bool, true, false, ◌&&◌, Option, none, some, List, [], ◌∷◌, ltb,
  ◌==◌, if◌then◌else◌, get_or, length,
}

-- `program_section`
pub record Section : Type 0 where
  pub file_offset : ℕ
  pub memory_offset : ℕ
  pub size : ℕ
  pub mem_size : ℕ
  pub entry_point : ℕ

-- A field of `count` bytes, the lowest one first.
unfoldable pub field_at : (bytes : List ℕ) → (offset count : ℕ) → ℕ
field_at bytes offset zero = 0
field_at bytes offset (suc count) = get_or bytes offset 0 + 256 * field_at bytes (offset + 1) count

-- `e_entry`, `e_phoff` and `e_phnum` of an `Elf64_Ehdr`
abbrev pub e_entry : List ℕ → ℕ
unfolding field_at
e_entry header = field_at header 24 8

abbrev pub e_phoff : List ℕ → ℕ
unfolding field_at
e_phoff header = field_at header 32 8

abbrev pub e_phnum : List ℕ → ℕ
unfolding field_at
e_phnum header = field_at header 56 2

-- What is kept of an `Elf64_Phdr` at `offset`.
unfoldable pub section_from : (bytes : List ℕ) → (offset entry : ℕ) → Section
unfolding field_at
section_from bytes offset entry = record {
  file_offset = field_at bytes (offset + 8) 8;
  memory_offset = field_at bytes (offset + 16) 8;
  size = field_at bytes (offset + 32) 8;
  mem_size = field_at bytes (offset + 40) 8;
  entry_point = entry;
}

-- `elf64_sig`
abbrev pub elf64_sig : List ℕ
elf64_sig = 0x7f ∷ 0x45 ∷ 0x4c ∷ 0x46 ∷ 2 ∷ 1 ∷ 1 ∷ 0 ∷ 0 ∷ 0 ∷ 0 ∷ 0 ∷ 0 ∷ 0 ∷ 0 ∷ 0 ∷ []

-- `memeq(header->e_ident, elf64_sig, 0x10)`, from a byte on.
unfoldable pub has_sig : (header sig : List ℕ) → (i : ℕ) → Bool
has_sig header [] i = true
has_sig header (c ∷ sig) i = let rest = has_sig header sig (i + 1) in get_or header i 0 == c && rest

-- Reading bytes from an offset: none if that fails, and else maybe fewer than asked for.
abbrev pub Reader : Type 0 → Type 0
Reader S = (offset size : ℕ) → S → Option (List ℕ) × S

-- `if(read(...) < size) return 0`
abbrev pub full_read : (size : ℕ) → Option (List ℕ) → Option (List ℕ)
full_read size none = none
full_read size (some bytes) = if ltb (length bytes) size then none else some bytes

module _ {S : Type 0} (read_at : Reader S) where
  -- The loop, with `count` headers left; none if one fails to load.
  unfoldable pub read_sections : (count pro_header_offset entry : ℕ) → S → Option (List Section) × S
  unfolding section_from
  read_sections zero pro_header_offset entry s = (some [], s)
  read_sections (suc count) pro_header_offset entry s =
      let (bytes, t) = read_at pro_header_offset 0x38 s in
      elim (full_read 0x38 bytes) [
        | none ↦ (none, t)
        | some pro_buffer ↦
            let (rest, u) = read_sections count ((pro_header_offset + 0x38) % 2 ^ 64) entry t in
            (
              elim rest [
                | none ↦ none
                | some sections ↦ some (section_from pro_buffer 0 entry ∷ sections)
              ],
              u,
            )
      ]

  abbrev pub or_null : Option (List Section) → List Section
  or_null none = []
  or_null (some sections) = sections

  -- `read_elf`
  unfoldable pub read_elf : S → List Section × S
  unfolding read_sections has_sig field_at
  read_elf s =
      let (bytes, t) = read_at 0 0x40 s in
      elim (full_read 0x40 bytes) [
        | none ↦ ([], t)
        | some header ↦
            let (sections, u) =
              read_sections (e_phnum header) (e_phoff header) (e_entry header) t in
            if has_sig header elf64_sig 0 then (or_null sections, u) else ([], t)
      ]

-- `read_elf_tarfs`, which reads with `tarfs_read`.
abbrev pub read_elf_tarfs : {S : Type 0} → (tarfs_read : Reader S) → S → List Section × S
unfolding read_elf
read_elf_tarfs tarfs_read s = read_elf tarfs_read s
