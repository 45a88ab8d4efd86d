-- ===== src/Fs/Search.antt =====
-- A device that works, and the records of a list.
use sbu_os.Prelude.{
  ℕ, ◌+◌, ◌≡◌, ◌≢◌, true, false, none, some, some_inj, List, [], ◌∷◌, arith, Bool-cases,
  Option-cases, inl, inr,
}
use mathlib.Core.Path.{subst}
use sbu_os.Memory.{Ram}
use sbu_os.Memory.Text.{same}
use sbu_os.Fs.{FileRecord, Listing, Device, is_present, find_record, take_record}

-- What a device that works promises: `lists` and `blocks` are what it stores. A call never fails, a
-- read gives what is stored and changes nothing of it, and a write changes just one block.
pub record Works {D : Type 0} (dev : Device D) : Type 0 where
  pub lists : D → ℕ → Listing
  pub blocks : D → ℕ → Ram
  pub read_list_gives : (d : D) (lba : ℕ) → (dev.read_list d lba).0 ≡ some (lists d lba)
  pub read_data_gives : (d : D) (lba : ℕ) → (dev.read_data d lba).0 ≡ some (blocks d lba)
  pub read_list_keeps :
      (d : D) (lba k : ℕ)
      → (lists (dev.read_list d lba).1 k ≡ lists d k)
        × (blocks (dev.read_list d lba).1 k ≡ blocks d k)
  pub read_data_keeps :
      (d : D) (lba k : ℕ)
      → (lists (dev.read_data d lba).1 k ≡ lists d k)
        × (blocks (dev.read_data d lba).1 k ≡ blocks d k)
  pub write_list_gives :
      (d : D) (lba : ℕ) (l : Listing)
      → ((dev.write_list d lba l).0 ≡ true) × (lists (dev.write_list d lba l).1 lba ≡ l)
  pub write_data_gives :
      (d : D) (lba : ℕ) (b : Ram)
      → ((dev.write_data d lba b).0 ≡ true) × (blocks (dev.write_data d lba b).1 lba ≡ b)
  pub write_list_keeps :
      (d : D) (lba : ℕ) (l : Listing) (k : ℕ)
      → k ≢ lba
      → (lists (dev.write_list d lba l).1 k ≡ lists d k)
        × (blocks (dev.write_list d lba l).1 k ≡ blocks d k)
  pub write_data_keeps :
      (d : D) (lba : ℕ) (b : Ram) (k : ℕ)
      → k ≢ lba
      → (lists (dev.write_data d lba b).1 k ≡ lists d k)
        × (blocks (dev.write_data d lba b).1 k ≡ blocks d k)
  pub write_superblock_works :
      (d : D) (size free_starts k : ℕ)
      → k ≢ 0
      → ((dev.write_superblock d size free_starts).0 ≡ true)
        × (lists (dev.write_superblock d size free_starts).1 k ≡ lists d k)
        × (blocks (dev.write_superblock d size free_starts).1 k ≡ blocks d k)

-- A new record is found under its name, if no other one was.
pub take_record-find :
    (rs rs' : List FileRecord) (new : FileRecord) (path : List ℕ) (i : ℕ)
    → take_record rs new ≡ some rs'
    → is_present new.attr ≡ true
    → same new.name path ≡ true
    → find_record rs path i ≡ none
    → (j : ℕ) × (find_record rs' path i ≡ some (j, new))
unfolding take_record find_record
take_record-find [] rs' new path i t p e n = absurd (cc t)
take_record-find (r ∷ rs) rs' new path i t p e n = elim (Bool-cases (is_present r.attr)) [
  | inl used ↦ elim (Option-cases (take_record rs new)) [
    | inl full ↦ absurd (ground arith)
    | inr (rest, taken) ↦
        let (j, found) = take_record-find rs rest new path (i + 1) taken p e (ground arith) in
        (
          j,
          subst (λ us. find_record us path i ≡ some (j, new))
              (some_inj (rw (used, taken, take_record) at t)) (ground arith),
        )
  ]
  | inr free ↦ (
    i,
    subst (λ us. find_record us path i ≡ some (i, new)) (some_inj (rw (free, take_record) at t))
        (ground arith),
  )
]

-- Under another name nothing changes.
pub take_record-other :
    (rs rs' : List FileRecord) (new : FileRecord) (path : List ℕ) (i : ℕ)
    → take_record rs new ≡ some rs'
    → same new.name path ≡ false
    → find_record rs' path i ≡ find_record rs path i
unfolding take_record find_record
take_record-other [] rs' new path i t e = absurd (cc t)
take_record-other (r ∷ rs) rs' new path i t e = elim (Bool-cases (is_present r.attr)) [
  | inl used ↦ elim (Option-cases (take_record rs new)) [
    | inl full ↦ absurd (ground arith)
    | inr (rest, taken) ↦
        subst (λ us. find_record us path i ≡ find_record (r ∷ rs) path i)
          (some_inj (rw (used, taken, take_record) at t))
          (ground (arith, take_record-other rs rest new path (i + 1)))
  ]
  | inr free ↦
      subst (λ us. find_record us path i ≡ find_record (r ∷ rs) path i)
        (some_inj (rw (free, take_record) at t)) (ground arith)
]
