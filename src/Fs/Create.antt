-- ===== src/Fs/Create.antt =====
-- A file that was created is found.
use sbu_os.Prelude.{
  ℕ, suc, ◌+◌, ◌%◌, ◌^◌, ◌<◌, ◌≡◌, refl, ap, ◌∙◌, true, false, none, some, List, arith, leb, length,
}
use sbu_os.Memory.Text.{same, same_refl}
use sbu_os.Fs.{
  FileRecord, Listing, Device, Disk, find_record, inode_of, take_record, search_lists,
  search_file_in_disk, write_record, create_file_in_disk,
}
use sbu_os.Fs.Search.{Works, take_record-find, take_record-other}

-- The record that `create_file_in_disk` writes.
abbrev pub new_record : (path : List ℕ) → (lba : ℕ) → FileRecord
new_record path lba = record { name = path; attr = 2 ^ 63; lba = lba }

module _ {D : Type 0} (dev : Device D) (w : Works dev) where
  open w use {lists, read_list_gives, write_list_gives, write_superblock_works}

  -- A search that ends in the first list.
  search-first :
      (fuel : ℕ) (s : Disk D) (path : List ℕ) (j : ℕ) (r : FileRecord)
      → find_record (lists s.device 1).records path 0 ≡ some (j, r)
      → (s' : Disk D) × (search_file_in_disk dev (suc fuel) s path
          ≡ some (some (inode_of 1 (j, r)), s'))
  unfolding search_file_in_disk
  search-first fuel s path j r found = (
    record s { device = (dev.read_list s.device 1).1 },
    rw (search_file_in_disk, search_lists, read_list_gives s.device 1, found) refl,
  )

  -- What a successful creation leaves.
  pub created :
      (s : Disk D) (path : List ℕ) (rs : List FileRecord)
      → length path < 112
      → take_record (lists s.device 1).records (new_record path s.disk_block_free) ≡ some rs
      → (s' : Disk D) × (create_file_in_disk dev s path ≡ some (true, s'))
        × ((lists s'.device 1).records ≡ rs)
        × (s'.disk_block_free ≡ (s.disk_block_free + 1) % 2 ^ 64)
  unfolding create_file_in_disk
  created s path rs short taken =
      let free = (s.disk_block_free + 1) % 2 ^ 64 in
      let l : Listing = record (lists s.device 1) { records = rs } in
      let d = (dev.write_list (dev.read_list s.device 1).1 1 l).1 in
      let wrote = write_list_gives (dev.read_list s.device 1).1 1 l in
      let sb = write_superblock_works d s.disk_size free 1 (ground arith) in
      let short' : leb 112 (length path) ≡ false = ground arith in
      (
        record s { device = (dev.write_superblock d s.disk_size free).1; disk_block_free = free },
        rw
            (
              create_file_in_disk,
              read_list_gives s.device 1,
              short',
              taken,
              write_record,
              wrote.0,
              sb.0,
            )
            refl,
        ap (λ (k : Listing). k.records) (sb.1 ∙ wrote.1),
        refl,
      )

  -- With a device that works and a free record in the first list, `create_file_in_disk` makes a file
  -- whose name fits and was not found there: it takes the next block of the disk, a search for its
  -- name finds it there with size 0, and what is found in the list under a name that differs stays.
  pub create_file_in_disk-search :
      (fuel : ℕ) (s : Disk D) (path other : List ℕ) (rs : List FileRecord)
      → length path < 112
      → same path other ≡ false
      → find_record (lists s.device 1).records path 0 ≡ none
      → take_record (lists s.device 1).records (new_record path s.disk_block_free) ≡ some rs
      → (s' : Disk D) × (s'' : Disk D) × (i : ℕ) × (create_file_in_disk dev s path
          ≡ some (true, s'))
        × (s'.disk_block_free ≡ (s.disk_block_free + 1) % 2 ^ 64)
        × (search_file_in_disk dev (suc fuel) s' path
            ≡ some (
              some (record {
                base_lba = s.disk_block_free;
                size = 0;
                file_list_lba = 1;
                file_list_lba_i = i;
              }),
              s'',
            ))
        × (find_record (lists s'.device 1).records other 0
            ≡ find_record (lists s.device 1).records other 0)
  create_file_in_disk-search fuel s path other rs short differs absent taken =
      let new = new_record path s.disk_block_free in
      let (s', made, now, free) = created s path rs short taken in
      let (i, found) =
        take_record-find (lists s.device 1).records rs new path 0 taken refl (same_refl path)
          absent in
      let (s'', seen) =
        search-first fuel s' path i new (ap (λ us. find_record us path 0) now ∙ found) in
      (
        s',
        s'',
        i,
        made,
        free,
        seen,
        ap (λ us. find_record us other 0) now
            ∙ take_record-other (lists s.device 1).records rs new other 0 taken differs,
      )
