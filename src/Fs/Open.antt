-- ===== src/Fs/Open.antt =====
-- sys/disk/file_system.c, `file_open_read` and `file_open_write`, and what comes of a new file.
use sbu_os.Prelude.{
  ℕ, suc, ◌≤◌, ◌<◌, ◌≡◌, ◌≢◌, refl, ap, ◌∙◌, inr, true, Option, none, some, List, arith, ◌==◌,
  if◌then◌else◌, ◌>>=◌, length,
}
use sbu_os.Memory.Text.{same_refl}
use sbu_os.Fs.{
  FileRecord, Listing, Device, Inode, Disk, OpenFile, find_record, inode_of, take_record,
  search_lists, search_file_in_disk, create_file_in_disk, read_file, write_file,
}
use sbu_os.Fs.Search.{Works, take_record-find}
use sbu_os.Fs.Create.{new_record, created}
use sbu_os.Fs.Io.{write_file-read}

-- A new `file_table_entry`: `io_type` 3 with the place of the file in the archive, and 5 or 6 with the
-- inode and the offset. The bytes of `path_str` are those that are copied; `open_count` is 1, and the
-- cursors of a pipe are not used.
pub data Opened : Type 0 where
  tarfs_entry : (path_str : List ℕ) → (in_from : ℕ) → Opened
  read_entry : (path_str : List ℕ) → (file : OpenFile) → Opened
  write_entry : (path_str : List ℕ) → (file : OpenFile) → Opened

-- What the two functions make of the result of the search.
unfoldable pub reading : (path : List ℕ) → Option Inode → Option Opened
reading path none = none
reading path (some node) = some (read_entry path (record { inode = node; offset = 0 }))

unfoldable pub writing : (path : List ℕ) → Option Inode → Option Opened
writing path none = none
writing path (some node) = some (write_entry path (record { inode = node; offset = node.size }))

-- `find_offset` is `tarfs_find_offset`; an inner `none` is the result 0, an outer one says that the
-- fuel ran out.
module _ {D : Type 0} (dev : Device D) (find_offset : List ℕ → ℕ) where
  unfoldable pub file_open_read :
      (fuel : ℕ) → Disk D → (path : List ℕ) → Option (Option Opened × Disk D)
  unfolding reading search_file_in_disk
  file_open_read fuel s path =
      if find_offset path == 0
      then (do (node, t) ← search_file_in_disk dev fuel s path; some (reading path node, t))
      else some (some (tarfs_entry path (find_offset path)), s)

  unfoldable pub file_open_write :
      (fuel : ℕ) → Disk D → (path : List ℕ) → Option (Option Opened × Disk D)
  unfolding writing search_file_in_disk
  file_open_write fuel s path =
      if find_offset path == 0
      then (do (node, t) ← search_file_in_disk dev fuel s path; some (writing path node, t))
      else some (none, s)

  -- Opening what a search finds.
  module _ (fuel : ℕ) (s : Disk D) (path : List ℕ) (node : Inode) (d : D)
      (outside : find_offset path ≡ 0)
      (found : search_lists dev fuel s.device path 1 ≡ some (some node, d)) where
    file_open_read-found :
        file_open_read fuel s path
        ≡ some
            (some (read_entry path (record { inode = node; offset = 0 })), record s { device = d })
    unfolding file_open_read search_file_in_disk reading
    file_open_read-found = rw (file_open_read, outside, search_file_in_disk, found) refl

    file_open_write-found :
        file_open_write fuel s path
        ≡ some (
          some (write_entry path (record { inode = node; offset = node.size })),
          record s { device = d },
        )
    unfolding file_open_write search_file_in_disk writing
    file_open_write-found = rw (file_open_write, outside, search_file_in_disk, found) refl

  -- On a device that works, with a free record in the first list and the next block of the disk not
  -- that of the list, a file is made under a name that fits, was not found and is not in the archive.
  -- Opened for writing it takes at least one byte and at most 4096, and opened for reading then it
  -- gives exactly these.
  pub file_open_read-file_open_write :
      (w : Works dev) (fuel : ℕ) (s : Disk D) (path bytes : List ℕ) (rs : List FileRecord)
      → find_offset path ≡ 0
      → length path < 112
      → find_record (w.lists s.device 1).records path 0 ≡ none
      → take_record (w.lists s.device 1).records (new_record path s.disk_block_free) ≡ some rs
      → s.disk_block_free ≢ 1
      → length bytes ≤ 4096
      → length bytes ≢ 0
      → (s1 s2 : Disk D) × (f g : OpenFile) × (d3 : D) × (s4 : Disk D) × (h h' : OpenFile)
        × (d5 : D) × (create_file_in_disk dev s path ≡ some (true, s1))
        × (file_open_write (suc fuel) s1 path ≡ some (some (write_entry path f), s2))
        × (write_file dev s2.device f bytes ≡ some (some (length bytes), g, d3))
        × (file_open_read (suc fuel) (record s2 { device = d3 }) path
            ≡ some (some (read_entry path h), s4))
        × (read_file dev s4.device h (length bytes) ≡ some (some bytes, h', d5))
  unfolding search_lists
  file_open_read-file_open_write w fuel s path bytes rs outside short absent taken apart fits more =
      let r = new_record path s.disk_block_free in
      let (s1, made, now, next) = created dev w s path rs short taken in
      let (i, found) =
        take_record-find (w.lists s.device 1).records rs r path 0 taken refl (same_refl path)
          absent in
      let found1 : find_record (w.lists s1.device 1).records path 0 ≡ some (i, r) =
        ap (λ us. find_record us path 0) now ∙ found in
      let d2 = (dev.read_list s1.device 1).1 in
      let node : Inode = inode_of 1 (i, r) in
      let search1 : search_lists dev (suc fuel) s1.device path 1 ≡ some (some node, d2) =
        rw (search_lists, w.read_list_gives s1.device 1, found1) refl in
      let found2 : find_record (w.lists d2 1).records path 0 ≡ some (i, r) =
        ap (λ (l : Listing). find_record l.records path 0) (w.read_list_keeps s1.device 1 1).0
        ∙ found1 in
      let s2 : Disk D = record s1 { device = d2 } in
      let (g, d3, node', d4, h', d5, wrote, seen, sized, small, got, kept) =
        write_file-read dev w fuel d2 path bytes i 0 (length bytes) r found2 apart (ground arith)
          (omega arith) more (inr (omega arith)) in
      (
        s1,
        s2,
        record { inode = node; offset = 0 },
        g,
        d3,
        record s2 { device = d4 },
        record { inode = node'; offset = 0 },
        h',
        d5,
        made,
        file_open_write-found (suc fuel) s1 path node d2 outside search1,
        wrote,
        file_open_read-found (suc fuel) (record s2 { device = d3 }) path node' d4 outside seen,
        got,
      )
