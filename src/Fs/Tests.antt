-- ===== src/Fs/Tests.antt =====
-- Tests on a device that stores what it is given, and the witnesses.
use sbu_os.Prelude.{
  ℕ, ◌+◌, ◌^◌, ◌≤◌, ◌≡◌, ◌≢◌, refl, inl, ◌↔◌, true, some, List, [], ◌∷◌, ◌++◌, arith, ◌==◌,
  if◌then◌else◌, get_elem?,
}
use sbu_os.Memory.{Ram}
use sbu_os.Fs.{
  FileRecord, Listing, Device, Inode, OpenFile, Disk, find_record, inode_of, take_record,
  search_lists, search_file_in_disk, create_file_in_disk, read_file, write_file,
}
use sbu_os.Fs.Search.{Works}
use sbu_os.Fs.Create.{create_file_in_disk-search}
use sbu_os.Fs.Io.{write_file-read}
use sbu_os.Fs.Open.{
  read_entry, write_entry, file_open_read, file_open_write, file_open_read-file_open_write,
}
use sbu_os.Fs.Dir.{
  directory_compare, list_lists, IsEntry, directory_compare-IsEntry, list_lists-entries,
  all_entries,
}

-- The blocks of a disk in memory.
record Store : Type 0 where
  stored_lists : ℕ → Listing
  stored_blocks : ℕ → Ram

abbrev put_list : Store → ℕ → Listing → Store
put_list s lba l = record s { stored_lists = λ k. if k == lba then l else s.stored_lists k }

abbrev put_block : Store → ℕ → Ram → Store
put_block s lba b = record s { stored_blocks = λ k. if k == lba then b else s.stored_blocks k }

abbrev dev : Device Store
dev = record {
  read_list = λ s lba. (some (s.stored_lists lba), s);
  write_list = λ s lba l. (true, put_list s lba l);
  read_data = λ s lba. (some (s.stored_blocks lba), s);
  write_data = λ s lba b. (true, put_block s lba b);
  write_superblock = λ s size free_starts. (true, s);
}

put_same {ℓ} : {A : Type ℓ} (k : ℕ) (new old : A) → (if k == k then new else old) ≡ new
put_same k new old = ground arith

put_other {ℓ} :
    {A : Type ℓ} (k lba : ℕ) (new old : A) → k ≢ lba → (if k == lba then new else old) ≡ old
put_other k lba new old h = ground arith

abbrev dev_works : Works dev
dev_works = record {
  lists = λ s. s.stored_lists;
  blocks = λ s. s.stored_blocks;
  read_list_gives = λ s lba. refl;
  read_data_gives = λ s lba. refl;
  read_list_keeps = λ s lba k. (refl, refl);
  read_data_keeps = λ s lba k. (refl, refl);
  write_list_gives = λ s lba l. (refl, put_same lba l (s.stored_lists lba));
  write_data_gives = λ s lba b. (refl, put_same lba b (s.stored_blocks lba));
  write_list_keeps = λ s lba l k h. (put_other k lba l (s.stored_lists k) h, refl);
  write_data_keeps = λ s lba b k h. (refl, put_other k lba b (s.stored_blocks k) h);
  write_superblock_works = λ s size free_starts k h. (refl, refl, refl);
}

-- A file "/a" of 3 bytes in block 2, and a free record.
abbrev file_a : FileRecord
file_a = record { name = b'/' ∷ b'a' ∷ []; attr = 2 ^ 63 + 3; lba = 2 }

abbrev free_record : FileRecord
free_record = record { name = []; attr = 0; lba = 0 }

abbrev one_file : Store
one_file = record {
  stored_lists = λ k. record { records = file_a ∷ free_record ∷ []; next_lba = 0 };
  stored_blocks = λ k x. 7;
}

abbrev one_file_disk : Disk Store
one_file_disk = record { device = one_file; disk_block_free = 3; disk_size = 100 }

abbrev path_a : List ℕ
path_a = b'/' ∷ b'a' ∷ []

abbrev path_b : List ℕ
path_b = b'/' ∷ b'b' ∷ []

-- A file is found with its size.
search-a :
    search_lists dev 1 one_file path_a 1
    ≡ some
        (some (record { base_lba = 2; size = 3; file_list_lba = 1; file_list_lba_i = 0 }), one_file)
unfolding search_lists find_record
search-a = refl

create_file_in_disk-search_example :
    (s' : Disk Store) × (s'' : Disk Store) × (i : ℕ) × (create_file_in_disk dev one_file_disk path_b
      ≡ some (true, s'))
    × (s'.disk_block_free ≡ 4)
    × (search_file_in_disk dev 1 s' path_b
        ≡ some
            (some (record { base_lba = 3; size = 0; file_list_lba = 1; file_list_lba_i = i }), s''))
    × (find_record (s'.device.stored_lists 1).records path_a 0
        ≡ find_record (one_file.stored_lists 1).records path_a 0)
unfolding find_record take_record
create_file_in_disk-search_example =
    create_file_in_disk-search dev dev_works 0 one_file_disk path_b path_a
      (file_a ∷ record { name = path_b; attr = 2 ^ 63; lba = 3 } ∷ []) (ground arith) refl refl refl

-- Two bytes at offset 2 of the file: its size is 4 afterwards.
write_file-read_example :
    (g : OpenFile) × (d' : Store) × (node : Inode) × (d'' : Store) × (h : OpenFile) × (e : Store)
    × (write_file dev one_file (record { inode = inode_of 1 (0, file_a); offset = 2 }) (5 ∷ 6 ∷ [])
        ≡ some (some 2, g, d'))
    × (search_lists dev 1 d' path_a 1 ≡ some (some node, d''))
    × (node.size ≡ 4)
    × (node.size ≤ 4096)
    × (read_file dev d'' (record { inode = node; offset = 2 }) 2 ≡ some (some (5 ∷ 6 ∷ []), h, e))
    × (d'.stored_blocks 2 0 ≡ 7)
unfolding find_record
write_file-read_example =
    write_file-read dev dev_works 0 one_file path_a (5 ∷ 6 ∷ []) 0 2 0 file_a refl (ground arith)
      (ground arith) (ground arith) (ground arith) (inl (ground arith))

directory_compare-IsEntry_example :
    (directory_compare path_a (b'/' ∷ []) ≡ some (b'a' ∷ []))
    ↔ ((path_a ≡ (b'/' ∷ []) ++ b'a' ∷ []) × (path_a ≢ []) × IsEntry (b'a' ∷ []))
directory_compare-IsEntry_example = directory_compare-IsEntry path_a (b'/' ∷ []) (b'a' ∷ [])

list_lists-entries_example :
    (d' : Store) × (list_lists dev 1 one_file (b'/' ∷ []) 0 0 1
      ≡ some (get_elem? (all_entries (one_file.stored_lists 1 ∷ []) (b'/' ∷ [])) 0, d'))
list_lists-entries_example =
    list_lists-entries dev dev_works 1 one_file (b'/' ∷ []) 0 0 0 1 (one_file.stored_lists 1 ∷ [])
      (ground arith) (refl, refl) refl

-- No path is in the archive.
abbrev no_archive : List ℕ → ℕ
no_archive path = 0

file_open_read-file_open_write_example :
    (s1 s2 : Disk Store) × (f g : OpenFile) × (d3 : Store) × (s4 : Disk Store) × (h h' : OpenFile)
    × (d5 : Store) × (create_file_in_disk dev one_file_disk path_b ≡ some (true, s1))
    × (file_open_write dev no_archive 1 s1 path_b ≡ some (some (write_entry path_b f), s2))
    × (write_file dev s2.device f (5 ∷ 6 ∷ []) ≡ some (some 2, g, d3))
    × (file_open_read dev no_archive 1 (record s2 { device = d3 }) path_b
        ≡ some (some (read_entry path_b h), s4))
    × (read_file dev s4.device h 2 ≡ some (some (5 ∷ 6 ∷ []), h', d5))
unfolding find_record take_record
file_open_read-file_open_write_example =
    file_open_read-file_open_write dev no_archive dev_works 0 one_file_disk path_b (5 ∷ 6 ∷ [])
      (file_a ∷ record { name = path_b; attr = 2 ^ 63; lba = 3 } ∷ []) refl (ground arith) refl refl
      (ground arith) (ground arith) (ground arith)
