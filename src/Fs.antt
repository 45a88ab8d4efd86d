-- ===== src/Fs.antt =====
-- sys/disk/file_system.c, the files on disk. A block on the disk is a list of 31 records with the
-- block of the next list behind them, a block of data, or the superblock; `read_disk_block` and
-- `write_disk_block`, which wait for the controller, are a parameter, at each of these layouts.
pub mod Search
pub mod Create
pub mod Io
pub mod Dir
pub mod Open
mod Tests
use sbu_os.Prelude.{
  ℕ, zero, suc, ◌+◌, ◌-◌, ◌*◌, ◌/◌, ◌%◌, ◌^◌, Bool, true, false, not, ◌&&◌, Option, none, some,
  List, [], ◌∷◌, ltb, leb, ◌==◌, if◌then◌else◌, ◌>>=◌, length, take, modify,
}
use sbu_os.Memory.{Ram, math_min}
use sbu_os.Memory.Text.{same}

-- `simple_fs_file_list`: the bytes of the name in front of its 0, and the two words.
pub record FileRecord : Type 0 where
  pub name : List ℕ
  pub attr : ℕ
  pub lba : ℕ

-- A list: its records, and the word behind them.
pub record Listing : Type 0 where
  pub records : List FileRecord
  pub next_lba : ℕ

-- The calls of `read_disk_block`, `write_disk_block` and `write_superblock`. `none` and `false`
-- stand for a result 0.
pub record Device (D : Type 0) : Type 0 where
  pub read_list : D → (lba : ℕ) → Option Listing × D
  pub write_list : D → (lba : ℕ) → Listing → Bool × D
  pub read_data : D → (lba : ℕ) → Option Ram × D
  pub write_data : D → (lba : ℕ) → Ram → Bool × D
  pub write_superblock : D → (size free_starts : ℕ) → Bool × D

-- `attr & (1L<<63)`, `attr & 0xffffffff`, and the update of the latter, on a word of 64 bits.
abbrev pub is_present : (attr : ℕ) → Bool
is_present attr = leb (2 ^ 63) attr

abbrev pub size_of : (attr : ℕ) → ℕ
size_of attr = attr % 2 ^ 32

abbrev pub with_size : (attr size : ℕ) → ℕ
with_size attr size = attr / 2 ^ 32 * 2 ^ 32 + size % 2 ^ 32

-- `inode`; its `layer` is 0 throughout.
pub record Inode : Type 0 where
  pub base_lba : ℕ
  pub size : ℕ
  pub file_list_lba : ℕ
  pub file_list_lba_i : ℕ

-- `disk_block_free` and `disk_size`, with the state of the device.
pub record Disk (D : Type 0) : Type 0 where
  pub device : D
  pub disk_block_free : ℕ
  pub disk_size : ℕ

-- The loop over the records of a list, from index `i` on.
unfoldable pub find_record : List FileRecord → (path : List ℕ) → (i : ℕ) → Option (ℕ × FileRecord)
find_record [] path i = none
find_record (r ∷ rs) path i =
    let rest = find_record rs path (i + 1) in
    if is_present r.attr && same r.name path then some (i, r) else rest

abbrev pub inode_of : (lba_c : ℕ) → ℕ × FileRecord → Inode
inode_of lba_c (i, r) = record {
  base_lba = r.lba;
  size = size_of r.attr;
  file_list_lba = lba_c;
  file_list_lba_i = i;
}

-- The loop of `create_file_in_disk`: the first record that is not in use gets the name.
unfoldable pub take_record : List FileRecord → FileRecord → Option (List FileRecord)
take_record [] new = none
take_record (r ∷ rs) new = elim (is_present r.attr) [
  | false ↦ some (new ∷ rs)
  | true ↦ elim (take_record rs new) [ none ↦ none | some rs' ↦ some (r ∷ rs') ]
]

module _ {D : Type 0} (dev : Device D) where
  -- The loop of `search_file_in_disk` over the lists. The outer `none` says that the fuel ran out.
  unfoldable pub search_lists :
      (fuel : ℕ) → D → (path : List ℕ) → (lba_c : ℕ) → Option (Option Inode × D)
  search_lists zero d path lba_c = none
  search_lists (suc fuel) d path lba_c =
      let (readed, d') = dev.read_list d lba_c in
      elim readed [
        | none ↦ some (none, d')
        | some l ↦ elim (find_record l.records path 0) [
          | some hit ↦ some (some (inode_of lba_c hit), d')
          | none ↦ if l.next_lba == 0 then some (none, d') else search_lists fuel d' path l.next_lba
        ]
      ]

  -- `search_file_in_disk`
  unfoldable pub search_file_in_disk :
      (fuel : ℕ) → Disk D → (path : List ℕ) → Option (Option Inode × Disk D)
  unfolding search_lists find_record
  search_file_in_disk fuel s path = do
    (node, d) ← search_lists fuel s.device path 1
    some (node, record s { device = d })

  -- `create_file_in_disk` behind the search for a record that is not in use.
  unfoldable pub write_record : Disk D → Listing → Bool × Disk D
  write_record s l =
      let (wrote, d) = dev.write_list s.device 1 l in
      let t = record s { device = d; disk_block_free = (s.disk_block_free + 1) % 2 ^ 64 } in
      let (updated, d') = dev.write_superblock d t.disk_size t.disk_block_free in
      if not wrote then (false, record s { device = d }) else (updated, record t { device = d' })

  -- `create_file_in_disk`. A name of 112 bytes or more does not fit into its field with the 0, and the
  -- `assert` on a list with no free record never returns: both are `none`.
  unfoldable pub create_file_in_disk : Disk D → (path : List ℕ) → Option (Bool × Disk D)
  unfolding write_record take_record
  create_file_in_disk s path =
      let (readed, d) = dev.read_list s.device 1 in
      let t = record s { device = d } in
      elim readed [
        | none ↦ some (false, t)
        | some l ↦
            if leb 112 (length path)
            then none
            else elim (take_record l.records
                (record { name = path; attr = 2 ^ 63; lba = s.disk_block_free })) [
                  | none ↦ none
                  | some records ↦ some (write_record t (record l { records = records }))
                ]
      ]

-- What a file that is open on disk keeps: its inode and `offset`.
pub record OpenFile : Type 0 where
  pub inode : Inode
  pub offset : ℕ

-- `(readed + offset)[c] = buffer_in[c]` for each `c`.
unfoldable pub copy_in : Ram → (at : ℕ) → (bytes : List ℕ) → Ram
copy_in m at [] = m
copy_in m at (b ∷ bytes) = copy_in (λ x. if x == at then b else m x) (at + 1) bytes

-- The `n` bytes from `at` on.
unfoldable pub bytes_at : Ram → (at n : ℕ) → List ℕ
bytes_at m at zero = []
bytes_at m at (suc n) = m at ∷ bytes_at m (at + 1) n

-- `math_min(size, file_info->size-file->offset, (uint64_t)-1)`
abbrev pub to_read : OpenFile → (size : ℕ) → ℕ
to_read f size = math_min size ((f.inode.size + 2 ^ 64 - f.offset) % 2 ^ 64 ∷ (2 ^ 64 - 1) ∷ [])

module _ {D : Type 0} (dev : Device D) where
  -- `file_read` at `io_type` 5. The outer `none` is an access behind a block of 4096 bytes, or through
  -- NULL; the inner one is the result -1.
  unfoldable pub read_file : D → OpenFile → (size : ℕ) → Option (Option (List ℕ) × OpenFile × D)
  read_file d f size =
      let (readed, d') = dev.read_data d f.inode.base_lba in
      let n = to_read f size in
      if n == 0 then some (none, f, d') else if ltb 4096 (f.offset + n) then none else elim readed [
        | none ↦ none
        | some block ↦
            some (some (bytes_at block f.offset n), record f { offset = f.offset + n }, d')
      ]

  -- The last part of `file_write` at `io_type` 6: the new size goes to the record of the file.
  unfoldable pub write_size : D → OpenFile → (written : ℕ) → Option (Option ℕ × OpenFile × D)
  write_size d f written =
      let size =
        if ltb f.inode.size (written + f.offset) then written + f.offset else f.inode.size in
      let g = record f { inode = record f.inode { size = size } } in
      let (readed, d') = dev.read_list d f.inode.file_list_lba in
      elim readed [
        | none ↦ none
        | some l ↦
            let (wrote, d'') = dev.write_list d' f.inode.file_list_lba (record l {
              records =
                  modify l.records f.inode.file_list_lba_i
                    (λ r. record r { attr = with_size r.attr size });
            }) in
            some (if wrote then some written else none, g, d'')
      ]

  -- `file->offset` is cut to 4096, and the bytes to what is left of the block.
  abbrev pub clip : OpenFile → OpenFile
  clip f = if ltb 4096 f.offset then record f { offset = 4096 } else f

  -- `file_write` at `io_type` 6; the results are as above.
  unfoldable pub write_file : D → OpenFile → (bytes : List ℕ) → Option (Option ℕ × OpenFile × D)
  unfolding write_size
  write_file d f bytes =
      let (readed, d') = dev.read_data d f.inode.base_lba in
      let g = clip f in
      let part = take (4096 - g.offset) bytes in
      elim readed [
        | none ↦ none
        | some block ↦
            let (wrote, d'') = dev.write_data d' g.inode.base_lba (copy_in block g.offset part) in
            if wrote then write_size d'' g (length part) else some (none, g, d'')
      ]
