-- ===== src/Fs/Io.antt =====
-- What is written to a file on disk is read back.
use sbu_os.Prelude.{
  ℕ, zero, suc, ◌+◌, ◌-◌, ◌^◌, ◌≤◌, ◌<◌, max, ◌≡◌, ◌≢◌, refl, ap, sym, ◌∙◌, ◌⊎◌, true, false, ◌&&◌,
  some, List, [], ◌∷◌, arith, ltb, ◌==◌, if◌then◌else◌, Bool-cases, inl, inr, length, take-all,
  modify, some_inj,
}
use sbu_os.Memory.{Ram, math_min}
use sbu_os.Memory.Text.{same}
use sbu_os.Fs.{
  FileRecord, Listing, Device, Inode, OpenFile, is_present, size_of, with_size, find_record,
  inode_of, search_lists, copy_in, bytes_at, to_read, read_file, write_size, write_file,
}
use sbu_os.Fs.Search.{Works}

-- `copy_in` changes just the bytes that it is for.
copy_in-outside :
    (m : Ram) (at : ℕ) (bs : List ℕ) (x : ℕ)
    → (x < at) ⊎ (at + length bs ≤ x)
    → copy_in m at bs x ≡ m x
unfolding copy_in
copy_in-outside m at [] x h = refl
copy_in-outside m at (b ∷ bs) x h =
    ground (arith, copy_in-outside (λ y. if y == at then b else m y) (at + 1) bs x)

bytes_at-copy_in : (m : Ram) (at : ℕ) (bs : List ℕ) → bytes_at (copy_in m at bs) at (length bs) ≡ bs
unfolding copy_in bytes_at
bytes_at-copy_in m at [] = refl
bytes_at-copy_in m at (b ∷ bs) =
    let m' : Ram = λ y. if y == at then b else m y in
    let here : m' at ≡ b = ground arith in
    rw
      (copy_in-outside m' (at + 1) bs at (inl (omega arith)), here, bytes_at-copy_in m' (at + 1) bs)
      refl

-- The size in the second word of a record.
size_of-with_size : (attr n : ℕ) → n < 2 ^ 32 → size_of (with_size attr n) ≡ n
size_of-with_size attr n h = omega arith

is_present-with_size : (attr n : ℕ) → is_present (with_size attr n) ≡ is_present attr
is_present-with_size attr n = ground arith

find_record-ge :
    (rs : List FileRecord) (path : List ℕ) (k j : ℕ) (r : FileRecord)
    → find_record rs path k ≡ some (j, r)
    → k ≤ j
unfolding find_record
find_record-ge [] path k j r h = absurd (cc h)
find_record-ge (x ∷ xs) path k j r h = ground (arith, find_record-ge xs path (k + 1) j r)

-- The record that was found, with its size changed, is found again.
abbrev resized : ℕ → FileRecord → FileRecord
resized n r = record r { attr = with_size r.attr n }

module _ (x : FileRecord) (xs : List FileRecord) (path : List ℕ) (k : ℕ) where
  find_record-hit :
      is_present x.attr && same x.name path ≡ true → find_record (x ∷ xs) path k ≡ some (k, x)
  unfolding find_record
  find_record-hit h = rw h

  find_record-miss :
      is_present x.attr && same x.name path ≡ false
      → find_record (x ∷ xs) path k ≡ find_record xs path (k + 1)
  unfolding find_record
  find_record-miss h = rw h

  resized-test :
      (n : ℕ)
      → is_present (resized n x).attr && same x.name path ≡ is_present x.attr && same x.name path
  resized-test n = ap (λ b. b && same x.name path) (is_present-with_size x.attr n)

find_record-resized :
    (rs : List FileRecord) (path : List ℕ) (k i j n : ℕ) (r : FileRecord)
    → j ≡ k + i
    → find_record rs path k ≡ some (j, r)
    → find_record (modify rs i (resized n)) path k ≡ some (j, resized n r)
unfolding find_record
find_record-resized [] path k i j n r e h = absurd (cc h)
find_record-resized (x ∷ xs) path k zero j n r e h =
    elim (Bool-cases (is_present x.attr && same x.name path)) [
      | inl hit ↦
          find_record-hit (resized n x) xs path k (resized-test x xs path k n ∙ hit)
          ∙ ap (λ (p : ℕ × FileRecord). some (p.0, resized n p.1))
              (some_inj (sym (find_record-hit x xs path k hit) ∙ h))
      | inr miss ↦ absurd (
          omega (
            arith,
            find_record-ge xs path (k + 1) j r (sym (find_record-miss x xs path k miss) ∙ h),
          ))
    ]
find_record-resized (x ∷ xs) path k (suc i) j n r e h =
    elim (Bool-cases (is_present x.attr && same x.name path)) [
      | inl hit ↦ absurd (
          omega (
            arith,
            ap (λ (p : ℕ × FileRecord). p.0) (some_inj (sym (find_record-hit x xs path k hit) ∙ h)),
          ))
      | inr miss ↦
          find_record-miss x (modify xs i (resized n)) path k miss
          ∙ find_record-resized xs path (k + 1) i j n r (omega arith)
              (sym (find_record-miss x xs path k miss) ∙ h)
    ]

-- Inside the file a read gets all that it asks for.
to_read-all :
    (f : OpenFile) (n : ℕ) → f.offset + n ≤ f.inode.size → f.inode.size ≤ 4096 → to_read f n ≡ n
unfolding math_min
to_read-all f n h b = ground arith

module _ {D : Type 0} (dev : Device D) (w : Works dev) where
  open w use {
    lists, blocks, read_list_gives, read_data_gives, read_list_keeps, read_data_keeps,
    write_list_gives, write_data_gives, write_list_keeps, write_data_keeps,
  }

  -- A read inside the file gives the bytes of the block.
  read_file-gives :
      (d : D) (f : OpenFile) (n : ℕ)
      → n ≢ 0
      → f.offset + n ≤ f.inode.size
      → f.inode.size ≤ 4096
      → (f' : OpenFile) × (d' : D) × (read_file dev d f n
          ≡ some (some (bytes_at (blocks d f.inode.base_lba) f.offset n), f', d'))
  unfolding read_file
  read_file-gives d f n h b e =
      let all = to_read-all f n b e in
      let some' : (n == 0) ≡ false = ground arith in
      let fits : ltb 4096 (f.offset + n) ≡ false = ground arith in
      (
        record f { offset = f.offset + n },
        (dev.read_data d f.inode.base_lba).1,
        rw (read_file, all, some', fits, read_data_gives d f.inode.base_lba, all) refl,
      )

  -- What a write that fits leaves behind.
  wrote_file :
      (d : D) (f : OpenFile) (bytes : List ℕ)
      → f.offset + length bytes ≤ 4096
      → f.inode.base_lba ≢ f.inode.file_list_lba
      → (g : OpenFile) × (d' : D) × (write_file dev d f bytes ≡ some (some (length bytes), g, d'))
        × (g.inode.size ≡ max f.inode.size (f.offset + length bytes))
        × (blocks d' f.inode.base_lba ≡ copy_in (blocks d f.inode.base_lba) f.offset bytes)
        × ((lists d' f.inode.file_list_lba).records
            ≡ modify
                (lists d f.inode.file_list_lba).records
                f.inode.file_list_lba_i
                (resized (max f.inode.size (f.offset + length bytes))))
  unfolding write_file
  wrote_file d f bytes fits apart =
      let base = f.inode.base_lba in
      let at = f.inode.file_list_lba in
      let size = max f.inode.size (f.offset + length bytes) in
      let inside : ltb 4096 f.offset ≡ false = ground arith in
      let whole = take-all (4096 - f.offset) bytes (omega arith) in
      let grown : (if ltb f.inode.size (length bytes + f.offset)
            then length bytes + f.offset
            else f.inode.size)
          ≡ size =
        ground arith in
      let d1 = (dev.read_data d base).1 in
      let block : Ram = copy_in (blocks d base) f.offset bytes in
      let d2 = (dev.write_data d1 base block).1 in
      let d3 = (dev.read_list d2 at).1 in
      let l : Listing = lists d2 at in
      let l' : Listing = record l {
        records = modify l.records f.inode.file_list_lba_i (resized size);
      } in
      let d4 = (dev.write_list d3 at l').1 in
      (
        record f { inode = record f.inode { size = size } },
        d4,
        rw
            (
              write_file,
              read_data_gives d base,
              inside,
              whole,
              (write_data_gives d1 base block).0,
              write_size,
              read_list_gives d2 at,
              inside,
              whole,
              grown,
              (write_list_gives d3 at l').0,
            )
            refl,
        refl,
        (write_list_keeps d3 at l' base apart).1
            ∙ (read_list_keeps d2 at base).1
            ∙ (write_data_gives d1 base block).1,
        ap (λ (k : Listing). k.records) (write_list_gives d3 at l').1
            ∙ ap (λ (k : Listing). modify k.records f.inode.file_list_lba_i (resized size))
                ((write_data_keeps d1 base block at (λ e. apart (sym e))).0
                  ∙ (read_data_keeps d base at).0),
      )

  -- On a device that works, a file that a search finds in the first list, with a size of at most 4096
  -- and its data in another block, is opened and written at an offset, with at least one byte and no
  -- more than fit into 4096. The write takes all bytes. A second search finds the file with the size
  -- that covers the bytes, still of at most 4096; a read from the same offset through it gives exactly
  -- the bytes; and a byte in front of them or behind them stays.
  pub write_file-read :
      (fuel : ℕ) (d : D) (path bytes : List ℕ) (i offset x : ℕ) (r : FileRecord)
      → find_record (lists d 1).records path 0 ≡ some (i, r)
      → r.lba ≢ 1
      → size_of r.attr ≤ 4096
      → offset + length bytes ≤ 4096
      → length bytes ≢ 0
      → (x < offset) ⊎ (offset + length bytes ≤ x)
      → (g : OpenFile) × (d' : D) × (node : Inode) × (d'' : D) × (h : OpenFile) × (d''' : D)
        × (write_file dev d (record { inode = inode_of 1 (i, r); offset = offset }) bytes
            ≡ some (some (length bytes), g, d'))
        × (search_lists dev (suc fuel) d' path 1 ≡ some (some node, d''))
        × (node.size ≡ max (size_of r.attr) (offset + length bytes))
        × (node.size ≤ 4096)
        × (read_file dev d'' (record { inode = node; offset = offset }) (length bytes)
            ≡ some (some bytes, h, d'''))
        × (blocks d' r.lba x ≡ blocks d r.lba x)
  unfolding search_lists
  write_file-read fuel d path bytes i offset x r found apart small fits more out =
      let f : OpenFile = record { inode = inode_of 1 (i, r); offset = offset } in
      let size = max (size_of r.attr) (offset + length bytes) in
      let (g, d', wrote, grown, stored, listed) = wrote_file d f bytes fits apart in
      let r' : FileRecord = resized size r in
      let node : Inode = inode_of 1 (i, r') in
      let d'' = (dev.read_list d' 1).1 in
      let again : find_record (lists d' 1).records path 0 ≡ some (i, r') =
        ap (λ us. find_record us path 0) listed
        ∙ find_record-resized (lists d 1).records path 0 i i size r (omega arith) found in
      let sized : node.size ≡ size = size_of-with_size r.attr size (ground arith) in
      let (h, d''', got) =
        read_file-gives d'' (record { inode = node; offset = offset }) (length bytes) more
          (ground arith) (ground arith) in
      (
        g,
        d',
        node,
        d'',
        h,
        d''',
        wrote,
        rw (search_lists, read_list_gives d' 1, again) refl,
        sized,
        ground arith,
        got
            ∙ ap (λ bs. some (some bs, h, d'''))
                (ap (λ (b : Ram). bytes_at b offset (length bytes))
                    ((read_list_keeps d' 1 r.lba).1 ∙ stored)
                  ∙ bytes_at-copy_in (blocks d r.lba) offset bytes),
        ap (λ (b : Ram). b x) stored ∙ copy_in-outside (blocks d r.lba) offset bytes x out,
      )
