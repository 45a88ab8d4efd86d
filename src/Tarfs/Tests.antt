-- ===== src/Tarfs/Tests.antt =====
-- Tests and examples for the archive: one file, at the address 1000, with the name `a` and ten bytes.
use sbu_os.Prelude.{
  ℕ, ◌+◌, ◌-◌, ◌^◌, ◌≡◌, inl, refl, some, List, [], ◌∷◌, arith, ◌==◌, if◌then◌else◌, min,
}
use sbu_os.Memory.{Ram}
use sbu_os.Memory.Laws.{within}
use sbu_os.Tarfs.{digit, shifted, read_oct, step, tarfs_read}
use sbu_os.Tarfs.Lookup.{File, Archive, tarfs_read-copies}

-- The size field holds `12`, and the path at 100 is `/a`.
abbrev ram : Ram
ram x =
    if x == 1000
    then b'a'
    else if x == 1124
    then b'1'
    else if x == 1125
    then b'2'
    else if x == 1512
    then 77
    else if x == 100
    then b'/'
    else if x == 101
    then b'a'
    else 0

ten : read_oct 3 ram 1124 ≡ some 10
unfolding read_oct
ten = refl

-- A size field of 2 GiB is negative for the code.
two_gib : shifted (digit b'2') 30 ≡ 2 ^ 64 - 2 ^ 31
two_gib = refl

no_size : step 0 ≡ 512
no_size = refl

abbrev files : List File
files = record { name = b'a' ∷ []; file_size = 10 } ∷ []

files-Archive : Archive 3 ram 1000 9000 1000 files
files-Archive = (refl, (refl, ground arith, refl), omega arith, ten, refl)

tarfs_read-copies_example :
    (m' : Ram) × (tarfs_read 3 ram 1000 9000 2 100 0 4 8 ≡ some (some (min 4 (10 - 8)), m'))
    × ((x : ℕ)
        → m' x ≡ (if within x 0 (min 4 (10 - 8)) then ram (1000 + 512 + 8 + (x - 0)) else ram x))
tarfs_read-copies_example =
    tarfs_read-copies 3 ram 1000 9000 2 100 0 4 8 (b'a' ∷ []) files 1000 10 files-Archive
      (refl, ground arith, refl) (omega arith) refl (omega arith) (omega arith) (omega arith)
      (omega arith) (inl (omega arith))
