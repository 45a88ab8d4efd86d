-- ===== src/Elf/Tests.antt =====
-- A file with one program header.
use sbu_os.Prelude.{
  ℕ, ◌-◌, ◌≡◌, refl, inr, some, List, [], ◌∷◌, ◌++◌, arith, replicate, leb, ltb, ◌&&◌, ◌==◌,
  if◌then◌else◌, get_or,
}
use sbu_os.Memory.{Ram}
use sbu_os.Tarfs.{read_oct}
use sbu_os.Elf.{field_at, section_from, elf64_sig, has_sig, read_elf_tarfs}
use sbu_os.Elf.Archive.{tarfs_reader, read_elf_tarfs-table}

abbrev zeros : ℕ → List ℕ
zeros n = replicate n 0

-- The entry point is 0x400100; the program header stands at 64, and says that the 0x20 bytes at 0x78
-- of the file come to 0x400000, in 0x30 bytes of memory.
abbrev file : List ℕ
file =
    elf64_sig
    ++ (zeros 8
        ++ ((0 ∷ 1 ∷ 0x40 ∷ [])
            ++ (zeros 5
                ++ (64
                    ∷ (zeros 23
                        ++ (1
                            ∷ (zeros 15
                                ++ (0x78
                                    ∷ (zeros 7
                                        ++ ((0 ∷ 0 ∷ 0x40 ∷ [])
                                            ++ (zeros 13
                                                ++ (0x20
                                                    ∷ (zeros 7 ++ (0x30 ∷ zeros 15))))))))))))))

-- It is the file `a` of an archive at 1000; the path `/a` is at 100.
abbrev ram : Ram
ram x =
    if x == 1000
    then b'a'
    else if x == 1124
    then b'1'
    else if x == 1125
    then b'7'
    else if x == 1126
    then b'0'
    else if x == 100
    then b'/'
    else if x == 101
    then b'a'
    else if leb 1512 x && ltb x 1632
    then get_or file (x - 1512) 0
    else 0

of_size : read_oct 4 ram 1124 ≡ some 120
unfolding read_oct
of_size = refl

read_elf_tarfs-table_example :
    (read_elf_tarfs (tarfs_reader 4 ram 1000 9000 2 100 9000) ram).0
    ≡ record {
      file_offset = 0x78;
      memory_offset = 0x400000;
      size = 0x20;
      mem_size = 0x30;
      entry_point = 0x400100;
    }
      ∷ []
unfolding field_at has_sig section_from
read_elf_tarfs-table_example =
    read_elf_tarfs-table 4 ram 1000 9000 2 100 9000 (b'a' ∷ [])
      (record { name = b'a' ∷ []; file_size = 120 } ∷ []) 1000 120
      (refl, (refl, ground arith, refl), omega arith, of_size, refl) (refl, ground arith, refl)
      (omega arith) refl (omega arith) (inr (omega arith)) (omega arith)
