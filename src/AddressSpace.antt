-- ===== src/AddressSpace.antt =====
-- sys/thread/kthread.c, the pages of a process: `add_new_m_map_for_process`, `add_page_for_process`
-- and `map_page_for_process`, over the memory in words that Paging walks and the table of Pages.
pub mod Alloc
pub mod Entries
pub mod Tables
pub mod Translate
pub mod Total
pub mod Share
pub mod Kept
pub mod Steps
pub mod Fault
pub mod Split
pub mod Shared
pub mod PageFault
pub mod Fork
mod Tests
use sbu_os.Prelude.{
  ℕ, zero, suc, ◌+◌, ◌-◌, ◌*◌, ◌/◌, ◌%◌, ◌^◌, Bool, true, false, ◌&&◌, Option, none, some, List, [],
  ◌∷◌, ◌++◌, ltb, leb, ◌==◌, if◌then◌else◌, ◌>>=◌, get_elem?,
}
use sbu_os.Pages.{PageEntry, PageTable, get_phy_page_for_program}
use sbu_os.Paging.{Words, is_present, slot, write_word}

-- `m_map`, with its own address; `phy_page` is the index of its page entry.
pub record MMap : Type 0 where
  pub address : ℕ
  pub kind : ℕ
  pub shared : Bool
  pub rw : Bool
  pub vir_addr : ℕ
  pub phy_page : ℕ

-- The memory, the page entries, the mappings of the process, and the address of the next `m_map`.
pub record Space : Type 0 where
  pub words : Words
  pub table : PageTable
  pub first_map : List MMap
  pub cr3 : ℕ
  pub next_map : ℕ

-- `memset(base, 0, 4096)`
abbrev pub zero_page : Words → (base : ℕ) → Words
zero_page m base b = if leb base b && ltb b (base + 4096) then 0 else m b

-- `base` of a page entry.
abbrev pub base_of_entry : PageTable → ℕ → ℕ
base_of_entry t i = elim (get_elem? t i) [ none ↦ 0 | some e ↦ e.base ]

-- `add_new_m_map_for_process`, with `phy_page->base`; without a free page it writes through NULL,
-- which is `none`.
unfoldable pub add_new_m_map_for_process :
    Space → (kind : ℕ) → (shared rw : Bool) → (vir_addr : ℕ) → Option (ℕ × Space)
add_new_m_map_for_process s kind shared rw vir_addr = do
  (i, table) ← get_phy_page_for_program s.next_map s.table
  some (
    base_of_entry table i,
    record s {
      words = zero_page s.words (base_of_entry table i);
      table = table;
      first_map =
          s.first_map
          ++ (record {
            address = s.next_map;
            kind = kind;
            shared = shared;
            rw = rw;
            vir_addr = vir_addr;
            phy_page = i;
          }
              ∷ []);
      next_map = s.next_map + 1;
    },
  )

-- The fields that make an entry lead to a table: P, RW and US are 1, PS is 0 where there is one, and
-- `PDPE_addr`. The other bits stay.
abbrev pub table_entry : (has_ps : Bool) → (entry base : ℕ) → ℕ
table_entry has_ps entry base =
    let rest =
      if has_ps
      then entry / 8 % 2 ^ 4 * 8 + entry / 2 ^ 8 % 2 ^ 4 * 2 ^ 8
      else entry / 8 % 2 ^ 9 * 8 in
    entry / 2 ^ 52 * 2 ^ 52 + base / 4096 % 2 ^ 40 * 4096 + rest + 7

-- The fields of a page table entry: P and US are 1, RW and `PDPE_addr`.
abbrev pub page_table_entry : (rw : Bool) → (entry base : ℕ) → ℕ
page_table_entry rw entry base =
    entry / 2 ^ 52 * 2 ^ 52
    + base / 4096 % 2 ^ 40 * 4096
    + entry / 8 % 2 ^ 9 * 8
    + (if rw then 7 else 5)

-- One level: if the entry at `a` is not present, it gets a new table.
unfoldable pub ensure_table : (has_ps : Bool) → Space → (a : ℕ) → Option Space
unfolding add_new_m_map_for_process
ensure_table has_ps s a = if is_present (s.words a) then some s else (do
  (base, t) ← add_new_m_map_for_process s 1 false false 0
  let m = zero_page t.words base
  some (record t { words = write_word m a (table_entry has_ps (m a) base) }))

-- The levels one after the other, each by its shift and whether its entries have PS: what the last one
-- leads to, and the state.
unfoldable pub make_tables : List (ℕ × Bool) → Space → (entry new_address : ℕ) → Option (ℕ × Space)
unfolding ensure_table
make_tables [] s entry new_address = some (entry, s)
make_tables ((shift, has_ps) ∷ levels) s entry new_address = do
  t ← ensure_table has_ps s (slot entry new_address shift)
  make_tables levels t (t.words (slot entry new_address shift)) new_address

-- The levels of `pml4e`, `pdpe` and `pde`.
abbrev pub upper_levels : List (ℕ × Bool)
upper_levels = (39, false) ∷ (30, true) ∷ (21, true) ∷ []

-- `add_page_for_process`, with its result.
unfoldable pub add_page_for_process :
    Space → (new_address : ℕ) → (rw : Bool) → (map_type : ℕ) → Option (ℕ × Space)
unfolding make_tables add_new_m_map_for_process
add_page_for_process s new_address rw map_type = do
  (pt, t) ← make_tables upper_levels s s.cr3 new_address
  (dest, u) ← add_new_m_map_for_process t map_type false rw new_address
  let pte = slot pt new_address 12
  some (dest, record u { words = write_word u.words pte (page_table_entry rw (u.words pte) dest) })

-- `map_page_for_process`
unfoldable pub map_page_for_process :
    Space → (new_address : ℕ) → (rw : Bool) → (map_type points_to : ℕ) → Option (ℕ × Space)
unfolding make_tables
map_page_for_process s new_address rw map_type points_to = do
  (pt, t) ← make_tables upper_levels s s.cr3 new_address
  let pte = slot pt new_address 12
  some (
    points_to,
    record t { words = write_word t.words pte (page_table_entry rw (t.words pte) points_to) },
  )
