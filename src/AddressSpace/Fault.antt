-- ===== src/AddressSpace/Fault.antt =====
-- sys/thread/kthread.c, `check_and_handle_rw_page_fault`: a write to a page that is shared gives the
-- process a copy of its own.
use sbu_os.Prelude.{
  ℕ, ◌+◌, ◌-◌, ◌/◌, Bool, true, false, Option, none, some, List, [], ◌∷◌, ltb, leb, ◌&&◌, ◌==◌,
  if◌then◌else◌, ◌>>=◌,
}
use sbu_os.Pages.{free_page_for_program}
use sbu_os.Paging.{Words}
use sbu_os.AddressSpace.{MMap, Space, base_of_entry, add_page_for_process}
use sbu_os.AddressSpace.Share.{change_entry}

-- `memcpy(dest, src, 4096)` between two pages
abbrev pub copy_page : Words → (dest src : ℕ) → Words
copy_page m dest src b = if leb dest b && ltb b (dest + 4096) then m (src + (b - dest)) else m b

-- The mapping that the loop stops at.
unfoldable pub find_map : (addr : ℕ) → List MMap → Option MMap
find_map addr [] = none
find_map addr (m ∷ ms) =
    let rest = find_map addr ms in
    if m.kind == 2 && (m.vir_addr / 4096) == (addr / 4096) then some m else rest

-- `map_cur->next = map_cur->next->next`, for the mapping at an address.
unfoldable pub unlink_map : (address : ℕ) → List MMap → List MMap
unlink_map address [] = []
unlink_map address (m ∷ ms) =
    let rest = unlink_map address ms in if m.address == address then ms else m ∷ rest

-- The mappings behind the first one, at which the loop starts; with none at all it reads through NULL.
unfoldable pub behind_first : List MMap → Option (MMap × List MMap)
behind_first [] = none
behind_first (m ∷ ms) = some (m, ms)

-- `check_and_handle_rw_page_fault`, with its result.
unfoldable pub check_and_handle_rw_page_fault : Space → (addr : ℕ) → Option (Bool × Space)
unfolding behind_first find_map unlink_map add_page_for_process free_page_for_program
check_and_handle_rw_page_fault s addr = do
  (first, maps) ← behind_first s.first_map
  elim (find_map addr maps) [
    | none ↦ some (false, s)
    | some m ↦
        if m.rw
        then (do
          (new_page, t) ← add_page_for_process s addr true 2
          table ← change_entry t.table m.phy_page (free_page_for_program m.address)
          (first', maps') ← behind_first t.first_map
          some (
            true,
            record t {
              words = copy_page t.words new_page (base_of_entry t.table m.phy_page);
              table = table;
              first_map = first' ∷ unlink_map m.address maps';
            },
          ))
        else some (false, s)
  ]
