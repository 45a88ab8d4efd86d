-- ===== src/AddressSpace/Share.antt =====
-- sys/thread/kthread.c, the pages that a fork shares: `dup_new_m_map_for_process`,
-- `dup_page_for_process` and the loop of `fork_process` over the mappings of the parent.
use sbu_os.Prelude.{
  ℕ, ◌+◌, Bool, true, false, Option, none, some, List, [], ◌∷◌, ◌++◌, ◌==◌, if◌then◌else◌, ◌>>=◌,
  get_elem?, modify,
}
use sbu_os.Pages.{PageEntry, PageTable, dup_page_for_program}
use sbu_os.Paging.{is_present, frame, slot, write_word, set_pte_rw}
use sbu_os.AddressSpace.{MMap, Space, base_of_entry, page_table_entry, make_tables, upper_levels}

-- An entry of the table, changed by a call that may hang.
abbrev pub change_entry : PageTable → ℕ → (PageEntry → Option PageEntry) → Option PageTable
change_entry t i f = do e ← get_elem? t i; e' ← f e; some (modify t i (λ _. e'))

-- `dup_new_m_map_for_process`; `old_page` is the index of a page entry.
unfoldable pub dup_new_m_map_for_process :
    Space → (kind : ℕ) → (shared rw : Bool) → (vir_addr old_page : ℕ) → Option Space
unfolding dup_page_for_program
dup_new_m_map_for_process s kind shared rw vir_addr old_page = do
  table ← change_entry s.table old_page (dup_page_for_program s.next_map)
  some (record s {
    table = table;
    first_map =
        s.first_map
        ++ (record {
          address = s.next_map;
          kind = kind;
          shared = shared;
          rw = rw;
          vir_addr = vir_addr;
          phy_page = old_page;
        }
            ∷ []);
    next_map = s.next_map + 1;
  })

-- `dup_page_for_process`, with its result: the page that stands at the address afterwards.
unfoldable pub dup_page_for_process :
    Space → (new_address : ℕ) → (rw : Bool) → (ptr_to : ℕ) → Option (ℕ × Space)
unfolding make_tables dup_new_m_map_for_process
dup_page_for_process s new_address rw ptr_to = do
  (pt, t) ← make_tables upper_levels s s.cr3 new_address
  let pte = slot pt new_address 12
  if is_present (t.words pte) then some (frame (t.words pte), t) else (do
    u ← dup_new_m_map_for_process t 2 true rw new_address ptr_to
    let dest = base_of_entry u.table ptr_to
    some (
      dest,
      record u { words = write_word u.words pte (page_table_entry false (u.words pte) dest) },
    ))

-- The loop of `fork_process`, on the space of the child: each mapping of the parent with type 2 is made
-- read-only for the parent, whose tables `parent_cr3` leads to, and then shared.
unfoldable pub share_maps : (parent_cr3 : ℕ) → List MMap → Space → Option Space
unfolding set_pte_rw dup_page_for_process
share_maps parent_cr3 [] s = some s
share_maps parent_cr3 (m ∷ ms) s =
    if m.kind == 2
    then (let (reached, words) = set_pte_rw s.words parent_cr3 m.vir_addr false in
        if reached
        then (do
          (dest, t) ← dup_page_for_process (record s { words = words }) m.vir_addr m.rw m.phy_page
          share_maps parent_cr3 ms t)
        else none)
    else share_maps parent_cr3 ms s
