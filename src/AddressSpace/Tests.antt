-- ===== src/AddressSpace/Tests.antt =====
-- A process with an empty root table gets a page.
use sbu_os.Prelude.{
  ℕ, zero, suc, ◌+◌, ◌*◌, ◌%◌, ◌^◌, ◌<◌, ◌≡◌, ◌≢◌, refl, ap, sym, ◌∙◌, true, false, none, some,
  some_inj, List, [], ◌∷◌, arith, get_elem?, length,
}
use sbu_os.Pages.{PageEntry, PageTable, get_phy_page_for_program, find_free_page_entry}
use sbu_os.Pages.Use.{UsedBy}
use sbu_os.Paging.{is_present, slot, translate_cr3}
use sbu_os.AddressSpace.{
  MMap, Space, add_new_m_map_for_process, ensure_table, make_tables, upper_levels,
  add_page_for_process,
}
use sbu_os.AddressSpace.Alloc.{page_of, NotFree, IsTable}
use sbu_os.AddressSpace.Tables.{Safe}
use sbu_os.AddressSpace.Translate.{translate_cr3-add_page_for_process}
use sbu_os.AddressSpace.Fault.{find_map, check_and_handle_rw_page_fault}
use sbu_os.AddressSpace.Split.{Removed, check_and_handle_rw_page_fault-splits}
use sbu_os.AddressSpace.PageFault.{Faulting, Answers, page_fault, page_fault-Answered}
use sbu_os.AddressSpace.Fork.{new_space, KernelView, new_space-KernelView}
use sbu_os.AddressSpace.Total.{add_page_for_process_total}

-- Pages from page `k` on, each with its users; one without users is free.
abbrev pages : (users : List (List ℕ)) → (k : ℕ) → PageTable
pages [] k = []
pages ([] ∷ us) k = record { base = k * 4096; used_by = 0; use_record = [] } ∷ pages us (k + 1)
pages ((c ∷ cs) ∷ us) k =
    record { base = k * 4096; used_by = 3; use_record = c ∷ cs } ∷ pages us (k + 1)

pages-base :
    (us : List (List ℕ)) (k i : ℕ) (e : PageEntry)
    → get_elem? (pages us k) i ≡ some e
    → e.base ≡ (k + i) * 4096
pages-base [] k i e h = absurd (cc h)
pages-base ([] ∷ us) k zero e h = ap (λ (x : PageEntry). x.base) (some_inj (sym h)) ∙ omega arith
pages-base ((c ∷ cs) ∷ us) k zero e h =
    ap (λ (x : PageEntry). x.base) (some_inj (sym h)) ∙ omega arith
pages-base ([] ∷ us) k (suc i) e h = pages-base us (k + 1) i e h ∙ omega arith
pages-base ((c ∷ cs) ∷ us) k (suc i) e h = pages-base us (k + 1) i e h ∙ omega arith

pages-inside :
    (us : List (List ℕ)) (k i : ℕ) (e : PageEntry)
    → get_elem? (pages us k) i ≡ some e
    → i < length us
pages-inside [] k i e h = absurd (cc h)
pages-inside ([] ∷ us) k zero e h = omega arith
pages-inside ((c ∷ cs) ∷ us) k zero e h = omega arith
pages-inside ([] ∷ us) k (suc i) e h = omega (arith, pages-inside us (k + 1) i e h)
pages-inside ((c ∷ cs) ∷ us) k (suc i) e h = omega (arith, pages-inside us (k + 1) i e h)

pages-IsTable : (us : List (List ℕ)) (k : ℕ) → k + length us < 2 ^ 40 → IsTable (pages us k)
pages-IsTable us k small = record {
  apart = λ i j e f ne at1 at2 z.
      let b = pages-base us k i e at1 in let c = pages-base us k j f at2 in ne (omega arith);
  aligned = λ i e at.
      let b = pages-base us k i e at in
      let l = pages-inside us k i e at in (omega arith, omega arith);
}

abbrev four_free : List (List ℕ)
four_free = [] ∷ [] ∷ [] ∷ [] ∷ []

-- The root table is page 1, and the pages from 1024 on are free.
abbrev space : Space
space = record {
  words = λ a. 0;
  table = pages four_free 1024;
  first_map = [];
  cr3 = 4096;
  next_map = 80;
}

space-IsTable : IsTable space.table
space-IsTable = pages-IsTable four_free 1024 (omega arith)

space-Safe : Safe upper_levels space space.cr3 0x401234 []
space-Safe = (
  tt,
  λ i e at free z. let b = pages-base four_free 1024 i e at in omega arith,
  λ p. absurd (cc p),
)

-- The space with the page.
abbrev after : Space
unfolding add_page_for_process make_tables ensure_table add_new_m_map_for_process
    get_phy_page_for_program find_free_page_entry
after = elim (add_page_for_process space 0x401234 true 2) [ none ↦ space | some (dest, u) ↦ u ]

-- The three tables take the first pages, and the page is the fourth one.
translate_cr3-add_page_for_process_example :
    (translate_cr3 after.words 4096 0x401234 ≡ 1027 * 4096 + 0x234)
    × ((1027 * 4096) % 4096 ≡ 0)
    × NotFree after.table (page_of (1027 * 4096))
unfolding after add_page_for_process make_tables ensure_table add_new_m_map_for_process
    get_phy_page_for_program find_free_page_entry
translate_cr3-add_page_for_process_example =
    translate_cr3-add_page_for_process space after 0x401234 2 (1027 * 4096) true space-IsTable
      space-Safe refl

add_page_for_process_total_example :
    (dest : ℕ) × (u : Space) × (add_page_for_process space 0x401234 true 2 ≡ some (dest, u))
add_page_for_process_total_example = add_page_for_process_total space 0x401234 2 true (omega arith)

-- A new address space in the four free pages.
abbrev newborn : Space
unfolding new_space get_phy_page_for_program find_free_page_entry
newborn = elim (new_space 0x7000 0x8000 space) [ none ↦ space | some u ↦ u ]

new_space-KernelView_example : KernelView 0x7000 0x8000 newborn
unfolding newborn new_space get_phy_page_for_program find_free_page_entry
new_space-KernelView_example =
    new_space-KernelView 0x7000 0x8000 space newborn (omega arith, omega arith)
      (omega arith, omega arith) space-IsTable refl

-- Page 1028 is used by the mapping 70 of the process, and the mapping 60 of another one.
abbrev shared_use : List (List ℕ)
shared_use = [] ∷ [] ∷ [] ∷ [] ∷ (60 ∷ 70 ∷ []) ∷ []

abbrev shared_entry : PageEntry
shared_entry = record { base = 1028 * 4096; used_by = 3; use_record = 60 ∷ 70 ∷ [] }

abbrev root_map : MMap
root_map = record { address = 50; kind = 3; shared = false; rw = false; vir_addr = 0; phy_page = 9 }

abbrev text_map : MMap
text_map = record {
  address = 70;
  kind = 2;
  shared = true;
  rw = true;
  vir_addr = 0x401000;
  phy_page = 4;
}

abbrev forked : Space
forked = record {
  words = λ a. a;
  table = pages shared_use 1024;
  first_map = root_map ∷ text_map ∷ [];
  cr3 = 4096;
  next_map = 80;
}

forked-Safe :
    (addr : ℕ)
    → is_present (forked.words (slot 4096 addr 39)) ≡ false
    → Safe upper_levels forked 4096 addr (1028 ∷ [])
forked-Safe addr missing = (
  (omega arith, tt),
  λ i e at free z. let b = pages-base shared_use 1024 i e at in omega arith,
  λ p. absurd (cc),
)

check_and_handle_rw_page_fault-splits_example :
    (u : Space) × (dest : ℕ) × (more : List MMap) × (left_maps : List MMap) × (e' : PageEntry)
    × (check_and_handle_rw_page_fault forked 0x401234 ≡ some (true, u))
    × (translate_cr3 u.words 4096 0x401234 ≡ dest + 0x234)
    × (dest % 4096 ≡ 0)
    × (page_of dest ≢ 1028)
    × ((k : ℕ) → k < 4096 → u.words (dest + k) ≡ 1028 * 4096 + k)
    × ((k : ℕ) → k < 4096 → u.words (1028 * 4096 + k) ≡ 1028 * 4096 + k)
    × (get_elem? u.table 4 ≡ some e')
    × UsedBy e' (60 ∷ [])
    × (u.first_map ≡ root_map ∷ left_maps)
    × Removed 70 (text_map ∷ more) left_maps
unfolding find_map
check_and_handle_rw_page_fault-splits_example =
    check_and_handle_rw_page_fault-splits forked 0x401234 root_map text_map (text_map ∷ [])
      shared_entry (pages-IsTable shared_use 1024 (omega arith)) (omega arith) refl refl refl refl
      (record { shared = λ e h. absurd (cc h); distinct = (refl, (refl, tt)) }) refl
      (forked-Safe 0x401234 refl)

-- A process that writes to its heap.
abbrev faulting : Faulting
faulting = record {
  space = record space { first_map = root_map ∷ [] };
  heap_start = 0x400000;
  heap_break = 0x500000;
  rsp_current = 2 ^ 40;
  sig_handler = 0;
  sig_pending = 0;
  on_hold = false;
  terminated = false;
}

page_fault-Answered_example :
    Answers (2 ^ 40) 6 [] (page_fault (2 ^ 40) faulting 6 0x401234) faulting 0x401234
unfolding find_map
page_fault-Answered_example =
    page_fault-Answered (2 ^ 40) faulting 6 0x401234 root_map [] space-IsTable (omega arith)
      space-Safe refl (λ m found can. absurd (cc))
