-- ===== src/AddressSpace/Fork.antt =====
-- sys/thread/kthread.c, the memory of a new process in `fork_process`: its root table with the tables
-- of the kernel (`spawn_process` and `replace_process` begin with the same lines), the page of its
-- kernel stack, and the pages that it shares with its parent.
use sbu_os.Prelude.{
  ℕ, ◌+◌, ◌-◌, ◌*◌, ◌/◌, ◌%◌, ◌^◌, ◌<◌, ◌≡◌, ◌≢◌, refl, ap, sym, ◌∙◌, inl, inr, Bool, true, false,
  Option, some, some_inj, List, [], ◌∷◌, arith, if◌then◌else◌, ◌>>=◌, Option-cases,
}
use mathlib.Core.Path.{subst}
use sbu_os.Pages.{PageTable, get_phy_page_for_program}
use sbu_os.Paging.{Words, is_present, frame, slot, next_entry, write_word, pte_slot, translate_cr3}
use sbu_os.AddressSpace.{MMap, Space, zero_page, base_of_entry, table_entry, add_page_for_process}
use sbu_os.AddressSpace.Alloc.{
  page_of, IsTable, get_phy_page_for_program-Taken, NotFree-base, IsTable-Taken,
}
use sbu_os.AddressSpace.Tables.{next_entry-present}
use sbu_os.AddressSpace.Share.{share_maps}

-- An entry of the tables that every process has: P and RW are 1, US as given.
abbrev pub kernel_entry : (has_ps us : Bool) → (entry base : ℕ) → ℕ
kernel_entry has_ps us entry base = table_entry has_ps entry base - (if us then 0 else 4)

-- `((uint64_t*)table)[i] = …`
abbrev pub put_entry : Words → (table i : ℕ) → (has_ps us : Bool) → (base : ℕ) → Words
put_entry m table i has_ps us base =
    write_word m (table + 8 * i) (kernel_entry has_ps us (m (table + 8 * i)) base)

-- The words of the two tables.
unfoldable pub root_tables : Words → (kernel_base_pd kernel_malloc_pd pml4 pdp1 : ℕ) → Words
root_tables m kernel_base_pd kernel_malloc_pd pml4 pdp1 =
    let m0 = zero_page (zero_page m pml4) pdp1 in
    let m1 = put_entry m0 pml4 511 false true pdp1 in
    let m2 = put_entry m1 pml4 510 false false 0 in
    let m3 = put_entry m2 pdp1 511 true false kernel_base_pd in
    put_entry m3 pdp1 510 true false kernel_malloc_pd

abbrev pub table_map : (address kind phy_page : ℕ) → MMap
table_map address kind phy_page = record {
  address = address;
  kind = kind;
  shared = false;
  rw = false;
  vir_addr = 0;
  phy_page = phy_page;
}

-- The first lines of `fork_process`, down to the entries of `PDP1`.
unfoldable pub new_space : (kernel_base_pd kernel_malloc_pd : ℕ) → Space → Option Space
unfolding root_tables
new_space kernel_base_pd kernel_malloc_pd s = do
  (i, t) ← get_phy_page_for_program s.next_map s.table
  (j, u) ← get_phy_page_for_program (s.next_map + 1) t
  some (record {
    words =
        root_tables s.words kernel_base_pd kernel_malloc_pd (base_of_entry t i) (base_of_entry u j);
    table = u;
    first_map = table_map s.next_map 3 i ∷ table_map (s.next_map + 1) 1 j ∷ [];
    cr3 = base_of_entry t i;
    next_map = s.next_map + 2;
  })

-- `fork_process`, down to the end of its loop over the mappings of the parent.
unfoldable pub fork_space :
    (kernel_base_pd kernel_malloc_pd process_rsp0_start : ℕ) → (parent : Space) → Option Space
unfolding new_space add_page_for_process share_maps
fork_space kernel_base_pd kernel_malloc_pd process_rsp0_start parent = do
  child ← new_space kernel_base_pd kernel_malloc_pd parent
  (rsp0, with_stack) ← add_page_for_process child process_rsp0_start true 4
  share_maps parent.cr3 parent.first_map with_stack

-- Where an address stands in the two upper tables.
abbrev pub pml4_index : ℕ → ℕ
pml4_index v = v / 2 ^ 39 % 512

abbrev pub pdp_index : ℕ → ℕ
pdp_index v = v / 2 ^ 30 % 512

-- What the two tables say.
module _ (m : Words) (kernel_base_pd kernel_malloc_pd pml4 pdp1 : ℕ) (al4 : pml4 % 4096 ≡ 0)
    (al1 : pdp1 % 4096 ≡ 0) (apart : page_of pdp1 ≢ page_of pml4) where
  abbrev tables : Words
  unfolding root_tables
  tables = root_tables m kernel_base_pd kernel_malloc_pd pml4 pdp1

  upper_511 : tables (pml4 + 8 * 511) ≡ kernel_entry false true 0 pdp1
  unfolding tables root_tables
  upper_511 = ground arith

  lower_511 : tables (pdp1 + 8 * 511) ≡ kernel_entry true false 0 kernel_base_pd
  unfolding tables root_tables
  lower_511 = ground arith

  lower_510 : tables (pdp1 + 8 * 510) ≡ kernel_entry true false 0 kernel_malloc_pd
  unfolding tables root_tables
  lower_510 = ground arith

  upper_user : (i : ℕ) → i < 510 → tables (pml4 + 8 * i) ≡ 0
  unfolding tables root_tables
  upper_user i h = ground arith

  upper_510 : tables (pml4 + 8 * 510) ≡ kernel_entry false false 0 0
  unfolding tables root_tables
  upper_510 = ground arith

  lower_user : (i : ℕ) → i < 510 → tables (pdp1 + 8 * i) ≡ 0
  unfolding tables root_tables
  lower_user i h = ground arith

frame_aligned : (base : ℕ) → base % 4096 ≡ 0 → base < 2 ^ 52 → frame base ≡ base
frame_aligned base al small = omega arith

frame_entry :
    (has_ps us : Bool) (base : ℕ)
    → base % 4096 ≡ 0
    → base < 2 ^ 52
    → frame (kernel_entry has_ps us 0 base) ≡ base
frame_entry true true base al small = omega arith
frame_entry true false base al small = omega arith
frame_entry false true base al small = omega arith
frame_entry false false base al small = omega arith

-- The page directory that stands behind an address of the kernel, and that no user gets at.
pub record Directory (m : Words) (cr3 v pd : ℕ) : Type 0 where
  pub entry : ℕ
  pub walks : (next_entry m cr3 v 39 >>= λ e. next_entry m e v 30) ≡ some entry
  pub leads : frame entry ≡ pd
  pub kernel_only : entry / 4 % 2 ≡ 0

-- What a new space maps.
pub record KernelView (kernel_base_pd kernel_malloc_pd : ℕ) (u : Space) : Type 0 where
  pub base_pd :
      (v : ℕ) → pml4_index v ≡ 511 → pdp_index v ≡ 511 → Directory u.words u.cr3 v kernel_base_pd
  pub malloc_pd :
      (v : ℕ) → pml4_index v ≡ 511 → pdp_index v ≡ 510 → Directory u.words u.cr3 v kernel_malloc_pd
  pub no_user : (v : ℕ) → pml4_index v < 510 → translate_cr3 u.words u.cr3 v ≡ 0
  pub below : (v : ℕ) → pml4_index v ≡ 511 → pdp_index v < 510 → translate_cr3 u.words u.cr3 v ≡ 0
  pub physical :
      (v : ℕ)
      → pml4_index v ≡ 510
      → (entry : ℕ) × (next_entry u.words u.cr3 v 39 ≡ some entry)
        × (frame entry ≡ 0)
        × (entry / 4 % 2 ≡ 0)

entry_present : (has_ps us : Bool) (base : ℕ) → is_present (kernel_entry has_ps us 0 base) ≡ true
entry_present true true base = ground arith
entry_present true false base = ground arith
entry_present false true base = ground arith
entry_present false false base = ground arith

directory :
    (m : Words) (cr3 v pd pdp1 : ℕ)
    → m (slot cr3 v 39) ≡ kernel_entry false true 0 pdp1
    → m (slot (kernel_entry false true 0 pdp1) v 30) ≡ kernel_entry true false 0 pd
    → pd % 4096 ≡ 0
    → pd < 2 ^ 52
    → Directory m cr3 v pd
directory m cr3 v pd pdp1 e1 e2 al small =
    let upper = kernel_entry false true 0 pdp1 in
    let p1 = ap is_present e1 ∙ entry_present false true pdp1 in
    let p2 = ap is_present e2 ∙ entry_present true false pd in
    record {
      entry = kernel_entry true false 0 pd;
      walks =
          ap (λ o. o >>= (λ e. next_entry m e v 30)) (next_entry-present m cr3 v 39 p1 ∙ ap some e1)
          ∙ next_entry-present m upper v 30 p2
          ∙ ap some e2;
      leads = frame_entry true false pd al small;
      kernel_only = omega arith;
    }

missing_upper : (m : Words) (cr3 v : ℕ) → m (slot cr3 v 39) ≡ 0 → translate_cr3 m cr3 v ≡ 0
unfolding translate_cr3 pte_slot next_entry
missing_upper m cr3 v h = rw (translate_cr3, pte_slot, next_entry, h) refl

missing_lower :
    (m : Words) (cr3 v upper : ℕ)
    → m (slot cr3 v 39) ≡ upper
    → is_present upper ≡ true
    → m (slot upper v 30) ≡ 0
    → translate_cr3 m cr3 v ≡ 0
unfolding translate_cr3 pte_slot next_entry
missing_lower m cr3 v upper at here h = rw (translate_cr3, pte_slot, next_entry, at, here, h) refl

fresh :
    (m : Words) (kb km pml4 pdp1 : ℕ)
    → kb % 4096 ≡ 0
    → kb < 2 ^ 52
    → km % 4096 ≡ 0
    → km < 2 ^ 52
    → (pml4 % 4096 ≡ 0) × (pml4 < 2 ^ 52)
    → (pdp1 % 4096 ≡ 0) × (pdp1 < 2 ^ 52)
    → page_of pdp1 ≢ page_of pml4
    → (table : PageTable) (maps : List MMap) (next : ℕ)
    → KernelView kb km (record {
      words = root_tables m kb km pml4 pdp1;
      table = table;
      first_map = maps;
      cr3 = pml4;
      next_map = next;
    })
unfolding tables
fresh m kb km pml4 pdp1 alb smb alm smm (al4, sm4) (al1, sm1) apart table maps next =
    let w : Words = root_tables m kb km pml4 pdp1 in
    let upper = kernel_entry false true 0 pdp1 in
    let at4 : (v : ℕ) → slot pml4 v 39 ≡ pml4 + 8 * pml4_index v =
      λ v. ap (λ x. x + 8 * pml4_index v) (frame_aligned pml4 al4 sm4) in
    let at1 : (v : ℕ) → slot upper v 30 ≡ pdp1 + 8 * pdp_index v =
      λ v. ap (λ x. x + 8 * pdp_index v) (frame_entry false true pdp1 al1 sm1) in
    let to1 : (v : ℕ) → pml4_index v ≡ 511 → w (slot pml4 v 39) ≡ upper =
      λ v e. ap w (at4 v ∙ ap (λ x. pml4 + 8 * x) e) ∙ upper_511 m kb km pml4 pdp1 al4 al1 apart in
    record {
      base_pd = λ v e f.
          directory w pml4 v kb pdp1 (to1 v e)
            (ap w (at1 v ∙ ap (λ x. pdp1 + 8 * x) f) ∙ lower_511 m kb km pml4 pdp1 al4 al1 apart)
            alb smb;
      malloc_pd = λ v e f.
          directory w pml4 v km pdp1 (to1 v e)
            (ap w (at1 v ∙ ap (λ x. pdp1 + 8 * x) f) ∙ lower_510 m kb km pml4 pdp1 al4 al1 apart)
            alm smm;
      no_user = λ v l.
          missing_upper w pml4 v
            (ap w (at4 v) ∙ upper_user m kb km pml4 pdp1 al4 al1 apart (pml4_index v) l);
      below = λ v e l.
          missing_lower w pml4 v upper (to1 v e) (entry_present false true pdp1)
            (ap w (at1 v) ∙ lower_user m kb km pml4 pdp1 al4 al1 apart (pdp_index v) l);
      physical = λ v e.
          let at =
            ap w (at4 v ∙ ap (λ x. pml4 + 8 * x) e) ∙ upper_510 m kb km pml4 pdp1 al4 al1 apart in
          (
            kernel_entry false false 0 0,
            next_entry-present w pml4 v 39 (ap is_present at ∙ entry_present false false 0)
                ∙ ap some at,
            frame_entry false false 0 (omega arith) (omega arith),
            omega arith,
          );
    }

-- The directories of the kernel at aligned addresses of 52 bits, and page entries of different pages at
-- such addresses. Then a new address space, if there are pages for it, reaches the kernel's page
-- directory at the last gigabyte and that of its heap at the one before, by entries that no user program
-- may use; the entry 510 of the root table is present, not for users, and leads to the frame 0; and no
-- address is mapped that is below these two tables, or in the table of the last 512 gigabytes below the
-- two directories.
pub new_space-KernelView :
    (kernel_base_pd kernel_malloc_pd : ℕ) (s u : Space)
    → (kernel_base_pd % 4096 ≡ 0) × (kernel_base_pd < 2 ^ 52)
    → (kernel_malloc_pd % 4096 ≡ 0) × (kernel_malloc_pd < 2 ^ 52)
    → IsTable s.table
    → new_space kernel_base_pd kernel_malloc_pd s ≡ some u
    → KernelView kernel_base_pd kernel_malloc_pd u
unfolding new_space
new_space-KernelView kb km s u (alb, smb) (alm, smm) v h =
    elim (Option-cases (get_phy_page_for_program s.next_map s.table)) [
      | inl full ↦ absurd (cc (rw (new_space, full) at h))
      | inr ((i, t), got1) ↦ elim (Option-cases (get_phy_page_for_program (s.next_map + 1) t)) [
        | inl full ↦ absurd (cc (rw (new_space, got1, full) at h))
        | inr ((j, w), got2) ↦
            let k1 = get_phy_page_for_program-Taken s.next_map s.table t i got1 in
            let k2 = get_phy_page_for_program-Taken (s.next_map + 1) t w j got2 in
            let a1 = v.aligned i k1.entry k1.at in
            let a2 = (IsTable-Taken k1 v).aligned j k2.entry k2.at in
            let apart = NotFree-base k1 v j k2.entry k2.at k2.was_free in
            subst (KernelView kb km) (some_inj (rw (new_space, got1, got2) at h)) (
              fresh s.words kb km (base_of_entry t i) (base_of_entry w j) alb smb alm smm
                (subst (λ b. (b % 4096 ≡ 0) × (b < 2 ^ 52)) (sym k1.base_here) a1)
                (subst (λ b. (b % 4096 ≡ 0) × (b < 2 ^ 52)) (sym k2.base_here) a2)
                (λ z. apart (ap page_of (sym k2.base_here) ∙ z ∙ ap page_of k1.base_here)) w _
                (s.next_map + 2))
      ]
    ]
