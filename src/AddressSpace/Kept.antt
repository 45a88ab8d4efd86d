-- ===== src/AddressSpace/Kept.antt =====
-- A page entry that is in use stays as it is while a process gets pages.
use sbu_os.Prelude.{
  ℕ, ◌≡◌, ◌≢◌, ap, sym, ◌∙◌, inl, inr, Bool, false, some, some_inj, List, [], ◌∷◌, arith,
  Bool-cases, Option-cases, get_elem?, get_elem?-modify_ne,
}
use mathlib.Core.Path.{subst}
use sbu_os.Pages.{PageEntry, PageTable, is_used, find_free_page_entry, get_phy_page_for_program}
use sbu_os.Pages.Find.{IsFirstFree, find_free_page_entry-IsFirstFree}
use sbu_os.Paging.{is_present, slot}
use sbu_os.AddressSpace.{Space, add_new_m_map_for_process, ensure_table, make_tables}
use sbu_os.AddressSpace.Alloc.{page_of, given, NotFree, IsTable}

-- Every entry of `t` that is in use stands in `u` too.
abbrev pub Keeps : PageTable → PageTable → Type 0
Keeps t u =
    (j : ℕ) (e : PageEntry) → get_elem? t j ≡ some e → e.used_by ≢ 0 → get_elem? u j ≡ some e

get_phy_page_for_program-Keeps :
    (map : ℕ) (t u : PageTable) (i : ℕ) → get_phy_page_for_program map t ≡ some (i, u) → Keeps t u
unfolding get_phy_page_for_program
get_phy_page_for_program-Keeps map t u i h j e at busy =
    elim (Option-cases (find_free_page_entry t)) [
      | inl full ↦ absurd (cc (rw (get_phy_page_for_program, full) at h))
      | inr (k, found) ↦
          let pair = some_inj (rw (get_phy_page_for_program, found) at h) in
          let free : is_used (get_elem? t k) ≡ false =
            (subst (IsFirstFree t) found (find_free_page_entry-IsFirstFree t)).0 in
          let differ : k ≢ j = λ z.
            let used : is_used (get_elem? t j) ≡ false =
              ap (λ x. is_used (get_elem? t x)) (sym z) ∙ free in
            busy (ground (arith, ap is_used at)) in
          subst (λ (q : ℕ × PageTable). get_elem? q.1 j ≡ some e) pair
            (get_elem?-modify_ne t k j (given map) differ ∙ at)
    ]

pub add_new_m_map_for_process-Keeps :
    (s u : Space) (kind vir_addr base : ℕ) (shared rw' : Bool)
    → add_new_m_map_for_process s kind shared rw' vir_addr ≡ some (base, u)
    → Keeps s.table u.table
unfolding add_new_m_map_for_process
add_new_m_map_for_process-Keeps s u kind vir_addr base shared rw' h =
    elim (Option-cases (get_phy_page_for_program s.next_map s.table)) [
      | inl full ↦ absurd (cc (rw (add_new_m_map_for_process, full) at h))
      | inr ((i, t), got) ↦
          let e = some_inj (rw (add_new_m_map_for_process, got) at h) in
          subst (λ (q : ℕ × Space). Keeps s.table q.1.table) e
            (get_phy_page_for_program-Keeps s.next_map s.table t i got)
    ]

ensure_table-Keeps :
    (has_ps : Bool) (s t : Space) (a : ℕ) → ensure_table has_ps s a ≡ some t → Keeps s.table t.table
unfolding ensure_table
ensure_table-Keeps has_ps s t a h = elim (Bool-cases (is_present (s.words a))) [
  | inl there ↦
      subst (λ (x : Space). Keeps s.table x.table) (some_inj (rw (ensure_table, there) at h))
        (λ j e at busy. at)
  | inr missing ↦ elim (Option-cases (add_new_m_map_for_process s 1 false false 0)) [
    | inl full ↦ absurd (cc (rw (ensure_table, missing, full) at h))
    | inr ((base, u), got) ↦
        subst (λ (x : Space). Keeps s.table x.table)
          (some_inj (rw (ensure_table, missing, got) at h))
          (add_new_m_map_for_process-Keeps s u 1 0 base false false got)
  ]
]

pub make_tables-Keeps :
    (levels : List (ℕ × Bool)) (s u : Space) (entry new_address pt : ℕ)
    → make_tables levels s entry new_address ≡ some (pt, u)
    → Keeps s.table u.table
unfolding make_tables
make_tables-Keeps [] s u entry new_address pt h =
    subst (λ (q : ℕ × Space). Keeps s.table q.1.table) (some_inj h) (λ j e at busy. at)
make_tables-Keeps ((shift, has_ps) ∷ levels) s u entry new_address pt h =
    let a = slot entry new_address shift in
    elim (Option-cases (ensure_table has_ps s a)) [
      | inl fails ↦ absurd (cc (rw (make_tables, fails) at h))
      | inr (t, ensured) ↦ λ j e at busy.
          make_tables-Keeps levels t u (t.words a) new_address pt (rw (make_tables, ensured) at h) j
            e (ensure_table-Keeps has_ps s t a ensured j e at busy) busy
    ]

-- The page of an entry in use is no page of a free one.
pub NotFree-used :
    (t : PageTable) (j : ℕ) (e : PageEntry)
    → IsTable t
    → get_elem? t j ≡ some e
    → e.used_by ≢ 0
    → NotFree t (page_of e.base)
NotFree-used t j e v at busy i f at' free z =
    v.apart i j f e
      (λ same. busy (
        ap (λ (x : PageEntry). x.used_by) (some_inj (sym at ∙ ap (get_elem? t) (sym same) ∙ at'))
        ∙ free))
      at' at z
