-- ===== src/AddressSpace/Total.antt =====
-- With enough free pages every step returns.
use sbu_os.Prelude.{
  ℕ, zero, suc, ◌+◌, ◌≤◌, ◌≡◌, refl, inl, inr, Bool, true, false, some, some_inj, List, [], ◌∷◌,
  arith, ◌==◌, if◌then◌else◌, Bool-cases, Option-cases, get_elem?, modify, length,
}
use mathlib.Core.Path.{subst}
use sbu_os.Pages.{PageTable, is_used, find_free_page_entry, get_phy_page_for_program}
use sbu_os.Pages.Find.{IsFirstFree, find_free_page_entry-IsFirstFree}
use sbu_os.Paging.{is_present, slot}
use sbu_os.AddressSpace.{
  Space, add_new_m_map_for_process, ensure_table, make_tables, upper_levels, add_page_for_process,
}
use sbu_os.AddressSpace.Alloc.{given}

-- The number of the page entries that are free.
abbrev pub free_count : PageTable → ℕ
free_count [] = 0
free_count (e ∷ t) = (if e.used_by == 0 then 1 else 0) + free_count t

free_count-none : (t : PageTable) → ((i : ℕ) → is_used (get_elem? t i) ≡ true) → free_count t ≡ 0
free_count-none [] h = refl
free_count-none (e ∷ t) h = ground (arith, h 0, free_count-none t (λ i. h (suc i)))

free_count-modify :
    (t : PageTable) (map i : ℕ)
    → is_used (get_elem? t i) ≡ false
    → suc (free_count (modify t i (given map))) ≡ free_count t
free_count-modify [] map i h = absurd (cc h)
free_count-modify (e ∷ t) map zero h = ground arith
free_count-modify (e ∷ t) map (suc i) h = omega (arith, free_count-modify t map i h)

get_phy_page_for_program_total :
    (map n : ℕ) (t : PageTable)
    → suc n ≤ free_count t
    → (i : ℕ) × (u : PageTable) × (get_phy_page_for_program map t ≡ some (i, u))
      × (n ≤ free_count u)
unfolding get_phy_page_for_program
get_phy_page_for_program_total map n t h = elim (Option-cases (find_free_page_entry t)) [
  | inl full ↦
      let none' =
        free_count-none t (subst (IsFirstFree t) full (find_free_page_entry-IsFirstFree t)) in
      absurd (omega arith)
  | inr (i, found) ↦
      let free : is_used (get_elem? t i) ≡ false =
        (subst (IsFirstFree t) found (find_free_page_entry-IsFirstFree t)).0 in
      let one = free_count-modify t map i free in
      (i, modify t i (given map), rw (get_phy_page_for_program, found) refl, omega arith)
]

add_new_m_map_for_process_total :
    (s : Space) (n kind vir_addr : ℕ) (shared rw' : Bool)
    → suc n ≤ free_count s.table
    → (base : ℕ) × (u : Space) × (add_new_m_map_for_process s kind shared rw' vir_addr
        ≡ some (base, u))
      × (n ≤ free_count u.table)
unfolding add_new_m_map_for_process
add_new_m_map_for_process_total s n kind vir_addr shared rw' h =
    let (i, t, e, more) = get_phy_page_for_program_total s.next_map n s.table h in
    elim (Option-cases (add_new_m_map_for_process s kind shared rw' vir_addr)) [
      | inl fails ↦ absurd (cc (rw (add_new_m_map_for_process, e) at fails))
      | inr ((base, u), works) ↦
          let same = some_inj (rw (add_new_m_map_for_process, e) at works) in
          (base, u, works, subst (λ (q : ℕ × Space). n ≤ free_count q.1.table) same more)
    ]

ensure_table_total :
    (has_ps : Bool) (s : Space) (a n : ℕ)
    → suc n ≤ free_count s.table
    → (t : Space) × (ensure_table has_ps s a ≡ some t) × (n ≤ free_count t.table)
unfolding ensure_table
ensure_table_total has_ps s a n h = elim (Bool-cases (is_present (s.words a))) [
  | inl there ↦ (s, rw (ensure_table, there) refl, omega arith)
  | inr missing ↦
      let (base, u, e, more) = add_new_m_map_for_process_total s n 1 0 false false h in
      elim (Option-cases (ensure_table has_ps s a)) [
        | inl fails ↦ absurd (cc (rw (ensure_table, missing, e) at fails))
        | inr (t, works) ↦
            let same = some_inj (rw (ensure_table, missing, e) at works) in
            (t, works, subst (λ (q : Space). n ≤ free_count q.table) same more)
      ]
]

pub make_tables_total :
    (levels : List (ℕ × Bool)) (s : Space) (entry new_address n : ℕ)
    → length levels + n ≤ free_count s.table
    → (pt : ℕ) × (t : Space) × (make_tables levels s entry new_address ≡ some (pt, t))
      × (n ≤ free_count t.table)
unfolding make_tables
make_tables_total [] s entry new_address n h = (entry, s, refl, omega arith)
make_tables_total ((shift, has_ps) ∷ levels) s entry new_address n h =
    let a = slot entry new_address shift in
    let (t, e, more) = ensure_table_total has_ps s a (length levels + n) (omega arith) in
    let (pt, u, e', more') = make_tables_total levels t (t.words a) new_address n more in
    (pt, u, rw (make_tables, e) e', more')

-- With four free pages, one for each table that may be missing and one for the page itself,
-- `add_page_for_process` returns.
pub add_page_for_process_total :
    (s : Space) (new_address map_type : ℕ) (rw' : Bool)
    → 4 ≤ free_count s.table
    → (dest : ℕ) × (u : Space) × (add_page_for_process s new_address rw' map_type ≡ some (dest, u))
unfolding add_page_for_process
add_page_for_process_total s new_address map_type rw' h =
    let (pt, t, e, more) = make_tables_total upper_levels s s.cr3 new_address 1 h in
    let (base, w, e', more') =
      add_new_m_map_for_process_total t 0 map_type new_address false rw' more in
    elim (Option-cases (add_page_for_process s new_address rw' map_type)) [
      | inl fails ↦ absurd (cc (rw (add_page_for_process, e, e') at fails))
      | inr ((dest, u), works) ↦ (dest, u, works)
    ]
