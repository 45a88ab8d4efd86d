-- ===== src/AddressSpace/Steps.antt =====
-- The steps of `add_page_for_process`, and the mappings that they append.
use sbu_os.Prelude.{
  ℕ, ◌≡◌, refl, ap, sym, ◌∙◌, inl, inr, Bool, false, some, some_inj, List, [], ◌∷◌, ◌++◌,
  append-nil, append_assoc, Bool-cases, Option-cases,
}
use mathlib.Core.Path.{subst}
use sbu_os.Pages.{get_phy_page_for_program}
use sbu_os.Paging.{is_present, slot, write_word}
use sbu_os.AddressSpace.{
  MMap, Space, page_table_entry, add_new_m_map_for_process, ensure_table, make_tables, upper_levels,
  add_page_for_process,
}
use sbu_os.AddressSpace.Kept.{Keeps, add_new_m_map_for_process-Keeps, make_tables-Keeps}

-- The second list goes on where the first one ends.
abbrev pub Extends : List MMap → List MMap → Type 0
Extends ms ns = (more : List MMap) × (ns ≡ ms ++ more)

Extends-trans : (ms ns os : List MMap) → Extends ms ns → Extends ns os → Extends ms os
Extends-trans ms ns os (a, e) (b, f) = (a ++ b, f ∙ ap (λ x. x ++ b) e ∙ append_assoc ms a b)

add_new_m_map_for_process-Extends :
    (s u : Space) (kind vir_addr base : ℕ) (shared rw' : Bool)
    → add_new_m_map_for_process s kind shared rw' vir_addr ≡ some (base, u)
    → Extends s.first_map u.first_map
unfolding add_new_m_map_for_process
add_new_m_map_for_process-Extends s u kind vir_addr base shared rw' h =
    elim (Option-cases (get_phy_page_for_program s.next_map s.table)) [
      | inl full ↦ absurd (cc (rw (add_new_m_map_for_process, full) at h))
      | inr ((i, t), got) ↦
          let e = some_inj (rw (add_new_m_map_for_process, got) at h) in
          (_, ap (λ (q : ℕ × Space). q.1.first_map) (sym e))
    ]

ensure_table-Extends :
    (has_ps : Bool) (s t : Space) (a : ℕ)
    → ensure_table has_ps s a ≡ some t
    → Extends s.first_map t.first_map
unfolding ensure_table
ensure_table-Extends has_ps s t a h = elim (Bool-cases (is_present (s.words a))) [
  | inl there ↦ (
    [],
    ap (λ (x : Space). x.first_map) (sym (some_inj (rw (ensure_table, there) at h)))
        ∙ sym (append-nil s.first_map),
  )
  | inr missing ↦ elim (Option-cases (add_new_m_map_for_process s 1 false false 0)) [
    | inl full ↦ absurd (cc (rw (ensure_table, missing, full) at h))
    | inr ((base, u), got) ↦
        subst (λ (x : Space). Extends s.first_map x.first_map)
          (some_inj (rw (ensure_table, missing, got) at h))
          (add_new_m_map_for_process-Extends s u 1 0 base false false got)
  ]
]

make_tables-Extends :
    (levels : List (ℕ × Bool)) (s u : Space) (entry new_address pt : ℕ)
    → make_tables levels s entry new_address ≡ some (pt, u)
    → Extends s.first_map u.first_map
unfolding make_tables
make_tables-Extends [] s u entry new_address pt h =
    ([], ap (λ (q : ℕ × Space). q.1.first_map) (sym (some_inj h)) ∙ sym (append-nil s.first_map))
make_tables-Extends ((shift, has_ps) ∷ levels) s u entry new_address pt h =
    let a = slot entry new_address shift in
    elim (Option-cases (ensure_table has_ps s a)) [
      | inl fails ↦ absurd (cc (rw (make_tables, fails) at h))
      | inr (t, ensured) ↦
          Extends-trans s.first_map t.first_map u.first_map
            (ensure_table-Extends has_ps s t a ensured)
            (make_tables-Extends levels t u (t.words a) new_address pt
              (rw (make_tables, ensured) at h))
    ]

-- The two steps of `add_page_for_process`, and the write behind them.
pub record Added (s : Space) (new_address map_type : ℕ) (rw' : Bool) (dest : ℕ) (u : Space)
    : Type 0 where
  pub pt : ℕ
  pub tables : Space
  pub mapped : Space
  pub made : make_tables upper_levels s s.cr3 new_address ≡ some (pt, tables)
  pub got : add_new_m_map_for_process tables map_type false rw' new_address ≡ some (dest, mapped)
  pub result : u ≡ record mapped {
    words =
        write_word mapped.words
          (slot pt new_address 12)
          (page_table_entry rw' (mapped.words (slot pt new_address 12)) dest);
  }

pub add_page_for_process-Added :
    (s u : Space) (new_address map_type dest : ℕ) (rw' : Bool)
    → add_page_for_process s new_address rw' map_type ≡ some (dest, u)
    → Added s new_address map_type rw' dest u
unfolding add_page_for_process
add_page_for_process-Added s u new_address map_type dest rw' h =
    elim (Option-cases (make_tables upper_levels s s.cr3 new_address)) [
      | inl fails ↦ absurd (cc (rw (add_page_for_process, fails) at h))
      | inr ((pt', t), made') ↦
          elim (Option-cases (add_new_m_map_for_process t map_type false rw' new_address)) [
            | inl full ↦ absurd (cc (rw (add_page_for_process, made', full) at h))
            | inr ((base, w), got') ↦
                let e = some_inj (rw (add_page_for_process, made', got') at h) in
                subst (λ (q : ℕ × Space). Added s new_address map_type rw' q.0 q.1) e
                  (record {
                    pt = pt';
                    tables = t;
                    mapped = w;
                    made = made';
                    got = got';
                    result = refl;
                  })
          ]
    ]

pub add_page_for_process-Extends :
    (s u : Space) (new_address map_type dest : ℕ) (rw' : Bool)
    → add_page_for_process s new_address rw' map_type ≡ some (dest, u)
    → Extends s.first_map u.first_map
add_page_for_process-Extends s u new_address map_type dest rw' h =
    let k = add_page_for_process-Added s u new_address map_type dest rw' h in
    subst (λ (x : Space). Extends s.first_map x.first_map) (sym k.result)
      (Extends-trans s.first_map k.tables.first_map k.mapped.first_map
        (make_tables-Extends upper_levels s k.tables s.cr3 new_address k.pt k.made)
        (add_new_m_map_for_process-Extends k.tables k.mapped map_type new_address dest false rw'
          k.got))

pub add_page_for_process-Keeps :
    (s u : Space) (new_address map_type dest : ℕ) (rw' : Bool)
    → add_page_for_process s new_address rw' map_type ≡ some (dest, u)
    → Keeps s.table u.table
add_page_for_process-Keeps s u new_address map_type dest rw' h =
    let k = add_page_for_process-Added s u new_address map_type dest rw' h in
    subst (λ (x : Space). Keeps s.table x.table) (sym k.result)
      (λ j e at busy.
        add_new_m_map_for_process-Keeps k.tables k.mapped map_type new_address dest false rw' k.got
          j e (make_tables-Keeps upper_levels s k.tables s.cr3 new_address k.pt k.made j e at busy)
          busy)
