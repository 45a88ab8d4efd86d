-- ===== src/AddressSpace/Translate.antt =====
-- A page that was added is the one to which its address is translated.
use sbu_os.Prelude.{
  ℕ, ◌+◌, ◌*◌, ◌%◌, ◌^◌, ◌<◌, ◌≡◌, ◌≢◌, refl, ap, sym, ◌∙◌, inl, inr, Bool, true, false, some,
  some_inj, List, [], arith, Option-cases,
}
use mathlib.Core.Path.{subst}
use sbu_os.Paging.{Words, is_present, frame, slot, next_entry, write_word, pte_slot, translate_cr3}
use sbu_os.AddressSpace.{
  Space, page_table_entry, add_new_m_map_for_process, make_tables, upper_levels,
  add_page_for_process,
}
use sbu_os.AddressSpace.Alloc.{page_of, NotFree, IsTable, Mapped, add_new_m_map_for_process-Mapped}
use sbu_os.AddressSpace.Entries.{
  entry_page, page_of-slot, page_table_entry-leads, zero_page-outside,
}
use sbu_os.AddressSpace.Tables.{IsIn, NoneFree-in, NotIn-differ, Safe, walk, Made, make_tables-Made}

pub written-here : (m : Words) (a v : ℕ) → write_word m a v a ≡ v
written-here m a v = ground arith

pub written-other : (m : Words) (a v b : ℕ) → b ≢ a → write_word m a v b ≡ m b
written-other m a v b h = ground arith

-- The three upper levels are the walk of `translate_cr3`.
pub pte_slot-walk :
    (m : Words) (entry v pt : ℕ)
    → walk upper_levels m entry v ≡ some pt
    → pte_slot m entry v ≡ some (slot pt v 12)
unfolding pte_slot
pte_slot-walk m entry v pt h = elim (Option-cases (next_entry m entry v 39)) [
  | inl missing ↦ absurd (cc (rw missing at h))
  | inr (pdp, e1) ↦ elim (Option-cases (next_entry m pdp v 30)) [
    | inl missing ↦ absurd (cc (rw (e1, missing) at h))
    | inr (pd, e2) ↦ elim (Option-cases (next_entry m pd v 21)) [
      | inl missing ↦ absurd (cc (rw (e1, e2, missing) at h))
      | inr (pt', e3) ↦
          let same : pt' ≡ pt = some_inj (rw (e1, e2, e3) at h) in
          rw (pte_slot, e1, e2, e3) (ap (λ x. some (slot x v 12)) same)
    ]
  ]
]

-- A table entry in a page of its own, written behind the walk, is what the walk reads.
pub walk-translate :
    (m : Words) (entry v pt base : ℕ) (rw' : Bool) (w : ℕ)
    → walk upper_levels m entry v ≡ some pt
    → m (slot pt v 12) ≡ page_table_entry rw' w base
    → base % 4096 ≡ 0
    → base < 2 ^ 52
    → translate_cr3 m entry v ≡ base + v % 4096
unfolding translate_cr3
walk-translate m entry v pt base rw' w walked e al small =
    let (p, q) = page_table_entry-leads rw' w base small in
    let present : is_present (m (slot pt v 12)) ≡ true = ap is_present e ∙ p in
    let to : frame (m (slot pt v 12)) ≡ base =
      ap (λ x. entry_page x * 4096) e ∙ ap (λ x. x * 4096) q ∙ omega arith in
    rw (translate_cr3, pte_slot-walk m entry v pt walked, present) (ap (λ x. x + v % 4096) to)

-- The walk to an address ends at a present entry, which leads to a page.
pub record Reached (m : Words) (cr3 v base : ℕ) : Type 0 where
  pub pte : ℕ
  pub walked : pte_slot m cr3 v ≡ some pte
  pub present : is_present (m pte) ≡ true
  pub leads : frame (m pte) ≡ base

pub Reached-translate :
    {m : Words} {cr3 v base : ℕ} → Reached m cr3 v base → translate_cr3 m cr3 v ≡ base + v % 4096
unfolding translate_cr3
Reached-translate {m} {cr3} {v} {base} r =
    let walked = r.walked in
    let present = r.present in rw (translate_cr3, walked, present) (ap (λ x. x + v % 4096) r.leads)

walk-Reached :
    (m : Words) (entry v pt base : ℕ) (rw' : Bool) (w : ℕ)
    → walk upper_levels m entry v ≡ some pt
    → m (slot pt v 12) ≡ page_table_entry rw' w base
    → base % 4096 ≡ 0
    → base < 2 ^ 52
    → Reached m entry v base
walk-Reached m entry v pt base rw' w walked e al small =
    let (p, q) = page_table_entry-leads rw' w base small in
    record {
      pte = slot pt v 12;
      walked = pte_slot-walk m entry v pt walked;
      present = ap is_present e ∙ p;
      leads = ap (λ x. entry_page x * 4096) e ∙ ap (λ x. x * 4096) q ∙ omega arith;
    }

-- The new page, and its entry in the last table, in a memory that was changed in the new page at most.
pub page_added :
    (s t w : Space) (new_address pt base : ℕ) (rw' : Bool) (avoid : List ℕ) (m : Words)
    → Made upper_levels s s.cr3 new_address avoid pt t
    → Mapped t base w
    → ((b : ℕ)
        → page_of base ≢ page_of b
        → m b
          ≡ write_word w.words
              (slot pt new_address 12)
              (page_table_entry rw' (w.words (slot pt new_address 12)) base)
              b)
    → Reached m s.cr3 new_address base
page_added s t w new_address pt base rw' avoid m made k outside =
    let pte = slot pt new_address 12 in
    let entry = page_table_entry rw' (w.words pte) base in
    let (al, small) = k.aligned in
    let on_pt = page_of-slot pt new_address 12 in
    let pte_outside : page_of base ≢ page_of pte =
      λ z. (k.kept (entry_page pt) made.pt_used).1 (z ∙ on_pt) in
    let same : (b : ℕ) → IsIn (page_of b) made.path → m b ≡ t.words b = λ b i.
      let ne : b ≢ pte = λ z.
        NotIn-differ (entry_page pt) (page_of b) made.path made.pt_path i
          (sym on_pt ∙ ap page_of (sym z)) in
      let differ =
        (k.kept (page_of b) (NoneFree-in t.table made.path (page_of b) made.path_used i)).1 in
      outside b differ
      ∙ written-other w.words pte entry b ne
      ∙ ap (λ (f : Words). f b) k.words_now
      ∙ zero_page-outside t.words base b al differ in
    walk-Reached m s.cr3 new_address pt base rw' (w.words pte) (made.walks m same)
      (outside pte pte_outside ∙ written-here w.words pte entry) al small

-- What the call does, with the way to the page.
pub add_page_for_process-Reached :
    (s u : Space) (new_address map_type dest : ℕ) (rw' : Bool)
    → IsTable s.table
    → Safe upper_levels s s.cr3 new_address []
    → add_page_for_process s new_address rw' map_type ≡ some (dest, u)
    → Reached u.words s.cr3 new_address dest × (dest % 4096 ≡ 0) × NotFree u.table (page_of dest)
unfolding add_page_for_process
add_page_for_process-Reached s u new_address map_type dest rw' v safe h =
    elim (Option-cases (make_tables upper_levels s s.cr3 new_address)) [
      | inl fails ↦ absurd (cc (rw (add_page_for_process, fails) at h))
      | inr ((pt, t), made') ↦
          elim (Option-cases (add_new_m_map_for_process t map_type false rw' new_address)) [
            | inl full ↦ absurd (cc (rw (add_page_for_process, made', full) at h))
            | inr ((base, w), got) ↦
                let made =
                  make_tables-Made upper_levels s t s.cr3 new_address pt [] v tt safe made' in
                let k =
                  add_new_m_map_for_process-Mapped t w map_type new_address base false rw'
                    made.table_still got in
                let e = some_inj (rw (add_page_for_process, made', got) at h) in
                let result =
                  page_added s t w new_address pt base rw' []
                    (record w {
                      words =
                          write_word w.words (slot pt new_address 12)
                            (page_table_entry rw' (w.words (slot pt new_address 12)) base);
                    }).words
                    made k (λ b ne. refl) in
                let b : base ≡ dest = ap (λ (q : ℕ × Space). q.0) e in
                (
                  subst (λ (q : ℕ × Space). Reached q.1.words s.cr3 new_address q.0) e result,
                  ap (λ x. x % 4096) (sym b) ∙ k.aligned.0,
                  subst (λ (q : ℕ × Space). NotFree q.1.table (page_of q.0)) e k.taken,
                )
          ]
    ]

-- The page entries are of different pages, at aligned addresses of 52 bits, and the tables that there
-- are already for an address of a process stand in different pages, which no free page entry has. Then
-- `add_page_for_process`, if it returns, makes whatever tables are missing, and the address is
-- translated to the page that it returns, in which the byte has the same place; the page is aligned, and
-- no page entry that is free has it any more.
pub translate_cr3-add_page_for_process :
    (s u : Space) (new_address map_type dest : ℕ) (rw' : Bool)
    → IsTable s.table
    → Safe upper_levels s s.cr3 new_address []
    → add_page_for_process s new_address rw' map_type ≡ some (dest, u)
    → (translate_cr3 u.words s.cr3 new_address ≡ dest + new_address % 4096)
      × (dest % 4096 ≡ 0)
      × NotFree u.table (page_of dest)
translate_cr3-add_page_for_process s u new_address map_type dest rw' v safe h =
    let (reached, al, taken) =
      add_page_for_process-Reached s u new_address map_type dest rw' v safe h in
    (Reached-translate reached, al, taken)
