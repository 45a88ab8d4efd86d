-- ===== src/AddressSpace/Shared.antt =====
-- A page that a forked process shares is the page of the parent, read-only.
use sbu_os.Prelude.{
  ℕ, ◌+◌, ◌/◌, ◌%◌, ◌^◌, ◌≤◌, ◌<◌, ◌≡◌, ◌≢◌, refl, ap, ap₂, sym, ◌∙◌, ◌⊎◌, inl, inr, Bool, true,
  false, some, List, [], ◌∷◌, ◌++◌, arith, ◌>>=◌, Bool-cases, get_elem?, modify,
  get_elem?-modify_self,
}
use mathlib.Core.Path.{subst}
use sbu_os.Pages.{PageEntry, dup_page_for_program}
use sbu_os.Paging.{Words, is_present, frame, slot, write_word, pte_slot, translate_cr3}
use sbu_os.AddressSpace.{MMap, Space, base_of_entry, page_table_entry, upper_levels}
use sbu_os.AddressSpace.Alloc.{page_of, IsTable}
use sbu_os.AddressSpace.Entries.{entry_page, page_of-slot}
use sbu_os.AddressSpace.Tables.{IsIn, NotIn-differ, Safe, Made, make_tables-Made}
use sbu_os.AddressSpace.Translate.{pte_slot-walk, written-here, written-other, walk-translate}
use sbu_os.AddressSpace.Total.{free_count, make_tables_total}
use sbu_os.AddressSpace.Kept.{make_tables-Keeps, NotFree-used}
use sbu_os.AddressSpace.Share.{change_entry, dup_new_m_map_for_process, dup_page_for_process}

-- The page entry with a user more.
abbrev pub with_user : PageEntry → ℕ → PageEntry
with_user e map = record e { use_record = e.use_record ++ (map ∷ []) }

page_with_user_runs :
    (map b c : ℕ) (cs : List ℕ)
    → dup_page_for_program map (record { base = b; used_by = 3; use_record = c ∷ cs })
      ≡ some (record { base = b; used_by = 3; use_record = (c ∷ cs) ++ (map ∷ []) })
unfolding dup_page_for_program
page_with_user_runs map b c cs = refl

with_user_runs :
    (map c : ℕ) (cs : List ℕ) (e : PageEntry)
    → e.used_by ≡ 3
    → e.use_record ≡ c ∷ cs
    → dup_page_for_program map e ≡ some (with_user e map)
with_user_runs map c cs e three from =
    let page : ℕ → List ℕ → PageEntry =
      λ u r. record { base = e.base; used_by = u; use_record = r } in
    let same : e ≡ page 3 (c ∷ cs) = ap₂ page three from in
    subst (λ x. dup_page_for_program map x ≡ some (with_user x map)) (sym same)
      (page_with_user_runs map e.base c cs)

-- The new mapping.
abbrev pub shared_map : (map : ℕ) → (rw' : Bool) → (new_address ptr_to : ℕ) → MMap
shared_map map rw' new_address ptr_to = record {
  address = map;
  kind = 2;
  shared = true;
  rw = rw';
  vir_addr = new_address;
  phy_page = ptr_to;
}

-- What a call of `dup_page_for_process` has done, with the result `dest` and the state `u`.
pub record Duplicated (s : Space) (new_address : ℕ) (rw' : Bool) (ptr_to : ℕ) (e : PageEntry)
    (dest : ℕ) (u : Space) : Type 0 where
  pub translated : translate_cr3 u.words s.cr3 new_address ≡ dest + new_address % 4096
  pub left : (k : ℕ) → k < 4096 → u.words (e.base + k) ≡ s.words (e.base + k)
  -- Either the entry stays as it was, or its page is the one at the address now.
  pub how :
      (get_elem? u.table ptr_to ≡ some e)
      ⊎ ((dest ≡ e.base)
          × ((pte : ℕ) × (pte_slot u.words s.cr3 new_address ≡ some pte)
              × (u.words pte / 2 % 2 ≡ 0))
          × ((map : ℕ) × (ms : List MMap) × (get_elem? u.table ptr_to ≡ some (with_user e map))
              × (u.first_map ≡ ms ++ (shared_map map rw' new_address ptr_to ∷ []))))

-- The branch of an address that had a page.
present-Duplicated :
    (s t : Space) (new_address pt ptr_to : ℕ) (rw' : Bool) (e : PageEntry)
    → Made upper_levels s s.cr3 new_address (page_of e.base ∷ []) pt t
    → e.base % 4096 ≡ 0
    → get_elem? t.table ptr_to ≡ some e
    → is_present (t.words (slot pt new_address 12)) ≡ true
    → Duplicated s new_address rw' ptr_to e (frame (t.words (slot pt new_address 12))) t
unfolding translate_cr3
present-Duplicated s t new_address pt ptr_to rw' e made al at there =
    let walked = made.walks t.words (λ b i. refl) in
    record {
      translated =
          rw (translate_cr3, pte_slot-walk t.words s.cr3 new_address pt walked, there) refl;
      left = λ k l. made.untouched (e.base + k) (inl (omega arith));
      how = inl at;
    }

-- The branch that shares: the page table entry is written behind the tables.
module _ (s t : Space) (new_address pt : ℕ) (e : PageEntry)
    (made : Made upper_levels s s.cr3 new_address (page_of e.base ∷ []) pt t)
    (al : e.base % 4096 ≡ 0) (small : e.base < 2 ^ 52) where
  abbrev pte : ℕ
  pte = slot pt new_address 12

  abbrev entry : ℕ
  entry = page_table_entry false (t.words pte) e.base

  abbrev shared_words : Words
  shared_words = write_word t.words pte entry

  apart-path : (b : ℕ) → IsIn (page_of b) made.path → b ≢ pte
  apart-path b i z =
      NotIn-differ (entry_page pt) (page_of b) made.path made.pt_path i
        (sym (page_of-slot pt new_address 12) ∙ ap page_of (sym z))

  shared-walks : pte_slot shared_words s.cr3 new_address ≡ some pte
  shared-walks =
      pte_slot-walk shared_words s.cr3 new_address pt
        (made.walks shared_words (λ b i. written-other t.words pte entry b (apart-path b i)))

  shared-translated : translate_cr3 shared_words s.cr3 new_address ≡ e.base + new_address % 4096
  shared-translated =
      walk-translate shared_words s.cr3 new_address pt e.base false (t.words pte)
        (made.walks shared_words (λ b i. written-other t.words pte entry b (apart-path b i)))
        (written-here t.words pte entry) al small

  shared-Duplicated :
      (rw' : Bool) (ptr_to map : ℕ) (u : Space) (ms : List MMap)
      → u.words ≡ shared_words
      → get_elem? u.table ptr_to ≡ some (with_user e map)
      → u.first_map ≡ ms ++ (shared_map map rw' new_address ptr_to ∷ [])
      → Duplicated s new_address rw' ptr_to e e.base u
  shared-Duplicated rw' ptr_to map u ms now at mapped =
      let read_only : entry / 2 % 2 ≡ 0 = omega arith in
      record {
        translated = ap (λ (m : Words). translate_cr3 m s.cr3 new_address) now ∙ shared-translated;
        left = λ k l.
            let here : page_of (e.base + k) ≡ page_of e.base = omega arith in
            ap (λ (m : Words). m (e.base + k)) now
            ∙ written-other t.words pte entry (e.base + k) (λ z.
              made.pt_avoid.0 (sym (page_of-slot pt new_address 12) ∙ ap page_of (sym z) ∙ here))
            ∙ made.untouched (e.base + k) (inl here);
        how = inr (
          refl,
          (
            pte,
            ap (λ (m : Words). pte_slot m s.cr3 new_address) now ∙ shared-walks,
            ap (λ (m : Words). m pte / 2 % 2) now
                ∙ ap (λ x. x / 2 % 2) (written-here t.words pte entry)
                ∙ read_only,
          ),
          (map, ms, at, mapped),
        );
      }

-- The state with the new mapping.
abbrev with_map : Space → (rw' : Bool) → (vir_addr ptr_to : ℕ) → PageEntry → Space
with_map s rw' vir_addr ptr_to e = record s {
  table = modify s.table ptr_to (λ _. with_user e s.next_map);
  first_map = s.first_map ++ (shared_map s.next_map rw' vir_addr ptr_to ∷ []);
  next_map = s.next_map + 1;
}

dup_new_m_map_for_process-runs :
    (s : Space) (rw' : Bool) (vir_addr ptr_to c : ℕ) (cs : List ℕ) (e : PageEntry)
    → get_elem? s.table ptr_to ≡ some e
    → e.used_by ≡ 3
    → e.use_record ≡ c ∷ cs
    → dup_new_m_map_for_process s 2 true rw' vir_addr ptr_to
      ≡ some (with_map s rw' vir_addr ptr_to e)
unfolding dup_new_m_map_for_process
dup_new_m_map_for_process-runs s rw' vir_addr ptr_to c cs e at three from =
    let with' : dup_page_for_program s.next_map e ≡ some (with_user e s.next_map) =
      with_user_runs s.next_map c cs e three from in
    rw (dup_new_m_map_for_process, change_entry, at, ◌>>=◌, with') refl

-- The page entries are of different pages at aligned addresses, three are free, the entry is that of a
-- program page with users, and the tables that there are for the address stand in pages of their own,
-- apart from that page. Then `dup_page_for_process` returns; the address is translated to the page that
-- it returns, and the page of the entry holds what it held. Either the entry stays as it was, or
-- the page of the entry is the one that is returned: its page table entry cannot be
-- written, and the process has a mapping more, which is one more user of the page.
pub dup_page_for_process-Duplicated :
    (s : Space) (new_address ptr_to c : ℕ) (rw' : Bool) (cs : List ℕ) (e : PageEntry)
    → IsTable s.table
    → 3 ≤ free_count s.table
    → get_elem? s.table ptr_to ≡ some e
    → e.used_by ≡ 3
    → e.use_record ≡ c ∷ cs
    → Safe upper_levels s s.cr3 new_address (page_of e.base ∷ [])
    → (dest : ℕ) × (u : Space) × (dup_page_for_process s new_address rw' ptr_to ≡ some (dest, u))
      × Duplicated s new_address rw' ptr_to e dest u
unfolding dup_page_for_process
dup_page_for_process-Duplicated s new_address ptr_to c rw' cs e v free at three from safe =
    let (pt, t, made', rest) = make_tables_total upper_levels s s.cr3 new_address 0 free in
    let (al, small) = v.aligned ptr_to e at in
    let busy : e.used_by ≢ 0 = λ z. omega arith in
    let made =
      make_tables-Made upper_levels s t s.cr3 new_address pt (page_of e.base ∷ []) v
        (NotFree-used s.table ptr_to e v at busy, tt) safe made' in
    let at' : get_elem? t.table ptr_to ≡ some e =
      make_tables-Keeps upper_levels s t s.cr3 new_address pt made' ptr_to e at busy in
    let pte' = slot pt new_address 12 in
    elim (Bool-cases (is_present (t.words pte'))) [
      | inl there ↦ (
        frame (t.words pte'),
        t,
        rw (dup_page_for_process, made', ◌>>=◌, there) refl,
        present-Duplicated s t new_address pt ptr_to rw' e made al at' there,
      )
      | inr missing ↦
          let runs =
            dup_new_m_map_for_process-runs t rw' new_address ptr_to c cs e at' three from in
          let at'' = get_elem?-modify_self t.table ptr_to (λ _. with_user e t.next_map) at' in
          let base' : base_of_entry (modify t.table ptr_to (λ _. with_user e t.next_map)) ptr_to
              ≡ e.base =
            rw (base_of_entry, at'') refl in
          let w = with_map t rw' new_address ptr_to e in
          let u : Space = record w {
            words = write_word w.words pte' (page_table_entry false (w.words pte') e.base);
          } in
          (
            e.base,
            u,
            rw (dup_page_for_process, made', ◌>>=◌, missing, runs, base') refl,
            shared-Duplicated s t new_address pt e made al small rw' ptr_to t.next_map u t.first_map
                refl at'' refl,
          )
    ]
