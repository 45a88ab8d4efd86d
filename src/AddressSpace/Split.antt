-- ===== src/AddressSpace/Split.antt =====
-- A write to a shared page gives the process a copy of its own, and leaves the page to the others.
use sbu_os.Prelude.{
  ℕ, ◌+◌, ◌-◌, ◌%◌, ◌≤◌, ◌<◌, ◌≡◌, ◌≢◌, refl, ap, sym, ◌∙◌, inl, inr, Bool, true, false, ◌/◌, ◌||◌,
  ◌&&◌, ◌==◌, some, some_inj, Bool-cases, Option-cases, List, [], ◌∷◌, ◌++◌, arith, ◌>>=◌,
  get_elem?, modify, get_elem?-modify_self,
}
use mathlib.Core.Path.{subst}
use sbu_os.Pages.{PageEntry, free_page_for_program}
use sbu_os.Pages.Use.{has, without, owners, IsValid, UsedBy, Agrees, free_page_for_program-release}
use sbu_os.Paging.{Words, slot, write_word, translate_cr3}
use sbu_os.AddressSpace.{
  MMap, Space, base_of_entry, page_table_entry, upper_levels, add_page_for_process,
}
use sbu_os.AddressSpace.Alloc.{page_of, NotFree, IsTable, add_new_m_map_for_process-Mapped}
use sbu_os.AddressSpace.Entries.{page_of-slot, zero_page-outside}
use sbu_os.AddressSpace.Tables.{Safe, make_tables-Made}
use sbu_os.AddressSpace.Translate.{written-other, page_added, Reached, Reached-translate}
use sbu_os.AddressSpace.Total.{free_count, add_page_for_process_total}
use sbu_os.AddressSpace.Share.{change_entry}
use sbu_os.AddressSpace.Kept.{NotFree-used}
use sbu_os.AddressSpace.Fault.{
  copy_page, find_map, unlink_map, behind_first, check_and_handle_rw_page_fault,
}
use sbu_os.AddressSpace.Steps.{
  add_page_for_process-Added, add_page_for_process-Extends, add_page_for_process-Keeps,
}

copied_inside :
    (m : Words) (dest src k : ℕ) → k < 4096 → copy_page m dest src (dest + k) ≡ m (src + k)
copied_inside m dest src k h =
    let same : dest + k - dest ≡ k = omega arith in
    let inside : copy_page m dest src (dest + k) ≡ m (src + (dest + k - dest)) = ground arith in
    inside ∙ ap (λ x. m (src + x)) same

copied_outside :
    (m : Words) (dest src b : ℕ)
    → dest % 4096 ≡ 0
    → page_of dest ≢ page_of b
    → copy_page m dest src b ≡ m b
copied_outside m dest src b al h = ground arith

-- What the fault has done to the memory, for a page at `base` that is in use.
record Copied (s : Space) (addr base dest : ℕ) (t : Space) : Type 0 where
  aligned : dest % 4096 ≡ 0
  apart : page_of dest ≢ page_of base
  reached : Reached (copy_page t.words dest base) s.cr3 addr dest
  same : (k : ℕ) → k < 4096 → copy_page t.words dest base (dest + k) ≡ s.words (base + k)
  left : (k : ℕ) → k < 4096 → copy_page t.words dest base (base + k) ≡ s.words (base + k)

add_page_for_process-Copied :
    (s t : Space) (addr base dest : ℕ)
    → IsTable s.table
    → base % 4096 ≡ 0
    → NotFree s.table (page_of base)
    → Safe upper_levels s s.cr3 addr (page_of base ∷ [])
    → add_page_for_process s addr true 2 ≡ some (dest, t)
    → Copied s addr base dest t
add_page_for_process-Copied s t addr base dest v al used safe h =
    let k = add_page_for_process-Added s t addr 2 dest true h in
    let made =
      make_tables-Made upper_levels s k.tables s.cr3 addr k.pt (page_of base ∷ []) v (used, tt) safe
        k.made in
    let mapped =
      add_new_m_map_for_process-Mapped k.tables k.mapped 2 addr dest false true made.table_still
        k.got in
    let pte = slot k.pt addr 12 in
    let w : Words =
      write_word k.mapped.words pte (page_table_entry true (k.mapped.words pte) dest) in
    let now : t.words ≡ w = ap (λ (x : Space). x.words) k.result in
    let differ : page_of dest ≢ page_of base = (mapped.kept (page_of base) made.avoid_used.0).1 in
    let still : (i : ℕ) → i < 4096 → t.words (base + i) ≡ s.words (base + i) = λ i l.
      let here : page_of (base + i) ≡ page_of base = omega arith in
      let ne : base + i ≢ pte =
        λ z. made.pt_avoid.0 (sym (page_of-slot k.pt addr 12) ∙ ap page_of (sym z) ∙ here) in
      ap (λ (f : Words). f (base + i)) now
      ∙ written-other k.mapped.words pte (page_table_entry true (k.mapped.words pte) dest)
          (base + i) ne
      ∙ ap (λ (f : Words). f (base + i)) mapped.words_now
      ∙ zero_page-outside k.tables.words dest (base + i) mapped.aligned.0 (λ z. differ (z ∙ here))
      ∙ made.untouched (base + i) (inl here) in
    record {
      aligned = mapped.aligned.0;
      apart = differ;
      reached =
          page_added s k.tables k.mapped addr k.pt dest true (page_of base ∷ [])
            (copy_page t.words dest base) made mapped
            (λ b ne.
              copied_outside t.words dest base b mapped.aligned.0 ne ∙ ap (λ (f : Words). f b) now);
      same = λ i l. copied_inside t.words dest base i l ∙ still i l;
      left = λ i l.
          copied_outside t.words dest base (base + i) mapped.aligned.0
            (λ z. differ (z ∙ omega arith))
          ∙ still i l;
    }

-- The way of the handler through its branches, from what each call gives.
handler_runs :
    (s t : Space) (addr dest : ℕ) (first m : MMap) (maps maps' : List MMap) (e e' : PageEntry)
    → behind_first s.first_map ≡ some (first, maps)
    → find_map addr maps ≡ some m
    → m.rw ≡ true
    → add_page_for_process s addr true 2 ≡ some (dest, t)
    → get_elem? t.table m.phy_page ≡ some e
    → free_page_for_program m.address e ≡ some e'
    → behind_first t.first_map ≡ some (first, maps')
    → check_and_handle_rw_page_fault s addr
      ≡ some (
        true,
        record t {
          words = copy_page t.words dest e.base;
          table = modify t.table m.phy_page (λ _. e');
          first_map = first ∷ unlink_map m.address maps';
        },
      )
unfolding check_and_handle_rw_page_fault
handler_runs s t addr dest first m maps maps' e e' from found can added at given from' =
    let base' : base_of_entry t.table m.phy_page ≡ e.base = rw (base_of_entry, at) refl in
    rw
      (
        check_and_handle_rw_page_fault, from, ◌>>=◌, found, can, added, ◌>>=◌, change_entry, at,
        ◌>>=◌, given, from', base',
      )
      refl

-- What the handler does, from what `free_page_for_program` gives.
pub handler_splits :
    (s : Space) (addr : ℕ) (first m : MMap) (maps : List MMap) (e e' : PageEntry)
    → IsTable s.table
    → 4 ≤ free_count s.table
    → s.first_map ≡ first ∷ maps
    → find_map addr maps ≡ some m
    → m.rw ≡ true
    → get_elem? s.table m.phy_page ≡ some e
    → e.used_by ≢ 0
    → free_page_for_program m.address e ≡ some e'
    → Safe upper_levels s s.cr3 addr (page_of e.base ∷ [])
    → (u : Space) × (dest : ℕ) × (more : List MMap) × (check_and_handle_rw_page_fault s addr
        ≡ some (true, u))
      × Reached u.words s.cr3 addr dest
      × (dest % 4096 ≡ 0)
      × (page_of dest ≢ page_of e.base)
      × ((k : ℕ) → k < 4096 → u.words (dest + k) ≡ s.words (e.base + k))
      × ((k : ℕ) → k < 4096 → u.words (e.base + k) ≡ s.words (e.base + k))
      × (get_elem? u.table m.phy_page ≡ some e')
      × (u.first_map ≡ first ∷ unlink_map m.address (maps ++ more))
unfolding behind_first
handler_splits s addr first m maps e e' v free from found can at busy given safe =
    let (dest, t, added) = add_page_for_process_total s addr 2 true free in
    let c =
      add_page_for_process-Copied s t addr e.base dest v (v.aligned m.phy_page e at).0
        (NotFree-used s.table m.phy_page e v at busy) safe added in
    let (more, grown) = add_page_for_process-Extends s t addr 2 dest true added in
    let at' : get_elem? t.table m.phy_page ≡ some e =
      add_page_for_process-Keeps s t addr 2 dest true added m.phy_page e at busy in
    let maps' : t.first_map ≡ first ∷ (maps ++ more) = grown ∙ ap (λ x. x ++ more) from in
    let u : Space = record t {
      words = copy_page t.words dest e.base;
      table = modify t.table m.phy_page (λ _. e');
      first_map = first ∷ unlink_map m.address (maps ++ more);
    } in
    (
      u,
      dest,
      more,
      handler_runs s t addr dest first m maps (maps ++ more) e e' (ap behind_first from) found can
          added at' given (ap behind_first maps'),
      c.reached,
      c.aligned,
      c.apart,
      c.same,
      c.left,
      get_elem?-modify_self t.table m.phy_page (λ _. e') at',
      refl,
    )

-- Is there a mapping at the address?
abbrev pub has_map : ℕ → List MMap → Bool
has_map address [] = false
has_map address (m ∷ ms) = m.address == address || has_map address ms

-- The first mapping at an address has left the list.
pub record Removed (address : ℕ) (before after : List MMap) : Type 0 where
  pub front : List MMap
  pub m : MMap
  pub back : List MMap
  pub was : before ≡ front ++ (m ∷ back)
  pub is : after ≡ front ++ back
  pub here : m.address ≡ address
  pub fresh : has_map address front ≡ false

unlink_map-Removed :
    (address : ℕ) (ms : List MMap)
    → has_map address ms ≡ true
    → Removed address ms (unlink_map address ms)
unfolding unlink_map
unlink_map-Removed address [] h = absurd (cc h)
unlink_map-Removed address (m ∷ ms) h = elim (Bool-cases (m.address == address)) [
  | inl same ↦ record {
    front = [];
    m = m;
    back = ms;
    was = refl;
    is = rw same refl;
    here = ground arith;
    fresh = refl;
  }
  | inr other ↦
      let k = unlink_map-Removed address ms (rw other at h) in
      record {
        front = m ∷ k.front;
        m = k.m;
        back = k.back;
        was = ap (λ l. m ∷ l) k.was;
        is = rw (other, k.is) refl;
        here = k.here;
        fresh = rw (other, k.fresh) refl;
      }
]

has_map-append :
    (address : ℕ) (xs ys : List MMap)
    → has_map address xs ≡ true
    → has_map address (xs ++ ys) ≡ true
has_map-append address [] ys h = absurd (cc h)
has_map-append address (m ∷ xs) ys h = elim (Bool-cases (m.address == address)) [
  | inl same ↦ rw same refl
  | inr other ↦ rw other (has_map-append address xs ys (rw other at h))
]

find_map-has_map :
    (addr : ℕ) (maps : List MMap) (m : MMap)
    → find_map addr maps ≡ some m
    → has_map m.address maps ≡ true
unfolding find_map
find_map-has_map addr [] m h = absurd (cc h)
find_map-has_map addr (x ∷ xs) m h =
    elim (Bool-cases (x.kind == 2 && (x.vir_addr / 4096) == (addr / 4096))) [
      | inl hit ↦
          let e : x.address ≡ m.address =
            ap (λ (y : MMap). y.address) (some_inj (rw (find_map, hit) at h)) in
          let same : (x.address == m.address) ≡ true = ground (arith, e) in rw same refl
      | inr miss ↦
          let there = find_map-has_map addr xs m (rw (find_map, miss) at h) in
          elim (Bool-cases (x.address == m.address)) [
            | inl y ↦ rw y refl
            | inr z ↦ rw (z, there) refl
          ]
    ]

-- What the page loses: the mapping, and no other user.
released :
    (map : ℕ) (e : PageEntry)
    → IsValid e
    → has map (owners e) ≡ true
    → (e' : PageEntry) × (free_page_for_program map e ≡ some e')
      × UsedBy e' (without map (owners e))
released map e v h = elim (Option-cases (free_page_for_program map e)) [
  | inl hangs ↦ absurd (
      subst (λ o. Agrees o (some (without map (owners e)))) hangs
        (subst (Agrees (free_page_for_program map e)) (rw h refl)
          (free_page_for_program-release map e v)))
  | inr (e', gives) ↦ (
    e',
    gives,
    subst (λ o. Agrees o (some (without map (owners e)))) gives
        (subst (Agrees (free_page_for_program map e)) (rw h refl)
          (free_page_for_program-release map e v)),
  )
]

has-used : (map : ℕ) (e : PageEntry) → has map (owners e) ≡ true → e.used_by ≢ 0
has-used map e h = elim (Bool-cases (e.used_by == 3)) [
  | inl three ↦ ground (arith, three)
  | inr other ↦ absurd (cc (rw other at h))
]

pub check_and_handle_rw_page_fault-splits :
    (s : Space) (addr : ℕ) (first m : MMap) (maps : List MMap) (e : PageEntry)
    → IsTable s.table
    → 4 ≤ free_count s.table
    → s.first_map ≡ first ∷ maps
    → find_map addr maps ≡ some m
    → m.rw ≡ true
    → get_elem? s.table m.phy_page ≡ some e
    → IsValid e
    → has m.address (owners e) ≡ true
    → Safe upper_levels s s.cr3 addr (page_of e.base ∷ [])
    → (u : Space) × (dest : ℕ) × (more : List MMap) × (left_maps : List MMap) × (e' : PageEntry)
      × (check_and_handle_rw_page_fault s addr ≡ some (true, u))
      × (translate_cr3 u.words s.cr3 addr ≡ dest + addr % 4096)
      × (dest % 4096 ≡ 0)
      × (page_of dest ≢ page_of e.base)
      × ((k : ℕ) → k < 4096 → u.words (dest + k) ≡ s.words (e.base + k))
      × ((k : ℕ) → k < 4096 → u.words (e.base + k) ≡ s.words (e.base + k))
      × (get_elem? u.table m.phy_page ≡ some e')
      × UsedBy e' (without m.address (owners e))
      × (u.first_map ≡ first ∷ left_maps)
      × Removed m.address (maps ++ more) left_maps
check_and_handle_rw_page_fault-splits s addr first m maps e v free from found can at valid uses
      safe =
    let (e', given, users) = released m.address e valid uses in
    let (u, dest, more, runs, reached, al, differ, same, stays, entry, list) =
      handler_splits s addr first m maps e e' v free from found can at (has-used m.address e uses)
        given safe in
    (
      u,
      dest,
      more,
      unlink_map m.address (maps ++ more),
      e',
      runs,
      Reached-translate reached,
      al,
      differ,
      same,
      stays,
      entry,
      users,
      list,
      unlink_map-Removed m.address (maps ++ more)
          (has_map-append m.address maps more (find_map-has_map addr maps m found)),
    )
