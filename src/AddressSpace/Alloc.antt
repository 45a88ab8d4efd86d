-- ===== src/AddressSpace/Alloc.antt =====
-- A page that was free belongs to no table in use, and is taken just once.
use sbu_os.Prelude.{
  ℕ, ◌/◌, ◌%◌, ◌^◌, ◌<◌, ◌≡◌, ◌≢◌, refl, ap, sym, ◌∙◌, ◌⊎◌, inl, inr, Bool, false, none, some,
  some_inj, [], ◌∷◌, arith, ◌==◌, Bool-cases, Option-cases, get_elem?, modify,
  get_elem?-modify_self, get_elem?-modify_ne,
}
use mathlib.Core.Path.{subst}
use sbu_os.Pages.{PageEntry, PageTable, is_used, find_free_page_entry, get_phy_page_for_program}
use sbu_os.Pages.Find.{IsFirstFree, find_free_page_entry-IsFirstFree}
use sbu_os.AddressSpace.{Space, zero_page, base_of_entry, add_new_m_map_for_process}

-- The page of an address.
abbrev pub page_of : ℕ → ℕ
page_of a = a / 4096

-- No page entry that is free has the page.
abbrev pub NotFree : PageTable → (page : ℕ) → Type 0
NotFree t page =
    (i : ℕ) (e : PageEntry) → get_elem? t i ≡ some e → e.used_by ≡ 0 → page_of e.base ≢ page

-- The entries are of different pages, at aligned addresses of 52 bits.
pub record IsTable (t : PageTable) : Type 0 where
  pub apart :
      (i j : ℕ) (e f : PageEntry)
      → i ≢ j
      → get_elem? t i ≡ some e
      → get_elem? t j ≡ some f
      → page_of e.base ≢ page_of f.base
  pub aligned :
      (i : ℕ) (e : PageEntry) → get_elem? t i ≡ some e → (e.base % 4096 ≡ 0) × (e.base < 2 ^ 52)

-- What the allocation of a page for a program has done: the entry was free, and each entry is as
-- before, but that one is in use.
pub record Taken (t : PageTable) (i : ℕ) (u : PageTable) : Type 0 where
  pub entry : PageEntry
  pub at : get_elem? t i ≡ some entry
  pub was_free : entry.used_by ≡ 0
  pub base_here : base_of_entry u i ≡ entry.base
  pub back :
      (j : ℕ) (f : PageEntry)
      → get_elem? u j ≡ some f
      → (e : PageEntry) × (get_elem? t j ≡ some e)
        × (e.base ≡ f.base)
        × (((i ≡ j) × (f.used_by ≡ 3)) ⊎ ((i ≢ j) × (e ≡ f)))

abbrev pub given : (map : ℕ) → PageEntry → PageEntry
given map e = record e { used_by = 3; use_record = map ∷ [] }

given-back :
    (map i j : ℕ) (t : PageTable) (entry f : PageEntry)
    → get_elem? t i ≡ some entry
    → get_elem? (modify t i (given map)) j ≡ some f
    → (e : PageEntry) × (get_elem? t j ≡ some e)
      × (e.base ≡ f.base)
      × (((i ≡ j) × (f.used_by ≡ 3)) ⊎ ((i ≢ j) × (e ≡ f)))
given-back map i j t entry f at h = elim (Bool-cases (i == j)) [
  | inl this ↦
      let same : i ≡ j = ground arith in
      let e : given map entry ≡ f = some_inj (
        sym (get_elem?-modify_self t i (given map) at)
        ∙ ap (get_elem? (modify t i (given map))) same
        ∙ h) in
      (
        entry,
        sym (ap (get_elem? t) same) ∙ at,
        ap (λ (x : PageEntry). x.base) e,
        inl (same, ap (λ (x : PageEntry). x.used_by) (sym e)),
      )
  | inr other ↦
      let differ : i ≢ j = ground arith in
      (f, sym (get_elem?-modify_ne t i j (given map) differ) ∙ h, refl, inr (differ, refl))
]

not_missing : (t : PageTable) (k : ℕ) → get_elem? t k ≡ none → is_used (get_elem? t k) ≡ false → ⊥
not_missing t k h free = ground (arith, ap is_used h)

is_free :
    (t : PageTable) (k : ℕ) (e : PageEntry)
    → get_elem? t k ≡ some e
    → is_used (get_elem? t k) ≡ false
    → e.used_by ≡ 0
is_free t k e at free = ground (arith, ap is_used at)

pub get_phy_page_for_program-Taken :
    (map : ℕ) (t u : PageTable) (i : ℕ) → get_phy_page_for_program map t ≡ some (i, u) → Taken t i u
unfolding get_phy_page_for_program
get_phy_page_for_program-Taken map t u i h = elim (Option-cases (find_free_page_entry t)) [
  | inl full ↦ absurd (cc (rw (get_phy_page_for_program, full) at h))
  | inr (k, found) ↦
      let pair = some_inj (rw (get_phy_page_for_program, found) at h) in
      let free : is_used (get_elem? t k) ≡ false =
        (subst (IsFirstFree t) found (find_free_page_entry-IsFirstFree t)).0 in
      let taken : Taken t k (modify t k (given map)) = elim (Option-cases (get_elem? t k)) [
        | inl missing ↦ absurd (not_missing t k missing free)
        | inr (entry, at) ↦ record {
          entry = entry;
          at = at;
          was_free = is_free t k entry at free;
          base_here = rw (base_of_entry, get_elem?-modify_self t k (given map) at) refl;
          back = λ j f e. given-back map k j t entry f at e;
        }
      ] in
      subst (λ (q : ℕ × PageTable). Taken t q.0 q.1) pair taken
]

module _ {t u : PageTable} {i : ℕ} (k : Taken t i u) where
  NotFree-Taken : (page : ℕ) → NotFree t page → NotFree u page
  NotFree-Taken page h j f at free =
      let (e, at', base, used) = k.back j f at in
      elim used [
        | inl (same, three) ↦ absurd (omega arith)
        | inr (differ, e') ↦ λ z. h j f (at' ∙ ap some e') free z
      ]

  pub NotFree-base : IsTable t → NotFree u (page_of k.entry.base)
  NotFree-base v j f at free =
      let (e, at', base, used) = k.back j f at in
      elim used [
        | inl (same, three) ↦ absurd (omega arith)
        | inr (differ, e') ↦
            λ z. v.apart i j k.entry e differ k.at at' (sym z ∙ ap page_of (sym base))
      ]

  pub IsTable-Taken : IsTable t → IsTable u
  IsTable-Taken v = record {
    apart = λ j l f g ne at1 at2.
        let (e, at1', base1, _) = k.back j f at1 in
        let (d, at2', base2, _) = k.back l g at2 in
        λ z. v.apart j l e d ne at1' at2' (ap page_of base1 ∙ z ∙ ap page_of (sym base2));
    aligned = λ j f at.
        let (e, at', base, _) = k.back j f at in
        subst (λ b. (b % 4096 ≡ 0) × (b < 2 ^ 52)) base (v.aligned j e at');
  }

-- What a new mapping does: it zeroes a page that no entry has any more, and changes no other word.
pub record Mapped (s : Space) (base : ℕ) (u : Space) : Type 0 where
  pub kept : (page : ℕ) → NotFree s.table page → NotFree u.table page × (page_of base ≢ page)
  pub taken : NotFree u.table (page_of base)
  pub table_still : IsTable u.table
  pub aligned : (base % 4096 ≡ 0) × (base < 2 ^ 52)
  pub words_now : u.words ≡ zero_page s.words base

pub add_new_m_map_for_process-Mapped :
    (s u : Space) (kind vir_addr base : ℕ) (shared rw' : Bool)
    → IsTable s.table
    → add_new_m_map_for_process s kind shared rw' vir_addr ≡ some (base, u)
    → Mapped s base u
unfolding add_new_m_map_for_process
add_new_m_map_for_process-Mapped s u kind vir_addr base shared rw' v h =
    elim (Option-cases (get_phy_page_for_program s.next_map s.table)) [
      | inl full ↦ absurd (cc (rw (add_new_m_map_for_process, full) at h))
      | inr ((i, t), got) ↦
          let k = get_phy_page_for_program-Taken s.next_map s.table t i got in
          let e = some_inj (rw (add_new_m_map_for_process, got) at h) in
          let b : k.entry.base ≡ base = sym k.base_here ∙ ap (λ (q : ℕ × Space). q.0) e in
          let t' : t ≡ u.table = ap (λ (q : ℕ × Space). q.1.table) e in
          let w : zero_page s.words (base_of_entry t i) ≡ u.words =
            ap (λ (q : ℕ × Space). q.1.words) e in
          record {
            kept = λ page free. (
              subst (λ q. NotFree q page) t' (NotFree-Taken k page free),
              λ z. free i k.entry k.at k.was_free (ap page_of b ∙ z),
            );
            taken =
                subst (λ q. NotFree q (page_of base)) t'
                  (subst (λ x. NotFree t (page_of x)) b (NotFree-base k v));
            table_still = subst IsTable t' (IsTable-Taken k v);
            aligned = subst (λ x. (x % 4096 ≡ 0) × (x < 2 ^ 52)) b (v.aligned i k.entry k.at);
            words_now = sym w ∙ ap (zero_page s.words) (k.base_here ∙ b);
          }
    ]
