-- ===== src/AddressSpace/Entries.antt =====
-- One level of the tables of an address.
use sbu_os.Prelude.{
  ℕ, ◌/◌, ◌%◌, ◌^◌, ◌<◌, ◌≡◌, ◌≢◌, refl, ap, sym, ◌∙◌, ◌⊎◌, inl, inr, Bool, true, false, some,
  some_inj, arith, Bool-cases, Option-cases,
}
use mathlib.Core.Path.{subst}
use sbu_os.Paging.{Words, is_present, slot, write_word}
use sbu_os.AddressSpace.{
  Space, zero_page, table_entry, page_table_entry, add_new_m_map_for_process, ensure_table,
}
use sbu_os.AddressSpace.Alloc.{page_of, NotFree, IsTable, Mapped, add_new_m_map_for_process-Mapped}

-- The page that an entry leads to.
abbrev pub entry_page : ℕ → ℕ
entry_page e = e / 4096 % 2 ^ 40

pub page_of-slot : (e v shift : ℕ) → page_of (slot e v shift) ≡ entry_page e
page_of-slot e v shift = omega arith

pub table_entry-leads :
    (has_ps : Bool) (w base : ℕ)
    → base < 2 ^ 52
    → (is_present (table_entry has_ps w base) ≡ true)
      × (entry_page (table_entry has_ps w base) ≡ page_of base)
table_entry-leads true w base h = (ground arith, omega arith)
table_entry-leads false w base h = (ground arith, omega arith)

pub page_table_entry-leads :
    (rw' : Bool) (w base : ℕ)
    → base < 2 ^ 52
    → (is_present (page_table_entry rw' w base) ≡ true)
      × (entry_page (page_table_entry rw' w base) ≡ page_of base)
page_table_entry-leads true w base h = (ground arith, omega arith)
page_table_entry-leads false w base h = (ground arith, omega arith)

pub zero_page-inside :
    (m : Words) (base b : ℕ) → base % 4096 ≡ 0 → page_of b ≡ page_of base → zero_page m base b ≡ 0
zero_page-inside m base b al h = ground arith

pub zero_page-outside :
    (m : Words) (base b : ℕ) → base % 4096 ≡ 0 → page_of base ≢ page_of b → zero_page m base b ≡ m b
zero_page-outside m base b al h = ground arith

-- A new table stands behind the entry at `a`.
pub record New (s : Space) (a : ℕ) (t : Space) : Type 0 where
  pub missing : is_present (s.words a) ≡ false
  pub leads : NotFree t.table (entry_page (t.words a))
  pub new : (page : ℕ) → NotFree s.table page → entry_page (t.words a) ≢ page
  pub empty : (b : ℕ) → page_of b ≡ entry_page (t.words a) → t.words b ≡ 0

-- What one level does.
pub record Ensured (s : Space) (a : ℕ) (t : Space) : Type 0 where
  pub present : is_present (t.words a) ≡ true
  pub table_still : IsTable t.table
  pub kept : (page : ℕ) → NotFree s.table page → NotFree t.table page
  pub others : (b : ℕ) → NotFree s.table (page_of b) → b ≢ a → t.words b ≡ s.words b
  pub how : (t ≡ s) ⊎ New s a t

-- The state behind a new table.
abbrev pub with_table : (has_ps : Bool) → Space → (a base : ℕ) → Space
with_table has_ps u a base = record u {
  words =
      write_word (zero_page u.words base) a (table_entry has_ps (zero_page u.words base a) base);
}

pub new_table :
    (has_ps : Bool) (s u : Space) (a base : ℕ)
    → is_present (s.words a) ≡ false
    → NotFree s.table (page_of a)
    → Mapped s base u
    → Ensured s a (with_table has_ps u a base)
new_table has_ps s u a base missing' at k =
    let m = zero_page u.words base in
    let (al, small) = k.aligned in
    let t = with_table has_ps u a base in
    let w : t.words a ≡ table_entry has_ps (m a) base = ground arith in
    let (p, q) = table_entry-leads has_ps (m a) base small in
    let page : entry_page (t.words a) ≡ page_of base = ap entry_page w ∙ q in
    let before : (b : ℕ) → b ≢ a → t.words b ≡ m b = λ b ne. ground arith in
    record {
      present = ap is_present w ∙ p;
      table_still = k.table_still;
      kept = λ page' free. (k.kept page' free).0;
      others = λ b free ne.
          let differ = (k.kept (page_of b) free).1 in
          before b ne
          ∙ zero_page-outside u.words base b al differ
          ∙ ap (λ (f : Words). f b) k.words_now
          ∙ zero_page-outside s.words base b al differ;
      how = inr (record {
        missing = missing';
        leads = subst (NotFree u.table) (sym page) k.taken;
        new = λ page' free z. (k.kept page' free).1 (sym page ∙ z);
        empty = λ b inside.
            before b (λ z. (k.kept (page_of a) at).1 (sym (inside ∙ page) ∙ ap page_of z))
            ∙ zero_page-inside u.words base b al (inside ∙ page);
      });
    }

pub ensure_table-Ensured :
    (has_ps : Bool) (s t : Space) (a : ℕ)
    → IsTable s.table
    → NotFree s.table (page_of a)
    → ensure_table has_ps s a ≡ some t
    → Ensured s a t
unfolding ensure_table
ensure_table-Ensured has_ps s t a v at h = elim (Bool-cases (is_present (s.words a))) [
  | inl there ↦
      let e : s ≡ t = some_inj (rw (ensure_table, there) at h) in
      subst (Ensured s a) e (record {
        present = there;
        table_still = v;
        kept = λ page free. free;
        others = λ b free ne. refl;
        how = inl refl;
      })
  | inr missing' ↦ elim (Option-cases (add_new_m_map_for_process s 1 false false 0)) [
    | inl full ↦ absurd (cc (rw (ensure_table, missing', full) at h))
    | inr ((base, u), got) ↦
        subst (Ensured s a) (some_inj (rw (ensure_table, missing', got) at h)) (
          new_table has_ps s u a base missing' at
            (add_new_m_map_for_process-Mapped s u 1 0 base false false v got))
  ]
]
