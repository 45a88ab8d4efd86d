-- ===== src/AddressSpace/Tables.antt =====
-- The tables that are made for an address are the ones that a walk goes through.
use sbu_os.Prelude.{
  ℕ, ◌≡◌, ◌≢◌, refl, ap, sym, ◌∙◌, ◌⊎◌, inl, inr, Bool, true, false, Option, some, some_inj, List,
  [], ◌∷◌, ◌>>=◌, Option-cases,
}
use mathlib.Core.Path.{subst}
use sbu_os.Pages.{PageTable}
use sbu_os.Paging.{Words, is_present, slot, next_entry}
use sbu_os.AddressSpace.{Space, ensure_table, make_tables}
use sbu_os.AddressSpace.Alloc.{page_of, NotFree, IsTable}
use sbu_os.AddressSpace.Entries.{entry_page, page_of-slot, New, Ensured, ensure_table-Ensured}

-- Pages in a list.
abbrev pub IsIn : ℕ → List ℕ → Type 0
IsIn x [] = ⊥
IsIn x (y ∷ ys) = (x ≡ y) ⊎ IsIn x ys

abbrev pub NotIn : ℕ → List ℕ → Type 0
NotIn x [] = Unit {0}
NotIn x (y ∷ ys) = (x ≢ y) × NotIn x ys

abbrev pub NoneFree : PageTable → List ℕ → Type 0
NoneFree t [] = Unit {0}
NoneFree t (y ∷ ys) = NotFree t y × NoneFree t ys

pub NoneFree-in : (t : PageTable) (ys : List ℕ) (x : ℕ) → NoneFree t ys → IsIn x ys → NotFree t x
NoneFree-in t [] x h i = absurd i
NoneFree-in t (y ∷ ys) x h (inl e) = subst (NotFree t) (sym e) h.0
NoneFree-in t (y ∷ ys) x h (inr i) = NoneFree-in t ys x h.1 i

NoneFree-kept :
    (t u : PageTable) (ys : List ℕ)
    → ((page : ℕ) → NotFree t page → NotFree u page)
    → NoneFree t ys
    → NoneFree u ys
NoneFree-kept t u [] k h = h
NoneFree-kept t u (y ∷ ys) k h = (k y h.0, NoneFree-kept t u ys k h.1)

NotIn-new :
    (t : PageTable) (x : ℕ) (ys : List ℕ)
    → ((page : ℕ) → NotFree t page → x ≢ page)
    → NoneFree t ys
    → NotIn x ys
NotIn-new t x [] k h = tt
NotIn-new t x (y ∷ ys) k h = (k y h.0, NotIn-new t x ys k h.1)

pub NotIn-differ : (x y : ℕ) (ys : List ℕ) → NotIn x ys → IsIn y ys → x ≢ y
NotIn-differ x y [] h i = absurd i
NotIn-differ x y (z ∷ ys) h (inl e) = λ q. h.0 (q ∙ e)
NotIn-differ x y (z ∷ ys) h (inr i) = NotIn-differ x y ys h.1 i

-- The tables that there are for an address, from `entry` on: each stands in a page of its own, which is
-- not one of `avoid`, and which no page entry that is free has.
abbrev pub Safe : List (ℕ × Bool) → Space → (entry new_address : ℕ) → (avoid : List ℕ) → Type 0
Safe [] s entry new_address avoid =
    NotIn (entry_page entry) avoid × NotFree s.table (entry_page entry)
Safe ((shift, has_ps) ∷ levels) s entry new_address avoid =
    NotIn (entry_page entry) avoid
    × NotFree s.table (entry_page entry)
    × (is_present (s.words (slot entry new_address shift)) ≡ true
        → Safe levels s (s.words (slot entry new_address shift)) new_address
            (entry_page entry ∷ avoid))

-- Behind a new table there are no tables.
Safe-New :
    (levels : List (ℕ × Bool)) (s t : Space) (a new_address : ℕ) (avoid : List ℕ)
    → New s a t
    → NotIn (entry_page (t.words a)) avoid
    → Safe levels t (t.words a) new_address avoid
Safe-New [] s t a new_address avoid n h = (h, n.leads)
Safe-New ((shift, has_ps) ∷ levels) s t a new_address avoid n h = (
  h,
  n.leads,
  λ p.
      let b = slot (t.words a) new_address shift in
      let none' : is_present (t.words b) ≡ false =
        ap is_present (n.empty b (page_of-slot (t.words a) new_address shift)) in
      absurd (cc),
)

-- The upper levels of a walk.
abbrev pub walk : List (ℕ × Bool) → Words → (entry new_address : ℕ) → Option ℕ
walk [] m entry new_address = some entry
walk ((shift, has_ps) ∷ levels) m entry new_address =
    next_entry m entry new_address shift >>= λ e. walk levels m e new_address

pub next_entry-present :
    (m : Words) (entry v shift : ℕ)
    → is_present (m (slot entry v shift)) ≡ true
    → next_entry m entry v shift ≡ some (m (slot entry v shift))
unfolding next_entry
next_entry-present m entry v shift h = rw (next_entry, h) refl

-- What has been made: every memory that agrees on the pages of `path` is walked to `pt`, whose own page
-- is none of them; no page in use was changed but these.
pub record Made (levels : List (ℕ × Bool)) (s : Space) (entry new_address : ℕ) (avoid : List ℕ)
    (pt : ℕ) (u : Space) : Type 0 where
  pub path : List ℕ
  pub path_used : NoneFree u.table path
  pub avoid_used : NoneFree u.table avoid
  pub pt_used : NotFree u.table (entry_page pt)
  pub pt_path : NotIn (entry_page pt) path
  pub pt_avoid : NotIn (entry_page pt) avoid
  pub table_still : IsTable u.table
  pub walks :
      (m : Words)
      → ((b : ℕ) → IsIn (page_of b) path → m b ≡ u.words b)
      → walk levels m entry new_address ≡ some pt
  pub untouched : (b : ℕ) → IsIn (page_of b) avoid → u.words b ≡ s.words b

pub next-Safe :
    (levels : List (ℕ × Bool)) (s t : Space) (entry new_address shift : ℕ) (avoid : List ℕ)
    → NoneFree s.table avoid
    → NotIn (entry_page entry) avoid
    → NotFree s.table (entry_page entry)
    → (is_present (s.words (slot entry new_address shift)) ≡ true
        → Safe levels s
            (s.words (slot entry new_address shift))
            new_address
            (entry_page entry ∷ avoid))
    → Ensured s (slot entry new_address shift) t
    → Safe levels t (t.words (slot entry new_address shift)) new_address (entry_page entry ∷ avoid)
next-Safe levels s t entry new_address shift avoid used h at safe k =
    let a = slot entry new_address shift in
    let next_avoid = entry_page entry ∷ avoid in
    elim k.how [
      | inl same ↦
          subst (λ (x : Space). Safe levels x (x.words a) new_address next_avoid) (sym same)
            (safe (ap (λ (x : Space). is_present (x.words a)) (sym same) ∙ k.present))
      | inr new ↦
          Safe-New levels s t a new_address next_avoid new
            (NotIn-new s.table (entry_page (t.words a)) next_avoid new.new (at, used))
    ]

pub make_tables-Made :
    (levels : List (ℕ × Bool)) (s u : Space) (entry new_address pt : ℕ) (avoid : List ℕ)
    → IsTable s.table
    → NoneFree s.table avoid
    → Safe levels s entry new_address avoid
    → make_tables levels s entry new_address ≡ some (pt, u)
    → Made levels s entry new_address avoid pt u
unfolding make_tables
make_tables-Made [] s u entry new_address pt avoid v used (h, at) e =
    subst (λ (q : ℕ × Space). Made [] s entry new_address avoid q.0 q.1) (some_inj e)
      (record {
        path = [];
        path_used = tt;
        avoid_used = used;
        pt_used = at;
        pt_path = tt;
        pt_avoid = h;
        table_still = v;
        walks = λ m same. refl;
        untouched = λ b i. refl;
      })
make_tables-Made ((shift, has_ps) ∷ levels) s u entry new_address pt avoid v used (h, at, safe) e =
    let a = slot entry new_address shift in
    let here' : page_of a ≡ entry_page entry = page_of-slot entry new_address shift in
    elim (Option-cases (ensure_table has_ps s a)) [
      | inl fails ↦ absurd (cc (rw (make_tables, fails) at e))
      | inr (t, ensured) ↦
          let k =
            ensure_table-Ensured has_ps s t a v (subst (NotFree s.table) (sym here') at) ensured in
          let made =
            make_tables-Made levels t u (t.words a) new_address pt (entry_page entry ∷ avoid)
              k.table_still
              (k.kept (entry_page entry) at, NoneFree-kept s.table t.table avoid k.kept used)
              (next-Safe levels s t entry new_address shift avoid used h at safe k)
              (rw (make_tables, ensured) at e) in
          record {
            path = entry_page entry ∷ made.path;
            path_used = (made.avoid_used.0, made.path_used);
            avoid_used = made.avoid_used.1;
            pt_used = made.pt_used;
            pt_path = (made.pt_avoid.0, made.pt_path);
            pt_avoid = made.pt_avoid.1;
            table_still = made.table_still;
            walks = λ m same.
                let now : m a ≡ t.words a = same a (inl here') ∙ made.untouched a (inl here') in
                let there : is_present (m a) ≡ true = ap is_present now ∙ k.present in
                ap (λ o. o >>= (λ x. walk levels m x new_address))
                  (next_entry-present m entry new_address shift there ∙ ap some now)
                ∙ made.walks m (λ b i. same b (inr i));
            untouched = λ b i.
                made.untouched b (inr i)
                ∙ k.others b (NoneFree-in s.table avoid (page_of b) used i) (λ z.
                  NotIn-differ (entry_page entry) (page_of b) avoid h i
                    (sym here' ∙ ap page_of (sym z)));
          }
    ]
