-- ===== src/Pages/Find.antt =====
-- `find_free_page_entry` returns the first free entry.
use sbu_os.Prelude.{
  ℕ, zero, suc, ◌+◌, ◌<◌, ◌≡◌, refl, true, false, Option, none, some, [], ◌∷◌, arith, ◌==◌,
  Bool-cases, inl, inr, get_elem?,
}
use sbu_os.Pages.{PageEntry, PageTable, is_used, find_from, find_free_page_entry}

-- What a search from `cursor` on says of the table `t` that begins there.
abbrev Finds : PageTable → ℕ → Option ℕ → Type 0
Finds t cursor none = (i : ℕ) → is_used (get_elem? t i) ≡ true
Finds t cursor (some r) =
    (d : ℕ) × (r ≡ cursor + d)
    × (is_used (get_elem? t d) ≡ false)
    × ((i : ℕ) → i < d → is_used (get_elem? t i) ≡ true)

Finds-cons :
    (e : PageEntry) (t : PageTable) (cursor : ℕ) (r : Option ℕ)
    → (e.used_by == 0) ≡ false
    → Finds t (cursor + 1) r
    → Finds (e ∷ t) cursor r
Finds-cons e t cursor none used none_free = all
  where
    all : (i : ℕ) → is_used (get_elem? (e ∷ t) i) ≡ true
    all zero = ground arith
    all (suc i) = none_free i
Finds-cons e t cursor (some r) used (d, at, free, before) = (suc d, omega arith, free, all)
  where
    all : (i : ℕ) → i < suc d → is_used (get_elem? (e ∷ t) i) ≡ true
    all zero h = ground arith
    all (suc i) h = before i (omega arith)

find_from-Finds : (t : PageTable) (cursor : ℕ) → Finds t cursor (find_from t cursor)
unfolding find_from
find_from-Finds [] cursor = λ i. refl
find_from-Finds (e ∷ t) cursor = elim (Bool-cases (e.used_by == 0)) [
  | inl free ↦ rw free (zero, omega arith, ground arith, λ i h. absurd (omega arith))
  | inr used ↦ rw used (Finds-cons e t cursor _ used (find_from-Finds t (cursor + 1)))
]

-- What `find_free_page_entry` promises: the first free entry, or NULL if every entry is used.
abbrev pub IsFirstFree : PageTable → Option ℕ → Type 0
IsFirstFree t none = (i : ℕ) → is_used (get_elem? t i) ≡ true
IsFirstFree t (some r) =
    (is_used (get_elem? t r) ≡ false) × ((i : ℕ) → i < r → is_used (get_elem? t i) ≡ true)

first_free : (t : PageTable) (r : Option ℕ) → Finds t 0 r → IsFirstFree t r
first_free t none h = h
first_free t (some r) (d, at, free, before) = let e : r ≡ d = omega arith in rw e (free, before)

-- `find_free_page_entry` returns the first entry that is free, and NULL exactly when none is: every
-- entry before the one returned is used, and all are if it returns NULL.
pub find_free_page_entry-IsFirstFree : (t : PageTable) → IsFirstFree t (find_free_page_entry t)
unfolding find_free_page_entry
find_free_page_entry-IsFirstFree t = first_free t (find_from t 0) (find_from-Finds t 0)
