-- ===== src/Pages/Table.antt =====
-- `get_phy_page` and `get_phy_page_for_program`: which entries change, and what is in the page.
use sbu_os.Prelude.{
  ℕ, zero, suc, ◌+◌, ◌≤◌, ◌<◌, ◌≡◌, refl, ap, ◌∙◌, true, false, Option, none, some, [], ◌∷◌, arith,
  ltb, ◌==◌, max, modify, if◌then◌else◌, Bool-cases, Option-cases, some_inj, inl, inr, get_elem?,
}
use mathlib.Core.Option
use mathlib.Core.Path.{subst}
use sbu_os.Memory.Laws.{within, memset_lem}
use sbu_os.Pages.{
  PageEntry, PageTable, Phys, is_used, base_of, set_used, mark, take_one, take_many, hand_out,
  find_free_page_entry, find_free_page_entry_many, get_phy_page,
}
use sbu_os.Pages.Many.{IsRun, find_free_page_entry_many-IsRun}
use sbu_os.Pages.Find.{IsFirstFree, find_free_page_entry-IsFirstFree}

-- In the new table the `n` entries from `s` on, free before, have the new mark, and the others
-- are as they were.
abbrev pub Marked : (used_by : ℕ) → PageTable → (s n : ℕ) → PageTable → Type 0
Marked used_by t s n t' =
    ((i : ℕ) → i < n → is_used (get_elem? t (s + i)) ≡ false)
    × ((j : ℕ)
        → get_elem? t' j
          ≡ (if within j s n then Option.map (set_used used_by) (get_elem? t j) else get_elem? t j))

get_elem?-modify :
    (t : PageTable) (i j : ℕ) (f : PageEntry → PageEntry)
    → get_elem? (modify t i f) j ≡ (if i == j then Option.map f (get_elem? t j) else get_elem? t j)
get_elem?-modify [] i j f = ground arith
get_elem?-modify (e ∷ t) zero zero f = refl
get_elem?-modify (e ∷ t) zero (suc j) f = ground arith
get_elem?-modify (e ∷ t) (suc i) zero f = ground arith
get_elem?-modify (e ∷ t) (suc i) (suc j) f = ground (arith, get_elem?-modify t i j f)

module _ (n c used_by : ℕ) (t t' : PageTable)
    (rest : Marked used_by (modify t c (set_used used_by)) (c + 1) n t')
    (free : is_used (get_elem? t c) ≡ false) where
  Marked-suc : Marked used_by t c (suc n) t'
  Marked-suc = (was_free, now)
    where
      was_free : (i : ℕ) → i < suc n → is_used (get_elem? t (c + i)) ≡ false
      was_free zero h = let e : c + 0 ≡ c = omega arith in rw e free
      was_free (suc i) h =
          let e : c + suc i ≡ c + 1 + i = omega arith in
          rw e (ground (arith, rest.0 i, get_elem?-modify t c (c + 1 + i) (set_used used_by)))

      now :
          (j : ℕ)
          → get_elem? t' j ≡ (
              if within j c (suc n)
              then Option.map (set_used used_by) (get_elem? t j)
              else get_elem? t j)
      now j = ground (arith, rest.1 j, get_elem?-modify t c j (set_used used_by))

mark-Marked :
    (n c used_by : ℕ) (t t' : PageTable) → mark n c used_by t ≡ some t' → Marked used_by t c n t'
unfolding mark
mark-Marked zero c used_by t t' e = (λ i h. elim h [ ], λ j. ground arith)
mark-Marked (suc n) c used_by t t' e = elim (Bool-cases (is_used (get_elem? t c))) [
  | inl used ↦ absurd (ground arith)
  | inr free ↦
      Marked-suc n c used_by t t'
        (mark-Marked n (c + 1) used_by (modify t c (set_used used_by)) t' (rw free at e)) free
]

-- Marking ends when the entries are free.
mark_total :
    (n c used_by : ℕ) (t : PageTable)
    → ((i : ℕ) → i < n → is_used (get_elem? t (c + i)) ≡ false)
    → (t' : PageTable) × (mark n c used_by t ≡ some t')
unfolding mark
mark_total zero c used_by t free = (t, refl)
mark_total (suc n) c used_by t free =
    let here : is_used (get_elem? t c) ≡ false =
      ap (λ k. is_used (get_elem? t k)) {y = c + 0} (omega arith) ∙ free 0 (omega arith) in
    let (t', e) = mark_total n (c + 1) used_by (modify t c (set_used used_by)) later in
    (t', rw here e)
  where
    later :
        (i : ℕ) → i < n → is_used (get_elem? (modify t c (set_used used_by)) (c + 1 + i)) ≡ false
    later i h =
        let e : c + suc i ≡ c + 1 + i = omega arith in
        ground (
          arith,
          rw e at (free (suc i) (omega arith)),
          get_elem?-modify t c (c + 1 + i) (set_used used_by),
        )

modify-Marked :
    (used_by : ℕ) (t : PageTable) (i : ℕ)
    → is_used (get_elem? t i) ≡ false
    → Marked used_by t i 1 (modify t i (set_used used_by))
modify-Marked used_by t i free =
    (was_free, λ j. ground (arith, get_elem?-modify t i j (set_used used_by)))
  where
    was_free : (k : ℕ) → k < 1 → is_used (get_elem? t (i + k)) ≡ false
    was_free k h = let e : i + k ≡ i = omega arith in rw e free

-- The result of `get_phy_page`: the address of a page, and the memory afterwards.
pub record GotPages (num used_by : ℕ) (m : Phys) (out : ℕ × Phys) : Type 0 where
  pub first : ℕ
  pub address : out.0 ≡ base_of (get_elem? m.table first)
  pub marked : Marked used_by m.table first (max num 1) out.1.table
  pub zeroed : (x : ℕ) → out.1.ram x ≡ (if within x out.0 4096 then 0 else m.ram x)

module _ (num used_by : ℕ) (m : Phys) where
  hand_out-GotPages :
      (t : PageTable) (i : ℕ)
      → Marked used_by m.table i (max num 1) t
      → GotPages num used_by m (hand_out m t i)
  hand_out-GotPages t i marked = record {
    first = i;
    address = refl;
    marked = marked;
    zeroed = memset_lem m.ram (base_of (get_elem? m.table i)) 0 4096;
  }

  take_one-GotPages :
      (o : Option ℕ) {out : ℕ × Phys}
      → num ≤ 1
      → IsFirstFree m.table o
      → take_one used_by m o ≡ some out
      → GotPages num used_by m out
  unfolding take_one
  take_one-GotPages none h first e = absurd (cc)
  take_one-GotPages (some i) h first e =
      let one : max num 1 ≡ 1 = omega arith in
      subst (GotPages num used_by m) (some_inj e)
        (hand_out-GotPages _ i (rw one (modify-Marked used_by m.table i first.0)))

  take_many-GotPages :
      (o : Option ℕ) {out : ℕ × Phys}
      → 1 < num
      → take_many num used_by m o ≡ some out
      → GotPages num used_by m out
  unfolding take_many
  take_many-GotPages none h e = absurd (cc)
  take_many-GotPages (some i) {out} h e = elim (Option-cases (mark num i used_by m.table)) [
    | inl hang ↦ absurd (ground arith)
    | inr (t, marked) ↦
        let all : max num 1 ≡ num = omega arith in
        subst (GotPages num used_by m) (some_inj (rw (marked, take_many) at e))
          (hand_out-GotPages t i (rw all (mark-Marked num i used_by m.table t marked)))
  ]

  -- `get_phy_page` returns the address of the first of `num` pages (of one, at `num` 0) that were
  -- free; exactly those are marked as used afterwards, the other entries are as they were, and of
  -- the memory exactly the first page is zeroed.
  pub get_phy_page-GotPages :
      (below : ℕ) {out : ℕ × Phys}
      → get_phy_page below num used_by m ≡ some out
      → GotPages num used_by m out
  unfolding get_phy_page
  get_phy_page-GotPages below e = elim (Bool-cases (ltb 1 num)) [
    | inl many ↦
        take_many-GotPages (find_free_page_entry_many m.table below num) (ground arith)
          (rw many at e)
    | inr one ↦
        take_one-GotPages (find_free_page_entry m.table) (ground arith)
          (find_free_page_entry-IsFirstFree m.table) (rw one at e)
  ]

  -- `get_phy_page` for one page fails only when every entry is used.
  pub get_phy_page_exhausted :
      (below : ℕ)
      → num ≤ 1
      → get_phy_page below num used_by m ≡ none
      → (i : ℕ) → is_used (get_elem? m.table i) ≡ true
  unfolding get_phy_page
  get_phy_page_exhausted below h e =
      let one : ltb 1 num ≡ false = ground arith in
      no_entry (find_free_page_entry m.table) (find_free_page_entry-IsFirstFree m.table)
        (rw one at e)
    where
      no_entry :
          (o : Option ℕ)
          → IsFirstFree m.table o
          → take_one used_by m o ≡ none
          → (i : ℕ) → is_used (get_elem? m.table i) ≡ true
      no_entry none all e = all
      no_entry (some i) first e = absurd (cc)

  -- `get_phy_page` for several pages returns whenever its search finds a run: the `assert` on a used
  -- entry never fails.
  pub get_phy_page_total :
      (below i : ℕ)
      → 1 < num
      → find_free_page_entry_many m.table below num ≡ some i
      → (out : ℕ × Phys) × (get_phy_page below num used_by m ≡ some out)
  unfolding get_phy_page
  get_phy_page_total below i h e =
      let many : ltb 1 num ≡ true = ground arith in
      let run =
        subst (IsRun m.table below num) e (find_free_page_entry_many-IsRun m.table below num) in
      let (t, marked) = mark_total num i used_by m.table (λ j k. (run.1 j k).1) in
      (hand_out m t i, rw (many, e, take_many, marked) refl)
