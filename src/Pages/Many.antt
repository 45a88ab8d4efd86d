-- ===== src/Pages/Many.antt =====
-- `find_free_page_entry_many` and `get_phy_page`: what they return is a run of free pages.
use sbu_os.Prelude.{
  ℕ, zero, suc, ◌+◌, ◌-◌, ◌≤◌, ◌<◌, ◌≡◌, refl, ap, sym, ◌∙◌, true, false, ◌||◌, Option, none, some,
  arith, ltb, ◌==◌, if◌then◌else◌, Bool-cases, inl, inr, length, get_elem?,
}
use sbu_os.Pages.{PageTable, is_used, is_apart, Run, extend, search_from, find_free_page_entry_many}

module _ (t : PageTable) (below num : ℕ) where
  -- The entry is free and lies one page above the one before it.
  abbrev pub Fits : ℕ → Type 0
  Fits i = (is_apart t below num i ≡ false) × (is_used (get_elem? t i) ≡ false)

  -- What a found run says, from `cursor` on with `accu` entries behind it.
  abbrev Ran : (left cursor accu : ℕ) → Run t below num → Type 0
  Ran left cursor accu (Run.stopped c) = Unit {0}
  Ran left cursor accu Run.found =
      (num - accu < left) × ((i : ℕ) → i < num - accu → Fits (cursor + i))

  Ran-suc :
      (left cursor accu : ℕ) (r : Run t below num)
      → accu < num
      → Fits cursor
      → Ran left (cursor + 1) (accu + 1) r
      → Ran (suc left) cursor accu r
  Ran-suc left cursor accu (Run.stopped c) h fits ran = tt
  Ran-suc left cursor accu Run.found h fits (short, rest) = (omega arith, all)
    where
      all : (i : ℕ) → i < num - accu → Fits (cursor + i)
      all zero k = let e : cursor + 0 ≡ cursor = omega arith in rw e fits
      all (suc i) k =
          let e : cursor + suc i ≡ cursor + 1 + i = omega arith in rw e (rest i (omega arith))

  extend-Ran :
      (left cursor accu : ℕ)
      → accu ≤ num
      → Ran left cursor accu (extend t below num left cursor accu)
  unfolding extend
  extend-Ran zero cursor accu h = tt
  extend-Ran (suc left) cursor accu h = elim (Bool-cases (accu == num)) [
    | inl full ↦ rw full (ground arith, λ i k. absurd (ground arith))
    | inr more ↦
        rw more (elim (Bool-cases (is_apart t below num cursor || is_used (get_elem? t cursor))) [
          | inl bad ↦ rw bad tt
          | inr good ↦ rw good (
              Ran-suc left cursor accu _ (ground arith) (ground arith)
                (extend-Ran left (cursor + 1) (accu + 1) (ground arith)))
        ])
  ]

  -- What the search promises of the entry that it returns.
  abbrev pub IsRun : Option ℕ → Type 0
  IsRun none = Unit {0}
  IsRun (some s) = (s + num < length t) × ((i : ℕ) → i < num → Fits (s + i))

  -- A case of the outer loop, on what the inner loop returned.
  next_round : (fuel cursor : ℕ) → Run t below num → Option ℕ
  next_round fuel cursor Run.found = some cursor
  next_round fuel cursor (Run.stopped c) = search_from t below num fuel (c + 1)

  round-IsRun :
      (fuel cursor : ℕ) (r : Run t below num)
      → ltb cursor (length t) ≡ true
      → Ran (length t - cursor) cursor 0 r
      → ((c : ℕ) → IsRun (search_from t below num fuel c))
      → IsRun (next_round fuel cursor r)
  unfolding next_round
  round-IsRun fuel cursor (Run.stopped c) h ran ih = ih (c + 1)
  round-IsRun fuel cursor Run.found h (short, fits) ih = (ground arith, λ i k. fits i (omega arith))

  search_from-round :
      (fuel cursor : ℕ)
      → search_from t below num (suc fuel) cursor ≡ (
          if ltb cursor (length t)
          then next_round fuel cursor (extend t below num (length t - cursor) cursor 0)
          else none)
  unfolding search_from next_round
  search_from-round fuel cursor = ground arith

  search_from-IsRun : (fuel cursor : ℕ) → IsRun (search_from t below num fuel cursor)
  search_from-IsRun zero cursor = unfold search_from in tt
  search_from-IsRun (suc fuel) cursor =
      rw (search_from-round fuel cursor) (elim (Bool-cases (ltb cursor (length t))) [
        | inl h ↦ rw h (
            round-IsRun fuel cursor _ h (extend-Ran (length t - cursor) cursor 0 (omega arith))
              (search_from-IsRun fuel))
        | inr h ↦ rw h tt
      ])

  -- What `find_free_page_entry_many` returns is the first of `num` entries that are free and lie one
  -- page apart, each also from the entry before it; and there is an entry behind them.
  pub find_free_page_entry_many-IsRun : IsRun (find_free_page_entry_many t below num)
  unfolding find_free_page_entry_many
  find_free_page_entry_many-IsRun = search_from-IsRun (length t + 1) 0

  stopped_le :
      (left cursor accu c : ℕ) → extend t below num left cursor accu ≡ Run.stopped c → cursor ≤ c
  unfolding extend
  stopped_le zero cursor accu c e = ground arith
  stopped_le (suc left) cursor accu c e = ground (arith, stopped_le left (cursor + 1) (accu + 1) c)

  next_round_fuel :
      (fuel k cursor : ℕ) (r : Run t below num)
      → ((c : ℕ) → r ≡ Run.stopped c → cursor ≤ c)
      → ((c : ℕ)
          → cursor < c
          → search_from t below num (fuel + k) c ≡ search_from t below num fuel c)
      → next_round (fuel + k) cursor r ≡ next_round fuel cursor r
  unfolding next_round
  next_round_fuel fuel k cursor Run.found le ih = refl
  next_round_fuel fuel k cursor (Run.stopped c) le ih = ih (c + 1) (omega (arith, le c refl))

  search_from_past :
      (fuel cursor : ℕ) → length t ≤ cursor → search_from t below num fuel cursor ≡ none
  search_from_past zero cursor h = unfold search_from in refl
  search_from_past (suc fuel) cursor h =
      let past : ltb cursor (length t) ≡ false = ground arith in
      rw (search_from-round fuel cursor, past)

  -- The fuel of the search is enough: with more, it returns the same.
  pub search_from_fuel :
      (fuel k cursor : ℕ)
      → length t < cursor + fuel
      → search_from t below num (fuel + k) cursor ≡ search_from t below num fuel cursor
  search_from_fuel zero k cursor h =
      search_from_past (0 + k) cursor (omega arith) ∙ sym (search_from_past 0 cursor (omega arith))
  search_from_fuel (suc fuel) k cursor h =
      let e : suc fuel + k ≡ suc (fuel + k) = omega arith in
      rw (e, search_from-round (fuel + k) cursor, search_from-round fuel cursor)
        (ap (λ r. if ltb cursor (length t) then r else none)
          (next_round_fuel fuel k cursor (extend t below num (length t - cursor) cursor 0)
            (λ c. stopped_le (length t - cursor) cursor 0 c)
            (λ c l. search_from_fuel fuel k c (omega arith))))
