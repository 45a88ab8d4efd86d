-- ===== src/Process/Scan.antt =====
-- The scheduler goes round the list of processes once, at most.
use sbu_os.Prelude.{
  ℕ, zero, suc, ◌+◌, ◌≤◌, ◌<◌, ◌≡◌, ◌≢◌, ◌⊎◌, refl, ap, ◌∙◌, Bool, true, false, ◌||◌, none, some,
  List, [], ◌∷◌, ◌++◌, arith, ◌==◌, if◌then◌else◌, Bool-cases, Option-cases, inl, inr, length,
  length-append,
}
use mathlib.Core.Path.{subst, sym}
use sbu_os.Process.{
  Kernel, Outcome, switched, halted, null_read, out_of_fuel, is_runnable, process_cleanup,
  clean_if_needed, settle, or_first, schedule_loop, after, process_schedule,
}

-- Is the address in the list?
abbrev pub has : ℕ → List ℕ → Bool
has q [] = false
has q (x ∷ xs) = x == q || has q xs

-- The first process of the list that can run, each one passed over being cleaned up if that is due;
-- and the current process again if there is none.
unfoldable pub scan : Kernel → List ℕ → Outcome
scan k [] = settle k k.current_process
scan k (q ∷ qs) =
    let go_on : Outcome = elim (clean_if_needed k q) [ none ↦ halted | some k' ↦ scan k' qs ] in
    if is_runnable (k.procs q) then settle k q else go_on

-- The list and the current process stay as they are in a clean-up.
pub clean_if_needed-keeps :
    (k k' : Kernel) (p : ℕ)
    → clean_if_needed k p ≡ some k'
    → (k'.run_list ≡ k.run_list) × (k'.current_process ≡ k.current_process)
unfolding clean_if_needed process_cleanup
clean_if_needed-keeps k k' p e = ground arith

-- One round of the loop at a process that is not the current one.
round-eq :
    (k : Kernel) (x : ℕ) (a b : Kernel → Outcome)
    → (x == k.current_process) ≡ false
    → ((k' : Kernel) → clean_if_needed k x ≡ some k' → a k' ≡ b k')
    → (if x == k.current_process
        then settle k x
        else if is_runnable (k.procs x)
        then settle k x
        else elim (clean_if_needed k x) [ none ↦ halted | some k' ↦ a k' ])
      ≡ (if is_runnable (k.procs x)
          then settle k x
          else elim (clean_if_needed k x) [ none ↦ halted | some k' ↦ b k' ])
round-eq k x a b other same = rw other (elim (Option-cases (clean_if_needed k x)) [
  | inl e ↦ rw e
  | inr (k', e) ↦ rw e (ap (λ r. if is_runnable (k.procs x) then settle k x else r) (same k' e))
])

or_first-append : (k : Kernel) (xs ys : List ℕ) (y : ℕ) → or_first k (xs ++ y ∷ ys) ≡ xs ++ y ∷ ys
or_first-append k [] ys y = refl
or_first-append k (x ∷ xs) ys y = refl

module _ (cur : ℕ) where
  -- From a place in front of the current process the loop gets there.
  loop-to_current :
      (fuel : ℕ) (k : Kernel) (xs ys : List ℕ)
      → k.current_process ≡ cur
      → has cur xs ≡ false
      → length xs < fuel
      → schedule_loop fuel k (xs ++ cur ∷ ys) ≡ scan k xs
  unfolding schedule_loop scan
  loop-to_current zero k xs ys c h f = absurd (omega arith)
  loop-to_current (suc fuel) k [] ys c h f =
      let here : (cur == k.current_process) ≡ true = ground arith in rw (here, c)
  loop-to_current (suc fuel) k (x ∷ xs) ys c h f = round-eq k x _ _ (ground arith) λ k' e.
      rw (or_first-append k' xs ys cur) (
        loop-to_current fuel k' xs ys (cc (clean_if_needed-keeps k k' x e).1) (ground arith)
          (omega arith))

  -- From a place behind it the loop goes on at the head of the list.
  loop-round :
      (fuel : ℕ) (k : Kernel) (xs before ys : List ℕ)
      → k.current_process ≡ cur
      → k.run_list ≡ before ++ cur ∷ ys
      → has cur xs ≡ false
      → has cur before ≡ false
      → length xs + length before < fuel
      → schedule_loop fuel k (or_first k xs) ≡ scan k (xs ++ before)
  unfolding schedule_loop scan
  loop-round zero k xs before ys c l h hb f = absurd (omega arith)
  loop-round (suc fuel) k [] before ys c l h hb f =
      ap (schedule_loop (suc fuel) k) l ∙ loop-to_current (suc fuel) k before ys c hb (omega arith)
  loop-round (suc fuel) k (x ∷ xs) before ys c l h hb f = round-eq k x _ _ (ground arith) λ k' e.
      let keeps = clean_if_needed-keeps k k' x e in
      loop-round fuel k' xs before ys (cc keeps.1) (cc keeps.0) (ground arith) hb (omega arith)

after-append :
    (cur : ℕ) (before ys : List ℕ) → has cur before ≡ false → after cur (before ++ cur ∷ ys) ≡ ys
unfolding after
after-append cur [] ys h = ground arith
after-append cur (x ∷ xs) ys h = ground (arith, after-append cur xs ys)

-- With the current process in the list, and as much fuel as the list is long, the scheduler ends:
-- it is one scan of the processes behind the current one, and then of those in front of it.
pub process_schedule-scan :
    (fuel : ℕ) (k : Kernel) (before ys : List ℕ)
    → k.current_process ≢ 0
    → k.run_list ≡ before ++ k.current_process ∷ ys
    → has k.current_process before ≡ false
    → has k.current_process ys ≡ false
    → length k.run_list ≤ fuel
    → process_schedule fuel k ≡ scan k (ys ++ before)
unfolding process_schedule
process_schedule-scan fuel k before ys ne l hb hy f =
    ap (schedule_loop fuel k) (
      let not_null : (k.current_process == 0) ≡ false = ground arith in
      rw not_null (
        ap (or_first k)
          (ap (after k.current_process) l ∙ after-append k.current_process before ys hb)))
    ∙ loop-round k.current_process fuel k ys before ys refl l hy hb
        (omega (arith, ap length l, length-append before (k.current_process ∷ ys)))

-- What a switch promises.
abbrev pub IsSwitch : Kernel → Outcome → Type 0
IsSwitch k halted = Unit {0}
IsSwitch k null_read = Unit {0}
IsSwitch k out_of_fuel = ⊥
IsSwitch k (switched k') =
    (k'.previous_process ≡ k.current_process)
    × (k'.run_list ≡ k.run_list)
    × ((k'.procs k'.current_process).on_hold ≡ false)
    × ((k'.current_process ≡ k.current_process)
        ⊎ ((k'.procs k'.current_process).terminated ≡ false))

settle-IsSwitch :
    (k : Kernel) (q : ℕ)
    → (q ≡ k.current_process) ⊎ ((k.procs q).terminated ≡ false)
    → IsSwitch k (settle k q)
unfolding settle
settle-IsSwitch k q h = elim (Bool-cases (k.procs q).on_hold) [
  | inl held ↦ rw held tt
  | inr free ↦ rw free (refl, refl, free, h)
]

IsSwitch-keeps :
    (k k' : Kernel) (o : Outcome)
    → (k'.run_list ≡ k.run_list) × (k'.current_process ≡ k.current_process)
    → IsSwitch k' o
    → IsSwitch k o
IsSwitch-keeps k k' halted e h = tt
IsSwitch-keeps k k' null_read e h = tt
IsSwitch-keeps k k' out_of_fuel e h = h
IsSwitch-keeps k k' (switched k'') e h = ground arith

scan-IsSwitch : (k : Kernel) (qs : List ℕ) → IsSwitch k (scan k qs)
unfolding scan
scan-IsSwitch k [] = settle-IsSwitch k k.current_process (inl refl)
scan-IsSwitch k (q ∷ qs) = elim (Bool-cases (is_runnable (k.procs q))) [
  | inl runs ↦ rw runs (settle-IsSwitch k q (inr (ground arith)))
  | inr waits ↦ rw waits (elim (Option-cases (clean_if_needed k q)) [
    | inl e ↦ rw e tt
    | inr (k', e) ↦
        rw e (IsSwitch-keeps k k' _ (clean_if_needed-keeps k k' q e) (scan-IsSwitch k' qs))
  ])
]

-- With the current process in the list, and as much fuel as the list is long, the scheduler ends,
-- and if it switches, then to a process that is not on hold and that has not terminated, unless
-- it is the current process again; the latter is not asked whether it has terminated.
pub process_schedule-IsSwitch :
    (fuel : ℕ) (k : Kernel) (before ys : List ℕ)
    → k.current_process ≢ 0
    → k.run_list ≡ before ++ k.current_process ∷ ys
    → has k.current_process before ≡ false
    → has k.current_process ys ≡ false
    → length k.run_list ≤ fuel
    → IsSwitch k (process_schedule fuel k)
process_schedule-IsSwitch fuel k before ys ne l hb hy f =
    subst (IsSwitch k) (sym (process_schedule-scan fuel k before ys ne l hb hy f))
      (scan-IsSwitch k (ys ++ before))
