-- ===== src/Syscall/Wait.antt =====
-- A process that waits for a child.
use sbu_os.Prelude.{
  ℕ, ◌+◌, ◌≡◌, ◌≢◌, refl, ap, sym, ◌∙◌, ◌⊎◌, inl, inr, Bool, true, false, ◌&&◌, ◌||◌, some,
  some_inj, List, [], ◌∷◌, ◌++◌, arith, ◌==◌, Bool-cases, Option-cases,
}
use mathlib.Core.Path.{subst}
use sbu_os.Process.{
  Proc, Procs, Kernel, update, any_child, wake_parent, free_maps, close_files, process_cleanup,
}
use sbu_os.Syscall.{
  find_target, remove_behind, remove_process, waits_for, sys_wait, waiting, ends, assert_fails,
  woken_wait,
}

-- The process that the call means.
abbrev pub is_meant : Procs → (pid current_process c : ℕ) → Bool
is_meant procs pid current_process c =
    (procs c).id == pid || pid == any_child && (procs c).parent == current_process

-- What the search finds is meant, and stands in the list.
abbrev pub InList : ℕ → List ℕ → Type 0
InList p [] = ⊥
InList p (c ∷ cs) = (c ≡ p) ⊎ InList p cs

later : (p c : ℕ) (cs : List ℕ) → (c == p) ≡ false → InList p (c ∷ cs) → InList p cs
later p c cs other (inl e) = absurd (ground arith)
later p c cs other (inr there) = there

find_target-meant :
    (procs : Procs) (cs : List ℕ) (pid current_process place i c : ℕ)
    → find_target procs cs pid current_process place ≡ some (i, c)
    → (is_meant procs pid current_process c ≡ true) × InList c cs
unfolding find_target
find_target-meant procs [] pid current_process place i c h = absurd (cc h)
find_target-meant procs (d ∷ cs) pid current_process place i c h =
    elim (Bool-cases (is_meant procs pid current_process d)) [
      | inl meant ↦
          let e : d ≡ c = ap (λ (q : ℕ × ℕ). q.1) (some_inj (rw (find_target, meant) at h)) in
          (subst (λ x. is_meant procs pid current_process x ≡ true) e meant, inl e)
      | inr passed ↦
          let (meant, there) =
            find_target-meant procs cs pid current_process (place + 1) i c
              (rw (find_target, passed) at h) in
          (meant, inr there)
    ]

-- What the clean-up of another process does to a process that waits for it.
wake_parent-waits :
    (procs : Procs) (p q : ℕ)
    → (procs p).parent ≡ q
    → q ≢ 0
    → (procs q).id_wait_for == (procs p).id || (procs q).id_wait_for == any_child ≡ true
    → wake_parent procs p ≡ update procs q (λ r. record r { on_hold = false; id_wait_for_p = p })
unfolding wake_parent
wake_parent-waits procs p q child ne waits =
    let some_q : (q == 0) ≡ false = ground arith in rw (wake_parent, child, some_q, waits) refl

process_cleanup-keeps :
    (k k' : Kernel) (p q : ℕ)
    → q ≢ p
    → process_cleanup k p ≡ some k'
    → (k'.procs q ≡ wake_parent k.procs p q)
      × (k'.run_list ≡ k.run_list)
      × (k'.current_process ≡ k.current_process)
unfolding process_cleanup
process_cleanup-keeps k k' p q ne h =
    let procs = wake_parent k.procs p in
    elim (Option-cases (free_maps (procs p).first_map k.table)) [
      | inl hangs ↦ absurd (cc (rw (process_cleanup, hangs) at h))
      | inr (table, freed) ↦
          let there : (q == p) ≡ false = ground arith in
          let after : Kernel = record k {
            procs = update procs p (λ r. record r { cleaned = true });
            table = table;
            open_counts = close_files (procs p).open_fd k.open_counts;
          } in
          let e : after ≡ k' = some_inj (rw (process_cleanup, freed) at h) in
          (
            ap (λ (u : Kernel). u.procs q) (sym e) ∙ rw there refl,
            ap (λ (u : Kernel). u.run_list) (sym e),
            ap (λ (u : Kernel). u.current_process) (sym e),
          )
    ]

-- How a process is taken out of a list: it stands once less in it, unless it is the head, which stays.
pub data Taken (p : ℕ) : List ℕ → List ℕ → Type 0 where
  stays : (cs : List ℕ) → Taken p (p ∷ cs) (p ∷ cs)
  leaves :
      (front back : List ℕ)
      → (c : ℕ) → (InList p (c ∷ front) → ⊥)
      → Taken p (c ∷ front ++ (p ∷ back)) (c ∷ front ++ back)

-- The first place of a process that is in a list.
remove_behind-first :
    (p : ℕ) (cs : List ℕ)
    → InList p cs
    → (front back : List ℕ) × (cs ≡ front ++ (p ∷ back))
      × (remove_behind p cs ≡ front ++ back)
      × (InList p front → ⊥)
unfolding remove_behind
remove_behind-first p [] there = absurd there
remove_behind-first p (c ∷ cs) there = elim (Bool-cases (c == p)) [
  | inl same ↦ let e : c ≡ p = ground arith in ([], cs, ap (λ x. x ∷ cs) e, rw same refl, λ h. h)
  | inr other ↦
      let (front, back, split, removed, fresh) =
        remove_behind-first p cs (later p c cs other there) in
      (
        c ∷ front,
        back,
        ap (λ l. c ∷ l) split,
        rw (other, removed) refl,
        λ h. fresh (later p c front other h),
      )
]

remove_process-Taken : (p : ℕ) (cs : List ℕ) → InList p cs → Taken p cs (remove_process p cs)
unfolding remove_process
remove_process-Taken p [] there = absurd there
remove_process-Taken p (c ∷ cs) there = elim (Bool-cases (c == p)) [
  | inl same ↦
      let e : p ≡ c = ground arith in rw same (subst (λ x. Taken p (x ∷ cs) (x ∷ cs)) e (stays cs))
  | inr other ↦
      let (front, back, split, removed, fresh) =
        remove_behind-first p cs (later p c cs other there) in
      rw (other, split, sym split, removed)
        (subst (λ l. Taken p (c ∷ l) (c ∷ front ++ back)) (sym split)
          (leaves front back c λ h. fresh (later p c front other h)))
]

-- A call that waits has found its target, and is in that state.
sys_wait-waiting :
    (k : Kernel) (pid target : ℕ)
    → (sys_wait k pid).0 ≡ waits_for target
    → (is_meant k.procs pid k.current_process target ≡ true)
      × InList target k.run_list
      × ((sys_wait k pid).1 ≡ waiting k pid)
unfolding sys_wait
sys_wait-waiting k pid target h =
    elim (Option-cases (find_target k.procs k.run_list pid k.current_process 0)) [
      | inl missing ↦ absurd (cc (rw (sys_wait, missing) at h))
      | inr ((place, c), found) ↦ elim (Bool-cases (k.procs c).terminated) [
        | inl gone ↦ absurd (cc (rw (sys_wait, found, gone) at h))
        | inr runs ↦
            let e : c ≡ target = cc (rw (sys_wait, found, runs) at h) in
            let (meant, there) =
              find_target-meant k.procs k.run_list pid k.current_process 0 place c found in
            (
              subst (λ x. is_meant k.procs pid k.current_process x ≡ true) e meant,
              subst (λ x. InList x k.run_list) e there,
              rw (sys_wait, found, runs) refl,
            )
      ]
    ]

-- The clean-up of a child that the process waits for wakes it.
cleanup-wakes :
    (k k' : Kernel) (pid c : ℕ)
    → k.current_process ≢ 0
    → k.current_process ≢ c
    → (k.procs c).parent ≡ k.current_process
    → pid == (k.procs c).id || pid == any_child ≡ true
    → process_cleanup (waiting k pid) c ≡ some k'
    → ((k'.procs k.current_process).on_hold ≡ false)
      × ((k'.procs k'.current_process).id_wait_for_p ≡ c)
      × (k'.run_list ≡ k.run_list)
cleanup-wakes k k' pid c ne other child wanted cleaned =
    let me = k.current_process in
    let k1 = waiting k pid in
    let same : (me == me) ≡ true = ground arith in
    let apart : (c == me) ≡ false = ground arith in
    let asked : (k1.procs me).id_wait_for ≡ pid = rw same refl in
    let parent' : (k1.procs c).parent ≡ me = rw apart child in
    let id' : (k1.procs c).id ≡ (k.procs c).id = rw apart refl in
    let wanted' : (k1.procs me).id_wait_for == (k1.procs c).id
          || (k1.procs me).id_wait_for == any_child
        ≡ true =
      rw (asked, id') wanted in
    let (procs', list', me') = process_cleanup-keeps k1 k' c me other cleaned in
    let now : k'.procs me ≡ record (k1.procs me) { on_hold = false; id_wait_for_p = c } =
      procs'
      ∙ ap (λ (f : Procs). f me) (wake_parent-waits k1.procs c me parent' ne wanted')
      ∙ rw same refl in
    (
      ap (λ (r : Proc). r.on_hold) now,
      ap (λ x. (k'.procs x).id_wait_for_p) me' ∙ ap (λ (r : Proc). r.id_wait_for_p) now,
      list',
    )

-- A process waits with sys_wait for a child that runs: it is put on hold. When the child is cleaned up,
-- with nothing else in between, it is on hold no more, and its call then ends: the child, and no other
-- process, leaves the list. Only a child at the head of the list stays in it.
pub sys_wait-process_cleanup :
    (k k' : Kernel) (pid target : ℕ)
    → k.current_process ≢ 0
    → k.current_process ≢ target
    → target ≢ 0
    → (k.procs target).parent ≡ k.current_process
    → (sys_wait k pid).0 ≡ waits_for target
    → process_cleanup (sys_wait k pid).1 target ≡ some k'
    → (((sys_wait k pid).1.procs k.current_process).on_hold ≡ true)
      × ((k'.procs k.current_process).on_hold ≡ false)
      × (list : List ℕ) × (woken_wait k' pid target ≡ ends (record k' { run_list = list }))
      × Taken target k.run_list list
unfolding woken_wait
sys_wait-process_cleanup k k' pid target ne other address child waits cleaned =
    let me = k.current_process in
    let (meant, there, e) = sys_wait-waiting k pid target waits in
    let same : (me == me) ≡ true = ground arith in
    let held : ((waiting k pid).procs me).on_hold ≡ true = rw same refl in
    let (runs, right, list') =
      cleanup-wakes k k' pid target ne other child (ground arith)
        (ap (λ u. process_cleanup u target) (sym e) ∙ cleaned) in
    let right' : ((k'.procs k'.current_process).id_wait_for_p == target) ≡ true = ground arith in
    let woken : ((k'.procs k'.current_process).id_wait_for_p == 0) ≡ false =
      ground (arith, address) in
    (
      ap (λ (u : Kernel). (u.procs me).on_hold) e ∙ held,
      runs,
      remove_process target k.run_list,
      rw (woken_wait, woken, right')
          (ap (λ l. ends (record k' { run_list = remove_process target l })) list'),
      remove_process-Taken target k.run_list there,
    )

-- A process that waits for any child waits for the first one in the list: when another child of it is
-- cleaned up first, it runs again, but its call fails an `assert` and never returns.
pub sys_wait_other_child :
    (k k' : Kernel) (target c : ℕ)
    → k.current_process ≢ 0
    → k.current_process ≢ c
    → c ≢ 0
    → (k.procs c).parent ≡ k.current_process
    → c ≢ target
    → (sys_wait k any_child).0 ≡ waits_for target
    → process_cleanup (sys_wait k any_child).1 c ≡ some k'
    → ((k'.procs k.current_process).on_hold ≡ false)
      × (woken_wait k' any_child target ≡ assert_fails)
unfolding woken_wait
sys_wait_other_child k k' target c ne other address child differs waits cleaned =
    let (meant, there, e) = sys_wait-waiting k any_child target waits in
    let (runs, wrong, list') =
      cleanup-wakes k k' any_child c ne other child (ground arith)
        (ap (λ u. process_cleanup u c) (sym e) ∙ cleaned) in
    let wrong' : ((k'.procs k'.current_process).id_wait_for_p == target) ≡ false = ground arith in
    let woken : ((k'.procs k'.current_process).id_wait_for_p == 0) ≡ false =
      ground (arith, address) in
    (runs, rw (woken_wait, woken, wrong') refl)
