-- ===== src/Disk/Queue.antt =====
-- One pass over the disk tasks.
use sbu_os.Prelude.{
  ℕ, ◌≡◌, ◌⊎◌, inl, inr, refl, ap, sym, ◌∙◌, Bool, true, false, not, ◌&&◌, ◌||◌, Option, none, some,
  List, [], ◌∷◌, ◌==◌, if◌then◌else◌, Bool-cases, ◌>>=◌,
}
use mathlib.Core.Path.{subst}
use sbu_os.Pages.{PageTable}
use sbu_os.Disk.{
  Answer, no_slot, failed, issued_at, Ahci, Task, Disk, base_at, retried, check_task, check_tasks,
  check_disk_task,
}

-- Is one of the tasks for the process, if that is not terminated?
abbrev pub wakes : (ℕ → Bool) → ℕ → List Task → Bool
wakes terminated q [] = false
wakes terminated q (t ∷ ts) = (not (terminated t.proc) && q == t.proc) || wakes terminated q ts

if_or :
    (b w x : Bool) → (if w then false else if b then false else x) ≡ (if b || w then false else x)
if_or true true x = refl
if_or true false x = refl
if_or false true x = refl
if_or false false x = refl

module _ {C : Type 0} (ahci : Ahci C) where
  -- What the controller says of a task that was issued, and of one that is sent.
  abbrev pub port_of : C → Task → Bool × C
  port_of c t = ahci.check_ahci_port c t.disk_id t.slot

  abbrev pub answer_to : PageTable → C → Task → Answer × C
  answer_to pages c t = ahci.ahci_task c t.is_write t.disk_id t.lba (base_at pages t.rw_to)

  -- One task: whether it is done, and what it has become, with the controller before and after.
  pub data Step (pages : PageTable) : C → Task → Bool → Task → C → Type 0 where
    finished :
        (c : C) (t : Task)
        → t.issued ≡ true
        → (port_of c t).0 ≡ true
        → Step pages c t true t (port_of c t).1
    running :
        (c : C) (t : Task)
        → t.issued ≡ true
        → (port_of c t).0 ≡ false
        → Step pages c t false t (port_of c t).1
    waits :
        (c : C) (t : Task)
        → t.issued ≡ false
        → (answer_to pages c t).0 ≡ no_slot
        → Step pages c t false t (answer_to pages c t).1
    sends :
        (c : C) (t : Task) (n : ℕ)
        → t.issued ≡ false
        → (answer_to pages c t).0 ≡ issued_at n
        → Step pages c t false (record t { issued = true; slot = n }) (answer_to pages c t).1

  -- The tasks before the pass, those after it, and those that are done; each list in its order.
  pub data Pass (pages : PageTable) : C → List Task → List Task → List Task → C → Type 0 where
    empty : (c : C) → Pass pages c [] [] [] c
    next :
        {c c1 c2 : C} {t u : Task} {ts us fs : List Task} (done : Bool)
        → Step pages c t done u c1
        → Pass pages c1 ts us fs c2
        → Pass pages c (t ∷ ts) (if done then us else u ∷ us) (if done then t ∷ fs else fs) c2

  -- A pass that comes to a task which the controller refuses.
  pub data Stopped (pages : PageTable) : C → List Task → Type 0 where
    refused :
        (c : C) (t : Task) (ts : List Task)
        → t.issued ≡ false
        → (answer_to pages c t).0 ≡ failed
        → Stopped pages c (t ∷ ts)
    later :
        {c c1 : C} {t u : Task} {ts : List Task} (done : Bool)
        → Step pages c t done u c1
        → Stopped pages c1 ts
        → Stopped pages c (t ∷ ts)

  -- What a pass from the state `s` over the tasks `ts` ends with.
  pub record Passed (s : Disk C) (ts us : List Task) (s' : Disk C) : Type 0 where
    pub done : List Task
    pub pass : Pass s.pages s.controller ts us done s'.controller
    pub woken : (q : ℕ) → s'.on_hold q ≡ (if wakes s.terminated q done then false else s.on_hold q)
    pub same_pages : s'.pages ≡ s.pages
    pub same_terminated : s'.terminated ≡ s.terminated

  -- What the check of one task leaves.
  record Checked (s : Disk C) (t : Task) (done : Bool) (u : Task) (s' : Disk C) : Type 0 where
    step : Step s.pages s.controller t done u s'.controller
    woken_by :
        (q : ℕ)
        → s'.on_hold q
          ≡ (if done && not (s.terminated t.proc) && q == t.proc then false else s.on_hold q)
    same_pages : s'.pages ≡ s.pages
    same_terminated : s'.terminated ≡ s.terminated

  Passed-cons :
      {s s1 s2 : Disk C} {t u : Task} {ts us : List Task} (done : Bool)
      → Checked s t done u s1
      → Passed s1 ts us s2
      → Passed s (t ∷ ts) (if done then us else u ∷ us) s2
  Passed-cons {s} {s1} {s2} {t} {u} {ts} {us} true c p = record {
    done = t ∷ p.done;
    pass =
        Pass.next true c.step
          (subst (λ g. Pass g s1.controller ts us p.done s2.controller) c.same_pages p.pass);
    woken = λ q.
        p.woken q
        ∙ ap (λ m. if wakes m q p.done then false else s1.on_hold q) c.same_terminated
        ∙ ap (λ x. if wakes s.terminated q p.done then false else x) (c.woken_by q)
        ∙ if_or (not (s.terminated t.proc) && q == t.proc) (wakes s.terminated q p.done)
            (s.on_hold q);
    same_pages = p.same_pages ∙ c.same_pages;
    same_terminated = p.same_terminated ∙ c.same_terminated;
  }
  Passed-cons {s} {s1} {s2} {t} {u} {ts} {us} false c p = record {
    done = p.done;
    pass =
        Pass.next false c.step
          (subst (λ g. Pass g s1.controller ts us p.done s2.controller) c.same_pages p.pass);
    woken = λ q.
        p.woken q
        ∙ ap (λ m. if wakes m q p.done then false else s1.on_hold q) c.same_terminated
        ∙ ap (λ x. if wakes s.terminated q p.done then false else x) (c.woken_by q);
    same_pages = p.same_pages ∙ c.same_pages;
    same_terminated = p.same_terminated ∙ c.same_terminated;
  }

  -- What comes of one task, and of a list of them.
  abbrev Outcome : Disk C → Task → Option (Bool × Task × Disk C) → Type 0
  Outcome s t o =
      ((done : Bool) × (u : Task) × (s' : Disk C) × (o ≡ some (done, u, s'))
        × Checked s t done u s')
      ⊎ ((o ≡ none) × (t.issued ≡ false) × ((answer_to s.pages s.controller t).0 ≡ failed))

  -- A task that is sent, by the answer.
  sent-Outcome :
      (s : Disk C) (t : Task) (a : Answer) (c : C)
      → answer_to s.pages s.controller t ≡ (a, c)
      → t.issued ≡ false
      → Outcome s t (retried ahci t a >>= λ u. some (false, u, record s { controller = c }))
  unfolding retried
  sent-Outcome s t no_slot c e waiting = inl (
    false,
    t,
    record s { controller = c },
    refl,
    record {
      step =
          subst (Step s.pages s.controller t false t) (ap (λ (r : Answer × C). r.1) e)
            (Step.waits s.controller t waiting (ap (λ (r : Answer × C). r.0) e));
      woken_by = λ q. refl;
      same_pages = refl;
      same_terminated = refl;
    },
  )
  sent-Outcome s t failed c e waiting = inr (refl, waiting, ap (λ (r : Answer × C). r.0) e)
  sent-Outcome s t (issued_at n) c e waiting = inl (
    false,
    record t { issued = true; slot = n },
    record s { controller = c },
    refl,
    record {
      step =
          subst (Step s.pages s.controller t false (record t { issued = true; slot = n }))
            (ap (λ (r : Answer × C). r.1) e)
            (Step.sends s.controller t n waiting (ap (λ (r : Answer × C). r.0) e));
      woken_by = λ q. refl;
      same_pages = refl;
      same_terminated = refl;
    },
  )

  -- The step of a task that was issued.
  port-Step :
      (pages : PageTable) (c : C) (t : Task)
      → t.issued ≡ true
      → Step pages c t (port_of c t).0 t (port_of c t).1
  port-Step pages c t issued = elim (Bool-cases (port_of c t).0) [
    | inl done ↦
        subst (λ b. Step pages c t b t (port_of c t).1) (sym done) (Step.finished c t issued done)
    | inr not_yet ↦
        subst (λ b. Step pages c t b t (port_of c t).1) (sym not_yet)
          (Step.running c t issued not_yet)
  ]

  check_task-Outcome : (s : Disk C) (t : Task) → Outcome s t (check_task ahci s t)
  unfolding check_task
  check_task-Outcome s t = elim (Bool-cases t.issued) [
    | inl issued ↦
        let port = port_of s.controller t in
        inl (
          port.0,
          t,
          record s {
            controller = port.1;
            on_hold = λ q.
                if port.0 && not (s.terminated t.proc) && q == t.proc then false else s.on_hold q;
          },
          rw issued refl,
          record {
            step = port-Step s.pages s.controller t issued;
            woken_by = λ q. refl;
            same_pages = refl;
            same_terminated = refl;
          },
        )
    | inr waiting ↦
        let sent = answer_to s.pages s.controller t in
        let port = port_of s.controller t in
        subst
          (λ b. Outcome s t (
            if not b
            then (retried ahci t sent.0 >>= λ u. some (false, u, record s { controller = sent.1 }))
            else some (
              port.0,
              t,
              record s {
                controller = port.1;
                on_hold = λ q.
                    if port.0 && not (s.terminated t.proc) && q == t.proc
                    then false
                    else s.on_hold q;
              },
            )))
          (sym waiting) (sent-Outcome s t sent.0 sent.1 refl waiting)
  ]

  check_tasks-Passed :
      (s : Disk C) (ts : List Task)
      → ((us : List Task) × (s' : Disk C) × (check_tasks ahci s ts ≡ some (us, s'))
          × Passed s ts us s')
        ⊎ ((check_tasks ahci s ts ≡ none) × Stopped s.pages s.controller ts)
  unfolding check_tasks
  check_tasks-Passed s [] = inl (
    [],
    s,
    refl,
    record {
      done = [];
      pass = Pass.empty s.controller;
      woken = λ q. refl;
      same_pages = refl;
      same_terminated = refl;
    },
  )
  check_tasks-Passed s (t ∷ ts) = elim (check_task-Outcome s t) [
    | inr (stops, waiting, refusal) ↦
        inr (rw (check_tasks, stops) refl, Stopped.refused s.controller t ts waiting refusal)
    | inl (d, u, s1, e1, checked) ↦ elim (check_tasks-Passed s1 ts) [
      | inl (us, s2, e2, passed) ↦ inl (
        if d then us else u ∷ us,
        s2,
        rw (check_tasks, e1, ◌>>=◌, e2) refl,
        Passed-cons d checked passed,
      )
      | inr (stops, rest) ↦ inr (
        rw (check_tasks, e1, ◌>>=◌, stops) refl,
        Stopped.later d checked.step
            (subst (λ g. Stopped g s1.controller ts) checked.same_pages rest),
      )
    ]
  ]

  -- A call of `check_disk_task` asks the controller once for each task, in their order, with what the
  -- answers before have left: for an issued one whether it is done, and for another one to issue it. If
  -- the controller refuses none, the call comes to its end: it removes from the queue just the tasks
  -- that are done, keeps the others in their order, those that got a slot as issued there, and takes
  -- exactly the processes of the removed tasks off hold, unless they are terminated. At the first task
  -- that is refused the call does not come to its end.
  pub check_disk_task-Passed :
      (s : Disk C)
      → ((s' : Disk C) × (check_disk_task ahci s ≡ some s') × Passed s s.tasks s'.tasks s')
        ⊎ ((check_disk_task ahci s ≡ none) × Stopped s.pages s.controller s.tasks)
  unfolding check_disk_task
  check_disk_task-Passed s = elim (check_tasks-Passed s s.tasks) [
    | inr (stops, where_it_is) ↦ inr (rw (check_disk_task, stops) refl, where_it_is)
    | inl (us, s', e, p) ↦ inl (
      record s' { tasks = us },
      rw (check_disk_task, e) refl,
      record {
        done = p.done;
        pass = p.pass;
        woken = p.woken;
        same_pages = p.same_pages;
        same_terminated = p.same_terminated;
      },
    )
  ]
