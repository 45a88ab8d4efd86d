-- ===== src/Descriptors/Refs.antt =====
-- The number of descriptors of an entry, over all processes, and what the events do to it.
use sbu_os.Prelude.{
  ℕ, zero, suc, ◌+◌, ◌-◌, ◌≤◌, ◌<◌, ◌≡◌, ◌≢◌, refl, ap, sym, ◌∙◌, inl, inr, Option, none, some,
  some_inj, List, [], ◌∷◌, ◌++◌, arith, ◌==◌, if◌then◌else◌, ◌>>=◌, Bool-cases, Option-cases,
  get_elem?, set,
}
use mathlib.Core.Path.{subst}
use sbu_os.Prelude.Int.{ℤ, pos, incr}
use sbu_os.Process.{close_files}
use sbu_os.Descriptors.{
  Counts, Files, Event, close, dup, pipe, open_file, spawn, fork, cleanup, sys_close, sys_dup,
  sys_pipe, sys_open_fd, dup_files, terminal_files, opened_again, at_process, handle,
}
use sbu_os.Descriptors.Count.{
  is_one, count, add, Effect, IsSized, sys_close-Effect, sys_dup-Effect, sys_open_fd-Effect,
  sys_pipe-Effect, dup_files-add, close_files-add, zero_add,
}

-- How many descriptors the processes have for the entry.
abbrev pub refs : (f : ℕ) → List (List ℕ) → ℕ
refs f [] = 0
refs f (t ∷ ts) = count f t + refs f ts

refs-set :
    (f : ℕ) (ts : List (List ℕ)) (p : ℕ) (t t' : List ℕ)
    → get_elem? ts p ≡ some t
    → refs f (set ts p t') + count f t ≡ refs f ts + count f t'
refs-set f [] p t t' h = absurd (cc h)
refs-set f (u ∷ ts) zero t t' h = omega (arith, ap (count f) (some_inj h))
refs-set f (u ∷ ts) (suc p) t t' h = omega (arith, refs-set f ts p t t' h)

refs-append :
    (f : ℕ) (ts : List (List ℕ)) (t : List ℕ) → refs f (ts ++ (t ∷ [])) ≡ refs f ts + count f t
refs-append f [] t = omega arith
refs-append f (u ∷ ts) t = omega (arith, refs-append f ts t)

refs-le :
    (f : ℕ) (ts : List (List ℕ)) (p : ℕ) (t : List ℕ)
    → get_elem? ts p ≡ some t
    → count f t ≤ refs f ts
refs-le f [] p t h = absurd (cc h)
refs-le f (u ∷ ts) zero t h = ground arith
refs-le f (u ∷ ts) (suc p) t h = omega (arith, refs-le f ts p t h)

-- Each table has its size.
abbrev pub AllSized : List (List ℕ) → Type 0
AllSized [] = Unit {0}
AllSized (t ∷ ts) = IsSized t × AllSized ts

AllSized-get :
    (ts : List (List ℕ)) (p : ℕ) (t : List ℕ) → AllSized ts → get_elem? ts p ≡ some t → IsSized t
AllSized-get [] p t a h = absurd (cc h)
AllSized-get (u ∷ ts) zero t a h = subst IsSized (some_inj h) a.0
AllSized-get (u ∷ ts) (suc p) t a h = AllSized-get ts p t a.1 h

AllSized-set :
    (ts : List (List ℕ)) (p : ℕ) (t : List ℕ) → AllSized ts → IsSized t → AllSized (set ts p t)
AllSized-set [] p t a h = a
AllSized-set (u ∷ ts) zero t a h = (h, a.1)
AllSized-set (u ∷ ts) (suc p) t a h = (a.0, AllSized-set ts p t a.1 h)

AllSized-append :
    (ts : List (List ℕ)) (t : List ℕ) → AllSized ts → IsSized t → AllSized (ts ++ (t ∷ []))
AllSized-append [] t a h = (h, tt)
AllSized-append (u ∷ ts) t a h = (a.0, AllSized-append ts t a.1 h)

-- `open_count` of an entry is the number of its descriptors, and `base` of it more; an address that
-- `sf_calloc` has not given yet is no entry.
pub record IsCounted (base : ℕ → ℤ) (s : Files) : Type 0 where
  pub sized : AllSized s.tables
  pub counted : (f : ℕ) → f ≢ 0 → s.counts f ≡ add (base f) (refs f s.tables)
  pub unused : (f : ℕ) → f ≢ 0 → s.fresh ≤ f → (base f ≡ pos 0) × (refs f s.tables ≡ 0)
  pub not_null : s.fresh ≢ 0
  pub terminals : (s.stdin_file < s.fresh) × (s.stdout_file < s.fresh)

-- A handler for one process.
Effect-IsCounted :
    (base : ℕ → ℤ) (s : Files) (p hi : ℕ) (t t' : List ℕ) (c' : Counts)
    → IsCounted base s
    → get_elem? s.tables p ≡ some t
    → Effect t t' s.counts c' s.fresh hi
    → s.fresh ≤ hi
    → IsCounted base (record s { tables = set s.tables p t'; counts = c'; fresh = hi })
Effect-IsCounted base s p hi t t' c' inv at e grows = record {
  sized =
      AllSized-set s.tables p t' inv.sized
        (ground (arith, AllSized-get s.tables p t inv.sized at, e.sized));
  counted = λ f ne.
      let n = refs f s.tables - count f t in
      let le = refs-le f s.tables p t at in
      let moved = refs-set f s.tables p t t' at in
      let before : refs f s.tables ≡ count f t + n = omega arith in
      let behind : count f t' + n ≡ refs f (set s.tables p t') = omega arith in
      e.counted f (base f) n ne
        (λ from. let (b0, none') = inv.unused f ne from in (b0, omega arith))
        (inv.counted f ne ∙ ap (add (base f)) before)
      ∙ ap (add (base f)) behind;
  unused = λ f ne from.
      let (b0, none') = inv.unused f ne (omega arith) in
      let le = refs-le f s.tables p t at in
      let gone = e.unused f ne from (omega arith) in
      let moved = refs-set f s.tables p t t' at in (b0, omega arith);
  not_null = omega (arith, inv.not_null);
  terminals = (omega (arith, inv.terminals.0), omega (arith, inv.terminals.1));
}

at_process-IsCounted :
    (base : ℕ → ℤ) (s s' : Files) (p hi : ℕ) (handler : List ℕ → Option (List ℕ × Counts))
    → IsCounted base s
    → s.fresh ≤ hi
    → ((t : List ℕ) (r : List ℕ × Counts)
        → IsSized t
        → handler t ≡ some r
        → Effect t r.0 s.counts r.1 s.fresh hi)
    → at_process (record s { fresh = hi }) p handler ≡ some s'
    → IsCounted base s'
at_process-IsCounted base s s' p hi handler inv grows effect h =
    elim (Option-cases (get_elem? s.tables p)) [
      | inl missing ↦ absurd (cc (rw missing at h))
      | inr (t, at) ↦ elim (Option-cases (handler t)) [
        | inl fails ↦ absurd (cc (rw (at, fails) at h))
        | inr (r, works) ↦ subst (IsCounted base) (some_inj (rw (at, works) at h)) (
            Effect-IsCounted base s p hi t r.0 r.1 inv at
              (effect t r (AllSized-get s.tables p t inv.sized at) works) grows)
      ]
    ]

-- A new process has the descriptors of the table, and each of its entries counts them.
append-IsCounted :
    (base : ℕ → ℤ) (s : Files) (t : List ℕ) (c' : Counts)
    → IsCounted base s
    → IsSized t
    → ((f : ℕ) → f ≢ 0 → s.fresh ≤ f → count f t ≡ 0)
    → ((f : ℕ) (b : ℤ) (m : ℕ) → f ≢ 0 → s.counts f ≡ add b m → c' f ≡ add b (m + count f t))
    → IsCounted base (record s { tables = s.tables ++ (t ∷ []); counts = c' })
append-IsCounted base s t c' inv sized new adds = record {
  sized = AllSized-append s.tables t inv.sized sized;
  counted = λ f ne.
      adds f (base f) (refs f s.tables) ne (inv.counted f ne)
      ∙ ap (add (base f)) (sym (refs-append f s.tables t));
  unused = λ f ne from.
      let (b0, none') = inv.unused f ne from in
      (b0, omega (arith, refs-append f s.tables t, new f ne from));
  not_null = inv.not_null;
  terminals = inv.terminals;
}

-- The counts after `spawn`.
abbrev handle_spawn_counts : Files → Counts
handle_spawn_counts s =
    opened_again s.stdout_file (opened_again s.stdout_file (opened_again s.stdin_file s.counts))

opened_again-add :
    (c : Counts) (x f : ℕ) (b : ℤ) (m : ℕ)
    → c f ≡ add b m
    → opened_again x c f ≡ add b (m + is_one x f)
opened_again-add c x f b m h = elim (Bool-cases (f == x)) [
  | inl this ↦
      let one : suc m ≡ m + is_one x f = ground arith in rw this (ap incr h ∙ ap (add b) one)
  | inr other ↦ let zero' : m ≡ m + is_one x f = ground arith in rw other (h ∙ ap (add b) zero')
]

handle_spawn_counts-add :
    (s : Files) (f : ℕ) (b : ℤ) (m : ℕ)
    → f ≢ 0
    → s.counts f ≡ add b m
    → handle_spawn_counts s f ≡ add b (m + count f (terminal_files s.stdin_file s.stdout_file))
handle_spawn_counts-add s f b m ne h =
    let c1 : Counts = opened_again s.stdin_file s.counts in
    let i = is_one s.stdin_file f in
    let o = is_one s.stdout_file f in
    let sum : m + i + o + o ≡ m + count f (terminal_files s.stdin_file s.stdout_file) =
      ground arith in
    opened_again-add (opened_again s.stdout_file c1) s.stdout_file f b (m + i + o) (
      opened_again-add c1 s.stdout_file f b (m + i)
        (opened_again-add s.counts s.stdin_file f b m h))
    ∙ ap (add b) sum

-- Each event keeps the state right.
pub handle-IsCounted :
    (base : ℕ → ℤ) (s s' : Files) (e : Event)
    → IsCounted base s
    → handle s e ≡ some s'
    → IsCounted base s'
unfolding handle
handle-IsCounted base s s' (close p fd) inv h =
    at_process-IsCounted base s s' p s.fresh
      (λ t. let (rax, t', counts) = sys_close t s.counts fd in some (t', counts)) inv (omega arith)
      (λ t r sized e.
        subst (λ (q : List ℕ × Counts). Effect t q.0 s.counts q.1 s.fresh s.fresh) (some_inj e)
          (sys_close-Effect t s.counts fd s.fresh))
      h
handle-IsCounted base s s' (dup p oldfd newfd) inv h =
    at_process-IsCounted base s s' p s.fresh
      (λ t. do (rax, t', counts) ← sys_dup t s.counts oldfd newfd; some (t', counts)) inv
      (omega arith)
      (λ t r sized e. elim (Option-cases (sys_dup t s.counts oldfd newfd)) [
        | inl behind ↦ absurd (cc (rw behind at e))
        | inr (q, done) ↦
            subst (λ (u : List ℕ × Counts). Effect t u.0 s.counts u.1 s.fresh s.fresh)
              (some_inj (rw done at e)) (sys_dup-Effect t s.counts oldfd newfd s.fresh q sized done)
      ])
      h
handle-IsCounted base s s' (pipe p) inv h =
    at_process-IsCounted base s s' p (s.fresh + 2)
      (λ t.
        let (rax, fd, t', counts) = sys_pipe t s.counts s.fresh (s.fresh + 1) in some (t', counts))
      inv (omega arith)
      (λ t r sized e.
        subst (λ (q : List ℕ × Counts). Effect t q.0 s.counts q.1 s.fresh (s.fresh + 2))
          (some_inj e) (sys_pipe-Effect t s.counts s.fresh inv.not_null))
      h
handle-IsCounted base s s' (open_file p low_bits found) inv h =
    at_process-IsCounted base s s' p (s.fresh + 1)
      (λ t.
        let (rax, t', counts) =
          sys_open_fd t s.counts low_bits (if found then some s.fresh else none) in
        some (t', counts))
      inv (omega arith)
      (λ t r sized e.
        subst (λ (q : List ℕ × Counts). Effect t q.0 s.counts q.1 s.fresh (s.fresh + 1))
          (some_inj e) (sys_open_fd-Effect t s.counts low_bits s.fresh found inv.not_null))
      h
handle-IsCounted base s s' spawn inv h = subst (IsCounted base) (some_inj h) (
    append-IsCounted base s (terminal_files s.stdin_file s.stdout_file) (handle_spawn_counts s) inv
      (inl refl) (λ f ne from. ground (arith, inv.terminals.0, inv.terminals.1))
      (handle_spawn_counts-add s))
handle-IsCounted base s s' (fork p) inv h = elim (Option-cases (get_elem? s.tables p)) [
  | inl missing ↦ absurd (cc (rw missing at h))
  | inr (t, at) ↦ subst (IsCounted base) (some_inj (rw at at h)) (
      append-IsCounted base s t (dup_files t s.counts) inv (AllSized-get s.tables p t inv.sized at)
        (λ f ne from. omega (arith, refs-le f s.tables p t at, (inv.unused f ne from).1))
        (λ f b m ne e. dup_files-add t s.counts f b m ne e))
]
handle-IsCounted base s s' (cleanup p) inv h =
    at_process-IsCounted base s s' p s.fresh (λ t. some ([], close_files t s.counts)) inv
      (omega arith)
      (λ t r sized e.
        subst (λ (q : List ℕ × Counts). Effect t q.0 s.counts q.1 s.fresh s.fresh) (some_inj e)
          (record {
            sized = inr refl;
            counted =
                λ f b n ne new g. close_files-add t s.counts f b n ne g ∙ ap (add b) (zero_add n);
            unused = λ f ne from g. refl;
          }))
      h

-- The states that a run of events reaches.
pub data Run (s : Files) : Files → Type 0 where
  here : Run s s
  next : {t u : Files} (e : Event) → Run s t → handle t e ≡ some u → Run s u

-- Whatever the processes do with their descriptors, closing, duplicating, opening, piping, forking and
-- ending in any order, `open_count` of every entry and the number of its descriptors keep their
-- difference: if a state is counted with a base, so is every one that a run of events reaches from it.
pub Run-IsCounted : (base : ℕ → ℤ) {s s' : Files} → IsCounted base s → Run s s' → IsCounted base s'
Run-IsCounted base inv here = inv
Run-IsCounted base inv (next {t = t} {u = u} e r h) =
    handle-IsCounted base t u e (Run-IsCounted base inv r) h
