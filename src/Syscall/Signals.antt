-- ===== src/Syscall/Signals.antt =====
-- A handler of a signal runs between its delivery and its return.
use sbu_os.Prelude.{
  ℕ, ◌≡◌, ◌≢◌, refl, ap, sym, ◌∙◌, ◌⊎◌, inl, inr, true, false, Bool-cases, arith, ◌==◌,
}
use mathlib.Core.Path.{subst}
use sbu_os.Syscall.{
  Regs, Signalled, sigkill, can_deliver, handle_sig_pending, sys_sig_return, sys_signal,
  sys_set_signal_handler,
}

-- What happens to a process and its registers: a tick, a signal from a process, a new handler, and
-- whatever the process itself does to its registers, other than sys_sig_return.
pub data Step : Signalled → Regs → Signalled → Regs → Type 0 where
  tick : (s : Signalled) (r : Regs) → Step s r (handle_sig_pending s r).0 (handle_sig_pending s r).1
  signal : (s : Signalled) (r : Regs) (n : ℕ) → Step s r (sys_signal s n) r
  set_handler : (s : Signalled) (r : Regs) (h : ℕ) → Step s r (sys_set_signal_handler s h) r
  runs : (s : Signalled) (r r' : Regs) → Step s r s r'

-- Any number of them.
pub data Steps : Signalled → Regs → Signalled → Regs → Type 0 where
  here : (s : Signalled) (r : Regs) → Steps s r s r
  next : {s t u : Signalled} {r r' r'' : Regs} → Step s r t r' → Steps t r' u r'' → Steps s r u r''

-- In a handler a tick changes nothing.
tick_idle :
    (s : Signalled) (r : Regs) → s.sig_saved_reg.int_num ≢ 0 → handle_sig_pending s r ≡ (s, r)
unfolding handle_sig_pending
tick_idle s r h =
    let closed : can_deliver s ≡ false = ground arith in rw (handle_sig_pending, closed) refl

Step-saved :
    {s : Signalled} {r : Regs} {t : Signalled} {r' : Regs}
    → Step s r t r'
    → s.sig_saved_reg.int_num ≢ 0
    → t.sig_saved_reg ≡ s.sig_saved_reg
unfolding sys_signal sys_set_signal_handler
Step-saved (tick s r) h = ap (λ (p : Signalled × Regs). p.0.sig_saved_reg) (tick_idle s r h)
Step-saved (signal s r n) h = refl
Step-saved (set_handler s r g) h = refl
Step-saved (runs s r r') h = refl

Steps-saved :
    {s : Signalled} {r : Regs} {t : Signalled} {r' : Regs}
    → Steps s r t r'
    → s.sig_saved_reg.int_num ≢ 0
    → t.sig_saved_reg ≡ s.sig_saved_reg
Steps-saved (here s r) h = refl
Steps-saved (next st more) h =
    let e = Step-saved st h in
    Steps-saved more (λ z. h (ap (λ (q : Regs). q.int_num) (sym e) ∙ z)) ∙ e

-- How a process goes on with its registers `r` when it leaves the handler in the state `s`: it resumes
-- at them, unless a signal has come meanwhile and there is a handler; then SIGKILL ends it, and another
-- signal is delivered with `r` as the registers to give back.
pub data Resumed (s : Signalled) (r : Regs) (u : Signalled) (r' : Regs) : Type 0 where
  resumes :
      (s.sig_pending ≡ 0) ⊎ (s.sig_handler ≡ 0)
      → r' ≡ r
      → u.sig_saved_reg.int_num ≡ 0
      → Resumed s r u r'
  killed :
      s.sig_pending ≡ sigkill
      → s.sig_handler ≢ 0
      → u.on_hold ≡ true
      → u.terminated ≡ true
      → Resumed s r u r'
  again :
      s.sig_pending ≢ 0
      → s.sig_pending ≢ sigkill
      → s.sig_handler ≢ 0
      → u.sig_saved_reg ≡ r
      → (u.sig_pending ≡ 0) × (r'.ret_rip ≡ s.sig_handler) × (r'.rdi ≡ s.sig_pending)
      → Resumed s r u r'

handle_sig_pending-Resumed :
    (s : Signalled) (r : Regs)
    → s.sig_saved_reg.int_num ≡ 0
    → Resumed s r (handle_sig_pending s r).0 (handle_sig_pending s r).1
unfolding handle_sig_pending
handle_sig_pending-Resumed s r outside = elim (Bool-cases (can_deliver s)) [
  | inr closed ↦ rw (handle_sig_pending, closed) (resumes (ground (arith, outside)) refl outside)
  | inl open' ↦ elim (Bool-cases (s.sig_pending == sigkill)) [
    | inl kill ↦
        rw (handle_sig_pending, open', kill) (killed (ground arith) (ground arith) refl refl)
    | inr other ↦
        rw (handle_sig_pending, open', other)
          (again (ground arith) (ground arith) (ground arith) refl (refl, refl, refl))
  ]
]

-- The state outside the handler.
abbrev left : Signalled → Signalled
left s = record s { sig_saved_reg = record s.sig_saved_reg { int_num = 0 } }

Resumed-left :
    (s : Signalled) (r : Regs) (u : Signalled) (r' : Regs)
    → Resumed (left s) r u r'
    → Resumed s r u r'
Resumed-left s r u r' (resumes idle same out) = resumes idle same out
Resumed-left s r u r' (killed kill handler held gone) = killed kill handler held gone
Resumed-left s r u r' (again some' other handler saved rest) = again some' other handler saved rest

-- A tick delivers a pending signal other than SIGKILL to a process with a handler that is not in it:
-- the process goes on at the handler with the signal as its argument. Whatever ticks, signals, new
-- handlers and own steps follow, the next sys_sig_return gives back all the registers that the tick
-- interrupted and leaves the process outside the handler; but if a signal has come meanwhile, and
-- there still is a handler, SIGKILL ends the process and any other signal is delivered at once, with
-- these registers as those to give back.
pub sys_sig_return-handle_sig_pending :
    (s t : Signalled) (r r' : Regs)
    → s.sig_pending ≢ 0
    → s.sig_pending ≢ sigkill
    → s.sig_handler ≢ 0
    → s.sig_saved_reg.int_num ≡ 0
    → r.int_num ≢ 0
    → Steps (handle_sig_pending s r).0 (handle_sig_pending s r).1 t r'
    → ((handle_sig_pending s r).1.ret_rip ≡ s.sig_handler)
      × ((handle_sig_pending s r).1.rdi ≡ s.sig_pending)
      × ((handle_sig_pending s r).0.sig_pending ≡ 0)
      × Resumed t r (sys_sig_return t r').0 (sys_sig_return t r').1
unfolding handle_sig_pending sys_sig_return
sys_sig_return-handle_sig_pending s t r r' pending other handler outside from steps =
    let open' : can_deliver s ≡ true = ground arith in
    let normal : (s.sig_pending == sigkill) ≡ false = ground arith in
    let delivered : handle_sig_pending s r ≡ (
      record s { sig_saved_reg = r; sig_pending = 0 },
      record r { ret_rip = s.sig_handler; rdi = s.sig_pending },
    ) =
      rw (handle_sig_pending, open', normal) refl in
    let saved : (handle_sig_pending s r).0.sig_saved_reg ≡ r =
      ap (λ (p : Signalled × Regs). p.0.sig_saved_reg) delivered in
    let in_handler : (handle_sig_pending s r).0.sig_saved_reg.int_num ≢ 0 =
      λ z. from (ap (λ (q : Regs). q.int_num) (sym saved) ∙ z) in
    let kept : t.sig_saved_reg ≡ r = Steps-saved steps in_handler ∙ saved in
    let inside : (t.sig_saved_reg.int_num == 0) ≡ false =
      ap (λ (q : Regs). q.int_num == 0) kept ∙ ground arith in
    (
      ap (λ (p : Signalled × Regs). p.1.ret_rip) delivered,
      ap (λ (p : Signalled × Regs). p.1.rdi) delivered,
      ap (λ (p : Signalled × Regs). p.0.sig_pending) delivered,
      rw (sys_sig_return, inside)
          (Resumed-left t r _ _ (
            subst
              (λ q.
                Resumed (left t) q (handle_sig_pending (left t) t.sig_saved_reg).0
                  (handle_sig_pending (left t) t.sig_saved_reg).1)
              kept (handle_sig_pending-Resumed (left t) t.sig_saved_reg refl))),
    )

-- Without a handler, or inside it, a tick changes neither the process nor its registers, even if
-- SIGKILL is pending.
pub handle_sig_pending_ignores :
    (s : Signalled) (r : Regs)
    → (s.sig_handler ≡ 0) ⊎ (s.sig_saved_reg.int_num ≢ 0)
    → handle_sig_pending s r ≡ (s, r)
unfolding handle_sig_pending
handle_sig_pending_ignores s r h =
    let closed : can_deliver s ≡ false = ground arith in rw (handle_sig_pending, closed) refl
