-- ===== src/Timer.antt =====
-- sys/timer.c: the list of waiters, which the timer counts down.
pub mod Laws
mod Tests
use sbu_os.Prelude.{ℕ, ◌-◌, Bool, true, false, List, [], ◌∷◌, ◌++◌, ◌==◌, if◌then◌else◌}
use sbu_os.Process.{Proc, Procs, update}

-- `waiter`; the list that `first_waiter` heads is a list of these.
pub record Waiter : Type 0 where
  pub proc : ℕ
  pub ticks_to_wake : ℕ
  pub is_alarm : Bool

-- SIGALRM
abbrev pub sigalrm : ℕ
sigalrm = 14

abbrev hold : Proc → Proc
hold r = record r { on_hold = true }

-- `register_to_be_waken`. The first waiter is not put on hold here.
unfoldable pub register_to_be_waken : Procs → List Waiter → (proc ticks : ℕ) → Procs × List Waiter
register_to_be_waken procs [] proc ticks =
    (procs, record { proc = proc; ticks_to_wake = ticks; is_alarm = false } ∷ [])
register_to_be_waken procs (w ∷ ws) proc ticks = (
  update procs proc hold,
  (w ∷ ws) ++ (record { proc = proc; ticks_to_wake = ticks; is_alarm = false } ∷ []),
)

-- `register_to_trigger_alarm`
unfoldable pub register_to_trigger_alarm : List Waiter → (proc ticks : ℕ) → List Waiter
register_to_trigger_alarm [] proc ticks =
    record { proc = proc; ticks_to_wake = ticks; is_alarm = true } ∷ []
register_to_trigger_alarm (w ∷ ws) proc ticks =
    (w ∷ ws) ++ (record { proc = proc; ticks_to_wake = ticks; is_alarm = true } ∷ [])

-- `if(cursor->is_alarm) cursor->proc->sig_pending = SIGALRM; cursor->proc->on_hold = 0;`
abbrev pub fire : Procs → Waiter → Procs
fire procs w =
    update procs w.proc (λ r. record r {
      on_hold = false;
      sig_pending = if w.is_alarm then sigalrm else r.sig_pending;
    })

abbrev pub count_down : Waiter → Waiter
count_down w = record w { ticks_to_wake = w.ticks_to_wake - 1 }

-- The loop of `tick_timer_update` over the waiters behind `cursor`. When one of them has no ticks
-- left it is removed, and what fires is `cursor`.
pub tick_loop : Procs → Waiter → List Waiter → Procs × List Waiter
tick_loop procs cursor [] = (procs, cursor ∷ [])
tick_loop procs cursor (n ∷ ns) =
    let removed = tick_loop (fire procs cursor) cursor ns in
    let (procs', rest) = tick_loop procs (count_down n) ns in
    if n.ticks_to_wake == 0 then removed else (procs', cursor ∷ rest)

-- `tick_timer_update`: the first waiter, and the loop. Behind a removed head the new head keeps its
-- ticks.
unfoldable pub tick_timer_update : Procs → List Waiter → Procs × List Waiter
unfolding tick_loop
tick_timer_update procs [] = (procs, [])
tick_timer_update procs (w ∷ []) =
    if w.ticks_to_wake == 0 then (fire procs w, []) else tick_loop procs (count_down w) []
tick_timer_update procs (w ∷ n ∷ ns) =
    if w.ticks_to_wake == 0
    then tick_loop (fire procs w) n ns
    else tick_loop procs (count_down w) (n ∷ ns)
