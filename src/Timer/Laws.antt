-- ===== src/Timer/Laws.antt =====
-- What one tick does to the list of waiters, and whom it wakes.
use sbu_os.Prelude.{
  ℕ, zero, suc, ◌≡◌, ◌≢◌, ◌-◌, refl, ap, Bool, true, false, ◌∙◌, List, [], ◌∷◌, arith, ◌==◌,
  if◌then◌else◌, ◌||◌,
}
use sbu_os.Process.{Procs}
use sbu_os.Timer.{Waiter, fire, count_down, tick_loop, tick_timer_update}

-- The waiters with ticks left, with one tick less.
abbrev pub remaining : List Waiter → List Waiter
remaining [] = []
remaining (w ∷ ws) =
    let rest = remaining ws in
    if w.ticks_to_wake == 0
    then rest
    else record { proc = w.proc; ticks_to_wake = w.ticks_to_wake - 1; is_alarm = w.is_alarm } ∷ rest

-- The list after a tick: a head without ticks goes, and the waiter behind it is passed over.
abbrev pub after_tick : List Waiter → List Waiter
after_tick [] = []
after_tick (w ∷ []) = remaining (w ∷ [])
after_tick (w ∷ n ∷ ns) = if w.ticks_to_wake == 0 then n ∷ remaining ns else remaining (w ∷ n ∷ ns)

tick_loop-remaining :
    (procs : Procs) (cursor : Waiter) (ns : List Waiter)
    → (tick_loop procs cursor ns).1 ≡ cursor ∷ remaining ns
unfolding tick_loop
tick_loop-remaining procs cursor [] = refl
tick_loop-remaining procs cursor (n ∷ ns) = ground (
  arith,
  tick_loop-remaining (fire procs cursor) cursor ns,
  tick_loop-remaining procs (count_down n) ns,
)

-- A tick removes the waiters without ticks left and takes one tick from the others, in their order;
-- only the waiter behind a removed head keeps its ticks, whatever they are.
pub tick_timer_update-after_tick :
    (procs : Procs) (ws : List Waiter) → (tick_timer_update procs ws).1 ≡ after_tick ws
unfolding tick_timer_update
tick_timer_update-after_tick procs [] = refl
tick_timer_update-after_tick procs (w ∷ []) =
    ground (arith, tick_loop-remaining procs (count_down w) [])
tick_timer_update-after_tick procs (w ∷ n ∷ ns) = ground (
  arith,
  tick_loop-remaining (fire procs w) n ns,
  tick_loop-remaining procs (count_down w) (n ∷ ns),
)

-- Whether the process of one of the waiters is `q`.
abbrev pub waits : ℕ → List Waiter → Bool
waits q [] = false
waits q (w ∷ ws) = (q == w.proc) || waits q ws

tick_loop-others :
    (procs : Procs) (cursor : Waiter) (ns : List Waiter) (q : ℕ)
    → waits q (cursor ∷ ns) ≡ false
    → (tick_loop procs cursor ns).0 q ≡ procs q
unfolding tick_loop
tick_loop-others procs cursor [] q h = refl
tick_loop-others procs cursor (n ∷ ns) q h = ground (
  arith,
  tick_loop-others (fire procs cursor) cursor ns q,
  tick_loop-others procs (count_down n) ns q,
)

-- A tick changes no process that is not waiting.
pub tick_timer_update-others :
    (procs : Procs) (ws : List Waiter) (q : ℕ)
    → waits q ws ≡ false
    → (tick_timer_update procs ws).0 q ≡ procs q
unfolding tick_timer_update
tick_timer_update-others procs [] q h = refl
tick_timer_update-others procs (w ∷ []) q h =
    ground (arith, tick_loop-others procs (count_down w) [] q)
tick_timer_update-others procs (w ∷ n ∷ ns) q h = ground (
  arith,
  tick_loop-others (fire procs w) n ns q,
  tick_loop-others procs (count_down w) (n ∷ ns) q,
)

-- The processes after `n` ticks, and the waiters.
pub ticks : ℕ → Procs → List Waiter → Procs × List Waiter
ticks zero procs ws = (procs, ws)
ticks (suc n) procs ws = let (procs', ws') = tick_timer_update procs ws in ticks n procs' ws'

one_tick :
    (procs : Procs) (w : Waiter)
    → w.ticks_to_wake ≢ 0
    → tick_timer_update procs (w ∷ []) ≡ (procs, count_down w ∷ [])
unfolding tick_timer_update
one_tick procs w h = ground arith

fires :
    (procs : Procs) (w : Waiter)
    → w.ticks_to_wake ≡ 0
    → tick_timer_update procs (w ∷ []) ≡ (fire procs w, [])
unfolding tick_timer_update
fires procs w h = ground arith

ticks_alone_fires :
    (procs : Procs) (n : ℕ) (w : Waiter)
    → w.ticks_to_wake ≡ n
    → (ticks n procs (w ∷ []) ≡ (procs, record w { ticks_to_wake = 0 } ∷ []))
      × (ticks (suc n) procs (w ∷ []) ≡ (fire procs w, []))
unfolding ticks
ticks_alone_fires procs zero w e =
    (ap (λ t. (procs, record w { ticks_to_wake = t } ∷ [])) e, fires procs w e)
ticks_alone_fires procs (suc n) w e =
    rw (one_tick procs w (omega arith)) (ticks_alone_fires procs n (count_down w) (omega arith))

-- During as many ticks as a waiter that is alone in the list asked for, no process changes, and the
-- waiter is left with no ticks. The next tick takes its process off hold, with SIGALRM, which is 14,
-- pending if it is an alarm, changes no other process, and empties the list.
pub ticks_alone :
    (procs : Procs) (n : ℕ) (w : Waiter)
    → w.ticks_to_wake ≡ n
    → (ticks n procs (w ∷ []) ≡ (procs, record w { ticks_to_wake = 0 } ∷ []))
      × ((ticks (suc n) procs (w ∷ [])).1 ≡ [])
      × (((ticks (suc n) procs (w ∷ [])).0 w.proc).on_hold ≡ false)
      × (((ticks (suc n) procs (w ∷ [])).0 w.proc).sig_pending
          ≡ (if w.is_alarm then 14 else (procs w.proc).sig_pending))
      × ((q : ℕ) → q ≢ w.proc → (ticks (suc n) procs (w ∷ [])).0 q ≡ procs q)
ticks_alone procs n w e =
    let (before, fired) = ticks_alone_fires procs n w e in
    let now : (ticks (suc n) procs (w ∷ [])).0 ≡ fire procs w =
      ap (λ (r : Procs × List Waiter). r.0) fired in
    let here : (w.proc == w.proc) ≡ true = ground arith in
    (
      before,
      ap (λ (r : Procs × List Waiter). r.1) fired,
      ap (λ (f : Procs). (f w.proc).on_hold) now ∙ rw here refl,
      ap (λ (f : Procs). (f w.proc).sig_pending) now ∙ rw here refl,
      λ q ne.
          let there : (q == w.proc) ≡ false = ground (arith, ne) in
          ap (λ (f : Procs). f q) now ∙ rw there refl,
    )

-- When a waiter behind another one that goes on waiting has no ticks left, a tick removes it, but
-- takes the process of the waiter in front off hold and leaves its own process as it was.
pub tick_wakes_predecessor :
    (procs : Procs) (w n : Waiter)
    → w.ticks_to_wake ≢ 0
    → n.ticks_to_wake ≡ 0
    → w.proc ≢ n.proc
    → let (procs', ws) = tick_timer_update procs (w ∷ n ∷ []) in
      (ws ≡ count_down w ∷ []) × ((procs' w.proc).on_hold ≡ false) × (procs' n.proc ≡ procs n.proc)
unfolding tick_timer_update
tick_wakes_predecessor procs w n hw hn ne = ground arith
