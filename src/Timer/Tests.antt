-- ===== src/Timer/Tests.antt =====
-- The timer at work, and the theorems at concrete waiters.
use sbu_os.Prelude.{ℕ, ◌≡◌, ◌≢◌, refl, true, false, [], ◌∷◌}
use sbu_os.Process.{Procs}
use sbu_os.Timer.{Waiter, tick_timer_update, register_to_be_waken, register_to_trigger_alarm}
use sbu_os.Timer.Laws.{after_tick, ticks, ticks_alone, tick_timer_update-after_tick}

abbrev held : Procs
held _ = record {
  id = 1;
  parent = 0;
  on_hold = true;
  terminated = false;
  cleaned = false;
  first_map = [];
  open_fd = [];
  sig_pending = 0;
  id_wait_for = 0;
  id_wait_for_p = 0;
}

abbrev waiter : ℕ → ℕ → Waiter
waiter p n = record { proc = p; ticks_to_wake = n; is_alarm = true }

registers :
    (register_to_be_waken held (waiter 5 9 ∷ []) 6 3).1
    ≡ waiter 5 9 ∷ record { proc = 6; ticks_to_wake = 3; is_alarm = false } ∷ []
unfolding register_to_be_waken
registers = refl

registers_alarm : register_to_trigger_alarm (waiter 5 9 ∷ []) 6 3 ≡ waiter 5 9 ∷ waiter 6 3 ∷ []
unfolding register_to_trigger_alarm
registers_alarm = refl

wakes : ((tick_timer_update held (waiter 5 0 ∷ [])).0 5).on_hold ≡ false
unfolding tick_timer_update
wakes = refl

tick_timer_update-after_tick_example :
    (tick_timer_update held (waiter 5 0 ∷ waiter 6 4 ∷ waiter 7 0 ∷ waiter 8 2 ∷ [])).1
    ≡ after_tick (waiter 5 0 ∷ waiter 6 4 ∷ waiter 7 0 ∷ waiter 8 2 ∷ [])
tick_timer_update-after_tick_example =
    tick_timer_update-after_tick held (waiter 5 0 ∷ waiter 6 4 ∷ waiter 7 0 ∷ waiter 8 2 ∷ [])

ticks_alone_example :
    (ticks 2 held (waiter 5 2 ∷ []) ≡ (held, waiter 5 0 ∷ []))
    × ((ticks 3 held (waiter 5 2 ∷ [])).1 ≡ [])
    × (((ticks 3 held (waiter 5 2 ∷ [])).0 5).on_hold ≡ false)
    × (((ticks 3 held (waiter 5 2 ∷ [])).0 5).sig_pending ≡ 14)
    × ((q : ℕ) → q ≢ 5 → (ticks 3 held (waiter 5 2 ∷ [])).0 q ≡ held q)
ticks_alone_example = ticks_alone held 2 (waiter 5 2) refl
