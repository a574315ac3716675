-- ===== src/Timer/Tests.antt =====
-- A wheel that starts at 0 with a loop of 50 ms, a timer at 20 ms and one at 90 s.
use goext.Prelude.{
  ℕ, List, [], ◌∷◌, ◌++◌, ◌+◌, ◌%◌, ◌^◌, ◌*◌, ◌≡◌, refl, Bool, true, false, ◌||◌, leb, arith, ◌⊎◌,
  none, some, length, Outcome, ret, panic, no_fuel,
}
use goext.Prelude.Int.{◌+ℤ◌, ◌-ℤ◌}
use goext.Timer.{
  TimerNode, TimerWheel, timer_once, millisecond, second, new_timer_node, insert_timer_node,
  delete_timer_node, reset_timer_node, timer_cascade, timer_update, insert_slot, set_slot, level_of,
  second_num, minute_num, hour_num, day_num, compare_timer_node, insert_sorted, is_negative,
  hand_time, run, run_loop, reinsert, move_hands, delta_diff, turn, increments, remainder,
  cascade_levels, cascade_loop, stays,
}
use goext.Timer.Handle.{send_time, after, after_lem}
use goext.Timer.Slots.{held, one}
use goext.Timer.Update.{IsValid, IsUpdated, timer_update_lem}
use goext.Timer.Take.{has_id, with_period, delete_timer_node_lem, reset_timer_node_lem}
use goext.Timer.Tick.{IsTicked, on_tick_lem}
use goext.Timer.Steps.{idle_tick_ends}
use goext.Timer.Kept.{IsFit, new_timer_wheel-IsValid, handle-IsValid}
use goext.Prelude.Int64.{add_int64, sub_int64, div_int64, ltb_int64, leb_int64}
use goext.Timer.Loop.{
  World, at_top, selecting, ended, Step, step_add, none_left, step_then, TimerNodeAction, handle,
  on_tick, new_timer_wheel, add_timer, queue_size, action_add,
}

abbrev fine : ℕ → ℕ → ℕ → Bool
fine i t a = true

abbrev node_at : ℕ → ℕ → ℕ → ℕ → TimerNode ℕ
node_at i t k d = record { id = i; trig = t; typ = k; period = d; timer_run = fine; arg = 0 }

abbrev adding : TimerNode ℕ → TimerNodeAction ℕ
adding n = record { node = n; action = 1 }

abbrev loop_node : TimerNode ℕ
loop_node = node_at 1 (50 * millisecond) 2 (50 * millisecond)

abbrev once_node : TimerNode ℕ
once_node = node_at 2 (20 * millisecond) 1 (20 * millisecond)

abbrev late_node : TimerNode ℕ
late_node = node_at 3 (90 * second) 1 (90 * second)

abbrev wheel : TimerWheel ℕ
wheel =
    handle (handle (handle (new_timer_wheel 0) (adding loop_node)) (adding once_node))
      (adding late_node)

loop-IsFit : IsFit (adding loop_node)
loop-IsFit = record { short = omega arith; timed = λ a b. (omega arith, omega arith, omega arith) }

once-IsFit : IsFit (adding once_node)
once-IsFit = record { short = omega arith; timed = λ a b. (omega arith, omega arith, omega arith) }

late-IsFit : IsFit (adding late_node)
late-IsFit = record { short = omega arith; timed = λ a b. (omega arith, omega arith, omega arith) }

wheel-IsValid : IsValid wheel
wheel-IsValid =
    handle-IsValid (handle (handle (new_timer_wheel 0) (adding loop_node)) (adding once_node))
      (adding late_node) late-IsFit
      (handle-IsValid (handle (new_timer_wheel 0) (adding loop_node)) (adding once_node) once-IsFit
        (handle-IsValid (new_timer_wheel 0) (adding loop_node) loop-IsFit
          (new_timer_wheel-IsValid 0 (omega arith))))

-- A tick at 60 ms runs the timer and then the loop; a tick at 91 s runs the loop and the late timer.
abbrev ran_ids : List (TimerNode ℕ) → List ℕ
ran_ids [] = []
ran_ids (n ∷ ns) = n.id ∷ ran_ids ns

abbrev run_of : Outcome (Bool × (List (TimerNode ℕ) × TimerWheel ℕ)) → List ℕ
run_of (ret (go, (ran, w))) = ran_ids ran
run_of panic = []
run_of no_fuel = []

abbrev wheel_of : Outcome (Bool × (List (TimerNode ℕ) × TimerWheel ℕ)) → TimerWheel ℕ
wheel_of (ret (go, (ran, w))) = w
wheel_of panic = new_timer_wheel 0
wheel_of no_fuel = new_timer_wheel 0

two_ticks :
    (run_of (on_tick wheel (60 * millisecond)) ≡ 2 ∷ 1 ∷ [])
    × (run_of (on_tick (wheel_of (on_tick wheel (60 * millisecond))) (91 * second)) ≡ 1 ∷ 3 ∷ [])
unfolding handle new_timer_wheel on_tick insert_timer_node insert_slot insert_sorted
    compare_timer_node is_negative level_of second_num minute_num hour_num day_num set_slot
    timer_update run run_loop reinsert move_hands delta_diff hand_time turn increments remainder
    cascade_levels timer_cascade cascade_loop stays ◌+ℤ◌ ◌-ℤ◌ add_int64 sub_int64 div_int64
    ltb_int64 leb_int64
two_ticks = (refl, refl)

on_tick_lem_example :
    (ran : List (TimerNode ℕ)) × (w' : TimerWheel ℕ) × (on_tick wheel (60 * millisecond)
      ≡ ret (true, (ran, w')))
    × IsTicked wheel (60 * millisecond) ran w'
unfolding handle new_timer_wheel insert_timer_node insert_slot set_slot hand_time ◌+ℤ◌
on_tick_lem_example =
    on_tick_lem wheel (60 * millisecond) wheel-IsValid refl (omega arith) (omega arith)

timer_update_lem_example :
    (w' : TimerWheel ℕ) × (timer_update wheel (60 * second) ≡ ret (true, w'))
    × IsUpdated wheel (60 * second) w'
unfolding handle new_timer_wheel insert_timer_node insert_slot set_slot hand_time
timer_update_lem_example =
    timer_update_lem wheel (60 * second) wheel-IsValid (omega arith) (omega arith)

delete_timer_node_lem_example :
    (held (has_id 2) wheel ≡ 0) × (delete_timer_node wheel once_node ≡ wheel)
    ⊎ ((n : TimerNode ℕ) × (has_id 2 n ≡ true)
        × ((p : TimerNode ℕ → Bool)
            → held p wheel ≡ one (p n) + held p (delete_timer_node wheel once_node)))
delete_timer_node_lem_example = delete_timer_node_lem wheel once_node

reset_timer_node_lem_example :
    (held (has_id 2) wheel ≡ 0) × (reset_timer_node wheel (node_at 2 0 0 7) ≡ wheel)
    ⊎ ((n : TimerNode ℕ) × (has_id 2 n ≡ true)
        × ((p : TimerNode ℕ → Bool)
            → held p wheel + one (p (with_period n 7))
              ≡ one (p n) + held p (reset_timer_node wheel (node_at 2 0 0 7))))
reset_timer_node_lem_example = reset_timer_node_lem wheel (node_at 2 0 0 7)

-- A world with the wheel, and its loop before the select.
abbrev world : World ℕ
world = record {
  cur_gx_time = 0;
  next_id = 3;
  wheel = wheel;
  timer_q = [];
  q_closed = false;
  q_nil = false;
  ticking = true;
  pending = none;
  loop = at_top;
}

abbrev entered : World ℕ
entered = record world { loop = selecting false }

-- A new wheel, whose first tick waits.
abbrev idle : World ℕ
idle = record world {
  wheel = new_timer_wheel 0;
  loop = selecting false;
  pending = some (10 * millisecond);
}

abbrev idle_after : World ℕ
idle_after = record idle { cur_gx_time = 10 * millisecond; pending = none; loop = ended }

idle_tick_ends_example :
    Step idle idle_after
    × ((add_timer idle_after fine 1 (30 * millisecond) 0).1.wheel ≡ new_timer_wheel 0)
    × ((add_timer idle_after fine 1 (30 * millisecond) 0).1.loop ≡ ended)
unfolding new_timer_wheel
idle_tick_ends_example =
    idle_tick_ends idle (add_timer idle_after fine 1 (30 * millisecond) 0).1 false
      (10 * millisecond) refl refl refl
      (step_then idle_after (add_timer idle_after fine 1 (30 * millisecond) 0).1
        (add_timer idle_after fine 1 (30 * millisecond) 0).1
        (step_add idle_after fine 1 (30 * millisecond) 0)
        (none_left (add_timer idle_after fine 1 (30 * millisecond) 0).1))

after_lem_example :
    ((entered.q_nil || leb queue_size (length entered.timer_q)) ≡ true)
      × (after entered 7 0 ≡ panic)
    ⊎ ((entered.q_nil || leb queue_size (length entered.timer_q)) ≡ false)
      × (after entered 7 0
          ≡ ret (
            some 0,
            record entered {
              next_id = (entered.next_id + 1) % 2 ^ 64;
              timer_q =
                  entered.timer_q
                  ++ record {
                    node =
                        new_timer_node
                          ((entered.next_id + 1) % 2 ^ 64)
                          entered.cur_gx_time
                          send_time
                          timer_once
                          7
                          0;
                    action = action_add;
                  }
                    ∷ [];
            },
          ))
after_lem_example = after_lem entered 7 0
