-- ===== src/Timer/Loop.antt =====
-- The goroutine of NewTimerWheel and the methods that send to it: AddTimer, deleteTimer, resetTimer
-- and Stop.
-- A World is a wheel with its channel and its ticker. Calls of other goroutines and rounds of the
-- loop are steps, in any order.
use goext.Prelude.{
  ℕ, List, [], ◌∷◌, ◌++◌, ◌+◌, ◌%◌, ◌^◌, ◌≡◌, ◌==◌, ltb, Bool, true, false, if◌then◌else◌, Option,
  none, some, Outcome, ret, ◌>>=◌, length,
}
use goext.Prelude.Int.{pos, ◌+ℤ◌, ◌-ℤ◌, eqb_ℤ}
use goext.Timer.{
  TimerNode, TimerWheel, new_timer_node, insert_timer_node, delete_timer_node, reset_timer_node,
  timer_update, run,
}

abbrev pub action_add : ℕ
action_add = 1

abbrev pub action_del : ℕ
action_del = 2

abbrev pub action_reset : ℕ
action_reset = 3

abbrev pub queue_size : ℕ
queue_size = 128

pub record TimerNodeAction (A : Type 0) : Type 0 where
  pub node : TimerNode A
  pub action : ℕ

-- Where the loop is: before its select, in it with a channel that is nil or not, or after it.
pub data LoopState : Type 0 where
  at_top : LoopState
  selecting : Bool → LoopState
  ended : LoopState

-- What AddTimer returns: the timer's ID, ErrTimeChannelFull or ErrTimeChannelClosed.
pub data AddResult : Type 0 where
  added : ℕ → AddResult
  channel_full : AddResult
  channel_closed : AddResult

-- The variables curGxTime and nextID, the wheel, what the channel holds, whether it is closed and
-- whether w.timerQ is nil, whether the ticker runs, the tick that waits, and the loop.
pub record World (A : Type 0) : Type 0 where
  pub cur_gx_time : ℕ
  pub next_id : ℕ
  pub wheel : TimerWheel A
  pub timer_q : List (TimerNodeAction A)
  pub q_closed : Bool
  pub q_nil : Bool
  pub ticking : Bool
  pub pending : Option ℕ
  pub loop : LoopState

module _ {A : Type 0} where
  -- NewTimerWheel.
  unfoldable pub new_timer_wheel : ℕ → TimerWheel A
  new_timer_wheel cur = record {
    start = cur;
    clock = cur;
    number = pos 0;
    hand = 0 ∷ 0 ∷ 0 ∷ 0 ∷ 0 ∷ [];
    slot = λ j. [];
  }

  -- The switch on what timerQ delivers.
  unfoldable pub handle : TimerWheel A → TimerNodeAction A → TimerWheel A
  handle w a =
      let added = insert_timer_node (record w { number = w.number +ℤ pos 1 }) a.node in
      if a.action == action_add
      then added
      else if a.action == action_del
      then delete_timer_node (record w { number = w.number -ℤ pos 1 }) a.node
      else if a.action == action_reset
      then reset_timer_node w a.node
      else added

  -- A tick: whether the loop goes on, the nodes that run, and the wheel.
  unfoldable pub on_tick : TimerWheel A → ℕ → Outcome (Bool × (List (TimerNode A) × TimerWheel A))
  on_tick w now =
      let updated : Outcome (Bool × (List (TimerNode A) × TimerWheel A)) = do
        (moved, w') ← timer_update w now
        ret (true, if moved then run w' else ([], w'))
      in if eqb_ℤ w.number (pos 0) then ret (false, ([], w)) else updated

  -- The nonblocking send to timerQ: none where the channel is full.
  unfoldable pub send : World A → TimerNodeAction A → Option (World A)
  send s a =
      if ltb (length s.timer_q) queue_size
      then some (record s { timer_q = s.timer_q ++ a ∷ [] })
      else none

  unfoldable pub add_timer : World A → (ℕ → ℕ → A → Bool) → ℕ → ℕ → A → AddResult × World A
  add_timer s f typ period arg =
      let id = (s.next_id + 1) % 2 ^ 64 in
      let node = new_timer_node id s.cur_gx_time f typ period arg in
      let s' = record s { next_id = id } in
      let sent : AddResult × World A =
        elim (send s' (record { node = node; action = action_add })) [
          | none ↦ (channel_full, s')
          | some s'' ↦ (added id, s'')
        ] in
      if s.q_nil then (channel_closed, s) else sent

  -- A node of which only the ID and the period are set. `nil` is the value of its field arg.
  unfoldable pub blank_node : A → ℕ → ℕ → TimerNode A
  blank_node nil id period = record {
    id = id;
    trig = 0;
    typ = 0;
    period = period;
    timer_run = λ i t a. true;
    arg = nil;
  }

  -- Whether the error of deleteTimer is nil, and what it leaves.
  unfoldable pub delete_timer : A → World A → ℕ → Bool × World A
  delete_timer nil s id =
      let sent : Bool × World A =
        elim (send s (record { node = blank_node nil id 0; action = action_del })) [
          | none ↦ (false, s)
          | some s' ↦ (true, s')
        ] in
      if s.q_nil then (false, s) else sent

  unfoldable pub reset_timer : A → World A → ℕ → ℕ → Bool × World A
  reset_timer nil s id d =
      let sent : Bool × World A =
        elim (send s (record { node = blank_node nil id d; action = action_reset })) [
          | none ↦ (false, s)
          | some s' ↦ (true, s')
        ] in
      if s.q_nil then (false, s) else sent

  -- TimerWheel.Stop; what runs once is the first call's.
  unfoldable pub stop : World A → World A
  stop s = if s.q_closed then s else record s { q_closed = true; ticking = false; q_nil = true }

  -- The ticker's channel holds one tick.
  unfoldable pub fire : World A → ℕ → World A
  fire s now = elim s.pending [ none ↦ record s { pending = some now } | some t ↦ s ]

  -- What a step of the loop or of another goroutine does.
  pub data Step : World A → World A → Type 0 where
    step_enter : (s : World A) → s.loop ≡ at_top → Step s (record s { loop = selecting s.q_nil })
    step_tick :
        (s : World A) (q : Bool) (now : ℕ) (go : Bool) (ran : List (TimerNode A)) (w : TimerWheel A)
        → s.loop ≡ selecting q
        → s.pending ≡ some now
        → on_tick s.wheel now ≡ ret (go, (ran, w))
        → Step s (record s {
          cur_gx_time = now;
          pending = none;
          wheel = w;
          loop = if go then at_top else ended;
        })
    step_receive :
        (s : World A) (a : TimerNodeAction A) (q : List (TimerNodeAction A))
        → s.loop ≡ selecting false
        → s.timer_q ≡ a ∷ q
        → Step s (record s { timer_q = q; wheel = handle s.wheel a; loop = at_top })
    step_drained :
        (s : World A)
        → s.loop ≡ selecting false
        → s.timer_q ≡ []
        → s.q_closed ≡ true
        → Step s (record s { loop = ended })
    step_fire : (s : World A) (now : ℕ) → s.ticking ≡ true → Step s (fire s now)
    step_add :
        (s : World A) (f : ℕ → ℕ → A → Bool) (typ period : ℕ) (arg : A)
        → Step s (add_timer s f typ period arg).1
    step_delete : (s : World A) (nil : A) (id : ℕ) → Step s (delete_timer nil s id).1
    step_reset : (s : World A) (nil : A) (id d : ℕ) → Step s (reset_timer nil s id d).1
    step_stop : (s : World A) → Step s (stop s)

  pub data Steps : World A → World A → Type 0 where
    none_left : (s : World A) → Steps s s
    step_then : (s t u : World A) → Step s t → Steps t u → Steps s u
