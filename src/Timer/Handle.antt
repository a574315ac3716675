-- ===== src/Timer/Handle.antt =====
-- time/timer.go and time/sleep.go: timers and tickers as their users hold them.
-- A duration is an int64. The functions that a wheel is given by these methods start or send, and
-- return nil. A channel is a value of the type of a timer's argument.
use goext.Prelude.{
  ℕ, ◌||◌, leb, length, ◌+◌, ◌%◌, ◌^◌, ◌++◌, [], ◌∷◌, ◌≡◌, ap, ◌⊎◌, inl, inr, arith, Bool, true,
  false, if◌then◌else◌, Option, none, some, Outcome, ret, panic,
}
use goext.Prelude.Int64.{leb_int64}
use goext.Timer.{new_timer_node, timer_once, timer_loop}
use goext.Timer.Loop.{
  World, AddResult, added, channel_full, channel_closed, add_timer, delete_timer, reset_timer,
  queue_size, action_add,
}
use goext.Timer.Calls.{add_timer_lem}

-- The channel C or nil, the ID, and whether the field w is set.
pub record Timer (A : Type 0) : Type 0 where
  pub c : Option A
  pub id : ℕ
  pub attached : Bool

-- The timer that AddTimer returns with its field C set, or nil.
unfoldable pub timer_of : {A : Type 0} → Option A → AddResult → Option (Timer A)
timer_of c (added id) = some (record { c = c; id = id; attached = true })
timer_of c channel_full = none
timer_of c channel_closed = none

module _ {A : Type 0} where
  unfoldable pub send_time : ℕ → ℕ → A → Bool
  send_time id t arg = true

  unfoldable pub go_func : ℕ → ℕ → A → Bool
  go_func id t arg = true

  unfoldable pub new_timer : World A → ℕ → A → Option (Timer A) × World A
  new_timer s d c = let (r, s') = add_timer s send_time timer_once d c in (timer_of (some c) r, s')

  unfoldable pub after_func : World A → ℕ → A → Option (Timer A) × World A
  after_func s d f = let (r, s') = add_timer s go_func timer_once d f in (timer_of none r, s')

  unfoldable pub new_ticker : World A → ℕ → A → Option (Timer A) × World A
  new_ticker s d c = let (r, s') = add_timer s send_time timer_loop d c in (timer_of (some c) r, s')

  unfoldable pub tick_func : World A → ℕ → A → Option (Timer A) × World A
  tick_func s d f = let (r, s') = add_timer s go_func timer_loop d f in (timer_of none r, s')

  -- The read of the field C of what NewTimer or NewTicker returns.
  unfoldable pub or_panic : Option (Timer A) × World A → Outcome (Option A × World A)
  or_panic (none, s) = panic
  or_panic (some t, s) = ret (t.c, s)

  -- After and Tick.
  unfoldable pub after : World A → ℕ → A → Outcome (Option A × World A)
  after s d c = or_panic (new_timer s d c)

  unfoldable pub tick : World A → ℕ → A → Outcome (Option A × World A)
  tick s d c = or_panic (new_ticker s d c)

  -- Timer.Reset and Timer.Stop.
  unfoldable pub timer_reset : A → World A → Timer A → ℕ → Outcome (World A)
  timer_reset nil s t d =
      if leb_int64 d 0
      then ret s
      else if t.attached
      then ret (reset_timer nil s t.id d).1
      else panic

  unfoldable pub timer_stop : A → World A → Timer A → Outcome (Timer A × World A)
  timer_stop nil s t =
      if t.attached then ret (record t { attached = false }, (delete_timer nil s t.id).1) else panic

  -- After sends a new timer and returns its channel if the wheel is not stopped and the queue has
  -- room, and panics if not.
  pub after_lem :
      (s : World A) (d : ℕ) (c : A)
      → ((s.q_nil || leb queue_size (length s.timer_q)) ≡ true) × (after s d c ≡ panic)
        ⊎ ((s.q_nil || leb queue_size (length s.timer_q)) ≡ false)
          × (after s d c
              ≡ ret (
                some c,
                record s {
                  next_id = (s.next_id + 1) % 2 ^ 64;
                  timer_q =
                      s.timer_q
                      ++ record {
                        node =
                            new_timer_node
                              ((s.next_id + 1) % 2 ^ 64)
                              s.cur_gx_time
                              send_time
                              timer_once
                              d
                              c;
                        action = action_add;
                      }
                        ∷ [];
                },
              ))
  unfolding after or_panic new_timer timer_of
  after_lem s d c = elim (add_timer_lem s send_time timer_once d c) [
    | inl (e, q) ↦ inl (ground arith, ap (λ r. or_panic (timer_of (some c) r.0, r.1)) q)
    | inr (inl (e, k, q)) ↦ inl (ground arith, ap (λ r. or_panic (timer_of (some c) r.0, r.1)) q)
    | inr (inr (e, k, q)) ↦ inr (ground arith, ap (λ r. or_panic (timer_of (some c) r.0, r.1)) q)
  ]
