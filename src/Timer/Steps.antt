-- ===== src/Timer/Steps.antt =====
-- The steps of the loop and of the goroutines that call the wheel.
use goext.Prelude.{
  ℕ, [], ◌≡◌, refl, ap, ◌∙◌, ltb, Bool, true, false, inl, inr, Bool-cases, Option-cases, none, some,
  length,
}
use goext.Prelude.Int.{pos, eqb_ℤ}
use goext.Timer.Tick.{stop-eq}
use goext.Timer.Loop.{
  World, LoopState, at_top, selecting, ended, Step, Steps, step_enter, step_tick, step_receive,
  step_drained, step_fire, step_add, step_delete, step_reset, step_stop, none_left, step_then, send,
  add_timer, delete_timer, reset_timer, stop, fire, queue_size,
}

abbrev is_ended : LoopState → Bool
is_ended at_top = false
is_ended (selecting q) = false
is_ended ended = true

not_top : (l : LoopState) → l ≡ at_top → l ≡ ended → ⊥
not_top l e f = absurd (let a = ap is_ended f in let b = ap is_ended e in cc)

not_selecting : (l : LoopState) (q : Bool) → l ≡ selecting q → l ≡ ended → ⊥
not_selecting l q e f = absurd (let a = ap is_ended f in let b = ap is_ended e in cc)

module _ {A : Type 0} where
  -- What a call of another goroutine leaves alone.
  record IsCall (s s' : World A) : Type 0 where
    wheel : s'.wheel ≡ s.wheel
    loop : s'.loop ≡ s.loop

  add_timer-IsCall :
      (s : World A) (f : ℕ → ℕ → A → Bool) (typ period : ℕ) (arg : A)
      → IsCall s (add_timer s f typ period arg).1
  unfolding add_timer send
  add_timer-IsCall s f typ period arg = elim (Bool-cases s.q_nil) [
    | inl e ↦ rw e (record { wheel = refl; loop = refl })
    | inr e ↦ elim (Bool-cases (ltb (length s.timer_q) queue_size)) [
      | inl b ↦ rw (e, b) (record { wheel = refl; loop = refl })
      | inr b ↦ rw (e, b) (record { wheel = refl; loop = refl })
    ]
  ]

  delete_timer-IsCall : (nil : A) (s : World A) (id : ℕ) → IsCall s (delete_timer nil s id).1
  unfolding delete_timer send
  delete_timer-IsCall nil s id = elim (Bool-cases s.q_nil) [
    | inl e ↦ rw e (record { wheel = refl; loop = refl })
    | inr e ↦ elim (Bool-cases (ltb (length s.timer_q) queue_size)) [
      | inl b ↦ rw (e, b) (record { wheel = refl; loop = refl })
      | inr b ↦ rw (e, b) (record { wheel = refl; loop = refl })
    ]
  ]

  reset_timer-IsCall : (nil : A) (s : World A) (id d : ℕ) → IsCall s (reset_timer nil s id d).1
  unfolding reset_timer send
  reset_timer-IsCall nil s id d = elim (Bool-cases s.q_nil) [
    | inl e ↦ rw e (record { wheel = refl; loop = refl })
    | inr e ↦ elim (Bool-cases (ltb (length s.timer_q) queue_size)) [
      | inl b ↦ rw (e, b) (record { wheel = refl; loop = refl })
      | inr b ↦ rw (e, b) (record { wheel = refl; loop = refl })
    ]
  ]

  stop-IsCall : (s : World A) → IsCall s (stop s)
  unfolding stop
  stop-IsCall s = elim (Bool-cases s.q_closed) [
    | inl e ↦ rw e (record { wheel = refl; loop = refl })
    | inr e ↦ rw e (record { wheel = refl; loop = refl })
  ]

  fire-IsCall : (s : World A) (now : ℕ) → IsCall s (fire s now)
  unfolding fire
  fire-IsCall s now = elim (Option-cases s.pending) [
    | inl e ↦ rw e (record { wheel = refl; loop = refl })
    | inr (t, e) ↦ rw e (record { wheel = refl; loop = refl })
  ]

  Step-ended : {s t : World A} → Step s t → s.loop ≡ ended → (t.wheel ≡ s.wheel) × (t.loop ≡ ended)
  Step-ended (step_enter s l) e = absurd (not_top s.loop l e)
  Step-ended (step_tick s q now go ran w l p r) e = absurd (not_selecting s.loop q l e)
  Step-ended (step_receive s a q l r) e = absurd (not_selecting s.loop false l e)
  Step-ended (step_drained s l r c) e = (refl, refl)
  Step-ended (step_fire s now k) e = let c = fire-IsCall s now in (c.wheel, c.loop ∙ e)
  Step-ended (step_add s f typ period arg) e =
      let c = add_timer-IsCall s f typ period arg in (c.wheel, c.loop ∙ e)
  Step-ended (step_delete s nil id) e =
      let c = delete_timer-IsCall nil s id in (c.wheel, c.loop ∙ e)
  Step-ended (step_reset s nil id d) e =
      let c = reset_timer-IsCall nil s id d in (c.wheel, c.loop ∙ e)
  Step-ended (step_stop s) e = let c = stop-IsCall s in (c.wheel, c.loop ∙ e)

  Steps-ended :
      {s t : World A} → Steps s t → s.loop ≡ ended → (t.wheel ≡ s.wheel) × (t.loop ≡ ended)
  Steps-ended (none_left s) e = (refl, e)
  Steps-ended (step_then s u t a b) e =
      let (w, l) = Step-ended a e in let (w', l') = Steps-ended b l in (w' ∙ w, l')

  -- A tick on a wheel whose number is 0 ends the loop, and whatever is called from then on, timers
  -- added among it, the wheel stays as it is.
  pub idle_tick_ends :
      (s t : World A) (q : Bool) (now : ℕ)
      → s.loop ≡ selecting q
      → s.pending ≡ some now
      → eqb_ℤ s.wheel.number (pos 0) ≡ true
      → Steps (record s { cur_gx_time = now; pending = none; loop = ended }) t
      → Step s (record s { cur_gx_time = now; pending = none; loop = ended })
        × (t.wheel ≡ s.wheel)
        × (t.loop ≡ ended)
  idle_tick_ends s t q now l p z r =
      let after = Steps-ended r refl in
      (step_tick s q now false [] s.wheel l p (stop-eq s.wheel now z), after.0, after.1)
