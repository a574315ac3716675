-- ===== src/Timer/Kept.antt =====
-- The wheel, the queue and the clock while the loop and its callers step.
use goext.Prelude.{
  ℕ, List, [], ◌∷◌, ◌<◌, ◌≡◌, refl, ◌==◌, false, arith, inl, inr, Bool-cases, none, some, Option,
}
use goext.Prelude.Int.{ℤ, pos, ◌+ℤ◌, ◌-ℤ◌}
use goext.Prelude.Int64.{quarter64}
use goext.Timer.{TimerWheel, hand_time}
use goext.Timer.Slots.{IsTimed}
use goext.Timer.Update.{IsValid}
use goext.Timer.Run.{insert_timer_node-IsValid}
use goext.Timer.Take.{delete_timer_node-IsValid, reset_timer_node-IsValid}
use goext.Timer.Loop.{
  World, Step, Steps, step_enter, step_tick, step_receive, step_drained, step_fire, step_add,
  step_delete, step_reset, step_stop, none_left, step_then, TimerNodeAction, handle,
  new_timer_wheel, action_add, action_del, action_reset,
}

-- A node that is sent to the wheel: what is added is timed, and a new period is below 2^62.
pub record IsFit {A : Type 0} (a : TimerNodeAction A) : Type 0 where
  pub short : a.node.period < quarter64
  pub timed : (a.action == action_del) ≡ false → (a.action == action_reset) ≡ false → IsTimed a.node

abbrev pub AreFit : {A : Type 0} → List (TimerNodeAction A) → Type 0
AreFit [] = Unit
AreFit (a ∷ q) = IsFit a × AreFit q

abbrev pub IsEarly : Option ℕ → Type 0
IsEarly none = Unit
IsEarly (some t) = t < quarter64

-- The wheel is valid, and what waits for it is fit.
pub record IsKept {A : Type 0} (s : World A) : Type 0 where
  pub valid : IsValid s.wheel
  pub early : s.cur_gx_time < quarter64
  pub tick : IsEarly s.pending
  pub queue : AreFit s.timer_q

-- The ticks, and the periods of the calls, are below 2^62.
abbrev pub IsTimely : {A : Type 0} → {s t : World A} → Step s t → Type 0
IsTimely (step_enter s l) = Unit
IsTimely (step_tick s q now go ran w l p e) = Unit
IsTimely (step_receive s a q l e) = Unit
IsTimely (step_drained s l e c) = Unit
IsTimely (step_fire s now k) = now < quarter64
IsTimely (step_add s f typ period arg) = period < quarter64
IsTimely (step_delete s nil id) = Unit
IsTimely (step_reset s nil id d) = d < quarter64
IsTimely (step_stop s) = Unit

abbrev pub AreTimely : {A : Type 0} → {s t : World A} → Steps s t → Type 0
AreTimely (none_left s) = Unit
AreTimely (step_then s u t a b) = IsTimely a × AreTimely b

module _ {A : Type 0} where
  pub new_timer_wheel-IsValid : (cur : ℕ) → cur < quarter64 → IsValid (new_timer_wheel {A = A} cur)
  unfolding new_timer_wheel hand_time
  new_timer_wheel-IsValid cur h = record {
    hands = record {
      h₀ = 0;
      h₁ = 0;
      h₂ = 0;
      h₃ = 0;
      h₄ = 0;
      all = refl;
      below₀ = omega arith;
      below₁ = omega arith;
      below₂ = omega arith;
      below₃ = omega arith;
      below₄ = omega arith;
    };
    early = h;
    behind = omega arith;
    ordered = λ j. tt;
    levels = λ j z k. tt;
  }

  number-IsValid : (w : TimerWheel A) (n : ℤ) → IsValid w → IsValid (record w { number = n })
  number-IsValid w n v = record {
    hands = v.hands;
    early = v.early;
    behind = v.behind;
    ordered = v.ordered;
    levels = v.levels;
  }

  pub handle-IsValid :
      (w : TimerWheel A) (a : TimerNodeAction A) → IsFit a → IsValid w → IsValid (handle w a)
  unfolding handle
  handle-IsValid w a f v =
      let added = λ (t : IsTimed a.node).
        insert_timer_node-IsValid (record w { number = w.number +ℤ pos 1 }) a.node t
          (number-IsValid w (w.number +ℤ pos 1) v) in
      elim (Bool-cases (a.action == action_add)) [
        | inl e ↦ rw e (added (f.timed (ground arith) (ground arith)))
        | inr e ↦ elim (Bool-cases (a.action == action_del)) [
          | inl b ↦
              rw (e, b)
                (delete_timer_node-IsValid (record w { number = w.number -ℤ pos 1 }) a.node
                  (number-IsValid w (w.number -ℤ pos 1) v))
          | inr b ↦ elim (Bool-cases (a.action == action_reset)) [
            | inl c ↦ rw (e, b, c) (reset_timer_node-IsValid w a.node f.short v)
            | inr c ↦ rw (e, b, c) (added (f.timed b c))
          ]
        ]
      ]
