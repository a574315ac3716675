-- ===== src/Timer/Calls.antt =====
-- AddTimer, deleteTimer and resetTimer, and a wheel's level of a new timer.
use goext.Prelude.{
  ℕ, [], ◌∷◌, ◌++◌, ◌+◌, ◌%◌, ◌^◌, ◌≤◌, ◌≡◌, refl, ◌==◌, ltb, Bool, true, false, arith, inl, inr,
  ◌⊎◌, Bool-cases, length,
}
use goext.Timer.{new_timer_node, level_of, second_num, minute_num, hour_num, day_num}
use goext.Timer.Loop.{
  World, added, channel_full, channel_closed, send, add_timer, queue_size, action_add,
}

module _ {A : Type 0} where
  -- AddTimer on a channel with room appends the new node with a new ID, on a full channel it
  -- returns the one error and has used up an ID, and after Stop it returns the other and changes
  -- nothing.
  pub add_timer_lem :
      (s : World A) (f : ℕ → ℕ → A → Bool) (typ period : ℕ) (arg : A)
      → (s.q_nil ≡ true) × (add_timer s f typ period arg ≡ (channel_closed, s))
        ⊎ (s.q_nil ≡ false)
          × (queue_size ≤ length s.timer_q)
          × (add_timer s f typ period arg
              ≡ (channel_full, record s { next_id = (s.next_id + 1) % 2 ^ 64 }))
        ⊎ (s.q_nil ≡ false)
          × (length s.timer_q + 1 ≤ queue_size)
          × (add_timer s f typ period arg ≡ (
            added ((s.next_id + 1) % 2 ^ 64),
            record s {
              next_id = (s.next_id + 1) % 2 ^ 64;
              timer_q =
                  s.timer_q
                  ++ record {
                    node = new_timer_node ((s.next_id + 1) % 2 ^ 64) s.cur_gx_time f typ period arg;
                    action = action_add;
                  }
                    ∷ [];
            },
          ))
  unfolding add_timer send
  add_timer_lem s f typ period arg = elim (Bool-cases s.q_nil) [
    | inl e ↦ inl (e, simp e refl)
    | inr e ↦ elim (Bool-cases (ltb (length s.timer_q) queue_size)) [
      | inl b ↦ inr (inr (e, ground arith, simp (e, b) refl))
      | inr b ↦ inr (inl (e, ground arith, simp (e, b) refl))
    ]
  ]

-- No timer is put at the level of the seconds.
pub level_of_second : (trig clock : ℕ) → (level_of trig clock == 1) ≡ false
unfolding level_of second_num minute_num hour_num day_num
level_of_second trig clock = ground arith
