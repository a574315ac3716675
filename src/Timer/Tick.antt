-- ===== src/Timer/Tick.antt =====
-- A tick of the loop: timerUpdate and run.
use goext.Prelude.{
  ℕ, suc, List, [], ◌+◌, ◌≤◌, ◌<◌, ◌≡◌, refl, sym, ap, ◌∙◌, ltb, Bool, true, false, ◌&&◌, not,
  arith, inl, inr, ◌⊎◌, subst, ap₂, Bool-cases, lt→ltb, ltb→lt, ret,
}
use goext.Prelude.Int.{ℤ, pos, negsuc, ◌+ℤ◌, ◌-ℤ◌, eqb_ℤ, pos_part, neg_part, int_laws}
use goext.Prelude.Int64.{quarter64}
use goext.Timer.{
  TimerNode, TimerWheel, timer_update, run, delta_diff, min_step, hand_time, ms_limit,
}
use goext.Timer.Slots.{AreFrom, IsOrdered, count, held}
use goext.Timer.Update.{IsValid, IsUpdated, timer_update_lem}
use goext.Timer.Run.{IsRun, run_lem, due, later, is_again, renewed}
use goext.Timer.Loop.{on_tick}

-- `ran` are the nodes that are due at the time, each as often as it is held, in the order of their
-- deadlines; the wheel after holds the other nodes and, a period later, the loops among those that
-- ran whose function returns nil; the others of those are off the number.
pub record IsTicked {A : Type 0} (w : TimerWheel A) (now : ℕ) (ran : List (TimerNode A))
    (w' : TimerWheel A) : Type 0 where
  pub valid : IsValid w'
  pub clock : w'.clock ≡ now
  pub number : w'.number ≡ w.number -ℤ pos (count (λ n. not (is_again now n)) ran)
  pub due_run : (p : TimerNode A → Bool) → count p ran ≡ held (due now p) w
  pub in_order : IsOrdered ran
  pub nodes :
      (p : TimerNode A → Bool)
      → held p w' ≡ held (later now p) w + count (λ n. is_again now n && p (renewed n)) ran

ℤ-cases : (a : ℤ) → ((n : ℕ) × (a ≡ pos n)) ⊎ ((n : ℕ) × (a ≡ negsuc n))
ℤ-cases (pos n) = inl (n, refl)
ℤ-cases (negsuc n) = inr (n, refl)

early_lem :
    (now clock start shown n : ℕ)
    → pos now -ℤ pos clock +ℤ (pos clock -ℤ pos start -ℤ pos shown) ≡ pos n
    → now < start + shown + min_step
    → n < min_step
early_lem now clock start shown n e h =
    let p = ap pos_part e in let q = ap neg_part e in omega int_laws

delta-eq :
    {A : Type 0} (w : TimerWheel A)
    → delta_diff w w.clock ≡ pos w.clock -ℤ pos w.start -ℤ pos (hand_time w.hand ms_limit)
unfolding delta_diff
delta-eq w = refl

module _ {A : Type 0} where
  ticked_lem :
      (w v : TimerWheel A) (now : ℕ)
      → IsUpdated w now v
      → IsRun v (run v).0 (run v).1
      → IsTicked w now (run v).0 (run v).1
  ticked_lem w v now u r = record {
    valid = r.valid;
    clock = r.clock ∙ u.clock;
    number =
        r.number
        ∙ ap₂ (λ a c. a -ℤ pos (count (λ n. not (is_again c n)) (run v).0)) u.number u.clock;
    due_run = λ p. r.due_run p ∙ ap (λ c. held (due c p) v) u.clock ∙ u.nodes (due now p);
    in_order = r.in_order;
    nodes = λ p.
        r.nodes p
        ∙ ap (λ c. held (later c p) v + count (λ n. is_again c n && p (renewed n)) (run v).0)
            u.clock
        ∙ ap (λ k. k + count (λ n. is_again now n && p (renewed n)) (run v).0)
            (u.nodes (later now p));
  }

  run_updated : (w v : TimerWheel A) (now : ℕ) → IsUpdated w now v → IsRun v (run v).0 (run v).1
  run_updated w v now u =
      run_lem v u.valid
        (λ j z k. subst (λ c. AreFrom (suc c) (v.slot j)) (sym u.clock) (u.future j z k))

  -- On a valid wheel whose number is not 0, a tick at a time below 2^62 that is 7 ms or more after the
  -- time that the hands show runs exactly the nodes that are due, in the order of their deadlines,
  -- sets the loops among them again, loses no other node, and the loop goes on.
  pub on_tick_lem :
      (w : TimerWheel A) (now : ℕ)
      → IsValid w
      → eqb_ℤ w.number (pos 0) ≡ false
      → w.start + hand_time w.hand ms_limit + min_step ≤ now
      → now < quarter64
      → (ran : List (TimerNode A)) × (w' : TimerWheel A) × (on_tick w now ≡ ret (true, (ran, w')))
        × IsTicked w now ran w'
  unfolding on_tick
  on_tick_lem w now v z h early =
      let (w₁, q, u) = timer_update_lem w now v h early in
      ((run w₁).0, (run w₁).1, rw (z, q) refl, ticked_lem w w₁ now u (run_updated w w₁ now u))

  early-eq :
      (w : TimerWheel A) (now : ℕ)
      → now < w.start + hand_time w.hand ms_limit + min_step
      → timer_update w now ≡ ret (false, w)
  unfolding timer_update
  early-eq w now h =
      let d = pos now -ℤ pos w.clock +ℤ delta_diff w w.clock in
      elim (ℤ-cases d) [
        | inl (n, e) ↦
            let short : ltb n min_step ≡ true = lt→ltb n min_step (
              early_lem now w.clock w.start (hand_time w.hand ms_limit) n
                (ap (λ x. pos now -ℤ pos w.clock +ℤ x) (sym (delta-eq w)) ∙ e) h) in
            rw (e, short, timer_update) refl
        | inr (n, e) ↦ rw (e, timer_update) refl
      ]

  pub stop-eq :
      (w : TimerWheel A) (now : ℕ)
      → eqb_ℤ w.number (pos 0) ≡ true
      → on_tick w now ≡ ret (false, ([], w))
  unfolding on_tick
  stop-eq w now z = rw z refl

  still-eq :
      (w : TimerWheel A) (now : ℕ)
      → eqb_ℤ w.number (pos 0) ≡ false
      → timer_update w now ≡ ret (false, w)
      → on_tick w now ≡ ret (true, ([], w))
  unfolding on_tick
  still-eq w now z q = rw (z, q) refl

  -- On a valid wheel a tick at any time below 2^62 returns, and the wheel is valid again.
  pub on_tick-IsValid :
      (w : TimerWheel A) (now : ℕ)
      → IsValid w
      → now < quarter64
      → (go : Bool) × (ran : List (TimerNode A)) × (w' : TimerWheel A) × (on_tick w now
          ≡ ret (go, (ran, w')))
        × IsValid w'
  on_tick-IsValid w now v early = elim (Bool-cases (eqb_ℤ w.number (pos 0))) [
    | inl z ↦ (false, [], w, stop-eq w now z, v)
    | inr z ↦ elim (Bool-cases (ltb now (w.start + hand_time w.hand ms_limit + min_step))) [
      | inl b ↦ (
        true,
        [],
        w,
        still-eq w now z
            (early-eq w now (ltb→lt now (w.start + hand_time w.hand ms_limit + min_step) b)),
        v,
      )
      | inr b ↦
          let (ran, w', q, t) = on_tick_lem w now v z (ground arith) early in
          (true, ran, w', q, t.valid)
    ]
  ]
