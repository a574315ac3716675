-- ===== src/Timer/Update.antt =====
-- A wheel that keeps time, and timerUpdate.
use goext.Prelude.{
  ℕ, zero, suc, List, ◌+◌, ◌-◌, ◌*◌, ◌≤◌, ◌<◌, ◌≡◌, refl, sym, ap, ◌∙◌, ◌==◌, ltb, Bool, true,
  false, if◌then◌else◌, arith, inl, inr, subst, ret, Returns, Returns-map, Returns-cases,
  Bool-cases,
}
use goext.Prelude.Int.{pos, ◌+ℤ◌, ◌-ℤ◌, int_laws}
use goext.Prelude.Int64.{quarter64}
use goext.Timer.{
  TimerNode, TimerWheel, move_hands, timer_update, delta_diff, cascade_levels, turn, limit,
  ms_limit, increments, hand_time, millisecond, second, minute, hour, day, min_step,
}
use goext.Timer.Slots.{AreFrom, IsOrdered, least, held, AreFrom-weaken}
use goext.Timer.Hands.{Hands, IsTurned, turn_lem, hand_time-Hands, month}
use goext.Timer.Cascade.{AreCascaded, cascade_levels_lem}

-- The time since the start at which the level's hand moves next.
abbrev pub next_turn : {hand : List ℕ} → Hands hand → ℕ → ℕ
next_turn v level =
    if level == 4
    then (v.h₄ + 1) * day
    else if level == 3
    then (v.h₃ + 1) * hour + v.h₄ * day
    else if level == 2
    then (v.h₂ + 1) * minute + v.h₃ * hour + v.h₄ * day
    else (v.h₁ + 1) * second + v.h₂ * minute + v.h₃ * hour + v.h₄ * day

pub next_turn-near :
    (hand : List ℕ) (v : Hands hand) (level : ℕ)
    → (level == 0) ≡ false
    → next_turn v level ≤ hand_time hand ms_limit + least level
next_turn-near hand v level z = let e = hand_time-Hands hand v in ground arith

next_turn-late :
    (hand : List ℕ) (v : Hands hand) (level rest : ℕ)
    → rest < millisecond
    → hand_time hand ms_limit + rest < next_turn v level
next_turn-late hand v level rest k =
    let e = hand_time-Hands hand v in
    let a = v.below₀ in let b = v.below₁ in let c = v.below₂ in let d = v.below₃ in ground arith

next_turn-kept :
    (hand hand' : List ℕ) (v : Hands hand) (diff max_idx level : ℕ)
    → (t : IsTurned hand v diff hand' max_idx) → (level == 0) ≡ false
    → level < 5
    → max_idx ≤ level
    → (next_turn t.hands level ≡ next_turn v level) × (t.months ≡ 0)
next_turn-kept hand hand' v diff max_idx zero t z k m = absurd (ground arith)
next_turn-kept hand hand' v diff max_idx (suc zero) t z k m =
    let a = t.day_kept (omega arith) in
    let b = t.hour_kept (omega arith) in
    let c = t.minute_kept (omega arith) in let d = t.second_kept (omega arith) in (omega arith, a.1)
next_turn-kept hand hand' v diff max_idx (suc (suc zero)) t z k m =
    let a = t.day_kept (omega arith) in
    let b = t.hour_kept (omega arith) in let c = t.minute_kept (omega arith) in (omega arith, a.1)
next_turn-kept hand hand' v diff max_idx (suc (suc (suc zero))) t z k m =
    let a = t.day_kept (omega arith) in let b = t.hour_kept (omega arith) in (omega arith, a.1)
next_turn-kept hand hand' v diff max_idx (suc (suc (suc (suc zero)))) t z k m =
    let a = t.day_kept (omega arith) in (omega arith, a.1)
next_turn-kept hand hand' v diff max_idx (suc (suc (suc (suc (suc n))))) t z k m =
    absurd (omega arith)

-- The hands of equal lists.
abbrev pub same_hands : {hand hand' : List ℕ} → Hands hand → hand' ≡ hand → Hands hand'
same_hands v e = record {
  h₀ = v.h₀;
  h₁ = v.h₁;
  h₂ = v.h₂;
  h₃ = v.h₃;
  h₄ = v.h₄;
  all = e ∙ v.all;
  below₀ = v.below₀;
  below₁ = v.below₁;
  below₂ = v.below₂;
  below₃ = v.below₃;
  below₄ = v.below₄;
}

-- The clock is below 2^62, the hands show no more than the time since the start, the slots are in
-- order with their times below 2^62, and a node of a level above the lowest is not due before the
-- level's hand moves.
pub record IsValid {A : Type 0} (w : TimerWheel A) : Type 0 where
  pub hands : Hands w.hand
  pub early : w.clock < quarter64
  pub behind : w.start + hand_time w.hand ms_limit ≤ w.clock
  pub ordered : (j : ℕ) → IsOrdered (w.slot j)
  pub levels : (j : ℕ) → (j == 0) ≡ false → j < 5 → AreFrom (w.start + next_turn hands j) (w.slot j)

-- The wheel at a new time: all nodes that are due are at the lowest level.
pub record IsUpdated {A : Type 0} (w : TimerWheel A) (now : ℕ) (w' : TimerWheel A) : Type 0 where
  pub valid : IsValid w'
  pub start : w'.start ≡ w.start
  pub clock : w'.clock ≡ now
  pub number : w'.number ≡ w.number
  pub nodes : (p : TimerNode A → Bool) → held p w' ≡ held p w
  pub future : (j : ℕ) → (j == 0) ≡ false → j < 5 → AreFrom (suc now) (w'.slot j)
  pub precise :
      (months rest : ℕ) × (w'.start + hand_time w'.hand ms_limit + months * month + rest ≡ now)
      × (rest < millisecond)

module _ {A : Type 0} where
  module _ (w w' : TimerWheel A) (v : IsValid w) (now diff : ℕ) (hand' : List ℕ) (max_idx : ℕ)
      (t : IsTurned w.hand v.hands diff hand' max_idx)
      (e : w.start + hand_time w.hand ms_limit + diff ≡ now) (early : now < quarter64)
      (c : AreCascaded (record w { clock = now; hand = hand' }) 1 (1 + (max_idx - 1)) w') where
    -- A level, cascaded or not.
    level_lem :
        (j : ℕ)
        → (j == 0) ≡ false
        → j < 5
        → AreFrom (w.start + next_turn t.hands j) (w'.slot j) × AreFrom (suc now) (w'.slot j)
    level_lem j z k =
        let near = next_turn-near hand' t.hands j z in
        let some_time : suc now ≤ now + least j = ground arith in
        elim (Bool-cases (ltb j max_idx)) [
          | inl b ↦
              let far = c.far j (ground arith) (ground arith) in
              (
                AreFrom-weaken (w.start + next_turn t.hands j) (now + least j) (w'.slot j)
                    (omega (arith, t.time)) far,
                AreFrom-weaken (suc now) (now + least j) (w'.slot j) some_time far,
              )
          | inr b ↦
              let (same, none_over) =
                next_turn-kept w.hand hand' v.hands diff max_idx j t z k (ground arith) in
              let late = next_turn-late hand' t.hands j t.rest t.small in
              let at = w.start + next_turn v.hands j in
              let far : AreFrom at (w'.slot j) =
                c.moved.levels j at z (omega (arith, t.time)) (v.levels j z k) in
              (
                AreFrom-weaken (w.start + next_turn t.hands j) at (w'.slot j) (omega arith) far,
                AreFrom-weaken (suc now) at (w'.slot j) (omega (arith, t.time)) far,
              )
        ]

    updated_lem : IsUpdated w now w'
    updated_lem =
        let shown : hand_time w'.hand ms_limit ≡ hand_time hand' ms_limit =
          ap (λ h. hand_time h ms_limit) c.moved.hand in
        record {
          valid = record {
            hands = same_hands t.hands c.moved.hand;
            early = subst (λ t. t < quarter64) (sym c.moved.clock) early;
            behind = omega (arith, t.time, shown, c.moved.start, c.moved.clock);
            ordered = λ j. c.moved.ordered j (v.ordered j);
            levels = λ j z k.
                subst (λ s. AreFrom (s + next_turn t.hands j) (w'.slot j)) (sym c.moved.start)
                  (level_lem j z k).0;
          };
          start = c.moved.start;
          clock = c.moved.clock;
          number = c.moved.number;
          nodes = c.moved.nodes;
          future = λ j z k. (level_lem j z k).1;
          precise = (t.months, t.rest, omega (arith, t.time, shown, c.moved.start), t.small);
        }

  move_hands_lem :
      (w : TimerWheel A) (v : IsValid w) (now diff : ℕ)
      → w.start + hand_time w.hand ms_limit + diff ≡ now
      → now < quarter64
      → Returns (IsUpdated w now) (move_hands w now diff)
  unfolding move_hands
  move_hands_lem w v now diff e early =
      let t = turn_lem w.hand v.hands diff in
      let turned = turn limit w.hand (increments ms_limit diff) 0 0 0 in
      let start = record w { clock = now; hand = turned.0 } in
      Returns-map (AreCascaded start 1 (1 + (turned.1 - 1))) (IsUpdated w now)
        (cascade_levels (turned.1 - 1) 1 start)
        (cascade_levels_lem (turned.1 - 1) 1 start (omega arith) (omega (arith, t.bound)) v.ordered
          (omega arith))
        (λ w' c. updated_lem w w' v now diff turned.0 turned.1 t e early c)

  difference_lem :
      (w : TimerWheel A) (now diff : ℕ)
      → w.start + hand_time w.hand ms_limit + diff ≡ now
      → pos now -ℤ pos w.clock +ℤ delta_diff w w.clock ≡ pos diff
  unfolding delta_diff
  difference_lem w now diff e = grind int_laws

  updated-eq :
      (w : TimerWheel A) (now diff : ℕ) (w' : TimerWheel A)
      → pos now -ℤ pos w.clock +ℤ delta_diff w w.clock ≡ pos diff
      → ltb diff min_step ≡ false
      → move_hands w now diff ≡ ret w'
      → timer_update w now ≡ ret (true, w')
  unfolding timer_update
  updated-eq w now diff w' e long q = rw (e, long, q, timer_update) refl

  -- On a valid wheel, at a time below 2^62 that is 7 ms or more after the hands', timerUpdate returns 0
  -- and a valid wheel at the new time, which holds the same nodes, those that are due at the lowest
  -- level only, and whose hands show the time to the millisecond, but for whole months of 31 days.
  pub timer_update_lem :
      (w : TimerWheel A) (now : ℕ)
      → IsValid w
      → w.start + hand_time w.hand ms_limit + min_step ≤ now
      → now < quarter64
      → (w' : TimerWheel A) × (timer_update w now ≡ ret (true, w')) × IsUpdated w now w'
  timer_update_lem w now v h early =
      let diff = now - (w.start + hand_time w.hand ms_limit) in
      let e : w.start + hand_time w.hand ms_limit + diff ≡ now = omega arith in
      let (w', q, u) =
        Returns-cases (IsUpdated w now) (move_hands w now diff)
          (move_hands_lem w v now diff e early) in
      let long : ltb diff min_step ≡ false = ground arith in
      (w', updated-eq w now diff w' (difference_lem w now diff e) long q, u)
