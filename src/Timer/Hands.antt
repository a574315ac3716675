-- ===== src/Timer/Hands.antt =====
-- The hands of a wheel: the two loops of timerUpdate.
use goext.Prelude.{
  ℕ, suc, List, [], ◌∷◌, ◌+◌, ◌*◌, ◌/◌, ◌%◌, ◌≤◌, ◌<◌, ◌≡◌, refl, sym, ◌==◌, arith, subst,
  Bool-cases, inl, inr, ◌⊎◌,
}
use goext.Timer.{
  turn, increments, remainder, limit, ms_limit, hand_time, millisecond, second, minute, hour, day,
}

-- One round of the second loop: what it does to its hand, to the next increment and to maxIdx.
record Stage (l h i over idx max_idx : ℕ) (ls hs inc : List ℕ) : Type 0 where
  h' : ℕ
  over' : ℕ
  max_idx' : ℕ
  round : turn (l ∷ ls) (h ∷ hs) (i ∷ inc) over idx max_idx ≡ (
    h' ∷ (turn ls hs inc over' (suc idx) max_idx').0,
    (turn ls hs inc over' (suc idx) max_idx').1,
  )
  below : h' < l
  sum : h' + l * over' ≡ h + (i + over)
  max : (i + over ≡ 0) × (over' ≡ 0) × (h' ≡ h) × (max_idx' ≡ max_idx) ⊎ (max_idx' ≡ suc idx)

quotient_lem : (a b : ℕ) → 0 < b → a % b + b * (a / b) ≡ a
quotient_lem a b h = omega arith

stage_lem :
    (l h i over idx max_idx : ℕ) (ls hs inc : List ℕ)
    → h < l
    → Stage l h i over idx max_idx ls hs inc
unfolding turn
stage_lem l h i over idx max_idx ls hs inc k = elim (Bool-cases (i + over == 0)) [
  | inl e ↦ record {
    h' = h;
    over' = 0;
    max_idx' = max_idx;
    round = rw e refl;
    below = k;
    sum = ground arith;
    max = inl (ground arith, refl, refl, refl);
  }
  | inr e ↦ record {
    h' = (h + (i + over)) % l;
    over' = (h + (i + over)) / l;
    max_idx' = suc idx;
    round = rw e refl;
    below = omega arith;
    sum = quotient_lem (h + (i + over)) l (omega arith);
    max = inr refl;
  }
]

-- The hands, from the lowest level on, each below its limit.
pub record Hands (hand : List ℕ) : Type 0 where
  pub h₀ : ℕ
  pub h₁ : ℕ
  pub h₂ : ℕ
  pub h₃ : ℕ
  pub h₄ : ℕ
  pub all : hand ≡ h₀ ∷ h₁ ∷ h₂ ∷ h₃ ∷ h₄ ∷ []
  pub below₀ : h₀ < 1000
  pub below₁ : h₁ < 60
  pub below₂ : h₂ < 60
  pub below₃ : h₃ < 24
  pub below₄ : h₄ < 31

abbrev pub month : ℕ
month = 31 * day

pub hand_time-Hands :
    (hand : List ℕ) (v : Hands hand)
    → hand_time hand ms_limit
      ≡ v.h₀ * millisecond + v.h₁ * second + v.h₂ * minute + v.h₃ * hour + v.h₄ * day
unfolding hand_time
hand_time-Hands hand v = rw (v.all) (omega arith)

-- The increments are a difference in milliseconds, in units.
pub record Increments (diff : ℕ) : Type 0 where
  pub i₀ : ℕ
  pub i₁ : ℕ
  pub i₂ : ℕ
  pub i₃ : ℕ
  pub i₄ : ℕ
  pub rest : ℕ
  pub all : increments ms_limit diff ≡ i₀ ∷ i₁ ∷ i₂ ∷ i₃ ∷ i₄ ∷ []
  pub total : i₀ * millisecond + i₁ * second + i₂ * minute + i₃ * hour + i₄ * day + rest ≡ diff
  pub small : rest < millisecond

increments_lem : (diff : ℕ) → Increments diff
unfolding increments remainder
increments_lem diff =
    let r₃ = diff % day in
    let r₂ = r₃ % hour in
    let r₁ = r₂ % minute in
    let r₀ = r₁ % second in
    record {
      i₀ = r₀ / millisecond;
      i₁ = r₁ / second;
      i₂ = r₂ / minute;
      i₃ = r₃ / hour;
      i₄ = diff / day;
      rest = r₀ % millisecond;
      all = refl;
      total = omega arith;
      small = omega arith;
    }

-- What timerUpdate does to the hands: the time they show, and the levels that it leaves alone.
pub record IsTurned (hand : List ℕ) (v : Hands hand) (diff : ℕ) (hand' : List ℕ) (max_idx : ℕ)
    : Type 0 where
  pub hands : Hands hand'
  pub months : ℕ
  pub rest : ℕ
  pub time : hand_time hand' ms_limit + months * month + rest ≡ hand_time hand ms_limit + diff
  pub small : rest < millisecond
  pub bound : max_idx ≤ 5
  pub day_kept : max_idx < 5 → (hands.h₄ ≡ v.h₄) × (months ≡ 0)
  pub hour_kept : max_idx < 4 → hands.h₃ ≡ v.h₃
  pub minute_kept : max_idx < 3 → hands.h₂ ≡ v.h₂
  pub second_kept : max_idx < 2 → hands.h₁ ≡ v.h₁

pub turn_lem :
    (hand : List ℕ) (v : Hands hand) (diff : ℕ)
    → IsTurned hand v diff
        (turn limit hand (increments ms_limit diff) 0 0 0).0
        (turn limit hand (increments ms_limit diff) 0 0 0).1
unfolding turn hand_time
turn_lem hand v diff =
    let i = increments_lem diff in
    let hs₃ = v.h₄ ∷ [] in
    let hs₂ = v.h₃ ∷ hs₃ in
    let hs₁ = v.h₂ ∷ hs₂ in
    let hs₀ = v.h₁ ∷ hs₁ in
    let is₃ = i.i₄ ∷ [] in
    let is₂ = i.i₃ ∷ is₃ in
    let is₁ = i.i₂ ∷ is₂ in
    let is₀ = i.i₁ ∷ is₁ in
    let a = stage_lem 1000 v.h₀ i.i₀ 0 0 0 (60 ∷ 60 ∷ 24 ∷ 31 ∷ []) hs₀ is₀ v.below₀ in
    let b = stage_lem 60 v.h₁ i.i₁ a.over' 1 a.max_idx' (60 ∷ 24 ∷ 31 ∷ []) hs₁ is₁ v.below₁ in
    let c = stage_lem 60 v.h₂ i.i₂ b.over' 2 b.max_idx' (24 ∷ 31 ∷ []) hs₂ is₂ v.below₂ in
    let d = stage_lem 24 v.h₃ i.i₃ c.over' 3 c.max_idx' (31 ∷ []) hs₃ is₃ v.below₃ in
    let e = stage_lem 31 v.h₄ i.i₄ d.over' 4 d.max_idx' [] [] [] v.below₄ in
    let all : turn limit hand (increments ms_limit diff) 0 0 0
        ≡ (a.h' ∷ b.h' ∷ c.h' ∷ d.h' ∷ e.h' ∷ [], e.max_idx') =
      rw (v.all, i.all, a.round, b.round, c.round, d.round, e.round) refl in
    let hands : Hands (a.h' ∷ b.h' ∷ c.h' ∷ d.h' ∷ e.h' ∷ []) = record {
      h₀ = a.h';
      h₁ = b.h';
      h₂ = c.h';
      h₃ = d.h';
      h₄ = e.h';
      all = refl;
      below₀ = a.below;
      below₁ = b.below;
      below₂ = c.below;
      below₃ = d.below;
      below₄ = e.below;
    } in
    let turned : IsTurned hand v diff (a.h' ∷ b.h' ∷ c.h' ∷ d.h' ∷ e.h' ∷ []) e.max_idx' = record {
      hands = hands;
      months = e.over';
      rest = i.rest;
      time = omega (
        arith,
        hand_time-Hands hand v,
        hand_time-Hands (a.h' ∷ b.h' ∷ c.h' ∷ d.h' ∷ e.h' ∷ []) hands,
        a.sum,
        b.sum,
        c.sum,
        d.sum,
        e.sum,
        i.total,
      );
      small = i.small;
      bound = ground (arith, a.max, b.max, c.max, d.max, e.max);
      day_kept = λ k. ground (arith, e.max);
      hour_kept = λ k. ground (arith, d.max, e.max);
      minute_kept = λ k. ground (arith, c.max, d.max, e.max);
      second_kept = λ k. ground (arith, b.max, c.max, d.max, e.max);
    } in
    subst (λ t. IsTurned hand v diff t.0 t.1) (sym all) turned
