-- ===== src/Timer/Cascade.antt =====
-- timerCascade, and its loop in timerUpdate.
use goext.Prelude.{
  ℕ, zero, suc, List, [], ◌∷◌, ◌+◌, ◌≤◌, ◌<◌, ◌≡◌, refl, sym, ◌==◌, true, false, arith, inl, inr,
  length, subst, ret, Returns, Returns-bind, Returns-map, Bool-cases,
}
use goext.Timer.{
  TimerNode, TimerWheel, level_of, set_slot, insert_slot, insert_timer_node, cascade_loop,
  timer_cascade, cascade_levels,
}
use goext.Prelude.Int64.{half64}
use goext.Timer.Slots.{trig_bound, AreFrom, IsOrdered, least, stays-or-leaves, AreFrom-weaken}
use goext.Timer.Moves.{IsMoved, IsMoved-refl, IsMoved-trans, again-IsMoved}

module _ {A : Type 0} where
  -- What a cascade of a level does: it moves nodes, and leaves none at the level that is near.
  pub record IsCascaded (w : TimerWheel A) (level : ℕ) (w' : TimerWheel A) : Type 0 where
    pub moved : IsMoved w w'
    pub far : AreFrom (w.clock + least level) (w'.slot level)

  slot_left :
      (w : TimerWheel A) (level : ℕ) (cur : TimerNode A) (rest : List (TimerNode A))
      → (level_of cur.trig w.clock == level) ≡ false
      → (insert_timer_node (set_slot w level rest) cur).slot level ≡ rest
  unfolding insert_timer_node insert_slot set_slot
  slot_left w level cur rest h =
      let a : (level == level_of cur.trig w.clock) ≡ false = ground arith in
      let b : (level == level) ≡ true = ground arith in rw (a, b) refl

  cascade_loop_lem :
      (fuel : ℕ) (w : TimerWheel A) (level : ℕ) (nodes : List (TimerNode A))
      → (level == 0) ≡ false
      → level < 5
      → w.slot level ≡ nodes
      → length nodes < fuel
      → IsOrdered nodes
      → w.clock < half64
      → Returns (IsCascaded w level) (cascade_loop fuel w level)
  unfolding cascade_loop
  cascade_loop_lem zero w level nodes z k e f o b = absurd (omega arith)
  cascade_loop_lem (suc fuel) w level [] z k e f o b =
      let q : cascade_loop (suc fuel) w level ≡ ret w = rw (e, cascade_loop) refl in
      subst (Returns (IsCascaded w level)) (sym q) (record {
        moved = IsMoved-refl w;
        far = subst (AreFrom (w.clock + least level)) (sym e) tt;
      })
  cascade_loop_lem (suc fuel) w level (cur ∷ rest) z k e f o b =
      elim (stays-or-leaves level cur.trig w.clock (trig_bound cur o.0.1) b z k) [
        | inl (s, far) ↦
            let q : cascade_loop (suc fuel) w level ≡ ret w = rw (e, s, cascade_loop) refl in
            subst (Returns (IsCascaded w level)) (sym q) (record {
              moved = IsMoved-refl w;
              far =
                  subst (AreFrom (w.clock + least level)) (sym e)
                    (far, AreFrom-weaken (w.clock + least level) cur.trig rest far o.0.0);
            })
        | inr (s, other) ↦
            let v = insert_timer_node (set_slot w level rest) cur in
            let step = again-IsMoved w level cur rest k o.0.1 b e in
            let later =
              cascade_loop_lem fuel v level rest z k (slot_left w level cur rest other)
                (omega arith) o.1 (subst (λ t. t < half64) (sym step.clock) b) in
            let q : cascade_loop (suc fuel) w level ≡ cascade_loop fuel v level =
              rw (e, s, cascade_loop) refl in
            subst (Returns (IsCascaded w level)) (sym q) (
              Returns-map (IsCascaded v level) (IsCascaded w level) (cascade_loop fuel v level)
                later
                (λ w' c. record {
                  moved = IsMoved-trans w v w' step c.moved;
                  far = subst (λ t. AreFrom (t + least level) (w'.slot level)) step.clock c.far;
                }))
      ]

  pub timer_cascade_lem :
      (w : TimerWheel A) (level : ℕ)
      → (level == 0) ≡ false
      → level < 5
      → IsOrdered (w.slot level)
      → w.clock < half64
      → Returns (IsCascaded w level) (timer_cascade w level)
  unfolding timer_cascade
  timer_cascade_lem w level z k o b =
      cascade_loop_lem (suc (length (w.slot level))) w level (w.slot level) z k refl (omega arith) o
        b

  -- What the cascades of the levels from `idx` on to below `end` do.
  pub record AreCascaded (w : TimerWheel A) (idx end : ℕ) (w' : TimerWheel A) : Type 0 where
    pub moved : IsMoved w w'
    pub far :
        (level : ℕ) → idx ≤ level → level < end → AreFrom (w.clock + least level) (w'.slot level)

  far_lem :
      (w v w' : TimerWheel A) (idx rounds level : ℕ)
      → IsCascaded w idx v
      → AreCascaded v (suc idx) (suc idx + rounds) w'
      → (idx == 0) ≡ false
      → idx ≤ level
      → level < idx + suc rounds
      → AreFrom (w.clock + least level) (w'.slot level)
  far_lem w v w' idx rounds level c d z a b = elim (Bool-cases (level == idx)) [
    | inl e ↦
        let q : idx ≡ level = ground arith in
        subst (λ t. AreFrom (w.clock + least t) (w'.slot t)) q
          (d.moved.levels idx (w.clock + least idx) z (omega (arith, c.moved.clock)) c.far)
    | inr e ↦
        subst (λ t. AreFrom (t + least level) (w'.slot level)) c.moved.clock
          (d.far level (ground arith) (omega arith))
  ]

  pub cascade_levels_lem :
      (rounds idx : ℕ) (w : TimerWheel A)
      → 1 ≤ idx
      → idx + rounds ≤ 5
      → ((j : ℕ) → IsOrdered (w.slot j))
      → w.clock < half64
      → Returns (AreCascaded w idx (idx + rounds)) (cascade_levels rounds idx w)
  unfolding cascade_levels
  cascade_levels_lem zero idx w h k o b = record {
    moved = IsMoved-refl w;
    far = λ level a b. absurd (omega arith);
  }
  cascade_levels_lem (suc rounds) idx w h k o b =
      Returns-bind (IsCascaded w idx) (AreCascaded w idx (idx + suc rounds)) (timer_cascade w idx)
        (cascade_levels rounds (suc idx))
        (timer_cascade_lem w idx (ground arith) (omega arith) (o idx) b)
        (λ v c.
          Returns-map (AreCascaded v (suc idx) (suc idx + rounds))
            (AreCascaded w idx (idx + suc rounds)) (cascade_levels rounds (suc idx) v)
            (cascade_levels_lem rounds (suc idx) v (omega arith) (omega arith)
              (λ j. c.moved.ordered j (o j)) (subst (λ t. t < half64) (sym c.moved.clock) b))
            (λ w' d. record {
              moved = IsMoved-trans w v w' c.moved d.moved;
              far = λ level a b. far_lem w v w' idx rounds level c d (ground arith) a b;
            }))
