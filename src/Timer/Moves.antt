-- ===== src/Timer/Moves.antt =====
-- Moves of nodes between the slots.
use goext.Prelude.{
  ℕ, List, ◌∷◌, ◌+◌, ◌≤◌, ◌<◌, ◌≡◌, refl, ap, ◌∙◌, ◌==◌, Bool, false, arith, Bool-cases, subst, inl,
  inr,
}
use goext.Prelude.Int64.{half64}
use goext.Timer.{TimerNode, TimerWheel, set_slot, insert_slot, insert_timer_node}
use goext.Timer.Slots.{
  AreFrom, IsOrdered, IsTimed, one, count, held, least, insert-IsOrdered, insert-AreFrom,
  held-set_slot, held-insert,
}

module _ {A : Type 0} where
  -- What moving nodes between the slots keeps.
  pub record IsMoved (w w' : TimerWheel A) : Type 0 where
    pub start : w'.start ≡ w.start
    pub clock : w'.clock ≡ w.clock
    pub number : w'.number ≡ w.number
    pub hand : w'.hand ≡ w.hand
    pub ordered : (j : ℕ) → IsOrdered (w.slot j) → IsOrdered (w'.slot j)
    pub nodes : (p : TimerNode A → Bool) → held p w' ≡ held p w
    pub levels :
        (j t : ℕ)
        → (j == 0) ≡ false
        → t ≤ w.clock + least j
        → AreFrom t (w.slot j)
        → AreFrom t (w'.slot j)

  pub IsMoved-refl : (w : TimerWheel A) → IsMoved w w
  IsMoved-refl w = record {
    start = refl;
    clock = refl;
    number = refl;
    hand = refl;
    ordered = λ j o. o;
    nodes = λ p. refl;
    levels = λ j t z h f. f;
  }

  pub IsMoved-trans : (u v w : TimerWheel A) → IsMoved u v → IsMoved v w → IsMoved u w
  IsMoved-trans u v w a b = record {
    start = b.start ∙ a.start;
    clock = b.clock ∙ a.clock;
    number = b.number ∙ a.number;
    hand = b.hand ∙ a.hand;
    ordered = λ j o. b.ordered j (a.ordered j o);
    nodes = λ p. b.nodes p ∙ a.nodes p;
    levels = λ j t z h f. b.levels j t z (omega (arith, a.clock)) (a.levels j t z h f);
  }

  tail-IsOrdered : (x : TimerNode A) (xs : List (TimerNode A)) → IsOrdered (x ∷ xs) → IsOrdered xs
  tail-IsOrdered x xs o = o.1

  insert_same :
      (w : TimerWheel A) (level : ℕ) (cur : TimerNode A) (rest : List (TimerNode A))
      → (insert_timer_node (set_slot w level rest) cur).start ≡ w.start
  unfolding insert_timer_node insert_slot set_slot
  insert_same w level cur rest = refl

  insert_clock :
      (w : TimerWheel A) (level : ℕ) (cur : TimerNode A) (rest : List (TimerNode A))
      → (insert_timer_node (set_slot w level rest) cur).clock ≡ w.clock
  unfolding insert_timer_node insert_slot set_slot
  insert_clock w level cur rest = refl

  insert_number :
      (w : TimerWheel A) (level : ℕ) (cur : TimerNode A) (rest : List (TimerNode A))
      → (insert_timer_node (set_slot w level rest) cur).number ≡ w.number
  unfolding insert_timer_node insert_slot set_slot
  insert_number w level cur rest = refl

  insert_hand :
      (w : TimerWheel A) (level : ℕ) (cur : TimerNode A) (rest : List (TimerNode A))
      → (insert_timer_node (set_slot w level rest) cur).hand ≡ w.hand
  unfolding insert_timer_node insert_slot set_slot
  insert_hand w level cur rest = refl

  kept_clock :
      (w : TimerWheel A) (level : ℕ) (rest : List (TimerNode A)) (j t : ℕ)
      → t ≤ w.clock + least j
      → t ≤ (set_slot w level rest).clock + least j
  unfolding set_slot
  kept_clock w level rest j t h = h

  less_clock :
      (w : TimerWheel A) (level : ℕ) (rest : List (TimerNode A))
      → w.clock < half64
      → (set_slot w level rest).clock < half64
  unfolding set_slot
  less_clock w level rest h = h

  less-IsOrdered :
      (w : TimerWheel A) (level : ℕ) (cur : TimerNode A) (rest : List (TimerNode A))
      → w.slot level ≡ cur ∷ rest
      → (j : ℕ) → IsOrdered (w.slot j)
      → IsOrdered ((set_slot w level rest).slot j)
  unfolding set_slot
  less-IsOrdered w level cur rest e j o = elim (Bool-cases (j == level)) [
    | inl q ↦
        let there : w.slot j ≡ cur ∷ rest = ap w.slot (ground arith) ∙ e in
        rw q (tail-IsOrdered cur rest (subst IsOrdered there o))
    | inr q ↦ rw q o
  ]

  less-AreFrom :
      (w : TimerWheel A) (level : ℕ) (cur : TimerNode A) (rest : List (TimerNode A))
      → w.slot level ≡ cur ∷ rest
      → (t j : ℕ) → AreFrom t (w.slot j)
      → AreFrom t ((set_slot w level rest).slot j)
  unfolding set_slot
  less-AreFrom w level cur rest e t j f = elim (Bool-cases (j == level)) [
    | inl q ↦
        let there : w.slot j ≡ cur ∷ rest = ap w.slot (ground arith) ∙ e in
        rw q (subst (AreFrom t) there f).1
    | inr q ↦ rw q f
  ]

  -- The first node of a slot is taken out and inserted again.
  pub again-IsMoved :
      (w : TimerWheel A) (level : ℕ) (cur : TimerNode A) (rest : List (TimerNode A))
      → level < 5
      → IsTimed cur
      → w.clock < half64
      → w.slot level ≡ cur ∷ rest
      → IsMoved w (insert_timer_node (set_slot w level rest) cur)
  again-IsMoved w level cur rest k m b e =
      let v = set_slot w level rest in
      record {
        start = insert_same w level cur rest;
        clock = insert_clock w level cur rest;
        number = insert_number w level cur rest;
        hand = insert_hand w level cur rest;
        ordered = λ j o. insert-IsOrdered v cur j m (less-IsOrdered w level cur rest e j o);
        nodes = λ p.
            let a = held-insert p v cur in
            let b = held-set_slot p w level rest k in
            let c : count p (w.slot level) ≡ one (p cur) + count p rest = ap (count p) e in
            omega arith;
        levels = λ j t z h f.
            insert-AreFrom v cur j t m (less_clock w level rest b) z (kept_clock w level rest j t h)
              (less-AreFrom w level cur rest e t j f);
      }
