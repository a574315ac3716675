-- ===== src/Timer/Take.antt =====
-- deleteTimerNode and resetTimerNode.
use goext.Prelude.{
  ℕ, List, [], ◌∷◌, ◌+◌, ◌<◌, ◌≡◌, refl, sym, ap, ◌∙◌, ◌==◌, Bool, true, false, Option, none, some,
  arith, inl, inr, subst, Bool-cases, Option-cases, ◌⊎◌,
}
use goext.Prelude.Int64.{quarter64, add_int64, sub_int64, add_small, sub_small}
use goext.Timer.{
  TimerNode, TimerWheel, take_node, take_from, delete_timer_node, reset_timer_node,
  insert_timer_node, set_slot,
}
use goext.Timer.Slots.{AreFrom, IsOrdered, IsTimed, count, one, held, held-set_slot, held-insert}
use goext.Timer.Update.{IsValid, next_turn}
use goext.Timer.Run.{insert_timer_node-IsValid}

abbrev pub has_id : {A : Type 0} → ℕ → TimerNode A → Bool
has_id id n = n.id == id

-- A node off a list.
record IsOff {A : Type 0} (id : ℕ) (xs : List (TimerNode A)) (n : TimerNode A)
    (rest : List (TimerNode A)) : Type 0 where
  named : has_id id n ≡ true
  nodes : (p : TimerNode A → Bool) → count p xs ≡ one (p n) + count p rest
  from : (t : ℕ) → AreFrom t xs → AreFrom t rest
  ordered : IsOrdered xs → IsOrdered rest
  timed : IsOrdered xs → IsTimed n

abbrev IsTaken :
    {A : Type 0} → ℕ → List (TimerNode A) → Option (TimerNode A × List (TimerNode A)) → Type 0
IsTaken id xs none = count (has_id id) xs ≡ 0
IsTaken id xs (some (n, rest)) = IsOff id xs n rest

-- A node off a wheel.
pub record IsOffWheel {A : Type 0} (id : ℕ) (w : TimerWheel A) (n : TimerNode A) (w' : TimerWheel A)
    : Type 0 where
  pub named : has_id id n ≡ true
  pub nodes : (p : TimerNode A → Bool) → held p w ≡ one (p n) + held p w'
  pub valid : IsValid w → IsValid w'
  pub timed : IsValid w → IsTimed n

abbrev sum_of : {A : Type 0} → (TimerNode A → Bool) → TimerWheel A → List ℕ → ℕ
sum_of p w [] = 0
sum_of p w (j ∷ js) = count p (w.slot j) + sum_of p w js

abbrev AreBelow : List ℕ → Type 0
AreBelow [] = Unit
AreBelow (j ∷ js) = (j < 5) × AreBelow js

abbrev IsTakenFrom :
    {A : Type 0} → ℕ → TimerWheel A → List ℕ → Option (TimerNode A × TimerWheel A) → Type 0
IsTakenFrom id w levels none = sum_of (has_id id) w levels ≡ 0
IsTakenFrom id w levels (some (n, w')) = IsOffWheel id w n w'

module _ {A : Type 0} where
  IsTaken-later :
      (id : ℕ) (x : TimerNode A) (xs : List (TimerNode A))
      (o : Option (TimerNode A × List (TimerNode A)))
      → has_id id x ≡ false
      → IsTaken id xs o
      → IsTaken id (x ∷ xs) (elim o [ none ↦ none | some (n, rest) ↦ some (n, x ∷ rest) ])
  IsTaken-later id x xs none h t = ground arith
  IsTaken-later id x xs (some (n, rest)) h t = record {
    named = t.named;
    nodes = λ p. omega (arith, t.nodes p);
    from = λ s f. (f.0, t.from s f.1);
    ordered = λ o. ((t.from x.trig o.0.0, o.0.1), t.ordered o.1);
    timed = λ o. t.timed o.1;
  }

  take_node_lem : (id : ℕ) (xs : List (TimerNode A)) → IsTaken id xs (take_node id xs)
  unfolding take_node
  take_node_lem id [] = refl
  take_node_lem id (x ∷ xs) = elim (Bool-cases (has_id id x)) [
    | inl e ↦
        let q : take_node id (x ∷ xs) ≡ some (x, xs) = rw (e, take_node) refl in
        subst (IsTaken id (x ∷ xs)) (sym q) (record {
          named = e;
          nodes = λ p. refl;
          from = λ t f. f.1;
          ordered = λ o. o.1;
          timed = λ o. o.0.1;
        })
    | inr e ↦
        let q : take_node id (x ∷ xs)
            ≡ (elim (take_node id xs) [ none ↦ none | some (n, rest) ↦ some (n, x ∷ rest) ]) =
          rw (e, take_node) refl in
        subst (IsTaken id (x ∷ xs)) (sym q)
          (IsTaken-later id x xs (take_node id xs) e (take_node_lem id xs))
  ]

  set_slot-IsValid :
      (w : TimerWheel A) (level : ℕ) (rest : List (TimerNode A))
      → (IsOrdered (w.slot level) → IsOrdered rest)
      → ((t : ℕ) → AreFrom t (w.slot level) → AreFrom t rest)
      → IsValid w
      → IsValid (set_slot w level rest)
  unfolding set_slot
  set_slot-IsValid w level rest o f v = record {
    hands = v.hands;
    early = v.early;
    behind = v.behind;
    ordered = λ j. elim (Bool-cases (j == level)) [
      | inl e ↦ rw e (o (v.ordered level))
      | inr e ↦ rw e (v.ordered j)
    ];
    levels = λ j z k. elim (Bool-cases (j == level)) [
      | inl e ↦
          let q : j ≡ level = ground arith in
          rw e (
            f (w.start + next_turn v.hands j)
              (subst (λ i. AreFrom (w.start + next_turn v.hands j) (w.slot i)) q (v.levels j z k)))
      | inr e ↦ rw e (v.levels j z k)
    ];
  }

  taken_from :
      (id : ℕ) (w : TimerWheel A) (level : ℕ) (levels : List ℕ)
      (o : Option (TimerNode A × List (TimerNode A))) (r : Option (TimerNode A × TimerWheel A))
      → level < 5
      → IsTaken id (w.slot level) o
      → IsTakenFrom id w levels r
      → IsTakenFrom id w
          (level ∷ levels)
          (elim o [ none ↦ r | some (n, rest) ↦ some (n, set_slot w level rest) ])
  taken_from id w level levels none none k t u = omega arith
  taken_from id w level levels none (some (n, w')) k t u = u
  taken_from id w level levels (some (n, rest)) r k t u = record {
    named = t.named;
    nodes = λ p. let a = held-set_slot p w level rest k in omega (arith, t.nodes p);
    valid = λ v. set_slot-IsValid w level rest t.ordered t.from v;
    timed = λ v. t.timed (v.ordered level);
  }

  take_from_lem :
      (id : ℕ) (w : TimerWheel A) (levels : List ℕ)
      → AreBelow levels
      → IsTakenFrom id w levels (take_from w id levels)
  unfolding take_from
  take_from_lem id w [] b = refl
  take_from_lem id w (level ∷ levels) b =
      taken_from id w level levels (take_node id (w.slot level)) (take_from w id levels) b.0
        (take_node_lem id (w.slot level)) (take_from_lem id w levels b.1)

  -- What deleteTimerNode and resetTimerNode find.
  find_lem :
      (w : TimerWheel A) (id : ℕ)
      → (held (has_id id) w ≡ 0) × (take_from w id (0 ∷ 1 ∷ 2 ∷ 3 ∷ 4 ∷ []) ≡ none)
        ⊎ ((n : TimerNode A) × (w' : TimerWheel A) × (take_from w id (0 ∷ 1 ∷ 2 ∷ 3 ∷ 4 ∷ [])
              ≡ some (n, w'))
            × IsOffWheel id w n w')
  find_lem w id =
      let t =
        take_from_lem id w (0 ∷ 1 ∷ 2 ∷ 3 ∷ 4 ∷ [])
          (omega arith, (omega arith, (omega arith, (omega arith, (omega arith, tt))))) in
      elim (Option-cases (take_from w id (0 ∷ 1 ∷ 2 ∷ 3 ∷ 4 ∷ []))) [
        | inl e ↦
            let a = subst (IsTakenFrom id w (0 ∷ 1 ∷ 2 ∷ 3 ∷ 4 ∷ [])) e t in inl (omega arith, e)
        | inr ((n, w'), e) ↦ inr (n, w', e, subst (IsTakenFrom id w (0 ∷ 1 ∷ 2 ∷ 3 ∷ 4 ∷ [])) e t)
      ]

  -- deleteTimerNode takes one node with the ID off the wheel, and where there is none it changes
  -- nothing.
  pub delete_timer_node_lem :
      (w : TimerWheel A) (node : TimerNode A)
      → (held (has_id node.id) w ≡ 0) × (delete_timer_node w node ≡ w)
        ⊎ ((n : TimerNode A) × (has_id node.id n ≡ true)
            × ((p : TimerNode A → Bool) → held p w ≡ one (p n) + held p (delete_timer_node w node)))
  unfolding delete_timer_node
  delete_timer_node_lem w node = elim (find_lem w node.id) [
    | inl (z, e) ↦ inl (z, rw (e, delete_timer_node) refl)
    | inr (n, w', e, o) ↦
        let q : delete_timer_node w node ≡ w' = rw (e, delete_timer_node) refl in
        inr (n, o.named, λ p. o.nodes p ∙ ap (λ u. one (p n) + held p u) (sym q))
  ]

  pub delete_timer_node-IsValid :
      (w : TimerWheel A) (node : TimerNode A) → IsValid w → IsValid (delete_timer_node w node)
  unfolding delete_timer_node
  delete_timer_node-IsValid w node v = elim (find_lem w node.id) [
    | inl (z, e) ↦
        let q : delete_timer_node w node ≡ w = rw (e, delete_timer_node) refl in
        subst IsValid (sym q) v
    | inr (n, w', e, o) ↦
        let q : delete_timer_node w node ≡ w' = rw (e, delete_timer_node) refl in
        subst IsValid (sym q) (o.valid v)
  ]

  -- The node with the new period, from the time it was set.
  abbrev pub with_period : TimerNode A → ℕ → TimerNode A
  with_period n d = record n { trig = add_int64 (sub_int64 n.trig n.period) d; period = d }

  with_period-IsTimed :
      (n : TimerNode A) (d : ℕ) → d < quarter64 → IsTimed n → IsTimed (with_period n d)
  with_period-IsTimed n d h t =
      let a = sub_small n.trig n.period t.1 (omega (arith, t.0, t.2)) in
      let b = add_small (sub_int64 n.trig n.period) d (omega (arith, a, t.1, t.2)) in
      (h, omega arith, omega (arith, a, b, t.1, t.2))

  -- resetTimerNode gives one node with the ID the new period, counted from the time that it was set
  -- or ran last, and where there is none it changes nothing.
  pub reset_timer_node_lem :
      (w : TimerWheel A) (node : TimerNode A)
      → (held (has_id node.id) w ≡ 0) × (reset_timer_node w node ≡ w)
        ⊎ ((n : TimerNode A) × (has_id node.id n ≡ true)
            × ((p : TimerNode A → Bool)
                → held p w + one (p (with_period n node.period))
                  ≡ one (p n) + held p (reset_timer_node w node)))
  unfolding reset_timer_node
  reset_timer_node_lem w node = elim (find_lem w node.id) [
    | inl (z, e) ↦ inl (z, rw (e, reset_timer_node) refl)
    | inr (n, w', e, o) ↦
        let again = with_period n node.period in
        let q : reset_timer_node w node ≡ insert_timer_node w' again =
          rw (e, reset_timer_node) refl in
        inr (
          n,
          o.named,
          λ p.
              let a = o.nodes p in
              let b = held-insert p w' again in let c = ap (held p) q in omega arith,
        )
  ]

  pub reset_timer_node-IsValid :
      (w : TimerWheel A) (node : TimerNode A)
      → node.period < quarter64
      → IsValid w
      → IsValid (reset_timer_node w node)
  unfolding reset_timer_node
  reset_timer_node-IsValid w node h v = elim (find_lem w node.id) [
    | inl (z, e) ↦
        let q : reset_timer_node w node ≡ w = rw (e, reset_timer_node) refl in
        subst IsValid (sym q) v
    | inr (n, w', e, o) ↦
        let again = with_period n node.period in
        let q : reset_timer_node w node ≡ insert_timer_node w' again =
          rw (e, reset_timer_node) refl in
        subst IsValid (sym q) (
          insert_timer_node-IsValid w' again (with_period-IsTimed n node.period h (o.timed v))
            (o.valid v))
  ]
