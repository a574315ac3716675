-- ===== src/Timer/Run.antt =====
-- run: the nodes that are due run, and the loops among them are set again.
use goext.Prelude.{
  ℕ, suc, List, [], ◌∷◌, ◌++◌, ◌+◌, ◌<◌, ◌≤◌, ◌≡◌, refl, sym, ap, ◌∙◌, ◌==◌, ltb, leb, ◌&&◌, not,
  Bool, false, if◌then◌else◌, arith, inl, inr, subst, Bool-cases,
}
use goext.Prelude.Int.{ℤ, pos, ◌-ℤ◌, int_laws}
use goext.Prelude.Int64.{half64, add_int64, add_small, ltb_small}
use goext.Timer.{
  TimerNode, TimerWheel, run, run_loop, reinsert, insert_timer_node, insert_slot, set_slot,
  timer_loop,
}
use goext.Timer.Slots.{
  AreFrom, IsOrdered, IsTimed, trig_bound, held, count, AreFrom-weaken, insert-IsOrdered,
  insert-AreFrom, held-insert,
}
use goext.Timer.Update.{IsValid, next_turn, next_turn-near}

-- Whether a node that runs is set again.
abbrev pub is_again : {A : Type 0} → ℕ → TimerNode A → Bool
is_again clock n = n.timer_run n.id clock n.arg && n.typ == timer_loop

-- The node that is set again.
abbrev pub renewed : {A : Type 0} → TimerNode A → TimerNode A
renewed n = record n { trig = n.trig + n.period }

abbrev pub due : {A : Type 0} → ℕ → (TimerNode A → Bool) → TimerNode A → Bool
due clock p n = p n && leb n.trig clock

abbrev pub later : {A : Type 0} → ℕ → (TimerNode A → Bool) → TimerNode A → Bool
later clock p n = p n && ltb clock n.trig

minus_zero : (a : ℤ) → a ≡ a -ℤ pos 0
minus_zero a = omega int_laws

minus_none : (a : ℤ) (n : ℕ) → a -ℤ pos n ≡ a -ℤ pos (0 + n)
minus_none a n = omega int_laws

minus_next : (a b : ℤ) (n : ℕ) → b ≡ a -ℤ pos 1 -ℤ pos n → b ≡ a -ℤ pos (1 + n)
minus_next a b n e = e ∙ omega int_laws

module _ {A : Type 0} where
  count-append :
      (p : TimerNode A → Bool) (xs ys : List (TimerNode A))
      → count p (xs ++ ys) ≡ count p xs + count p ys
  count-append p [] ys = omega arith
  count-append p (x ∷ xs) ys = let e = count-append p xs ys in omega arith

  count-due :
      (p : TimerNode A → Bool) (clock : ℕ) (xs : List (TimerNode A))
      → AreFrom (suc clock) xs
      → count (due clock p) xs ≡ 0
  count-due p clock [] f = refl
  count-due p clock (x ∷ xs) f = let e = count-due p clock xs f.1 in ground (arith, f.0)

  count-later :
      (p : TimerNode A → Bool) (clock : ℕ) (xs : List (TimerNode A))
      → AreFrom (suc clock) xs
      → count (later clock p) xs ≡ count p xs
  count-later p clock [] f = refl
  count-later p clock (x ∷ xs) f = let e = count-later p clock xs f.1 in ground (arith, f.0)

  -- The nodes ran by the clock's time, and are timed.
  abbrev AreReady : ℕ → List (TimerNode A) → Type 0
  AreReady clock [] = Unit
  AreReady clock (x ∷ xs) = (IsTimed x × (x.trig ≤ clock)) × AreReady clock xs

  AreReady-append :
      (clock : ℕ) (xs : List (TimerNode A)) (y : TimerNode A)
      → AreReady clock xs
      → IsTimed y
      → y.trig ≤ clock
      → AreReady clock (xs ++ y ∷ [])
  AreReady-append clock [] y r t h = ((t, h), tt)
  AreReady-append clock (x ∷ xs) y r t h = (r.0, AreReady-append clock xs y r.1 t h)

  -- What the first loop of run makes of a slot.
  record IsLooped (clock : ℕ) (xs : List (TimerNode A)) (number : ℤ) (array : List (TimerNode A))
      (r : ℤ × List (TimerNode A) × List (TimerNode A) × List (TimerNode A)) : Type 0 where
    number_left : r.0 ≡ number -ℤ pos (count (λ n. not (is_again clock n)) r.2)
    array_made :
        (p : TimerNode A → Bool)
        → count p r.1 ≡ count p array + count (λ n. is_again clock n && p n) r.2
    ran : (p : TimerNode A → Bool) → count p r.2 ≡ count (due clock p) xs
    left : (p : TimerNode A → Bool) → count p r.3 ≡ count (later clock p) xs
    future : AreFrom (suc clock) r.3
    ordered : IsOrdered r.3
    ran_from : (t : ℕ) → AreFrom t xs → AreFrom t r.2
    ran_ordered : IsOrdered r.2
    ready : AreReady clock array → AreReady clock r.1

  -- A node that runs, before what the rest of the loop does.
  looped_lem :
      (clock : ℕ) (x : TimerNode A) (xs : List (TimerNode A)) (number : ℤ)
      (array : List (TimerNode A))
      (r : ℤ × List (TimerNode A) × List (TimerNode A) × List (TimerNode A))
      → ltb clock x.trig ≡ false
      → IsOrdered (x ∷ xs)
      → IsLooped clock xs
          (if is_again clock x then number else number -ℤ pos 1)
          (if is_again clock x then array ++ x ∷ [] else array)
          r
      → IsLooped clock (x ∷ xs) number array (r.0, r.1, x ∷ r.2, r.3)
  looped_lem clock x xs number array r e o l = record {
    number_left = elim (Bool-cases (is_again clock x)) [
      | inl b ↦
          let k = count (λ n. not (is_again clock n)) r.2 in
          let a : r.0 ≡ number -ℤ pos k =
            l.number_left ∙ ap (λ t. (if t then number else number -ℤ pos 1) -ℤ pos k) b in
          rw b (a ∙ minus_none number k)
      | inr b ↦
          let k = count (λ n. not (is_again clock n)) r.2 in
          let a : r.0 ≡ number -ℤ pos 1 -ℤ pos k =
            l.number_left ∙ ap (λ t. (if t then number else number -ℤ pos 1) -ℤ pos k) b in
          rw b (minus_next number r.0 k a)
    ];
    array_made = λ p. elim (Bool-cases (is_again clock x)) [
      | inl b ↦
          let k = count (λ n. is_again clock n && p n) r.2 in
          let a : count p r.1 ≡ count p (array ++ x ∷ []) + k =
            l.array_made p ∙ ap (λ t. count p (if t then array ++ x ∷ [] else array) + k) b in
          let c = count-append p array (x ∷ []) in rw b (omega arith)
      | inr b ↦
          let k = count (λ n. is_again clock n && p n) r.2 in
          let a : count p r.1 ≡ count p array + k =
            l.array_made p ∙ ap (λ t. count p (if t then array ++ x ∷ [] else array) + k) b in
          rw b (omega arith)
    ];
    ran = λ p. let a = l.ran p in ground arith;
    left = λ p. let a = l.left p in ground arith;
    future = l.future;
    ordered = l.ordered;
    ran_from = λ t f. (f.0, l.ran_from t f.1);
    ran_ordered = ((l.ran_from x.trig o.0.0, o.0.1), l.ran_ordered);
    ready = λ q. l.ready (elim (Bool-cases (is_again clock x)) [
      | inl b ↦ rw b (AreReady-append clock array x q o.0.1 (ground arith))
      | inr b ↦ rw b q
    ]);
  }

  run_loop_lem :
      (clock : ℕ) (xs : List (TimerNode A)) (number : ℤ) (array : List (TimerNode A))
      → IsOrdered xs
      → clock < half64
      → IsLooped clock xs number array (run_loop clock xs number array)
  unfolding run_loop
  run_loop_lem clock [] number array o b = record {
    number_left = minus_zero number;
    array_made = λ p. omega arith;
    ran = λ p. refl;
    left = λ p. refl;
    future = tt;
    ordered = tt;
    ran_from = λ t f. tt;
    ran_ordered = tt;
    ready = λ q. q;
  }
  run_loop_lem clock (x ∷ xs) number array o b =
      let same = ltb_small clock x.trig b (trig_bound x o.0.1) in
      elim (Bool-cases (ltb clock x.trig)) [
        | inl e ↦
            let f : AreFrom (suc clock) (x ∷ xs) =
              (ground arith, AreFrom-weaken (suc clock) x.trig xs (ground arith) o.0.0) in
            let out : IsLooped clock (x ∷ xs) number array (number, array, [], x ∷ xs) = record {
              number_left = minus_zero number;
              array_made = λ p. omega arith;
              ran = λ p. sym (count-due p clock (x ∷ xs) f);
              left = λ p. sym (count-later p clock (x ∷ xs) f);
              future = f;
              ordered = o;
              ran_from = λ t g. tt;
              ran_ordered = tt;
              ready = λ q. q;
            } in
            subst (IsLooped clock (x ∷ xs) number array) (rw (same, e, run_loop) refl) out
        | inr e ↦
            let number' = if is_again clock x then number else number -ℤ pos 1 in
            let array' = if is_again clock x then array ++ x ∷ [] else array in
            let out =
              looped_lem clock x xs number array (run_loop clock xs number' array') e o
                (run_loop_lem clock xs number' array' o.1 b) in
            subst (IsLooped clock (x ∷ xs) number array) (rw (same, e, run_loop) refl) out
      ]

  -- What the second loop of run makes of a wheel.
  record IsReinserted (w : TimerWheel A) (array : List (TimerNode A)) (w' : TimerWheel A)
      : Type 0 where
    valid : IsValid w'
    start : w'.start ≡ w.start
    clock : w'.clock ≡ w.clock
    number : w'.number ≡ w.number
    hand : w'.hand ≡ w.hand
    nodes : (p : TimerNode A → Bool) → held p w' ≡ held p w + count (λ n. p (renewed n)) array

  pub insert_timer_node-IsValid :
      (w : TimerWheel A) (n : TimerNode A) → IsTimed n → IsValid w → IsValid (insert_timer_node w n)
  unfolding insert_timer_node insert_slot set_slot
  insert_timer_node-IsValid w n m v = record {
    hands = v.hands;
    early = v.early;
    behind = v.behind;
    ordered = λ j. insert-IsOrdered w n j m (v.ordered j);
    levels = λ j z k.
        insert-AreFrom w n j (w.start + next_turn v.hands j) m (omega (arith, v.early)) z
          (let near = next_turn-near w.hand v.hands j z in omega (arith, v.behind))
          (v.levels j z k);
  }

  reinsert_lem :
      (array : List (TimerNode A)) (w : TimerWheel A)
      → IsValid w
      → AreReady w.clock array
      → IsReinserted w array (reinsert array w)
  unfolding reinsert insert_timer_node insert_slot set_slot
  reinsert_lem [] w v r = record {
    valid = v;
    start = refl;
    clock = refl;
    number = refl;
    hand = refl;
    nodes = λ p. omega arith;
  }
  reinsert_lem (n ∷ array) w v r =
      let sum : add_int64 n.trig n.period ≡ n.trig + n.period =
        add_small n.trig n.period (omega (arith, r.0.0.0, r.0.1, v.early)) in
      let put : insert_timer_node w (record n { trig = add_int64 n.trig n.period })
          ≡ insert_timer_node w (renewed n) =
        ap (λ t. insert_timer_node w (record n { trig = t })) sum in
      let timed : IsTimed (renewed n) = (r.0.0.0, omega arith, omega (arith, r.0.1, v.early)) in
      let rest =
        reinsert_lem array (insert_timer_node w (renewed n))
          (insert_timer_node-IsValid w (renewed n) timed v) r.1 in
      subst (λ u. IsReinserted w (n ∷ array) (reinsert array u)) (sym put)
        (record {
          valid = rest.valid;
          start = rest.start;
          clock = rest.clock;
          number = rest.number;
          hand = rest.hand;
          nodes = λ p. omega (arith, rest.nodes p, held-insert p w (renewed n));
        })

  -- `ran` are the nodes that are due, each as often as it is held, in the order of their deadlines;
  -- the wheel after holds the other nodes, and the loops among those that ran a period later.
  pub record IsRun (w : TimerWheel A) (ran : List (TimerNode A)) (w' : TimerWheel A) : Type 0 where
    pub valid : IsValid w'
    pub start : w'.start ≡ w.start
    pub clock : w'.clock ≡ w.clock
    pub hand : w'.hand ≡ w.hand
    pub number : w'.number ≡ w.number -ℤ pos (count (λ n. not (is_again w.clock n)) ran)
    pub due_run : (p : TimerNode A → Bool) → count p ran ≡ held (due w.clock p) w
    pub in_order : IsOrdered ran
    pub nodes :
        (p : TimerNode A → Bool)
        → held p w'
          ≡ held (later w.clock p) w + count (λ n. is_again w.clock n && p (renewed n)) ran

  less-IsValid :
      (w : TimerWheel A) (number : ℤ) (left : List (TimerNode A))
      → IsOrdered left
      → IsValid w
      → IsValid (set_slot (record w { number = number }) 0 left)
  unfolding set_slot
  less-IsValid w number left o v = record {
    hands = v.hands;
    early = v.early;
    behind = v.behind;
    ordered = λ j. elim (Bool-cases (j == 0)) [ inl e ↦ rw e o | inr e ↦ rw e (v.ordered j) ];
    levels = λ j z k. rw z (v.levels j z k);
  }

  pub run_lem :
      (w : TimerWheel A)
      → IsValid w
      → ((j : ℕ) → (j == 0) ≡ false → j < 5 → AreFrom (suc w.clock) (w.slot j))
      → IsRun w (run w).0 (run w).1
  unfolding run set_slot
  run_lem w v f =
      let r = run_loop w.clock (w.slot 0) w.number [] in
      let l = run_loop_lem w.clock (w.slot 0) w.number [] (v.ordered 0) (omega (arith, v.early)) in
      let u = set_slot (record w { number = r.0 }) 0 r.3 in
      let i = reinsert_lem r.1 u (less-IsValid w r.0 r.3 l.ordered v) (l.ready tt) in
      record {
        valid = i.valid;
        start = i.start;
        clock = i.clock;
        hand = i.hand;
        number = i.number ∙ l.number_left;
        due_run = λ p.
            let a = count-due p w.clock (w.slot 1) (f 1 refl (omega arith)) in
            let b = count-due p w.clock (w.slot 2) (f 2 refl (omega arith)) in
            let c = count-due p w.clock (w.slot 3) (f 3 refl (omega arith)) in
            let d = count-due p w.clock (w.slot 4) (f 4 refl (omega arith)) in
            omega (arith, l.ran p);
        in_order = l.ran_ordered;
        nodes = λ p.
            let a = count-later p w.clock (w.slot 1) (f 1 refl (omega arith)) in
            let b = count-later p w.clock (w.slot 2) (f 2 refl (omega arith)) in
            let c = count-later p w.clock (w.slot 3) (f 3 refl (omega arith)) in
            let d = count-later p w.clock (w.slot 4) (f 4 refl (omega arith)) in
            omega (arith, l.left p, i.nodes p, l.array_made (λ n. p (renewed n)));
      }
