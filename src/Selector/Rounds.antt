-- ===== src/Selector/Rounds.antt =====
-- Next over many calls.
use goext.Prelude.{
  ℕ, zero, suc, ◌+◌, ◌*◌, ◌<◌, List, [], ◌∷◌, ◌≡◌, refl, sym, ap, ◌∙◌, arith, true, false, length,
  Option, none, some, ◌==◌, subst,
}
use native.Mathlib.Decide.{dec_lt}
use goext.Selector.{WeightedItem, Sw, next, next_smooth_weighted}
use goext.Selector.Balance.{count, sum, weights, Balanced, IsFair, round_lem, length-weights}
use goext.Selector.Fair.{
  counts, sum-counts, sum-counts-nil, eq_of_Below, AtRest, AreNatural, AtRest-Balanced,
  AtRest-level, Balanced-Below, Balanced-AtRest,
}
use goext.Prelude.Int.{pos, pos_part}

module _ {A : Type 0} where
  -- The choices of `k` further calls of Next, the last one first, in front of `picks`.
  abbrev pub calls : ℕ → List ℕ → Sw A → Option (List ℕ × Sw A)
  calls zero picks w = some (picks, w)
  calls (suc k) picks w = elim (next w).0 [ none ↦ none | some j ↦ calls k (j ∷ picks) (next w).1 ]

  -- Of an Sw whose items were added with weights that are not negative, and not released as failed
  -- since the last Reset.
  pub record IsFresh (w : Sw A) : Type 0 where
    pub counted : w.n ≡ length w.items
    pub whole : sum (weights w.items) ≡ (pos_part w.total_weight)
    pub natural : w.total_weight ≡ pos (pos_part w.total_weight)
    pub weights_natural : AreNatural w.items
    pub at_rest : AtRest w.items

  -- With two items or more, `k` calls are `k` rounds.
  pub record IsRounds (m : ℕ) (picks : List ℕ) (w : Sw A) : Type 0 where
    pub counted : w.n ≡ length w.items
    pub natural : w.total_weight ≡ pos (pos_part w.total_weight)
    pub fair : IsFair m (pos_part w.total_weight) picks w.items
    pub chosen : sum (counts 0 w.n picks) ≡ m

  next_many :
      (w : Sw A) (j : ℕ) (ws : List (WeightedItem A))
      → 1 < w.n
      → next_smooth_weighted w.items w.total_weight ≡ (some j, ws)
      → next w ≡ (some j, record w { items = ws })
  unfolding next
  next_many w j ws h e =
      let some_there : (w.n == 0) ≡ false = ground arith in
      let not_one : (w.n == 1) ≡ false = ground arith in rw (some_there, not_one, e) refl

  calls-suc :
      (k : ℕ) (picks : List ℕ) (w w' : Sw A) (j : ℕ)
      → next w ≡ (some j, w')
      → calls (suc k) picks w ≡ calls k (j ∷ picks) w'
  calls-suc k picks w w' j e =
      ap (λ t. elim t.0 [ none ↦ none | some i ↦ calls k (i ∷ picks) t.1 ]) e

  IsRounds-step :
      (m j : ℕ) (picks : List ℕ) (w : Sw A) (ws : List (WeightedItem A))
      → IsRounds m picks w
      → IsFair (m + 1) (pos_part w.total_weight) (j ∷ picks) ws
      → weights ws ≡ weights w.items
      → j < length w.items
      → IsRounds (m + 1) (j ∷ picks) (record w { items = ws })
  IsRounds-step m j picks w ws r f v l =
      let lengths = ap length v in
      record {
        counted = omega (arith, length-weights ws, length-weights w.items, r.counted);
        natural = r.natural;
        fair = f;
        chosen =
            omega
              (arith, sum-counts 0 w.n j picks (omega arith) (omega (arith, r.counted)), r.chosen);
      }

  calls_many :
      (k m : ℕ) (picks : List ℕ) (w : Sw A)
      → 1 < w.n
      → IsRounds m picks w
      → (picks' : List ℕ) × (w' : Sw A) × (calls k picks w ≡ some (picks', w'))
        × IsRounds (k + m) picks' w'
        × (weights w'.items ≡ weights w.items)
        × (w'.n ≡ w.n)
        × ((pos_part w'.total_weight) ≡ (pos_part w.total_weight))
  calls_many zero m picks w h r =
      (picks, w, refl, subst (λ x. IsRounds x picks w) (omega arith) r, refl, refl, refl)
  calls_many (suc k) m picks w h r =
      let (j, ws, q, f, v, l) = round_lem m (pos_part w.total_weight) picks w.items r.fair in
      let w₁ : Sw A = record w { items = ws } in
      let (picks', w', c, r', v', n', t') =
        calls_many k (m + 1) (j ∷ picks) w₁ h (IsRounds-step m j picks w ws r f v l) in
      (
        picks',
        w',
        calls-suc k picks w w₁ j
              (next_many w j ws h (ap (next_smooth_weighted w.items) r.natural ∙ q))
            ∙ c,
        subst (λ x. IsRounds x picks' w') (omega arith) r',
        v' ∙ v,
        n',
        t',
      )

  next_one : (w : Sw A) → w.n ≡ 1 → next w ≡ (some 0, w)
  unfolding next
  next_one w e =
      let some_there : (w.n == 0) ≡ false = ground arith in
      let one : (w.n == 1) ≡ true = ground arith in rw (some_there, one) refl

  -- A single item is chosen each time, and nothing changes.
  calls_one :
      (k : ℕ) (picks : List ℕ) (w : Sw A)
      → w.n ≡ 1
      → (picks' : List ℕ) × (calls k picks w ≡ some (picks', w))
        × (counts 0 1 picks' ≡ (k + count 0 picks) ∷ [])
  calls_one zero picks w e = (picks, refl, ap (λ x. x ∷ []) (omega arith))
  calls_one (suc k) picks w e =
      let (picks', c, n) = calls_one k (0 ∷ picks) w e in
      (picks', calls-suc k picks w w 0 (next_one w e) ∙ c, n ∙ ap (λ x. x ∷ []) (omega arith))

  weights_one : (ws : List (WeightedItem A)) → length ws ≡ 1 → weights ws ≡ sum (weights ws) ∷ []
  weights_one [] h = absurd (omega arith)
  weights_one (w ∷ []) h = ap (λ x. x ∷ []) (omega arith)
  weights_one (w ∷ x ∷ r) h = absurd (omega arith)

  sum-weights-nil : (ws : List (WeightedItem A)) → length ws ≡ 0 → sum (weights ws) ≡ 0
  sum-weights-nil [] h = refl
  sum-weights-nil (w ∷ r) h = absurd (omega arith)

  single : (w : Sw A) → IsFresh w → 0 < (pos_part w.total_weight) → ¬ (1 < w.n) → w.n ≡ 1
  single w f p few = grind (arith, f.counted, f.whole, sum-weights-nil w.items)

  start : (w : Sw A) → IsFresh w → 0 < (pos_part w.total_weight) → IsRounds 0 [] w
  start w f p = record {
    counted = f.counted;
    natural = f.natural;
    fair = record {
      balanced = AtRest-Balanced (pos_part w.total_weight) 0 w.items p f.weights_natural f.at_rest;
      level = AtRest-level w.items f.at_rest;
      whole = f.whole;
      positive = p;
    };
    chosen = sum-counts-nil 0 w.n;
  }

  counts_whole :
      (picks : List ℕ) (w : Sw A)
      → IsRounds (pos_part w.total_weight) picks w
      → (counts 0 w.n picks ≡ weights w.items) × IsFresh w
  counts_whole picks w r =
      let below = Balanced-Below (pos_part w.total_weight) picks 0 w.items r.fair.balanced in
      let e : counts 0 (length w.items) picks ≡ weights w.items =
        eq_of_Below (counts 0 (length w.items) picks) (weights w.items) below
          (omega (arith, r.fair.whole, r.chosen, ap (λ n. sum (counts 0 n picks)) r.counted)) in
      let rest = Balanced-AtRest (pos_part w.total_weight) picks 0 w.items e r.fair.balanced in
      (
        ap (λ n. counts 0 n picks) r.counted ∙ e,
        record {
          counted = r.counted;
          whole = r.fair.whole;
          natural = r.natural;
          weights_natural = rest.0;
          at_rest = rest.1;
        },
      )

  -- From items at rest, with weights that are not negative, in as many calls of Next as the total
  -- weight, which is not 0, each item is chosen exactly as often as its weight says. The weights are as before and the items are at rest
  -- again.
  pub next_proportional :
      (w : Sw A)
      → IsFresh w
      → 0 < (pos_part w.total_weight)
      → (picks : List ℕ) × (w' : Sw A) × (calls (pos_part w.total_weight) [] w ≡ some (picks, w'))
        × (counts 0 w.n picks ≡ weights w.items)
        × (weights w'.items ≡ weights w.items)
        × IsFresh w'
  next_proportional w f p = elim (dec_lt 1 w.n) [
    | yes many ↦
        let (picks, w', c, r, v, n, t) =
          calls_many (pos_part w.total_weight) 0 [] w many (start w f p) in
        let whole : IsRounds (pos_part w'.total_weight) picks w' =
          subst (λ x. IsRounds x picks w') (omega arith) r in
        let (q, f') = counts_whole picks w' whole in
        (picks, w', c, ap (λ x. counts 0 x picks) (sym n) ∙ q ∙ v, v, f')
    | no few ↦
        let one = single w f p few in
        let (picks, c, q) = calls_one (pos_part w.total_weight) [] w one in
        let e : (pos_part w.total_weight) + 0 ≡ sum (weights w.items) = omega (arith, f.whole) in
        (
          picks,
          w,
          c,
          ap (λ x. counts 0 x picks) one
              ∙ q
              ∙ ap (λ x. x ∷ []) e
              ∙ sym (weights_one w.items (sym f.counted ∙ one)),
          refl,
          f,
        )
  ]

  -- Of the items from index `i` on, none was chosen in `k` rounds more often than its share of
  -- them, rounded up.
  abbrev pub IsShared : ℕ → ℕ → List ℕ → ℕ → List (WeightedItem A) → Type 0
  IsShared k total picks i [] = Unit {0}
  IsShared k total picks i (w ∷ r) =
      (total * count i picks < k * pos_part w.weight + total) × IsShared k total picks (i + 1) r

  Balanced-IsShared :
      (k total : ℕ) (picks : List ℕ) (i : ℕ) (ws : List (WeightedItem A))
      → Balanced k total picks i ws
      → IsShared k total picks i ws
  Balanced-IsShared k total picks i [] b = tt
  Balanced-IsShared k total picks i (w ∷ r) b =
      (omega (arith, b.0, b.1), Balanced-IsShared k total picks (i + 1) r b.3)

  -- From two or more items at rest, with weights that are not negative and a total weight above 0, any number of calls of Next chooses
  -- an item each time, and none more often than its share of the calls by weight, rounded up.
  pub next_shares :
      (w : Sw A) (k : ℕ)
      → IsFresh w
      → 0 < (pos_part w.total_weight)
      → 1 < w.n
      → (picks : List ℕ) × (w' : Sw A) × (calls k [] w ≡ some (picks, w'))
        × IsShared k (pos_part w.total_weight) picks 0 w'.items
        × (weights w'.items ≡ weights w.items)
        × (sum (counts 0 w.n picks) ≡ k)
  next_shares w k f p many =
      let (picks, w', c, r, v, n, t) = calls_many k 0 [] w many (start w f p) in
      let shared =
        Balanced-IsShared (k + 0) (pos_part w'.total_weight) picks 0 w'.items r.fair.balanced in
      (
        picks,
        w',
        c,
        subst (λ x. IsShared x (pos_part w.total_weight) picks 0 w'.items) (omega arith)
            (subst (λ x. IsShared (k + 0) x picks 0 w'.items) t shared),
        v,
        omega (arith, r.chosen, ap (λ x. sum (counts 0 x picks)) n),
      )
