-- ===== src/Selector/Fair.antt =====
-- Counting the choices of many rounds, and comparing the counts with the weights.
use goext.Prelude.{
  ℕ, zero, suc, ◌+◌, ◌*◌, ◌≤◌, ◌<◌, List, [], ◌∷◌, ◌≡◌, refl, ap, ap₂, ◌∙◌, arith, false, length,
  ◌==◌, Bool-cases, get_or, drop, inl, inr,
}
use native.Mathlib.Nat.{lt_of_mul-lt-mul_left}
use goext.Prelude.Int.{pos, pos_part, neg_part, ◌+ℤ◌, int_laws, eq_of_parts}
use goext.Selector.{WeightedItem}
use goext.Selector.Balance.{count, sum, weights, sum_current, Balanced}

-- What was chosen how often, for the indices from `i` on.
abbrev pub counts : ℕ → ℕ → List ℕ → List ℕ
counts i zero picks = []
counts i (suc n) picks = count i picks ∷ counts (i + 1) n picks

counts-skip : (i n j : ℕ) (picks : List ℕ) → j < i → counts i n (j ∷ picks) ≡ counts i n picks
counts-skip i zero j picks h = refl
counts-skip i (suc n) j picks h =
    let other : (j == i) ≡ false = ground arith in
    ap₂ ◌∷◌ (rw other (omega arith)) (counts-skip (i + 1) n j picks (omega arith))

pub sum-counts-nil : (i n : ℕ) → sum (counts i n []) ≡ 0
sum-counts-nil i zero = refl
sum-counts-nil i (suc n) = omega (arith, sum-counts-nil (i + 1) n)

pub sum-counts :
    (i n j : ℕ) (picks : List ℕ)
    → i ≤ j
    → j < i + n
    → sum (counts i n (j ∷ picks)) ≡ 1 + sum (counts i n picks)
sum-counts i zero j picks h k = absurd (omega arith)
sum-counts i (suc n) j picks h k = elim (Bool-cases (j == i)) [
  | inl e ↦ rw (e, counts-skip (i + 1) n j picks (ground arith)) (omega arith)
  | inr e ↦ rw e (omega (arith, sum-counts (i + 1) n j picks (ground arith) (ground arith)))
]

-- Entries that are no larger, and sum up to no less, are the same.
abbrev pub Below : List ℕ → List ℕ → Type 0
Below [] [] = Unit {0}
Below [] (y ∷ ys) = ⊥
Below (x ∷ xs) [] = ⊥
Below (x ∷ xs) (y ∷ ys) = (x ≤ y) × Below xs ys

pub sum-Below : (xs ys : List ℕ) → Below xs ys → sum xs ≤ sum ys
sum-Below [] [] b = omega arith
sum-Below [] (y ∷ ys) b = absurd b
sum-Below (x ∷ xs) [] b = absurd b
sum-Below (x ∷ xs) (y ∷ ys) b = omega (arith, b.0, sum-Below xs ys b.1)

pub eq_of_Below : (xs ys : List ℕ) → Below xs ys → sum ys ≤ sum xs → xs ≡ ys
eq_of_Below [] [] b h = refl
eq_of_Below [] (y ∷ ys) b h = absurd b
eq_of_Below (x ∷ xs) [] b h = absurd b
eq_of_Below (x ∷ xs) (y ∷ ys) b h =
    let rest = sum-Below xs ys b.1 in
    let same : x ≡ y = omega (arith, b.0) in
    ap₂ ◌∷◌ same (eq_of_Below xs ys b.1 (omega (arith, b.0)))

le_of_mul : (t x y : ℕ) → t * x < t * y + t → x ≤ y
le_of_mul t x y h =
    let e : t * (y + 1) ≡ t * y + t = omega arith in
    let less : x < y + 1 = lt_of_mul-lt-mul_left t (omega arith) in omega arith

module _ {A : Type 0} where
  abbrev pub AtRest : List (WeightedItem A) → Type 0
  AtRest [] = Unit {0}
  AtRest (w ∷ r) = (w.current_weight ≡ pos 0) × (w.effective_weight ≡ w.weight) × AtRest r

  -- No weight is negative.
  abbrev pub AreNatural : List (WeightedItem A) → Type 0
  AreNatural [] = Unit {0}
  AreNatural (w ∷ r) = (w.weight ≡ pos (pos_part w.weight)) × AreNatural r

  pub AtRest-Balanced :
      (total i : ℕ) (ws : List (WeightedItem A))
      → 0 < total
      → AreNatural ws
      → AtRest ws
      → Balanced 0 total [] i ws
  AtRest-Balanced total i [] h n r = tt
  AtRest-Balanced total i (w ∷ ws) h n r = (
    omega (arith, ap pos_part r.0, ap neg_part r.0),
    omega (arith, ap neg_part r.0),
    (n.0, r.1),
    AtRest-Balanced total (i + 1) ws h n.1 r.2,
  )

  pub AtRest-level : (ws : List (WeightedItem A)) → AtRest ws → sum_current ws ≡ pos 0
  AtRest-level [] r = refl
  AtRest-level (w ∷ ws) r = ap₂ ◌+ℤ◌ r.0 (AtRest-level ws r.2) ∙ omega int_laws

  pub Balanced-Below :
      (total : ℕ) (picks : List ℕ) (i : ℕ) (ws : List (WeightedItem A))
      → Balanced total total picks i ws
      → Below (counts i (length ws) picks) (weights ws)
  Balanced-Below total picks i [] b = tt
  Balanced-Below total picks i (w ∷ r) b = (
    le_of_mul total (count i picks) (pos_part w.weight) (omega (arith, b.0, b.1)),
    Balanced-Below total picks (i + 1) r b.3,
  )

  -- Once the counts are the weights, the items are at rest again.
  pub Balanced-AtRest :
      (total : ℕ) (picks : List ℕ) (i : ℕ) (ws : List (WeightedItem A))
      → counts i (length ws) picks ≡ weights ws
      → Balanced total total picks i ws
      → AreNatural ws × AtRest ws
  Balanced-AtRest total picks i [] e b = (tt, tt)
  Balanced-AtRest total picks i (w ∷ r) e b =
      let here : count i picks ≡ pos_part w.weight = ap (λ xs. get_or xs 0 0) e in
      let times : total * count i picks ≡ total * pos_part w.weight = ap (λ x. total * x) here in
      let rest = Balanced-AtRest total picks (i + 1) r (ap (drop 1) e) b.3 in
      ((b.2.0, rest.0), (omega (arith, eq_of_parts, b.0), b.2.1, rest.1))
