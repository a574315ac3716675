-- ===== src/Selector/Scan.antt =====
-- The loop of nextSmoothWeighted, and its choice.
use goext.Prelude.{
  ℕ, ◌+◌, ◌≤◌, ◌<◌, List, [], ◌∷◌, ◌≡◌, ◌⊎◌, refl, arith, length, Option, none, some, Bool-cases,
  inl, inr,
}
use goext.Prelude.Int.{ℤ, ltb_ℤ, ◌≤ℤ◌}
use goext.Selector.{WeightedItem, raise, better, scan}

module _ {A : Type 0} where
  abbrev pub raised : List (WeightedItem A) → List (WeightedItem A)
  raised [] = []
  raised (w ∷ r) = raise w ∷ raised r

  -- The choice of the loop, apart from its writes.
  abbrev pub choose : List (WeightedItem A) → ℕ → Option (ℕ × ℤ) → Option (ℕ × ℤ)
  choose [] i best = best
  choose (w ∷ r) i best = choose r (i + 1) (better i w best)

  pub scan-eq :
      (ws : List (WeightedItem A)) (i : ℕ) (best : Option (ℕ × ℤ))
      → scan ws i best ≡ (raised ws, choose (raised ws) i best)
  unfolding scan
  scan-eq [] i best = refl
  scan-eq (w ∷ r) i best = rw (scan-eq r (i + 1) (better i (raise w) best))

  -- `j` is the index of an item of current weight `c` in the slice that starts at index `i`.
  abbrev pub IsAt : List (WeightedItem A) → ℕ → ℕ → ℤ → Type 0
  IsAt [] i j c = ⊥
  IsAt (w ∷ r) i j c = ((j ≡ i) × (c ≡ w.current_weight)) ⊎ IsAt r (i + 1) j c

  pub IsAt-bounds :
      (ws : List (WeightedItem A)) (i j : ℕ) (c : ℤ) → IsAt ws i j c → (i ≤ j) × (j < i + length ws)
  IsAt-bounds [] i j c h = absurd h
  IsAt-bounds (w ∷ r) i j c (inl h) = omega arith
  IsAt-bounds (w ∷ r) i j c (inr h) = omega (arith, IsAt-bounds r (i + 1) j c h)

  abbrev pub Bounded : List (WeightedItem A) → ℤ → Type 0
  Bounded [] c = Unit {0}
  Bounded (w ∷ r) c = (w.current_weight ≤ℤ c) × Bounded r c

  -- The choice is an item, or the best one so far, and no item or best one so far weighs more.
  pub choose-some :
      (ws : List (WeightedItem A)) (i k : ℕ) (e : ℤ)
      → (j : ℕ) × (c : ℤ) × (choose ws i (some (k, e)) ≡ some (j, c))
        × (IsAt ws i j c ⊎ ((j ≡ k) × (c ≡ e)))
        × Bounded ws c
        × (e ≤ℤ c)
  unfolding better
  choose-some [] i k e = (k, e, refl, inr (refl, refl), tt, omega arith)
  choose-some (w ∷ r) i k e = elim (Bool-cases (ltb_ℤ e w.current_weight)) [
    | inl more ↦
        let (j, c, q, at, below, le) = choose-some r (i + 1) i w.current_weight in
        rw more (
          j,
          c,
          q,
          elim at [ inl h ↦ inl (inr h) | inr h ↦ inl (inl h) ],
          (le, below),
          ground arith,
        )
    | inr less ↦
        let (j, c, q, at, below, le) = choose-some r (i + 1) k e in
        rw less
          (j, c, q, elim at [ inl h ↦ inl (inr h) | inr h ↦ inr h ], (ground arith, below), le)
  ]

  -- From the start of a slice that is not empty, the loop finds an item of greatest weight.
  pub choose-none :
      (w : WeightedItem A) (r : List (WeightedItem A)) (i : ℕ)
      → (j : ℕ) × (c : ℤ) × (choose (w ∷ r) i none ≡ some (j, c))
        × IsAt (w ∷ r) i j c
        × Bounded (w ∷ r) c
  unfolding better
  choose-none w r i =
      let (j, c, q, at, below, le) = choose-some r (i + 1) i w.current_weight in
      (j, c, q, elim at [ inl h ↦ inr h | inr h ↦ inl h ], (le, below))
