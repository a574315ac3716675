-- ===== src/Selector/Balance.antt =====
-- One round of nextSmoothWeighted on items whose effective weights are their weights.
use goext.Prelude.{
  ℕ, zero, suc, ◌+◌, ◌-◌, ◌*◌, ◌≤◌, ◌<◌, List, [], ◌∷◌, ◌≡◌, refl, ap, ap₂, ◌∙◌, arith, true, false,
  length, if◌then◌else◌, none, some, ◌==◌, inl, inr,
}
use goext.Prelude.Int.{
  ltb_ℤ, ℤ, pos, negsuc, pos_part, neg_part, ◌+ℤ◌, ◌-ℤ◌, +ℤ_parts, -ℤ_parts, int_laws,
}
use goext.Selector.{WeightedItem, raise, update, lower, next_smooth_weighted, settle}
use goext.Selector.Scan.{raised, scan-eq, IsAt, IsAt-bounds, Bounded, choose-none}

-- How often an index was chosen.
abbrev pub count : ℕ → List ℕ → ℕ
count i [] = 0
count i (j ∷ picks) = (if j == i then 1 else 0) + count i picks

abbrev pub sum : List ℕ → ℕ
sum [] = 0
sum (x ∷ xs) = x + sum xs

-- Adding keeps the part below 0 small, and subtracting from a positive number makes it no more
-- than what is subtracted.
neg_part_add : (a : ℤ) (n : ℕ) → neg_part (a +ℤ pos n) ≤ neg_part a
unfolding ◌+ℤ◌
neg_part_add a n = ground arith

neg_part_sub : (a : ℤ) (n : ℕ) → 0 < pos_part a → neg_part (a -ℤ pos n) ≤ n - 1
unfolding ◌-ℤ◌
neg_part_sub a n h = ground arith

level_again : (s : ℤ) (n total : ℕ) → s ≡ pos 0 → n ≡ total → s +ℤ pos n -ℤ pos total ≡ pos 0
unfolding ◌+ℤ◌ ◌-ℤ◌
level_again s n total e f = rw (e, f) (ground arith)

module _ {A : Type 0} where
  abbrev pub weights : List (WeightedItem A) → List ℕ
  weights [] = []
  weights (w ∷ r) = pos_part w.weight ∷ weights r

  abbrev pub sum_current : List (WeightedItem A) → ℤ
  sum_current [] = pos 0
  sum_current (w ∷ r) = w.current_weight +ℤ sum_current r

  -- The weight is not negative, and is the effective weight.
  abbrev pub IsPlain : WeightedItem A → Type 0
  IsPlain w = (w.weight ≡ pos (pos_part w.weight)) × (w.effective_weight ≡ w.weight)

  -- After `k` rounds with the choices `picks`: the current weight is `k` times the weight less
  -- `total` for each time that the item was chosen, it is above `-total`, and the effective weight
  -- is the weight. Of the items from index `i` on.
  abbrev pub Balanced : ℕ → ℕ → List ℕ → ℕ → List (WeightedItem A) → Type 0
  Balanced k total picks i [] = Unit {0}
  Balanced k total picks i (w ∷ r) =
      (pos_part w.current_weight + total * count i picks
        ≡ k * pos_part w.weight + neg_part w.current_weight)
      × (neg_part w.current_weight < total)
      × IsPlain w
      × Balanced k total picks (i + 1) r

  raise_lem :
      (w : WeightedItem A)
      → IsPlain w
      → ((raise w).current_weight ≡ w.current_weight +ℤ pos (pos_part w.weight))
        × IsPlain (raise w)
        × ((raise w).weight ≡ w.weight)
  unfolding raise
  raise_lem w h =
      let level : ltb_ℤ w.effective_weight w.weight ≡ false =
        ap (λ x. ltb_ℤ x w.weight) h.1 ∙ ground arith in
      (ap (λ k. w.current_weight +ℤ k) (h.1 ∙ h.0), (h.0, rw level h.1), refl)

  raised-Balanced :
      (k total : ℕ) (picks : List ℕ) (i : ℕ) (ws : List (WeightedItem A))
      → Balanced k total picks i ws
      → Balanced (k + 1) total picks i (raised ws)
        × (sum_current (raised ws) ≡ sum_current ws +ℤ pos (sum (weights ws)))
        × (weights (raised ws) ≡ weights ws)
  raised-Balanced k total picks i [] b = (tt, omega int_laws, refl)
  raised-Balanced k total picks i (w ∷ r) b =
      let (c, e, u) = raise_lem w b.2 in
      let (rest, s, v) = raised-Balanced k total picks (i + 1) r b.3 in
      let parts = +ℤ_parts w.current_weight (pos (pos_part w.weight)) in
      (
        (
          omega (arith, parts, ap pos_part c, ap neg_part c, ap (λ x. (k + 1) * pos_part x) u, b.0),
          omega (arith, neg_part_add w.current_weight (pos_part w.weight), ap neg_part c, b.1),
          e,
          rest,
        ),
        ap₂ ◌+ℤ◌ c s ∙ omega int_laws,
        ap₂ ◌∷◌ (ap pos_part u) v,
      )

  Balanced-skip :
      (k total : ℕ) (picks : List ℕ) (i j : ℕ) (ws : List (WeightedItem A))
      → j < i
      → Balanced k total picks i ws
      → Balanced k total (j ∷ picks) i ws
  Balanced-skip k total picks i j [] h b = tt
  Balanced-skip k total picks i j (w ∷ r) h b =
      let other : (j == i) ≡ false = ground arith in
      (
        rw other (omega (arith, b.0)),
        b.1,
        b.2,
        Balanced-skip k total picks (i + 1) j r (omega arith) b.3,
      )

  -- What the chosen item's turn does: it is lowered, and its count goes up.
  chosen_lem :
      (k total : ℕ) (picks : List ℕ) (i j d : ℕ) (c : ℤ) (ws : List (WeightedItem A))
      → j ≡ i + d
      → IsAt ws i j c
      → 0 < pos_part c
      → 0 < total
      → Balanced k total picks i ws
      → Balanced k total (j ∷ picks) i (update (lower (pos total)) ws d)
        × (sum_current (update (lower (pos total)) ws d) ≡ sum_current ws -ℤ pos total)
        × (weights (update (lower (pos total)) ws d) ≡ weights ws)
  unfolding update lower
  chosen_lem k total picks i j d c [] e at p q b = absurd at
  chosen_lem k total picks i j zero c (w ∷ r) e (inl at) p q b =
      let same : (j == i) ≡ true = ground arith in
      let positive : 0 < pos_part w.current_weight = omega (arith, ap pos_part at.1) in
      let parts = -ℤ_parts w.current_weight (pos total) in
      (
        (
          rw same (omega (arith, parts, b.0)),
          omega (arith, neg_part_sub w.current_weight total positive),
          b.2,
          Balanced-skip k total picks (i + 1) j r (omega arith) b.3,
        ),
        omega int_laws,
        refl,
      )
  chosen_lem k total picks i j (suc d) c (w ∷ r) e (inl at) p q b = absurd (omega arith)
  chosen_lem k total picks i j zero c (w ∷ r) e (inr at) p q b =
      absurd (omega (arith, IsAt-bounds r (i + 1) j c at))
  chosen_lem k total picks i j (suc d) c (w ∷ r) e (inr at) p q b =
      let other : (j == i) ≡ false = ground arith in
      let (rest, s, v) = chosen_lem k total picks (i + 1) j d c r (omega arith) at p q b.3 in
      (
        (rw other (omega (arith, b.0)), b.1, b.2, rest),
        ap (λ t. w.current_weight +ℤ t) s ∙ omega int_laws,
        ap (◌∷◌ (pos_part w.weight)) v,
      )

  -- If no item is above 0, the sum is not.
  sum_current-Bounded :
      (ws : List (WeightedItem A)) (c : ℤ)
      → Bounded ws c
      → pos_part c ≡ 0
      → pos_part (sum_current ws) ≤ neg_part (sum_current ws)
  sum_current-Bounded [] c b e = omega arith
  sum_current-Bounded (w ∷ r) c b e =
      omega (arith, +ℤ_parts w.current_weight (sum_current r), sum_current-Bounded r c b.1 e, b.0)

  -- What holds between rounds.
  pub record IsFair (k total : ℕ) (picks : List ℕ) (ws : List (WeightedItem A)) : Type 0 where
    pub balanced : Balanced k total picks 0 ws
    pub level : sum_current ws ≡ pos 0
    pub whole : sum (weights ws) ≡ total
    pub positive : 0 < total

  -- Raised items have a sum above 0, so the greatest of them is above 0.
  greatest-positive :
      (ws : List (WeightedItem A)) (total : ℕ) (c : ℤ) (s : ℤ)
      → sum_current ws ≡ s +ℤ pos total
      → s ≡ pos 0
      → 0 < total
      → Bounded ws c
      → 0 < pos_part c
  greatest-positive ws total (negsuc k) s e z p b = absurd (
      omega (
        arith,
        sum_current-Bounded ws (negsuc k) b refl,
        ap pos_part e,
        ap neg_part e,
        ap pos_part z,
        ap neg_part z,
        +ℤ_parts s (pos total),
      ))
  greatest-positive ws total (pos zero) s e z p b = absurd (
      omega (
        arith,
        sum_current-Bounded ws (pos 0) b refl,
        ap pos_part e,
        ap neg_part e,
        ap pos_part z,
        ap neg_part z,
        +ℤ_parts s (pos total),
      ))
  greatest-positive ws total (pos (suc k)) s e z p b = omega arith

  length-raised : (ws : List (WeightedItem A)) → length (raised ws) ≡ length ws
  length-raised [] = refl
  length-raised (w ∷ r) = ap suc (length-raised r)

  pub length-weights : (ws : List (WeightedItem A)) → length (weights ws) ≡ length ws
  length-weights [] = refl
  length-weights (w ∷ r) = ap suc (length-weights r)

  -- A round chooses an item, and keeps the balance and the weights.
  pub round_lem :
      (k total : ℕ) (picks : List ℕ) (ws : List (WeightedItem A))
      → IsFair k total picks ws
      → (j : ℕ) × (ws' : List (WeightedItem A)) × (next_smooth_weighted ws (pos total)
          ≡ (some j, ws'))
        × IsFair (k + 1) total (j ∷ picks) ws'
        × (weights ws' ≡ weights ws)
        × (j < length ws)
  unfolding next_smooth_weighted settle
  round_lem k total picks [] f = absurd (omega (arith, f.whole, f.positive))
  round_lem k total picks (w ∷ r) f =
      let ws = w ∷ r in
      let (b, s, v) = raised-Balanced k total picks 0 ws f.balanced in
      let (j, c, q, at, below) = choose-none (raise w) (raised r) 0 in
      let positive =
        greatest-positive (raised ws) total c (sum_current ws)
          (s ∙ ap (λ n. sum_current ws +ℤ pos n) f.whole) f.level f.positive below in
      let (b', s', v') =
        chosen_lem (k + 1) total picks 0 j j c (raised ws) (omega arith) at positive f.positive b in
      (
        j,
        update (lower (pos total)) (raised ws) j,
        ap (settle (pos total)) (scan-eq ws 0 none ∙ ap (λ o. (raised ws, o)) q),
        record {
          balanced = b';
          level =
              s'
              ∙ ap (λ t. t -ℤ pos total) s
              ∙ level_again (sum_current ws) (sum (weights ws)) total f.level f.whole;
          whole = ap sum (v' ∙ v) ∙ f.whole;
          positive = f.positive;
        },
        v' ∙ v,
        omega (arith, IsAt-bounds (raised ws) 0 j c at, length-raised ws),
      )
