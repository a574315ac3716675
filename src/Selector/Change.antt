-- ===== src/Selector/Change.antt =====
-- The fields of an SW and its items, under Add, Release, Reset, RemoveAll and Next.
use goext.Prelude.{
  ℕ, zero, suc, ◌+◌, ◌<◌, List, [], ◌∷◌, ◌++◌, ◌≡◌, refl, sym, ap, ◌∙◌, arith, Bool, true, false,
  length, ltb, leb, Option, none, some, ◌==◌, Bool-cases, inl, inr, length-append, if◌then◌else◌,
  subst, ◌⊎◌,
}
use goext.Prelude.Int.{ℤ, pos, negsuc, neg_part, ◌+ℤ◌, ◌-ℤ◌, ◌≤ℤ◌, ltb_ℤ, int_laws}
use goext.Selector.{
  WeightedItem, Sw, new_sw, add, release, release_item, update, remove_all, reset, reset_items,
  next, next_smooth_weighted, settle, raise, lower, not_negative, quotient,
}
use goext.Selector.Scan.{raised, scan-eq}
use goext.Selector.Fair.{AtRest}

-- The effective weight of an item is from 0 to its weight, where that is not negative.
abbrev pub IsCapped : ℤ → ℤ → Type 0
IsCapped weight effective = (0 < neg_part weight) ⊎ (neg_part effective ≡ 0) × (effective ≤ℤ weight)

floor_lem : (a e : ℤ) → IsCapped a e → IsCapped a (pos 0)
floor_lem a e (inl h) = inl h
floor_lem a e (inr h) = ground arith

added-IsCapped : (a : ℤ) → IsCapped a a
added-IsCapped (pos n) = inr (refl, omega arith)
added-IsCapped (negsuc n) = inl (omega arith)

raised_once-IsCapped : (a e : ℤ) → IsCapped a e → IsCapped a (if ltb_ℤ e a then e +ℤ pos 1 else e)
unfolding ◌+ℤ◌
raised_once-IsCapped a e (inl h) = inl h
raised_once-IsCapped a (negsuc n) (inr h) = absurd (omega (arith, h.0))
raised_once-IsCapped a (pos n) (inr h) = inr (ground arith)

-- An effective weight that is lowered by more than a quotient of the weight, but not below 0.
lowered-IsCapped :
    (a e : ℤ) (k : ℕ)
    → IsCapped a e
    → IsCapped a (
        if ltb_ℤ (e -ℤ (quotient a k +ℤ pos 1)) (pos 0)
        then pos 0
        else e -ℤ (quotient a k +ℤ pos 1))
unfolding quotient ◌+ℤ◌ ◌-ℤ◌
lowered-IsCapped (negsuc m) e k h = inl (omega arith)
lowered-IsCapped (pos m) e k (inl h) = inl h
lowered-IsCapped (pos m) (negsuc n) k (inr h) = absurd (omega (arith, h.0))
lowered-IsCapped (pos m) (pos n) k (inr h) = inr (ground arith)

module _ {A : Type 0} where
  abbrev pub Capped : List (WeightedItem A) → Type 0
  Capped [] = Unit {0}
  Capped (w ∷ r) = IsCapped w.weight w.effective_weight × Capped r

  abbrev pub sum_weights : List (WeightedItem A) → ℤ
  sum_weights [] = pos 0
  sum_weights (w ∷ r) = w.weight +ℤ sum_weights r

  raised-IsCapped :
      (w : WeightedItem A)
      → IsCapped w.weight w.effective_weight
      → IsCapped w.weight (raise w).effective_weight
  unfolding raise
  raised-IsCapped w h = raised_once-IsCapped w.weight w.effective_weight h

  pub record IsValid (w : Sw A) : Type 0 where
    pub counted : w.n ≡ length w.items
    pub whole : sum_weights w.items ≡ w.total_weight
    pub capped : Capped w.items
    pub fails : 0 < w.max_fails

  -- What a change of one item at a time may do.
  abbrev Keeps : (WeightedItem A → WeightedItem A) → Type 0
  Keeps f =
      (w : WeightedItem A)
      → ((f w).weight ≡ w.weight)
        × (IsCapped w.weight w.effective_weight → IsCapped w.weight (f w).effective_weight)

  Keeps-update :
      (f : WeightedItem A → WeightedItem A) (ws : List (WeightedItem A)) (i : ℕ)
      → Keeps f
      → (sum_weights (update f ws i) ≡ sum_weights ws)
        × (length (update f ws i) ≡ length ws)
        × (Capped ws → Capped (update f ws i))
  unfolding update
  Keeps-update f [] i h = (refl, refl, λ c. c)
  Keeps-update f (w ∷ r) zero h =
      let (k, e) = h w in
      (
        ap (λ x. x +ℤ sum_weights r) k,
        refl,
        λ c. (subst (λ x. IsCapped x (f w).effective_weight) (sym k) (e c.0), c.1),
      )
  Keeps-update f (w ∷ r) (suc i) h =
      let (v, l, c) = Keeps-update f r i h in
      (ap (λ x. w.weight +ℤ x) v, ap suc l, λ d. (d.0, c d.1))

  not_negative_lem :
      (it : WeightedItem A)
      → (not_negative it).effective_weight
        ≡ (if ltb_ℤ it.effective_weight (pos 0) then pos 0 else it.effective_weight)
  unfolding not_negative
  not_negative_lem it = elim (Bool-cases (ltb_ℤ it.effective_weight (pos 0))) [
    | inl e ↦ rw e refl
    | inr e ↦ rw e refl
  ]

  Keeps-not_negative : Keeps not_negative
  unfolding not_negative
  Keeps-not_negative w = elim (Bool-cases (ltb_ℤ w.effective_weight (pos 0))) [
    | inl e ↦ rw e (refl, λ h. floor_lem w.weight w.effective_weight h)
    | inr e ↦ rw e (refl, λ h. h)
  ]

  Keeps-release_item : (max_fails : ℕ) (success : Bool) → Keeps (release_item max_fails success)
  unfolding release_item
  Keeps-release_item max_fails true w = Keeps-not_negative (record w { failed_number = 0 })
  Keeps-release_item max_fails false w = elim (Bool-cases (ltb max_fails (w.failed_number + 1))) [
    | inl e ↦
        let it = record w {
          failed_number = w.failed_number + 1;
          effective_weight = w.effective_weight -ℤ (quotient w.weight max_fails +ℤ pos 1);
        } in
        rw e (
          (Keeps-not_negative it).0,
          λ h.
              subst (IsCapped w.weight) (sym (not_negative_lem it))
                (lowered-IsCapped w.weight w.effective_weight max_fails h),
        )
    | inr e ↦ rw e (Keeps-not_negative (record w { failed_number = w.failed_number + 1 }))
  ]

  update-IsValid :
      (f : WeightedItem A → WeightedItem A) (i : ℕ) (w : Sw A)
      → Keeps f
      → IsValid w
      → IsValid (record w { items = update f w.items i })
  update-IsValid f i w h v =
      let (k, l, c) = Keeps-update f w.items i h in
      record {
        counted = v.counted ∙ sym l;
        whole = k ∙ v.whole;
        capped = c v.capped;
        fails = v.fails;
      }

  -- Release keeps an Sw valid, whatever the index.
  pub release-IsValid :
      (w : Sw A) (index : ℤ) (success : Bool) → IsValid w → IsValid (release w index success)
  unfolding release
  release-IsValid w (negsuc k) success v = v
  release-IsValid w (pos i) success v = elim (Bool-cases (leb w.n i)) [
    | inl e ↦ rw e v
    | inr e ↦ rw e (
        update-IsValid (release_item w.max_fails success) i w
          (Keeps-release_item w.max_fails success) v)
  ]

  weights-append :
      (xs ys : List (WeightedItem A)) → sum_weights (xs ++ ys) ≡ sum_weights xs +ℤ sum_weights ys
  weights-append [] ys = omega int_laws
  weights-append (x ∷ xs) ys = ap (λ t. x.weight +ℤ t) (weights-append xs ys) ∙ omega int_laws

  Capped-append : (xs ys : List (WeightedItem A)) → Capped xs → Capped ys → Capped (xs ++ ys)
  Capped-append [] ys c d = d
  Capped-append (x ∷ xs) ys c d = (c.0, Capped-append xs ys c.1 d)

  pub new_sw-IsValid : (max_fails : ℤ) → IsValid (new_sw max_fails)
  unfolding new_sw
  new_sw-IsValid (negsuc k) = record {
    counted = refl;
    whole = refl;
    capped = tt;
    fails = omega arith;
  }
  new_sw-IsValid (pos k) = record {
    counted = refl;
    whole = refl;
    capped = tt;
    fails = ground arith;
  }

  pub add-IsValid : (w : Sw A) (x : A) (weight : ℤ) → IsValid w → IsValid (add w x weight)
  unfolding add
  add-IsValid w x weight v = record {
    counted = omega (arith, v.counted, length-append w.items _);
    whole = weights-append w.items _ ∙ ap (λ t. t +ℤ (weight +ℤ pos 0)) v.whole ∙ omega int_laws;
    capped = Capped-append w.items _ v.capped (added-IsCapped weight, tt);
    fails = v.fails;
  }

  pub remove_all-IsValid : (w : Sw A) → IsValid w → IsValid (remove_all w)
  unfolding remove_all
  remove_all-IsValid w v = record { counted = refl; whole = refl; capped = tt; fails = v.fails }

  reset_items_lem :
      (ws : List (WeightedItem A))
      → (length (reset_items ws) ≡ length ws)
        × (sum_weights (reset_items ws) ≡ sum_weights ws)
        × AtRest (reset_items ws)
        × Capped (reset_items ws)
  unfolding reset_items
  reset_items_lem [] = (refl, refl, tt, tt)
  reset_items_lem (w ∷ r) =
      let (l, v, t, c) = reset_items_lem r in
      (ap suc l, ap (λ x. w.weight +ℤ x) v, (refl, refl, t), (added-IsCapped w.weight, c))

  pub reset-IsValid : (w : Sw A) → IsValid w → IsValid (reset w)
  unfolding reset
  reset-IsValid w v =
      let (l, k, t, c) = reset_items_lem w.items in
      record { counted = v.counted ∙ sym l; whole = k ∙ v.whole; capped = c; fails = v.fails }

  -- Reset puts the items at rest.
  pub reset-AtRest : (w : Sw A) → AtRest (reset w).items
  unfolding reset
  reset-AtRest w = let (l, k, t, c) = reset_items_lem w.items in t

  raised_lem :
      (ws : List (WeightedItem A))
      → (length (raised ws) ≡ length ws)
        × (sum_weights (raised ws) ≡ sum_weights ws)
        × (Capped ws → Capped (raised ws))
  unfolding raise
  raised_lem [] = (refl, refl, λ c. c)
  raised_lem (w ∷ r) =
      let (l, v, c) = raised_lem r in
      (ap suc l, ap (λ x. w.weight +ℤ x) v, λ d. (raised-IsCapped w d.0, c d.1))

  Keeps-lower : (total : ℤ) → Keeps (lower total)
  unfolding lower
  Keeps-lower total w = (refl, λ h. h)

  -- The items after a round, from those after its loop.
  settle_lem :
      (total : ℤ) (ws : List (WeightedItem A)) (best : Option (ℕ × ℤ)) (r : Sw A)
      → IsValid (record r { items = ws })
      → IsValid (record r { items = (settle total (ws, best)).1 })
  unfolding settle
  settle_lem total ws none r v = v
  settle_lem total ws (some b) r v =
      update-IsValid (lower total) b.0 (record r { items = ws }) (Keeps-lower total) v

  next_items-IsValid :
      (w : Sw A)
      → IsValid w
      → IsValid (record w { items = (next_smooth_weighted w.items w.total_weight).1 })
  unfolding next_smooth_weighted
  next_items-IsValid w v =
      let (l, k, c) = raised_lem w.items in
      rw (scan-eq w.items 0 none) (
        settle_lem w.total_weight (raised w.items) _ w (record {
          counted = v.counted ∙ sym l;
          whole = k ∙ v.whole;
          capped = c v.capped;
          fails = v.fails;
        }))

  pub next-IsValid : (w : Sw A) → IsValid w → IsValid (next w).1
  unfolding next
  next-IsValid w v = elim (Bool-cases (w.n == 0)) [
    | inl z ↦ rw z v
    | inr z ↦
        rw z
          (elim (Bool-cases (w.n == 1)) [ inl o ↦ rw o v | inr o ↦ rw o (next_items-IsValid w v) ])
  ]
