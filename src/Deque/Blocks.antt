-- ===== src/Deque/Blocks.antt =====
-- The blocks of a deque as one row of cells.
use goext.Prelude.{
  ℕ, zero, suc, ◌+◌, ◌-◌, ◌*◌, ◌<◌, List, [], ◌∷◌, ◌++◌, ◌≡◌, refl, sym, ap, ◌∙◌, arith, length,
  set, length-append, length-set, append-nil, append_assoc, ret,
}
use goext.Deque.{back_block, store_back, remove_back, front_block, store_front, remove_front}

module _ {A : Type 0} where
  abbrev pub cells : List (List A) → List A
  cells [] = []
  cells (x ∷ r) = x ++ cells r

  -- Every block has 64 cells.
  abbrev pub Full : List (List A) → Type 0
  Full [] = Unit
  Full (x ∷ r) = (length x ≡ 64) × Full r

  pub length-cells : (bs : List (List A)) → Full bs → length (cells bs) ≡ 64 * length bs
  length-cells [] f = omega arith
  length-cells (x ∷ r) f = omega (arith, length-append x (cells r), length-cells r f.1, f.0)

  pub set-append_left :
      (xs ys : List A) (i : ℕ) (v : A) → i < length xs → set (xs ++ ys) i v ≡ set xs i v ++ ys
  set-append_left [] ys i v h = absurd (omega arith)
  set-append_left (x ∷ xs) ys zero v h = refl
  set-append_left (x ∷ xs) ys (suc i) v h = ap (◌∷◌ x) (set-append_left xs ys i v (omega arith))

  pub set-append_right :
      (xs ys : List A) (i : ℕ) (v : A) → set (xs ++ ys) (length xs + i) v ≡ xs ++ set ys i v
  set-append_right [] ys i v = ap (λ k. set ys k v) (omega arith)
  set-append_right (x ∷ xs) ys i v =
      let e : suc (length xs) + i ≡ suc (length xs + i) = omega arith in
      ap (λ k. set (x ∷ (xs ++ ys)) k v) e ∙ ap (◌∷◌ x) (set-append_right xs ys i v)

  -- The last block: it is the last stretch of the row.
  pub back_block-cells :
      (bs : List (List A))
      → Full bs
      → 0 < length bs
      → (x : List A) × (back_block bs ≡ ret x)
        × (length x ≡ 64)
        × (cells bs ≡ cells (remove_back bs) ++ x)
        × (length (remove_back bs) ≡ length bs - 1)
        × Full (remove_back bs)
  unfolding back_block remove_back
  back_block-cells [] f h = absurd (omega arith)
  back_block-cells (x ∷ []) f h = (x, refl, f.0, append-nil x, refl, tt)
  back_block-cells (x ∷ y ∷ r) f h =
      let (z, e, l, c, n, g) = back_block-cells (y ∷ r) f.1 (omega arith) in
      (
        z,
        e,
        l,
        ap (λ t. x ++ t) c ∙ sym (append_assoc x (cells (remove_back (y ∷ r))) z),
        omega (arith, n),
        (f.0, g),
      )

  remove_back-store_cons :
      (x y : List A) (r : List (List A)) (i : ℕ) (v : A)
      → remove_back (x ∷ store_back (y ∷ r) i v) ≡ x ∷ remove_back (store_back (y ∷ r) i v)
  unfolding store_back remove_back
  remove_back-store_cons x y [] i v = refl
  remove_back-store_cons x y (z ∷ r) i v = refl

  -- A write to the last block is a write to the last stretch.
  pub store_back-cells :
      (bs : List (List A)) (i : ℕ) (v : A)
      → Full bs
      → 0 < length bs
      → i < 64
      → Full (store_back bs i v)
        × (length (store_back bs i v) ≡ length bs)
        × (cells (store_back bs i v) ≡ set (cells bs) (64 * (length bs - 1) + i) v)
        × (remove_back (store_back bs i v) ≡ remove_back bs)
  unfolding store_back remove_back
  store_back-cells [] i v f h p = absurd (omega arith)
  store_back-cells (x ∷ []) i v f h p =
      let e : i ≡ 64 * (1 - 1) + i = omega arith in
      (
        (length-set x i v ∙ f.0, tt),
        refl,
        append-nil (set x i v)
            ∙ ap (λ k. set x k v) e
            ∙ ap (λ t. set t (64 * (1 - 1) + i) v) (sym (append-nil x)),
        refl,
      )
  store_back-cells (x ∷ y ∷ r) i v f h p =
      let (g, n, c, m) = store_back-cells (y ∷ r) i v f.1 (omega arith) p in
      let k = 64 * (length (y ∷ r) - 1) + i in
      let e : length x + k ≡ 64 * (length (x ∷ y ∷ r) - 1) + i = omega (arith, f.0) in
      (
        (f.0, g),
        ap suc n,
        ap (λ t. x ++ t) c
            ∙ sym (set-append_right x (cells (y ∷ r)) k v)
            ∙ ap (λ j. set (x ++ cells (y ∷ r)) j v) e,
        remove_back-store_cons x y r i v ∙ ap (◌∷◌ x) m,
      )

  -- The same at the front.
  pub store_front-cells :
      (bs : List (List A)) (i : ℕ) (v : A)
      → Full bs
      → i < 64
      → Full (store_front bs i v)
        × (length (store_front bs i v) ≡ length bs)
        × (cells (store_front bs i v) ≡ set (cells bs) i v)
        × (remove_front (store_front bs i v) ≡ remove_front bs)
  unfolding store_front remove_front
  store_front-cells [] i v f p = (tt, refl, refl, refl)
  store_front-cells (x ∷ r) i v f p = (
    (length-set x i v ∙ f.0, f.1),
    refl,
    sym (set-append_left x (cells r) i v (omega (arith, f.0))),
    refl,
  )

  pub front_block-cells :
      (bs : List (List A))
      → Full bs
      → 0 < length bs
      → (x : List A) × (front_block bs ≡ ret x)
        × (length x ≡ 64)
        × (cells bs ≡ x ++ cells (remove_front bs))
        × (length (remove_front bs) ≡ length bs - 1)
        × Full (remove_front bs)
  unfolding front_block remove_front
  front_block-cells [] f h = absurd (omega arith)
  front_block-cells (x ∷ r) f h = (x, refl, f.0, refl, omega arith, f.1)

  pub cells-append : (bs cs : List (List A)) → cells (bs ++ cs) ≡ cells bs ++ cells cs
  cells-append [] cs = refl
  cells-append (x ∷ bs) cs =
      ap (λ t. x ++ t) (cells-append bs cs) ∙ sym (append_assoc x (cells bs) (cells cs))

  pub Full-append : (bs cs : List (List A)) → Full bs → Full cs → Full (bs ++ cs)
  Full-append [] cs f g = g
  Full-append (x ∷ bs) cs f g = (f.0, Full-append bs cs f.1 g)
