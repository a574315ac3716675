-- ===== src/Consistent/Around.antt =====
-- GetTwo's way around the ring.
use goext.Prelude.{
  ℕ, zero, suc, ◌+◌, ◌<◌, ◌≤◌, List, [], ◌∷◌, ◌≡◌, refl, sym, ap, ◌∙◌, arith, Bool, true, false,
  leb, ltb, ◌==◌, none, some, length, get_or, Outcome, ret, panic, no_fuel, nth-ret, Returns,
  Returns-cases, Bool-cases, subst, inl, inr, ◌⊎◌,
}
use goext.Consistent.{ConsistentHash, Name, same_name, lookup, search, name_at, get}
use goext.Consistent.State.{IsValid, hash_of, hash-ret}
use goext.Consistent.Sorted.{IsOrdered-IsAscending}
use goext.Consistent.Search.{IsPlace, search_lem}
use goext.Consistent.Owner.{name_at-IsOwner, nonempty}
use goext.Consistent.Several.{around, two_loop, get_two}

same_name_refl : (x : Name) → same_name x x ≡ true
same_name_refl [] = refl
same_name_refl (x ∷ xs) = let r = same_name_refl xs in ground arith

-- Two names that are a third one are the same.
same_name_both : (x y z : Name) → same_name x z ≡ true → same_name y z ≡ true → same_name x y ≡ true
same_name_both [] [] z a b = refl
same_name_both [] (y ∷ ys) [] a b = absurd (ground arith)
same_name_both [] (y ∷ ys) (z ∷ zs) a b = absurd (ground arith)
same_name_both (x ∷ xs) [] [] a b = absurd (ground arith)
same_name_both (x ∷ xs) [] (z ∷ zs) a b = absurd (ground arith)
same_name_both (x ∷ xs) (y ∷ ys) [] a b = absurd (ground arith)
same_name_both (x ∷ xs) (y ∷ ys) (z ∷ zs) a b =
    let r = same_name_both xs ys zs (ground arith) (ground arith) in ground arith

abbrev name_of : ConsistentHash → ℕ → Name
name_of c q = elim (lookup (◌==◌) c.circle (get_or c.sorted_hashes q 0)) [
  | none ↦ []
  | some name ↦ name
]

named_lem :
    (c : ConsistentHash) (q : ℕ) → q < length c.sorted_hashes → (n : Name) × (name_at c q ≡ ret n)
unfolding name_at
named_lem c q h = (name_of c q, rw (nth-ret c.sorted_hashes q 0 h) refl)

-- Whether what is read is the name.
is_name : Name → Outcome Name → Bool
is_name a (ret n) = same_name n a
is_name a panic = false
is_name a no_fuel = false

-- A place with another name is another place.
elsewhere :
    (c : ConsistentHash) (a m n : Name) (i p : ℕ)
    → name_at c i ≡ ret m
    → same_name m a ≡ true
    → name_at c p ≡ ret n
    → same_name n a ≡ false
    → (i == p) ≡ false
unfolding is_name
elsewhere c a m n i p e f g h = elim (Bool-cases (i == p)) [
  | inr d ↦ d
  | inl d ↦
      let q : i ≡ p = ground arith in
      let k = sym (ap (is_name a) e) ∙ ap (λ j. is_name a (name_at c j)) q ∙ ap (is_name a) g in
      absurd (ground arith)
]

-- A name of the ring that is not `a`.
pub record IsOther (c : ConsistentHash) (a b : Name) : Type 0 where
  pub other : same_name b a ≡ false
  pub place : ℕ
  pub inside : place < length c.sorted_hashes
  pub found : name_at c place ≡ ret b

-- One round: the name is another one, or the loop goes on.
round_lem :
    (fuel : ℕ) (c : ConsistentHash) (a : Name) (start i : ℕ) (b : Name)
    → (i == start) ≡ false
    → around c i < length c.sorted_hashes
    → ((m : Name)
        → name_at c (around c i) ≡ ret m
        → same_name m a ≡ true
        → Returns (IsOther c a) (two_loop fuel c a start (around c i + 1) m))
    → Returns (IsOther c a) (two_loop (suc fuel) c a start i b)
unfolding two_loop
round_lem fuel c a start i b d h later =
    let (m, e) = named_lem c (around c i) h in
    elim (Bool-cases (same_name m a)) [
      | inl s ↦
          let q : two_loop (suc fuel) c a start i b ≡ two_loop fuel c a start (around c i + 1) m =
            rw (d, e, s) refl in
          subst (Returns (IsOther c a)) (sym q) (later m e s)
      | inr s ↦
          let q : two_loop (suc fuel) c a start i b ≡ ret m = rw (d, e, s) refl in
          subst (Returns (IsOther c a)) (sym q)
            (record { other = s; place = around c i; inside = h; found = e })
    ]

module _ (c : ConsistentHash) (a : Name) (start p : ℕ) (n : Name)
    (inside : p < length c.sorted_hashes) (found : name_at c p ≡ ret n)
    (other : same_name n a ≡ false) where
  around_low : (i : ℕ) → i < length c.sorted_hashes → around c i ≡ i
  around_low i h = ground arith

  -- From a place at or before `p`, with the start not between.
  forward :
      (fuel i : ℕ) (b : Name)
      → i ≤ p
      → (start < i) ⊎ (p < start)
      → p < fuel + i
      → Returns (IsOther c a) (two_loop fuel c a start i b)
  forward zero i b h s f = absurd (omega arith)
  forward (suc fuel) i b h s f =
      let low = around_low i (omega arith) in
      round_lem fuel c a start i b (ground arith) (omega arith) (λ m e t.
        let d = elsewhere c a m n (around c i) p e t found other in
        subst (λ j. Returns (IsOther c a) (two_loop fuel c a start (j + 1) m)) (sym low)
          (forward fuel (i + 1) m (ground arith) (ground arith) (omega arith)))

  -- From behind the start, where `p` is before it.
  wrapped :
      (fuel i : ℕ) (b : Name)
      → start < i
      → i ≤ length c.sorted_hashes
      → p < start
      → length c.sorted_hashes + p + 1 < fuel + i
      → Returns (IsOther c a) (two_loop fuel c a start i b)
  wrapped zero i b h l s f = absurd (omega arith)
  wrapped (suc fuel) i b h l s f = elim (Bool-cases (leb (length c.sorted_hashes) i)) [
    | inr k ↦
        let low = around_low i (ground arith) in
        round_lem fuel c a start i b (ground arith) (ground arith) (λ m e t.
          subst (λ j. Returns (IsOther c a) (two_loop fuel c a start (j + 1) m)) (sym low)
            (wrapped fuel (i + 1) m (omega arith) (ground arith) s (omega arith)))
    | inl k ↦
        let low : around c i ≡ 0 = ground arith in
        round_lem fuel c a start i b (ground arith) (omega arith) (λ m e t.
          let d = elsewhere c a m n (around c i) p e t found other in
          subst (λ j. Returns (IsOther c a) (two_loop fuel c a start (j + 1) m)) (sym low)
            (forward fuel 1 m (ground arith) (inr s) (ground arith)))
  ]

-- With two names on the ring one of them is not `a`.
one_of :
    (c : ConsistentHash) (a : Name) (p₁ p₂ : ℕ) (n₁ n₂ : Name)
    → p₁ < length c.sorted_hashes
    → p₂ < length c.sorted_hashes
    → name_at c p₁ ≡ ret n₁
    → name_at c p₂ ≡ ret n₂
    → same_name n₁ n₂ ≡ false
    → IsOther c a n₁ ⊎ IsOther c a n₂
one_of c a p₁ p₂ n₁ n₂ h₁ h₂ e₁ e₂ d = elim (Bool-cases (same_name n₁ a)) [
  | inr k ↦ inl (record { other = k; place = p₁; inside = h₁; found = e₁ })
  | inl k ↦ elim (Bool-cases (same_name n₂ a)) [
    | inr l ↦ inr (record { other = l; place = p₂; inside = h₂; found = e₂ })
    | inl l ↦ let same = same_name_both n₁ n₂ a k l in absurd (ground arith)
  ]
]

two_loop_lem :
    (c : ConsistentHash) (a n : Name) (start : ℕ)
    → start < length c.sorted_hashes
    → name_at c start ≡ ret a
    → IsOther c a n
    → Returns (IsOther c a) (two_loop (length c.sorted_hashes + 1) c a start (start + 1) [])
two_loop_lem c a n start h e o =
    let d = elsewhere c a a n start o.place e (same_name_refl a) o.found o.other in
    let inside = o.inside in
    elim (Bool-cases (ltb start o.place)) [
      | inl k ↦
          forward c a start o.place n o.inside o.found o.other (length c.sorted_hashes + 1)
            (start + 1) [] (ground arith) (inl (omega arith)) (omega arith)
      | inr k ↦
          wrapped c a start o.place n o.inside o.found o.other (length c.sorted_hashes + 1)
            (start + 1) [] (omega arith) (omega arith) (ground arith) (ground arith)
    ]

-- On a valid ring with two names on it and more hosts than one GetTwo returns what Get returns, and
-- another name of the ring.
pub get_two_lem :
    (c : ConsistentHash) (name : List ℕ) (p₁ p₂ : ℕ) (n₁ n₂ : Name)
    → IsValid c
    → (length c.load_map == 1) ≡ false
    → p₁ < length c.sorted_hashes
    → p₂ < length c.sorted_hashes
    → name_at c p₁ ≡ ret n₁
    → name_at c p₂ ≡ ret n₂
    → same_name n₁ n₂ ≡ false
    → 0 < length c.circle
    → (a b : Name) × (get_two c name ≡ ret (some (a, b)))
      × (get c name ≡ ret (some a))
      × IsOther c a b
unfolding get_two get
get_two_lem c name p₁ p₂ n₁ n₂ v many h₁ h₂ e₁ e₂ d nonnil =
    let key = hash_of c name in
    let some_host : (length c.circle == 0) ≡ false = ground arith in
    let ascending = IsOrdered-IsAscending c.sorted_hashes v.ordered in
    let (idx, e, p) =
      Returns-cases (IsPlace c.sorted_hashes key) (search c key)
        (search_lem c key ascending (nonempty c v nonnil)) in
    let (a, q, owner) = name_at-IsOwner c key idx v p in
    let loop : Returns (IsOther c a) (two_loop (length c.sorted_hashes + 1) c a idx (idx + 1) []) =
      elim (one_of c a p₁ p₂ n₁ n₂ h₁ h₂ e₁ e₂ d) [
        | inl o ↦ two_loop_lem c a n₁ idx p.inside q o
        | inr o ↦ two_loop_lem c a n₂ idx p.inside q o
      ] in
    let (b, r, o) =
      Returns-cases (IsOther c a) (two_loop (length c.sorted_hashes + 1) c a idx (idx + 1) [])
        loop in
    (
      a,
      b,
      rw (some_host, hash-ret c name v.sized.buckets, e, q, many, r) refl,
      rw (some_host, hash-ret c name v.sized.buckets, e, q) refl,
      o,
    )
