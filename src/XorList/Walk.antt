-- ===== src/XorList/Walk.antt =====
-- Next, Prev and the loops of XorList.prev and XorList.next.
use goext.Prelude.{
  ℕ, zero, suc, ◌+◌, ◌<◌, List, [], ◌∷◌, ◌++◌, ◌≡◌, refl, sym, ap, ◌∙◌, arith, true, false, ◌==◌,
  if◌then◌else◌, mem, mem-append, IsUnique, length, ret, Bool-cases, inl, inr, IsUnique-out,
  mem_parts,
}
use goext.Prelude.Xor.{bit_xor, bit_xor_cancel, bit_xor_self, bit_xor-eq_zero, bit_xor-zero}
use goext.XorList.{Store, XorList, elem_next, elem_prev, prev_loop, find_prev, next_or_tail}
use goext.XorList.Links.{first, last, Links}
use goext.XorList.State.{IsList, whole}

differ_lem : (x y : ℕ) → ((x ≡ y) → ⊥) → (x == y) ≡ false
differ_lem x y h = elim (Bool-cases (x == y)) [ inl e ↦ absurd (h (ground arith)) | inr e ↦ e ]

ne_of_eqb : (x y : ℕ) → (x == y) ≡ false → (x ≡ y) → ⊥
ne_of_eqb x y h e = ground arith

first-ne-zero :
    (r : List ℕ) (t : ℕ) → mem 0 (r ++ t ∷ []) ≡ false → (first (r ++ t ∷ []) 0 == 0) ≡ false
first-ne-zero [] t h = ground arith
first-ne-zero (x ∷ r) t h = ground arith

-- Of the elements `r` behind `p`, the one before `e`; 0 if `e` is none of them.
abbrev pub before : ℕ → ℕ → List ℕ → ℕ
before e p [] = 0
before e p (d ∷ r) = let later = before e d r in if d == e then p else later

not_last : (d : ℕ) (r : List ℕ) (t : ℕ) → IsUnique (d ∷ (r ++ t ∷ [])) → (d == t) ≡ false
not_last d r t u = let e = mem-append d r (t ∷ []) in ground (arith, u.0)

pub before-absent : (e p : ℕ) (r : List ℕ) → mem e r ≡ false → before e p r ≡ 0
before-absent e p [] h = refl
before-absent e p (d ∷ r) h =
    let other : (d == e) ≡ false = ground arith in rw other (before-absent e d r (ground arith))

pub before-present :
    (e p : ℕ) (ys zs : List ℕ) → mem e ys ≡ false → before e p (ys ++ e ∷ zs) ≡ last p ys
before-present e p [] zs h = let same : (e == e) ≡ true = ground arith in rw same refl
before-present e p (d ∷ ys) zs h =
    let other : (d == e) ≡ false = ground arith in
    rw other (before-present e d ys zs (ground arith))

IsUnique-front : (xs ys : List ℕ) → IsUnique (xs ++ ys) → IsUnique xs
IsUnique-front [] ys u = tt
IsUnique-front (x ∷ xs) ys u = let (a, b) = mem_parts x xs ys u.0 in (a, IsUnique-front xs ys u.1)

pub list-IsUnique : (l : XorList) (xs : List ℕ) → IsUnique (whole l xs) → IsUnique xs
list-IsUnique l xs u = IsUnique-front xs (l.tail ∷ []) u.1

module _ {V : Type 0} where
  -- Next from `c`, with `p` before and `d` after it, and `m` after `d`.
  pub elem_next_lem :
      (s : Store V) (p c d m : ℕ)
      → s.pn c ≡ bit_xor p d
      → s.pn d ≡ bit_xor c m
      → (c == 0) ≡ false
      → (d == 0) ≡ false
      → (p == d) ≡ false
      → elem_next s c p ≡ (if m == 0 then 0 else d)
  unfolding elem_next
  elem_next_lem s p c d m hc hd cn dn pd =
      let there : bit_xor p (s.pn c) ≡ d = ap (bit_xor p) hc ∙ bit_xor_cancel p d in
      let some_pn : (s.pn c == 0) ≡ false =
        differ_lem (s.pn c) 0 (λ z. ne_of_eqb p d pd (bit_xor-eq_zero p d (sym hc ∙ z))) in
      rw (there, cn, some_pn, dn)
        (elim (Bool-cases (m == 0)) [
          | inl z ↦
              let last_one : s.pn d ≡ c = hd ∙ ap (bit_xor c) (ground arith) ∙ bit_xor-zero c in
              let same : (s.pn d == c) ≡ true = ground arith in rw (z, same) refl
          | inr z ↦
              let other : (s.pn d == c) ≡ false = differ_lem (s.pn d) c (λ e.
                ne_of_eqb m 0 z
                  (sym (bit_xor_cancel c m) ∙ ap (bit_xor c) (sym hd ∙ e) ∙ bit_xor_self c)) in
              rw (z, other) refl
        ])

  -- Both directions go by the same code.
  pub elem_prev-eq-elem_next : (s : Store V) (e n : ℕ) → elem_prev s e n ≡ elem_next s e n
  unfolding elem_prev elem_next
  elem_prev-eq-elem_next s e n = refl

  -- From `p`, which comes after `q`, the elements `r` follow, and then the tail.
  pub record IsSuffix (s : Store V) (tail q p : ℕ) (r : List ℕ) : Type 0 where
    pub links : Links s.pn q (p ∷ (r ++ tail ∷ [])) 0
    pub apart : IsUnique (q ∷ p ∷ (r ++ tail ∷ []))
    pub not_nil : mem 0 (p ∷ (r ++ tail ∷ [])) ≡ false

  pub elem_next-first :
      (s : Store V) (tail q p : ℕ) (r : List ℕ)
      → IsSuffix s tail q p r
      → elem_next s p q ≡ first r 0
  elem_next-first s tail q p [] v =
      elem_next_lem s q p tail 0 v.links.0 v.links.1.0 (ground (arith, v.not_nil))
        (ground (arith, v.not_nil)) (ground (arith, v.apart))
  elem_next-first s tail q p (d ∷ r) v =
      let m = first (r ++ tail ∷ []) 0 in
      let some_more : (m == 0) ≡ false = first-ne-zero r tail (ground (arith, v.not_nil)) in
      elem_next_lem s q p d m v.links.0 v.links.1.0 (ground (arith, v.not_nil))
        (ground (arith, v.not_nil)) (ground (arith, v.apart))
      ∙ rw some_more refl

  IsSuffix-step :
      (s : Store V) (tail q p d : ℕ) (r : List ℕ)
      → IsSuffix s tail q p (d ∷ r)
      → IsSuffix s tail p d r
  IsSuffix-step s tail q p d r v = record {
    links = v.links.1;
    apart = v.apart.1;
    not_nil = ground (arith, v.not_nil);
  }

  prev_loop_lem :
      (fuel : ℕ) (s : Store V) (l : XorList) (e q p : ℕ) (r : List ℕ)
      → (e == 0) ≡ false
      → length r < fuel
      → IsSuffix s l.tail q p r
      → prev_loop fuel s l e p (first r 0) ≡ ret (before e p r)
  unfolding prev_loop
  prev_loop_lem zero s l e q p r n f v = absurd (omega arith)
  prev_loop_lem (suc fuel) s l e q p [] n f v =
      let other : (0 == e) ≡ false = ground arith in rw other refl
  prev_loop_lem (suc fuel) s l e q p (d ∷ r) n f v =
      let dn : (d == 0) ≡ false = ground (arith, v.not_nil) in
      elim (Bool-cases (d == e)) [
        | inl here ↦ rw (dn, here) refl
        | inr there ↦
            let inner : (d == l.tail) ≡ false = not_last d r l.tail v.apart.1.1 in
            rw (dn, there, inner, elem_next-first s l.tail p d r (IsSuffix-step s l.tail q p d r v))
              (prev_loop_lem fuel s l e p d r n (omega arith) (IsSuffix-step s l.tail q p d r v))
      ]

  IsList-IsSuffix :
      (s : Store V) (l : XorList) (xs : List ℕ) → IsList s l xs → IsSuffix s l.tail 0 l.head xs
  IsList-IsSuffix s l xs v = record {
    links = v.links;
    apart = (v.not_nil, v.apart);
    not_nil = v.not_nil;
  }

  -- prev returns the element before, the head before the first one, and nil for what is not there.
  pub find_prev-eq :
      (s : Store V) (l : XorList) (xs : List ℕ) (e : ℕ)
      → (e == 0) ≡ false
      → IsList s l xs
      → find_prev s l e ≡ ret (before e l.head xs)
  unfolding find_prev
  find_prev-eq s l xs e n v =
      let w = IsList-IsSuffix s l xs v in
      rw (elem_next-first s l.tail 0 l.head xs w)
        (prev_loop_lem (l.len + 1) s l e 0 l.head xs n (omega (arith, v.counted)) w)

  IsSuffix-at :
      (s : Store V) (tail q p : ℕ) (ys : List ℕ) (e : ℕ) (zs : List ℕ)
      → IsSuffix s tail q p (ys ++ e ∷ zs)
      → IsSuffix s tail (last p ys) e zs
  IsSuffix-at s tail q p [] e zs v = IsSuffix-step s tail q p e zs v
  IsSuffix-at s tail q p (y ∷ ys) e zs v =
      IsSuffix-at s tail p y ys e zs (IsSuffix-step s tail q p y (ys ++ e ∷ zs) v)

  -- Next from an element of the list, given the one before it: the one after it, or nil.
  pub elem_next-present :
      (s : Store V) (l : XorList) (ys : List ℕ) (e : ℕ) (zs : List ℕ)
      → IsList s l (ys ++ e ∷ zs)
      → elem_next s e (last l.head ys) ≡ first zs 0
  elem_next-present s l ys e zs v =
      elem_next-first s l.tail (last l.head ys) e zs
        (IsSuffix-at s l.tail 0 l.head ys e zs (IsList-IsSuffix s l (ys ++ e ∷ zs) v))

  tail_lem :
      (s : Store V) (l : XorList) (e q : ℕ) (zs : List ℕ)
      → IsSuffix s l.tail q e zs
      → (if first zs 0 == 0 then l.tail else first zs 0) ≡ first zs l.tail
  tail_lem s l e q [] w = refl
  tail_lem s l e q (z ∷ zs) w = let n : (z == 0) ≡ false = ground (arith, w.not_nil) in rw n refl

  pub next_or_tail-present :
      (s : Store V) (l : XorList) (ys : List ℕ) (e : ℕ) (zs : List ℕ)
      → IsList s l (ys ++ e ∷ zs)
      → next_or_tail s l e (last l.head ys) ≡ first zs l.tail
  unfolding next_or_tail
  next_or_tail-present s l ys e zs v =
      let w = IsSuffix-at s l.tail 0 l.head ys e zs (IsList-IsSuffix s l (ys ++ e ∷ zs) v) in
      rw (elem_next-present s l ys e zs v) (tail_lem s l e (last l.head ys) zs w)

  pub find_prev-present :
      (s : Store V) (l : XorList) (ys : List ℕ) (e : ℕ) (zs : List ℕ)
      → (e == 0) ≡ false
      → IsList s l (ys ++ e ∷ zs)
      → find_prev s l e ≡ ret (last l.head ys)
  find_prev-present s l ys e zs n v =
      let (fresh, u) = IsUnique-out ys e zs (list-IsUnique l (ys ++ e ∷ zs) v.apart) in
      find_prev-eq s l (ys ++ e ∷ zs) e n v
      ∙ ap ret (before-present e l.head ys zs (mem_parts e ys zs fresh).0)
