-- ===== src/XorList/Visit.antt =====
-- Front, Back, and the loops by Next and Prev over a list, from both results of Front and of Back.
use goext.Prelude.{
  ℕ, zero, suc, ◌+◌, ◌<◌, List, [], ◌∷◌, ◌++◌, append_assoc, ◌≡◌, refl, sym, ap, ◌∙◌, arith, true,
  false, ◌==◌, if◌then◌else◌, mem-middle, length, subst,
}
use goext.XorList.{Store, XorList, front, back, elem_next, elem_prev}
use goext.XorList.Links.{first, last, last-append}
use goext.XorList.State.{IsList}
use goext.XorList.Walk.{elem_next-present, elem_prev-eq-elem_next}
use goext.XorList.Mirror.{rev, flip, flip-IsList}
use goext.XorList.Access.{head_lem, mem-whole}

-- `for e, p := l.Front(); e != nil; p, e = e, e.Next(p)`, as Output has it, on fuel: the elements,
-- from `e` on.
unfoldable pub visit : {V : Type 0} → ℕ → Store V → ℕ → ℕ → List ℕ
visit zero s p e = []
visit (suc fuel) s p e =
    let rest = visit fuel s e (elem_next s e p) in if e == 0 then [] else e ∷ rest

-- `for e, n := l.Back(); e != nil; n, e = e, e.Prev(n)`
unfoldable pub visit_back : {V : Type 0} → ℕ → Store V → ℕ → ℕ → List ℕ
visit_back zero s n e = []
visit_back (suc fuel) s n e =
    let rest = visit_back fuel s e (elem_prev s e n) in if e == 0 then [] else e ∷ rest

abbrev pub elements : {V : Type 0} → Store V → XorList → List ℕ
elements s l = let (e, p) = front s l in visit (l.len + 1) s p e

abbrev pub elements_back : {V : Type 0} → Store V → XorList → List ℕ
elements_back s l = let (e, n) = back s l in visit_back (l.len + 1) s n e

module _ {V : Type 0} where
  elem_nonnil :
      (s : Store V) (l : XorList) (ys : List ℕ) (e : ℕ) (zs : List ℕ)
      → IsList s l (ys ++ e ∷ zs)
      → (e == 0) ≡ false
  elem_nonnil s l ys e zs i =
      let a = mem-whole 0 l (ys ++ e ∷ zs) in
      let b = mem-middle 0 e ys zs in ground (arith, i.not_nil)

  visit-suffix :
      (fuel : ℕ) (s : Store V) (l : XorList) (ys zs : List ℕ)
      → length zs < fuel
      → IsList s l (ys ++ zs)
      → visit fuel s (last l.head ys) (first zs 0) ≡ zs
  unfolding visit
  visit-suffix zero s l ys zs f i = absurd (omega arith)
  visit-suffix (suc fuel) s l ys [] f i = refl
  visit-suffix (suc fuel) s l ys (e ∷ zs) f i =
      let n : (e == 0) ≡ false = elem_nonnil s l ys e zs i in
      let a : (ys ++ e ∷ []) ++ zs ≡ ys ++ e ∷ zs = append_assoc ys (e ∷ []) zs in
      let at : last l.head (ys ++ e ∷ []) ≡ e = last-append l.head ys (e ∷ []) in
      let later =
        visit-suffix fuel s l (ys ++ e ∷ []) zs (omega arith) (subst (IsList s l) (sym a) i) in
      rw (n, elem_next-present s l ys e zs i)
        (ap (◌∷◌ e) (ap (λ t. visit fuel s t (first zs 0)) (sym at) ∙ later))

  visit_back-eq-visit :
      (fuel : ℕ) (s : Store V) (n e : ℕ) → visit_back fuel s n e ≡ visit fuel s n e
  unfolding visit visit_back
  visit_back-eq-visit zero s n e = refl
  visit_back-eq-visit (suc fuel) s n e =
      rw (elem_prev-eq-elem_next s e n)
        (ap (λ t. if e == 0 then [] else e ∷ t) (visit_back-eq-visit fuel s e (elem_next s e n)))

  visit-nil : (fuel : ℕ) (s : Store V) (p : ℕ) → visit fuel s p 0 ≡ []
  unfolding visit
  visit-nil zero s p = refl
  visit-nil (suc fuel) s p = refl

  elements-eq : (s : Store V) (l : XorList) (xs : List ℕ) → IsList s l xs → elements s l ≡ xs
  unfolding front visit
  elements-eq s l [] i =
      let e : (l.len == 0) ≡ true = ground (arith, i.counted) in rw e (visit-nil (l.len + 1) s 0)
  elements-eq s l (x ∷ xs) i =
      let e : (l.len == 0) ≡ false = ground (arith, i.counted) in
      rw (e, head_lem s l (x ∷ xs) i)
        (visit-suffix (l.len + 1) s l [] (x ∷ xs) (omega (arith, i.counted)) i)

  elements_back-eq : (s : Store V) (l : XorList) → elements_back s l ≡ elements s (flip l)
  unfolding front back
  elements_back-eq s l = visit_back-eq-visit (l.len + 1) s (back s l).1 (back s l).0

  -- The loop from Front by Next sees the elements in order, and the loop from Back by Prev sees
  -- them in the opposite order.
  pub visits_lem :
      (s : Store V) (l : XorList) (xs : List ℕ)
      → IsList s l xs
      → (elements s l ≡ xs) × (elements_back s l ≡ rev xs)
  unfolding front back
  visits_lem s l xs i = (
    elements-eq s l xs i,
    elements_back-eq s l ∙ elements-eq s (flip l) (rev xs) (flip-IsList s l xs i),
  )
