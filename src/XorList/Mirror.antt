-- ===== src/XorList/Mirror.antt =====
-- A list read from its tail: XorList.next is XorList.prev of the list with its ends exchanged.
use goext.Prelude.{
  ℕ, zero, suc, ◌+◌, List, [], ◌∷◌, ◌++◌, append_assoc, append-nil, ◌≡◌, refl, sym, ap, ◌∙◌, arith,
  false, ◌==◌, ◌||◌, if◌then◌else◌, mem, mem-append, IsUnique, IsUnique-in, IsUnique-out, mem_parts,
  length, length-append, subst, ret,
}
use goext.Prelude.Xor.{bit_xor, bit_xor_comm}
use goext.XorList.{Store, XorList, elem_next, elem_prev, prev_loop, find_prev, next_loop, find_next}
use goext.XorList.Links.{first, last, Links, append-Links, first-append, last-append}
use goext.XorList.State.{IsList, whole}
use goext.XorList.Walk.{before, before-present, before-absent, find_prev-eq, list-IsUnique}

abbrev pub rev : List ℕ → List ℕ
rev [] = []
rev (x ∷ xs) = rev xs ++ x ∷ []

rev-append : (xs ys : List ℕ) → rev (xs ++ ys) ≡ rev ys ++ rev xs
rev-append [] ys = sym (append-nil (rev ys))
rev-append (x ∷ xs) ys =
    ap (λ t. t ++ x ∷ []) (rev-append xs ys) ∙ append_assoc (rev ys) (rev xs) (x ∷ [])

length-rev : (xs : List ℕ) → length (rev xs) ≡ length xs
length-rev [] = refl
length-rev (x ∷ xs) = omega (arith, length-append (rev xs) (x ∷ []), length-rev xs)

mem-rev : (j : ℕ) (xs : List ℕ) → mem j (rev xs) ≡ mem j xs
mem-rev j [] = refl
mem-rev j (x ∷ xs) = mem-append j (rev xs) (x ∷ []) ∙ ground (arith, mem-rev j xs)

rev-IsUnique : (xs : List ℕ) → IsUnique xs → IsUnique (rev xs)
rev-IsUnique [] u = tt
rev-IsUnique (x ∷ xs) u =
    IsUnique-in (rev xs) x [] (ap (mem x) (append-nil (rev xs)) ∙ mem-rev x xs ∙ u.0)
      (subst IsUnique (sym (append-nil (rev xs))) (rev-IsUnique xs u.1))

pub first-rev : (p : ℕ) (xs : List ℕ) → first (rev xs) p ≡ last p xs
first-rev p [] = refl
first-rev p (x ∷ xs) = first-append (rev xs) (x ∷ []) p ∙ first-rev x xs

last-rev : (n : ℕ) (xs : List ℕ) → last n (rev xs) ≡ first xs n
last-rev n [] = refl
last-rev n (x ∷ xs) = last-append n (rev xs) (x ∷ [])

Links-rev : (pn : ℕ → ℕ) (p : ℕ) (xs : List ℕ) (n : ℕ) → Links pn p xs n → Links pn n (rev xs) p
Links-rev pn p [] n l = tt
Links-rev pn p (x ∷ xs) n l =
    append-Links pn n (rev xs) (x ∷ []) p (Links-rev pn x xs n l.1)
      (l.0 ∙ bit_xor_comm p (first xs n) ∙ ap (λ t. bit_xor t p) (sym (last-rev n xs)), tt)

abbrev pub flip : XorList → XorList
flip l = record { head = l.tail; tail = l.head; len = l.len }

rev-whole : (l : XorList) (xs : List ℕ) → rev (whole l xs) ≡ whole (flip l) (rev xs)
rev-whole l xs = ap (λ t. t ++ l.head ∷ []) (rev-append xs (l.tail ∷ []))

module _ {V : Type 0} where
  pub flip-IsList :
      (s : Store V) (l : XorList) (xs : List ℕ) → IsList s l xs → IsList s (flip l) (rev xs)
  flip-IsList s l xs v =
      let e = rev-whole l xs in
      record {
        links = subst (λ x. Links s.pn 0 x 0) e (Links-rev s.pn 0 (whole l xs) 0 v.links);
        apart = subst IsUnique e (rev-IsUnique (whole l xs) v.apart);
        not_nil = sym (ap (mem 0) e) ∙ mem-rev 0 (whole l xs) ∙ v.not_nil;
        counted = v.counted ∙ sym (length-rev xs);
      }

  next_loop-eq :
      (fuel : ℕ) (s : Store V) (l : XorList) (e next cur : ℕ)
      → next_loop fuel s l e next cur ≡ prev_loop fuel s (flip l) e next cur
  unfolding next_loop prev_loop elem_prev elem_next
  next_loop-eq zero s l e next cur = refl
  next_loop-eq (suc fuel) s l e next cur =
      ap
        (λ t.
          if cur == 0 || cur == e || cur == l.head then ret (if cur == e then next else 0) else t)
        (next_loop-eq fuel s l e cur (elem_prev s cur next))

  find_next-eq-find_prev :
      (s : Store V) (l : XorList) (e : ℕ) → find_next s l e ≡ find_prev s (flip l) e
  unfolding find_next find_prev elem_prev elem_next
  find_next-eq-find_prev s l e = next_loop-eq (l.len + 1) s l e l.tail (elem_prev s l.tail 0)

  -- next returns the element after, the tail after the last one, and nil for what is not there.
  pub find_next-present :
      (s : Store V) (l : XorList) (ys : List ℕ) (e : ℕ) (zs : List ℕ)
      → (e == 0) ≡ false
      → IsList s l (ys ++ e ∷ zs)
      → find_next s l e ≡ ret (first zs l.tail)
  find_next-present s l ys e zs n v =
      let turned : rev (ys ++ e ∷ zs) ≡ rev zs ++ e ∷ rev ys =
        rev-append ys (e ∷ zs) ∙ append_assoc (rev zs) (e ∷ []) (rev ys) in
      let (fresh, u) = IsUnique-out ys e zs (list-IsUnique l (ys ++ e ∷ zs) v.apart) in
      let (m, k) = mem_parts e ys zs fresh in
      find_next-eq-find_prev s l e
      ∙ find_prev-eq s (flip l) (rev (ys ++ e ∷ zs)) e n (flip-IsList s l (ys ++ e ∷ zs) v)
      ∙ ap (λ t. ret (before e l.tail t)) turned
      ∙ ap ret (before-present e l.tail (rev zs) (rev ys) (mem-rev e zs ∙ k) ∙ last-rev l.tail zs)

  pub find_next-absent :
      (s : Store V) (l : XorList) (xs : List ℕ) (e : ℕ)
      → (e == 0) ≡ false
      → mem e xs ≡ false
      → IsList s l xs
      → find_next s l e ≡ ret 0
  find_next-absent s l xs e n m v =
      find_next-eq-find_prev s l e
      ∙ find_prev-eq s (flip l) (rev xs) e n (flip-IsList s l xs v)
      ∙ ap ret (before-absent e l.tail (rev xs) (mem-rev e xs ∙ m))
