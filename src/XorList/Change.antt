-- ===== src/XorList/Change.antt =====
-- Remove, the pushes and the insertions.
use goext.Prelude.{
  ℕ, List, [], ◌∷◌, ◌++◌, append_assoc, append-nil, ◌≡◌, refl, sym, ap, ◌∙◌, false, ◌==◌,
  if◌then◌else◌, mem, subst, ret,
}
use goext.XorList.{
  Store, XorList, alloc, insert_value, remove_elem, push_front, push_back, insert_before,
  insert_after,
}
use goext.XorList.Links.{first, last, last-append}
use goext.XorList.State.{IsList, whole}
use goext.XorList.Insert.{IsMade, IsMade-trans, whole-same, insert_at, remove_at}
use goext.XorList.Walk.{before-absent, find_prev-eq, find_prev-present, next_or_tail-present}
use goext.XorList.Mirror.{find_next-present, find_next-absent}
use goext.XorList.Access.{
  IsNew, IsReady, IsNew-same, alloc-IsList, head_lem, tail_lem, last_nonnil, lazy_init-IsMade,
  whole-less, whole-end, first_nonnil,
}

module _ {V : Type 0} where
  -- The element before one of the list's is not nil.
  pub prev_nonnil :
      (s : Store V) (l : XorList) (ys : List ℕ) (e : ℕ) (zs : List ℕ)
      → IsList s l (ys ++ e ∷ zs)
      → (last l.head ys == 0) ≡ false
  prev_nonnil s l ys e zs i =
      last_nonnil l.head ys (e ∷ zs ++ l.tail ∷ [])
        (ap (λ t. mem 0 (l.head ∷ t)) (sym (append_assoc ys (e ∷ zs) (l.tail ∷ []))) ∙ i.not_nil)

  -- Remove of an element returns its value and leaves the list without it.
  pub remove_elem_lem :
      (s : Store V) (l : XorList) (ys : List ℕ) (e : ℕ) (zs : List ℕ)
      → (e == 0) ≡ false
      → IsList s l (ys ++ e ∷ zs)
      → (s' : Store V) × (l' : XorList) × (remove_elem s l e ≡ ret (s.value e, s', l'))
        × IsMade s s' l l' (ys ++ e ∷ zs) (ys ++ zs)
  unfolding remove_elem
  remove_elem_lem s l ys e zs n i =
      let (s', l', q, made, fresh, en) = remove_at s l ys zs e i in
      (
        s',
        l',
        rw
            (
              find_prev-present s l ys e zs n i,
              prev_nonnil s l ys e zs i,
              next_or_tail-present s l ys e zs i,
              q,
              n,
            )
            (ap (λ f. ret (f e, s', l')) made.values),
        made,
      )

  -- Remove of an element that is not in the list returns its value and changes nothing.
  pub remove_elem-absent :
      (s : Store V) (l : XorList) (xs : List ℕ) (e : ℕ)
      → (e == 0) ≡ false
      → mem e xs ≡ false
      → IsList s l xs
      → remove_elem s l e ≡ ret (s.value e, s, l)
  unfolding remove_elem
  remove_elem-absent s l xs e n m i =
      rw (find_prev-eq s l xs e n i, before-absent e l.head xs m, n) refl

  -- The new element between the neighbours at a place.
  insert_value_at :
      (s : Store V) (l : XorList) (ys zs : List ℕ) (a : ℕ) (v : V)
      → IsNew l (ys ++ zs) a
      → IsList s l (ys ++ zs)
      → (s' : Store V) × (l' : XorList) × (insert_value s l a v (last l.head ys) (first zs l.tail)
          ≡ ret (s', l'))
        × IsMade (alloc s a v) s' l l' (ys ++ a ∷ zs) (ys ++ a ∷ zs)
  unfolding insert_value
  insert_value_at s l ys zs a v n i =
      insert_at (alloc s a v) l ys zs a n.not_nil n.fresh
        (alloc-IsList s l (ys ++ zs) a v n.fresh i)

  alloc-IsMade :
      (s s' : Store V) (l l' : XorList) (xs : List ℕ) (a : ℕ) (v : V)
      → IsNew l xs a
      → IsMade s s' l l' xs xs
      → IsMade (alloc s a v) (alloc s' a v) l l' xs xs
  unfolding alloc
  alloc-IsMade s s' l l' xs a v n m = record {
    list =
        alloc-IsList s' l' xs a v (ap (mem a) (whole-same l l' xs m.head m.tail) ∙ n.fresh) m.list;
    head = m.head;
    tail = m.tail;
    values = ap (λ f b. if b == a then v else f b) m.values;
    others = λ j o. ap (λ x. if j == a then 0 else x) (m.others j o);
  }

  -- PushFront puts the new element first.
  pub push_front-IsMade :
      (s : Store V) (l : XorList) (xs : List ℕ) (a : ℕ) (v : V)
      → IsNew l xs a
      → IsReady s l xs
      → (s' : Store V) × (l' : XorList) × (push_front s l a v ≡ ret (s', l'))
        × IsMade (alloc s a v) s' l l' (a ∷ xs) (a ∷ xs)
  unfolding push_front
  push_front-IsMade s l xs a v n i =
      let (s₁, l₁, e, m) = lazy_init-IsMade s l xs i in
      let n₁ = IsNew-same l l₁ xs a m.head m.tail n in
      let (s', l', q, made) = insert_value_at s₁ l₁ [] xs a v n₁ m.list in
      (
        s',
        l',
        rw (e, head_lem s₁ l₁ xs m.list) q,
        IsMade-trans (alloc s a v) (alloc s₁ a v) s' l l₁ l' xs (a ∷ xs) (a ∷ xs) xs (a ∷ xs)
            (λ j o. (whole-less j l [] a xs o, o)) (alloc-IsMade s s₁ l l₁ xs a v n m) made,
      )

  -- PushBack of a value at a new address, to a list or to a list's zero value, puts the new element
  -- last and leaves the rest of the memory alone.
  pub push_back-IsMade :
      (s : Store V) (l : XorList) (xs : List ℕ) (a : ℕ) (v : V)
      → IsNew l xs a
      → IsReady s l xs
      → (s' : Store V) × (l' : XorList) × (push_back s l a v ≡ ret (s', l'))
        × IsMade (alloc s a v) s' l l' (xs ++ a ∷ []) (xs ++ a ∷ [])
  unfolding push_back
  push_back-IsMade s l xs a v n i =
      let (s₁, l₁, e, m) = lazy_init-IsMade s l xs i in
      let n₁ = IsNew-same l l₁ xs a m.head m.tail n in
      let end : xs ++ [] ≡ xs = append-nil xs in
      let (s', l', q, made) =
        insert_value_at s₁ l₁ xs [] a v (subst (λ x. IsNew l₁ x a) (sym end) n₁)
          (subst (IsList s₁ l₁) (sym end) m.list) in
      (
        s',
        l',
        rw (e, tail_lem s₁ l₁ xs m.list) q,
        IsMade-trans (alloc s a v) (alloc s₁ a v) s' l l₁ l' xs (xs ++ a ∷ []) (xs ++ a ∷ []) xs
            (xs ++ a ∷ [])
            (λ j o. (ap (λ t. mem j (whole l t)) (sym end) ∙ whole-less j l xs a [] o, o))
            (alloc-IsMade s s₁ l l₁ xs a v n m) made,
      )

  -- InsertBefore a mark of the list, at a new address, puts the new element before it, and returns it.
  pub insert_before_lem :
      (s : Store V) (l : XorList) (ys : List ℕ) (mark : ℕ) (zs : List ℕ) (a : ℕ) (v : V)
      → (mark == 0) ≡ false
      → IsNew l (ys ++ mark ∷ zs) a
      → IsList s l (ys ++ mark ∷ zs)
      → (s' : Store V) × (l' : XorList) × (insert_before s l a v mark ≡ ret (a, s', l'))
        × IsMade (alloc s a v) s' l l' (ys ++ a ∷ mark ∷ zs) (ys ++ a ∷ mark ∷ zs)
  unfolding insert_before
  insert_before_lem s l ys mark zs a v m n i =
      let (s', l', q, made) = insert_value_at s l ys (mark ∷ zs) a v n i in
      (
        s',
        l',
        rw (find_prev-present s l ys mark zs m i, prev_nonnil s l ys mark zs i, q) refl,
        made,
      )

  -- InsertAfter a mark of the list puts the new element behind it, and returns it.
  pub insert_after_lem :
      (s : Store V) (l : XorList) (ys : List ℕ) (mark : ℕ) (zs : List ℕ) (a : ℕ) (v : V)
      → (mark == 0) ≡ false
      → IsNew l (ys ++ mark ∷ zs) a
      → IsList s l (ys ++ mark ∷ zs)
      → (s' : Store V) × (l' : XorList) × (insert_after s l a v mark ≡ ret (a, s', l'))
        × IsMade (alloc s a v) s' l l' (ys ++ mark ∷ a ∷ zs) (ys ++ mark ∷ a ∷ zs)
  unfolding insert_after
  insert_after_lem s l ys mark zs a v m n i =
      let us = ys ++ mark ∷ [] in
      let e : us ++ zs ≡ ys ++ mark ∷ zs = append_assoc ys (mark ∷ []) zs in
      let e' : us ++ a ∷ zs ≡ ys ++ mark ∷ a ∷ zs = append_assoc ys (mark ∷ []) (a ∷ zs) in
      let (s', l', q, made) =
        insert_value_at s l us zs a v (subst (λ x. IsNew l x a) (sym e) n)
          (subst (IsList s l) (sym e) i) in
      let next_there =
        first_nonnil l zs (whole-end 0 l us zs (ap (λ t. mem 0 (whole l t)) e ∙ i.not_nil)) in
      let mark_last : last l.head us ≡ mark = last-append l.head ys (mark ∷ []) in
      let q' = ap (λ t. insert_value s l a v t (first zs l.tail)) (sym mark_last) ∙ q in
      (
        s',
        l',
        rw (find_next-present s l ys mark zs m i, next_there, q') refl,
        subst (λ x. IsMade (alloc s a v) s' l l' x x) e' made,
      )

  -- Both insertions leave the list alone, and return nil, if the mark is not in it.
  pub insert-absent :
      (s : Store V) (l : XorList) (xs : List ℕ) (mark a : ℕ) (v : V)
      → (mark == 0) ≡ false
      → mem mark xs ≡ false
      → IsList s l xs
      → (insert_before s l a v mark ≡ ret (0, s, l)) × (insert_after s l a v mark ≡ ret (0, s, l))
  unfolding insert_before insert_after
  insert-absent s l xs mark a v n m i = (
    rw (find_prev-eq s l xs mark n i, before-absent mark l.head xs m) refl,
    rw (find_next-absent s l xs mark n m i) refl,
  )
