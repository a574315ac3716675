-- ===== src/XorList/Move.antt =====
-- The moves of an element within its list.
use goext.Prelude.{
  ℕ, List, [], ◌∷◌, ◌++◌, append_assoc, append-nil, ◌≡◌, refl, sym, ap, ◌∙◌, arith, true, false,
  ◌==◌, mem, mem-middle, IsUnique-out, IsUnique, subst, ret, Bool-cases, inl, inr,
}
use goext.XorList.{
  Store, XorList, insert, remove, move_to_front, move_to_back, move_before, move_after, take_out,
}
use goext.XorList.Links.{first, last, last-append}
use goext.XorList.State.{IsList, whole}
use goext.XorList.Insert.{IsMade, IsMade-trans, whole-same, insert_at, remove_at}
use goext.XorList.Walk.{
  list-IsUnique, before, before-absent, find_prev-eq, find_prev-present, next_or_tail-present,
}
use goext.XorList.Mirror.{find_next-present}
use goext.XorList.Access.{head_lem, tail_lem, mem-whole, whole-end, first_nonnil}
use goext.XorList.Change.{prev_nonnil}

-- An element may stand at another place of the same list.
whole-moved :
    (j : ℕ) (l : XorList) (e : ℕ) (ys zs us vs : List ℕ)
    → us ++ vs ≡ ys ++ zs
    → mem j (whole l (ys ++ e ∷ zs)) ≡ false
    → mem j (whole l (us ++ e ∷ vs)) ≡ false
whole-moved j l e ys zs us vs q m =
    let a = mem-whole j l (ys ++ e ∷ zs) in
    let b = mem-whole j l (us ++ e ∷ vs) in
    let c = mem-middle j e ys zs in
    let d = mem-middle j e us vs in let f = ap (mem j) q in ground arith

before_nonnil :
    (e h : ℕ) (r ys : List ℕ)
    → mem e r ≡ true
    → mem 0 (h ∷ (r ++ ys)) ≡ false
    → (before e h r == 0) ≡ false
before_nonnil e h [] ys m z = absurd (ground arith)
before_nonnil e h (d ∷ r) ys m z = elim (Bool-cases (d == e)) [
  | inl here ↦ rw here (ground arith)
  | inr there ↦ rw there (before_nonnil e d r ys (ground arith) (ground arith))
]

-- Another element of the list.
mark_lem :
    (l : XorList) (ys : List ℕ) (e : ℕ) (zs us : List ℕ) (mark : ℕ) (vs : List ℕ)
    → us ++ mark ∷ vs ≡ ys ++ zs
    → IsUnique (whole l (ys ++ e ∷ zs))
    → (mem mark (ys ++ e ∷ zs) ≡ true) × ((e == mark) ≡ false)
mark_lem l ys e zs us mark vs q u =
    let (fresh, v) = IsUnique-out ys e zs (list-IsUnique l (ys ++ e ∷ zs) u) in
    let a = mem-middle mark e ys zs in
    let b = sym (ap (mem mark) q) ∙ mem-middle mark mark us vs in
    let same : (mark == mark) ≡ true = ground arith in
    let there : mem mark (ys ++ zs) ≡ true = ground arith in
    (
      ground arith,
      elim (Bool-cases (e == mark)) [
        | inl eq ↦
            let one : e ≡ mark = ground arith in
            let clash = sym fresh ∙ ap (λ t. mem t (ys ++ zs)) one ∙ there in absurd (cc)
        | inr ne ↦ ne
      ],
    )

module _ {V : Type 0} where
  -- Out of one place and into another.
  moved_at :
      (s : Store V) (l : XorList) (ys : List ℕ) (e : ℕ) (zs us vs : List ℕ)
      → us ++ vs ≡ ys ++ zs
      → IsList s l (ys ++ e ∷ zs)
      → (s' : Store V) × (l' : XorList) × (s'' : Store V) × (l'' : XorList) × (remove s l e
            (last l.head ys)
            (first zs l.tail)
          ≡ ret (s', l'))
        × IsMade s s' l l' (ys ++ e ∷ zs) (ys ++ zs)
        × (insert s' l' e (last l'.head us) (first vs l'.tail) ≡ ret (s'', l''))
        × IsMade s s'' l l'' (ys ++ e ∷ zs) (us ++ e ∷ vs)
  moved_at s l ys e zs us vs q i =
      let (s', l', r, made, fresh, n) = remove_at s l ys zs e i in
      let fresh' =
        ap (λ t. mem e (whole l' t)) q
        ∙ ap (mem e) (whole-same l l' (ys ++ zs) made.head made.tail)
        ∙ fresh in
      let (s'', l'', r', made') =
        insert_at s' l' us vs e n fresh' (subst (IsList s' l') (sym q) made.list) in
      (
        s',
        l',
        s'',
        l'',
        r,
        made,
        r',
        IsMade-trans s s' s'' l l' l'' (ys ++ e ∷ zs) (us ++ e ∷ vs) (ys ++ e ∷ zs) (ys ++ zs)
            (us ++ e ∷ vs) (λ j o. (o, whole-moved j l e ys zs us vs q o)) made made',
      )

  -- MoveToFront puts an element of the list first.
  pub move_to_front_lem :
      (s : Store V) (l : XorList) (ys : List ℕ) (e : ℕ) (zs : List ℕ)
      → (e == 0) ≡ false
      → IsList s l (ys ++ e ∷ zs)
      → (s' : Store V) × (l' : XorList) × (move_to_front s l e ≡ ret (s', l'))
        × IsMade s s' l l' (ys ++ e ∷ zs) (e ∷ (ys ++ zs))
  unfolding move_to_front
  move_to_front_lem s l ys e zs n i =
      let (s₁, l₁, s', l', r, m, r', made) = moved_at s l ys e zs [] (ys ++ zs) refl i in
      (
        s',
        l',
        rw
            (
              find_prev-present s l ys e zs n i,
              prev_nonnil s l ys e zs i,
              next_or_tail-present s l ys e zs i,
              r,
              head_lem s₁ l₁ (ys ++ zs) m.list,
            )
            r',
        made,
      )

  -- MoveToBack puts an element of the list last.
  pub move_to_back_lem :
      (s : Store V) (l : XorList) (ys : List ℕ) (e : ℕ) (zs : List ℕ)
      → (e == 0) ≡ false
      → IsList s l (ys ++ e ∷ zs)
      → (s' : Store V) × (l' : XorList) × (move_to_back s l e ≡ ret (s', l'))
        × IsMade s s' l l' (ys ++ e ∷ zs) ((ys ++ zs) ++ e ∷ [])
  unfolding move_to_back
  move_to_back_lem s l ys e zs n i =
      let (s₁, l₁, s', l', r, m, r', made) =
        moved_at s l ys e zs (ys ++ zs) [] (append-nil (ys ++ zs)) i in
      (
        s',
        l',
        rw
            (
              find_prev-present s l ys e zs n i,
              prev_nonnil s l ys e zs i,
              next_or_tail-present s l ys e zs i,
              r,
              tail_lem s₁ l₁ (ys ++ zs) m.list,
            )
            r',
        made,
      )

  -- What the moves next to a mark do first.
  take_out_lem :
      (s : Store V) (l : XorList) (ys : List ℕ) (e : ℕ) (zs : List ℕ) (mark : ℕ) (s' : Store V)
      (l' : XorList)
      → (e == 0) ≡ false
      → (mark == 0) ≡ false
      → mem mark (ys ++ e ∷ zs) ≡ true
      → remove s l e (last l.head ys) (first zs l.tail) ≡ ret (s', l')
      → IsList s l (ys ++ e ∷ zs)
      → take_out s l e mark ≡ ret (true, s', l')
  unfolding take_out
  take_out_lem s l ys e zs mark s' l' n k m r i =
      let there = before_nonnil mark l.head (ys ++ e ∷ zs) (l.tail ∷ []) m i.not_nil in
      rw
        (
          find_prev-eq s l (ys ++ e ∷ zs) mark k i,
          there,
          find_prev-present s l ys e zs n i,
          prev_nonnil s l ys e zs i,
          next_or_tail-present s l ys e zs i,
          r,
        )
        refl

  -- MoveBefore of an element of the list and another one puts the one before the other.
  pub move_before_lem :
      (s : Store V) (l : XorList) (ys : List ℕ) (e : ℕ) (zs us : List ℕ) (mark : ℕ) (vs : List ℕ)
      → (e == 0) ≡ false
      → (mark == 0) ≡ false
      → us ++ mark ∷ vs ≡ ys ++ zs
      → IsList s l (ys ++ e ∷ zs)
      → (s' : Store V) × (l' : XorList) × (move_before s l e mark ≡ ret (s', l'))
        × IsMade s s' l l' (ys ++ e ∷ zs) (us ++ e ∷ mark ∷ vs)
  unfolding move_before
  move_before_lem s l ys e zs us mark vs n k q i =
      let (s₁, l₁, s', l', r, m, r', made) = moved_at s l ys e zs us (mark ∷ vs) q i in
      let list : IsList s₁ l₁ (us ++ mark ∷ vs) = subst (IsList s₁ l₁) (sym q) m.list in
      let (there, other) = mark_lem l ys e zs us mark vs q i.apart in
      (
        s',
        l',
        rw
            (
              n,
              k,
              other,
              take_out_lem s l ys e zs mark s₁ l₁ n k there r i,
              find_prev-present s₁ l₁ us mark vs k list,
              prev_nonnil s₁ l₁ us mark vs list,
            )
            r',
        made,
      )

  -- MoveAfter of an element of the list and another one puts the one behind the other.
  pub move_after_lem :
      (s : Store V) (l : XorList) (ys : List ℕ) (e : ℕ) (zs us : List ℕ) (mark : ℕ) (vs : List ℕ)
      → (e == 0) ≡ false
      → (mark == 0) ≡ false
      → us ++ mark ∷ vs ≡ ys ++ zs
      → IsList s l (ys ++ e ∷ zs)
      → (s' : Store V) × (l' : XorList) × (move_after s l e mark ≡ ret (s', l'))
        × IsMade s s' l l' (ys ++ e ∷ zs) (us ++ mark ∷ e ∷ vs)
  unfolding move_after
  move_after_lem s l ys e zs us mark vs n k q i =
      let ws = us ++ mark ∷ [] in
      let a : ws ++ vs ≡ us ++ mark ∷ vs = append_assoc us (mark ∷ []) vs in
      let a' : ws ++ e ∷ vs ≡ us ++ mark ∷ e ∷ vs = append_assoc us (mark ∷ []) (e ∷ vs) in
      let (s₁, l₁, s', l', r, m, r', made) = moved_at s l ys e zs ws vs (a ∙ q) i in
      let list : IsList s₁ l₁ (us ++ mark ∷ vs) = subst (IsList s₁ l₁) (sym q) m.list in
      let (there, other) = mark_lem l ys e zs us mark vs q i.apart in
      let next_there =
        first_nonnil l₁ vs (whole-end 0 l₁ ws vs (ap (λ t. mem 0 (whole l₁ t)) a ∙ list.not_nil)) in
      let mark_last : last l₁.head ws ≡ mark = last-append l₁.head us (mark ∷ []) in
      let r'' = ap (λ t. insert s₁ l₁ e t (first vs l₁.tail)) (sym mark_last) ∙ r' in
      (
        s',
        l',
        rw
            (
              n,
              k,
              other,
              take_out_lem s l ys e zs mark s₁ l₁ n k there r i,
              find_next-present s₁ l₁ us mark vs k list,
              next_there,
            )
            r'',
        subst (λ x. IsMade s s' l l' (ys ++ e ∷ zs) x) a' made,
      )

  -- The four moves of an element that is not in the list leave everything as it is.
  pub move-absent :
      (s : Store V) (l : XorList) (xs : List ℕ) (e mark : ℕ)
      → (e == 0) ≡ false
      → (mark == 0) ≡ false
      → mem e xs ≡ false
      → IsList s l xs
      → (move_to_front s l e ≡ ret (s, l))
        × (move_to_back s l e ≡ ret (s, l))
        × (move_before s l e mark ≡ ret (s, l))
        × (move_after s l e mark ≡ ret (s, l))
  unfolding move_to_front move_to_back move_before move_after take_out
  move-absent s l xs e mark n k m i =
      let p = find_prev-eq s l xs e n i in
      let q = before-absent e l.head xs m in
      let r = find_prev-eq s l xs mark k i in
      let at = before mark l.head xs in
      (
        rw (p, q) refl,
        rw (p, q) refl,
        rw (n, k, r)
            (elim (Bool-cases (e == mark)) [
              | inl same ↦ rw same refl
              | inr other ↦
                  rw other
                    (elim (Bool-cases (at == 0)) [ inl z ↦ rw z refl | inr z ↦ rw (z, p, q) refl ])
            ]),
        rw (n, k, r)
            (elim (Bool-cases (e == mark)) [
              | inl same ↦ rw same refl
              | inr other ↦
                  rw other
                    (elim (Bool-cases (at == 0)) [ inl z ↦ rw z refl | inr z ↦ rw (z, p, q) refl ])
            ]),
      )
