-- ===== src/XorList/Insert.antt =====
-- The private insert and remove on a list that a store holds.
use goext.Prelude.{
  ℕ, ◌+◌, ◌-◌, List, [], ◌∷◌, ◌++◌, ◌≡◌, refl, sym, ap, ◌∙◌, arith, false, ◌==◌, mem, mem-middle,
  IsUnique, IsUnique-out, length-append, subst, ret,
}
use goext.Prelude.Xor.{bit_xor, bit_xor_comm}
use goext.XorList.{Store, XorList, insert, remove, linked, unlinked, write_pn}
use goext.XorList.Links.{first, last, IsRelinked}
use goext.XorList.State.{
  IsList, whole, whole-cut, whole-cut_at, but_last, rest_of, linked_in-IsList, linked_out-IsList,
  IsList-IsWithout,
}

-- Three addresses that are different and not nil.
record AreApart (a b e : ℕ) : Type 0 where
  prev_next : (a == b) ≡ false
  prev_elem : (a == e) ≡ false
  next_elem : (b == e) ≡ false
  prev_nil : (a == 0) ≡ false
  next_nil : (b == 0) ≡ false
  elem_nil : (e == 0) ≡ false

-- The neighbours at a place, and an element that is in the list or new to it.
apart_lem :
    (B : List ℕ) (a b e : ℕ) (R : List ℕ)
    → IsUnique (B ++ a ∷ b ∷ R)
    → mem 0 (B ++ a ∷ b ∷ R) ≡ false
    → mem e (B ++ a ∷ b ∷ R) ≡ false
    → (e == 0) ≡ false
    → AreApart a b e
apart_lem B a b e R u z m n =
    let (ma, v) = IsUnique-out B a (b ∷ R) u in
    let pa = mem-middle a b B R in
    let za = mem-middle 0 a B (b ∷ R) in
    let zb = mem-middle 0 b B R in
    let ea = mem-middle e a B (b ∷ R) in
    let eb = mem-middle e b B R in
    record {
      prev_next = ground arith;
      prev_elem = ground arith;
      next_elem = ground arith;
      prev_nil = ground arith;
      next_nil = ground arith;
      elem_nil = n;
    }

outside_lem :
    (j a b e : ℕ) (B R : List ℕ)
    → mem j (B ++ a ∷ e ∷ b ∷ R) ≡ false
    → ((j == a) ≡ false) × ((j == b) ≡ false) × ((j == e) ≡ false)
outside_lem j a b e B R m =
    let p = mem-middle j a B (e ∷ b ∷ R) in
    let q = mem-middle j e B (b ∷ R) in
    let r = mem-middle j b B R in (ground arith, ground arith, ground arith)

-- What a list is after an operation on it: what it holds, that it is the same list, and what is left
-- alone. `wide` are the elements that take part.
pub record IsMade {V : Type 0} (s s' : Store V) (l l' : XorList) (wide xs : List ℕ) : Type 0 where
  pub list : IsList s' l' xs
  pub head : l'.head ≡ l.head
  pub tail : l'.tail ≡ l.tail
  pub values : s'.value ≡ s.value
  pub others : (j : ℕ) → mem j (whole l wide) ≡ false → s'.pn j ≡ s.pn j

pub whole-same :
    (l l' : XorList) (xs : List ℕ) → l'.head ≡ l.head → l'.tail ≡ l.tail → whole l' xs ≡ whole l xs
whole-same l l' xs h t = ap (λ x. x ∷ (xs ++ l'.tail ∷ [])) h ∙ ap (λ x. l.head ∷ (xs ++ x ∷ [])) t

module _ {V : Type 0} where
  -- One operation after another.
  pub IsMade-trans :
      (s s' s'' : Store V) (l l' l'' : XorList) (us ws wide xs ys : List ℕ)
      → ((j : ℕ)
          → mem j (whole l wide) ≡ false
          → (mem j (whole l us) ≡ false) × (mem j (whole l ws) ≡ false))
      → IsMade s s' l l' us xs
      → IsMade s' s'' l' l'' ws ys
      → IsMade s s'' l l'' wide ys
  IsMade-trans s s' s'' l l' l'' us ws wide xs ys f a b = record {
    list = b.list;
    head = b.head ∙ a.head;
    tail = b.tail ∙ a.tail;
    values = b.values ∙ a.values;
    others = λ j o.
        let (p, q) = f j o in
        b.others j (ap (mem j) (whole-same l l' ws a.head a.tail) ∙ q) ∙ a.others j p;
  }

  linked_lem :
      (s : Store V) (e a b : ℕ)
      → AreApart a b e
      → IsRelinked s.pn (linked s e a b).pn a b e
        × ((linked s e a b).pn e ≡ bit_xor a b)
        × ((linked s e a b).value ≡ s.value)
  unfolding linked write_pn
  linked_lem s e a b d =
      let comm = bit_xor_comm a e in
      (
        record {
          at_prev = ground (arith, d.prev_next, d.prev_elem);
          at_next = ground (arith, comm, d.prev_next, d.next_elem);
          others = λ j p q r. ground arith;
        },
        ground (arith, d.prev_elem, d.next_elem),
        refl,
      )

  unlinked_lem :
      (s : Store V) (e a b : ℕ)
      → AreApart a b e
      → IsRelinked s.pn (unlinked s e a b).pn a b e × ((unlinked s e a b).value ≡ s.value)
  unfolding unlinked write_pn
  unlinked_lem s e a b d =
      let comm = bit_xor_comm b e in
      (
        record {
          at_prev = ground (arith, comm, d.prev_next, d.prev_elem);
          at_next = ground (arith, d.prev_next, d.next_elem);
          others = λ j p q r. ground arith;
        },
        refl,
      )

  -- insert between the neighbours at a place of the list, of an element that is new to it.
  pub insert_at :
      (s : Store V) (l : XorList) (ys zs : List ℕ) (e : ℕ)
      → (e == 0) ≡ false
      → mem e (whole l (ys ++ zs)) ≡ false
      → IsList s l (ys ++ zs)
      → (s' : Store V) × (l' : XorList) × (insert s l e (last l.head ys) (first zs l.tail)
          ≡ ret (s', l'))
        × IsMade s s' l l' (ys ++ e ∷ zs) (ys ++ e ∷ zs)
  unfolding insert
  insert_at s l ys zs e n m v =
      let B = but_last l.head ys in
      let a = last l.head ys in
      let b = first zs l.tail in
      let R = rest_of zs l.tail in
      let cut = whole-cut l ys zs in
      let d =
        apart_lem B a b e R (subst IsUnique cut v.apart) (sym (ap (mem 0) cut) ∙ v.not_nil)
          (sym (ap (mem e) cut) ∙ m) n in
      let (r, q, w) = linked_lem s e a b d in
      (
        linked s e a b,
        record l { len = l.len + 1 },
        rw (d.elem_nil, d.prev_nil, d.next_nil) refl,
        record {
          list =
              linked_in-IsList s (linked s e a b) l (record l { len = l.len + 1 }) ys zs e refl refl
                refl n m r q v;
          head = refl;
          tail = refl;
          values = w;
          others = λ j o.
              let (ja, jb, je) =
                outside_lem j a b e B R (sym (ap (mem j) (whole-cut_at l ys e zs)) ∙ o) in
              r.others j ja jb je;
        },
      )

  -- remove of an element of the list, between its neighbours.
  pub remove_at :
      (s : Store V) (l : XorList) (ys zs : List ℕ) (e : ℕ)
      → IsList s l (ys ++ e ∷ zs)
      → (s' : Store V) × (l' : XorList) × (remove s l e (last l.head ys) (first zs l.tail)
          ≡ ret (s', l'))
        × IsMade s s' l l' (ys ++ e ∷ zs) (ys ++ zs)
        × (mem e (whole l (ys ++ zs)) ≡ false)
        × ((e == 0) ≡ false)
  unfolding remove
  remove_at s l ys zs e v =
      let B = but_last l.head ys in
      let a = last l.head ys in
      let b = first zs l.tail in
      let R = rest_of zs l.tail in
      let o = IsList-IsWithout s l ys zs e v in
      let d = apart_lem B a b e R o.apart o.not_nil o.fresh o.elem_nil in
      let (r, w) = unlinked_lem s e a b d in
      let l' : XorList = record l { len = l.len - 1 } in
      let less : l.len ≡ l.len - 1 + 1 = omega (arith, v.counted, length-append ys (e ∷ zs)) in
      let (list, fresh, n) =
        linked_out-IsList s (unlinked s e a b) l l' ys zs e refl refl less r v in
      (
        unlinked s e a b,
        l',
        rw (d.elem_nil, d.prev_nil, d.next_nil) refl,
        record {
          list = list;
          head = refl;
          tail = refl;
          values = w;
          others = λ j o.
              let (ja, jb, je) =
                outside_lem j a b e B R (sym (ap (mem j) (whole-cut_at l ys e zs)) ∙ o) in
              r.others j ja jb je;
        },
        fresh,
        n,
      )
