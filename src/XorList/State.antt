-- ===== src/XorList/State.antt =====
-- The list that a store holds, as the addresses of its elements.
use goext.Prelude.{
  ℕ, List, [], ◌∷◌, ◌++◌, append_assoc, ◌≡◌, refl, sym, ap, ◌∙◌, arith, Bool, false, ◌==◌, ◌||◌,
  mem, mem-middle, IsUnique, IsUnique-out, IsUnique-in, mem_parts, ◌+◌, length, length-append,
  subst,
}
use goext.Prelude.Xor.{bit_xor}
use goext.XorList.{Store, XorList}
use goext.XorList.Links.{
  first, last, Links, IsRelinked, Agree, Agree-IsRelinked, insert-Links, remove-Links,
}

-- The list with its sentinels.
abbrev pub whole : XorList → List ℕ → List ℕ
whole l xs = l.head ∷ (xs ++ l.tail ∷ [])

pub record IsList {V : Type 0} (s : Store V) (l : XorList) (xs : List ℕ) : Type 0 where
  pub links : Links s.pn 0 (whole l xs) 0
  pub apart : IsUnique (whole l xs)
  pub not_nil : mem 0 (whole l xs) ≡ false
  pub counted : l.len ≡ length xs

abbrev pub but_last : ℕ → List ℕ → List ℕ
but_last p [] = []
but_last p (x ∷ xs) = p ∷ but_last x xs

abbrev pub rest_of : List ℕ → ℕ → List ℕ
rest_of [] t = []
rest_of (z ∷ zs) t = zs ++ t ∷ []

but_last-eq : (p : ℕ) (ys zs : List ℕ) → p ∷ (ys ++ zs) ≡ but_last p ys ++ last p ys ∷ zs
but_last-eq p [] zs = refl
but_last-eq p (y ∷ ys) zs = ap (◌∷◌ p) (but_last-eq y ys zs)

rest_of-eq : (zs : List ℕ) (t : ℕ) → zs ++ t ∷ [] ≡ first zs t ∷ rest_of zs t
rest_of-eq [] t = refl
rest_of-eq (z ∷ zs) t = refl

-- Cut at a place, the whole list shows the elements on both sides.
pub whole-cut :
    (l : XorList) (ys zs : List ℕ)
    → whole l (ys ++ zs)
      ≡ but_last l.head ys ++ last l.head ys ∷ first zs l.tail ∷ rest_of zs l.tail
whole-cut l ys zs =
    ap (◌∷◌ l.head) (append_assoc ys zs (l.tail ∷ []))
    ∙ but_last-eq l.head ys (zs ++ l.tail ∷ [])
    ∙ ap (λ t. but_last l.head ys ++ last l.head ys ∷ t) (rest_of-eq zs l.tail)

pub whole-cut_at :
    (l : XorList) (ys : List ℕ) (e : ℕ) (zs : List ℕ)
    → whole l (ys ++ e ∷ zs)
      ≡ but_last l.head ys ++ last l.head ys ∷ e ∷ first zs l.tail ∷ rest_of zs l.tail
whole-cut_at l ys e zs =
    whole-cut l ys (e ∷ zs)
    ∙ ap (λ t. but_last l.head ys ++ last l.head ys ∷ e ∷ t) (rest_of-eq zs l.tail)

-- What is known of the two sides of neighbours in a run of different elements.
sides_lem :
    (pn pn' : ℕ → ℕ) (B : List ℕ) (a b e : ℕ) (R : List ℕ)
    → IsRelinked pn pn' a b e
    → IsUnique (B ++ a ∷ b ∷ R)
    → mem e (B ++ R) ≡ false
    → Agree pn pn' B × Agree pn pn' R
sides_lem pn pn' B a b e R r u m =
    let (ma, u₁) = IsUnique-out B a (b ∷ R) u in
    let (mb, u₂) = IsUnique-out B b R u₁ in
    let (a₀, a₁) = mem_parts a B (b ∷ R) ma in
    let (b₀, b₁) = mem_parts b B R mb in
    let (e₀, e₁) = mem_parts e B R m in
    (
      Agree-IsRelinked pn pn' a b e B r a₀ b₀ e₀,
      Agree-IsRelinked pn pn' a b e R r (ground arith) b₁ e₁,
    )

without_two :
    (B : List ℕ) (a b e : ℕ) (R : List ℕ) → mem e (B ++ a ∷ b ∷ R) ≡ false → mem e (B ++ R) ≡ false
without_two B a b e R m =
    let p = mem-middle e a B (b ∷ R) in let q = mem-middle e b B R in ground arith

-- Next to `a`, what is new to a run of different elements leaves them different.
IsUnique-after :
    (B : List ℕ) (a e : ℕ) (R : List ℕ)
    → mem e (B ++ a ∷ R) ≡ false
    → IsUnique (B ++ a ∷ R)
    → IsUnique (B ++ a ∷ e ∷ R)
IsUnique-after B a e R m u = subst IsUnique (append_assoc B (a ∷ []) (e ∷ R)) (
    IsUnique-in (B ++ a ∷ []) e R (ap (mem e) (append_assoc B (a ∷ []) R) ∙ m)
      (subst IsUnique (sym (append_assoc B (a ∷ []) R)) u))

IsUnique-before :
    (B : List ℕ) (a e : ℕ) (R : List ℕ)
    → IsUnique (B ++ a ∷ e ∷ R)
    → (mem e (B ++ a ∷ R) ≡ false) × IsUnique (B ++ a ∷ R)
IsUnique-before B a e R u =
    let (m, v) =
      IsUnique-out (B ++ a ∷ []) e R (subst IsUnique (sym (append_assoc B (a ∷ []) (e ∷ R))) u) in
    (sym (ap (mem e) (append_assoc B (a ∷ []) R)) ∙ m, subst IsUnique (append_assoc B (a ∷ []) R) v)

mem-after :
    (j : ℕ) (B : List ℕ) (a e : ℕ) (R : List ℕ)
    → mem j (B ++ a ∷ e ∷ R) ≡ ((e == j) || mem j (B ++ a ∷ R))
mem-after j B a e R =
    let p = mem-middle j a B (e ∷ R) in
    let q = mem-middle j e B R in let r = mem-middle j a B R in ground arith

or_right : (e : ℕ) (t : Bool) → ((e == 0) || t) ≡ false → t ≡ false
or_right e t h = ground arith

or_left : (e : ℕ) (t : Bool) → ((e == 0) || t) ≡ false → (e == 0) ≡ false
or_left e t h = ground arith

no_nil : (e : ℕ) (t : Bool) → (e == 0) ≡ false → t ≡ false → ((e == 0) || t) ≡ false
no_nil e t h k = ground arith

-- A list without one of its elements, cut where the element was.
pub record IsWithout (l : XorList) (ys zs : List ℕ) (e : ℕ) (xs : List ℕ) : Type 0 where
  pub apart : IsUnique xs
  pub not_nil : mem 0 xs ≡ false
  pub fresh : mem e xs ≡ false
  pub elem_nil : (e == 0) ≡ false

pub IsList-IsWithout :
    {V : Type 0} (s : Store V) (l : XorList) (ys zs : List ℕ) (e : ℕ)
    → IsList s l (ys ++ e ∷ zs)
    → IsWithout l ys zs e
        (but_last l.head ys ++ last l.head ys ∷ first zs l.tail ∷ rest_of zs l.tail)
IsList-IsWithout s l ys zs e v =
    let B = but_last l.head ys in
    let a = last l.head ys in
    let R = first zs l.tail ∷ rest_of zs l.tail in
    let cut = whole-cut_at l ys e zs in
    let (fresh, unique) = IsUnique-before B a e R (subst IsUnique cut v.apart) in
    let nonnil = sym (mem-after 0 B a e R) ∙ sym (ap (mem 0) cut) ∙ v.not_nil in
    record {
      apart = unique;
      not_nil = or_right e (mem 0 (B ++ a ∷ R)) nonnil;
      fresh = fresh;
      elem_nil = or_left e (mem 0 (B ++ a ∷ R)) nonnil;
    }

module _ {V : Type 0} (s s' : Store V) (l l' : XorList) (ys zs : List ℕ) (e : ℕ) where
  -- A store in which `e` was linked in between the neighbours at a place of the list.
  pub linked_in-IsList :
      l'.head ≡ l.head
      → l'.tail ≡ l.tail
      → l'.len ≡ l.len + 1
      → (e == 0) ≡ false
      → mem e (whole l (ys ++ zs)) ≡ false
      → IsRelinked s.pn s'.pn (last l.head ys) (first zs l.tail) e
      → s'.pn e ≡ bit_xor (last l.head ys) (first zs l.tail)
      → IsList s l (ys ++ zs)
      → IsList s' l' (ys ++ e ∷ zs)
  linked_in-IsList h t n z m r q v =
      let B = but_last l.head ys in
      let a = last l.head ys in
      let b = first zs l.tail in
      let R = rest_of zs l.tail in
      let cut = whole-cut l ys zs in
      let cut' : whole l' (ys ++ e ∷ zs) ≡ B ++ a ∷ e ∷ b ∷ R =
        ap (λ x. x ∷ ((ys ++ e ∷ zs) ++ l'.tail ∷ [])) h
        ∙ ap (λ x. l.head ∷ ((ys ++ e ∷ zs) ++ x ∷ [])) t
        ∙ whole-cut_at l ys e zs in
      let unique = subst IsUnique cut v.apart in
      let fresh = sym (ap (mem e) cut) ∙ m in
      let (f, g) = sides_lem s.pn s'.pn B a b e R r unique (without_two B a b e R fresh) in
      record {
        links =
            subst (λ x. Links s'.pn 0 x 0) (sym cut')
              (insert-Links s.pn s'.pn 0 B a b R 0 e r q f g
                (subst (λ x. Links s.pn 0 x 0) cut v.links));
        apart = subst IsUnique (sym cut') (IsUnique-after B a e (b ∷ R) fresh unique);
        not_nil =
            ap (mem 0) cut'
            ∙ mem-after 0 B a e (b ∷ R)
            ∙ no_nil e (mem 0 (B ++ a ∷ b ∷ R)) z (sym (ap (mem 0) cut) ∙ v.not_nil);
        counted = omega (arith, v.counted, n, length-append ys zs, length-append ys (e ∷ zs));
      }

  -- A store in which `e` was unlinked from between its neighbours.
  pub linked_out-IsList :
      l'.head ≡ l.head
      → l'.tail ≡ l.tail
      → l.len ≡ l'.len + 1
      → IsRelinked s.pn s'.pn (last l.head ys) (first zs l.tail) e
      → IsList s l (ys ++ e ∷ zs)
      → IsList s' l' (ys ++ zs) × (mem e (whole l (ys ++ zs)) ≡ false) × ((e == 0) ≡ false)
  linked_out-IsList h t n r v =
      let B = but_last l.head ys in
      let a = last l.head ys in
      let b = first zs l.tail in
      let R = rest_of zs l.tail in
      let cut = whole-cut_at l ys e zs in
      let plain = whole-cut l ys zs in
      let cut' : whole l' (ys ++ zs) ≡ B ++ a ∷ b ∷ R =
        ap (λ x. x ∷ ((ys ++ zs) ++ l'.tail ∷ [])) h
        ∙ ap (λ x. l.head ∷ ((ys ++ zs) ++ x ∷ [])) t
        ∙ plain in
      let w = IsList-IsWithout s l ys zs e v in
      let (f, g) = sides_lem s.pn s'.pn B a b e R r w.apart (without_two B a b e R w.fresh) in
      (
        record {
          links =
              subst (λ x. Links s'.pn 0 x 0) (sym cut')
                (remove-Links s.pn s'.pn 0 B a e b R 0 r f g
                  (subst (λ x. Links s.pn 0 x 0) cut v.links));
          apart = subst IsUnique (sym cut') w.apart;
          not_nil = ap (mem 0) cut' ∙ w.not_nil;
          counted = omega (arith, v.counted, n, length-append ys zs, length-append ys (e ∷ zs));
        },
        ap (mem e) plain ∙ w.fresh,
        w.elem_nil,
      )
