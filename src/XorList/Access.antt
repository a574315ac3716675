-- ===== src/XorList/Access.antt =====
-- The ends of a list, a new element, Init and lazyInit.
use goext.Prelude.{
  ◌⊎◌, inl, inr, subst, sym, ℕ, List, [], ◌∷◌, ◌++◌, ◌≡◌, refl, ap, ◌∙◌, arith, true, false, ◌==◌,
  ◌||◌, mem, mem-append, mem-middle,
}
use goext.Prelude.Xor.{zero-bit_xor, bit_xor-zero}
use goext.XorList.{Store, XorList, alloc, write_pn, init, lazy_init}
use goext.XorList.Links.{first, last, Agree, Links-Agree, first-append}
use goext.XorList.State.{IsList, whole}
use goext.XorList.Insert.{IsMade, whole-same}
use goext.XorList.Mirror.{rev, flip, flip-IsList, first-rev}

pub first_nonnil :
    (l : XorList) (xs : List ℕ) → mem 0 (whole l xs) ≡ false → (first xs l.tail == 0) ≡ false
first_nonnil l [] m = ground arith
first_nonnil l (x ∷ xs) m = ground arith

pub last_nonnil :
    (h : ℕ) (xs ys : List ℕ) → mem 0 (h ∷ (xs ++ ys)) ≡ false → (last h xs == 0) ≡ false
last_nonnil h [] ys m = ground arith
last_nonnil h (x ∷ xs) ys m = last_nonnil x xs ys (ground arith)

pub mem-whole :
    (j : ℕ) (l : XorList) (xs : List ℕ)
    → mem j (whole l xs) ≡ ((l.head == j) || (mem j xs || (l.tail == j)))
mem-whole j l xs = let e = mem-append j xs (l.tail ∷ []) in ground arith

pub whole-less :
    (j : ℕ) (l : XorList) (ys : List ℕ) (x : ℕ) (zs : List ℕ)
    → mem j (whole l (ys ++ x ∷ zs)) ≡ false
    → mem j (whole l (ys ++ zs)) ≡ false
whole-less j l ys x zs m =
    let a = mem-whole j l (ys ++ x ∷ zs) in
    let b = mem-whole j l (ys ++ zs) in let c = mem-middle j x ys zs in ground arith

pub whole-end :
    (j : ℕ) (l : XorList) (ys zs : List ℕ)
    → mem j (whole l (ys ++ zs)) ≡ false
    → mem j (whole l zs) ≡ false
whole-end j l ys zs m =
    let a = mem-whole j l (ys ++ zs) in
    let b = mem-whole j l zs in let c = mem-append j ys zs in ground arith

-- A new element's address: not nil, and none of the list's.
pub record IsNew (l : XorList) (xs : List ℕ) (a : ℕ) : Type 0 where
  pub not_nil : (a == 0) ≡ false
  pub fresh : mem a (whole l xs) ≡ false

pub IsNew-same :
    (l l' : XorList) (xs : List ℕ) (a : ℕ)
    → l'.head ≡ l.head
    → l'.tail ≡ l.tail
    → IsNew l xs a
    → IsNew l' xs a
IsNew-same l l' xs a h t n = record {
  not_nil = n.not_nil;
  fresh = ap (mem a) (whole-same l l' xs h t) ∙ n.fresh;
}

-- The zero value of a list: the links of its sentinels and its length are 0.
pub record IsZero {V : Type 0} (s : Store V) (l : XorList) : Type 0 where
  pub head_link : s.pn l.head ≡ 0
  pub tail_link : s.pn l.tail ≡ 0
  pub length : l.len ≡ 0
  pub head_not_nil : (l.head == 0) ≡ false
  pub tail_not_nil : (l.tail == 0) ≡ false
  pub apart : (l.head == l.tail) ≡ false

-- A list that holds the elements, or the zero value and none.
abbrev pub IsReady : {V : Type 0} → Store V → XorList → List ℕ → Type 0
IsReady s l xs = IsList s l xs ⊎ IsZero s l × (xs ≡ [])

module _ {V : Type 0} where
  Agree-alloc :
      (s : Store V) (a : ℕ) (v : V) (xs : List ℕ)
      → mem a xs ≡ false
      → Agree s.pn (alloc s a v).pn xs
  unfolding alloc
  Agree-alloc s a v [] m = tt
  Agree-alloc s a v (x ∷ xs) m = (ground arith, Agree-alloc s a v xs (ground arith))

  pub alloc-IsList :
      (s : Store V) (l : XorList) (xs : List ℕ) (a : ℕ) (v : V)
      → mem a (whole l xs) ≡ false
      → IsList s l xs
      → IsList (alloc s a v) l xs
  alloc-IsList s l xs a v m i = record {
    links =
        Links-Agree s.pn (alloc s a v).pn 0 (whole l xs) 0 (Agree-alloc s a v (whole l xs) m)
          i.links;
    apart = i.apart;
    not_nil = i.not_nil;
    counted = i.counted;
  }

  pub head_lem :
      (s : Store V) (l : XorList) (xs : List ℕ) → IsList s l xs → s.pn l.head ≡ first xs l.tail
  head_lem s l xs i =
      i.links.0 ∙ zero-bit_xor (first (xs ++ l.tail ∷ []) 0) ∙ first-append xs (l.tail ∷ []) 0

  pub tail_lem :
      (s : Store V) (l : XorList) (xs : List ℕ) → IsList s l xs → s.pn l.tail ≡ last l.head xs
  tail_lem s l xs i = head_lem s (flip l) (rev xs) (flip-IsList s l xs i) ∙ first-rev l.head xs

  -- Init on a list whose sentinels are two elements leaves it empty.
  pub init-IsList :
      (s : Store V) (l : XorList)
      → (l.head == 0) ≡ false
      → (l.tail == 0) ≡ false
      → (l.head == l.tail) ≡ false
      → IsMade s (init s l).0 l (init s l).1 [] []
  unfolding init write_pn
  init-IsList s l h t n = record {
    list = record {
      links = (ground (arith, zero-bit_xor l.tail), (ground (arith, bit_xor-zero l.head), tt));
      apart = (ground arith, (refl, tt));
      not_nil = ground arith;
      counted = refl;
    };
    head = refl;
    tail = refl;
    values = refl;
    others = λ j o. ground arith;
  }

  pub IsMade-same : (s : Store V) (l : XorList) (xs : List ℕ) → IsList s l xs → IsMade s s l l xs xs
  IsMade-same s l xs i = record {
    list = i;
    head = refl;
    tail = refl;
    values = refl;
    others = λ j o. refl;
  }

  not_empty :
      (s : Store V) (l : XorList) (x : ℕ) (xs : List ℕ)
      → IsList s l (x ∷ xs)
      → (s.pn l.head == l.tail) ≡ false
  not_empty s l x xs i =
      let e = head_lem s l (x ∷ xs) i in
      let m = mem-append x xs (l.tail ∷ []) in ground (arith, i.apart)

  -- lazyInit keeps what a list holds.
  list-IsMade :
      (s : Store V) (l : XorList) (xs : List ℕ)
      → IsList s l xs
      → (s' : Store V) × (l' : XorList) × (lazy_init s l ≡ (s', l')) × IsMade s s' l l' xs xs
  unfolding lazy_init
  list-IsMade s l [] i =
      let e = head_lem s l [] i in
      let h : (s.pn l.head == 0) ≡ false = ground (arith, i.not_nil) in
      let q = tail_lem s l [] i in
      let t : (s.pn l.tail == 0) ≡ false = ground (arith, i.not_nil) in
      let same : (s.pn l.head == l.tail) ≡ true = ground arith in
      (
        (init s l).0,
        (init s l).1,
        rw (h, t, same) refl,
        init-IsList s l (ground (arith, i.not_nil)) (ground (arith, i.not_nil))
            (ground (arith, i.apart)),
      )
  list-IsMade s l (x ∷ xs) i =
      let h : (s.pn l.head == 0) ≡ false =
        ap (λ t. t == 0) (head_lem s l (x ∷ xs) i) ∙ first_nonnil l (x ∷ xs) i.not_nil in
      let t : (s.pn l.tail == 0) ≡ false =
        ap (λ t. t == 0) (tail_lem s l (x ∷ xs) i)
        ∙ last_nonnil l.head (x ∷ xs) (l.tail ∷ []) i.not_nil in
      (s, l, rw (h, t, not_empty s l x xs i) refl, IsMade-same s l (x ∷ xs) i)

  -- lazyInit makes the zero value an empty list.
  zero-IsMade :
      (s : Store V) (l : XorList)
      → IsZero s l
      → (s' : Store V) × (l' : XorList) × (lazy_init s l ≡ (s', l')) × IsMade s s' l l' [] []
  unfolding lazy_init
  zero-IsMade s l z = (
    (init s l).0,
    (init s l).1,
    rw z.head_link refl,
    init-IsList s l z.head_not_nil z.tail_not_nil z.apart,
  )

  pub lazy_init-IsMade :
      (s : Store V) (l : XorList) (xs : List ℕ)
      → IsReady s l xs
      → (s' : Store V) × (l' : XorList) × (lazy_init s l ≡ (s', l')) × IsMade s s' l l' xs xs
  lazy_init-IsMade s l xs (inl i) = list-IsMade s l xs i
  lazy_init-IsMade s l xs (inr (z, e)) =
      subst
        (λ t. (s' : Store V) × (l' : XorList) × (lazy_init s l ≡ (s', l')) × IsMade s s' l l' t t)
        (sym e) (zero-IsMade s l z)
