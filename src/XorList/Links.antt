-- ===== src/XorList/Links.antt =====
-- Runs of elements that are linked by the exclusive or of their neighbours' addresses.
use goext.Prelude.{ℕ, List, [], ◌∷◌, ◌++◌, ◌≡◌, refl, sym, ap, ◌∙◌, arith, false, ◌==◌, mem}
use goext.Prelude.Xor.{bit_xor, bit_xor_assoc, bit_xor_comm, bit_xor_cancel}

abbrev pub first : List ℕ → ℕ → ℕ
first [] n = n
first (x ∷ xs) n = x

abbrev pub last : ℕ → List ℕ → ℕ
last p [] = p
last p (x ∷ xs) = last x xs

-- The elements `xs`, of which the first comes after `p` and the last before `n`.
abbrev pub Links : (ℕ → ℕ) → ℕ → List ℕ → ℕ → Type 0
Links pn p [] n = Unit {0}
Links pn p (c ∷ ds) n = (pn c ≡ bit_xor p (first ds n)) × Links pn c ds n

pub first-append : (xs ys : List ℕ) (n : ℕ) → first (xs ++ ys) n ≡ first xs (first ys n)
first-append [] ys n = refl
first-append (x ∷ xs) ys n = refl

pub last-append : (p : ℕ) (xs ys : List ℕ) → last p (xs ++ ys) ≡ last (last p xs) ys
last-append p [] ys = refl
last-append p (x ∷ xs) ys = last-append x xs ys

pub Links-append :
    (pn : ℕ → ℕ) (p : ℕ) (xs ys : List ℕ) (n : ℕ)
    → Links pn p (xs ++ ys) n
    → Links pn p xs (first ys n) × Links pn (last p xs) ys n
Links-append pn p [] ys n l = (tt, l)
Links-append pn p (x ∷ xs) ys n l =
    let (a, b) = Links-append pn x xs ys n l.1 in
    ((l.0 ∙ ap (bit_xor p) (first-append xs ys n), a), b)

pub append-Links :
    (pn : ℕ → ℕ) (p : ℕ) (xs ys : List ℕ) (n : ℕ)
    → Links pn p xs (first ys n)
    → Links pn (last p xs) ys n
    → Links pn p (xs ++ ys) n
append-Links pn p [] ys n a b = b
append-Links pn p (x ∷ xs) ys n a b =
    (a.0 ∙ ap (bit_xor p) (sym (first-append xs ys n)), append-Links pn x xs ys n a.1 b)

-- Only the elements' own fields matter.
abbrev pub Agree : (ℕ → ℕ) → (ℕ → ℕ) → List ℕ → Type 0
Agree f g [] = Unit {0}
Agree f g (x ∷ xs) = (f x ≡ g x) × Agree f g xs

pub Links-Agree :
    (f g : ℕ → ℕ) (p : ℕ) (xs : List ℕ) (n : ℕ) → Agree f g xs → Links f p xs n → Links g p xs n
Links-Agree f g p [] n a l = tt
Links-Agree f g p (x ∷ xs) n a l = (sym a.0 ∙ l.0, Links-Agree f g x xs n a.1 l.1)

-- A change to three elements at most.
pub record IsRelinked (pn pn' : ℕ → ℕ) (a b e : ℕ) : Type 0 where
  pub at_prev : pn' a ≡ bit_xor (pn a) (bit_xor b e)
  pub at_next : pn' b ≡ bit_xor (pn b) (bit_xor e a)
  pub others : (j : ℕ) → (j == a) ≡ false → (j == b) ≡ false → (j == e) ≡ false → pn' j ≡ pn j

mem-head :
    (j x : ℕ) (xs : List ℕ) → mem j (x ∷ xs) ≡ false → ((x == j) ≡ false) × (mem j xs ≡ false)
mem-head j x xs h = (ground arith, ground arith)

eqb_sym : (x y : ℕ) → (x == y) ≡ false → (y == x) ≡ false
eqb_sym x y h = ground arith

pub Agree-IsRelinked :
    (pn pn' : ℕ → ℕ) (a b e : ℕ) (xs : List ℕ)
    → IsRelinked pn pn' a b e
    → mem a xs ≡ false
    → mem b xs ≡ false
    → mem e xs ≡ false
    → Agree pn pn' xs
Agree-IsRelinked pn pn' a b e [] r p q s = tt
Agree-IsRelinked pn pn' a b e (x ∷ xs) r p q s =
    let (p₀, p₁) = mem-head a x xs p in
    let (q₀, q₁) = mem-head b x xs q in
    let (s₀, s₁) = mem-head e x xs s in
    (sym (r.others x p₀ q₀ s₀), Agree-IsRelinked pn pn' a b e xs r p₁ q₁ s₁)

-- x ^ b ^ (b ^ e) is x ^ e, and (a ^ y) ^ (e ^ a) is e ^ y.
xor_after : (x b e : ℕ) → bit_xor (bit_xor x b) (bit_xor b e) ≡ bit_xor x e
xor_after x b e = bit_xor_assoc x b (bit_xor b e) ∙ ap (bit_xor x) (bit_xor_cancel b e)

xor_before : (a y e : ℕ) → bit_xor (bit_xor a y) (bit_xor e a) ≡ bit_xor e y
xor_before a y e =
    bit_xor_comm (bit_xor a y) (bit_xor e a)
    ∙ bit_xor_assoc e a (bit_xor a y)
    ∙ ap (bit_xor e) (bit_xor_cancel a y)

-- `e` comes in between `a` and `b`.
pub insert-Links :
    (pn pn' : ℕ → ℕ) (p : ℕ) (xs : List ℕ) (a b : ℕ) (ys : List ℕ) (n e : ℕ)
    → IsRelinked pn pn' a b e
    → pn' e ≡ bit_xor a b
    → Agree pn pn' xs
    → Agree pn pn' ys
    → Links pn p (xs ++ a ∷ b ∷ ys) n
    → Links pn' p (xs ++ a ∷ e ∷ b ∷ ys) n
insert-Links pn pn' p xs a b ys n e r h f g l =
    let (before, after) = Links-append pn p xs (a ∷ b ∷ ys) n l in
    append-Links pn' p xs (a ∷ e ∷ b ∷ ys) n (Links-Agree pn pn' p xs a f before) (
      r.at_prev ∙ ap (λ t. bit_xor t (bit_xor b e)) after.0 ∙ xor_after (last p xs) b e,
      (
        h,
        (
          r.at_next ∙ ap (λ t. bit_xor t (bit_xor e a)) after.1.0 ∙ xor_before a (first ys n) e,
          Links-Agree pn pn' b ys n g after.1.1,
        ),
      ),
    )

-- `e` goes from between `a` and `b`.
pub remove-Links :
    (pn pn' : ℕ → ℕ) (p : ℕ) (xs : List ℕ) (a e b : ℕ) (ys : List ℕ) (n : ℕ)
    → IsRelinked pn pn' a b e
    → Agree pn pn' xs
    → Agree pn pn' ys
    → Links pn p (xs ++ a ∷ e ∷ b ∷ ys) n
    → Links pn' p (xs ++ a ∷ b ∷ ys) n
remove-Links pn pn' p xs a e b ys n r f g l =
    let (before, after) = Links-append pn p xs (a ∷ e ∷ b ∷ ys) n l in
    append-Links pn' p xs (a ∷ b ∷ ys) n (Links-Agree pn pn' p xs a f before) (
      r.at_prev
          ∙ ap (λ t. bit_xor t (bit_xor b e)) after.0
          ∙ ap (bit_xor (bit_xor (last p xs) e)) (bit_xor_comm b e)
          ∙ xor_after (last p xs) e b,
      (
        r.at_next
            ∙ ap (λ t. bit_xor t (bit_xor e a)) after.1.1.0
            ∙ ap (bit_xor (bit_xor e (first ys n))) (bit_xor_comm e a)
            ∙ xor_before e (first ys n) a,
        Links-Agree pn pn' b ys n g after.1.1.1,
      ),
    )
