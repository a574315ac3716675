-- ===== src/Prelude/Lists.antt =====
-- Lists measured and indexed by native numbers, under the library's names, and their index laws in
-- `if` form: two lists are compared by their lengths and entries (`list_ext`).
use Prim.Native.Nat.{ℕ, zero, suc, ◌+◌, ◌-◌, ◌≤◌, ◌<◌, min}
use mathlib.Core.Path.{◌≡◌, refl, ap, ap₂, sym, ◌∙◌}
use mathlib.Core.List.{List, [], ◌∷◌, ◌++◌}
use mathlib.Core.Option.{Option, none, some}
use mathlib.Core.Bool.{Bool, false, ◌||◌}
use native.Mathlib.Decide.{dec_le}
use native.Mathlib.Omega.{arith}
use goext.Prelude.Tests.{ltb, ◌==◌, if◌then◌else◌}

module _ {ℓ} {A : Type ℓ} where
  abbrev pub length : List A → ℕ
  length [] = 0
  length (x ∷ xs) = suc (length xs)

  abbrev pub get_elem? : List A → ℕ → Option A
  get_elem? [] i = none
  get_elem? (x ∷ xs) zero = some x
  get_elem? (x ∷ xs) (suc i) = get_elem? xs i

  abbrev pub get_or : List A → ℕ → A → A
  get_or [] i d = d
  get_or (x ∷ xs) zero d = x
  get_or (x ∷ xs) (suc i) d = get_or xs i d

  -- A write out of bounds changes nothing.
  abbrev pub set : List A → ℕ → A → List A
  set [] i v = []
  set (x ∷ xs) zero v = v ∷ xs
  set (x ∷ xs) (suc i) v = x ∷ set xs i v

  abbrev pub take : ℕ → List A → List A
  take zero xs = []
  take (suc n) [] = []
  take (suc n) (x ∷ xs) = x ∷ take n xs

  abbrev pub drop : ℕ → List A → List A
  drop zero xs = xs
  drop (suc n) [] = []
  drop (suc n) (x ∷ xs) = drop n xs

  abbrev pub replicate : ℕ → A → List A
  replicate zero a = []
  replicate (suc n) a = a ∷ replicate n a

  -- f i, f (i + 1), …: n entries.
  abbrev pub tabulate : (ℕ → A) → ℕ → ℕ → List A
  tabulate f i zero = []
  tabulate f i (suc n) = f i ∷ tabulate f (suc i) n

module _ {ℓ} {A : Type ℓ} where
  pub length-append : (xs ys : List A) → length (xs ++ ys) ≡ length xs + length ys
  length-append [] ys = omega arith
  length-append (x ∷ xs) ys = omega (arith, length-append xs ys)

  pub length-set : (xs : List A) (i : ℕ) (v : A) → length (set xs i v) ≡ length xs
  length-set [] i v = refl
  length-set (x ∷ xs) zero v = refl
  length-set (x ∷ xs) (suc i) v = ap suc (length-set xs i v)

  pub length-take : (n : ℕ) (xs : List A) → length (take n xs) ≡ min n (length xs)
  length-take zero xs = omega arith
  length-take (suc n) [] = omega arith
  length-take (suc n) (x ∷ xs) = omega (arith, length-take n xs)

  pub length-drop : (n : ℕ) (xs : List A) → length (drop n xs) ≡ length xs - n
  length-drop zero xs = omega arith
  length-drop (suc n) [] = omega arith
  length-drop (suc n) (x ∷ xs) = omega (arith, length-drop n xs)

  pub length-replicate : (n : ℕ) (a : A) → length (replicate n a) ≡ n
  length-replicate zero a = refl
  length-replicate (suc n) a = ap suc (length-replicate n a)

  pub length-tabulate : (f : ℕ → A) (i n : ℕ) → length (tabulate f i n) ≡ n
  length-tabulate f i zero = refl
  length-tabulate f i (suc n) = ap suc (length-tabulate f (suc i) n)

  pub get_or-append :
      (xs ys : List A) (i : ℕ) (d : A)
      → get_or (xs ++ ys) i d
        ≡ (if ltb i (length xs) then get_or xs i d else get_or ys (i - length xs) d)
  get_or-append [] ys i d = ground arith
  get_or-append (x ∷ xs) ys zero d = ground arith
  get_or-append (x ∷ xs) ys (suc i) d = ground (arith, get_or-append xs ys i d)

  pub get_or-set :
      (xs : List A) (i j : ℕ) (v d : A)
      → i < length xs
      → get_or (set xs i v) j d ≡ (if i == j then v else get_or xs j d)
  get_or-set [] i j v d h = absurd (omega arith)
  get_or-set (x ∷ xs) zero zero v d h = ground arith
  get_or-set (x ∷ xs) zero (suc j) v d h = ground arith
  get_or-set (x ∷ xs) (suc i) zero v d h = ground arith
  get_or-set (x ∷ xs) (suc i) (suc j) v d h = ground (arith, get_or-set xs i j v d)

  pub get_or-take :
      (n : ℕ) (xs : List A) (i : ℕ) (d : A)
      → get_or (take n xs) i d ≡ (if ltb i n then get_or xs i d else d)
  get_or-take zero xs i d = ground arith
  get_or-take (suc n) [] i d = ground arith
  get_or-take (suc n) (x ∷ xs) zero d = ground arith
  get_or-take (suc n) (x ∷ xs) (suc i) d = ground (arith, get_or-take n xs i d)

  pub get_or-drop :
      (n : ℕ) (xs : List A) (i : ℕ) (d : A) → get_or (drop n xs) i d ≡ get_or xs (n + i) d
  get_or-drop zero xs i d = ap (λ k. get_or xs k d) (omega arith)
  get_or-drop (suc n) [] i d = refl
  get_or-drop (suc n) (x ∷ xs) i d = ground (arith, get_or-drop n xs i d)

  pub get_or-tabulate :
      (f : ℕ → A) (i n k : ℕ) (d : A)
      → get_or (tabulate f i n) k d ≡ (if ltb k n then f (i + k) else d)
  get_or-tabulate f i zero k d = ground arith
  get_or-tabulate f i (suc n) zero d = let e : i ≡ i + 0 = omega arith in ground (arith, ap f e)
  get_or-tabulate f i (suc n) (suc k) d = ground (arith, get_or-tabulate f (suc i) n k d)

  pub get_or-out : (xs : List A) (i : ℕ) (d : A) → length xs ≤ i → get_or xs i d ≡ d
  get_or-out [] i d h = refl
  get_or-out (x ∷ xs) zero d h = absurd (omega arith)
  get_or-out (x ∷ xs) (suc i) d h = get_or-out xs i d (omega arith)

  pub get_elem?-eq-get_or :
      (xs : List A) (i : ℕ) (d : A) → i < length xs → get_elem? xs i ≡ some (get_or xs i d)
  get_elem?-eq-get_or [] i d h = absurd (omega arith)
  get_elem?-eq-get_or (x ∷ xs) zero d h = refl
  get_elem?-eq-get_or (x ∷ xs) (suc i) d h = get_elem?-eq-get_or xs i d (omega arith)

  pub take-all : (n : ℕ) (xs : List A) → length xs ≤ n → take n xs ≡ xs
  take-all zero [] h = refl
  take-all zero (x ∷ xs) h = absurd (omega arith)
  take-all (suc n) [] h = refl
  take-all (suc n) (x ∷ xs) h = ap (◌∷◌ x) (take-all n xs (omega arith))

  pub drop-all : (n : ℕ) (xs : List A) → length xs ≤ n → drop n xs ≡ []
  drop-all zero [] h = refl
  drop-all zero (x ∷ xs) h = absurd (omega arith)
  drop-all (suc n) [] h = refl
  drop-all (suc n) (x ∷ xs) h = drop-all n xs (omega arith)

  pub take-min : (n m : ℕ) (xs : List A) → length xs ≡ m → take (min n m) xs ≡ take n xs
  take-min n m xs e = elim (dec_le n m) [
    | yes h ↦ ap (λ k. take k xs) (omega arith)
    | no h ↦
        ap (λ k. take k xs) (omega arith)
        ∙ take-all m xs (omega arith)
        ∙ sym (take-all n xs (omega arith))
  ]

  pub drop-min : (n m : ℕ) (xs : List A) → length xs ≡ m → drop (min n m) xs ≡ drop n xs
  drop-min n m xs e = elim (dec_le n m) [
    | yes h ↦ ap (λ k. drop k xs) (omega arith)
    | no h ↦
        ap (λ k. drop k xs) (omega arith)
        ∙ drop-all m xs (omega arith)
        ∙ sym (drop-all n xs (omega arith))
  ]

  pub take-append-take-drop :
      (k m : ℕ) (xs : List A) → take k xs ++ take m (drop k xs) ≡ take (k + m) xs
  take-append-take-drop zero m xs = ap (λ j. take j xs) (omega arith)
  take-append-take-drop (suc k) zero [] = sym (take-all (suc k + 0) [] (omega arith))
  take-append-take-drop (suc k) (suc m) [] = sym (take-all (suc k + (suc m)) [] (omega arith))
  take-append-take-drop (suc k) m (x ∷ xs) =
      let e : suc (k + m) ≡ suc k + m = omega arith in
      ap (◌∷◌ x) (take-append-take-drop k m xs) ∙ ap (λ j. take j (x ∷ xs)) e

  pub drop-drop : (k m : ℕ) (xs : List A) → drop m (drop k xs) ≡ drop (k + m) xs
  drop-drop zero m xs = ap (λ j. drop j xs) (omega arith)
  drop-drop (suc k) zero [] = sym (drop-all (suc k + 0) [] (omega arith))
  drop-drop (suc k) (suc m) [] = sym (drop-all (suc k + (suc m)) [] (omega arith))
  drop-drop (suc k) m (x ∷ xs) =
      let e : suc (k + m) ≡ suc k + m = omega arith in
      drop-drop k m xs ∙ ap (λ j. drop j (x ∷ xs)) e

  pub drop-append :
      (k : ℕ) (xs ys : List A) → drop k (xs ++ ys) ≡ drop k xs ++ drop (k - length xs) ys
  drop-append zero xs ys = let e : 0 ≡ 0 - length xs = omega arith in ap (λ j. xs ++ drop j ys) e
  drop-append (suc k) [] ys = let e : suc k ≡ suc k - 0 = omega arith in ap (λ j. drop j ys) e
  drop-append (suc k) (x ∷ xs) ys =
      let e : k - length xs ≡ suc k - suc (length xs) = omega arith in
      drop-append k xs ys ∙ ap (λ j. drop k xs ++ drop j ys) e

  pub take-append :
      (k : ℕ) (xs ys : List A) → take k (xs ++ ys) ≡ take k xs ++ take (k - length xs) ys
  take-append zero xs ys = let e : 0 ≡ 0 - length xs = omega arith in ap (λ j. take j ys) e
  take-append (suc k) [] ys = let e : suc k ≡ suc k - 0 = omega arith in ap (λ j. take j ys) e
  take-append (suc k) (x ∷ xs) ys =
      let e : k - length xs ≡ suc k - suc (length xs) = omega arith in
      ap (◌∷◌ x) (take-append k xs ys ∙ ap (λ j. take k xs ++ take j ys) e)

  pub list_ext :
      (xs ys : List A) (d : A)
      → length xs ≡ length ys
      → ((i : ℕ) → i < length xs → get_or xs i d ≡ get_or ys i d)
      → xs ≡ ys
  list_ext [] [] d e h = refl
  list_ext [] (y ∷ ys) d e h = absurd (omega arith)
  list_ext (x ∷ xs) [] d e h = absurd (omega arith)
  list_ext (x ∷ xs) (y ∷ ys) d e h =
      ap₂ ◌∷◌ (h 0 (omega arith)) (list_ext xs ys d (omega arith) (λ i p. h (suc i) (omega arith)))

pub ruleset lengths =
    (length-append, length-set, length-take, length-drop, length-replicate, length-tabulate)

pub ruleset entries = (get_or-append, get_or-take, get_or-drop, get_or-tabulate)

-- Membership and uniqueness of numbers.
abbrev pub mem : ℕ → List ℕ → Bool
mem j [] = false
mem j (x ∷ xs) = (x == j) || mem j xs

abbrev pub IsUnique : List ℕ → Type 0
IsUnique [] = Unit {0}
IsUnique (x ∷ xs) = (mem x xs ≡ false) × IsUnique xs

pub mem-append : (j : ℕ) (xs ys : List ℕ) → mem j (xs ++ ys) ≡ (mem j xs || mem j ys)
mem-append j [] ys = refl
mem-append j (x ∷ xs) ys = rw (mem-append j xs ys) (ground arith)

pub mem-middle : (j x : ℕ) (xs ys : List ℕ) → mem j (xs ++ x ∷ ys) ≡ ((x == j) || mem j (xs ++ ys))
mem-middle j x [] ys = refl
mem-middle j x (z ∷ xs) ys = rw (mem-middle j x xs ys) (ground arith)

-- An element in the middle of different ones, out and in.
pub IsUnique-out :
    (xs : List ℕ) (x : ℕ) (ys : List ℕ)
    → IsUnique (xs ++ x ∷ ys)
    → (mem x (xs ++ ys) ≡ false) × IsUnique (xs ++ ys)
IsUnique-out [] x ys u = u
IsUnique-out (z ∷ xs) x ys u =
    let (m, v) = IsUnique-out xs x ys u.1 in
    let e = mem-middle z x xs ys in (ground (arith, u.0), (ground (arith, u.0), v))

pub IsUnique-in :
    (xs : List ℕ) (x : ℕ) (ys : List ℕ)
    → mem x (xs ++ ys) ≡ false
    → IsUnique (xs ++ ys)
    → IsUnique (xs ++ x ∷ ys)
IsUnique-in [] x ys m u = (m, u)
IsUnique-in (z ∷ xs) x ys m u =
    let e = mem-middle z x xs ys in
    (e ∙ ground (arith, u.0), IsUnique-in xs x ys (ground arith) u.1)

pub mem_parts :
    (j : ℕ) (xs ys : List ℕ) → mem j (xs ++ ys) ≡ false → (mem j xs ≡ false) × (mem j ys ≡ false)
mem_parts j xs ys h = let e = mem-append j xs ys in (ground arith, ground arith)
