-- ===== src/Consistent/Sorted.antt =====
-- Hashes in ascending order, none twice.
use goext.Prelude.{
  ℕ, zero, suc, ◌<◌, ◌≤◌, List, [], ◌∷◌, ◌≡◌, refl, sym, ap, ◌∙◌, arith, true, false, ◌==◌, ◌||◌,
  ◌&&◌, not, if◌then◌else◌, leb, Bool-cases, inl, inr, length, get_or,
}
use goext.Consistent.{insert, sort, del_slice}
use goext.Consistent.Circle.{mem, IsUnique}
use goext.Consistent.Search.{IsAscending}

abbrev pub IsBelow : ℕ → List ℕ → Type 0
IsBelow x [] = Unit {0}
IsBelow x (y ∷ ys) = (x < y) × IsBelow x ys

abbrev pub IsOrdered : List ℕ → Type 0
IsOrdered [] = Unit {0}
IsOrdered (x ∷ xs) = IsBelow x xs × IsOrdered xs

pub mem-insert : (x j : ℕ) (xs : List ℕ) → mem j (insert x xs) ≡ ((x == j) || mem j xs)
mem-insert x j [] = refl
mem-insert x j (y ∷ ys) = elim (Bool-cases (leb x y)) [
  | inl e ↦ rw e refl
  | inr e ↦ rw (e, mem-insert x j ys) (ground arith)
]

pub mem-sort : (j : ℕ) (xs : List ℕ) → mem j (sort xs) ≡ mem j xs
mem-sort j [] = refl
mem-sort j (x ∷ xs) = mem-insert x j (sort xs) ∙ ap (λ t. (x == j) || t) (mem-sort j xs)

IsBelow-trans : (x y : ℕ) (xs : List ℕ) → x ≤ y → IsBelow y xs → IsBelow x xs
IsBelow-trans x y [] h b = tt
IsBelow-trans x y (z ∷ zs) h b = (omega (arith, b.0), IsBelow-trans x y zs h b.1)

insert-IsBelow : (x y : ℕ) (xs : List ℕ) → y < x → IsBelow y xs → IsBelow y (insert x xs)
insert-IsBelow x y [] h b = (h, tt)
insert-IsBelow x y (z ∷ zs) h b = elim (Bool-cases (leb x z)) [
  | inl e ↦ rw e (h, b)
  | inr e ↦ rw e (b.0, insert-IsBelow x y zs h b.1)
]

insert-IsOrdered : (x : ℕ) (xs : List ℕ) → mem x xs ≡ false → IsOrdered xs → IsOrdered (insert x xs)
insert-IsOrdered x [] n o = (tt, tt)
insert-IsOrdered x (y ∷ ys) n o = elim (Bool-cases (leb x y)) [
  | inl e ↦
      let less : x < y = ground arith in rw e ((less, IsBelow-trans x y ys (omega arith) o.0), o)
  | inr e ↦
      rw e (insert-IsBelow x y ys (ground arith) o.0, insert-IsOrdered x ys (ground arith) o.1)
]

pub sort-IsOrdered : (xs : List ℕ) → IsUnique xs → IsOrdered (sort xs)
sort-IsOrdered [] u = tt
sort-IsOrdered (x ∷ xs) u =
    insert-IsOrdered x (sort xs) (mem-sort x xs ∙ u.0) (sort-IsOrdered xs u.1)

-- The first occurrence is left out.
abbrev erase : List ℕ → ℕ → List ℕ
erase [] v = []
erase (x ∷ xs) v = let rest = erase xs v in if x == v then xs else x ∷ rest

IsBelow-mem : (x : ℕ) (xs : List ℕ) → IsBelow x xs → mem x xs ≡ false
IsBelow-mem x [] b = refl
IsBelow-mem x (y ∷ ys) b = let rest = IsBelow-mem x ys b.1 in ground (arith, b.0)

del_slice-absent : (xs : List ℕ) (v : ℕ) → mem v xs ≡ false → del_slice xs v ≡ xs
unfolding del_slice
del_slice-absent [] v h = refl
del_slice-absent (x ∷ []) v h = ground arith
del_slice-absent (x ∷ y ∷ ys) v h =
    let other : (x == v) ≡ false = ground arith in
    rw (other, del_slice-absent (y ∷ ys) v (ground arith)) refl

-- On hashes in order the element that delSlice passes over is none to delete.
del_slice-eq : (xs : List ℕ) (v : ℕ) → IsOrdered xs → del_slice xs v ≡ erase xs v
unfolding del_slice
del_slice-eq [] v o = refl
del_slice-eq (x ∷ []) v o = refl
del_slice-eq (x ∷ y ∷ ys) v o = elim (Bool-cases (x == v)) [
  | inl e ↦
      let same : x ≡ v = ground arith in
      let gone = IsBelow-mem x ys o.0.1 in
      rw (e, del_slice-absent ys v (ap (λ k. mem k ys) (sym same) ∙ gone)) refl
  | inr e ↦ rw (e, del_slice-eq (y ∷ ys) v o.1) refl
]

mem-erase : (xs : List ℕ) (v j : ℕ) → IsOrdered xs → mem j (erase xs v) ≡ (not (v == j) && mem j xs)
mem-erase [] v j o = ground arith
mem-erase (x ∷ xs) v j o =
    let gone = IsBelow-mem x xs o.0 in
    elim (Bool-cases (x == v)) [
      | inl e ↦ rw e (elim (Bool-cases (x == j)) [
        | inl here ↦
            let same : x ≡ j = ground arith in
            let gone' : mem j xs ≡ false = ap (λ k. mem k xs) (sym same) ∙ gone in ground arith
        | inr there ↦ ground arith
      ])
      | inr e ↦ rw (e, mem-erase xs v j o.1) (ground arith)
    ]

erase-IsBelow : (x : ℕ) (xs : List ℕ) (v : ℕ) → IsBelow x xs → IsBelow x (erase xs v)
erase-IsBelow x [] v b = tt
erase-IsBelow x (y ∷ ys) v b = elim (Bool-cases (y == v)) [
  | inl e ↦ rw e b.1
  | inr e ↦ rw e (b.0, erase-IsBelow x ys v b.1)
]

erase-IsOrdered : (xs : List ℕ) (v : ℕ) → IsOrdered xs → IsOrdered (erase xs v)
erase-IsOrdered [] v o = tt
erase-IsOrdered (x ∷ xs) v o = elim (Bool-cases (x == v)) [
  | inl e ↦ rw e o.1
  | inr e ↦ rw e (erase-IsBelow x xs v o.0, erase-IsOrdered xs v o.1)
]

-- On hashes in order delSlice deletes the hash, and keeps them in order.
pub del_slice_lem :
    (xs : List ℕ) (v : ℕ)
    → IsOrdered xs
    → IsOrdered (del_slice xs v) × ((j : ℕ) → mem j (del_slice xs v) ≡ (not (v == j) && mem j xs))
del_slice_lem xs v o = rw (del_slice-eq xs v o) (erase-IsOrdered xs v o, λ j. mem-erase xs v j o)

-- Order and membership by index.
IsBelow-get_or : (x : ℕ) (xs : List ℕ) (q : ℕ) → IsBelow x xs → q < length xs → x < get_or xs q 0
IsBelow-get_or x [] q b h = absurd (omega arith)
IsBelow-get_or x (y ∷ ys) zero b h = b.0
IsBelow-get_or x (y ∷ ys) (suc q) b h = IsBelow-get_or x ys q b.1 (omega arith)

pub IsOrdered-IsAscending : (xs : List ℕ) → IsOrdered xs → IsAscending xs
IsOrdered-IsAscending [] o p q h l = omega arith
IsOrdered-IsAscending (x ∷ xs) o zero zero h l = omega arith
IsOrdered-IsAscending (x ∷ xs) o zero (suc q) h l =
    omega (arith, IsBelow-get_or x xs q o.0 (omega arith))
IsOrdered-IsAscending (x ∷ xs) o (suc p) zero h l = absurd (omega arith)
IsOrdered-IsAscending (x ∷ xs) o (suc p) (suc q) h l =
    IsOrdered-IsAscending xs o.1 p q (omega arith) (omega arith)

pub mem-get_or : (xs : List ℕ) (p : ℕ) → p < length xs → mem (get_or xs p 0) xs ≡ true
mem-get_or [] p h = absurd (omega arith)
mem-get_or (x ∷ xs) zero h = ground arith
mem-get_or (x ∷ xs) (suc p) h = rw (mem-get_or xs p (omega arith)) (ground arith)

pub index_of :
    (xs : List ℕ) (j : ℕ) → mem j xs ≡ true → (p : ℕ) × (p < length xs) × (get_or xs p 0 ≡ j)
index_of [] j h = absurd (ground arith)
index_of (x ∷ xs) j h = elim (Bool-cases (x == j)) [
  | inl e ↦ (0, omega arith, ground arith)
  | inr e ↦ let (p, l, q) = index_of xs j (ground arith) in (suc p, omega (arith, l), q)
]
