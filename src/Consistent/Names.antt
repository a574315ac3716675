-- ===== src/Consistent/Names.antt =====
-- hash/consistent/consistent.go: the hosts of a load map, after a host is put in or taken out.
use goext.Prelude.{
  List, [], ◌∷◌, ◌≡◌, refl, sym, ap, ap₂, ◌∙◌, arith, Bool, true, false, ◌&&◌, ◌||◌, not, none,
  some, Bool-cases, inl, inr,
}
use goext.Prelude.Int.{ℤ}
use goext.Consistent.{Name, same_name, lookup, assign, delete}
use goext.Consistent.Several.{members, slice_contains_member}

pub same_name-eq : (x y : Name) → same_name x y ≡ true → x ≡ y
same_name-eq [] [] h = refl
same_name-eq [] (y ∷ ys) h = absurd (ground arith)
same_name-eq (x ∷ xs) [] h = absurd (ground arith)
same_name-eq (x ∷ xs) (y ∷ ys) h = ap₂ (◌∷◌) (ground arith) (same_name-eq xs ys (ground arith))

-- Whether a host is in the load map, and whether the map has no host twice.
abbrev pub has : List (Name × ℤ) → Name → Bool
has [] host = false
has ((name, load) ∷ m) host = same_name name host || has m host

abbrev pub HasUniqueHosts : List (Name × ℤ) → Type 0
HasUniqueHosts [] = Unit
HasUniqueHosts ((name, load) ∷ m) = (has m name ≡ false) × HasUniqueHosts m

pub has-none : (m : List (Name × ℤ)) (v : Name) → lookup same_name m v ≡ none → has m v ≡ false
has-none [] v e = refl
has-none ((k, x) ∷ m) v e = elim (Bool-cases (same_name k v)) [
  | inl s ↦ absurd (ground arith)
  | inr s ↦ let rest = has-none m v (ground arith) in ground arith
]

pub has-some :
    (m : List (Name × ℤ)) (v : Name) (load : ℤ) → lookup same_name m v ≡ some load → has m v ≡ true
has-some [] v load e = absurd (ground arith)
has-some ((k, x) ∷ m) v load e = elim (Bool-cases (same_name k v)) [
  | inl s ↦ ground arith
  | inr s ↦ let rest = has-some m v load (ground arith) in ground arith
]

pub has-members : (m : List (Name × ℤ)) (v : Name) → slice_contains_member (members m) v ≡ has m v
unfolding slice_contains_member members
has-members [] v = refl
has-members ((k, x) ∷ m) v = let rest = has-members m v in ground arith

-- The same host by another name.
pub has-same : (m : List (Name × ℤ)) (x y : Name) → same_name x y ≡ true → has m x ≡ has m y
has-same m x y e = ap (has m) (same_name-eq x y e)

pub has-assign :
    (m : List (Name × ℤ)) (v u : Name) (load : ℤ)
    → lookup same_name m v ≡ none
    → has (assign same_name m v load) u ≡ (has m u || same_name v u)
has-assign [] v u load e = ground arith
has-assign ((k, x) ∷ m) v u load e = elim (Bool-cases (same_name k v)) [
  | inl s ↦ absurd (ground arith)
  | inr s ↦ let rest = has-assign m v u load (ground arith) in rw s (ground arith)
]

pub assign-HasUniqueHosts :
    (m : List (Name × ℤ)) (v : Name) (load : ℤ)
    → lookup same_name m v ≡ none
    → HasUniqueHosts m
    → HasUniqueHosts (assign same_name m v load)
assign-HasUniqueHosts [] v load e h = (refl, tt)
assign-HasUniqueHosts ((k, x) ∷ m) v load e h = elim (Bool-cases (same_name k v)) [
  | inl s ↦ absurd (ground arith)
  | inr s ↦
      let rest = assign-HasUniqueHosts m v load (ground arith) h.1 in
      let low = has-assign m v k load (ground arith) in
      elim (Bool-cases (same_name v k)) [
        | inl t ↦
            let q = same_name-eq v k t in
            absurd (let a = ap (same_name k) q in let b = ap (λ z. same_name z k) q in ground arith)
        | inr t ↦ rw s (ground (arith, h.0), rest)
      ]
]

pub has-delete :
    (m : List (Name × ℤ)) (v u : Name)
    → HasUniqueHosts m
    → has (delete same_name m v) u ≡ (has m u && not (same_name v u))
has-delete [] v u h = refl
has-delete ((k, x) ∷ m) v u h = elim (Bool-cases (same_name k v)) [
  | inl s ↦
      let q = same_name-eq k v s in
      let same = ap (λ z. same_name z u) q in
      elim (Bool-cases (same_name v u)) [
        | inl t ↦
            let gone = sym (has-same m v u t) ∙ sym (ap (has m) q) ∙ h.0 in rw s (ground arith)
        | inr t ↦ rw s (ground arith)
      ]
  | inr s ↦
      let rest = has-delete m v u h.1 in
      elim (Bool-cases (same_name k u)) [
        | inl t ↦ elim (Bool-cases (same_name v u)) [
          | inl r ↦ absurd (let a = ap (same_name k) (same_name-eq v u r) in ground arith)
          | inr r ↦ rw s (ground arith)
        ]
        | inr t ↦ rw s (ground arith)
      ]
]

pub delete-HasUniqueHosts :
    (m : List (Name × ℤ)) (v : Name) → HasUniqueHosts m → HasUniqueHosts (delete same_name m v)
delete-HasUniqueHosts [] v h = tt
delete-HasUniqueHosts ((k, x) ∷ m) v h = elim (Bool-cases (same_name k v)) [
  | inl s ↦ rw s h.1
  | inr s ↦
      let low = has-delete m v k h.1 in rw s (ground (arith, h.0), delete-HasUniqueHosts m v h.1)
]
