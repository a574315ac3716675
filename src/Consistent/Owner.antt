-- ===== src/Consistent/Owner.antt =====
-- The owner of a key: the host at the first hash from the key on, around the ring.
use goext.Prelude.{
  ℕ, ◌<◌, ◌≤◌, List, [], ◌∷◌, ◌≡◌, refl, sym, ap, ◌∙◌, arith, true, false, ◌==◌, length, get_or,
  some, ret, nth-ret, Returns-cases,
}
use native.Mathlib.Decide.{dec_lt}
use mathlib.Core.Option.{some-injective}
use goext.Consistent.{ConsistentHash, Name, keys, search, name_at, get_hash, get}
use goext.Consistent.Circle.{mem, lookup-mem}
use goext.Consistent.Sorted.{IsOrdered, IsOrdered-IsAscending, mem-get_or, index_of}
use goext.Consistent.Search.{IsPlace, search_lem}
use goext.Consistent.State.{IsValid, circle_at, hash_of, hash-ret}

pub record IsSuccessor (xs : List ℕ) (key h : ℕ) : Type 0 where
  pub member : mem h xs ≡ true
  pub after : (j : ℕ) → mem j xs ≡ true → key ≤ j → (h ≤ j) × (key ≤ h)
  pub least : h < key → (j : ℕ) → mem j xs ≡ true → h ≤ j

pub IsSuccessor-unique :
    (xs : List ℕ) (key h h' : ℕ) → IsSuccessor xs key h → IsSuccessor xs key h' → h ≡ h'
IsSuccessor-unique xs key h h' s s' = elim (dec_lt h key) [
  | yes low ↦ elim (dec_lt h' key) [
    | yes low' ↦ omega (arith, s.least low h' s'.member, s'.least low' h s.member)
    | no high' ↦ absurd (omega (arith, s.after h' s'.member (omega arith)))
  ]
  | no high ↦ elim (dec_lt h' key) [
    | yes low' ↦ absurd (omega (arith, s'.after h s.member (omega arith)))
    | no high' ↦
        omega (arith, s.after h' s'.member (omega arith), s'.after h s.member (omega arith))
  ]
]

-- With fewer hashes, a successor that is still there still is the successor.
pub IsSuccessor-fewer :
    (xs ys : List ℕ) (key h : ℕ)
    → ((j : ℕ) → mem j xs ≡ true → mem j ys ≡ true)
    → mem h xs ≡ true
    → IsSuccessor ys key h
    → IsSuccessor xs key h
IsSuccessor-fewer xs ys key h f m s = record {
  member = m;
  after = λ j k l. s.after j (f j k) l;
  least = λ l j k. s.least l j (f j k);
}

pub record IsOwner (c : ConsistentHash) (key : ℕ) (name : Name) : Type 0 where
  pub at : ℕ
  pub successor : IsSuccessor (keys c.circle) key at
  pub found : circle_at c at ≡ some name

IsPlace-after :
    (xs : List ℕ) (key idx q : ℕ)
    → IsOrdered xs
    → IsPlace xs key idx
    → q < length xs
    → key ≤ get_or xs q 0
    → (get_or xs idx 0 ≤ get_or xs q 0) × (key ≤ get_or xs idx 0)
IsPlace-after xs key idx q o p h l =
    let (a, b) = p.first q h l in (IsOrdered-IsAscending xs o idx q a h, b)

IsPlace-least :
    (xs : List ℕ) (key idx q : ℕ)
    → IsOrdered xs
    → IsPlace xs key idx
    → q < length xs
    → get_or xs idx 0 < key
    → get_or xs idx 0 ≤ get_or xs q 0
IsPlace-least xs key idx q o p h l =
    let (a, b) = p.wrapped l in IsOrdered-IsAscending xs o idx q (omega arith) h

IsPlace-IsSuccessor :
    (xs ys : List ℕ) (key idx : ℕ)
    → IsOrdered xs
    → ((j : ℕ) → mem j xs ≡ mem j ys)
    → IsPlace xs key idx
    → IsSuccessor ys key (get_or xs idx 0)
IsPlace-IsSuccessor xs ys key idx o same p = record {
  member = sym (same (get_or xs idx 0)) ∙ mem-get_or xs idx p.inside;
  after = λ j m l.
      let (q, k, e) = index_of xs j (same j ∙ m) in
      omega (arith, IsPlace-after xs key idx q o p k (omega (arith, e)), e);
  least = λ l j m.
      let (q, k, e) = index_of xs j (same j ∙ m) in
      omega (arith, IsPlace-least xs key idx q o p k l, e);
}

pub name_at-IsOwner :
    (c : ConsistentHash) (key idx : ℕ)
    → IsValid c
    → IsPlace c.sorted_hashes key idx
    → (name : Name) × (name_at c idx ≡ ret name) × IsOwner c key name
unfolding name_at
name_at-IsOwner c key idx v p =
    let h = get_or c.sorted_hashes idx 0 in
    let s = IsPlace-IsSuccessor c.sorted_hashes (keys c.circle) key idx v.ordered v.same p in
    let (name, q) = lookup-mem c.circle h s.member in
    (
      name,
      rw (nth-ret c.sorted_hashes idx 0 p.inside, q) refl,
      record { at = h; successor = s; found = q },
    )

empty_lem :
    (m : List (ℕ × Name)) (xs : List ℕ)
    → ((j : ℕ) → mem j xs ≡ mem j (keys m))
    → 0 < length m
    → ¬ (0 < length xs)
    → ⊥
empty_lem [] xs same h k = omega arith
empty_lem ((j, v) ∷ m) [] same h k = let q = same j in ground arith
empty_lem ((j, v) ∷ m) (x ∷ xs) same h k = omega arith

pub nonempty : (c : ConsistentHash) → IsValid c → 0 < length c.circle → 0 < length c.sorted_hashes
nonempty c v h = elim (dec_lt 0 (length c.sorted_hashes)) [
  | yes k ↦ k
  | no k ↦ absurd (empty_lem c.circle c.sorted_hashes v.same h k)
]

-- On a valid ring that is not empty GetHash returns the key's owner.
pub get_hash-IsOwner :
    (c : ConsistentHash) (key : ℕ)
    → IsValid c
    → 0 < length c.circle
    → (name : Name) × (get_hash c key ≡ ret (some name)) × IsOwner c key name
unfolding get_hash
get_hash-IsOwner c key v h =
    let some_host : (length c.circle == 0) ≡ false = ground arith in
    let a = IsOrdered-IsAscending c.sorted_hashes v.ordered in
    let (idx, e, p) =
      Returns-cases (IsPlace c.sorted_hashes key) (search c key)
        (search_lem c key a (nonempty c v h)) in
    let (name, q, o) = name_at-IsOwner c key idx v p in (name, rw (some_host, e, q) refl, o)

pub get-eq-get_hash :
    (c : ConsistentHash) (key : List ℕ) → 0 < c.bucket_num → get c key ≡ get_hash c (hash_of c key)
unfolding get get_hash
get-eq-get_hash c key h = rw (hash-ret c key h) refl

pub IsOwner-unique :
    (c : ConsistentHash) (key : ℕ) (name name' : Name)
    → IsOwner c key name
    → IsOwner c key name'
    → name ≡ name'
IsOwner-unique c key name name' o o' =
    let e = IsSuccessor-unique (keys c.circle) key o.at o'.at o.successor o'.successor in
    some-injective name name' (sym o.found ∙ ap (circle_at c) e ∙ o'.found)
