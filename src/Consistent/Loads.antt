-- ===== src/Consistent/Loads.antt =====
-- The total load and the hosts' loads.
use goext.Prelude.{List, [], ◌∷◌, ◌≡◌, refl, arith, none, some, Bool-cases, inl, inr}
use goext.Prelude.Int.{ℤ, pos, ◌+ℤ◌, ◌-ℤ◌, int_laws}
use goext.Consistent.{ConsistentHash, Name, same_name, lookup, assign, delete, update_load, done}
use goext.Consistent.Grow.{lookup-cases}

abbrev pub sum_loads : List (Name × ℤ) → ℤ
sum_loads [] = pos 0
sum_loads ((k, v) ∷ m) = v +ℤ sum_loads m

pub sum_loads-assign :
    (m : List (Name × ℤ)) (k : Name) (old v : ℤ)
    → lookup same_name m k ≡ some old
    → sum_loads (assign same_name m k v) ≡ sum_loads m -ℤ old +ℤ v
sum_loads-assign [] k old v h = absurd (ground arith)
sum_loads-assign ((k', v') ∷ m) k old v h = elim (Bool-cases (same_name k' k)) [
  | inl e ↦ let same : v' ≡ old = ground arith in rw (e, same) (omega int_laws)
  | inr e ↦ rw (e, sum_loads-assign m k old v (ground arith)) (omega int_laws)
]

pub sum_loads-new :
    (m : List (Name × ℤ)) (k : Name) (v : ℤ)
    → lookup same_name m k ≡ none
    → sum_loads (assign same_name m k v) ≡ sum_loads m +ℤ v
sum_loads-new [] k v h = omega int_laws
sum_loads-new ((k', v') ∷ m) k v h = elim (Bool-cases (same_name k' k)) [
  | inl e ↦ absurd (ground arith)
  | inr e ↦ rw (e, sum_loads-new m k v (ground arith)) (omega int_laws)
]

pub sum_loads-delete :
    (m : List (Name × ℤ)) (k : Name) (old : ℤ)
    → lookup same_name m k ≡ some old
    → sum_loads (delete same_name m k) ≡ sum_loads m -ℤ old
sum_loads-delete [] k old h = absurd (ground arith)
sum_loads-delete ((k', v') ∷ m) k old h = elim (Bool-cases (same_name k' k)) [
  | inl e ↦ let same : v' ≡ old = ground arith in rw (e, same) (omega int_laws)
  | inr e ↦ rw (e, sum_loads-delete m k old (ground arith)) (omega int_laws)
]

abbrev pub IsBalanced : ConsistentHash → Type 0
IsBalanced c = c.total_load ≡ sum_loads c.load_map

pub update_load-IsBalanced :
    (c : ConsistentHash) (host : Name) (load : ℤ)
    → IsBalanced c
    → IsBalanced (update_load c host load)
unfolding update_load
update_load-IsBalanced c host load b = elim (lookup-cases c.load_map host) [
  | inl (old, e) ↦ rw (update_load, e, sum_loads-assign c.load_map host old load e, b) refl
  | inr e ↦ rw (update_load, e) b
]

pub done-IsBalanced : (c : ConsistentHash) (host : Name) → IsBalanced c → IsBalanced (done c host)
unfolding done
done-IsBalanced c host b = elim (lookup-cases c.load_map host) [
  | inl (old, e) ↦
      rw (done, e, sum_loads-assign c.load_map host old (old -ℤ pos 1) e, b) (omega int_laws)
  | inr e ↦ rw (done, e) b
]
