-- ===== src/Consistent/Several.antt =====
-- hash/consistent/consistent.go: GetTwo and GetN, which go around the ring, Set and Members.
-- A loop around the ring has as fuel one more than the number of hashes; where it does not meet what
-- it looks for, and starts at the first hash, it never ends, and the fuel runs out.
use goext.Prelude.{
  ℕ, zero, suc, ◌+◌, List, [], ◌∷◌, ◌++◌, Bool, true, false, leb, ltb, ◌==◌, if◌then◌else◌, Option,
  none, some, length, Outcome, ret, no_fuel, ◌>>=◌,
}
use goext.Prelude.Int.{ℤ}
use goext.Consistent.{ConsistentHash, Name, same_name, lookup, hash, search, name_at, add}
use goext.Consistent.Calls.{remove_host, perform}

-- `if i >= len(c.sortedHashes) { i = 0 }`
abbrev pub around : ConsistentHash → ℕ → ℕ
around c i = if leb (length c.sorted_hashes) i then 0 else i

-- The loop of GetTwo, before the test of a round; `b` is the name that was read last.
unfoldable pub two_loop : ℕ → ConsistentHash → Name → ℕ → ℕ → Name → Outcome Name
two_loop zero c a start i b = no_fuel
two_loop (suc fuel) c a start i b =
    let go : Outcome Name = do
      b' ← name_at c (around c i)
      let rest = two_loop fuel c a start (around c i + 1) b'
      if same_name b' a then rest else ret b'
    in if i == start then ret b else go

unfoldable pub get_two : ConsistentHash → List ℕ → Outcome (Option (Name × Name))
get_two c name =
    let found : Outcome (Option (Name × Name)) = do
      key ← hash c name
      i ← search c key
      a ← name_at c i
      let second : Outcome (Option (Name × Name)) = do
        b ← two_loop (length c.sorted_hashes + 1) c a i (i + 1) []
        ret (some (a, b))
      if length c.load_map == 1 then ret (some (a, [])) else second
    in if length c.circle == 0 then ret none else found

unfoldable pub slice_contains_member : List Name → Name → Bool
slice_contains_member [] member = false
slice_contains_member (x ∷ xs) member =
    if same_name x member then true else slice_contains_member xs member

-- The loop of GetN.
unfoldable pub n_loop : ℕ → ConsistentHash → ℕ → ℕ → ℕ → List Name → Outcome (List Name)
n_loop zero c n start i res = no_fuel
n_loop (suc fuel) c n start i res =
    let go : Outcome (List Name) = do
      elem ← name_at c (around c i)
      let res' = if slice_contains_member res elem then res else res ++ elem ∷ []
      let rest = n_loop fuel c n start (around c i + 1) res'
      if length res' == n then ret res' else rest
    in if i == start then ret res else go

-- A negative `n` panics; it is no number here.
unfoldable pub get_n : ConsistentHash → List ℕ → ℕ → Outcome (Option (List Name))
get_n c name n =
    let m = if ltb (length c.load_map) n then length c.load_map else n in
    let found : Outcome (Option (List Name)) = do
      key ← hash c name
      i ← search c key
      elem ← name_at c i
      let more : Outcome (Option (List Name)) = do
        res ← n_loop (length c.sorted_hashes + 1) c m i (i + 1) (elem ∷ [])
        ret (some res)
      if m == 1 then ret (some (elem ∷ [])) else more
    in if length c.circle == 0 then ret none else found

-- Members and Hosts: the names of the load map, in its order.
unfoldable pub members : List (Name × ℤ) → List Name
members [] = []
members ((name, load) ∷ m) = name ∷ members m

-- The first loop of Set, over the names that the load map had.
unfoldable pub drop_others : List Name → List Name → ConsistentHash → Outcome ConsistentHash
drop_others [] elts c = ret c
drop_others (k ∷ ks) elts c = do
  c' ← if slice_contains_member elts k then ret c else perform c (remove_host k)
  drop_others ks elts c'

-- The second loop of Set.
unfoldable pub add_missing : List Name → ConsistentHash → Outcome ConsistentHash
add_missing [] c = ret c
add_missing (v ∷ vs) c = do
  c' ← elim (lookup same_name c.load_map v) [ some load ↦ ret c | none ↦ add c v ]
  add_missing vs c'

unfoldable pub set_hosts : ConsistentHash → List Name → Outcome ConsistentHash
set_hosts c elts = do c' ← drop_others (members c.load_map) elts c; add_missing elts c'
