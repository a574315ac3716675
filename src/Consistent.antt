-- ===== src/Consistent.antt =====
-- hash/consistent/consistent.go: ConsistentHash, the ring of hashes of the hosts' replicas.
-- A name is its bytes. A map is a list of keys and values; what is said of it does not depend on
-- their order. The hash function is the field `hash_func`, any function from bytes to a uint64.
-- Loads are unbounded integers, where the code's int64 would wrap.
pub mod Search
pub mod Circle
pub mod Owner
pub mod Sorted
pub mod State
pub mod Grow
pub mod Shrink
pub mod Loads
pub mod Calls
pub mod Around
pub mod Several
pub mod Names
pub mod Hosts
pub mod Setting
mod Tests
use goext.Prelude.{
  ℕ, zero, suc, ◌+◌, ◌-◌, ◌*◌, ◌/◌, ◌%◌, ◌^◌, List, [], ◌∷◌, ◌++◌, Bool, true, false, leb, ltb,
  ◌==◌, ◌&&◌, if◌then◌else◌, Option, none, some, length, get_or, Outcome, ret, panic, no_fuel,
  ◌>>=◌, nth, rem,
}
use goext.Prelude.Int.{ℤ, pos, negsuc, ◌-ℤ◌, ◌+ℤ◌}

abbrev pub Name : Type 0
Name = List ℕ

abbrev pub same_name : Name → Name → Bool
same_name [] [] = true
same_name [] (y ∷ ys) = false
same_name (x ∷ xs) [] = false
same_name (x ∷ xs) (y ∷ ys) = (x == y) && same_name xs ys

-- Go's maps: a lookup, `m[k] = v` and delete.
module _ {K V : Type 0} (same : K → K → Bool) where
  abbrev pub lookup : List (K × V) → K → Option V
  lookup [] k = none
  lookup ((k', v) ∷ m) k = if same k' k then some v else lookup m k

  abbrev pub assign : List (K × V) → K → V → List (K × V)
  assign [] k v = (k, v) ∷ []
  assign ((k', v') ∷ m) k v =
      let rest = assign m k v in if same k' k then (k', v) ∷ m else (k', v') ∷ rest

  abbrev pub delete : List (K × V) → K → List (K × V)
  delete [] k = []
  delete ((k', v) ∷ m) k = let rest = delete m k in if same k' k then m else (k', v) ∷ rest

abbrev pub keys : {V : Type 0} → List (ℕ × V) → List ℕ
keys [] = []
keys ((k, v) ∷ m) = k ∷ keys m

pub record ConsistentHash : Type 0 where
  pub circle : List (ℕ × Name)
  pub sorted_hashes : List ℕ
  pub load_map : List (Name × ℤ)
  pub total_load : ℤ
  pub replica_factor : ℕ
  pub bucket_num : ℕ
  pub hash_func : List ℕ → ℕ

pub record Options : Type 0 where
  pub option_hash_func : Option (List ℕ → ℕ)
  pub replica_num : ℤ
  pub max_vnode_num : ℤ

abbrev pub replication_factor : ℕ
replication_factor = 10

abbrev pub max_bucket_num : ℕ
max_bucket_num = 2 ^ 32 - 1

-- `uint32(n)` of an option, or the default if it is not above 0.
unfoldable pub option_or : ℤ → ℕ → ℕ
option_or (negsuc k) default = default
option_or (pos k) default = if k == 0 then default else k % 2 ^ 32

-- The default hash function is blake2b's, a parameter.
unfoldable pub new_consistent_hash : (List ℕ → ℕ) → Options → ConsistentHash
new_consistent_hash blake2b options = record {
  circle = [];
  sorted_hashes = [];
  load_map = [];
  total_load = pos 0;
  replica_factor = option_or options.replica_num replication_factor;
  bucket_num = option_or options.max_vnode_num max_bucket_num;
  hash_func = elim options.option_hash_func [ none ↦ blake2b | some f ↦ f ];
}

-- strconv.Itoa, with fuel of the number's size: the decimal digits in front of `rest`.
abbrev pub digits : ℕ → ℕ → List ℕ → List ℕ
digits zero n rest = rest
digits (suc fuel) n rest =
    let more = digits fuel (n / 10) ((48 + n % 10) ∷ rest) in
    if ltb n 10 then (48 + n) ∷ rest else more

unfoldable pub elt_key : Name → ℕ → List ℕ
elt_key elt idx = digits (idx + 1) idx [] ++ elt

unfoldable pub hash : ConsistentHash → List ℕ → Outcome ℕ
hash c key = rem (c.hash_func key % 2 ^ 32) c.bucket_num

-- sort.Sort on uint32.
abbrev pub insert : ℕ → List ℕ → List ℕ
insert x [] = x ∷ []
insert x (y ∷ ys) = let rest = insert x ys in if leb x y then x ∷ y ∷ ys else y ∷ rest

abbrev pub sort : List ℕ → List ℕ
sort [] = []
sort (x ∷ xs) = insert x (sort xs)

-- What is kept of the old array is a matter of memory, but its test divides.
unfoldable pub update_sorted_hashes : ConsistentHash → Outcome ConsistentHash
update_sorted_hashes c =
    if c.replica_factor * 4 % 2 ^ 32 == 0
    then panic
    else ret (record c { sorted_hashes = sort (keys c.circle) })

-- The loop of add, with `n` rounds left, at replica `i`.
unfoldable pub add_replicas : ℕ → ℕ → ConsistentHash → Name → Outcome ConsistentHash
add_replicas zero i c host = ret c
add_replicas (suc n) i c host = do
  h ← hash c (elt_key host i)
  add_replicas n (i + 1)
      (record c {
        circle = assign (◌==◌) c.circle h host;
        sorted_hashes = c.sorted_hashes ++ (h ∷ []);
      })
      host

unfoldable pub add : ConsistentHash → Name → Outcome ConsistentHash
add c host =
    let added : Outcome ConsistentHash = do
      c' ←
          add_replicas c.replica_factor 0
            (record c { load_map = assign same_name c.load_map host (pos 0) }) host
      update_sorted_hashes c'
    in elim (lookup same_name c.load_map host) [ some load ↦ ret c | none ↦ added ]

-- After an element is taken out at an index, the loop goes on with the index after it, so that the
-- element that moved there is passed over.
unfoldable pub del_slice : List ℕ → ℕ → List ℕ
del_slice [] val = []
del_slice (x ∷ []) val = if x == val then [] else x ∷ []
del_slice (x ∷ y ∷ ys) val =
    let skip = del_slice ys val in
    let step = del_slice (y ∷ ys) val in if x == val then y ∷ skip else x ∷ step

unfoldable pub remove_replicas : ℕ → ℕ → ConsistentHash → Name → Outcome ConsistentHash
remove_replicas zero i c host = ret c
remove_replicas (suc n) i c host = do
  h ← hash c (elt_key host i)
  remove_replicas n (i + 1)
      (record c { circle = delete (◌==◌) c.circle h; sorted_hashes = del_slice c.sorted_hashes h })
      host

unfoldable pub remove : ConsistentHash → Name → Outcome (Bool × ConsistentHash)
remove c host = do
  c' ← remove_replicas c.replica_factor 0 c host
  ret (
    true,
    elim (lookup same_name c'.load_map host) [
      | none ↦ c'
      | some load ↦ record c' {
        total_load = c'.total_load -ℤ load;
        load_map = delete same_name c'.load_map host;
      }
    ],
  )

-- The loop of sort.Search: the least index from `i` up to `j` of a hash no smaller than the key.
unfoldable pub search_loop : ℕ → List ℕ → ℕ → ℕ → ℕ → Outcome ℕ
search_loop zero hashes key i j = if ltb i j then no_fuel else ret i
search_loop (suc fuel) hashes key i j =
    let middle = (i + j) / 2 in
    let go : Outcome ℕ = do
      h ← nth hashes middle
      if leb key h
          then search_loop fuel hashes key i middle
          else search_loop fuel hashes key (middle + 1) j
    in if ltb i j then go else ret i

unfoldable pub search : ConsistentHash → ℕ → Outcome ℕ
search c key = do
  idx ← search_loop (length c.sorted_hashes) c.sorted_hashes key 0 (length c.sorted_hashes)
  ret (if leb (length c.sorted_hashes) idx then 0 else idx)

-- c.circle[c.sortedHashes[idx]]; a missing key reads as the empty name.
unfoldable pub name_at : ConsistentHash → ℕ → Outcome Name
name_at c idx = do
  h ← nth c.sorted_hashes idx
  ret (elim (lookup (◌==◌) c.circle h) [ none ↦ [] | some name ↦ name ])

-- A result of none is ErrNoHosts.
unfoldable pub get_hash : ConsistentHash → ℕ → Outcome (Option Name)
get_hash c hash_key =
    let found : Outcome (Option Name) = do
      idx ← search c hash_key
      name ← name_at c idx
      ret (some name)
    in if length c.circle == 0 then ret none else found

unfoldable pub get : ConsistentHash → List ℕ → Outcome (Option Name)
get c key =
    let found : Outcome (Option Name) = do
      h ← hash c key
      idx ← search c h
      name ← name_at c idx
      ret (some name)
    in if length c.circle == 0 then ret none else found

-- A pointer to a Host is its entry in the load map.
unfoldable pub update_load : ConsistentHash → Name → ℤ → ConsistentHash
update_load c host load = elim (lookup same_name c.load_map host) [
  | none ↦ c
  | some old ↦ record c {
    load_map = assign same_name c.load_map host load;
    total_load = c.total_load -ℤ old +ℤ load;
  }
]

-- A host that is not there is a nil pointer.
unfoldable pub inc : ConsistentHash → Name → Outcome ConsistentHash
inc c host = elim (lookup same_name c.load_map host) [
  | none ↦ panic
  | some old ↦ ret (record c {
    load_map = assign same_name c.load_map host (old +ℤ pos 1);
    total_load = c.total_load +ℤ pos 1;
  })
]

unfoldable pub done : ConsistentHash → Name → ConsistentHash
done c host = elim (lookup same_name c.load_map host) [
  | none ↦ c
  | some old ↦ record c {
    load_map = assign same_name c.load_map host (old -ℤ pos 1);
    total_load = c.total_load -ℤ pos 1;
  }
]
