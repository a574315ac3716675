-- ===== src/Consistent/Grow.antt =====
-- What Add does to the owners of keys.
use goext.Prelude.{
  ℕ, ◌<◌, ◌*◌, ◌%◌, ◌^◌, List, [], ◌∷◌, ◌≡◌, refl, sym, ap, ◌∙◌, arith, true, false, ◌==◌, length,
  Option, none, some, ret, Returns, Returns-bind, Returns-map, inl, inr, ◌⊎◌,
}
use native.Mathlib.Decide.{dec_lt}
use mathlib.Core.Option.{some-injective}
use goext.Prelude.Int.{ℤ, pos}
use goext.Consistent.{
  ConsistentHash, Name, same_name, lookup, assign, keys, sort, add, add_replicas,
  update_sorted_hashes, get, get_hash, search, name_at, hash,
}
use goext.Consistent.Circle.{mem, mem-lookup}
use goext.Consistent.Sorted.{mem-sort, sort-IsOrdered}
use goext.Consistent.State.{IsValid, IsAdded, IsAlike, hash_of, add_replicas_lem}
use goext.Consistent.Owner.{
  IsSuccessor-fewer, IsOwner, IsOwner-unique, get_hash-IsOwner, get-eq-get_hash,
}

-- A key's new owner is its old one, or the host.
added-IsOwner :
    (n i : ℕ) (c c' : ConsistentHash) (host : Name) (key : ℕ) (name' : Name)
    → IsAdded n i c host c'
    → IsOwner c' key name'
    → IsOwner c key name' ⊎ (name' ≡ host)
added-IsOwner n i c c' host key name' a o = elim (a.entry o.at) [
  | inl same ↦ inl (record {
    at = o.at;
    successor =
        IsSuccessor-fewer (keys c.circle) (keys c'.circle) key o.at a.kept
          (mem-lookup c.circle o.at name' (sym same ∙ o.found)) o.successor;
    found = sym same ∙ o.found;
  })
  | inr new ↦ inr (some-injective name' host (sym o.found ∙ new))
]

pub length-mem : (m : List (ℕ × Name)) (j : ℕ) → mem j (keys m) ≡ true → 0 < length m
length-mem [] j h = absurd (ground arith)
length-mem (e ∷ m) j h = omega arith

pub get_hash-owner :
    (c : ConsistentHash) (key : ℕ) (name : Name)
    → IsValid c
    → IsOwner c key name
    → get_hash c key ≡ ret (some name)
get_hash-owner c key name v o =
    let (name', e, o') = get_hash-IsOwner c key v (length-mem c.circle o.at o.successor.member) in
    e ∙ ap (λ n. ret (some n)) (IsOwner-unique c key name' name o' o)

pub get_hash-empty :
    (c : ConsistentHash) (key : ℕ) → ¬ (0 < length c.circle) → get_hash c key ≡ ret none
unfolding get_hash
get_hash-empty c key h =
    let none_there : (length c.circle == 0) ≡ true = ground arith in rw none_there refl

pub length-keys :
    (m m' : List (ℕ × Name))
    → ((j : ℕ) → mem j (keys m) ≡ true → mem j (keys m') ≡ true)
    → ¬ (0 < length m')
    → ¬ (0 < length m)
length-keys [] m' f h = λ k. omega arith
length-keys ((j, v) ∷ m) m' f h = λ k. h (length-mem m' j (f j (ground arith)))

-- The same of what GetHash returns, the empty ring included.
added_result :
    (n i : ℕ) (c c' : ConsistentHash) (host : Name) (key : ℕ)
    → IsAdded n i c host c'
    → IsValid c
    → IsValid c'
    → (get_hash c' key ≡ get_hash c key) ⊎ (get_hash c' key ≡ ret (some host))
added_result n i c c' host key a v v' = elim (dec_lt 0 (length c'.circle)) [
  | no h ↦ inl (
      get_hash-empty c' key h
      ∙ sym (get_hash-empty c key (length-keys c.circle c'.circle a.kept h)))
  | yes h ↦
      let (name', e, o) = get_hash-IsOwner c' key v' h in
      elim (added-IsOwner n i c c' host key name' a o) [
        | inl old ↦ inl (e ∙ sym (get_hash-owner c key name' v old))
        | inr new ↦ inr (e ∙ ap (λ x. ret (some x)) new)
      ]
]

pub zero_test : (x : ℕ) → 0 < x → (x == 0) ≡ false
zero_test x h = ground arith

option-cases : (o : Option ℤ) → ((x : ℤ) × (o ≡ some x)) ⊎ (o ≡ none)
option-cases none = inr refl
option-cases (some x) = inl (x, refl)

pub lookup-cases :
    (m : List (Name × ℤ)) (host : Name)
    → ((load : ℤ) × (lookup same_name m host ≡ some load)) ⊎ (lookup same_name m host ≡ none)
lookup-cases m host = option-cases (lookup same_name m host)

-- What Add returns, for `get` on any key.
pub record IsMoved (c : ConsistentHash) (host : Name) (c' : ConsistentHash) : Type 0 where
  pub valid : IsValid c'
  pub moved : (key : List ℕ) → (get c' key ≡ get c key) ⊎ (get c' key ≡ ret (some host))

-- The ring after updateSortedHashes.
abbrev pub resorted : ConsistentHash → ConsistentHash
resorted c = record c { sorted_hashes = sort (keys c.circle) }

resorted-IsAdded :
    (n i : ℕ) (c c' : ConsistentHash) (host : Name)
    → IsAdded n i c host c'
    → IsAdded n i c host (resorted c')
resorted-IsAdded n i c c' host a = record {
  alike = record {
    replicas = a.alike.replicas;
    buckets = a.alike.buckets;
    hashes = a.alike.hashes;
    total = a.alike.total;
  };
  unique = a.unique;
  entry = a.entry;
  kept = a.kept;
  placed = a.placed;
  hosts = a.hosts;
}

replicas_lem : (r r' : ℕ) → r' ≡ r → 0 < r * 4 % 2 ^ 32 → 0 < r' * 4 % 2 ^ 32
replicas_lem r r' e h = rw e h

pub resorted-IsValid :
    (n i : ℕ) (c c' : ConsistentHash) (host : Name)
    → IsAdded n i c host c'
    → IsValid c
    → IsValid (resorted c')
resorted-IsValid n i c c' host a v = record {
  sized = record {
    buckets = omega (arith, v.sized.buckets, a.alike.buckets);
    replicas = replicas_lem c.replica_factor c'.replica_factor a.alike.replicas v.sized.replicas;
  };
  unique = a.unique;
  ordered = sort-IsOrdered (keys c'.circle) a.unique;
  same = λ j. mem-sort j (keys c'.circle);
}

pub hash_of-alike :
    (c c' : ConsistentHash) (key : List ℕ) → IsAlike c c' → hash_of c' key ≡ hash_of c key
hash_of-alike c c' key a =
    ap (λ f. f key % 2 ^ 32 % c'.bucket_num) a.hashes
    ∙ ap (λ b. c.hash_func key % 2 ^ 32 % b) a.buckets

-- From GetHash to Get.
pub get-alike :
    (c c' : ConsistentHash) (key : List ℕ)
    → IsAlike c c'
    → IsValid c
    → IsValid c'
    → (get c key ≡ get_hash c (hash_of c key)) × (get c' key ≡ get_hash c' (hash_of c key))
get-alike c c' key a v v' = (
  get-eq-get_hash c key v.sized.buckets,
  get-eq-get_hash c' key v'.sized.buckets ∙ ap (get_hash c') (hash_of-alike c c' key a),
)

added-IsMoved :
    (n i : ℕ) (c c' : ConsistentHash) (host : Name)
    → IsAdded n i c host c'
    → IsValid c
    → IsValid c'
    → IsMoved c host c'
added-IsMoved n i c c' host a v v' = record {
  valid = v';
  moved = λ key.
      let (e, e') = get-alike c c' key a.alike v v' in
      elim (added_result n i c c' host (hash_of c key) a v v') [
        | inl q ↦ inl (e' ∙ q ∙ sym e)
        | inr q ↦ inr (e' ∙ q)
      ];
}

updated_lem :
    (n i : ℕ) (c c' : ConsistentHash) (host : Name)
    → IsAdded n i c host c'
    → IsValid c
    → Returns (IsMoved c host) (update_sorted_hashes c')
unfolding update_sorted_hashes
updated_lem n i c c' host a v =
    let v' = resorted-IsValid n i c c' host a v in
    let sized : (c'.replica_factor * 4 % 2 ^ 32 == 0) ≡ false = zero_test _ v'.sized.replicas in
    rw sized (added-IsMoved n i c (resorted c') host (resorted-IsAdded n i c c' host a) v v')

-- The load map is no part of what Get reads.
abbrev pub listed : ConsistentHash → List (Name × ℤ) → ConsistentHash
listed c m = record c { load_map = m }

pub get-listed :
    (c : ConsistentHash) (m : List (Name × ℤ)) (key : List ℕ) → get (listed c m) key ≡ get c key
unfolding get search name_at hash
get-listed c m key = refl

pub listed-IsValid : (c : ConsistentHash) (m : List (Name × ℤ)) → IsValid c → IsValid (listed c m)
listed-IsValid c m v = record {
  sized = record { buckets = v.sized.buckets; replicas = v.sized.replicas };
  unique = v.unique;
  ordered = v.ordered;
  same = v.same;
}

listed-IsMoved :
    (c : ConsistentHash) (m : List (Name × ℤ)) (host : Name) (c' : ConsistentHash)
    → IsMoved (listed c m) host c'
    → IsMoved c host c'
listed-IsMoved c m host c' r = record {
  valid = r.valid;
  moved = λ key. elim (r.moved key) [ inl q ↦ inl (q ∙ get-listed c m key) | inr q ↦ inr q ];
}

-- Add on a valid ring returns a valid ring, on which Get returns for every key what it returned, or
-- the host.
pub add_moves_to_host :
    (c : ConsistentHash) (host : Name) → IsValid c → Returns (IsMoved c host) (add c host)
unfolding add
add_moves_to_host c host v = elim (lookup-cases c.load_map host) [
  | inl (load, e) ↦ rw (add, e) (record { valid = v; moved = λ key. inl refl })
  | inr e ↦
      let m = assign same_name c.load_map host (pos 0) in
      let c₀ = listed c m in
      rw (add, e)
        (Returns-bind (IsAdded c.replica_factor 0 c₀ host) (IsMoved c host)
          (add_replicas c.replica_factor 0 c₀ host) update_sorted_hashes
          (add_replicas_lem c.replica_factor 0 c₀ host v.sized.buckets v.unique)
          (λ c' a.
            Returns-map (IsMoved c₀ host) (IsMoved c host) (update_sorted_hashes c')
              (updated_lem c.replica_factor 0 c₀ c' host a (listed-IsValid c m v))
              (listed-IsMoved c m host)))
]
