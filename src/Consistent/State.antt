-- ===== src/Consistent/State.antt =====
-- Validity of a ConsistentHash, and the loops of add and remove.
use goext.Prelude.{
  ℕ, zero, suc, ◌+◌, ◌*◌, ◌%◌, ◌^◌, ◌<◌, List, [], ◌∷◌, ◌++◌, ◌≡◌, refl, sym, ap, ◌∙◌, arith, true,
  false, ◌==◌, ◌&&◌, not, Option, some, ret, rem-ret, Returns, Returns-map, Bool-cases, inl, inr,
  ◌⊎◌,
}
use goext.Consistent.{
  ConsistentHash, Name, lookup, assign, delete, keys, hash, elt_key, add_replicas, remove_replicas,
  del_slice,
}
use goext.Consistent.Circle.{
  mem, IsUnique, lookup-assign, mem-assign, assign-IsUnique, mem-delete, delete-IsUnique,
  lookup-delete,
}
use goext.Consistent.Sorted.{IsOrdered, del_slice_lem}

-- The number of buckets and the number of replicas are as an operation needs them.
pub record IsSized (c : ConsistentHash) : Type 0 where
  pub buckets : 0 < c.bucket_num
  pub replicas : 0 < c.replica_factor * 4 % 2 ^ 32

-- The sorted hashes are those of the circle, in ascending order, none twice.
pub record IsValid (c : ConsistentHash) : Type 0 where
  pub sized : IsSized c
  pub unique : IsUnique (keys c.circle)
  pub ordered : IsOrdered c.sorted_hashes
  pub same : (j : ℕ) → mem j c.sorted_hashes ≡ mem j (keys c.circle)

abbrev pub hash_of : ConsistentHash → List ℕ → ℕ
hash_of c key = c.hash_func key % 2 ^ 32 % c.bucket_num

pub hash-ret :
    (c : ConsistentHash) (key : List ℕ) → 0 < c.bucket_num → hash c key ≡ ret (hash_of c key)
unfolding hash
hash-ret c key h = rem-ret (c.hash_func key % 2 ^ 32) c.bucket_num h

-- The fields that the replicas' rounds leave alone.
pub record IsAlike (c c' : ConsistentHash) : Type 0 where
  pub replicas : c'.replica_factor ≡ c.replica_factor
  pub buckets : c'.bucket_num ≡ c.bucket_num
  pub hashes : c'.hash_func ≡ c.hash_func
  pub total : c'.total_load ≡ c.total_load

abbrev pub circle_at : ConsistentHash → ℕ → Option Name
circle_at c h = lookup (◌==◌) c.circle h

-- `j` is the hash of one of the host's `n` replicas from `i` on.
abbrev pub IsReplica : ℕ → ℕ → (List ℕ → ℕ) → Name → ℕ → Type 0
IsReplica zero i f host j = ⊥
IsReplica (suc n) i f host j = (f (elt_key host i) ≡ j) ⊎ IsReplica n (i + 1) f host j

-- What the rounds of add do to the circle: the entries of the replicas become the host's, the
-- others are kept.
pub record IsAdded (n i : ℕ) (c : ConsistentHash) (host : Name) (c' : ConsistentHash) : Type 0 where
  pub alike : IsAlike c c'
  pub unique : IsUnique (keys c'.circle)
  pub entry : (j : ℕ) → (circle_at c' j ≡ circle_at c j) ⊎ (circle_at c' j ≡ some host)
  pub kept : (j : ℕ) → mem j (keys c.circle) ≡ true → mem j (keys c'.circle) ≡ true
  pub placed : (j : ℕ) → IsReplica n i (hash_of c) host j → circle_at c' j ≡ some host
  pub hosts : c'.load_map ≡ c.load_map

abbrev with_entry : ConsistentHash → ℕ → Name → ConsistentHash
with_entry c h host = record c {
  circle = assign (◌==◌) c.circle h host;
  sorted_hashes = c.sorted_hashes ++ (h ∷ []);
}

entry-with_entry :
    (c : ConsistentHash) (h : ℕ) (host : Name) (j : ℕ)
    → (circle_at (with_entry c h host) j ≡ circle_at c j)
      ⊎ (circle_at (with_entry c h host) j ≡ some host)
entry-with_entry c h host j =
    rw (lookup-assign c.circle h j host)
      (elim (Bool-cases (h == j)) [ inl e ↦ rw e (inr refl) | inr e ↦ rw e (inl refl) ])

placed-with_entry :
    (c : ConsistentHash) (h : ℕ) (host : Name) (j : ℕ)
    → h ≡ j
    → circle_at (with_entry c h host) j ≡ some host
placed-with_entry c h host j e =
    let same : (h == j) ≡ true = ground arith in rw (lookup-assign c.circle h j host, same) refl

IsAdded-with_entry :
    (n i : ℕ) (c : ConsistentHash) (host : Name) (c' : ConsistentHash)
    → IsAdded n (i + 1) (with_entry c (hash_of c (elt_key host i)) host) host c'
    → IsAdded (suc n) i c host c'
IsAdded-with_entry n i c host c' a =
    let h = hash_of c (elt_key host i) in
    record {
      alike = record {
        replicas = a.alike.replicas;
        buckets = a.alike.buckets;
        hashes = a.alike.hashes;
        total = a.alike.total;
      };
      unique = a.unique;
      entry = λ j. elim (a.entry j) [
        | inr q ↦ inr q
        | inl q ↦ elim (entry-with_entry c h host j) [ inl k ↦ inl (q ∙ k) | inr k ↦ inr (q ∙ k) ]
      ];
      kept = λ j k. a.kept j (mem-assign c.circle h j host ∙ ground arith);
      placed = λ j r. elim r [
        | inr r' ↦ a.placed j r'
        | inl e ↦ elim (a.entry j) [ inr q ↦ q | inl q ↦ q ∙ placed-with_entry c h host j e ]
      ];
      hosts = a.hosts;
    }

pub add_replicas_lem :
    (n i : ℕ) (c : ConsistentHash) (host : Name)
    → 0 < c.bucket_num
    → IsUnique (keys c.circle)
    → Returns (IsAdded n i c host) (add_replicas n i c host)
unfolding add_replicas
add_replicas_lem zero i c host b u = record {
  alike = record { replicas = refl; buckets = refl; hashes = refl; total = refl };
  unique = u;
  entry = λ j. inl refl;
  kept = λ j h. h;
  placed = λ j r. absurd r;
  hosts = refl;
}
add_replicas_lem (suc n) i c host b u =
    let h = hash_of c (elt_key host i) in
    rw (hash-ret c (elt_key host i) b) (
      Returns-map (IsAdded n (i + 1) (with_entry c h host) host) (IsAdded (suc n) i c host)
        (add_replicas n (i + 1) (with_entry c h host) host)
        (add_replicas_lem n (i + 1) (with_entry c h host) host b
          (assign-IsUnique c.circle h host u))
        (λ c' a. IsAdded-with_entry n i c host c' a))

-- What the rounds of remove do: the entries of the replicas go, the others are kept.
pub record IsRemoved (n i : ℕ) (c : ConsistentHash) (host : Name) (c' : ConsistentHash)
    : Type 0 where
  pub alike : IsAlike c c'
  pub valid : IsValid c'
  pub entry :
      (j : ℕ)
      → (circle_at c' j ≡ circle_at c j)
        ⊎ (IsReplica n i (hash_of c) host j × (mem j (keys c'.circle) ≡ false))
  pub gone : (j : ℕ) → mem j (keys c.circle) ≡ false → mem j (keys c'.circle) ≡ false
  pub removed : (j : ℕ) → IsReplica n i (hash_of c) host j → mem j (keys c'.circle) ≡ false
  pub hosts : c'.load_map ≡ c.load_map

abbrev without_entry : ConsistentHash → ℕ → ConsistentHash
without_entry c h = record c {
  circle = delete (◌==◌) c.circle h;
  sorted_hashes = del_slice c.sorted_hashes h;
}

without_entry-IsValid : (c : ConsistentHash) (h : ℕ) → IsValid c → IsValid (without_entry c h)
without_entry-IsValid c h v =
    let (o, m) = del_slice_lem c.sorted_hashes h v.ordered in
    record {
      sized = record { buckets = v.sized.buckets; replicas = v.sized.replicas };
      unique = delete-IsUnique c.circle h v.unique;
      ordered = o;
      same = λ j.
          m j ∙ ap (λ t. not (h == j) && t) (v.same j) ∙ sym (mem-delete c.circle h j v.unique);
    }

IsRemoved-without_entry :
    (n i : ℕ) (c : ConsistentHash) (host : Name) (c' : ConsistentHash)
    → IsUnique (keys c.circle)
    → IsRemoved n (i + 1) (without_entry c (hash_of c (elt_key host i))) host c'
    → IsRemoved (suc n) i c host c'
IsRemoved-without_entry n i c host c' u a =
    let h = hash_of c (elt_key host i) in
    record {
      alike = record {
        replicas = a.alike.replicas;
        buckets = a.alike.buckets;
        hashes = a.alike.hashes;
        total = a.alike.total;
      };
      valid = a.valid;
      entry = λ j. elim (a.entry j) [
        | inr q ↦ inr (inr q.0, q.1)
        | inl q ↦ elim (Bool-cases (h == j)) [
          | inl e ↦ inr (inl (ground arith), a.gone j (mem-delete c.circle h j u ∙ ground arith))
          | inr e ↦ inl (q ∙ lookup-delete c.circle h j e)
        ]
      ];
      gone = λ j k. a.gone j (mem-delete c.circle h j u ∙ ground arith);
      removed = λ j r. elim r [
        | inr r' ↦ a.removed j r'
        | inl e ↦ a.gone j (mem-delete c.circle h j u ∙ ground arith)
      ];
      hosts = a.hosts;
    }

pub remove_replicas_lem :
    (n i : ℕ) (c : ConsistentHash) (host : Name)
    → IsValid c
    → Returns (IsRemoved n i c host) (remove_replicas n i c host)
unfolding remove_replicas
remove_replicas_lem zero i c host v = record {
  alike = record { replicas = refl; buckets = refl; hashes = refl; total = refl };
  valid = v;
  entry = λ j. inl refl;
  gone = λ j h. h;
  removed = λ j r. absurd r;
  hosts = refl;
}
remove_replicas_lem (suc n) i c host v =
    let h = hash_of c (elt_key host i) in
    rw (hash-ret c (elt_key host i) v.sized.buckets) (
      Returns-map (IsRemoved n (i + 1) (without_entry c h) host) (IsRemoved (suc n) i c host)
        (remove_replicas n (i + 1) (without_entry c h) host)
        (remove_replicas_lem n (i + 1) (without_entry c h) host (without_entry-IsValid c h v))
        (λ c' a. IsRemoved-without_entry n i c host c' v.unique a))
