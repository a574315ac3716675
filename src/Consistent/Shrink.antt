-- ===== src/Consistent/Shrink.antt =====
-- What Remove does to the owners of keys.
use goext.Prelude.{
  ℕ, List, ◌≡◌, refl, sym, ap, ◌∙◌, arith, Bool, true, false, length, some, ret, Returns,
  Returns-bind, Bool-cases, inl, inr, ◌⊎◌,
}
use native.Mathlib.Decide.{dec_lt}
use mathlib.Core.Option.{some-injective}
use goext.Prelude.Int.{ℤ, ◌-ℤ◌}
use goext.Consistent.{
  ConsistentHash, Name, same_name, delete, keys, remove, remove_replicas, get, get_hash, search,
  name_at, hash,
}
use goext.Consistent.Circle.{mem, mem-lookup}
use goext.Consistent.State.{IsValid, IsRemoved, IsReplica, circle_at, hash_of, remove_replicas_lem}
use goext.Consistent.Grow.{lookup-cases, get_hash-owner, get_hash-empty, length-keys, get-alike}
use goext.Consistent.Owner.{IsSuccessor-fewer, IsOwner, get_hash-IsOwner}

kept_before :
    (n i : ℕ) (c c' : ConsistentHash) (host : Name)
    → IsRemoved n i c host c'
    → (j : ℕ) → mem j (keys c'.circle) ≡ true
    → mem j (keys c.circle) ≡ true
kept_before n i c c' host a j h = elim (Bool-cases (mem j (keys c.circle))) [
  | inl e ↦ e
  | inr e ↦ let gone = a.gone j e in absurd (ground arith)
]

-- A key whose owner's hash stays keeps its owner; the others had a replica of the host's.
removed-IsOwner :
    (n i : ℕ) (c c' : ConsistentHash) (host : Name) (key : ℕ) (name : Name)
    → IsRemoved n i c host c'
    → IsOwner c key name
    → IsOwner c' key name
      ⊎ ((j : ℕ) × IsReplica n i (hash_of c) host j × (circle_at c j ≡ some name))
removed-IsOwner n i c c' host key name a o = elim (a.entry o.at) [
  | inr gone ↦ inr (o.at, gone.0, o.found)
  | inl same ↦ inl (record {
    at = o.at;
    successor =
        IsSuccessor-fewer (keys c'.circle) (keys c.circle) key o.at (kept_before n i c c' host a)
          (mem-lookup c'.circle o.at name (same ∙ o.found)) o.successor;
    found = same ∙ o.found;
  })
]

-- The host's replicas are on the ring, as Add puts them there, and no other host's at their hashes.
abbrev pub IsPlaced : ConsistentHash → Name → Type 0
IsPlaced c host =
    (j : ℕ) → IsReplica c.replica_factor 0 (hash_of c) host j → circle_at c j ≡ some host

removed_result :
    (c c' : ConsistentHash) (host : Name) (key : ℕ)
    → IsRemoved c.replica_factor 0 c host c'
    → IsValid c
    → IsPlaced c host
    → (get_hash c' key ≡ get_hash c key) ⊎ (get_hash c key ≡ ret (some host))
removed_result c c' host key a v p = elim (dec_lt 0 (length c.circle)) [
  | no h ↦
      let none_left =
        length-keys c'.circle c.circle (kept_before c.replica_factor 0 c c' host a) h in
      inl (get_hash-empty c' key none_left ∙ sym (get_hash-empty c key h))
  | yes h ↦
      let (name, e, o) = get_hash-IsOwner c key v h in
      elim (removed-IsOwner c.replica_factor 0 c c' host key name a o) [
        | inl kept ↦ inl (get_hash-owner c' key name a.valid kept ∙ sym e)
        | inr (j, r, q) ↦
            inr (e ∙ ap (λ x. ret (some x)) (some-injective name host (sym q ∙ p j r)))
      ]
]

-- What Remove leaves.
pub record IsWithout (c : ConsistentHash) (host : Name) (r : Bool × ConsistentHash) : Type 0 where
  pub result : r.0 ≡ true
  pub valid : IsValid r.1
  pub others : (key : List ℕ) → (get r.1 key ≡ get c key) ⊎ (get c key ≡ ret (some host))
  pub removed :
      (j : ℕ) → IsReplica c.replica_factor 0 (hash_of c) host j → mem j (keys r.1.circle) ≡ false

removed-IsWithout :
    (c c' : ConsistentHash) (host : Name)
    → IsRemoved c.replica_factor 0 c host c'
    → IsValid c
    → IsPlaced c host
    → IsWithout c host (true, c')
removed-IsWithout c c' host a v p = record {
  result = refl;
  valid = a.valid;
  others = λ key.
      let (e, e') = get-alike c c' key a.alike v a.valid in
      elim (removed_result c c' host (hash_of c key) a v p) [
        | inl q ↦ inl (e' ∙ q ∙ sym e)
        | inr q ↦ inr (e ∙ q)
      ];
  removed = a.removed;
}

-- The loads do not matter.
unloaded-IsWithout :
    (c c' : ConsistentHash) (host : Name) (m : List (Name × ℤ)) (t : ℤ)
    → IsWithout c host (true, c')
    → IsWithout c host (true, record c' { total_load = t; load_map = m })
unfolding get search name_at hash
unloaded-IsWithout c c' host m t w = record {
  result = refl;
  valid = record {
    sized = record { buckets = w.valid.sized.buckets; replicas = w.valid.sized.replicas };
    unique = w.valid.unique;
    ordered = w.valid.ordered;
    same = w.valid.same;
  };
  others = w.others;
  removed = w.removed;
}

-- Remove of a host whose replicas are on a valid ring leaves a valid ring without their hashes, on
-- which Get returns for every key what it returned, unless that was the host.
pub remove_keeps_others :
    (c : ConsistentHash) (host : Name)
    → IsValid c
    → IsPlaced c host
    → Returns (IsWithout c host) (remove c host)
unfolding remove
remove_keeps_others c host v p =
    Returns-bind (IsRemoved c.replica_factor 0 c host) (IsWithout c host)
      (remove_replicas c.replica_factor 0 c host) _
      (remove_replicas_lem c.replica_factor 0 c host v)
      (λ c' a.
        let w = removed-IsWithout c c' host a v p in
        elim (lookup-cases c'.load_map host) [
          | inl (load, e) ↦ rw e (
              unloaded-IsWithout c c' host (delete same_name c'.load_map host)
                (c'.total_load -ℤ load) w)
          | inr e ↦ rw e w
        ])
