-- ===== src/Consistent/Calls.antt =====
-- Calls that change the ring or its loads.
use goext.Prelude.{
  ℕ, List, ◌≡◌, sym, ap, ◌∙◌, none, some, Outcome, ret, ◌>>=◌, Returns, Returns-bind, inl, inr,
}
use goext.Prelude.Int.{ℤ, pos, ◌+ℤ◌, ◌-ℤ◌, int_laws}
use goext.Consistent.{
  ConsistentHash, Name, same_name, lookup, assign, delete, add, add_replicas, update_sorted_hashes,
  remove, remove_replicas, update_load, inc, done,
}
use goext.Consistent.State.{IsValid, IsAdded, IsRemoved, add_replicas_lem, remove_replicas_lem}
use goext.Consistent.Grow.{lookup-cases, listed, listed-IsValid, resorted-IsValid, zero_test}
use goext.Consistent.Loads.{
  IsBalanced, sum_loads, sum_loads-assign, sum_loads-new, sum_loads-delete, update_load-IsBalanced,
  done-IsBalanced,
}

pub record IsKept (c : ConsistentHash) : Type 0 where
  pub valid : IsValid c
  pub balanced : IsBalanced c

-- A call of a method that changes the ring or its loads.
pub data Call : Type 0 where
  add_host : Name → Call
  remove_host : Name → Call
  set_load : Name → ℤ → Call
  inc_load : Name → Call
  done_load : Name → Call

abbrev pub perform : ConsistentHash → Call → Outcome ConsistentHash
perform c (add_host host) = add c host
perform c (remove_host host) = remove c host >>= λ r. ret r.1
perform c (set_load host load) = ret (update_load c host load)
perform c (inc_load host) = inc c host
perform c (done_load host) = ret (done c host)

-- Inc is called for a host of the ring only.
abbrev pub IsLegal : ConsistentHash → Call → Type 0
IsLegal c (inc_load host) = (old : ℤ) × (lookup same_name c.load_map host ≡ some old)
IsLegal c (add_host host) = Unit {0}
IsLegal c (remove_host host) = Unit {0}
IsLegal c (set_load host load) = Unit {0}
IsLegal c (done_load host) = Unit {0}

reloaded-IsValid :
    (c : ConsistentHash) (m : List (Name × ℤ)) (t : ℤ)
    → IsValid c
    → IsValid (record c { total_load = t; load_map = m })
reloaded-IsValid c m t v = record {
  sized = record { buckets = v.sized.buckets; replicas = v.sized.replicas };
  unique = v.unique;
  ordered = v.ordered;
  same = v.same;
}

update_load-IsValid :
    (c : ConsistentHash) (host : Name) (load : ℤ) → IsValid c → IsValid (update_load c host load)
unfolding update_load
update_load-IsValid c host load v = elim (lookup-cases c.load_map host) [
  | inl (old, e) ↦ rw (update_load, e) (reloaded-IsValid c _ _ v)
  | inr e ↦ rw (update_load, e) v
]

done-IsValid : (c : ConsistentHash) (host : Name) → IsValid c → IsValid (done c host)
unfolding done
done-IsValid c host v = elim (lookup-cases c.load_map host) [
  | inl (old, e) ↦ rw (done, e) (reloaded-IsValid c _ _ v)
  | inr e ↦ rw (done, e) v
]

balanced_step : (t s old : ℤ) {x : ℤ} → x ≡ s -ℤ old +ℤ (old +ℤ pos 1) → t ≡ s → t +ℤ pos 1 ≡ x
balanced_step t s old e b = ap (λ y. y +ℤ pos 1) b ∙ omega int_laws ∙ sym e

inc-IsKept :
    (c : ConsistentHash) (host : Name) (old : ℤ)
    → lookup same_name c.load_map host ≡ some old
    → IsKept c
    → Returns IsKept (inc c host)
unfolding inc
inc-IsKept c host old e k =
    rw (inc, e, Returns)
      (record {
        valid = reloaded-IsValid c _ _ k.valid;
        balanced =
            balanced_step c.total_load (sum_loads c.load_map) old
              (sum_loads-assign c.load_map host old (old +ℤ pos 1) e) k.balanced;
      })

-- A host that goes takes its load along.
unlisted-IsKept :
    (c c' : ConsistentHash) (host : Name) (old : ℤ)
    → IsRemoved c.replica_factor 0 c host c'
    → lookup same_name c'.load_map host ≡ some old
    → IsBalanced c'
    → IsKept (record c' {
      total_load = c'.total_load -ℤ old;
      load_map = delete same_name c'.load_map host;
    })
unlisted-IsKept c c' host old a e b = record {
  valid = reloaded-IsValid c' _ _ a.valid;
  balanced = ap (λ t. t -ℤ old) b ∙ sym (sum_loads-delete c'.load_map host old e);
}

removed-IsBalanced :
    (n i : ℕ) (c c' : ConsistentHash) (host : Name)
    → IsRemoved n i c host c'
    → IsBalanced c
    → IsBalanced c'
removed-IsBalanced n i c c' host a b = a.alike.total ∙ b ∙ ap sum_loads (sym a.hosts)

remove-IsKept :
    (c : ConsistentHash) (host : Name) → IsKept c → Returns (λ r. IsKept r.1) (remove c host)
unfolding remove
remove-IsKept c host k =
    Returns-bind (IsRemoved c.replica_factor 0 c host) (λ r. IsKept r.1)
      (remove_replicas c.replica_factor 0 c host) _
      (remove_replicas_lem c.replica_factor 0 c host k.valid)
      (λ c' a.
        let b = removed-IsBalanced c.replica_factor 0 c c' host a k.balanced in
        elim (lookup-cases c'.load_map host) [
          | inl (old, e) ↦ rw e (unlisted-IsKept c c' host old a e b)
          | inr e ↦ rw e (record { valid = a.valid; balanced = b })
        ])

-- A host that comes has no load.
add_replicas-IsKept :
    (c c' : ConsistentHash) (host : Name)
    → lookup same_name c.load_map host ≡ none
    → IsKept c
    → IsAdded c.replica_factor 0 (listed c (assign same_name c.load_map host (pos 0))) host c'
    → Returns IsKept (update_sorted_hashes c')
unfolding update_sorted_hashes
add_replicas-IsKept c c' host e k a =
    let c₀ = listed c (assign same_name c.load_map host (pos 0)) in
    let v = resorted-IsValid c.replica_factor 0 c₀ c' host a (listed-IsValid c _ k.valid) in
    let sized = zero_test _ v.sized.replicas in
    rw sized (record {
      valid = v;
      balanced =
          a.alike.total
          ∙ k.balanced
          ∙ omega int_laws
          ∙ sym (sum_loads-new c.load_map host (pos 0) e)
          ∙ ap sum_loads (sym a.hosts);
    })

add-IsKept : (c : ConsistentHash) (host : Name) → IsKept c → Returns IsKept (add c host)
unfolding add
add-IsKept c host k = elim (lookup-cases c.load_map host) [
  | inl (load, e) ↦ rw (add, e) k
  | inr e ↦
      let c₀ = listed c (assign same_name c.load_map host (pos 0)) in
      rw (add, e)
        (Returns-bind (IsAdded c.replica_factor 0 c₀ host) IsKept
          (add_replicas c.replica_factor 0 c₀ host) update_sorted_hashes
          (add_replicas_lem c.replica_factor 0 c₀ host k.valid.sized.buckets k.valid.unique)
          (λ c' a. add_replicas-IsKept c c' host e k a))
]

-- Every call but an Inc of a host that is not there returns, and keeps the ring valid and its total
-- load the sum of the hosts' loads.
pub perform-IsKept :
    (c : ConsistentHash) (call : Call) → IsKept c → IsLegal c call → Returns IsKept (perform c call)
perform-IsKept c (add_host host) k l = add-IsKept c host k
perform-IsKept c (remove_host host) k l =
    Returns-bind (λ r. IsKept r.1) IsKept (remove c host) (λ r. ret r.1) (remove-IsKept c host k)
      (λ r h. h)
perform-IsKept c (set_load host load) k l = record {
  valid = update_load-IsValid c host load k.valid;
  balanced = update_load-IsBalanced c host load k.balanced;
}
perform-IsKept c (inc_load host) k l = inc-IsKept c host l.0 l.1 k
perform-IsKept c (done_load host) k l = record {
  valid = done-IsValid c host k.valid;
  balanced = done-IsBalanced c host k.balanced;
}
