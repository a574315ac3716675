-- ===== src/Consistent/Hosts.antt =====
-- hash/consistent/consistent.go: the hosts that Add and Remove leave in the load map.
use goext.Prelude.{
  ◌≡◌, refl, sym, ap, ◌∙◌, arith, Bool, ◌&&◌, ◌||◌, not, ◌⊎◌, none, ret, Outcome, Returns,
  Returns-bind, Returns-cases, Returns-map, Bool-cases, subst, inl, inr,
}
use goext.Prelude.Int.{pos, ◌-ℤ◌}
use goext.Consistent.{
  ConsistentHash, Name, same_name, lookup, assign, delete, add, add_replicas, update_sorted_hashes,
  remove, remove_replicas,
}
use goext.Consistent.State.{IsAdded, IsRemoved, add_replicas_lem, remove_replicas_lem}
use goext.Consistent.Grow.{lookup-cases, listed, listed-IsValid, resorted-IsValid, zero_test}
use goext.Consistent.Calls.{IsKept, add_host, remove_host, perform, perform-IsKept}
use goext.Consistent.Several.{members, slice_contains_member}
use goext.Consistent.Names.{
  has, HasUniqueHosts, has-members, has-same, has-none, has-assign, assign-HasUniqueHosts,
  has-delete, delete-HasUniqueHosts,
}

-- What add and remove make of the load map.
added-hosts :
    (c c' : ConsistentHash) (host : Name)
    → IsKept c
    → IsAdded c.replica_factor 0 (listed c (assign same_name c.load_map host (pos 0))) host c'
    → Returns (λ r. r.load_map ≡ assign same_name c.load_map host (pos 0)) (update_sorted_hashes c')
unfolding update_sorted_hashes
added-hosts c c' host k a =
    let c₀ = listed c (assign same_name c.load_map host (pos 0)) in
    let v = resorted-IsValid c.replica_factor 0 c₀ c' host a (listed-IsValid c _ k.valid) in
    let sized = zero_test _ v.sized.replicas in rw sized a.hosts

add-hosts :
    (c : ConsistentHash) (host : Name)
    → lookup same_name c.load_map host ≡ none
    → IsKept c
    → Returns (λ r. r.load_map ≡ assign same_name c.load_map host (pos 0)) (add c host)
unfolding add
add-hosts c host e k =
    let c₀ = listed c (assign same_name c.load_map host (pos 0)) in
    rw (add, e)
      (Returns-bind (IsAdded c.replica_factor 0 c₀ host)
        (λ r. r.load_map ≡ assign same_name c.load_map host (pos 0))
        (add_replicas c.replica_factor 0 c₀ host) update_sorted_hashes
        (add_replicas_lem c.replica_factor 0 c₀ host k.valid.sized.buckets k.valid.unique)
        (λ c' a. added-hosts c c' host k a))

-- A host is gone from the map, and the others are there as before.
abbrev IsWithoutHost : ConsistentHash → Name → ConsistentHash → Type 0
IsWithoutHost c host r =
    HasUniqueHosts r.load_map
    × ((u : Name) → has r.load_map u ≡ (has c.load_map u && not (same_name host u)))

removed-hosts :
    (c c' : ConsistentHash) (host : Name) (r : ConsistentHash)
    → HasUniqueHosts c.load_map
    → c'.load_map ≡ c.load_map
    → (r.load_map ≡ delete same_name c'.load_map host)
      ⊎ (lookup same_name c'.load_map host ≡ none) × (r.load_map ≡ c'.load_map)
    → IsWithoutHost c host r
removed-hosts c c' host r h e (inl q) =
    let m = q ∙ ap (λ t. delete same_name t host) e in
    (
      subst HasUniqueHosts (sym m) (delete-HasUniqueHosts c.load_map host h),
      λ u. ap (λ t. has t u) m ∙ has-delete c.load_map host u h,
    )
removed-hosts c c' host r h e (inr (z, q)) =
    let m = q ∙ e in
    let gone = has-none c.load_map host (ap (λ t. lookup same_name t host) (sym e) ∙ z) in
    (
      subst HasUniqueHosts (sym m) h,
      λ u. ap (λ t. has t u) m ∙ elim (Bool-cases (same_name host u)) [
        | inl s ↦ let same = has-same c.load_map host u s in ground arith
        | inr s ↦ ground arith
      ],
    )

remove-hosts :
    (c : ConsistentHash) (host : Name)
    → HasUniqueHosts c.load_map
    → IsKept c
    → Returns (λ r. IsWithoutHost c host r.1) (remove c host)
unfolding remove
remove-hosts c host h k =
    Returns-bind (IsRemoved c.replica_factor 0 c host) (λ r. IsWithoutHost c host r.1)
      (remove_replicas c.replica_factor 0 c host) _
      (remove_replicas_lem c.replica_factor 0 c host k.valid)
      (λ c' a. elim (lookup-cases c'.load_map host) [
        | inl (old, e) ↦ rw e (
            removed-hosts c c' host
              (record c' {
                total_load = c'.total_load -ℤ old;
                load_map = delete same_name c'.load_map host;
              })
              h a.hosts (inl refl))
        | inr e ↦ rw e (removed-hosts c c' host c' h a.hosts (inr (e, refl)))
      ])

-- Both of what is known of a result.
Returns-both :
    {A : Type 0} (P Q : A → Type 0) (m : Outcome A)
    → Returns P m
    → Returns Q m
    → Returns (λ a. P a × Q a) m
Returns-both P Q m p q =
    let (a, e, x) = Returns-cases P m p in
    let y : Q a = subst (Returns Q) e q in subst (Returns (λ a. P a × Q a)) (sym e) (x, y)

-- The hosts of a ring that is kept, by a test.
pub record HasHosts (test : Name → Bool) (c : ConsistentHash) : Type 0 where
  pub kept : IsKept c
  pub unique : HasUniqueHosts c.load_map
  pub hosts : (u : Name) → slice_contains_member (members c.load_map) u ≡ test u

pub removed-HasHosts :
    (c : ConsistentHash) (host : Name)
    → IsKept c
    → HasUniqueHosts c.load_map
    → Returns
        (HasHosts (λ u. has c.load_map u && not (same_name host u)))
        (perform c (remove_host host))
removed-HasHosts c host k h =
    Returns-map _ _ (perform c (remove_host host))
      (Returns-both IsKept (IsWithoutHost c host) (perform c (remove_host host))
        (perform-IsKept c (remove_host host) k tt)
        (Returns-bind (λ r. IsWithoutHost c host r.1) (IsWithoutHost c host) (remove c host)
          (λ r. ret r.1) (remove-hosts c host h k) (λ r x. x)))
      (λ r x. record {
        kept = x.0;
        unique = x.1.0;
        hosts = λ u. has-members r.load_map u ∙ x.1.1 u;
      })

pub added-HasHosts :
    (c : ConsistentHash) (host : Name)
    → lookup same_name c.load_map host ≡ none
    → IsKept c
    → HasUniqueHosts c.load_map
    → Returns (HasHosts (λ u. has c.load_map u || same_name host u)) (add c host)
added-HasHosts c host e k h =
    Returns-map _ _ (add c host)
      (Returns-both IsKept (λ r. r.load_map ≡ assign same_name c.load_map host (pos 0)) (add c host)
        (perform-IsKept c (add_host host) k tt) (add-hosts c host e k))
      (λ r x. record {
        kept = x.0;
        unique = subst HasUniqueHosts (sym x.1) (assign-HasUniqueHosts c.load_map host (pos 0) e h);
        hosts = λ u.
            has-members r.load_map u
            ∙ ap (λ t. has t u) x.1
            ∙ has-assign c.load_map host u (pos 0) e;
      })
