-- ===== src/Consistent/Setting.antt =====
-- hash/consistent/consistent.go: the hosts after Set.
use goext.Prelude.{
  List, [], ◌∷◌, ◌≡◌, sym, ap, ◌∙◌, arith, Bool, true, ◌&&◌, ◌||◌, not, Returns, Returns-bind,
  Returns-map, Bool-cases, inl, inr,
}
use goext.Consistent.{ConsistentHash, Name, same_name, add}
use goext.Consistent.Grow.{lookup-cases}
use goext.Consistent.Calls.{IsKept, remove_host, perform}
use goext.Consistent.Several.{set_hosts, drop_others, add_missing, members, slice_contains_member}
use goext.Consistent.Hosts.{HasHosts, removed-HasHosts, added-HasHosts}
use goext.Consistent.Names.{has, HasUniqueHosts, has-members, has-some, has-same, same_name-eq}

contains-same :
    (xs : List Name) (x y : Name)
    → same_name x y ≡ true
    → slice_contains_member xs x ≡ slice_contains_member xs y
contains-same xs x y e = ap (slice_contains_member xs) (same_name-eq x y e)

HasHosts-has :
    (test : Name → Bool) (c : ConsistentHash)
    → HasHosts test c
    → (u : Name) → has c.load_map u ≡ test u
HasHosts-has test c h u = sym (has-members c.load_map u) ∙ h.hosts u

HasHosts-map :
    (test other : Name → Bool) (c : ConsistentHash)
    → ((u : Name) → test u ≡ other u)
    → HasHosts test c
    → HasHosts other c
HasHosts-map test other c f h = record {
  kept = h.kept;
  unique = h.unique;
  hosts = λ u. h.hosts u ∙ f u;
}

-- The first loop keeps the hosts that are in `elts` or not among the names it goes through.
drop_others_lem :
    (ks elts : List Name) (c : ConsistentHash)
    → IsKept c
    → HasUniqueHosts c.load_map
    → Returns
        (HasHosts (λ u.
          has c.load_map u && (slice_contains_member elts u || not (slice_contains_member ks u))))
        (drop_others ks elts c)
unfolding drop_others slice_contains_member
drop_others_lem [] elts c k h = record {
  kept = k;
  unique = h;
  hosts = λ u. has-members c.load_map u ∙ ground arith;
}
drop_others_lem (x ∷ ks) elts c k h = elim (Bool-cases (slice_contains_member elts x)) [
  | inl e ↦ rw (e) (
      Returns-map _ _ (drop_others ks elts c) (drop_others_lem ks elts c k h) (λ r y.
        HasHosts-map _ _ r
          (λ u. elim (Bool-cases (same_name x u)) [
            | inl t ↦ let same = contains-same elts x u t in ground arith
            | inr t ↦ ground arith
          ])
          y))
  | inr e ↦ rw (e) (
      Returns-bind _ _ (perform c (remove_host x)) (drop_others ks elts) (removed-HasHosts c x k h)
        (λ c' y.
          Returns-map _ _ (drop_others ks elts c') (drop_others_lem ks elts c' y.kept y.unique)
            (λ r z.
              HasHosts-map _ _ r
                (λ u.
                  let was = HasHosts-has _ c' y u in
                  elim (Bool-cases (same_name x u)) [
                    | inl t ↦ let same = contains-same elts x u t in ground arith
                    | inr t ↦ ground arith
                  ])
                z)))
]

-- The second loop adds what it goes through.
add_missing_lem :
    (vs : List Name) (c : ConsistentHash)
    → IsKept c
    → HasUniqueHosts c.load_map
    → Returns (HasHosts (λ u. has c.load_map u || slice_contains_member vs u)) (add_missing vs c)
unfolding add_missing slice_contains_member
add_missing_lem [] c k h = record {
  kept = k;
  unique = h;
  hosts = λ u. has-members c.load_map u ∙ ground arith;
}
add_missing_lem (v ∷ vs) c k h = elim (lookup-cases c.load_map v) [
  | inl (load, e) ↦ rw (e) (
      Returns-map _ _ (add_missing vs c) (add_missing_lem vs c k h) (λ r y.
        HasHosts-map _ _ r
          (λ u. elim (Bool-cases (same_name v u)) [
            | inl t ↦
                let there = has-some c.load_map v load e in
                let same = has-same c.load_map v u t in ground arith
            | inr t ↦ ground arith
          ])
          y))
  | inr e ↦ rw (e) (
      Returns-bind _ _ (add c v) (add_missing vs) (added-HasHosts c v e k h) (λ c' y.
        Returns-map _ _ (add_missing vs c') (add_missing_lem vs c' y.kept y.unique)
          (λ r z. HasHosts-map _ _ r (λ u. let was = HasHosts-has _ c' y u in ground arith) z)))
]

-- Set, on a valid ring whose total load is the sum of the hosts' loads and whose load map has no
-- host twice, returns such a ring again, whose hosts are those that Set was given and no other.
pub set_hosts_lem :
    (c : ConsistentHash) (elts : List Name)
    → IsKept c
    → HasUniqueHosts c.load_map
    → Returns (HasHosts (slice_contains_member elts)) (set_hosts c elts)
unfolding set_hosts
set_hosts_lem c elts k h =
    Returns-bind _ _ (drop_others (members c.load_map) elts c) (add_missing elts)
      (drop_others_lem (members c.load_map) elts c k h)
      (λ c' y.
        Returns-map _ _ (add_missing elts c') (add_missing_lem elts c' y.kept y.unique) (λ r z.
          HasHosts-map _ _ r
            (λ u.
              let was = HasHosts-has _ c' y u in
              let listed = has-members c.load_map u in ground arith)
            z))
