-- ===== src/Consistent/Tests.antt =====
-- A ring of one host, with two replicas, under a plain hash function.
use goext.Prelude.{
  ℕ, ◌+◌, ◌*◌, List, [], ◌∷◌, ◌≡◌, refl, arith, some, ret, no_fuel, Returns, ◌>>=◌, subst, inl, inr,
}
use goext.Prelude.Int.{pos, ◌+ℤ◌}
use goext.Consistent.{
  ConsistentHash, Name, hash, elt_key, get, get_hash, add, add_replicas, update_sorted_hashes,
  remove, search, search_loop, name_at,
}
use goext.Consistent.State.{IsValid, circle_at}
use goext.Consistent.Owner.{IsOwner, get_hash-IsOwner}
use goext.Consistent.Calls.{IsKept, inc_load, perform, perform-IsKept}
use goext.Consistent.Grow.{IsMoved, add_moves_to_host}
use goext.Consistent.Several.{get_two, get_n, two_loop, n_loop, slice_contains_member, set_hosts}
use goext.Consistent.Around.{IsOther, get_two_lem}
use goext.Consistent.Hosts.{HasHosts}
use goext.Consistent.Setting.{set_hosts_lem}
use goext.Consistent.Shrink.{IsPlaced, IsWithout, remove_keeps_others}

abbrev plain_hash : List ℕ → ℕ
plain_hash [] = 0
plain_hash (x ∷ xs) = x + 2 * plain_hash xs

abbrev host_a : Name
host_a = 97 ∷ []

abbrev host_b : Name
host_b = 98 ∷ []

abbrev one_host : ConsistentHash
one_host = record {
  circle = (242, host_a) ∷ (243, host_a) ∷ [];
  sorted_hashes = 242 ∷ 243 ∷ [];
  load_map = (host_a, pos 0) ∷ [];
  total_load = pos 0;
  replica_factor = 2;
  bucket_num = 1000;
  hash_func = plain_hash;
}

one_host-IsValid : IsValid one_host
one_host-IsValid = record {
  sized = record { buckets = omega arith; replicas = omega arith };
  unique = (refl, (refl, tt));
  ordered = ((omega arith, tt), (tt, tt));
  same = λ j. refl;
}

one_host-IsPlaced : IsPlaced one_host host_a
unfolding elt_key
one_host-IsPlaced j (inl e) = subst (λ k. circle_at one_host k ≡ some host_a) e refl
one_host-IsPlaced j (inr (inl e)) = subst (λ k. circle_at one_host k ≡ some host_a) e refl
one_host-IsPlaced j (inr (inr e)) = absurd e

-- The hashes of the second host's replicas are 244 and 245, and its key's is 244.
two_hosts : (add one_host host_b >>= λ c. get c (48 ∷ 98 ∷ [])) ≡ ret (some host_b)
unfolding add add_replicas update_sorted_hashes hash elt_key get search search_loop name_at
two_hosts = refl

get_hash-IsOwner_example :
    (name : Name) × (get_hash one_host 500 ≡ ret (some name)) × IsOwner one_host 500 name
get_hash-IsOwner_example = get_hash-IsOwner one_host 500 one_host-IsValid (omega arith)

add_moves_to_host_example : Returns (IsMoved one_host host_b) (add one_host host_b)
add_moves_to_host_example = add_moves_to_host one_host host_b one_host-IsValid

remove_keeps_others_example : Returns (IsWithout one_host host_a) (remove one_host host_a)
remove_keeps_others_example = remove_keeps_others one_host host_a one_host-IsValid one_host-IsPlaced

perform-IsKept_example : Returns IsKept (perform one_host (inc_load host_a))
unfolding ◌+ℤ◌
perform-IsKept_example =
    perform-IsKept one_host (inc_load host_a) (record { valid = one_host-IsValid; balanced = refl })
      (pos 0, refl)

-- A ring of two hosts, and the same ring after the second host's bucket went to the first.
abbrev ring_of_two : ConsistentHash
ring_of_two = record {
  circle = (242, host_a) ∷ (244, host_b) ∷ [];
  sorted_hashes = 242 ∷ 244 ∷ [];
  load_map = (host_a, pos 0) ∷ (host_b, pos 0) ∷ [];
  total_load = pos 0;
  replica_factor = 1;
  bucket_num = 1000;
  hash_func = plain_hash;
}

abbrev taken_over : ConsistentHash
taken_over = record ring_of_two { circle = (242, host_a) ∷ (244, host_a) ∷ [] }

ring_of_two-IsValid : IsValid ring_of_two
ring_of_two-IsValid = record {
  sized = record { buckets = omega arith; replicas = omega arith };
  unique = (refl, (refl, tt));
  ordered = ((omega arith, tt), (tt, tt));
  same = λ j. refl;
}

around_two :
    (get_two ring_of_two (5 ∷ []) ≡ ret (some (host_a, host_b)))
    × (get_n ring_of_two (243 ∷ []) 5 ≡ ret (some (host_b ∷ host_a ∷ [])))
    × (get_two taken_over (5 ∷ []) ≡ no_fuel)
unfolding get_two get_n two_loop n_loop slice_contains_member hash search search_loop name_at
around_two = (refl, refl, refl)

get_two_lem_example :
    (a b : Name) × (get_two ring_of_two (5 ∷ []) ≡ ret (some (a, b)))
    × (get ring_of_two (5 ∷ []) ≡ ret (some a))
    × IsOther ring_of_two a b
unfolding name_at
get_two_lem_example =
    get_two_lem ring_of_two (5 ∷ []) 0 1 host_a host_b ring_of_two-IsValid refl (omega arith)
      (omega arith) refl refl refl (omega arith)

set_hosts_lem_example :
    Returns
      (HasHosts (slice_contains_member (host_b ∷ (99 ∷ []) ∷ [])))
      (set_hosts ring_of_two (host_b ∷ (99 ∷ []) ∷ []))
unfolding ◌+ℤ◌
set_hosts_lem_example =
    set_hosts_lem ring_of_two (host_b ∷ (99 ∷ []) ∷ [])
      (record { valid = ring_of_two-IsValid; balanced = refl }) (refl, (refl, tt))
