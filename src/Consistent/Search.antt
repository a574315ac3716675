-- ===== src/Consistent/Search.antt =====
-- sort.Search on ascending hashes.
use goext.Prelude.{
  ℕ, zero, suc, ◌+◌, ◌-◌, ◌/◌, ◌<◌, ◌≤◌, List, ◌≡◌, refl, arith, false, leb, ltb, if◌then◌else◌,
  length, get_or, nth-ret, Returns, Returns-bind, Bool-cases, inl, inr,
}
use goext.Consistent.{ConsistentHash, search_loop, search}

abbrev pub IsAscending : List ℕ → Type 0
IsAscending xs = (p q : ℕ) → p ≤ q → q < length xs → get_or xs p 0 ≤ get_or xs q 0

-- The hashes in front of index `r` are below the key, and the others are not.
pub record IsSplit (xs : List ℕ) (key r : ℕ) : Type 0 where
  pub bound : r ≤ length xs
  pub below : (p : ℕ) → p < r → get_or xs p 0 < key
  pub above : (p : ℕ) → r ≤ p → p < length xs → key ≤ get_or xs p 0

-- The same of the part of the search that is done.
record IsDone (xs : List ℕ) (key i j : ℕ) : Type 0 where
  order : i ≤ j
  bound : j ≤ length xs
  below : (p : ℕ) → p < i → get_or xs p 0 < key
  above : (p : ℕ) → j ≤ p → p < length xs → key ≤ get_or xs p 0

search_loop_lem :
    (fuel : ℕ) (xs : List ℕ) (key i j : ℕ)
    → IsAscending xs
    → IsDone xs key i j
    → j - i ≤ fuel
    → Returns (IsSplit xs key) (search_loop fuel xs key i j)
unfolding search_loop
search_loop_lem zero xs key i j a d f =
    let stop : ltb i j ≡ false = ground (arith, d.order) in
    rw stop (record {
      bound = omega (arith, d.order, d.bound);
      below = d.below;
      above = λ p h k. d.above p (omega (arith, d.order)) k;
    })
search_loop_lem (suc fuel) xs key i j a d f = elim (Bool-cases (ltb i j)) [
  | inr stop ↦ rw stop (record {
    bound = omega (arith, d.order, d.bound);
    below = d.below;
    above = λ p h k. d.above p (ground (arith, d.order)) k;
  })
  | inl go ↦
      let m = (i + j) / 2 in
      let less : i < j = ground arith in
      rw (go, nth-ret xs m 0 (omega (arith, d.bound)))
        (elim (Bool-cases (leb key (get_or xs m 0))) [
          | inl e ↦ rw e (
              search_loop_lem fuel xs key i m a
                (record {
                  order = omega arith;
                  bound = omega (arith, d.bound);
                  below = d.below;
                  above = λ p h k. ground (arith, a m p h k);
                })
                (omega arith))
          | inr e ↦ rw e (
              search_loop_lem fuel xs key (m + 1) j a
                (record {
                  order = omega arith;
                  bound = d.bound;
                  below = λ p h. ground (arith, a p m (omega arith) (omega (arith, d.bound)));
                  above = d.above;
                })
                (omega arith))
        ])
]

-- Where the key's place on the ring is: the first hash that is no smaller, or the first of all.
pub record IsPlace (xs : List ℕ) (key idx : ℕ) : Type 0 where
  pub inside : idx < length xs
  pub first : (p : ℕ) → p < length xs → key ≤ get_or xs p 0 → (idx ≤ p) × (key ≤ get_or xs idx 0)
  pub wrapped : get_or xs idx 0 < key → (idx ≡ 0) × ((p : ℕ) → p < length xs → get_or xs p 0 < key)

IsPlace-IsSplit :
    (xs : List ℕ) (key r : ℕ)
    → 0 < length xs
    → IsSplit xs key r
    → IsPlace xs key (if leb (length xs) r then 0 else r)
IsPlace-IsSplit xs key r h s = elim (Bool-cases (leb (length xs) r)) [
  | inl e ↦ rw e (record {
    inside = h;
    first = λ p k l. absurd (ground (arith, s.below p));
    wrapped = λ l. (refl, λ p k. s.below p (ground arith));
  })
  | inr e ↦
      let inside : r < length xs = ground arith in
      rw e (record {
        inside = inside;
        first = λ p k l. (ground (arith, s.below p), s.above r (omega arith) inside);
        wrapped = λ l. absurd (omega (arith, s.above r (omega arith) inside));
      })
]

-- On ascending hashes, of which there is one, search returns the key's place on the ring.
pub search_lem :
    (c : ConsistentHash) (key : ℕ)
    → IsAscending c.sorted_hashes
    → 0 < length c.sorted_hashes
    → Returns (IsPlace c.sorted_hashes key) (search c key)
unfolding search
search_lem c key a h =
    let n = length c.sorted_hashes in
    Returns-bind (IsSplit c.sorted_hashes key) (IsPlace c.sorted_hashes key)
      (search_loop n c.sorted_hashes key 0 n) _
      (search_loop_lem n c.sorted_hashes key 0 n a
        (record {
          order = omega arith;
          bound = omega arith;
          below = λ p k. absurd (omega arith);
          above = λ p k l. absurd (omega arith);
        })
        (omega arith))
      (λ r s. IsPlace-IsSplit c.sorted_hashes key r h s)
