-- ===== src/Ring/Bounded/Read.antt =====
-- Read hands out the oldest bytes.
use goext.Prelude.{
  ℕ, ◌+◌, ◌-◌, ◌%◌, ◌≤◌, ◌<◌, List, ◌++◌, ◌≡◌, refl, sym, ap, ◌∙◌, arith, ltb, leb, ◌==◌,
  if◌then◌else◌, length, take, drop, min, length-append, length-take, length-drop, get_or-append,
  list_ext, get_or-take, get_or-drop, Bool-cases, inl, inr, ret, Returns, rem-ret, wrap, mod_wrap,
  cut, wrap-cases, splice, slice-ret, slice_from, copy_into_all, copy_into, splice_twice, slice,
  leb→le, length-splice, length-cut, get_or-cut, ◌>>=◌,
}
use goext.Ring.Bounded.{Ring, fetch, read}
use goext.Ring.Bounded.State.{
  IsValid, used, contents, size-eq, length-contents, get_or-contents, contents_ext,
}

module _ {b : Ring} (v : IsValid b) (n : ℕ) (some_bytes : n ≤ used b) where
  abbrev after : Ring
  after = record b { begin = (b.begin + n) % b.capacity }

  start-after : (b.begin + n) % b.capacity ≡ wrap b.capacity (b.begin + n)
  start-after = mod_wrap b.capacity (b.begin + n) (ground arith)

  after_lem : IsValid after × (used after ≡ used b - n)
  after_lem = ground (arith, start-after, wrap-cases b.capacity (b.begin + n))

  contents-after : contents after ≡ drop n (contents b)
  contents-after = sym (
      contents_ext after_lem.0 (drop n (contents b))
        (omega (arith, length-drop n (contents b), length-contents b, after_lem.1))
        λ i p.
          let q : i < used b - n = omega (arith, after_lem.1) in
          ground (arith, start-after, get_or-drop n (contents b) i 0, get_or-contents v (n + i)))

  straight : b.begin + n ≤ b.capacity → cut b.buffer b.begin (b.begin + n) ≡ take n (contents b)
  straight h =
      let s = v.storage in
      let l = length-cut b.buffer b.begin (b.begin + n) (omega arith) in
      list_ext _ _ 0 (omega (arith, l, length-take n (contents b), length-contents b)) λ i p.
        ground (
          arith,
          l,
          get_or-cut b.buffer b.begin (b.begin + n) i 0,
          get_or-take n (contents b) i 0,
          get_or-contents v i,
        )

  around :
      b.capacity < b.begin + n
      → drop b.begin b.buffer ++ cut b.buffer 0 (n - (b.capacity - b.begin)) ≡ take n (contents b)
  around h =
      let s = v.storage in
      let back = drop b.begin b.buffer in
      let front = cut b.buffer 0 (n - (b.capacity - b.begin)) in
      let lb = length-drop b.begin b.buffer in
      let small : n - (b.capacity - b.begin) ≤ length b.buffer = ground arith in
      let lf = length-cut b.buffer 0 (n - (b.capacity - b.begin)) small in
      list_ext _ _ 0
        (omega
          (arith, length-append back front, lb, lf, length-take n (contents b), length-contents b))
        λ i p. ground (
          arith,
          length-append back front,
          lb,
          lf,
          get_or-append back front i 0,
          get_or-drop b.begin b.buffer i 0,
          get_or-cut b.buffer 0 (n - (b.capacity - b.begin)) (i - (b.capacity - b.begin)) 0,
          get_or-take n (contents b) i 0,
          get_or-contents v i,
        )

-- What Read may return for the slice `output`: the count, the slice afterwards, and the ring.
pub record WasRead (b : Ring) (output : List ℕ) (r : ℕ × List ℕ × Ring) : Type 0 where
  pub valid : IsValid r.2
  pub count : r.0 ≡ min (length output) (length (contents b))
  pub out : r.1 ≡ take r.0 (contents b) ++ drop r.0 output
  pub left : contents r.2 ≡ drop r.0 (contents b)
  pub size : r.2.capacity ≡ b.capacity

module _ {b : Ring} (v : IsValid b) (output : List ℕ) where
  fetched :
      (n : ℕ)
      → (h : n ≤ used b) → n ≡ min (length output) (used b)
      → WasRead b output (n, splice output 0 (take n (contents b)), after v n h)
  fetched n h e = record {
    valid = (after_lem v n h).0;
    count = omega (arith, length-contents b);
    out =
        ap (λ k. take n (contents b) ++ drop k output)
          (omega (arith, length-take n (contents b), length-contents b));
    left = contents-after v n h;
    size = refl;
  }

  nothing : min (length output) (used b) ≡ 0 → WasRead b output (0, output, b)
  nothing e = record {
    valid = v;
    count = omega (arith, length-contents b);
    out = refl;
    left = refl;
    size = refl;
  }

  abbrev count : ℕ
  count = if ltb (used b) (length output) then used b else length output

  module _ (n : ℕ) (some_bytes : n ≤ used b) (fits : n ≤ length output) where
    abbrev copied : List ℕ
    copied = splice output 0 (take n (contents b))

    fetch_straight :
        b.begin + n ≤ b.capacity
        → (slice b.buffer b.begin (b.begin + n) >>= λ t.
            copy_into output 0 (length output) t >>= λ r. ret r.1)
          ≡ ret copied
    fetch_straight h =
        let s = v.storage in
        let l = length-take n (contents b) in
        rw (
          slice-ret b.buffer b.begin (b.begin + n) (omega arith) (omega arith),
          straight v n some_bytes h,
          copy_into_all output 0 (take n (contents b)) (omega arith)
              (omega (arith, length-contents b)),
        )

    fetch_around :
        b.capacity - b.begin < n
        → (slice b.buffer b.begin (length b.buffer) >>= λ back.
            copy_into output 0 (length output) back >>= λ r.
            slice b.buffer 0 (n - (b.capacity - b.begin)) >>= λ front.
            copy_into r.1 (b.capacity - b.begin) (length r.1) front >>= λ r'. ret r'.1)
          ≡ ret copied
    fetch_around h =
        let s = v.storage in
        let f = v.first in
        let k = b.capacity - b.begin in
        let back = drop b.begin b.buffer in
        let front = cut b.buffer 0 (n - k) in
        let once = splice output 0 back in
        let lb : length back ≡ k = omega (arith, length-drop b.begin b.buffer) in
        let small : n - k ≤ length b.buffer = ground (arith, v.last) in
        let lf = length-cut b.buffer 0 (n - k) small in
        let l1 = length-splice output 0 back (omega arith) in
        let both =
          ap (λ j. splice once j front) (sym lb) ∙ splice_twice output back front (omega arith) in
        rw
          (
            slice_from b.buffer b.begin (omega arith),
            copy_into_all output 0 back (omega arith) (omega arith),
            slice-ret b.buffer 0 (n - k) (omega arith) small,
            copy_into_all once k front (omega arith) (omega arith),
          )
          (ap ret (both ∙ ap (λ t. splice output 0 t) (around v n some_bytes (omega arith))))

    -- Whichever way the code copies, it hands out the oldest bytes.
    fetch-eq : fetch b n output ≡ ret copied
    unfolding fetch
    fetch-eq = elim (Bool-cases (leb b.end b.begin)) [
      | inl c ↦ elim (Bool-cases (leb n (b.capacity - b.begin))) [
        | inl short ↦ rw (c, short) (fetch_straight (omega (arith, leb→le _ _ short, v.first)))
        | inr long ↦ rw (c, long) (fetch_around (ground arith))
      ]
      | inr o ↦ rw o (fetch_straight (ground (arith, v.last)))
    ]

-- Read hands out the oldest bytes, as many as `output` holds or the ring has, leaves the rest of
-- `output` as it was, and keeps the other bytes. It does not panic, and keeps the ring valid.
pub read_oldest :
    {b : Ring} → IsValid b → (output : List ℕ) → Returns (WasRead b output) (read b output)
unfolding read
read_oldest {b} v output = elim (Bool-cases (used b == 0)) [
  | inl none_held ↦ rw (size-eq v, none_held) (nothing v output (ground arith))
  | inr some_held ↦ elim (Bool-cases (length output == 0)) [
    | inl no_place ↦ rw (size-eq v, some_held, no_place) (nothing v output (ground arith))
    | inr some_place ↦
        let most : count v output ≤ used b = ground arith in
        let short : count v output ≤ length output = ground arith in
        let f = v.first in
        rw
          (
            size-eq v,
            some_held,
            some_place,
            fetch-eq v output (count v output) most short,
            rem-ret (b.begin + count v output) b.capacity (omega arith),
          )
          (fetched v output (count v output) most (ground arith))
  ]
]
