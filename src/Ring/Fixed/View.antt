-- ===== src/Ring/Fixed/View.antt =====
-- Bytes and BytesTwo: the readable bytes as slices.
use goext.Prelude.{
  ℕ, ◌+◌, ◌-◌, ◌%◌, ◌≤◌, ◌<◌, List, [], ◌++◌, ◌≡◌, refl, sym, ap, ◌∙◌, arith, Bool, leb, ◌==◌,
  if◌then◌else◌, length, get_or, min, cut, get_or-append, length-append, list_ext, wrap, mod_wrap,
  wrap-cases, overwritten, copy_into-overwritten, overwritten_twice, copy_into_twice, rem-ret,
  append-nil, get_or-overwritten, length-overwritten, length-cut, get_or-cut, slice, slice-ret, ret,
  Returns, Bool-cases, inl, inr,
}
use goext.Ring.Fixed.{FixedSizeRingBuf, buf_at, bytes, bytes_two, store}
use goext.Ring.Fixed.State.{
  IsValid, active, contents, buf_at-active, length-active, length-contents, contents_ext,
}

-- The readable bytes, as two slices of the buffer in use.
pub contiguous_view :
    {b : FixedSizeRingBuf}
    → IsValid b
    → b.beg + b.readable ≤ b.n
    → cut (active b) b.beg (b.beg + b.readable) ≡ contents b
contiguous_view {b} v h =
    let e = length-active v in
    contents_ext v _ (omega (arith, length-cut (active b) b.beg (b.beg + b.readable)))
      λ i p. ground (arith, get_or-cut (active b) b.beg (b.beg + b.readable) i 0)

pub wrapped_view :
    {b : FixedSizeRingBuf}
    → IsValid b
    → b.n < b.beg + b.readable
    → cut (active b) b.beg b.n ++ cut (active b) 0 (b.beg + b.readable - b.n) ≡ contents b
wrapped_view {b} v h =
    let e = length-active v in
    let back = cut (active b) b.beg b.n in
    let front = cut (active b) 0 (b.beg + b.readable - b.n) in
    let s = length-cut (active b) b.beg b.n (omega arith) in
    let t = length-cut (active b) 0 (b.beg + b.readable - b.n) (omega arith) in
    contents_ext v _ (omega (arith, length-append back front, s, t)) λ i p. ground (
      arith,
      s,
      get_or-append back front i 0,
      get_or-cut (active b) b.beg b.n i 0,
      get_or-cut (active b) 0 (b.beg + b.readable - b.n) (i - (b.n - b.beg)) 0,
    )

-- Where a wrapped ring's second stretch ends.
pub wrapped_end :
    {b : FixedSizeRingBuf}
    → IsValid b
    → b.n < b.beg + b.readable
    → (b.beg + b.readable) % b.n ≡ b.beg + b.readable - b.n
wrapped_end {b} v h =
    omega
      (arith, mod_wrap b.n (b.beg + b.readable) (omega arith), wrap-cases b.n (b.beg + b.readable))

-- BytesTwo returns two slices that make up the readable bytes; the second is empty unless the
-- bytes wrap.
pub bytes_two_lem :
    {b : FixedSizeRingBuf}
    → IsValid b
    → (make_copy : Bool)
    → Returns
        (λ r. (r.0 ++ r.1 ≡ contents b) × (b.beg + b.readable ≤ b.n → r.1 ≡ []))
        (bytes_two b make_copy)
unfolding bytes_two
bytes_two_lem {b} v make_copy =
    let e = length-active v in
    elim (Bool-cases (leb (b.beg + b.readable) b.n)) [
      | inl fits ↦
          rw
            (
              fits,
              buf_at-active v,
              slice-ret (active b) b.beg (b.beg + b.readable) (omega arith) (ground arith),
            )
            (append-nil _ ∙ contiguous_view v (ground arith), λ _. refl)
      | inr wraps ↦
          let h : b.n < b.beg + b.readable = ground arith in
          rw
            (
              wraps,
              buf_at-active v,
              slice-ret (active b) b.beg b.n (omega arith) (omega arith),
              rem-ret (b.beg + b.readable) b.n (omega arith),
              wrapped_end v h,
              slice-ret (active b) 0 (b.beg + b.readable - b.n) (omega arith) (omega arith),
            )
            (wrapped_view v h, λ k. absurd (omega arith))
    ]

-- The buffer that is not in use, before Bytes copies into it, and the ring afterwards.
module _ {b : FixedSizeRingBuf} (v : IsValid b) where
  abbrev other : List ℕ
  other = if b.in_use == 0 then b.a1 else b.a0

  abbrev linear : List ℕ
  linear = overwritten other (contents b)

  abbrev switched : FixedSizeRingBuf
  switched = record (store b (1 - b.in_use) linear) { in_use = 1 - b.in_use; beg = 0 }

  other_lem : (buf_at b (1 - b.in_use) ≡ ret other) × (length other ≡ b.n)
  unfolding buf_at
  other_lem = ground arith

  switched_lem :
      IsValid switched
      × (active switched ≡ linear)
      × (switched.readable ≡ b.readable)
      × (switched.n ≡ b.n)
  unfolding store
  switched_lem = ground (arith, length-overwritten other (contents b), other_lem)

  linear-entry : (i : ℕ) → i < b.readable → get_or linear i 0 ≡ get_or (contents b) i 0
  linear-entry i h =
      ground (arith, get_or-overwritten other (contents b) i 0, other_lem, length-contents b)

  linear_view : cut linear 0 b.readable ≡ contents b
  linear_view =
      let l = length-overwritten other (contents b) in
      let c = length-contents b in
      let o = other_lem.1 in
      list_ext _ _ 0 (omega (arith, length-cut linear 0 b.readable (omega arith))) λ i h. ground (
        arith,
        length-cut linear 0 b.readable (omega arith),
        get_or-cut linear 0 b.readable i 0,
        linear-entry i,
      )

  linear-slice : slice linear 0 (min (length other) (length (contents b))) ≡ ret (contents b)
  linear-slice =
      let k : min (length other) (length (contents b)) ≡ b.readable =
        omega (arith, other_lem.1, length-contents b) in
      slice-ret linear 0 (min (length other) (length (contents b))) (omega arith)
        (omega (arith, length-overwritten other (contents b)))
      ∙ ap (λ j. ret (cut linear 0 j)) k
      ∙ ap ret linear_view

  contents-switched : contents switched ≡ contents b
  contents-switched = sym (
      contents_ext switched_lem.0 (contents b) (omega (arith, length-contents b, switched_lem))
        λ i h.
          let w : wrap switched.n (0 + i) ≡ i = ground (arith, switched_lem) in
          sym (linear-entry i (omega (arith, switched_lem))) ∙ cc (switched_lem.1, w))

-- Bytes returns the readable bytes in one slice. The ring then holds the same bytes, in one
-- stretch, stays valid and keeps its size.
pub bytes_lem :
    {b : FixedSizeRingBuf}
    → IsValid b
    → Returns
        (λ r.
          (r.0 ≡ contents b)
          × IsValid r.1
          × (contents r.1 ≡ contents b)
          × (r.1.beg + r.1.readable ≤ r.1.n)
          × (r.1.n ≡ b.n))
        (bytes b)
unfolding bytes
bytes_lem {b} v =
    let e = length-active v in
    elim (Bool-cases (leb (b.beg + b.readable) b.n)) [
      | inl fits ↦
          rw
            (
              fits,
              buf_at-active v,
              slice-ret (active b) b.beg (b.beg + b.readable) (omega arith) (ground arith),
            )
            (contiguous_view v (ground arith), v, refl, ground arith, refl)
      | inr wraps ↦
          let h : b.n < b.beg + b.readable = ground arith in
          let back = cut (active b) b.beg b.n in
          let front = cut (active b) 0 (b.beg + b.readable - b.n) in
          let twice = overwritten_twice (other v) back front in
          let all_back : slice (active b) b.beg (length (active b)) ≡ ret back =
            slice-ret (active b) b.beg (length (active b)) (omega arith) (omega arith)
            ∙ ap (λ k. ret (cut (active b) b.beg k)) e in
          rw
            (
              wraps,
              buf_at-active v,
              (other_lem v).0,
              all_back,
              copy_into-overwritten (other v) back,
              rem-ret (b.beg + b.readable) b.n (omega arith),
              wrapped_end v h,
              slice-ret (active b) 0 (b.beg + b.readable - b.n) (omega arith) (omega arith),
              copy_into_twice (other v) back front,
              twice.0,
              twice.1,
              wrapped_view v h,
            )
            (rw (linear-slice v) (
              refl,
              (switched_lem v).0,
              contents-switched v,
              omega (arith, switched_lem v),
              (switched_lem v).3,
            ))
    ]
