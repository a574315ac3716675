-- ===== src/Ring/Fixed/Read.antt =====
-- Read and ReadWithoutAdvance against the queue of readable bytes.
use goext.Prelude.{
  ℕ, ◌+◌, ◌-◌, ◌≤◌, ◌<◌, List, [], ◌∷◌, ◌++◌, ◌≡◌, refl, sym, ap, arith, Bool, true, false, Option,
  none, some, ltb, leb, ◌==◌, if◌then◌else◌, length, take, drop, min, cut, length-append,
  overwritten, copy_into-overwritten, overwritten_twice, copy_into_twice, overwritten_full, rem-ret,
  subst, length-cut, slice-ret, ret, Returns, Bool-cases, inl, inr,
}
use native.Mathlib.Decide.{ℕ_discrete}
use goext.Ring.Fixed.{
  FixedSizeRingBuf, IoError, eof, read_and_maybe_advance, copy_contiguous, copy_wrapped,
}
use goext.Ring.Fixed.State.{
  IsValid, active, contents, buf_at-active, length-active, length-contents,
}
use goext.Ring.Fixed.Advance.{advanced, advanced-IsValid, contents-advanced, advance-eq}
use goext.Ring.Fixed.View.{contiguous_view, wrapped_view, wrapped_end}

module _ {b : FixedSizeRingBuf} (v : IsValid b) (p : List ℕ) where
  -- What either way of copying returns.
  abbrev copied : ℕ × List ℕ
  copied = (min (length p) b.readable, overwritten p (contents b))

  copy_contiguous-eq : b.beg + b.readable ≤ b.n → copy_contiguous b p ≡ ret copied
  unfolding copy_contiguous
  copy_contiguous-eq h =
      let e = length-active v in
      rw (
        buf_at-active v,
        slice-ret (active b) b.beg (b.beg + b.readable) (omega arith) (omega arith),
        contiguous_view v h,
        copy_into-overwritten p (contents b),
        length-contents b,
      )

  copy_wrapped-eq : b.n < b.beg + b.readable → copy_wrapped b p ≡ ret copied
  unfolding copy_wrapped
  copy_wrapped-eq h =
      let e = length-active v in
      let back = cut (active b) b.beg b.n in
      let front = cut (active b) 0 (b.beg + b.readable - b.n) in
      let lb = length-cut (active b) b.beg b.n (omega arith) in
      let lf = length-cut (active b) 0 (b.beg + b.readable - b.n) (omega arith) in
      let start = wrapped_end v h in
      let whole = wrapped_view v h in
      let n = b.readable in
      rw
        (
          buf_at-active v,
          slice-ret (active b) b.beg b.n (omega arith) (omega arith),
          copy_into-overwritten p back,
        )
        (elim (Bool-cases (ltb (min (length p) (length back)) (length p))) [
          | inl more ↦ rw (
            more,
            rem-ret (b.beg + b.readable) b.n (omega arith),
            start,
            slice-ret (active b) 0 (b.beg + b.readable - b.n) (omega arith) (omega arith),
            copy_into_twice p back front,
            (overwritten_twice p back front).0,
            (overwritten_twice p back front).1,
            whole,
            length-contents b,
          )
          | inr full ↦
              let reach : length p ≤ length back = ground arith in
              rw (full, overwritten_full p back front reach, whole)
                (ap (λ k. ret (k, overwritten p (contents b)))
                  (omega (arith, length-append back front, ap length whole, length-contents b)))
        ])

  either_way :
      (if leb (b.beg + b.readable) b.n then copy_contiguous b p else copy_wrapped b p) ≡ ret copied
  either_way = elim (Bool-cases (leb (b.beg + b.readable) b.n)) [
    | inl fits ↦ rw fits (copy_contiguous-eq (ground arith))
    | inr wraps ↦ rw wraps (copy_wrapped-eq (ground arith))
  ]

  -- What ReadAndMaybeAdvance returns, and the ring that it leaves.
  read_and_maybe_advance-eq :
      (do_advance : Bool)
      → 0 < length p
      → 0 < b.readable
      → read_and_maybe_advance b p do_advance
        ≡ ret (copied.0, none, copied.1, if do_advance then advanced b copied.0 else b)
  unfolding read_and_maybe_advance
  read_and_maybe_advance-eq true hp hb =
      let np : (length p == 0) ≡ false = ground arith in
      let nb : (b.readable == 0) ≡ false = ground arith in
      let once : min (min (length p) b.readable) b.readable ≡ min (length p) b.readable =
        omega arith in
      rw (np, nb, either_way, advance-eq v (min (length p) b.readable), once)
  read_and_maybe_advance-eq false hp hb =
      let np : (length p == 0) ≡ false = ground arith in
      let nb : (b.readable == 0) ≡ false = ground arith in rw (np, nb, either_way)

-- What a read of `p` may return: the count, the error, the caller's slice, and the ring.
pub record WasRead (b : FixedSizeRingBuf) (p : List ℕ) (do_advance : Bool)
    (r : ℕ × Option IoError × List ℕ × FixedSizeRingBuf) : Type 0 where
  pub valid : IsValid r.3
  pub count : r.0 ≡ min (length p) b.readable
  pub error : r.1 ≡ (if length p == 0 then none else if b.readable == 0 then some eof else none)
  pub out : r.2 ≡ take r.0 (contents b) ++ drop r.0 p
  pub left : contents r.3 ≡ (if do_advance then drop r.0 (contents b) else contents b)
  pub size : r.3.n ≡ b.n

module _ {b : FixedSizeRingBuf} (v : IsValid b) (p : List ℕ) (do_advance : Bool) where
  nothing_read :
      (err : Option IoError)
      → min (length p) b.readable ≡ 0
      → err ≡ (if length p == 0 then none else if b.readable == 0 then some eof else none)
      → WasRead b p do_advance (0, err, p, b)
  nothing_read err h e = record {
    valid = v;
    count = omega arith;
    error = e;
    out = refl;
    left = ground arith;
    size = refl;
  }

  some_read :
      0 < length p
      → 0 < b.readable
      → WasRead b p do_advance (
        (copied v p).0,
        none,
        (copied v p).1,
        if do_advance then advanced b (copied v p).0 else b,
      )
  some_read hp hb =
      let k = min (length p) b.readable in
      let lk : k ≤ b.readable = omega arith in
      record {
        valid = ground (arith, advanced-IsValid v k lk);
        count = refl;
        error = ground arith;
        out = rw (length-contents b);
        left = ground (arith, contents-advanced v k lk);
        size = ground arith;
      }

-- On a valid ring ReadAndMaybeAdvance does not panic: it copies the oldest bytes to the start of
-- `p`, as many as `p` holds or the ring has, and leaves the rest of `p`; it reports EOF exactly if
-- `p` is not empty and the ring is; it then forgets the bytes read if it is to advance, and keeps
-- all of them if not; the ring stays valid and keeps its size.
pub read_and_maybe_advance_lem :
    {b : FixedSizeRingBuf}
    → IsValid b
    → (p : List ℕ) (do_advance : Bool)
    → Returns (WasRead b p do_advance) (read_and_maybe_advance b p do_advance)
unfolding read_and_maybe_advance
read_and_maybe_advance_lem {b} v [] do_advance =
    nothing_read v [] do_advance none (omega arith) refl
read_and_maybe_advance_lem {b} v (x ∷ xs) do_advance = elim (ℕ_discrete b.readable 0) [
  | yes e ↦
      let z : (b.readable == 0) ≡ true = ground arith in
      let np : (length (x ∷ xs) == 0) ≡ false = ground arith in
      rw (np, z) (nothing_read v (x ∷ xs) do_advance (some eof) (omega arith) (rw (np, z)))
  | no ne ↦
      subst (Returns (WasRead b (x ∷ xs) do_advance))
        (sym (read_and_maybe_advance-eq v (x ∷ xs) do_advance (omega arith) (omega arith)))
        (some_read v (x ∷ xs) do_advance (omega arith) (omega arith))
]
