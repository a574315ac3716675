-- ===== src/Ring/Fixed/State.antt =====
-- The invariant of FixedSizeRingBuf, and the queue of bytes that it holds.
use goext.Prelude.{
  ℕ, ◌+◌, ◌%◌, ◌≤◌, ◌<◌, List, ◌≡◌, arith, ◌==◌, if◌then◌else◌, length, get_or, tabulate,
  length-tabulate, get_or-tabulate, length-replicate, list_ext, ret, wrap, mod_wrap, ◌∙◌, ap, sym,
}
use goext.Ring.Fixed.{FixedSizeRingBuf, buf_at, new_fixed_size_ring_buf}

pub record IsValid (b : FixedSizeRingBuf) : Type 0 where
  pub size0 : length b.a0 ≡ b.n
  pub size1 : length b.a1 ≡ b.n
  pub side : b.in_use ≤ 1
  pub start : b.beg < b.n
  pub fits : b.readable ≤ b.n

-- The buffer in use.
abbrev pub active : FixedSizeRingBuf → List ℕ
active b = if b.in_use == 0 then b.a0 else b.a1

-- The readable bytes, oldest first.
abbrev pub contents : FixedSizeRingBuf → List ℕ
contents b = tabulate (λ k. get_or (active b) (k % b.n) 0) b.beg b.readable

module _ {b : FixedSizeRingBuf} (v : IsValid b) where
  pub buf_at-active : buf_at b b.in_use ≡ ret (active b)
  unfolding buf_at
  buf_at-active = ground arith

  pub length-active : length (active b) ≡ b.n
  length-active = ground arith

  pub get_or-contents :
      (i : ℕ)
      → i < b.readable
      → get_or (contents b) i 0 ≡ get_or (active b) (wrap b.n (b.beg + i)) 0
  get_or-contents i h =
      let e = get_or-tabulate (λ k. get_or (active b) (k % b.n) 0) b.beg b.readable i 0 in
      let w = ap (λ k. get_or (active b) k 0) (mod_wrap b.n (b.beg + i) (omega arith)) in
      ground (arith, e, w)

pub length-contents : (b : FixedSizeRingBuf) → length (contents b) ≡ b.readable
length-contents b = length-tabulate (λ k. get_or (active b) (k % b.n) 0) b.beg b.readable

-- A list is the ring's contents if it has their number and agrees at each position.
pub contents_ext :
    {b : FixedSizeRingBuf} (v : IsValid b) (ys : List ℕ)
    → length ys ≡ b.readable
    → ((i : ℕ) → i < b.readable → get_or ys i 0 ≡ get_or (active b) (wrap b.n (b.beg + i)) 0)
    → ys ≡ contents b
contents_ext {b} v ys e h =
    list_ext ys (contents b) 0 (omega (arith, length-contents b))
      λ i p. let q : i < b.readable = omega arith in h i q ∙ sym (get_or-contents v i q)

-- A new ring of at least one byte is valid and empty.
pub new_fixed_size_ring_buf-IsValid : (n : ℕ) → 0 < n → IsValid (new_fixed_size_ring_buf n)
unfolding new_fixed_size_ring_buf
new_fixed_size_ring_buf-IsValid n h = record {
  size0 = length-replicate n 0;
  size1 = length-replicate n 0;
  side = omega arith;
  start = h;
  fits = omega arith;
}
