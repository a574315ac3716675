-- ===== src/Ring/Fixed.antt =====
-- container/ring/rbuf.go: FixedSizeRingBuf, a ring of N bytes over a pair of ping/pong buffers.
-- A method that changes the ring returns the new ring beside its results. Sizes and positions are
-- ℕ where the code keeps them nonnegative, and ℤ where a caller may pass or receive a negative one.
pub mod State
pub mod Advance
pub mod View
pub mod Write
pub mod Overwrite
pub mod Read
pub mod Position
pub mod Resize
mod Tests
use goext.Prelude.{
  ℕ, zero, suc, ◌+◌, ◌-◌, List, [], Bool, true, false, leb, ltb, ◌==◌, if◌then◌else◌, length, drop,
  replicate, slice, splice, take, min, copy_into, Outcome, ret, panic, no_fuel, ◌>>=◌, rem, Option,
  none, some,
}
use goext.Prelude.Int.{ℤ, pos, negsuc}

-- The field `Use` is `in_use`, and `A` is the pair `a0`, `a1`.
pub record FixedSizeRingBuf : Type 0 where
  pub a0 : List ℕ
  pub a1 : List ℕ
  pub in_use : ℕ
  pub n : ℕ
  pub beg : ℕ
  pub readable : ℕ

-- io.EOF and io.ErrShortWrite
pub data IoError : Type 0 where
  eof err_short_write : IoError

-- b.A[k]
unfoldable pub buf_at : FixedSizeRingBuf → ℕ → Outcome (List ℕ)
buf_at b k = if k == 0 then ret b.a0 else if k == 1 then ret b.a1 else panic

-- b.A[k] with new contents; only after `buf_at b k` returned.
unfoldable pub store : FixedSizeRingBuf → ℕ → List ℕ → FixedSizeRingBuf
store b k s = if k == 0 then record b { a0 = s } else record b { a1 = s }

unfoldable pub int_min : ℕ → ℕ → ℕ
int_min a b = if ltb a b then a else b

unfoldable pub contig_len : FixedSizeRingBuf → ℕ
contig_len b = int_min (b.beg + b.readable) b.n - b.beg

unfoldable pub new_fixed_size_ring_buf : ℕ → FixedSizeRingBuf
new_fixed_size_ring_buf max_view_in_bytes = record {
  a0 = replicate max_view_in_bytes 0;
  a1 = replicate max_view_in_bytes 0;
  in_use = 0;
  n = max_view_in_bytes;
  beg = 0;
  readable = 0;
}

-- Bytes: the readable bytes, linearised into the other buffer if they wrap.
unfoldable pub bytes : FixedSizeRingBuf → Outcome (List ℕ × FixedSizeRingBuf)
bytes b =
    let extent = b.beg + b.readable in
    let contiguous : Outcome (List ℕ × FixedSizeRingBuf) = do
      s ← buf_at b b.in_use
      view ← slice s b.beg extent
      ret (view, b)
    in let linearised : Outcome (List ℕ × FixedSizeRingBuf) = do
      src ← buf_at b b.in_use
      old ← buf_at b (1 - b.in_use)
      back ← slice src b.beg (length src)
      first ← copy_into old 0 (length old) back
      wrapped ← rem extent b.n
      front ← slice src 0 wrapped
      second ← copy_into first.1 first.0 (length first.1) front
      view ← slice second.1 0 (first.0 + second.0)
      ret (view, record (store b (1 - b.in_use) second.1) { in_use = 1 - b.in_use; beg = 0 })
      in if leb extent b.n then contiguous else linearised

-- BytesTwo: the readable bytes as two slices of the buffer; its argument is ignored.
unfoldable pub bytes_two : FixedSizeRingBuf → Bool → Outcome (List ℕ × List ℕ)
bytes_two b make_copy =
    let extent = b.beg + b.readable in
    let one : Outcome (List ℕ × List ℕ) = do
      s ← buf_at b b.in_use
      first ← slice s b.beg extent
      ret (first, [])
    in let two : Outcome (List ℕ × List ℕ) = do
      s ← buf_at b b.in_use
      first ← slice s b.beg b.n
      wrapped ← rem extent b.n
      second ← slice s 0 wrapped
      ret (first, second)
      in if leb extent b.n then one else two

-- Advance: forgets the oldest bytes.
unfoldable pub advance : FixedSizeRingBuf → ℤ → Outcome FixedSizeRingBuf
advance b (negsuc _) = ret b
advance b (pos zero) = ret b
advance b (pos (suc m)) = do
  let k = if ltb b.readable (suc m) then b.readable else suc m
  beg' ← rem (b.beg + k) b.n
  ret (record b { readable = b.readable - k; beg = beg' })

-- The two ways in which ReadAndMaybeAdvance copies into the caller's slice `p`.
unfoldable pub copy_contiguous : FixedSizeRingBuf → List ℕ → Outcome (ℕ × List ℕ)
copy_contiguous b p = do
  s ← buf_at b b.in_use
  view ← slice s b.beg (b.beg + b.readable)
  copy_into p 0 (length p) view

unfoldable pub copy_wrapped : FixedSizeRingBuf → List ℕ → Outcome (ℕ × List ℕ)
copy_wrapped b p = do
  s ← buf_at b b.in_use
  view ← slice s b.beg b.n
  first ← copy_into p 0 (length p) view
  let rest : Outcome (ℕ × List ℕ) = do
    r ← rem (b.beg + b.readable) b.n
    front ← slice s 0 r
    second ← copy_into first.1 first.0 (length first.1) front
    ret (first.0 + second.0, second.1)
  if ltb first.0 (length p) then rest else ret first

-- ReadAndMaybeAdvance: the count, the error, the caller's slice `p` afterwards, and the ring.
unfoldable pub read_and_maybe_advance :
    FixedSizeRingBuf → List ℕ → Bool → Outcome (ℕ × Option IoError × List ℕ × FixedSizeRingBuf)
read_and_maybe_advance b p do_advance =
    let copied : Outcome (ℕ × Option IoError × List ℕ × FixedSizeRingBuf) = do
      got ← if leb (b.beg + b.readable) b.n then copy_contiguous b p else copy_wrapped b p
      b' ← if do_advance then advance b (pos got.0) else ret b
      ret (got.0, none, got.1, b')
    in if length p == 0
      then ret (0, none, p, b)
      else if b.readable == 0
      then ret (0, some eof, p, b)
      else copied

unfoldable pub read :
    FixedSizeRingBuf → List ℕ → Outcome (ℕ × Option IoError × List ℕ × FixedSizeRingBuf)
read b p = read_and_maybe_advance b p true

unfoldable pub read_without_advance :
    FixedSizeRingBuf → List ℕ → Outcome (ℕ × Option IoError × List ℕ × FixedSizeRingBuf)
read_without_advance b p = read_and_maybe_advance b p false

-- The loop of Write, with the count and the error so far. Each round but the last copies a byte.
unfoldable pub write_loop :
    ℕ
    → FixedSizeRingBuf
    → List ℕ
    → ℕ
    → Option IoError
    → Outcome (ℕ × Option IoError × FixedSizeRingBuf)
write_loop zero b p n err = no_fuel
write_loop (suc fuel) b p n err =
    let capacity = b.n - b.readable in
    let err' = if ltb capacity (length p) then some err_short_write else err in
    let round : Outcome (ℕ × Option IoError × FixedSizeRingBuf) = do
      start ← rem (b.beg + b.readable) b.n
      let upper = int_min (start + capacity) b.n
      s ← buf_at b b.in_use
      copied ← copy_into s start upper p
      let b' = store b b.in_use copied.1
      write_loop fuel (record b' { readable = b.readable + copied.0 }) (drop copied.0 p)
          (n + copied.0) err'
    in if length p == 0
      then ret (n, err, b)
      else if capacity == 0
      then ret (n, some err_short_write, b)
      else round

-- Write
unfoldable pub write : FixedSizeRingBuf → List ℕ → Outcome (ℕ × Option IoError × FixedSizeRingBuf)
write b p = write_loop (length p + 1) b p 0 none

-- WriteAndMaybeOverwriteOldestData
unfoldable pub write_and_maybe_overwrite_oldest_data :
    FixedSizeRingBuf → List ℕ → Outcome (ℕ × Option IoError × FixedSizeRingBuf)
write_and_maybe_overwrite_oldest_data b p = do
  let capacity = b.n - b.readable
  b' ← if ltb capacity (length p) then advance b (pos (length p - capacity)) else ret b
  let start = if ltb b.n (length p) then length p - b.n else 0
  done ← write b' (drop start p)
  ret (elim done.1 [ some e ↦ done | none ↦ (length p, none, done.2) ])

-- Reset
unfoldable pub reset : FixedSizeRingBuf → FixedSizeRingBuf
reset b = record b { beg = 0; readable = 0; in_use = 0 }

-- Adopt
unfoldable pub adopt : FixedSizeRingBuf → List ℕ → FixedSizeRingBuf
adopt b me =
    if ltb b.n (length me)
    then record b {
      a0 = me;
      a1 = replicate (length me) 0;
      n = length me;
      in_use = 0;
      beg = 0;
      readable = length me;
    }
    else record b {
      a0 = splice b.a0 0 (take (min (length b.a0) (length me)) me);
      in_use = 0;
      beg = 0;
      readable = length me;
    }

-- DeleteMostRecentBytes
unfoldable pub delete_most_recent_bytes : FixedSizeRingBuf → ℤ → FixedSizeRingBuf
delete_most_recent_bytes b (negsuc _) = b
delete_most_recent_bytes b (pos zero) = b
delete_most_recent_bytes b (pos (suc m)) =
    if leb b.readable (suc m)
    then record b { readable = 0 }
    else record b { readable = b.readable - suc m }
