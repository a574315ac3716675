-- ===== src/Ring/Bounded.antt =====
-- container/ring/bounded_ring.go: Ring, a byte ring that keeps one place free, so that equal ends
-- mean empty. `end - begin` is not negative once `capacity` is added, as in the code.
pub mod State
pub mod Write
pub mod Read
mod Tests
use goext.Prelude.{
  ℕ, ◌+◌, ◌-◌, List, Bool, true, false, leb, ltb, ◌==◌, if◌then◌else◌, length, drop, replicate,
  slice, copy_into, Outcome, ret, ◌>>=◌, rem,
}

pub record Ring : Type 0 where
  pub buffer : List ℕ
  pub capacity : ℕ
  pub begin : ℕ
  pub end : ℕ

unfoldable pub new_ring : ℕ → Ring
new_ring capacity = record {
  buffer = replicate capacity 0;
  capacity = capacity;
  begin = 0;
  end = 0;
}

unfoldable pub size : Ring → Outcome ℕ
size b = rem (b.end + b.capacity - b.begin) b.capacity

-- Write: whether all of `data` was stored, and the ring.
unfoldable pub write : Ring → List ℕ → Outcome (Bool × Ring)
write b input = do
  used ← size b
  let store : Outcome (List ℕ) =
      if leb b.begin b.end
      then (if leb (length input) (b.capacity - b.end)
          then (copy_into b.buffer b.end (length b.buffer) input >>= λ r. ret r.1)
          else (do
            back ← copy_into b.buffer b.end (length b.buffer) input
            rest ← slice input (b.capacity - b.end) (length input)
            front ← copy_into back.1 0 (length back.1) rest
            ret front.1))
      else copy_into b.buffer b.end (length b.buffer) input >>= λ r. ret r.1
  let stored : Outcome (Bool × Ring) = do
    buffer' ← store
    end' ← rem (b.end + length input) b.capacity
    ret (true, record b { buffer = buffer'; end = end' })
  if leb b.capacity (used + length input) then ret (false, b) else stored

-- The part of Read that copies the `n` oldest bytes to the caller's slice.
unfoldable pub fetch : Ring → ℕ → List ℕ → Outcome (List ℕ)
fetch b n output =
    let straight : Outcome (List ℕ) = do
      s ← slice b.buffer b.begin (b.begin + n)
      r ← copy_into output 0 (length output) s
      ret r.1
    in let around : Outcome (List ℕ) = do
      back ← slice b.buffer b.begin (length b.buffer)
      r ← copy_into output 0 (length output) back
      let size1 = b.capacity - b.begin
      front ← slice b.buffer 0 (n - size1)
      r' ← copy_into r.1 size1 (length r.1) front
      ret r'.1
      in if leb b.end b.begin
        then (if leb n (b.capacity - b.begin) then straight else around)
        else straight

-- Read: the count, the caller's slice afterwards, and the ring.
unfoldable pub read : Ring → List ℕ → Outcome (ℕ × List ℕ × Ring)
read b output = do
  used ← size b
  let n = if ltb used (length output) then used else length output
  let fetched : Outcome (ℕ × List ℕ × Ring) = do
    output' ← fetch b n output
    begin' ← rem (b.begin + n) b.capacity
    ret (n, output', record b { begin = begin' })
  if used == 0
      then ret (0, output, b)
      else if length output == 0
      then ret (0, output, b)
      else fetched

unfoldable pub clear : Ring → Ring
clear b = record b { begin = 0; end = 0 }

unfoldable pub capacity : Ring → ℕ
capacity b = b.capacity

unfoldable pub empty : Ring → Outcome Bool
empty b = size b >>= λ n. ret (n == 0)

unfoldable pub full : Ring → Outcome Bool
full b = size b >>= λ n. ret (n + 1 == b.capacity)

-- Capacity() - Size() - 1, for a size below the capacity.
unfoldable pub free_size : Ring → Outcome ℕ
free_size b = size b >>= λ n. ret (b.capacity - n - 1)
