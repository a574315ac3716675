-- ===== src/Wheel.antt =====
-- time/wheel.go: Wheel, a ring of channels that the ticks close in turn.
-- A channel is a number, and 0 is nil; `closed` are the channels that are closed, the last one
-- first. The lock makes a tick and a call of After one step each.
pub mod Close
mod Tests
use goext.Prelude.{
  ℕ, zero, suc, List, [], ◌∷◌, ◌+◌, ◌-◌, ◌*◌, ◌/◌, ◌%◌, ◌==◌, ltb, leb, ◌||◌, if◌then◌else◌,
  Outcome, ret, panic, ◌>>=◌, nth, rem, length, set, replicate,
}
use goext.Prelude.Int.{ℤ, pos, negsuc, ◌+ℤ◌, ◌-ℤ◌, leb_ℤ}

pub record Wheel : Type 0 where
  pub span : ℕ
  pub period : ℕ
  pub index : ℕ
  pub ring : List ℕ
  pub next_channel : ℕ
  pub closed : List ℕ

unfoldable pub new_wheel : ℕ → ℕ → Outcome Wheel
new_wheel span buckets =
    if span == 0 || buckets == 0
    then panic
    else ret (record {
      span = span;
      period = span * buckets;
      index = 0;
      ring = replicate buckets 0;
      next_channel = 1;
      closed = [];
    })

-- A round of the goroutine.
unfoldable pub wheel_tick : Wheel → Outcome Wheel
wheel_tick w = do
  notify ← nth w.ring w.index
  index ← rem (w.index + 1) (length w.ring)
  ret (record w {
    ring = set w.ring w.index 0;
    index = index;
    closed = if notify == 0 then w.closed else notify ∷ w.closed;
  })

-- How many places ahead the channel of a timeout is. Go's quotient is rounded towards 0.
unfoldable pub ahead : Wheel → ℤ → ℤ
ahead w (pos timeout) =
    let place = timeout / w.span in if ltb 0 place then pos (place - 1) else pos place
ahead w (negsuc n) = pos 0 -ℤ pos (suc n / w.span)

-- The index into the ring; the remainder of a negative number is not positive.
unfoldable pub place_of : ℤ → ℕ → Outcome ℕ
place_of (pos i) len = rem i len
place_of (negsuc n) len = do r ← rem (suc n) len; if r == 0 then ret 0 else panic

-- After: the channel, which is a new one where the ring has none.
unfoldable pub wheel_after : Wheel → ℤ → Outcome (ℕ × Wheel)
wheel_after w timeout =
    let found : Outcome (ℕ × Wheel) = do
      place ← place_of (pos w.index +ℤ ahead w timeout) (length w.ring)
      c ← nth w.ring place
      if c == 0
          then ret (
            w.next_channel,
            record w { ring = set w.ring place w.next_channel; next_channel = w.next_channel + 1 },
          )
          else ret (c, w)
    in if leb_ℤ (pos w.period) timeout then panic else found
