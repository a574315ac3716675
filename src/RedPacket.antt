-- ===== src/RedPacket.antt =====
-- math/rand/red_packet.go: CalRedPacket, which divides a sum at random.
-- rand.Intn is a parameter: what it returns in a round, and for a bound. The amounts are integers,
-- none of which is larger in size than the total or the number, so that an int32 holds them.
pub mod Share
mod Tests
use goext.Prelude.{ℕ, zero, suc, ◌+◌, ◌/◌, List, [], ◌∷◌, leb, if◌then◌else◌, Option, none, some}
use goext.Prelude.Int.{ℤ, pos, negsuc, pos_part, sub_ℕ, leb_ℤ, ◌-ℤ◌}

-- Go's quotient of an integer by a positive number is rounded towards 0.
unfoldable pub quot_ℤ : ℤ → ℕ → ℤ
quot_ℤ (pos a) k = pos (a / k)
quot_ℤ (negsuc a) k = sub_ℕ 0 ((a + 1) / k)

-- The variable k of a round with `rest` = num - i.
unfoldable pub divisor : ℕ → ℕ
divisor rest = if leb rest 2 then rest else rest / 2

-- What a round gives out of the balance.
unfoldable pub money_of : (ℕ → ℕ → ℕ) → ℕ → ℤ → ℕ
money_of intn rest balance =
    let share = quot_ℤ (balance -ℤ pos rest) (divisor rest) in
    let max = if leb_ℤ share (pos 1) then pos 2 else share in
    intn rest (pos_part (max -ℤ pos 1)) + 1

-- The loop with `rest` = num - i rounds to go, and the last packet.
unfoldable pub packets : (ℕ → ℕ → ℕ) → ℕ → ℤ → List ℤ
packets intn zero balance = balance ∷ []
packets intn (suc r) balance =
    let money = pos (money_of intn (suc r) balance) in money ∷ packets intn r (balance -ℤ money)

-- A result of none is an error.
unfoldable pub cal_red_packet : (ℕ → ℕ → ℕ) → ℤ → ℤ → Option (List ℤ)
cal_red_packet intn (pos (suc t)) (pos (suc n)) = some (packets intn n (pos (suc t)))
cal_red_packet intn (pos (suc t)) (pos zero) = none
cal_red_packet intn (pos (suc t)) (negsuc n) = none
cal_red_packet intn (pos zero) num = none
cal_red_packet intn (negsuc t) num = none
