-- ===== src/RedPacket/Tests.antt =====
-- Runs of CalRedPacket with the least and the largest draws.
use goext.Prelude.{ℕ, ◌-◌, List, [], ◌∷◌, ◌≡◌, refl, arith, some, length}
use goext.Prelude.Int.{ℤ, pos, negsuc, ◌-ℤ◌}
use goext.RedPacket.{quot_ℤ, divisor, money_of, packets, cal_red_packet}
use goext.RedPacket.Share.{
  sum_ℤ, IsRandom, ArePositive, cal_red_packet_lem, cal_red_packet-ArePositive,
}

abbrev largest : ℕ → ℕ → ℕ
largest i n = n - 1

largest_run : cal_red_packet largest (pos 100) (pos 4) ≡ some (pos 96 ∷ pos 1 ∷ pos 1 ∷ pos 2 ∷ [])
unfolding quot_ℤ divisor money_of packets cal_red_packet ◌-ℤ◌
largest_run = refl

-- With less than one unit each the last packet pays in.
short_run : cal_red_packet largest (pos 1) (pos 3) ≡ some (pos 1 ∷ pos 1 ∷ negsuc 0 ∷ [])
unfolding quot_ℤ divisor money_of packets cal_red_packet ◌-ℤ◌
short_run = refl

cal_red_packet_lem_example :
    (ps : List ℤ) × (cal_red_packet largest (pos 100) (pos 4) ≡ some ps)
    × (length ps ≡ 4)
    × (sum_ℤ ps ≡ pos 100)
cal_red_packet_lem_example = cal_red_packet_lem largest 100 4 (omega arith) (omega arith)

largest-IsRandom : IsRandom largest
largest-IsRandom i n h = omega arith

cal_red_packet-ArePositive_example :
    (ps : List ℤ) × (cal_red_packet largest (pos 100) (pos 4) ≡ some ps) × ArePositive ps
cal_red_packet-ArePositive_example =
    cal_red_packet-ArePositive largest 100 4 largest-IsRandom (omega arith) (omega arith)
