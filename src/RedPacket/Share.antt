-- ===== src/RedPacket/Share.antt =====
-- The packets of CalRedPacket.
use goext.Prelude.{
  ℕ, zero, suc, ◌+◌, ◌-◌, ◌/◌, ◌<◌, ◌≤◌, List, [], ◌∷◌, ◌≡◌, inl, inr, refl, ap, ◌∙◌, arith, false,
  if◌then◌else◌, some, length, Bool-cases,
}
use native.Mathlib.Nat.{div-le_self}
use goext.Prelude.Int.{ℤ, pos, pos_part, leb_ℤ, ◌+ℤ◌, ◌-ℤ◌, int_laws}
use goext.RedPacket.{quot_ℤ, divisor, money_of, packets, cal_red_packet}

abbrev pub sum_ℤ : List ℤ → ℤ
sum_ℤ [] = pos 0
sum_ℤ (x ∷ xs) = x +ℤ sum_ℤ xs

-- rand.Intn stays below its bound.
abbrev pub IsRandom : (ℕ → ℕ → ℕ) → Type 0
IsRandom intn = (i n : ℕ) → 0 < n → intn i n < n

abbrev pub ArePositive : List ℤ → Type 0
ArePositive [] = Unit {0}
ArePositive (x ∷ xs) = (0 < pos_part x) × ArePositive xs

packets-sum : (intn : ℕ → ℕ → ℕ) (r : ℕ) (b : ℤ) → sum_ℤ (packets intn r b) ≡ b
unfolding packets
packets-sum intn zero b = omega int_laws
packets-sum intn (suc r) b =
    let money = pos (money_of intn (suc r) b) in
    ap (λ t. money +ℤ t) (packets-sum intn r (b -ℤ money)) ∙ omega int_laws

length-packets : (intn : ℕ → ℕ → ℕ) (r : ℕ) (b : ℤ) → length (packets intn r b) ≡ r + 1
unfolding packets
length-packets intn zero b = refl
length-packets intn (suc r) b =
    omega (arith, length-packets intn r (b -ℤ pos (money_of intn (suc r) b)))

ltb_lem : (q : ℕ) → leb_ℤ (pos q) (pos 1) ≡ false → 1 < q
ltb_lem q e = ground arith

sub_pos : (a b : ℕ) → b ≤ a → pos a -ℤ pos b ≡ pos (a - b)
sub_pos a b h = omega int_laws

-- What is drawn for a share of `q`.
drawn_lem :
    (intn : ℕ → ℕ → ℕ) (i q : ℕ)
    → IsRandom intn
    → intn i (pos_part ((if leb_ℤ (pos q) (pos 1) then pos 2 else pos q) -ℤ pos 1)) < 1 + (q - 2)
drawn_lem intn i q h = elim (Bool-cases (leb_ℤ (pos q) (pos 1))) [
  | inl e ↦ rw (e, sub_pos 2 1 (omega arith)) (omega (arith, h i 1 (omega arith)))
  | inr e ↦
      rw (e, sub_pos q 1 (ground arith)) (omega (arith, h i (q - 1) (ground arith), ltb_lem q e))
]

quot_lem : (b r k : ℕ) → r < b → quot_ℤ (pos b -ℤ pos r) k ≡ pos ((b - r) / k)
unfolding quot_ℤ
quot_lem b r k h = rw (sub_pos b r (omega arith)) refl

money_of-positive : (intn : ℕ → ℕ → ℕ) (r : ℕ) (b : ℤ) → 0 < money_of intn r b
unfolding money_of
money_of-positive intn r b = omega arith

-- A round with enough for one unit each leaves enough for the others.
money_of-bound :
    (intn : ℕ → ℕ → ℕ) (r b : ℕ) → IsRandom intn → r + 1 < b → money_of intn (suc r) (pos b) + r < b
unfolding money_of
money_of-bound intn r b h l =
    let q = (b - suc r) / divisor (suc r) in
    rw (quot_lem b (suc r) (divisor (suc r)) (omega arith))
      (omega (arith, drawn_lem intn (suc r) q h, div-le_self (b - suc r) (divisor (suc r))))

packets-ArePositive :
    (intn : ℕ → ℕ → ℕ) (r b : ℕ) → IsRandom intn → r < b → ArePositive (packets intn r (pos b))
unfolding packets
packets-ArePositive intn zero b h l = (l, tt)
packets-ArePositive intn (suc r) b h l =
    let m = money_of intn (suc r) (pos b) in
    let bound = money_of-bound intn r b h (omega arith) in
    let left : pos b -ℤ pos m ≡ pos (b - m) = omega int_laws in
    (
      money_of-positive intn (suc r) (pos b),
      rw left (packets-ArePositive intn r (b - m) h (omega (arith, bound))),
    )

-- For a total and a number of at least 1, CalRedPacket returns as many packets as the number, whose
-- sum is the total, whatever rand.Intn returns.
pub cal_red_packet_lem :
    (intn : ℕ → ℕ → ℕ) (total num : ℕ)
    → 0 < total
    → 0 < num
    → (ps : List ℤ) × (cal_red_packet intn (pos total) (pos num) ≡ some ps)
      × (length ps ≡ num)
      × (sum_ℤ ps ≡ pos total)
unfolding cal_red_packet
cal_red_packet_lem intn zero num h k = absurd (omega arith)
cal_red_packet_lem intn (suc t) zero h k = absurd (omega arith)
cal_red_packet_lem intn (suc t) (suc n) h k = (
  packets intn n (pos (suc t)),
  refl,
  omega (arith, length-packets intn n (pos (suc t))),
  packets-sum intn n (pos (suc t)),
)

-- For a number of at least 1 and a total no less than it, CalRedPacket returns packets that hold at
-- least 1 each, if rand.Intn stays below its bound.
pub cal_red_packet-ArePositive :
    (intn : ℕ → ℕ → ℕ) (total num : ℕ)
    → IsRandom intn
    → 0 < num
    → num ≤ total
    → (ps : List ℤ) × (cal_red_packet intn (pos total) (pos num) ≡ some ps) × ArePositive ps
unfolding cal_red_packet
cal_red_packet-ArePositive intn zero num r h k = absurd (omega arith)
cal_red_packet-ArePositive intn (suc t) zero r h k = absurd (omega arith)
cal_red_packet-ArePositive intn (suc t) (suc n) r h k =
    (packets intn n (pos (suc t)), refl, packets-ArePositive intn n (suc t) r (omega arith))
