-- ===== src/Timer/Slots.antt =====
-- The slots of a wheel: ordered lists, their nodes counted, and the level of a new node.
use goext.Prelude.{
  ℕ, zero, suc, List, [], ◌∷◌, ◌+◌, ◌≤◌, ◌<◌, ◌≡◌, refl, sym, ap, ◌∙◌, ◌==◌, ltb, leb, not, ◌-◌,
  ◌/◌, if◌then◌else◌, Bool, true, false, arith, Bool-cases, subst, inl, inr, ◌⊎◌,
}
use goext.Prelude.Int64.{
  half64, quarter64, sub_int64, div_int64, ltb_int64, sub_small, div_small, ltb_small, leb_small,
  leb_sub_small,
}
use goext.Timer.{
  TimerNode, TimerWheel, insert_sorted, compare_timer_node, is_negative, level_of, stays, set_slot,
  insert_slot, insert_timer_node, second_num, minute_num, hour_num, day_num, minute, hour, day,
}

-- The nodes of the list are due at `t` or later.
abbrev pub AreFrom : {A : Type 0} → ℕ → List (TimerNode A) → Type 0
AreFrom t [] = Unit
AreFrom t (x ∷ xs) = (t ≤ x.trig) × AreFrom t xs

-- A period, and a time that it is counted from, are below 2^62.
abbrev pub IsTimed : {A : Type 0} → TimerNode A → Type 0
IsTimed n = (n.period < quarter64) × (n.period ≤ n.trig) × (n.trig < n.period + quarter64)

-- The deadlines ascend, and are timed.
abbrev pub IsOrdered : {A : Type 0} → List (TimerNode A) → Type 0
IsOrdered [] = Unit
IsOrdered (x ∷ xs) = (AreFrom x.trig xs × IsTimed x) × IsOrdered xs

abbrev pub one : Bool → ℕ
one b = if b then 1 else 0

-- How many nodes satisfy a test.
abbrev pub count : {A : Type 0} → (TimerNode A → Bool) → List (TimerNode A) → ℕ
count p [] = 0
count p (x ∷ xs) = one (p x) + count p xs

-- How many nodes of the wheel satisfy a test.
abbrev pub held : {A : Type 0} → (TimerNode A → Bool) → TimerWheel A → ℕ
held p w =
    count p (w.slot 0)
    + count p (w.slot 1)
    + count p (w.slot 2)
    + count p (w.slot 3)
    + count p (w.slot 4)

-- How far off a node of the level is at least when it is put there.
abbrev pub least : ℕ → ℕ
least level =
    if level == 4 then day else if level == 3 then hour else if level == 0 then 0 else minute

pub level_of-bound : (trig clock : ℕ) → level_of trig clock < 5
unfolding level_of
level_of-bound trig clock = ground arith

-- The difference of a deadline that is later than the clock.
diff_lem :
    (trig clock : ℕ)
    → trig < half64
    → leb trig clock ≡ false
    → (sub_int64 trig clock ≡ trig - clock)
      × (trig - clock < half64)
      × ((k : ℕ) → div_int64 (trig - clock) k ≡ (trig - clock) / k)
diff_lem trig clock h e = (
  sub_small trig clock (ground arith) h,
  ground arith,
  λ k. div_small (trig - clock) k (ground arith),
)

-- The switches at times that do not wrap around.
abbrev plain_level : ℕ → ℕ → ℕ
plain_level trig clock =
    let diff = trig - clock in
    if leb trig clock
    then 0
    else if not (diff / day == 0)
    then 4
    else if not (diff / hour == 0)
    then 3
    else if not (diff / minute == 0)
    then 2
    else if not (diff / minute == 0)
    then 1
    else 0

level_of-plain :
    (trig clock : ℕ) → trig < half64 → clock < half64 → level_of trig clock ≡ plain_level trig clock
unfolding level_of second_num minute_num hour_num day_num
level_of-plain trig clock b c = elim (Bool-cases (leb trig clock)) [
  | inl e ↦ rw (leb_sub_small trig clock b c, e) refl
  | inr e ↦
      let (d, k, q) = diff_lem trig clock b e in
      rw (leb_sub_small trig clock b c, e, d, q day, q hour, q minute) refl
]

pub level_of-least :
    (trig clock : ℕ)
    → trig < half64
    → clock < half64
    → (level_of trig clock == 0) ≡ false
    → clock + least (level_of trig clock) ≤ trig
level_of-least trig clock b c h = let p = level_of-plain trig clock b c in ground arith

-- A difference in the unit of a level in the switch of timerCascade.
abbrev in_unit : ℕ → ℕ → ℕ
in_unit level diff =
    if level == 4 then diff / day else if level == 3 then diff / hour else diff / minute

level_cases :
    (level diff : ℕ)
    → (level == 0) ≡ false
    → level < 5
    → (if level == 1
        then ltb 0 (diff / minute)
        else if level == 2
        then ltb 0 (diff / minute)
        else if level == 3
        then ltb 0 (diff / hour)
        else if level == 4
        then ltb 0 (diff / day)
        else false)
      ≡ ltb 0 (in_unit level diff)
level_cases level diff z k = ground arith

unit_lem :
    (trig clock k : ℕ)
    → trig < half64
    → leb trig clock ≡ false
    → ltb_int64 0 (div_int64 (sub_int64 trig clock) k) ≡ ltb 0 ((trig - clock) / k)
unit_lem trig clock k b e =
    let (d, l, q) = diff_lem trig clock b e in
    ap (λ t. ltb_int64 0 (div_int64 t k)) d
    ∙ ap (ltb_int64 0) (q k)
    ∙ ltb_small 0 ((trig - clock) / k) (omega arith) (omega arith)

stays-plain :
    (level trig clock : ℕ)
    → trig < half64
    → clock < half64
    → (level == 0) ≡ false
    → level < 5
    → stays level trig clock
      ≡ (if leb trig clock then false else ltb 0 (in_unit level (trig - clock)))
unfolding stays second_num minute_num hour_num day_num
stays-plain level trig clock b c z k = elim (Bool-cases (leb trig clock)) [
  | inl e ↦ rw (leb_small trig clock b c, e) refl
  | inr e ↦
      rw
        (
          leb_small trig clock b c,
          e,
          unit_lem trig clock minute b e,
          unit_lem trig clock hour b e,
          unit_lem trig clock day b e,
        )
        (level_cases level (trig - clock) z k)
]

-- A node that stays is far off, one that leaves goes to another level.
pub stays-or-leaves :
    (level trig clock : ℕ)
    → trig < half64
    → clock < half64
    → (level == 0) ≡ false
    → level < 5
    → (stays level trig clock ≡ true) × (clock + least level ≤ trig)
      ⊎ (stays level trig clock ≡ false) × ((level_of trig clock == level) ≡ false)
stays-or-leaves level trig clock b c z k =
    let p = level_of-plain trig clock b c in
    let s = stays-plain level trig clock b c z k in
    let cases : (level ≡ 1) ⊎ (level ≡ 2) ⊎ (level ≡ 3) ⊎ (level ≡ 4) = ground arith in ground arith

module _ {A : Type 0} where
  pub AreFrom-weaken : (s t : ℕ) (xs : List (TimerNode A)) → s ≤ t → AreFrom t xs → AreFrom s xs
  AreFrom-weaken s t [] h f = tt
  AreFrom-weaken s t (x ∷ xs) h f = (omega (arith, f.0), AreFrom-weaken s t xs h f.1)

  pub trig_bound : (x : TimerNode A) → IsTimed x → x.trig < half64
  trig_bound x h = omega (arith, h.0, h.2)

  compare_lem :
      (x y : TimerNode A)
      → IsTimed x
      → IsTimed y
      → is_negative (compare_timer_node x y) ≡ ltb x.trig y.trig
  unfolding compare_timer_node is_negative
  compare_lem x y h k =
      let a = ltb_small x.trig y.trig (trig_bound x h) (trig_bound y k) in
      elim (Bool-cases (ltb x.trig y.trig)) [
        | inl b ↦ rw (a, b) refl
        | inr b ↦ elim (Bool-cases (ltb_int64 y.trig x.trig)) [
          | inl c ↦ rw (a, b, c) refl
          | inr c ↦ rw (a, b, c) refl
        ]
      ]

  pub insert_sorted-AreFrom :
      (t : ℕ) (n : TimerNode A) (xs : List (TimerNode A))
      → t ≤ n.trig
      → AreFrom t xs
      → AreFrom t (insert_sorted n xs)
  unfolding insert_sorted
  insert_sorted-AreFrom t n [] h f = (h, tt)
  insert_sorted-AreFrom t n (x ∷ xs) h f =
      elim (Bool-cases (is_negative (compare_timer_node n x))) [
        | inl e ↦ rw e (h, f)
        | inr e ↦ rw e (f.0, insert_sorted-AreFrom t n xs h f.1)
      ]

  pub insert_sorted-IsOrdered :
      (n : TimerNode A) (xs : List (TimerNode A))
      → IsTimed n
      → IsOrdered xs
      → IsOrdered (insert_sorted n xs)
  unfolding insert_sorted
  insert_sorted-IsOrdered n [] t o = ((tt, t), tt)
  insert_sorted-IsOrdered n (x ∷ xs) t o =
      elim (Bool-cases (is_negative (compare_timer_node n x))) [
        | inl e ↦
            let h : n.trig ≤ x.trig = ground (arith, compare_lem n x t o.0.1, e) in
            rw e (((h, AreFrom-weaken n.trig x.trig xs h o.0.0), t), o)
        | inr e ↦
            let h : x.trig ≤ n.trig = ground (arith, compare_lem n x t o.0.1, e) in
            rw e (
              (insert_sorted-AreFrom x.trig n xs h o.0.0, o.0.1),
              insert_sorted-IsOrdered n xs t o.1,
            )
      ]

  pub count-insert_sorted :
      (p : TimerNode A → Bool) (n : TimerNode A) (xs : List (TimerNode A))
      → count p (insert_sorted n xs) ≡ one (p n) + count p xs
  unfolding insert_sorted
  count-insert_sorted p n [] = refl
  count-insert_sorted p n (x ∷ xs) = elim (Bool-cases (is_negative (compare_timer_node n x))) [
    | inl e ↦ rw e refl
    | inr e ↦ rw e (let q = count-insert_sorted p n xs in omega arith)
  ]

  -- A slot that is set, among the five.
  pub held-set_slot :
      (p : TimerNode A → Bool) (w : TimerWheel A) (level : ℕ) (xs : List (TimerNode A))
      → level < 5
      → held p (set_slot w level xs) + count p (w.slot level) ≡ held p w + count p xs
  unfolding set_slot
  held-set_slot p w zero xs h = omega arith
  held-set_slot p w (suc zero) xs h = omega arith
  held-set_slot p w (suc (suc zero)) xs h = omega arith
  held-set_slot p w (suc (suc (suc zero))) xs h = omega arith
  held-set_slot p w (suc (suc (suc (suc zero)))) xs h = omega arith
  held-set_slot p w (suc (suc (suc (suc (suc n))))) xs h = absurd (omega arith)

  pub held-insert :
      (p : TimerNode A → Bool) (w : TimerWheel A) (n : TimerNode A)
      → held p (insert_timer_node w n) ≡ one (p n) + held p w
  unfolding insert_timer_node insert_slot
  held-insert p w n =
      let level = level_of n.trig w.clock in
      let a =
        held-set_slot p w level (insert_sorted n (w.slot level)) (level_of-bound n.trig w.clock) in
      let b = count-insert_sorted p n (w.slot level) in omega arith

  pub insert-IsOrdered :
      (w : TimerWheel A) (n : TimerNode A) (j : ℕ)
      → IsTimed n
      → IsOrdered (w.slot j)
      → IsOrdered ((insert_timer_node w n).slot j)
  unfolding insert_timer_node insert_slot set_slot
  insert-IsOrdered w n j m o =
      let level = level_of n.trig w.clock in
      elim (Bool-cases (j == level)) [
        | inl e ↦
            let q : j ≡ level = ground arith in
            rw e
              (insert_sorted-IsOrdered n (w.slot level) m (subst (λ t. IsOrdered (w.slot t)) q o))
        | inr e ↦ rw e o
      ]

  -- A level above the lowest takes nodes that are far off only.
  pub insert-AreFrom :
      (w : TimerWheel A) (n : TimerNode A) (j t : ℕ)
      → IsTimed n
      → w.clock < half64
      → (j == 0) ≡ false
      → t ≤ w.clock + least j
      → AreFrom t (w.slot j)
      → AreFrom t ((insert_timer_node w n).slot j)
  unfolding insert_timer_node insert_slot set_slot
  insert-AreFrom w n j t m b z h f =
      let level = level_of n.trig w.clock in
      elim (Bool-cases (j == level)) [
        | inl e ↦
            let q : j ≡ level = ground arith in
            let far : w.clock + least level ≤ n.trig =
              level_of-least n.trig w.clock (trig_bound n m) b (sym (ap (λ i. i == 0) q) ∙ z) in
            let near : w.clock + least j ≡ w.clock + least level = ap (λ i. w.clock + least i) q in
            rw e (
              insert_sorted-AreFrom t n (w.slot level) (omega arith)
                (subst (λ i. AreFrom t (w.slot i)) q f))
        | inr e ↦ rw e f
      ]
