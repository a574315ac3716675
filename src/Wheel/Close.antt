-- ===== src/Wheel/Close.antt =====
-- When the channel that After returns is closed.
use goext.Prelude.{
  ℕ, zero, suc, ◌∷◌, ◌+◌, ◌*◌, ◌/◌, ◌%◌, ◌<◌, ◌≡◌, refl, sym, ap, ◌∙◌, ◌==◌, ltb, ◌-◌, ◌≤◌, ◌⊎◌,
  subst, if◌then◌else◌, true, false, arith, inl, inr, Bool-cases, Outcome, ret, ◌>>=◌, nth-ret,
  rem-ret, length, length-set, set, get_or, get_or-set, wrap, mod_wrap,
}
use native.Mathlib.Nat.{div-lt_iff_lt-mul, div-mul-le_self, lt-div-mul-add}
use goext.Prelude.Int.{pos, ◌+ℤ◌, leb_ℤ}
use goext.Wheel.{Wheel, wheel_tick, wheel_after, ahead, place_of}

pub record IsValid (w : Wheel) : Type 0 where
  pub inside : w.index < length w.ring
  pub spans : 0 < w.span
  pub whole : w.period ≡ w.span * length w.ring
  pub fresh : 0 < w.next_channel

unfoldable pub ticks : ℕ → Wheel → Outcome Wheel
ticks zero w = ret w
ticks (suc n) w = wheel_tick w >>= ticks n

abbrev ticked : Wheel → Wheel
ticked w = record w {
  ring = set w.ring w.index 0;
  index = (w.index + 1) % length w.ring;
  closed = if get_or w.ring w.index 0 == 0 then w.closed else get_or w.ring w.index 0 ∷ w.closed;
}

wheel_tick-ticked : (w : Wheel) → w.index < length w.ring → wheel_tick w ≡ ret (ticked w)
unfolding wheel_tick
wheel_tick-ticked w h =
    rw (nth-ret w.ring w.index 0 h, rem-ret (w.index + 1) (length w.ring) (omega arith)) refl

-- The place `suc d` ahead, from the index and from the next one.
next_place : (n i d : ℕ) → i < n → suc d < n → ((i + 1) % n + d) % n ≡ (i + suc d) % n
next_place n i d h k =
    let a = mod_wrap n (i + 1) (omega arith) in
    let b = mod_wrap n (wrap n (i + 1) + d) (ground arith) in
    let c = mod_wrap n (i + suc d) (omega arith) in
    ap (λ t. (t + d) % n) a ∙ b ∙ ground arith ∙ sym c

other_place : (n i d : ℕ) → i < n → suc d < n → (i == (i + suc d) % n) ≡ false
other_place n i d h k = let c = mod_wrap n (i + suc d) (omega arith) in ground arith

-- `d` ticks later the channel `d` places ahead is at the index.
abbrev IsAt : ℕ → Wheel → Type 0
IsAt c w = (w.index < length w.ring) × (get_or w.ring w.index 0 ≡ c)

at_lem :
    (d n : ℕ) (w : Wheel) (c : ℕ)
    → length w.ring ≡ n
    → w.index < n
    → d < n
    → get_or w.ring ((w.index + d) % n) 0 ≡ c
    → (w' : Wheel) × (ticks d w ≡ ret w') × IsAt c w'
unfolding ticks
at_lem zero n w c l h k e =
    let low : (w.index + 0) % n ≡ w.index = mod_wrap n (w.index + 0) (omega arith) ∙ ground arith in
    (w, refl, (omega arith, sym (ap (λ t. get_or w.ring t 0) low) ∙ e))
at_lem (suc d) n w c l h k e =
    let place = (w.index + suc d) % n in
    let step : ((w.index + 1) % length w.ring + d) % n ≡ place =
      ap (λ t. ((w.index + 1) % t + d) % n) l ∙ next_place n w.index d h k in
    let kept : get_or (set w.ring w.index 0) place 0 ≡ c =
      get_or-set w.ring w.index place 0 0 (omega arith) ∙ rw (other_place n w.index d h k) e in
    let (w', q, a) =
      at_lem d n (ticked w) c (length-set w.ring w.index 0 ∙ l) (omega arith) (omega arith)
        (ap (λ t. get_or (set w.ring w.index 0) t 0) step ∙ kept) in
    (w', rw (wheel_tick-ticked w (omega arith)) q, a)

add_pos : (a b : ℕ) → pos a +ℤ pos b ≡ pos (a + b)
unfolding ◌+ℤ◌
add_pos a b = ground arith

-- How many ticks After waits before the one that closes the channel, by the spans of the timeout.
abbrev waits : ℕ → ℕ
waits q = if ltb 0 q then q - 1 else q

ahead-waits : (w : Wheel) (timeout : ℕ) → ahead w (pos timeout) ≡ pos (waits (timeout / w.span))
unfolding ahead
ahead-waits w timeout = elim (Bool-cases (ltb 0 (timeout / w.span))) [
  | inl e ↦ rw e refl
  | inr e ↦ rw e refl
]

waits-bound :
    (w : Wheel) (timeout : ℕ)
    → IsValid w
    → timeout < w.period
    → waits (timeout / w.span) < length w.ring
waits-bound w timeout v h =
    let below : timeout < length w.ring * w.span = grind (arith, v.whole) in
    let q : timeout / w.span < length w.ring = (div-lt_iff_lt-mul v.spans).1 below in
    ground (arith, v.inside)

-- The tick is the last one before the timeout, or the first of all.
waits-early :
    (s timeout : ℕ) → (waits (timeout / s) ≡ 0) ⊎ ((waits (timeout / s) + 1) * s ≤ timeout)
waits-early s timeout = elim (Bool-cases (ltb 0 (timeout / s))) [
  | inr e ↦ inl (rw e (ground arith))
  | inl e ↦
      let same : waits (timeout / s) + 1 ≡ timeout / s = ground arith in
      inr (subst (λ t. t * s ≤ timeout) (sym same) (div-mul-le_self timeout s))
]

waits-late : (s timeout : ℕ) → 0 < s → timeout < (waits (timeout / s) + 2) * s
waits-late s timeout h =
    let a = lt-div-mul-add {a = timeout} h in
    elim (Bool-cases (ltb 0 (timeout / s))) [
      | inl e ↦
          let same : waits (timeout / s) + 2 ≡ timeout / s + 1 = ground arith in
          subst (λ t. timeout < t * s) (sym same) (grind arith)
      | inr e ↦
          let none : timeout / s ≡ 0 = ground arith in
          let low : timeout < 0 * s + s = subst (λ t. timeout < t * s + s) none a in
          let same : waits (timeout / s) + 2 ≡ 2 = rw e (ground arith) in
          subst (λ t. timeout < t * s) (sym same) (omega arith)
    ]

place_lem :
    (w : Wheel) (timeout n : ℕ)
    → n ≡ length w.ring
    → w.index < n
    → place_of (pos w.index +ℤ ahead w (pos timeout)) n
      ≡ ret ((w.index + waits (timeout / w.span)) % n)
unfolding place_of
place_lem w timeout n l h =
    let a : pos w.index +ℤ ahead w (pos timeout) ≡ pos (w.index + waits (timeout / w.span)) =
      ap (λ t. pos w.index +ℤ t) (ahead-waits w timeout)
      ∙ add_pos w.index (waits (timeout / w.span)) in
    ap (λ t. place_of t n) a ∙ rem-ret (w.index + waits (timeout / w.span)) n (omega arith)

-- The tick after `d` ticks closes the channel that is `d` places ahead.
close_lem :
    (d n : ℕ) (w : Wheel) (c : ℕ)
    → length w.ring ≡ n
    → w.index < n
    → d < n
    → get_or w.ring ((w.index + d) % n) 0 ≡ c
    → (c == 0) ≡ false
    → (w₂ w₃ : Wheel) × (ticks d w ≡ ret w₂)
      × (wheel_tick w₂ ≡ ret w₃)
      × (w₃.closed ≡ c ∷ w₂.closed)
close_lem d n w c l h k e z =
    let (w₂, q, (i, a)) = at_lem d n w c l h k e in
    let not_nil : (get_or w₂.ring w₂.index 0 == 0) ≡ false = ap (λ t. t == 0) a ∙ z in
    (w₂, ticked w₂, q, wheel_tick-ticked w₂ i, rw not_nil (ap (λ t. t ∷ w₂.closed) a))

module _ (w : Wheel) (timeout place : ℕ) (b : leb_ℤ (pos w.period) (pos timeout) ≡ false)
    (q : place_of (pos w.index +ℤ ahead w (pos timeout)) (length w.ring) ≡ ret place)
    (h : place < length w.ring) where
  new_channel :
      (get_or w.ring place 0 == 0) ≡ true
      → wheel_after w (pos timeout)
        ≡ ret (
          w.next_channel,
          record w { ring = set w.ring place w.next_channel; next_channel = w.next_channel + 1 },
        )
  unfolding wheel_after
  new_channel z = rw (b, q, nth-ret w.ring place 0 h, z) refl

  old_channel :
      (get_or w.ring place 0 == 0) ≡ false
      → wheel_after w (pos timeout) ≡ ret (get_or w.ring place 0, w)
  unfolding wheel_after
  old_channel z = rw (b, q, nth-ret w.ring place 0 h, z) refl

-- On a valid wheel After with a timeout from 0 to below the period returns a channel, which a tick
-- closes: the tick that comes when the whole spans of the timeout have passed, or the first one for
-- a timeout of less than a span.
pub wheel_after_lem :
    (w : Wheel) (timeout : ℕ)
    → IsValid w
    → timeout < w.period
    → (c d : ℕ) × (w₁ w₂ w₃ : Wheel) × (wheel_after w (pos timeout) ≡ ret (c, w₁))
      × (ticks d w₁ ≡ ret w₂)
      × (wheel_tick w₂ ≡ ret w₃)
      × (w₃.closed ≡ c ∷ w₂.closed)
      × ((d ≡ 0) ⊎ ((d + 1) * w.span ≤ timeout))
      × (timeout < (d + 2) * w.span)
wheel_after_lem w timeout v h =
    let n = length w.ring in
    let d = waits (timeout / w.span) in
    let place = (w.index + d) % n in
    let near = waits-bound w timeout v h in
    let some_place : place < n = omega (arith, v.inside) in
    let b : leb_ℤ (pos w.period) (pos timeout) ≡ false = ground arith in
    let q = place_lem w timeout n refl v.inside in
    let early = waits-early w.span timeout in
    let late = waits-late w.span timeout v.spans in
    elim (Bool-cases (get_or w.ring place 0 == 0)) [
      | inr z ↦
          let (w₂, w₃, t, u, e) =
            close_lem d n w (get_or w.ring place 0) refl v.inside near refl z in
          (
            get_or w.ring place 0,
            d,
            w,
            w₂,
            w₃,
            old_channel w timeout place b q some_place z,
            t,
            u,
            e,
            early,
            late,
          )
      | inl z ↦
          let w₁ = record w {
            ring = set w.ring place w.next_channel;
            next_channel = w.next_channel + 1;
          } in
          let same : (place == place) ≡ true = ground arith in
          let put : get_or (set w.ring place w.next_channel) place 0 ≡ w.next_channel =
            get_or-set w.ring place place w.next_channel 0 some_place ∙ rw same refl in
          let (w₂, w₃, t, u, e) =
            close_lem d n w₁ w.next_channel (length-set w.ring place w.next_channel) v.inside near
              put (ground (arith, v.fresh)) in
          (
            w.next_channel,
            d,
            w₁,
            w₂,
            w₃,
            new_channel w timeout place b q some_place z,
            t,
            u,
            e,
            early,
            late,
          )
    ]
