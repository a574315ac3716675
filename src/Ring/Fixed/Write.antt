-- ===== src/Ring/Fixed/Write.antt =====
-- Write: the loop copies all that fits, in at most three rounds.
use goext.Prelude.{
  ℕ, zero, suc, ◌+◌, ◌-◌, ◌%◌, ◌≤◌, ◌<◌, List, [], ◌∷◌, ◌++◌, ◌≡◌, refl, sym, ap, ◌∙◌, arith, ◌⊎◌,
  true, false, Option, none, some, ltb, ◌==◌, if◌then◌else◌, length, get_or, take, drop, min,
  splice, length-take, length-drop, get_or-append, length-append, wrap, mod_wrap, wrap-cases,
  length-splice, get_or-splice, copy_into, copy_into-ret, rem-ret, append-nil, append_assoc,
  take-all, take-append-take-drop, Returns-map, ret, Returns, Bool-cases, inl, inr,
}
use goext.Ring.Fixed.{FixedSizeRingBuf, IoError, err_short_write, store, int_min, write_loop, write}
use goext.Ring.Fixed.State.{
  IsValid, active, contents, buf_at-active, length-active, get_or-contents, length-contents,
  contents_ext,
}

-- The ring after the buffer in use is replaced and `k` more bytes are readable.
abbrev filled : FixedSizeRingBuf → List ℕ → ℕ → FixedSizeRingBuf
filled b s k = record (store b b.in_use s) { readable = b.readable + k }

module _ {b : FixedSizeRingBuf} (v : IsValid b) where
  -- The position that Write writes to, and the end of the stretch that it may fill.
  abbrev start : ℕ
  start = wrap b.n (b.beg + b.readable)

  abbrev upper : ℕ
  upper = int_min (start + (b.n - b.readable)) b.n

  start-mod : (b.beg + b.readable) % b.n ≡ start
  start-mod = mod_wrap b.n (b.beg + b.readable) (omega arith)

  upper_bounds :
      (upper ≤ b.n)
      × (start ≤ upper)
      × (upper - start ≤ b.n - b.readable)
      × ((b.n ≤ b.readable) ⊎ (start < upper))
  unfolding int_min
  upper_bounds = ground (arith, wrap-cases b.n (b.beg + b.readable))

  active-filled : (s : List ℕ) (k : ℕ) → active (filled b s k) ≡ s
  unfolding store
  active-filled s k = ground arith

  module _ (src : List ℕ) (k : ℕ) (len : length src ≡ k) (fits : start + k ≤ upper) where
    abbrev after : FixedSizeRingBuf
    after = filled b (splice (active b) start src) k

    size : length (splice (active b) start src) ≡ b.n
    size = omega (arith, length-active v, upper_bounds, length-splice (active b) start src)

    filled-IsValid : IsValid after
    unfolding store
    filled-IsValid = ground (arith, size, upper_bounds)

    kept : (after.beg ≡ b.beg) × (after.n ≡ b.n)
    unfolding store
    kept = ground arith

    entry :
        (i : ℕ)
        → i < b.readable + k
        → get_or (contents b ++ src) i 0
          ≡ get_or (splice (active b) start src) (wrap b.n (b.beg + i)) 0
    entry i h = ground (
      arith,
      len,
      upper_bounds,
      length-active v,
      length-contents b,
      get_or-append (contents b) src i 0,
      get_or-contents v i,
      get_or-splice (active b) start src (wrap b.n (b.beg + i)) 0
          (omega (arith, upper_bounds, length-active v)),
    )

    same :
        (i : ℕ)
        → get_or (active after) (wrap after.n (after.beg + i)) 0
          ≡ get_or (splice (active b) start src) (wrap b.n (b.beg + i)) 0
    same i = cc (active-filled (splice (active b) start src) k, kept.0, kept.1)

    contents-filled : contents after ≡ contents b ++ src
    contents-filled = sym (
        contents_ext filled-IsValid (contents b ++ src)
          (omega (arith, length-append (contents b) src, length-contents b))
          λ i h. entry i h ∙ sym (same i))

-- What the loop has done when it stops, started at `b` with `n` bytes written and the error `err`.
pub record HasWritten (b : FixedSizeRingBuf) (p : List ℕ) (n : ℕ) (err : Option IoError)
    (r : ℕ × Option IoError × FixedSizeRingBuf) : Type 0 where
  pub valid : IsValid r.2
  pub count : r.0 ≡ n + min (length p) (b.n - b.readable)
  pub error : r.1 ≡ (if ltb (b.n - b.readable) (length p) then some err_short_write else err)
  pub stored : contents r.2 ≡ contents b ++ take (b.n - b.readable) p
  pub size : r.2.n ≡ b.n

-- One round copies `k` bytes, and the others do the rest.
module _ {b : FixedSizeRingBuf} (v : IsValid b) (p : List ℕ) (n : ℕ) (err : Option IoError) where
  round_count : ℕ
  round_count = min (upper v - start v) (length p)

  round-fits : (length (take round_count p) ≡ round_count) × (start v + round_count ≤ upper v)
  unfolding round_count
  round-fits = omega (arith, upper_bounds v, length-take (min (upper v - start v) (length p)) p)

  abbrev round_after : FixedSizeRingBuf
  round_after = after v (take round_count p) round_count round-fits.0 round-fits.1

  abbrev round_error : Option IoError
  round_error = if ltb (b.n - b.readable) (length p) then some err_short_write else err

  round_bounds :
      (round_count ≤ length p)
      × (round_count ≤ b.n - b.readable)
      × (round_after.n ≡ b.n)
      × (0 < length p → b.readable < b.n → 0 < round_count)
  unfolding round_count
  round_bounds = ground (
    arith,
    upper_bounds v,
    kept v (take (min (upper v - start v) (length p)) p) _ round-fits.0 round-fits.1,
  )

  round_copy :
      copy_into (active b) (start v) (upper v) p
      ≡ ret (round_count, splice (active b) (start v) (take round_count p))
  unfolding round_count
  round_copy =
      copy_into-ret (active b) (start v) (upper v) p (min (upper v - start v) (length p))
        (omega (arith, upper_bounds v)) (omega (arith, upper_bounds v, length-active v)) refl

  HasWritten-round :
      (r : ℕ × Option IoError × FixedSizeRingBuf)
      → HasWritten round_after (drop round_count p) (n + round_count) round_error r
      → HasWritten b p n err r
  HasWritten-round r w =
      let room : round_count + (round_after.n - round_after.readable) ≡ b.n - b.readable =
        omega (arith, round_bounds) in
      record {
        valid = w.valid;
        count = omega (arith, w.count, length-drop round_count p, round_bounds);
        error = ground (arith, w.error, length-drop round_count p, round_bounds);
        stored =
            w.stored
            ∙ cc (
              contents-filled v (take round_count p) round_count round-fits.0 round-fits.1,
              append_assoc (contents b) (take round_count p)
                  (take (round_after.n - round_after.readable) (drop round_count p)),
              take-append-take-drop round_count (round_after.n - round_after.readable) p,
              room,
            );
        size = w.size ∙ round_bounds.2;
      }

zero_room : {m : ℕ} → (m == 0) ≡ true → 0 ≡ m
zero_room h = ground arith

pos_room : {m : ℕ} → (m == 0) ≡ false → 0 < m
pos_room h = ground arith

write_loop-HasWritten :
    (fuel : ℕ) {b : FixedSizeRingBuf}
    → IsValid b
    → (p : List ℕ) (n : ℕ) (err : Option IoError) → length p < fuel
    → Returns (HasWritten b p n err) (write_loop fuel b p n err)
unfolding write_loop
write_loop-HasWritten zero v p n err h = absurd (omega arith)
write_loop-HasWritten (suc fuel) {b} v [] n err h = record {
  valid = v;
  count = omega arith;
  error = ground arith;
  stored =
      sym (append-nil (contents b))
      ∙ ap (λ t. contents b ++ t) (sym (take-all (b.n - b.readable) [] (omega arith)));
  size = refl;
}
write_loop-HasWritten (suc fuel) {b} v (x ∷ xs) n err h =
    let np : (length (x ∷ xs) == 0) ≡ false = ground arith in
    let k = round_count v (x ∷ xs) n err in
    let fits = round-fits v (x ∷ xs) n err in
    let bounds = round_bounds v (x ∷ xs) n err in
    elim (Bool-cases (b.n - b.readable == 0)) [
      | inl is_full ↦
          rw (np, is_full)
            (record {
              valid = v;
              count = ground arith;
              error = ground arith;
              stored =
                  sym (append-nil (contents b))
                  ∙ ap (λ j. contents b ++ take j (x ∷ xs)) (zero_room is_full);
              size = refl;
            })
      | inr room ↦
          let some_room : b.readable < b.n = omega (arith, pos_room room) in
          let progress = bounds.3 (omega arith) some_room in
          rw
            (
              np,
              room,
              rem-ret (b.beg + b.readable) b.n (omega arith),
              start-mod v,
              buf_at-active v,
              round_copy v (x ∷ xs) n err,
            )
            (Returns-map
              (HasWritten (round_after v (x ∷ xs) n err) (drop k (x ∷ xs)) (n + k)
                (round_error v (x ∷ xs) n err))
              (HasWritten b (x ∷ xs) n err) _
              (write_loop-HasWritten fuel (filled-IsValid v (take k (x ∷ xs)) k fits.0 fits.1)
                (drop k (x ∷ xs)) (n + k) (round_error v (x ∷ xs) n err)
                (omega (arith, length-drop k (x ∷ xs), bounds)))
              (HasWritten-round v (x ∷ xs) n err))
    ]

-- On a valid ring Write returns: it stores as many bytes of `p` as there is room for, in order,
-- behind those that the ring holds, returns their number, and reports ErrShortWrite exactly if some
-- bytes were left out; the ring stays valid and keeps its size.
pub write_lem :
    {b : FixedSizeRingBuf} → IsValid b → (p : List ℕ) → Returns (HasWritten b p 0 none) (write b p)
unfolding write
write_lem v p = write_loop-HasWritten (length p + 1) v p 0 none (omega arith)
