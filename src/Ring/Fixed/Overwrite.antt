-- ===== src/Ring/Fixed/Overwrite.antt =====
-- WriteAndMaybeOverwriteOldestData: the ring as a record of the most recent bytes.
use goext.Prelude.{
  ℕ, ◌+◌, ◌-◌, ◌≤◌, List, ◌++◌, ◌≡◌, refl, ap, ◌∙◌, arith, Option, none, ltb, if◌then◌else◌, length,
  drop, length-drop, take-all, drop-append, Bool-cases, inl, inr, ret, Returns, Returns-bind,
  Returns-map,
}
use goext.Prelude.Int.{pos}
use goext.Ring.Fixed.{FixedSizeRingBuf, IoError, advance, write_and_maybe_overwrite_oldest_data}
use goext.Ring.Fixed.State.{IsValid, contents, length-contents}
use goext.Ring.Fixed.Advance.{advance_lem}
use goext.Ring.Fixed.Write.{HasWritten, write_lem}

module _ {b : FixedSizeRingBuf} (v : IsValid b) (p : List ℕ) where
  -- How many of the oldest bytes have to go.
  abbrev pub excess : ℕ
  excess = b.readable + length p - b.n

  abbrev Freed : FixedSizeRingBuf → Type 0
  Freed b' = IsValid b' × (contents b' ≡ drop excess (contents b)) × (b'.n ≡ b.n)

  -- What may be returned, and the ring afterwards.
  abbrev pub MostRecent : ℕ × Option IoError × FixedSizeRingBuf → Type 0
  MostRecent r =
      IsValid r.2
      × (r.0 ≡ length p)
      × (r.1 ≡ none)
      × (contents r.2 ≡ drop excess (contents b ++ p))
      × (r.2.n ≡ b.n)

  make_room : Returns Freed (
      if ltb (b.n - b.readable) (length p)
      then advance b (pos (length p - (b.n - b.readable)))
      else ret b)
  make_room = elim (Bool-cases (ltb (b.n - b.readable) (length p))) [
    | inl more ↦
        let e : length p - (b.n - b.readable) ≡ excess = ground arith in
        rw more (
          Returns-map
            (λ b'.
              IsValid b'
              × (contents b' ≡ drop (length p - (b.n - b.readable)) (contents b))
              × (b'.n ≡ b.n))
            Freed _ (advance_lem v (pos (length p - (b.n - b.readable))))
            λ b' f. (f.0, f.1 ∙ ap (λ k. drop k (contents b)) e, f.2))
    | inr fits ↦
        let e : 0 ≡ excess = ground arith in rw fits (v, ap (λ k. drop k (contents b)) e, refl)
  ]

  abbrev start : ℕ
  start = if ltb b.n (length p) then length p - b.n else 0

  stored :
      (b' : FixedSizeRingBuf)
      → Freed b'
      → (length (drop start p) ≤ b'.n - b'.readable) × (start ≡ excess - length (contents b))
  stored b' f = ground (
    arith,
    length-contents b,
    length-contents b',
    ap length f.1,
    length-drop excess (contents b),
    length-drop start p,
  )

  -- On a valid ring the call returns without an error and reports all of `p` as written: the ring
  -- then holds the most recent bytes of its old contents followed by `p`, as many as its size, and
  -- stays valid.
  pub overwrite_lem : Returns MostRecent (write_and_maybe_overwrite_oldest_data b p)
  unfolding write_and_maybe_overwrite_oldest_data
  overwrite_lem = Returns-bind Freed MostRecent _ _ make_room λ b' f.
      Returns-bind (HasWritten b' (drop start p) 0 none) MostRecent _ _
        (write_lem f.0 (drop start p))
        λ (c, err, b'') w.
          let (small, same) = stored b' f in
          let no_error : err ≡ none = ground (arith, w.error) in
          rw no_error (
            w.valid,
            refl,
            refl,
            w.stored
                ∙ cc (
                  f.1,
                  take-all (b'.n - b'.readable) (drop start p) small,
                  same,
                  drop-append excess (contents b) p,
                ),
            w.size ∙ f.2,
          )
