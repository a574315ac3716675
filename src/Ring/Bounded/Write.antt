-- ===== src/Ring/Bounded/Write.antt =====
-- Write stores a whole slice or nothing.
use goext.Prelude.{
  ℕ, ◌+◌, ◌-◌, ◌%◌, ◌≤◌, ◌<◌, List, ◌++◌, ◌≡◌, refl, sym, ap, ◌∙◌, arith, Bool, true, false, ltb,
  leb, if◌then◌else◌, length, get_or, take, drop, length-append, length-take, length-drop,
  get_or-append, get_or-take, get_or-drop, Bool-cases, inl, inr, ret, Returns, Returns-map, rem-ret,
  wrap, mod_wrap, wrap-cases, splice, slice_from, copy_into_all, copy_into_some, copy_into,
  length-splice, get_or-splice,
}
use goext.Ring.Bounded.{Ring, write}
use goext.Ring.Bounded.State.{
  IsValid, used, contents, size-eq, length-contents, get_or-contents, contents_ext,
}

-- The ring after `write`, for a buffer that holds the new bytes.
module _ {b : Ring} (v : IsValid b) (input : List ℕ)
    (room : used b + length input < b.capacity) where
  abbrev after : List ℕ → Ring
  after buffer' = record b { buffer = buffer'; end = (b.end + length input) % b.capacity }

  -- `buffer'` holds the old bytes at their places, and the new ones behind them.
  abbrev Holds : List ℕ → Type 0
  Holds buffer' =
      (length buffer' ≡ b.capacity)
      × ((i : ℕ)
          → i < used b + length input
          → get_or buffer' (wrap b.capacity (b.begin + i)) 0 ≡ get_or (contents b ++ input) i 0)

  abbrev Stored : Bool × Ring → Type 0
  Stored r =
      IsValid r.1
      × (r.0 ≡ true)
      × (contents r.1 ≡ contents b ++ input)
      × (r.1.capacity ≡ b.capacity)

  used-after : (buffer' : List ℕ) → used (after buffer') ≡ used b + length input
  used-after buffer' =
      let e = mod_wrap b.capacity (b.end + length input) (ground arith) in
      ground (arith, e, wrap-cases b.capacity (b.end + length input))

  Holds-Stored : (buffer' : List ℕ) → Holds buffer' → Stored (true, after buffer')
  Holds-Stored buffer' h =
      let below = mod_wrap b.capacity (b.end + length input) (ground arith) in
      let valid : IsValid (after buffer') = record {
        storage = h.0;
        first = v.first;
        last = ground (arith, below, wrap-cases b.capacity (b.end + length input));
      } in
      (
        valid,
        refl,
        sym (
            contents_ext valid (contents b ++ input)
              (omega
                (arith, length-append (contents b) input, length-contents b, used-after buffer'))
              λ i p. sym (h.1 i (omega (arith, used-after buffer')))),
        refl,
      )

  -- One copy, where the bytes do not pass the end of the buffer.
  straight : length input ≤ b.capacity - b.end → Holds (splice b.buffer b.end input)
  straight h = (
    length-splice b.buffer b.end input (omega arith) ∙ v.storage,
    λ i p. ground (
      arith,
      get_or-splice b.buffer b.end input (wrap b.capacity (b.begin + i)) 0 (omega arith),
      get_or-append (contents b) input i 0,
      length-contents b,
      get_or-contents v i,
    ),
  )

  -- Two copies, where they do.
  around :
      b.begin ≤ b.end
      → b.capacity - b.end < length input
      → Holds (
          splice
            (splice b.buffer b.end (take (b.capacity - b.end) input))
            0
            (drop (b.capacity - b.end) input))
  around o h =
      let k = b.capacity - b.end in
      let back = take k input in
      let front = drop k input in
      let once = splice b.buffer b.end back in
      let lb = length-take k input in
      let lf = length-drop k input in
      let l1 = length-splice b.buffer b.end back (omega (arith, v.storage)) in
      let small : length front ≤ b.begin = ground arith in
      (
        length-splice once 0 front (omega (arith, v.storage)) ∙ l1 ∙ v.storage,
        λ i p. ground (
          arith,
          get_or-splice once 0 front (wrap b.capacity (b.begin + i)) 0 (omega (arith, v.storage)),
          get_or-splice b.buffer b.end back (wrap b.capacity (b.begin + i)) 0
              (omega (arith, v.storage)),
          get_or-take k input (wrap b.capacity (b.begin + i) - b.end) 0,
          get_or-drop k input (wrap b.capacity (b.begin + i)) 0,
          get_or-append (contents b) input i 0,
          length-contents b,
          get_or-contents v i,
          lb,
          lf,
        ),
      )

  -- Whichever way the code copies, it stores the bytes.
  write-Stored : Returns Stored (write b input)
  unfolding write
  write-Stored =
      let s = v.storage in
      let fits : leb b.capacity (used b + length input) ≡ false = ground arith in
      let next = rem-ret (b.end + length input) b.capacity (omega arith) in
      elim (Bool-cases (leb b.begin b.end)) [
        | inl o ↦ elim (Bool-cases (leb (length input) (b.capacity - b.end))) [
          | inl short ↦
              rw
                (
                  size-eq v,
                  fits,
                  o,
                  short,
                  copy_into_all b.buffer b.end input (omega (arith, v.last)) (ground arith),
                  next,
                )
                (Holds-Stored _ (straight (ground arith)))
          | inr long ↦
              let k = b.capacity - b.end in
              let once = splice b.buffer b.end (take k input) in
              let first : copy_into b.buffer b.end (length b.buffer) input ≡ ret (k, once) =
                copy_into_some b.buffer b.end input (omega (arith, v.last)) (ground arith)
                ∙ ap (λ j. ret (j - b.end, splice b.buffer b.end (take (j - b.end) input))) s in
              let l1 =
                length-splice b.buffer b.end (take k input)
                  (omega (arith, length-take k input, v.last)) in
              rw
                (
                  size-eq v,
                  fits,
                  o,
                  long,
                  first,
                  slice_from input k (ground arith),
                  copy_into_all once 0 (drop k input) (omega arith)
                      (omega (arith, length-drop k input, l1)),
                  next,
                )
                (Holds-Stored _ (around (ground arith) (ground arith)))
        ]
        | inr c ↦
            rw
              (
                size-eq v,
                fits,
                c,
                copy_into_all b.buffer b.end input (omega (arith, v.last)) (ground arith),
                next,
              )
              (Holds-Stored _ (straight (ground arith)))
      ]

-- What Write may return, and the ring afterwards.
pub record WasWritten (b : Ring) (input : List ℕ) (r : Bool × Ring) : Type 0 where
  pub valid : IsValid r.1
  pub done : r.0 ≡ ltb (length (contents b) + length input) b.capacity
  pub stored : contents r.1 ≡ (if r.0 then contents b ++ input else contents b)
  pub size : r.1.capacity ≡ b.capacity

-- Write stores all of `input` behind the bytes held and reports so if that leaves a place free,
-- and else changes nothing and reports so. It does not panic, and keeps the ring valid.
pub write_all_or_nothing :
    {b : Ring} → IsValid b → (input : List ℕ) → Returns (WasWritten b input) (write b input)
unfolding write
write_all_or_nothing {b} v input = elim (Bool-cases (leb b.capacity (used b + length input))) [
  | inl no_room ↦
      rw (size-eq v, no_room)
        (record { valid = v; done = ground (arith, length-contents b); stored = refl; size = refl })
  | inr room ↦
      let h : used b + length input < b.capacity = ground arith in
      Returns-map (Stored v input h) (WasWritten b input) _ (write-Stored v input h) λ r t. record {
        valid = t.0;
        done = t.1 ∙ ground (arith, length-contents b);
        stored = ground (arith, t.1, t.2);
        size = t.3;
      }
]
