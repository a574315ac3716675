-- ===== src/Ring/Bounded/State.antt =====
-- The invariant of the bounded Ring, and the queue that it holds.
use goext.Prelude.{
  ℕ, ◌+◌, ◌-◌, ◌%◌, ◌<◌, List, [], ◌≡◌, refl, sym, ap, ◌∙◌, arith, leb, ◌==◌, if◌then◌else◌, length,
  get_or, tabulate, length-tabulate, get_or-tabulate, length-replicate, list_ext, ret, wrap,
  mod_wrap, wrap-cases,
}
use goext.Ring.Bounded.{Ring, new_ring, size, clear, empty, full, free_size}

pub record IsValid (b : Ring) : Type 0 where
  pub storage : length b.buffer ≡ b.capacity
  pub first : b.begin < b.capacity
  pub last : b.end < b.capacity

abbrev pub used : Ring → ℕ
used b = if leb b.begin b.end then b.end - b.begin else b.end + b.capacity - b.begin

-- The bytes that are held, oldest first.
abbrev pub contents : Ring → List ℕ
contents b = tabulate (λ k. get_or b.buffer (k % b.capacity) 0) b.begin (used b)

pub length-contents : (b : Ring) → length (contents b) ≡ used b
length-contents b = length-tabulate (λ k. get_or b.buffer (k % b.capacity) 0) b.begin (used b)

module _ {b : Ring} (v : IsValid b) where
  pub size-eq : size b ≡ ret (used b)
  unfolding size
  size-eq = ground (
    arith,
    mod_wrap b.capacity (b.end + b.capacity - b.begin),
    wrap-cases b.capacity (b.end + b.capacity - b.begin),
  )

  pub get_or-contents :
      (i : ℕ)
      → i < used b
      → get_or (contents b) i 0 ≡ get_or b.buffer (wrap b.capacity (b.begin + i)) 0
  get_or-contents i h =
      let e = get_or-tabulate (λ k. get_or b.buffer (k % b.capacity) 0) b.begin (used b) i 0 in
      let below : i < b.capacity = ground arith in
      let w = ap (λ k. get_or b.buffer k 0) (mod_wrap b.capacity (b.begin + i) (omega arith)) in
      ground (arith, e, w)

pub contents_ext :
    {b : Ring} (v : IsValid b) (ys : List ℕ)
    → length ys ≡ used b
    → ((i : ℕ) → i < used b → get_or ys i 0 ≡ get_or b.buffer (wrap b.capacity (b.begin + i)) 0)
    → ys ≡ contents b
contents_ext {b} v ys e h =
    list_ext ys (contents b) 0 (omega (arith, length-contents b))
      λ i p. let q : i < used b = omega arith in h i q ∙ sym (get_or-contents v i q)

pub new_ring_lem : (n : ℕ) → 0 < n → IsValid (new_ring n) × (contents (new_ring n) ≡ [])
unfolding new_ring
new_ring_lem n h = (record { storage = length-replicate n 0; first = h; last = h }, refl)

-- Size, Empty, Full and FreeSize count the bytes held: at most one less than the capacity.
pub counts_lem :
    {b : Ring}
    → IsValid b
    → (size b ≡ ret (length (contents b)))
      × (empty b ≡ ret (length (contents b) == 0))
      × (full b ≡ ret (length (contents b) + 1 == b.capacity))
      × (free_size b ≡ ret (b.capacity - length (contents b) - 1))
      × (length (contents b) < b.capacity)
unfolding empty full free_size
counts_lem {b} v = rw (size-eq v, length-contents b) (refl, refl, refl, refl, ground arith)

-- Clear empties the ring.
pub clear_lem : {b : Ring} → IsValid b → IsValid (clear b) × (contents (clear b) ≡ [])
unfolding clear
clear_lem v = (omega arith, ground arith)
