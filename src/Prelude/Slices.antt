-- ===== src/Prelude/Slices.antt =====
-- Go's slice expressions and `copy` on a buffer, with their panics.
use Prim.Native.Nat.{ℕ, ◌+◌, ◌-◌, ◌≤◌, min}
use mathlib.Core.Path.{◌≡◌, ap, sym, ◌∙◌}
use mathlib.Core.Bool.{◌&&◌}
use mathlib.Core.List.{List, ◌++◌}
use native.Mathlib.Omega.{arith}
use goext.Prelude.Tests.{leb, ltb, if◌then◌else◌}
use goext.Prelude.Lists.{
  length, get_or, take, drop, length-append, length-take, length-drop, get_or-append, get_or-take,
  get_or-drop, list_ext, take-all,
}
use goext.Prelude.Outcomes.{Outcome, ret, panic}

module _ {A : Type 0} where
  -- What `s[i:j]` holds, if the bounds are in range.
  abbrev pub cut : List A → ℕ → ℕ → List A
  cut s i j = take (j - i) (drop i s)

  -- `s` after `copy(s[i:], src)` with all of `src` in range.
  abbrev pub splice : List A → ℕ → List A → List A
  splice s i src = take i s ++ (src ++ drop (i + length src) s)

  -- `s[i:j]`
  abbrev pub slice : List A → ℕ → ℕ → Outcome (List A)
  slice s i j = if leb i j && leb j (length s) then ret (cut s i j) else panic

  -- `copy(s[i:j], src)`: the count of entries copied, and `s` afterwards.
  abbrev pub copy_into : List A → ℕ → ℕ → List A → Outcome (ℕ × List A)
  copy_into s i j src =
      if leb i j && leb j (length s)
      then ret (min (j - i) (length src), splice s i (take (min (j - i) (length src)) src))
      else panic

  pub length-cut : (s : List A) (i j : ℕ) → j ≤ length s → length (cut s i j) ≡ j - i
  length-cut s i j h = omega (arith, length-take (j - i) (drop i s), length-drop i s)

  pub length-splice :
      (s : List A) (i : ℕ) (src : List A)
      → i + length src ≤ length s
      → length (splice s i src) ≡ length s
  length-splice s i src h = omega (
    arith,
    length-append (take i s) (src ++ drop (i + length src) s),
    length-append src (drop (i + length src) s),
    length-take i s,
    length-drop (i + length src) s,
  )

  pub get_or-cut :
      (s : List A) (i j k : ℕ) (d : A)
      → get_or (cut s i j) k d ≡ (if ltb k (j - i) then get_or s (i + k) d else d)
  get_or-cut s i j k d = ground (arith, get_or-take (j - i) (drop i s) k d, get_or-drop i s k d)

  pub get_or-splice :
      (s : List A) (i : ℕ) (src : List A) (k : ℕ) (d : A)
      → i + length src ≤ length s
      → get_or (splice s i src) k d ≡ (
          if ltb k i
          then get_or s k d
          else if ltb k (i + length src)
          then get_or src (k - i) d
          else get_or s k d)
  get_or-splice s i src k d h =
      let len : length (take i s) ≡ i = omega (arith, length-take i s) in
      let back : i + length src ≤ k → i + length src + (k - i - length src) ≡ k = omega arith in
      ground (
        arith,
        len,
        get_or-append (take i s) (src ++ drop (i + length src) s) k d,
        get_or-append src (drop (i + length src) s) (k - i) d,
        get_or-take i s k d,
        get_or-drop (i + length src) s (k - i - length src) d,
        back,
      )

  pub slice-ret : (s : List A) (i j : ℕ) → i ≤ j → j ≤ length s → slice s i j ≡ ret (cut s i j)
  slice-ret s i j h h' = ground arith

  pub copy_into-ret :
      (s : List A) (i j : ℕ) (src : List A) (k : ℕ)
      → i ≤ j
      → j ≤ length s
      → k ≡ min (j - i) (length src)
      → copy_into s i j src ≡ ret (k, splice s i (take k src))
  copy_into-ret s i j src k h h' e = rw e (ground arith)

module _ {A : Type 0} (p src : List A) where
  -- `p` after `copy(p, src)`.
  abbrev pub overwritten : List A
  overwritten = take (min (length p) (length src)) src ++ drop (min (length p) (length src)) p

  pub splice-overwritten : splice p 0 (take (min (length p) (length src)) src) ≡ overwritten
  splice-overwritten =
      let k = min (length p) (length src) in
      ap (λ j. take k src ++ drop j p) (omega (arith, length-take k src))

  pub length-overwritten : length overwritten ≡ length p
  length-overwritten =
      let k = min (length p) (length src) in
      omega (arith, length-append (take k src) (drop k p), length-take k src, length-drop k p)

  pub get_or-overwritten :
      (i : ℕ) (d : A)
      → get_or overwritten i d
        ≡ (if ltb i (min (length p) (length src)) then get_or src i d else get_or p i d)
  get_or-overwritten i d =
      let k = min (length p) (length src) in
      let same : k ≤ i → k + (i - k) ≡ i = omega arith in
      ground (
        arith,
        get_or-append (take k src) (drop k p) i d,
        length-take k src,
        get_or-take k src i d,
        get_or-drop k p (i - k) d,
        same,
      )

  pub copy_into-overwritten :
      copy_into p 0 (length p) src ≡ ret (min (length p) (length src), overwritten)
  copy_into-overwritten =
      copy_into-ret p 0 (length p) src (min (length p) (length src)) (omega arith) (omega arith)
        (omega arith)
      ∙ ap (λ q. ret (min (length p) (length src), q)) splice-overwritten

-- Copying `back`, and then `front` behind it, copies both.
module _ (p back front : List ℕ) where
  pub overwritten_twice :
      let k = min (length p) (length back) in
      let j = min (length p - k) (length front) in
      (k + j ≡ min (length p) (length (back ++ front)))
      × (splice (overwritten p back) k (take j front) ≡ overwritten p (back ++ front))
  overwritten_twice =
      let k = min (length p) (length back) in
      let j = min (length p - k) (length front) in
      let q = overwritten p back in
      let size = length-append back front in
      let lq = length-overwritten p back in
      let lj = length-take j front in
      let fits : k + length (take j front) ≤ length q = omega arith in
      (
        omega arith,
        list_ext _ _ 0
            (omega
              (arith, length-splice q k (take j front) fits, length-overwritten p (back ++ front)))
            λ i h. ground (
              arith,
              get_or-splice q k (take j front) i 0 fits,
              get_or-overwritten p back i 0,
              get_or-overwritten p (back ++ front) i 0,
              get_or-take j front (i - k) 0,
              get_or-append back front i 0,
            ),
      )

  pub copy_into_twice :
      let k = min (length p) (length back) in
      copy_into (overwritten p back) k (length (overwritten p back)) front
      ≡ ret (
        min (length p - k) (length front),
        splice (overwritten p back) k (take (min (length p - k) (length front)) front),
      )
  copy_into_twice =
      let k = min (length p) (length back) in
      copy_into-ret (overwritten p back) k (length (overwritten p back)) front _
        (omega (arith, length-overwritten p back)) (omega arith)
        (omega (arith, length-overwritten p back))

  pub overwritten_full : length p ≤ length back → overwritten p back ≡ overwritten p (back ++ front)
  overwritten_full h =
      let size = length-append back front in
      list_ext _ _ 0
        (omega (arith, length-overwritten p back, length-overwritten p (back ++ front)))
        λ i lt. ground (
          arith,
          length-overwritten p back,
          get_or-overwritten p back i 0,
          get_or-overwritten p (back ++ front) i 0,
          get_or-append back front i 0,
        )

-- `copy(s[i:], src)` where all of `src` fits, and where only its first entries do.
module _ {A : Type 0} (s : List A) (i : ℕ) (src : List A) (h : i ≤ length s) where
  pub copy_into_all :
      length src ≤ length s - i → copy_into s i (length s) src ≡ ret (length src, splice s i src)
  copy_into_all fits =
      copy_into-ret s i (length s) src (length src) h (omega arith) (omega arith)
      ∙ ap (λ t. ret (length src, splice s i t)) (take-all (length src) src (omega arith))

  pub copy_into_some :
      length s - i ≤ length src
      → copy_into s i (length s) src ≡ ret (length s - i, splice s i (take (length s - i) src))
  copy_into_some more =
      copy_into-ret s i (length s) src (length s - i) h (omega arith) (omega arith)

-- `s[i:]`
pub slice_from :
    {A : Type 0} (s : List A) (i : ℕ) → i ≤ length s → slice s i (length s) ≡ ret (drop i s)
slice_from s i h =
    slice-ret s i (length s) h (omega arith)
    ∙ ap ret (take-all (length s - i) (drop i s) (omega (arith, length-drop i s)))

-- Copying `front` behind `back` is copying both.
pub splice_twice :
    (s back front : List ℕ)
    → length back + length front ≤ length s
    → splice (splice s 0 back) (length back) front ≡ splice s 0 (back ++ front)
splice_twice s back front h =
    let size = length-append back front in
    let once = splice s 0 back in
    let l1 = length-splice s 0 back (omega arith) in
    list_ext _ _ 0
      (length-splice once (length back) front (omega arith)
        ∙ l1
        ∙ sym (length-splice s 0 (back ++ front) (omega arith)))
      λ i p. ground (
        arith,
        get_or-splice once (length back) front i 0 (omega arith),
        get_or-splice s 0 back i 0 (omega arith),
        get_or-splice s 0 (back ++ front) i 0 (omega (arith, size)),
        get_or-append back front i 0,
        size,
      )
