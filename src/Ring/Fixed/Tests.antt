-- ===== src/Ring/Fixed/Tests.antt =====
-- Runs of FixedSizeRingBuf, and its theorems at a ring whose bytes wrap.
use goext.Prelude.{ℕ, [], ◌∷◌, ◌≡◌, refl, arith, none, some, true, get_or, ret, Returns}
use goext.Prelude.Int.{pos}
use goext.Ring.Fixed.{
  FixedSizeRingBuf, err_short_write, buf_at, store, int_min, write_loop, copy_contiguous,
  copy_wrapped, advance, read, read_and_maybe_advance, write, write_and_maybe_overwrite_oldest_data,
}
use goext.Ring.Fixed.State.{IsValid, active, contents}
use goext.Ring.Fixed.Read.{WasRead, read_and_maybe_advance_lem}
use goext.Ring.Fixed.Write.{HasWritten, write_lem}
use goext.Ring.Fixed.Overwrite.{MostRecent, overwrite_lem}
use goext.Ring.Fixed.Position.{kth, nextpos, last, legal_pos, kth_lem}

-- 5, 6 and 7, round the end of a buffer of four bytes.
abbrev wrapped : FixedSizeRingBuf
wrapped = record {
  a0 = 7 ∷ 0 ∷ 5 ∷ 6 ∷ [];
  a1 = 0 ∷ 0 ∷ 0 ∷ 0 ∷ [];
  in_use = 0;
  n = 4;
  beg = 2;
  readable = 3;
}

wrapped-IsValid : IsValid wrapped
wrapped-IsValid = omega arith

contents-wrapped : contents wrapped ≡ 5 ∷ 6 ∷ 7 ∷ []
contents-wrapped = refl

write-wrapped :
    write wrapped (8 ∷ 9 ∷ [])
    ≡ ret (1, some err_short_write, record wrapped { a0 = 7 ∷ 8 ∷ 5 ∷ 6 ∷ []; readable = 4 })
unfolding write write_loop buf_at store int_min
write-wrapped = refl

read-wrapped :
    read wrapped (0 ∷ 0 ∷ []) ≡ ret (2, none, 5 ∷ 6 ∷ [], record wrapped { beg = 0; readable = 1 })
unfolding read read_and_maybe_advance copy_wrapped copy_contiguous buf_at advance
read-wrapped = refl

nextpos-wrapped : nextpos wrapped (pos 3) ≡ ret (pos 0)
unfolding nextpos last legal_pos
nextpos-wrapped = refl

read_and_maybe_advance_lem_example :
    Returns (WasRead wrapped (0 ∷ 0 ∷ []) true) (read_and_maybe_advance wrapped (0 ∷ 0 ∷ []) true)
read_and_maybe_advance_lem_example = read_and_maybe_advance_lem wrapped-IsValid (0 ∷ 0 ∷ []) true

write_lem_example : Returns (HasWritten wrapped (8 ∷ 9 ∷ []) 0 none) (write wrapped (8 ∷ 9 ∷ []))
write_lem_example = write_lem wrapped-IsValid (8 ∷ 9 ∷ [])

overwrite_lem_example :
    Returns
      (MostRecent wrapped-IsValid (8 ∷ 9 ∷ []))
      (write_and_maybe_overwrite_oldest_data wrapped (8 ∷ 9 ∷ []))
overwrite_lem_example = overwrite_lem wrapped-IsValid (8 ∷ 9 ∷ [])

kth_lem_example :
    (i : ℕ) × (kth wrapped (pos 2) ≡ ret (pos i))
    × (get_or (active wrapped) i 0 ≡ get_or (contents wrapped) 2 0)
kth_lem_example = kth_lem wrapped-IsValid 2 (omega arith)
