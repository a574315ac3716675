-- ===== src/Ring/Bounded/Tests.antt =====
-- Runs of the bounded Ring, and its theorems at a ring whose bytes wrap.
use goext.Prelude.{[], ◌∷◌, ◌≡◌, refl, arith, true, ret, Returns}
use goext.Ring.Bounded.{Ring, write, read, fetch, size}
use goext.Ring.Bounded.State.{IsValid, contents}
use goext.Ring.Bounded.Write.{WasWritten, write_all_or_nothing}
use goext.Ring.Bounded.Read.{WasRead, read_oldest}

-- 5 and 6, up to the end of a buffer of four bytes.
abbrev at_end : Ring
at_end = record { buffer = 0 ∷ 5 ∷ 6 ∷ 0 ∷ []; capacity = 4; begin = 1; end = 3 }

at_end-IsValid : IsValid at_end
at_end-IsValid = omega arith

contents-at_end : contents at_end ≡ 5 ∷ 6 ∷ []
contents-at_end = refl

write-at_end :
    write at_end (7 ∷ []) ≡ ret (true, record at_end { buffer = 0 ∷ 5 ∷ 6 ∷ 7 ∷ []; end = 0 })
unfolding write size
write-at_end = refl

read-at_end : read at_end (0 ∷ 0 ∷ 0 ∷ []) ≡ ret (2, 5 ∷ 6 ∷ 0 ∷ [], record at_end { begin = 3 })
unfolding read size fetch
read-at_end = refl

write_all_or_nothing_example : Returns (WasWritten at_end (7 ∷ [])) (write at_end (7 ∷ []))
write_all_or_nothing_example = write_all_or_nothing at_end-IsValid (7 ∷ [])

read_oldest_example : Returns (WasRead at_end (0 ∷ 0 ∷ [])) (read at_end (0 ∷ 0 ∷ []))
read_oldest_example = read_oldest at_end-IsValid (0 ∷ 0 ∷ [])
