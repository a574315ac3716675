-- ===== src/Bitmap/Tests.antt =====
-- A bitmap of 100 bits, which has 104.
use goext.Prelude.{ℕ, ◌<◌, ◌≤◌, ◌+◌, ◌≡◌, refl, arith, replicate, ret, panic, Returns}
use goext.Prelude.Int.{pos}
use goext.Bitmap.{Bitmap, new_bitmap, set_pos, clear_pos, get}
use goext.Bitmap.Access.{IsValid, IsWritten, set_pos_lem, new_bitmap_lem, edge_panics}

abbrev hundred : Bitmap
hundred = record { bytes = replicate 13 0; size = 104 }

set_pos_lem_example : Returns (IsWritten hundred 53 1) (set_pos hundred (pos 53))
set_pos_lem_example = set_pos_lem hundred 53 refl (omega arith)

new_bitmap_lem_example :
    Returns
      (λ b.
        IsValid b
        × (100 ≤ b.size)
        × (b.size < 100 + 8)
        × ((j : ℕ) → j < b.size → get b (pos j) ≡ ret 0))
      (new_bitmap (pos 100))
new_bitmap_lem_example = new_bitmap_lem 100 (omega arith)

edge_panics_example :
    (set_pos hundred (pos 104) ≡ panic)
    × (clear_pos hundred (pos 104) ≡ panic)
    × (get hundred (pos 104) ≡ panic)
edge_panics_example = edge_panics hundred refl
