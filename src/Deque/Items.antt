-- ===== src/Deque/Items.antt =====
-- The abstract deque: a list, front first. Past the limit an item is dropped at the other end.
use goext.Prelude.{List, [], ◌∷◌, ◌++◌, Bool, ◌&&◌, length, take, drop, if◌then◌else◌}
use goext.Prelude.Int.{ℤ, pos, ltb_ℤ}

module _ {A : Type 0} where
  abbrev pub over : ℤ → List A → Bool
  over limit xs = ltb_ℤ (pos 0) limit && ltb_ℤ limit (pos (length xs))

  abbrev pub push_back : ℤ → List A → A → List A
  push_back limit xs x =
      if over limit (xs ++ (x ∷ [])) then drop 1 (xs ++ (x ∷ [])) else xs ++ (x ∷ [])

  abbrev pub push_front : ℤ → List A → A → List A
  push_front limit xs x = if over limit (x ∷ xs) then take (length xs) (x ∷ xs) else x ∷ xs
