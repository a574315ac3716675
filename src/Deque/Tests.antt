-- ===== src/Deque/Tests.antt =====
-- Runs of Deque, and its theorems at a deque of two blocks with a limit.
use goext.Prelude.{ℕ, [], ◌∷◌, ◌++◌, ◌≡◌, refl, arith, true, replicate, ret, Returns}
use goext.Prelude.Int.{pos}
use goext.Deque.{
  Deque, front_block, store_front, remove_front, pop_back, pop_front, push_back, push_front,
}
use goext.Deque.Items
use goext.Deque.State.{IsValid, contents}
use goext.Deque.Back.{PoppedBack, pop_back_lem}
use goext.Deque.Refine.{Holds, push_back_lem, push_front_lem}

-- 1 at the end of the first block, 2 and 3 at the start of the second; at most three items.
abbrev two_blocks : Deque ℕ
two_blocks = record {
  max_len = pos 3;
  blocks = (replicate 63 0 ++ (1 ∷ [])) ∷ (2 ∷ 3 ∷ replicate 62 0) ∷ [];
  front_idx = 63;
  back_idx = 1;
  len = 3;
}

two_blocks-IsValid : IsValid two_blocks
two_blocks-IsValid = record {
  full = (refl, (refl, tt));
  nonempty = omega arith;
  front = omega arith;
  back = omega arith;
  span = refl;
}

contents-two_blocks : contents two_blocks ≡ 1 ∷ 2 ∷ 3 ∷ []
contents-two_blocks = refl

pop_front-two_blocks :
    pop_front 0 two_blocks
    ≡ ret (
      1,
      true,
      record two_blocks { blocks = (2 ∷ 3 ∷ replicate 62 0) ∷ []; front_idx = 0; len = 2 },
    )
unfolding pop_front front_block store_front remove_front
pop_front-two_blocks = refl

pop_back_lem_example : Returns (PoppedBack 0 two_blocks-IsValid) (pop_back 0 two_blocks)
pop_back_lem_example = pop_back_lem 0 two_blocks-IsValid

push_back_lem_example :
    Returns
      (Holds two_blocks (Items.push_back (pos 3) (contents two_blocks) 4))
      (push_back 0 two_blocks 4)
push_back_lem_example = push_back_lem 0 two_blocks-IsValid 4

push_front_lem_example :
    Returns
      (Holds two_blocks (Items.push_front (pos 3) (contents two_blocks) 4))
      (push_front 0 two_blocks 4)
push_front_lem_example = push_front_lem 0 two_blocks-IsValid 4
