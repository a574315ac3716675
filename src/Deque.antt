-- ===== src/Deque.antt =====
-- container/deque/deque.go: a double-ended queue of blocks of 64 cells.
-- A cell is any value of `A`, and `nil` is the interface value nil. A method that changes the deque
-- returns the new deque beside its results; the list of blocks is container/list, in order.
pub mod Blocks
pub mod State
pub mod Back
pub mod AppendBack
pub mod Front
pub mod AppendFront
pub mod Items
pub mod Refine
mod Tests
use goext.Prelude.{
  ℕ, ◌+◌, ◌-◌, List, [], ◌∷◌, ◌++◌, Bool, true, false, ◌&&◌, ltb, ◌==◌, if◌then◌else◌, set,
  replicate, nth, Outcome, ret, panic, ◌>>=◌,
}
use goext.Prelude.Int.{ℤ, pos, ltb_ℤ}

abbrev pub block_len : ℕ
block_len = 64

abbrev pub block_center : ℕ
block_center = 31

pub record Deque (A : Type 0) : Type 0 where
  pub max_len : ℤ
  pub blocks : List (List A)
  pub front_idx : ℕ
  pub back_idx : ℕ
  pub len : ℕ

module _ {A : Type 0} where
  -- d.blocks.Back().Value: a nil element panics.
  unfoldable pub back_block : List (List A) → Outcome (List A)
  back_block [] = panic
  back_block (x ∷ []) = ret x
  back_block (x ∷ y ∷ r) = back_block (y ∷ r)

  -- The blocks after a write to a cell of the last one, and without the last one.
  unfoldable pub store_back : List (List A) → ℕ → A → List (List A)
  store_back [] i v = []
  store_back (x ∷ []) i v = set x i v ∷ []
  store_back (x ∷ y ∷ r) i v = x ∷ store_back (y ∷ r) i v

  unfoldable pub remove_back : List (List A) → List (List A)
  remove_back [] = []
  remove_back (x ∷ []) = []
  remove_back (x ∷ y ∷ r) = x ∷ remove_back (y ∷ r)

  -- d.blocks.Front().Value, and the same writes at the front.
  unfoldable pub front_block : List (List A) → Outcome (List A)
  front_block [] = panic
  front_block (x ∷ r) = ret x

  unfoldable pub store_front : List (List A) → ℕ → A → List (List A)
  store_front [] i v = []
  store_front (x ∷ r) i v = set x i v ∷ r

  unfoldable pub remove_front : List (List A) → List (List A)
  remove_front [] = []
  remove_front (x ∷ r) = r

  abbrev pub recenter : Deque A → Deque A
  recenter d = record d { front_idx = block_center + 1; back_idx = block_center }

  -- `d.maxLen > 0 && d.len > d.maxLen`
  abbrev pub is_over : Deque A → Bool
  is_over d = ltb_ℤ (pos 0) d.max_len && ltb_ℤ d.max_len (pos d.len)

module _ {A : Type 0} (nil : A) where
  unfoldable pub new_block : List A
  new_block = replicate block_len nil

  unfoldable pub new_with_max_len : ℤ → Deque A
  new_with_max_len max_len =
      recenter (record {
        max_len = max_len;
        blocks = new_block ∷ [];
        front_idx = 0;
        back_idx = 0;
        len = 0;
      })

  unfoldable pub new : Deque A
  new = new_with_max_len (pos 0)

  -- The code lets `backIdx` fall to -1 before it tests for that; here the test is of the old value.
  unfoldable pub pop_back : Deque A → Outcome (A × Bool × Deque A)
  pop_back d =
      let popped : Outcome (A × Bool × Deque A) = do
        block ← back_block d.blocks
        item ← nth block d.back_idx
        let cleared = record d { blocks = store_back d.blocks d.back_idx nil; len = d.len - 1 }
        ret (
          item,
          true,
          if d.back_idx == 0
              then (if cleared.len == 0 then recenter cleared else record cleared {
                blocks = remove_back cleared.blocks;
                back_idx = block_len - 1;
              })
              else record cleared { back_idx = d.back_idx - 1 },
        )
      in if ltb d.len 1 then ret (nil, false, d) else popped

  unfoldable pub pop_front : Deque A → Outcome (A × Bool × Deque A)
  pop_front d =
      let popped : Outcome (A × Bool × Deque A) = do
        block ← front_block d.blocks
        item ← nth block d.front_idx
        let cleared = record d {
          blocks = store_front d.blocks d.front_idx nil;
          front_idx = d.front_idx + 1;
          len = d.len - 1;
        }
        ret (
          item,
          true,
          if cleared.front_idx == block_len
              then (if cleared.len == 0
                  then recenter cleared
                  else record cleared { blocks = remove_front cleared.blocks; front_idx = 0 })
              else cleared,
        )
      in if ltb d.len 1 then ret (nil, false, d) else popped

  -- The part of PushBack before the limit is tested. A write past the block would panic.
  unfoldable pub append_back : Deque A → A → Outcome (Deque A)
  append_back d item =
      if d.back_idx == block_len - 1
      then ret (record d {
        blocks = store_back (d.blocks ++ (new_block ∷ [])) 0 item;
        back_idx = 0;
        len = d.len + 1;
      })
      else (do
        block ← back_block d.blocks
        old ← nth block (d.back_idx + 1)
        ret (record d {
          blocks = store_back d.blocks (d.back_idx + 1) item;
          back_idx = d.back_idx + 1;
          len = d.len + 1;
        }))

  unfoldable pub push_back : Deque A → A → Outcome (Deque A)
  push_back d item = do
    d' ← append_back d item
    if is_over d' then (pop_front d' >>= λ r. ret r.2) else ret d'

  unfoldable pub append_front : Deque A → A → Outcome (Deque A)
  append_front d item =
      if d.front_idx == 0
      then ret (record d {
        blocks = store_front (new_block ∷ d.blocks) (block_len - 1) item;
        front_idx = block_len - 1;
        len = d.len + 1;
      })
      else (do
        block ← front_block d.blocks
        old ← nth block (d.front_idx - 1)
        ret (record d {
          blocks = store_front d.blocks (d.front_idx - 1) item;
          front_idx = d.front_idx - 1;
          len = d.len + 1;
        }))

  unfoldable pub push_front : Deque A → A → Outcome (Deque A)
  push_front d item = do
    d' ← append_front d item
    if is_over d' then (pop_back d' >>= λ r. ret r.2) else ret d'

  unfoldable pub peek_back : Deque A → Outcome (A × Bool)
  peek_back d =
      let found : Outcome (A × Bool) = do
        block ← back_block d.blocks
        item ← nth block d.back_idx
        ret (item, true)
      in if ltb d.len 1 then ret (nil, false) else found

  unfoldable pub peek_front : Deque A → Outcome (A × Bool)
  peek_front d =
      let found : Outcome (A × Bool) = do
        block ← front_block d.blocks
        item ← nth block d.front_idx
        ret (item, true)
      in if ltb d.len 1 then ret (nil, false) else found
