-- ===== src/Selector.antt =====
-- sort/selector/smooth_weighted.go: SW, smooth weighted round robin.
-- A weight is an integer. The slice holds items, never nil
-- pointers, as Add is all that fills it; a pointer into it is the item's index. Each method takes
-- the lock, so a call is one step.
pub mod Scan
pub mod Balance
pub mod Fair
pub mod Rounds
pub mod Change
pub mod History
mod Tests
use goext.Prelude.{
  ℕ, zero, suc, ◌+◌, ◌-◌, ◌/◌, List, [], ◌∷◌, ◌++◌, Bool, true, false, leb, ltb, ◌==◌,
  if◌then◌else◌, Option, none, some, Outcome, ret, panic,
}
use goext.Prelude.Int.{ℤ, pos, negsuc, ltb_ℤ, ◌+ℤ◌, ◌-ℤ◌}

pub record WeightedItem (A : Type 0) : Type 0 where
  pub item : A
  pub index : ℕ
  pub weight : ℤ
  pub current_weight : ℤ
  pub effective_weight : ℤ
  pub failed_number : ℕ

pub record Sw (A : Type 0) : Type 0 where
  pub n : ℕ
  pub total_weight : ℤ
  pub max_fails : ℕ
  pub items : List (WeightedItem A)

abbrev pub default_max_fails : ℕ
default_max_fails = 10

-- Go's quotient, rounded towards 0.
unfoldable pub quotient : ℤ → ℕ → ℤ
quotient (pos n) k = pos (n / k)
quotient (negsuc n) k = pos 0 -ℤ pos (suc n / k)

module _ {A : Type 0} where
  unfoldable pub new_sw : ℤ → Sw A
  new_sw (negsuc k) = record {
    n = 0;
    total_weight = pos 0;
    max_fails = default_max_fails;
    items = [];
  }
  new_sw (pos k) = record {
    n = 0;
    total_weight = pos 0;
    max_fails = if ltb 0 k then k else default_max_fails;
    items = [];
  }

  unfoldable pub add : Sw A → A → ℤ → Sw A
  add w item weight = record w {
    items =
        w.items
        ++ (record {
          item = item;
          index = w.n;
          weight = weight;
          current_weight = pos 0;
          effective_weight = weight;
          failed_number = 0;
        }
            ∷ []);
    n = w.n + 1;
    total_weight = w.total_weight +ℤ weight;
  }

  -- The end of Release: an effective weight below 0 is set to 0.
  unfoldable pub not_negative : WeightedItem A → WeightedItem A
  not_negative it =
      if ltb_ℤ it.effective_weight (pos 0) then record it { effective_weight = pos 0 } else it

  -- The body of Release for the item.
  unfoldable pub release_item : ℕ → Bool → WeightedItem A → WeightedItem A
  release_item max_fails true it = not_negative (record it { failed_number = 0 })
  release_item max_fails false it =
      let failed = record it { failed_number = it.failed_number + 1 } in
      if ltb max_fails (it.failed_number + 1)
      then not_negative (record failed {
        effective_weight = it.effective_weight -ℤ (quotient it.weight max_fails +ℤ pos 1);
      })
      else not_negative failed

  -- A write to the item at an index of the slice.
  unfoldable pub update :
      (WeightedItem A → WeightedItem A) → List (WeightedItem A) → ℕ → List (WeightedItem A)
  update f [] i = []
  update f (x ∷ xs) zero = f x ∷ xs
  update f (x ∷ xs) (suc i) = x ∷ update f xs i

  unfoldable pub release : Sw A → ℤ → Bool → Sw A
  release w (negsuc k) success = w
  release w (pos index) success =
      if leb w.n index
      then w
      else record w { items = update (release_item w.max_fails success) w.items index }

  unfoldable pub remove_all : Sw A → Sw A
  remove_all w = record w { items = []; n = 0; total_weight = pos 0 }

  unfoldable pub reset_items : List (WeightedItem A) → List (WeightedItem A)
  reset_items [] = []
  reset_items (s ∷ r) =
      record s { effective_weight = s.weight; current_weight = pos 0 } ∷ reset_items r

  unfoldable pub reset : Sw A → Sw A
  reset w = record w { items = reset_items w.items }

  -- What a round of the loop of nextSmoothWeighted does to its item.
  unfoldable pub raise : WeightedItem A → WeightedItem A
  raise w = record w {
    current_weight = w.current_weight +ℤ w.effective_weight;
    effective_weight =
        if ltb_ℤ w.effective_weight w.weight
        then w.effective_weight +ℤ pos 1
        else w.effective_weight;
  }

  -- `best == nil || w.CurrentWeight > best.CurrentWeight`; `best` is an index and the current
  -- weight found there.
  unfoldable pub better : ℕ → WeightedItem A → Option (ℕ × ℤ) → Option (ℕ × ℤ)
  better i w none = some (i, w.current_weight)
  better i w (some (j, c)) =
      if ltb_ℤ c w.current_weight then some (i, w.current_weight) else some (j, c)

  -- The loop, from index `i` on.
  unfoldable pub scan :
      List (WeightedItem A) → ℕ → Option (ℕ × ℤ) → List (WeightedItem A) × Option (ℕ × ℤ)
  scan [] i best = ([], best)
  scan (w ∷ r) i best =
      let rest = scan r (i + 1) (better i (raise w) best) in (raise w ∷ rest.0, rest.1)

  unfoldable pub lower : ℤ → WeightedItem A → WeightedItem A
  lower total w = record w { current_weight = w.current_weight -ℤ total }

  -- The code after the loop.
  unfoldable pub settle :
      ℤ → List (WeightedItem A) × Option (ℕ × ℤ) → Option ℕ × List (WeightedItem A)
  settle total (items, none) = (none, items)
  settle total (items, some (j, c)) = (some j, update (lower total) items j)

  unfoldable pub next_smooth_weighted : List (WeightedItem A) → ℤ → Option ℕ × List (WeightedItem A)
  next_smooth_weighted items total = settle total (scan items 0 none)

  -- Next and nextWeighted: the index of the chosen item.
  unfoldable pub next : Sw A → Option ℕ × Sw A
  next w =
      let chosen = next_smooth_weighted w.items w.total_weight in
      if w.n == 0
      then (none, w)
      else if w.n == 1
      then (some 0, w)
      else (chosen.0, record w { items = chosen.1 })
