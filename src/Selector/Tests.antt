-- ===== src/Selector/Tests.antt =====
-- The selector on the weights 5, 1, 1 of the source's comment.
use goext.Prelude.{ℕ, List, [], ◌∷◌, ◌≡◌, refl, arith, true, false, some}
use goext.Prelude.Int.{pos, negsuc, ◌+ℤ◌, ◌-ℤ◌}
use goext.Selector.{
  Sw, new_sw, add, update, raise, better, scan, lower, settle, next, next_smooth_weighted, reset,
}
use goext.Selector.Balance.{weights, sum}
use goext.Selector.Fair.{counts, AtRest}
use goext.Selector.Rounds.{IsFresh, calls, IsShared, next_proportional, next_shares}
use goext.Selector.Change.{IsValid}
use goext.Selector.History.{Call, add_item, release_index, next_item, history, history-IsValid}

abbrev three : Sw ℕ
three = add (add (add (new_sw (pos 0)) 100 (pos 5)) 101 (pos 1)) 102 (pos 1)

three-IsFresh : IsFresh three
unfolding add new_sw ◌+ℤ◌
three-IsFresh = record {
  counted = refl;
  whole = refl;
  natural = refl;
  weights_natural = (refl, (refl, (refl, tt)));
  at_rest = (refl, refl, (refl, refl, (refl, refl, tt)));
}

-- The choices (a, a, b, a, c, a, a) of the source's comment, the last one first.
three_run : (w : Sw ℕ) × (calls 7 [] three ≡ some (0 ∷ 0 ∷ 2 ∷ 0 ∷ 1 ∷ 0 ∷ 0 ∷ [], w))
unfolding add new_sw next next_smooth_weighted settle scan raise better lower update ◌+ℤ◌ ◌-ℤ◌
three_run = (_, refl)

-- 7 is the total weight.
next_proportional_example :
    (picks : List ℕ) × (w : Sw ℕ) × (calls 7 [] three ≡ some (picks, w))
    × (counts 0 three.n picks ≡ weights three.items)
    × (weights w.items ≡ weights three.items)
    × IsFresh w
unfolding add new_sw ◌+ℤ◌
next_proportional_example = next_proportional three three-IsFresh (omega arith)

next_shares_example :
    (picks : List ℕ) × (w : Sw ℕ) × (calls 4 [] three ≡ some (picks, w))
    × IsShared 4 7 picks 0 w.items
    × (weights w.items ≡ weights three.items)
    × (sum (counts 0 three.n picks) ≡ 4)
unfolding add new_sw ◌+ℤ◌
next_shares_example = next_shares three 4 three-IsFresh (omega arith) (omega arith)

abbrev some_calls : List (Call ℕ)
some_calls =
    add_item 100 (pos 5)
    ∷ add_item 101 (negsuc 4)
    ∷ next_item
    ∷ release_index (pos 0) false
    ∷ release_index (negsuc 0) true
    ∷ next_item
    ∷ []

history-IsValid_example :
    IsValid (history (new_sw (pos 2)) some_calls)
    × AtRest (reset (history (new_sw (pos 2)) some_calls)).items
history-IsValid_example = history-IsValid (pos 2) some_calls
