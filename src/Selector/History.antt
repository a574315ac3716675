-- ===== src/Selector/History.antt =====
-- Sequences of calls of the methods of Sw.
use goext.Prelude.{List, [], ◌∷◌, Bool}
use goext.Prelude.Int.{ℤ}
use goext.Selector.{Sw, new_sw, add, release, remove_all, reset, next}
use goext.Selector.Fair.{AtRest}
use goext.Selector.Change.{
  IsValid, new_sw-IsValid, add-IsValid, release-IsValid, remove_all-IsValid, reset-IsValid,
  reset-AtRest, next-IsValid,
}

-- A call of a method that changes the Sw.
pub data Call (A : Type 0) : Type 0 where
  add_item : A → ℤ → Call A
  release_index : ℤ → Bool → Call A
  remove_items : Call A
  reset_weights : Call A
  next_item : Call A

module _ {A : Type 0} where
  abbrev pub perform : Sw A → Call A → Sw A
  perform w (add_item x weight) = add w x weight
  perform w (release_index i success) = release w i success
  perform w remove_items = remove_all w
  perform w reset_weights = reset w
  perform w next_item = (next w).1

  abbrev pub history : Sw A → List (Call A) → Sw A
  history w [] = w
  history w (c ∷ cs) = history (perform w c) cs

  perform-IsValid : (w : Sw A) (c : Call A) → IsValid w → IsValid (perform w c)
  perform-IsValid w (add_item x weight) v = add-IsValid w x weight v
  perform-IsValid w (release_index i success) v = release-IsValid w i success v
  perform-IsValid w remove_items v = remove_all-IsValid w v
  perform-IsValid w reset_weights v = reset-IsValid w v
  perform-IsValid w next_item v = next-IsValid w v

  history_lem : (w : Sw A) (cs : List (Call A)) → IsValid w → IsValid (history w cs)
  history_lem w [] v = v
  history_lem w (c ∷ cs) v = history_lem (perform w c) cs (perform-IsValid w c v)

  -- After any calls on a new Sw, of any limit of failures and with any weights, its count and its
  -- total weight are those of its items, the effective weight of an item whose weight is not negative
  -- is from 0 to the weight, and the limit is not 0; and Reset puts its items at rest.
  pub history-IsValid :
      (max_fails : ℤ) (cs : List (Call A))
      → IsValid (history (new_sw max_fails) cs)
        × AtRest (reset (history (new_sw max_fails) cs)).items
  history-IsValid max_fails cs =
      let v = history_lem (new_sw max_fails) cs (new_sw-IsValid max_fails) in
      (v, reset-AtRest (history (new_sw max_fails) cs))
