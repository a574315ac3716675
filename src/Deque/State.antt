-- ===== src/Deque/State.antt =====
-- The invariant of Deque, and the list that it holds.
use goext.Prelude.{
  ℕ, ◌+◌, ◌-◌, ◌*◌, ◌≤◌, ◌<◌, List, [], ◌≡◌, refl, sym, ◌∙◌, arith, length, get_or, cut, length-cut,
  get_or-cut, list_ext,
}
use goext.Prelude.Int.{ℤ}
use goext.Deque.{Deque, block_len, new_block, new_with_max_len}
use goext.Deque.Blocks.{cells, Full, length-cells}

module _ {A : Type 0} where
  pub record IsValid (d : Deque A) : Type 0 where
    pub full : Full d.blocks
    pub nonempty : 0 < length d.blocks
    pub front : d.front_idx < block_len
    pub back : d.back_idx < block_len
    pub span : block_len * (length d.blocks - 1) + d.back_idx + 1 ≡ d.front_idx + d.len

  -- The items, front first.
  abbrev pub contents : Deque A → List A
  contents d = cut (cells d.blocks) d.front_idx (d.front_idx + d.len)

  pub reach : {d : Deque A} → IsValid d → d.front_idx + d.len ≤ length (cells d.blocks)
  reach {d} v = omega (arith, length-cells d.blocks v.full, v.nonempty, v.back, v.span)

  pub length-contents : {d : Deque A} → IsValid d → length (contents d) ≡ d.len
  length-contents {d} v =
      length-cut (cells d.blocks) d.front_idx (d.front_idx + d.len) (reach v) ∙ omega arith

  pub get_or-contents :
      (d : Deque A) (i : ℕ) (e : A)
      → i < d.len
      → get_or (contents d) i e ≡ get_or (cells d.blocks) (d.front_idx + i) e
  get_or-contents d i e h =
      ground (arith, get_or-cut (cells d.blocks) d.front_idx (d.front_idx + d.len) i e)

  pub contents_ext :
      {d : Deque A} (v : IsValid d) (e : A) (ys : List A)
      → length ys ≡ d.len
      → ((i : ℕ) → i < d.len → get_or ys i e ≡ get_or (cells d.blocks) (d.front_idx + i) e)
      → ys ≡ contents d
  contents_ext {d} v e ys l h =
      list_ext ys (contents d) e (l ∙ sym (length-contents v))
        λ i p. let q : i < d.len = omega (arith, l) in h i q ∙ sym (get_or-contents d i e q)

-- A new deque is valid and empty.
pub new_with_max_len_lem :
    {A : Type 0} (nil : A) (max_len : ℤ)
    → IsValid (new_with_max_len nil max_len) × (contents (new_with_max_len nil max_len) ≡ [])
unfolding new_with_max_len new_block
new_with_max_len_lem nil max_len = (
  record {
    full = (refl, tt);
    nonempty = omega arith;
    front = omega arith;
    back = omega arith;
    span = omega arith;
  },
  refl,
)
