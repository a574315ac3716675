-- ===== src/Deque/Refine.antt =====
-- A Deque behaves as a list with an optional limit.
use goext.Prelude.{
  ℕ, ◌-◌, List, [], ◌∷◌, ◌++◌, ◌≡◌, sym, ap, ap₂, ◌∙◌, arith, ◌&&◌, length, take, drop, Returns,
  Returns-bind, Bool-cases, inl, inr,
}
use goext.Prelude.Int.{ℤ, pos, ltb_ℤ}
use goext.Deque.{Deque, is_over, push_back, push_front}
use goext.Deque.Items
use goext.Deque.State.{IsValid, contents, length-contents}
use goext.Deque.Back.{PoppedBack, pop_back_lem}
use goext.Deque.Front.{PoppedFront, pop_front_lem}
use goext.Deque.AppendBack
use goext.Deque.AppendBack.{append_back_lem}
use goext.Deque.AppendFront
use goext.Deque.AppendFront.{append_front_lem}

-- A call returns a valid deque that holds the list `xs`, with the same limit.
abbrev pub Holds : {A : Type 0} → Deque A → List A → Deque A → Type 0
Holds d xs d' = IsValid d' × (contents d' ≡ xs) × (d'.max_len ≡ d.max_len)

-- The code's test of the limit is the test on the list.
over_lem :
    {A : Type 0} {d : Deque A} (v : IsValid d) (limit : ℤ) (xs : List A)
    → contents d ≡ xs
    → d.max_len ≡ limit
    → is_over d ≡ Items.over limit xs
over_lem {d = d} v limit xs e m =
    ap₂ (λ (l : ℤ) (k : ℕ). ltb_ℤ (pos 0) l && ltb_ℤ l (pos k)) m
      (sym (length-contents v) ∙ ap length e)

module _ {A : Type 0} (nil : A) {d : Deque A} (v : IsValid d) (item : A) where
  abbrev pushed_back : List A
  pushed_back = Items.push_back d.max_len (contents d) item

  abbrev pushed_front : List A
  pushed_front = Items.push_front d.max_len (contents d) item

  -- PushBack returns a valid deque with the item at the back; past a positive limit the first item
  -- is dropped. The limit stays. It does not panic.
  pub push_back_lem : Returns (Holds d pushed_back) (push_back nil d item)
  unfolding push_back
  push_back_lem =
      Returns-bind (AppendBack.Longer nil v item) (Holds d pushed_back) _ _
        (append_back_lem nil v item)
        λ d' t.
          let grown = contents d ++ (item ∷ []) in
          let test = over_lem t.0 d.max_len grown t.1 t.3 in
          elim (Bool-cases (Items.over d.max_len grown)) [
            | inl over ↦
                rw (test ∙ over, over)
                  (Returns-bind (PoppedFront nil t.0) (Holds d (drop 1 grown)) _ _
                    (pop_front_lem nil t.0)
                    λ r w. (w.valid, w.rest ∙ ap (drop 1) t.1, w.limit ∙ t.3))
            | inr fits ↦ rw (test ∙ fits, fits) (t.0, t.1, t.3)
          ]

  -- PushFront returns a valid deque with the item at the front; past a positive limit the last item
  -- is dropped. The limit stays. It does not panic.
  pub push_front_lem : Returns (Holds d pushed_front) (push_front nil d item)
  unfolding push_front
  push_front_lem =
      Returns-bind (AppendFront.Longer nil v item) (Holds d pushed_front) _ _
        (append_front_lem nil v item)
        λ d' t.
          let grown = item ∷ contents d in
          let test = over_lem t.0 d.max_len grown t.1 t.3 in
          elim (Bool-cases (Items.over d.max_len grown)) [
            | inl over ↦
                rw (test ∙ over, over)
                  (Returns-bind (PoppedBack nil t.0) (Holds d (take (length (contents d)) grown)) _
                    _ (pop_back_lem nil t.0)
                    λ r w.
                      let k : d'.len - 1 ≡ length (contents d) =
                        omega (arith, t.2, length-contents v) in
                      (w.valid, w.rest ∙ ap₂ take k t.1, w.limit ∙ t.3))
            | inr fits ↦ rw (test ∙ fits, fits) (t.0, t.1, t.3)
          ]
