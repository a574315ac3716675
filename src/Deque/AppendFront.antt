-- ===== src/Deque/AppendFront.antt =====
-- The part of PushFront before the limit is tested.
use goext.Prelude.{
  ℕ, zero, suc, ◌+◌, ◌-◌, ◌<◌, ◌∷◌, ◌≡◌, refl, sym, ap, ◌∙◌, arith, length, get_or, ◌==◌,
  get_or-set, get_or-append, nth-ret, Returns, Bool-cases, inl, inr, length-replicate,
}
use goext.Deque.{Deque, block_len, store_front, append_front, new_block}
use goext.Deque.Blocks.{cells, Full, length-cells, front_block-cells, store_front-cells}
use goext.Deque.State.{IsValid, contents, reach, length-contents, get_or-contents, contents_ext}

length-new_block : {A : Type 0} (nil : A) → length (new_block nil) ≡ 64
unfolding new_block
length-new_block nil = length-replicate 64 nil

module _ {A : Type 0} (nil : A) {d : Deque A} (v : IsValid d) (item : A) where
  -- The deque with one more item at the front.
  abbrev pub Longer : Deque A → Type 0
  Longer d' =
      IsValid d'
      × (contents d' ≡ item ∷ contents d)
      × (d'.len ≡ d.len + 1)
      × (d'.max_len ≡ d.max_len)

  longer :
      (d' : Deque A)
      → IsValid d'
      → d'.len ≡ d.len + 1
      → get_or (cells d'.blocks) (d'.front_idx + 0) nil ≡ item
      → ((i : ℕ)
          → i < d.len
          → get_or (cells d'.blocks) (d'.front_idx + suc i) nil
            ≡ get_or (cells d.blocks) (d.front_idx + i) nil)
      → contents d' ≡ item ∷ contents d
  longer d' v' e first others =
      sym (contents_ext v' nil (item ∷ contents d) (omega (arith, length-contents v)) entry)
    where
      entry :
          (i : ℕ)
          → i < d'.len
          → get_or (item ∷ contents d) i nil ≡ get_or (cells d'.blocks) (d'.front_idx + i) nil
      entry zero p = sym first
      entry (suc i) p = get_or-contents d i nil (omega arith) ∙ sym (others i (omega arith))

  Longer-in_block :
      0 < d.front_idx
      → Longer (record d {
        blocks = store_front d.blocks (d.front_idx - 1) item;
        front_idx = d.front_idx - 1;
        len = d.len + 1;
      })
  Longer-in_block p =
      let k = d.front_idx - 1 in
      let (f, n, c, m) = store_front-cells d.blocks k item v.full (omega (arith, v.front)) in
      let d' = record d { blocks = store_front d.blocks k item; front_idx = k; len = d.len + 1 } in
      let v' : IsValid d' = record {
        full = f;
        nonempty = omega (arith, n, v.nonempty);
        front = omega (arith, v.front);
        back = v.back;
        span = omega (arith, v.span, n);
      } in
      let w = reach v in
      let lc = length-cells d.blocks v.full in
      let inside : k < length (cells d.blocks) = omega (arith, v.nonempty, v.front) in
      (
        v',
        longer d' v' refl
            (ground (
              arith,
              ap (λ t. get_or t (k + 0) nil) c,
              get_or-set (cells d.blocks) k (k + 0) item nil inside,
            ))
            (λ i q.
              let at : k + suc i ≡ d.front_idx + i = omega arith in
              ground (
                arith,
                at,
                ap (λ t. get_or t (d.front_idx + i) nil) c,
                get_or-set (cells d.blocks) k (d.front_idx + i) item nil inside,
              )),
        refl,
        refl,
      )

  Longer-by_block :
      d.front_idx ≡ 0
      → Longer (record d {
        blocks = store_front (new_block nil ∷ d.blocks) (block_len - 1) item;
        front_idx = block_len - 1;
        len = d.len + 1;
      })
  Longer-by_block p =
      let grown = new_block nil ∷ d.blocks in
      let lb = length-new_block nil in
      let full' : Full grown = (lb, v.full) in
      let (f, n, c, m) = store_front-cells grown 63 item full' (omega arith) in
      let d' = record d { blocks = store_front grown 63 item; front_idx = 63; len = d.len + 1 } in
      let v' : IsValid d' = record {
        full = f;
        nonempty = omega (arith, n);
        front = omega arith;
        back = v.back;
        span = omega (arith, v.span, v.nonempty, n);
      } in
      let lg = length-cells grown full' in
      (
        v',
        longer d' v' refl
            (ground (
              arith,
              ap (λ t. get_or t (63 + 0) nil) c,
              get_or-set (cells grown) 63 (63 + 0) item nil (omega arith),
            ))
            (λ i q.
              let at : 63 + suc i - length (new_block nil) ≡ d.front_idx + i = omega (arith, lb) in
              ground (
                arith,
                at,
                lb,
                ap (λ t. get_or t (63 + suc i) nil) c,
                get_or-set (cells grown) 63 (63 + suc i) item nil (omega arith),
                get_or-append (new_block nil) (cells d.blocks) (63 + suc i) nil,
              )),
        refl,
        refl,
      )

  pub append_front_lem : Returns Longer (append_front nil d item)
  unfolding append_front
  append_front_lem = elim (Bool-cases (d.front_idx == 0)) [
    | inl at_end ↦ rw at_end (Longer-by_block (ground arith))
    | inr inside ↦
        let (x, e, l, c, n, f) = front_block-cells d.blocks v.full v.nonempty in
        rw (inside, e, nth-ret x (d.front_idx - 1) nil (omega (arith, l, v.front)))
          (Longer-in_block (ground arith))
  ]
