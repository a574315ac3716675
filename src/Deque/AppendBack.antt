-- ===== src/Deque/AppendBack.antt =====
-- The part of PushBack before the limit is tested.
use goext.Prelude.{
  ℕ, ◌+◌, ◌-◌, ◌*◌, ◌<◌, [], ◌∷◌, ◌++◌, ◌≡◌, refl, sym, ap, arith, length, get_or, ◌==◌,
  if◌then◌else◌, get_or-set, get_or-append, length-append, nth-ret, Returns, Bool-cases, inl, inr,
  length-replicate,
}
use goext.Deque.{Deque, block_len, store_back, append_back, new_block}
use goext.Deque.Blocks.{
  cells, length-cells, back_block-cells, store_back-cells, cells-append, Full-append,
}
use goext.Deque.State.{IsValid, contents, length-contents, get_or-contents, contents_ext}

module _ {A : Type 0} (nil : A) {d : Deque A} (v : IsValid d) (item : A) where
  -- The deque with one more item at the back.
  abbrev pub Longer : Deque A → Type 0
  Longer d' =
      IsValid d'
      × (contents d' ≡ contents d ++ (item ∷ []))
      × (d'.len ≡ d.len + 1)
      × (d'.max_len ≡ d.max_len)

  longer :
      (d' : Deque A)
      → IsValid d'
      → d'.len ≡ d.len + 1
      → ((i : ℕ)
          → i < d.len + 1
          → get_or (cells d'.blocks) (d'.front_idx + i) nil
            ≡ (if i == d.len then item else get_or (cells d.blocks) (d.front_idx + i) nil))
      → contents d' ≡ contents d ++ (item ∷ [])
  longer d' v' e h =
      let l = length-contents v in
      sym (
        contents_ext v' nil (contents d ++ (item ∷ []))
          (omega (arith, length-append (contents d) (item ∷ []), l))
          λ i p.
            ground (
              arith,
              get_or-append (contents d) (item ∷ []) i nil,
              l,
              get_or-contents d i nil,
              h i,
            ))

  Longer-in_block :
      d.back_idx + 1 < block_len
      → Longer (record d {
        blocks = store_back d.blocks (d.back_idx + 1) item;
        back_idx = d.back_idx + 1;
        len = d.len + 1;
      })
  Longer-in_block p =
      let (f, n, c, m) = store_back-cells d.blocks (d.back_idx + 1) item v.full v.nonempty p in
      let d' = record d {
        blocks = store_back d.blocks (d.back_idx + 1) item;
        back_idx = d.back_idx + 1;
        len = d.len + 1;
      } in
      let v' : IsValid d' = record {
        full = f;
        nonempty = omega (arith, n, v.nonempty);
        front = v.front;
        back = p;
        span = omega (arith, v.span, n);
      } in
      let lc = length-cells d.blocks v.full in
      let sp = v.span in
      let ne = v.nonempty in
      (
        v',
        longer d' v' refl (λ i q. ground (
          arith,
          ap (λ t. get_or t (d.front_idx + i) nil) c,
          get_or-set (cells d.blocks) (64 * (length d.blocks - 1) + (d.back_idx + 1))
              (d.front_idx + i) item nil (omega arith),
        )),
        refl,
        refl,
      )

  Longer-by_block :
      d.back_idx ≡ block_len - 1
      → Longer (record d {
        blocks = store_back (d.blocks ++ (new_block nil ∷ [])) 0 item;
        back_idx = 0;
        len = d.len + 1;
      })
  unfolding new_block
  Longer-by_block p =
      let grown = d.blocks ++ (new_block nil ∷ []) in
      let size = length-append d.blocks (new_block nil ∷ []) in
      let full' = Full-append d.blocks (new_block nil ∷ []) v.full (length-replicate 64 nil, tt) in
      let (f, n, c, m) = store_back-cells grown 0 item full' (omega (arith, size)) (omega arith) in
      let d' = record d { blocks = store_back grown 0 item; back_idx = 0; len = d.len + 1 } in
      let v' : IsValid d' = record {
        full = f;
        nonempty = omega (arith, n, size);
        front = v.front;
        back = omega arith;
        span = omega (arith, v.span, v.nonempty, n, size);
      } in
      let lc = length-cells d.blocks v.full in
      let lg = length-cells grown full' in
      let sp = v.span in
      let ne = v.nonempty in
      let row = cells-append d.blocks (new_block nil ∷ []) in
      (
        v',
        longer d' v' refl (λ i q. ground (
          arith,
          ap (λ t. get_or t (d.front_idx + i) nil) c,
          size,
          ap (λ t. get_or t (d.front_idx + i) nil) row,
          get_or-append (cells d.blocks) (cells (new_block nil ∷ [])) (d.front_idx + i) nil,
          get_or-set (cells grown) (64 * (length grown - 1) + 0) (d.front_idx + i) item nil
              (omega (arith, size)),
        )),
        refl,
        refl,
      )

  pub append_back_lem : Returns Longer (append_back nil d item)
  unfolding append_back
  append_back_lem = elim (Bool-cases (d.back_idx == block_len - 1)) [
    | inl at_end ↦ rw at_end (Longer-by_block (ground arith))
    | inr inside ↦
        let (x, e, l, c, n, f) = back_block-cells d.blocks v.full v.nonempty in
        let p : d.back_idx + 1 < block_len = ground (arith, v.back) in
        rw (inside, e, nth-ret x (d.back_idx + 1) nil (omega (arith, l))) (Longer-in_block p)
  ]
