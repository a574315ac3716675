-- ===== src/Deque/Front.antt =====
-- PopFront and PeekFront against the list of items.
use goext.Prelude.{
  ℕ, ◌+◌, ◌-◌, ◌<◌, List, ◌≡◌, refl, sym, ap, ◌∙◌, arith, Bool, true, false, length, get_or, drop,
  ltb, ◌==◌, if◌then◌else◌, length-drop, get_or-drop, get_or-set, get_or-append, nth, nth-ret, ret,
  Returns, Bool-cases, inl, inr, subst, drop-all,
}
use goext.Deque.{
  Deque, block_len, recenter, front_block, store_front, remove_front, pop_front, peek_front,
}
use goext.Deque.Blocks.{cells, Full, front_block-cells, store_front-cells}
use goext.Deque.State.{IsValid, contents, reach, length-contents, get_or-contents, contents_ext}

module _ {A : Type 0} (nil : A) {d : Deque A} (v : IsValid d) where
  -- The first item lies in the first block.
  front_item :
      0 < d.len
      → (x : List A) × (front_block d.blocks ≡ ret x)
        × (nth x d.front_idx ≡ ret (get_or (contents d) 0 nil))
  front_item h =
      let (x, e, l, c, n, f) = front_block-cells d.blocks v.full v.nonempty in
      let at : d.front_idx + 0 ≡ d.front_idx = omega arith in
      let fr = v.front in
      (
        x,
        e,
        nth-ret x d.front_idx nil (omega (arith, v.front, l))
            ∙ ap ret (
                ground (
                  arith,
                  get_or-contents d 0 nil,
                  at,
                  ap (λ t. get_or t d.front_idx nil) c,
                  get_or-append x (cells (remove_front d.blocks)) d.front_idx nil,
                )),
      )

  abbrev cleared : List (List A)
  cleared = store_front d.blocks d.front_idx nil

  -- The three deques that PopFront may leave hold all items but the first.
  abbrev Shorter : Deque A → Type 0
  Shorter d' =
      IsValid d'
      × (contents d' ≡ drop 1 (contents d))
      × (d'.len ≡ d.len - 1)
      × (d'.max_len ≡ d.max_len)

  shorter :
      (d' : Deque A)
      → IsValid d'
      → d'.len ≡ d.len - 1
      → ((i : ℕ)
          → i < d.len - 1
          → get_or (cells d'.blocks) (d'.front_idx + i) nil
            ≡ get_or (cells d.blocks) (d.front_idx + (1 + i)) nil)
      → contents d' ≡ drop 1 (contents d)
  shorter d' v' e h = sym (
      contents_ext v' nil (drop 1 (contents d))
        (omega (arith, length-drop 1 (contents d), length-contents v))
        λ i p. ground (arith, get_or-drop 1 (contents d) i nil, get_or-contents d (1 + i) nil, h i))

  abbrev one_less : Deque A
  one_less = record d { blocks = cleared; front_idx = d.front_idx + 1; len = d.len - 1 }

  Shorter-in_block : 0 < d.len → d.front_idx + 1 < block_len → Shorter one_less
  Shorter-in_block h p =
      let (f, n, c, m) = store_front-cells d.blocks d.front_idx nil v.full v.front in
      let v' : IsValid one_less = record {
        full = f;
        nonempty = omega (arith, n, v.nonempty);
        front = p;
        back = v.back;
        span = omega (arith, v.span, n);
      } in
      let w = reach v in
      (
        v',
        shorter one_less v' refl (λ i q.
            let at : d.front_idx + 1 + i ≡ d.front_idx + (1 + i) = omega arith in
            ground (
              arith,
              at,
              ap (λ t. get_or t (d.front_idx + (1 + i)) nil) c,
              get_or-set (cells d.blocks) d.front_idx (d.front_idx + (1 + i)) nil nil (omega arith),
            )),
        refl,
        refl,
      )

  Shorter-recentered : d.len ≡ 1 → d.front_idx + 1 ≡ block_len → Shorter (recenter one_less)
  Shorter-recentered h p =
      let (f, n, c, m) = store_front-cells d.blocks d.front_idx nil v.full v.front in
      let d' = recenter one_less in
      let v' : IsValid d' = record {
        full = f;
        nonempty = omega (arith, n, v.nonempty);
        front = omega arith;
        back = omega arith;
        span = omega (arith, v.span, v.back, n);
      } in
      (v', shorter d' v' refl (λ i q. absurd (omega arith)), refl, refl)

  Shorter-removed :
      1 < d.len
      → d.front_idx + 1 ≡ block_len
      → Shorter (record one_less { blocks = remove_front cleared; front_idx = 0 })
  Shorter-removed h p =
      let (f, n, c, m) = store_front-cells d.blocks d.front_idx nil v.full v.front in
      let (x, e, l, k, n', f') = front_block-cells d.blocks v.full v.nonempty in
      let d' = record one_less { blocks = remove_front cleared; front_idx = 0 } in
      let full' : Full (remove_front cleared) = subst Full (sym m) f' in
      let size : length (remove_front cleared) ≡ length d.blocks - 1 = ap length m ∙ n' in
      let v' : IsValid d' = record {
        full = full';
        nonempty = omega (arith, size, v.nonempty, v.span, v.back);
        front = omega arith;
        back = v.back;
        span = omega (arith, v.span, v.back, size);
      } in
      (
        v',
        shorter d' v' refl (λ i q.
            let at : d.front_idx + (1 + i) - length x ≡ 0 + i = omega (arith, l) in
            ground (
              arith,
              at,
              l,
              ap (λ t. get_or (cells t) (0 + i) nil) m,
              ap (λ t. get_or t (d.front_idx + (1 + i)) nil) k,
              get_or-append x (cells (remove_front d.blocks)) (d.front_idx + (1 + i)) nil,
            )),
        refl,
        refl,
      )

  pub record PoppedFront (r : A × Bool × Deque A) : Type 0 where
    pub valid : IsValid r.2
    pub found : r.1 ≡ ltb 0 d.len
    pub item : r.0 ≡ (if r.1 then get_or (contents d) 0 nil else nil)
    pub rest : contents r.2 ≡ drop 1 (contents d)
    pub len : r.2.len ≡ d.len - 1
    pub limit : r.2.max_len ≡ d.max_len

  abbrev after : Deque A
  after =
      if one_less.front_idx == block_len
      then (if one_less.len == 0
          then recenter one_less
          else record one_less { blocks = remove_front one_less.blocks; front_idx = 0 })
      else one_less

  after_lem : 0 < d.len → Shorter after
  after_lem h = elim (Bool-cases (d.front_idx + 1 == block_len)) [
    | inl last_cell ↦ elim (Bool-cases (d.len - 1 == 0)) [
      | inl last_item ↦ rw (last_cell, last_item) (Shorter-recentered (ground arith) (ground arith))
      | inr more ↦ rw (last_cell, more) (Shorter-removed (ground arith) (ground arith))
    ]
    | inr earlier ↦ rw earlier (Shorter-in_block h (ground (arith, v.front)))
  ]

  popped :
      (d' : Deque A) → 0 < d.len → Shorter d' → PoppedFront (get_or (contents d) 0 nil, true, d')
  popped d' h t = record {
    valid = t.0;
    found = ground arith;
    item = refl;
    rest = t.1;
    len = t.2;
    limit = t.3;
  }

  -- PopFront takes the first item off, or reports that there is none. It does not panic, and keeps
  -- the deque valid and its limit.
  pub pop_front_lem : Returns PoppedFront (pop_front nil d)
  unfolding pop_front
  pop_front_lem = elim (Bool-cases (ltb d.len 1)) [
    | inl none_left ↦ rw none_left (record {
      valid = v;
      found = ground arith;
      item = refl;
      rest =
          drop-all 0 (contents d) (ground (arith, length-contents v))
          ∙ sym (drop-all 1 (contents d) (ground (arith, length-contents v)));
      len = ground arith;
      limit = refl;
    })
    | inr some_left ↦
        let (x, e, i) = front_item (ground arith) in
        rw (some_left, e, i) (popped after (ground arith) (after_lem (ground arith)))
  ]

  -- PeekFront returns the first item, or reports that there is none.
  pub peek_front_lem :
      peek_front nil d
      ≡ ret (if ltb 0 d.len then (get_or (contents d) 0 nil, true) else (nil, false))
  unfolding peek_front
  peek_front_lem = elim (Bool-cases (ltb d.len 1)) [
    | inl none_left ↦ let e : ltb 0 d.len ≡ false = ground arith in rw (none_left, e)
    | inr some_left ↦
        let e : ltb 0 d.len ≡ true = ground arith in
        let (x, b, i) = front_item (ground arith) in rw (some_left, b, i, e)
  ]
