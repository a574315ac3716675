-- ===== src/Deque/Back.antt =====
-- PopBack and PeekBack against the list of items.
use goext.Prelude.{
  ℕ, ◌+◌, ◌-◌, ◌*◌, ◌<◌, List, ◌≡◌, refl, sym, ap, ◌∙◌, arith, Bool, true, false, length, get_or,
  take, ltb, ◌==◌, if◌then◌else◌, length-take, get_or-take, get_or-set, get_or-append, nth, nth-ret,
  ret, Returns, Bool-cases, inl, inr, subst, take-all,
}
use goext.Deque.{
  Deque, block_len, recenter, back_block, store_back, remove_back, pop_back, peek_back,
}
use goext.Deque.Blocks.{cells, Full, length-cells, back_block-cells, store_back-cells}
use goext.Deque.State.{IsValid, contents, reach, length-contents, get_or-contents, contents_ext}

module _ {A : Type 0} (nil : A) {d : Deque A} (v : IsValid d) where
  -- The last item lies in the last block.
  back_item :
      0 < d.len
      → (x : List A) × (back_block d.blocks ≡ ret x)
        × (nth x d.back_idx ≡ ret (get_or (contents d) (d.len - 1) nil))
  back_item h =
      let (x, e, l, c, n, f) = back_block-cells d.blocks v.full v.nonempty in
      let m = length-cells (remove_back d.blocks) f in
      let here : d.front_idx + (d.len - 1) ≡ length (cells (remove_back d.blocks)) + d.back_idx =
        omega (arith, v.span, n, m) in
      (
        x,
        e,
        nth-ret x d.back_idx nil (omega (arith, v.back, l))
            ∙ ap ret (
                ground (
                  arith,
                  get_or-contents d (d.len - 1) nil,
                  here,
                  ap (λ t. get_or t (d.front_idx + (d.len - 1)) nil) c,
                  get_or-append (cells (remove_back d.blocks)) x (d.front_idx + (d.len - 1)) nil,
                )),
      )

  abbrev cleared : List (List A)
  cleared = store_back d.blocks d.back_idx nil

  -- The three deques that PopBack may leave hold all items but the last.
  abbrev Shorter : Deque A → Type 0
  Shorter d' =
      IsValid d'
      × (contents d' ≡ take (d.len - 1) (contents d))
      × (d'.len ≡ d.len - 1)
      × (d'.max_len ≡ d.max_len)

  shorter :
      (d' : Deque A)
      → IsValid d'
      → d'.len ≡ d.len - 1
      → ((i : ℕ)
          → i < d.len - 1
          → get_or (cells d'.blocks) (d'.front_idx + i) nil
            ≡ get_or (cells d.blocks) (d.front_idx + i) nil)
      → contents d' ≡ take (d.len - 1) (contents d)
  shorter d' v' e h = sym (
      contents_ext v' nil (take (d.len - 1) (contents d))
        (omega (arith, length-take (d.len - 1) (contents d), length-contents v))
        λ i p.
          ground (arith, get_or-take (d.len - 1) (contents d) i nil, get_or-contents d i nil, h i))

  Shorter-in_block :
      0 < d.len
      → 0 < d.back_idx
      → Shorter (record d { blocks = cleared; len = d.len - 1; back_idx = d.back_idx - 1 })
  Shorter-in_block h p =
      let (f, n, c, m) = store_back-cells d.blocks d.back_idx nil v.full v.nonempty v.back in
      let d' = record d { blocks = cleared; len = d.len - 1; back_idx = d.back_idx - 1 } in
      let v' : IsValid d' = record {
        full = f;
        nonempty = omega (arith, n, v.nonempty);
        front = v.front;
        back = omega (arith, v.back);
        span = omega (arith, v.span, n);
      } in
      let w = reach v in
      let sp = v.span in
      (
        v',
        shorter d' v' refl (λ i q. ground (
          arith,
          ap (λ t. get_or t (d.front_idx + i) nil) c,
          get_or-set (cells d.blocks) (64 * (length d.blocks - 1) + d.back_idx) (d.front_idx + i)
              nil nil (omega arith),
        )),
        refl,
        refl,
      )

  Shorter-recentered :
      d.len ≡ 1
      → d.back_idx ≡ 0
      → Shorter (recenter (record d { blocks = cleared; len = d.len - 1 }))
  Shorter-recentered h p =
      let (f, n, c, m) = store_back-cells d.blocks d.back_idx nil v.full v.nonempty v.back in
      let d' = recenter (record d { blocks = cleared; len = d.len - 1 }) in
      let v' : IsValid d' = record {
        full = f;
        nonempty = omega (arith, n, v.nonempty);
        front = omega arith;
        back = omega arith;
        span = omega (arith, v.span, v.front, n);
      } in
      (v', shorter d' v' refl (λ i q. absurd (omega arith)), refl, refl)

  Shorter-removed :
      1 < d.len
      → d.back_idx ≡ 0
      → Shorter
          (record d { blocks = remove_back cleared; len = d.len - 1; back_idx = block_len - 1 })
  Shorter-removed h p =
      let (f, n, c, m) = store_back-cells d.blocks d.back_idx nil v.full v.nonempty v.back in
      let (x, e, l, k, n', f') = back_block-cells d.blocks v.full v.nonempty in
      let d' = record d {
        blocks = remove_back cleared;
        len = d.len - 1;
        back_idx = block_len - 1;
      } in
      let full' : Full (remove_back cleared) = subst Full (sym m) f' in
      let size : length (remove_back cleared) ≡ length d.blocks - 1 = ap length m ∙ n' in
      let v' : IsValid d' = record {
        full = full';
        nonempty = omega (arith, size, v.nonempty, v.span, v.front);
        front = v.front;
        back = omega arith;
        span = omega (arith, v.span, v.front, size);
      } in
      let lc = length-cells (remove_back d.blocks) f' in
      let sp = v.span in
      (
        v',
        shorter d' v' refl (λ i q. ground (
          arith,
          ap (λ t. get_or (cells t) (d.front_idx + i) nil) m,
          ap (λ t. get_or t (d.front_idx + i) nil) k,
          n',
          lc,
          get_or-append (cells (remove_back d.blocks)) x (d.front_idx + i) nil,
        )),
        refl,
        refl,
      )

  pub record PoppedBack (r : A × Bool × Deque A) : Type 0 where
    pub valid : IsValid r.2
    pub found : r.1 ≡ ltb 0 d.len
    pub item : r.0 ≡ (if r.1 then get_or (contents d) (d.len - 1) nil else nil)
    pub rest : contents r.2 ≡ take (d.len - 1) (contents d)
    pub len : r.2.len ≡ d.len - 1
    pub limit : r.2.max_len ≡ d.max_len

  abbrev after : Deque A
  after =
      let one_less = record d { blocks = cleared; len = d.len - 1 } in
      if d.back_idx == 0
      then (if d.len - 1 == 0
          then recenter one_less
          else record one_less { blocks = remove_back cleared; back_idx = block_len - 1 })
      else record one_less { back_idx = d.back_idx - 1 }

  after_lem : 0 < d.len → Shorter after
  after_lem h = elim (Bool-cases (d.back_idx == 0)) [
    | inl first_cell ↦ elim (Bool-cases (d.len - 1 == 0)) [
      | inl last_item ↦
          rw (first_cell, last_item) (Shorter-recentered (ground arith) (ground arith))
      | inr more ↦ rw (first_cell, more) (Shorter-removed (ground arith) (ground arith))
    ]
    | inr later ↦ rw later (Shorter-in_block h (ground arith))
  ]

  popped :
      (d' : Deque A)
      → 0 < d.len
      → Shorter d'
      → PoppedBack (get_or (contents d) (d.len - 1) nil, true, d')
  popped d' h t = record {
    valid = t.0;
    found = ground arith;
    item = refl;
    rest = t.1;
    len = t.2;
    limit = t.3;
  }

  -- PopBack takes the last item off, or reports that there is none. It does not panic, and keeps
  -- the deque valid and its limit.
  pub pop_back_lem : Returns PoppedBack (pop_back nil d)
  unfolding pop_back
  pop_back_lem = elim (Bool-cases (ltb d.len 1)) [
    | inl none_left ↦ rw none_left (record {
      valid = v;
      found = ground arith;
      item = refl;
      rest = sym (take-all (d.len - 1) (contents d) (ground (arith, length-contents v)));
      len = ground arith;
      limit = refl;
    })
    | inr some_left ↦
        let (x, e, i) = back_item (ground arith) in
        rw (some_left, e, i) (popped after (ground arith) (after_lem (ground arith)))
  ]

  -- PeekBack returns the last item, or reports that there is none.
  pub peek_back_lem :
      peek_back nil d
      ≡ ret (if ltb 0 d.len then (get_or (contents d) (d.len - 1) nil, true) else (nil, false))
  unfolding peek_back
  peek_back_lem = elim (Bool-cases (ltb d.len 1)) [
    | inl none_left ↦ let e : ltb 0 d.len ≡ false = ground arith in rw (none_left, e)
    | inr some_left ↦
        let e : ltb 0 d.len ≡ true = ground arith in
        let (x, b, i) = back_item (ground arith) in rw (some_left, b, i, e)
  ]
