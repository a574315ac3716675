-- ===== src/XorList.antt =====
-- container/xorlist/xorlist.go: XorList, a doubly linked list whose elements keep the exclusive or
-- of their neighbours' addresses.
-- An address is a number, 0 is nil, and a Store holds the elements at all addresses, the two
-- sentinels that are fields of a list among them. What `&XorElement{…}` returns is the parameter
-- `a` of the operation. A method returns the store and the list that it leaves.
pub mod Links
pub mod State
pub mod Walk
pub mod Mirror
pub mod Insert
pub mod Access
pub mod Change
pub mod Move
pub mod Visit
mod Tests
use goext.Prelude.{
  ℕ, zero, suc, List, [], ◌∷◌, ◌+◌, ◌-◌, ◌==◌, ◌||◌, ◌&&◌, not, if◌then◌else◌, Bool, true, false,
  Outcome, ret, panic, no_fuel, ◌>>=◌,
}
use goext.Prelude.Xor.{bit_xor}

-- The fields PN and Value of every element.
pub record Store (V : Type 0) : Type 0 where
  pub pn : ℕ → ℕ
  pub value : ℕ → V

-- The addresses of the fields head and tail, and the field len.
pub record XorList : Type 0 where
  pub head : ℕ
  pub tail : ℕ
  pub len : ℕ

module _ {V : Type 0} where
  unfoldable pub write_pn : Store V → ℕ → ℕ → Store V
  write_pn s a x = record s { pn = λ b. if b == a then x else s.pn b }

  -- &XorElement{Value: v} at the address `a`.
  unfoldable pub alloc : Store V → ℕ → V → Store V
  alloc s a v = record {
    pn = λ b. if b == a then 0 else s.pn b;
    value = λ b. if b == a then v else s.value b;
  }

  -- XorElement.Next
  unfoldable pub elem_next : Store V → ℕ → ℕ → ℕ
  elem_next s e prev =
      let next = bit_xor prev (s.pn e) in
      if e == 0 || s.pn e == 0 then 0 else if not (next == 0) && s.pn next == e then 0 else next

  -- XorElement.Prev
  unfoldable pub elem_prev : Store V → ℕ → ℕ → ℕ
  elem_prev s e next =
      let prev = bit_xor next (s.pn e) in
      if e == 0 || s.pn e == 0 then 0 else if not (prev == 0) && s.pn prev == e then 0 else prev

  unfoldable pub init : Store V → XorList → Store V × XorList
  init s l = (write_pn (write_pn s l.head l.tail) l.tail l.head, record l { len = 0 })

  unfoldable pub front : Store V → XorList → ℕ × ℕ
  front s l = if l.len == 0 then (0, 0) else (s.pn l.head, l.head)

  unfoldable pub back : Store V → XorList → ℕ × ℕ
  back s l = if l.len == 0 then (0, 0) else (s.pn l.tail, l.tail)

  unfoldable pub lazy_init : Store V → XorList → Store V × XorList
  lazy_init s l =
      if s.pn l.head == 0 || s.pn l.tail == 0 || s.pn l.head == l.tail then init s l else (s, l)

  -- The writes of insert, in order.
  unfoldable pub linked : Store V → ℕ → ℕ → ℕ → Store V
  linked s e prev next =
      let s₁ = write_pn s e (bit_xor prev next) in
      let s₂ = write_pn s₁ prev (bit_xor (s₁.pn prev) (bit_xor next e)) in
      write_pn s₂ next (bit_xor (s₂.pn next) (bit_xor prev e))

  -- A write to a field of a nil element panics.
  unfoldable pub insert : Store V → XorList → ℕ → ℕ → ℕ → Outcome (Store V × XorList)
  insert s l e prev next =
      if e == 0 || prev == 0 || next == 0
      then panic
      else ret (linked s e prev next, record l { len = l.len + 1 })

  unfoldable pub insert_value : Store V → XorList → ℕ → V → ℕ → ℕ → Outcome (Store V × XorList)
  insert_value s l a v prev next = insert (alloc s a v) l a prev next

  -- The writes of remove, in order.
  unfoldable pub unlinked : Store V → ℕ → ℕ → ℕ → Store V
  unlinked s e prev next =
      let s₁ = write_pn s prev (bit_xor (s.pn prev) (bit_xor e next)) in
      let s₂ = write_pn s₁ next (bit_xor (s₁.pn next) (bit_xor e prev)) in write_pn s₂ e 0

  unfoldable pub remove : Store V → XorList → ℕ → ℕ → ℕ → Outcome (Store V × XorList)
  remove s l e prev next =
      if e == 0 || prev == 0 || next == 0
      then panic
      else ret (unlinked s e prev next, record l { len = l.len - 1 })

  -- The loop of XorList.prev, and what follows it.
  unfoldable pub prev_loop : ℕ → Store V → XorList → ℕ → ℕ → ℕ → Outcome ℕ
  prev_loop zero s l e prev cur = no_fuel
  prev_loop (suc fuel) s l e prev cur =
      let rest = prev_loop fuel s l e cur (elem_next s cur prev) in
      if cur == 0 || cur == e || cur == l.tail then ret (if cur == e then prev else 0) else rest

  unfoldable pub find_prev : Store V → XorList → ℕ → Outcome ℕ
  find_prev s l e = prev_loop (l.len + 1) s l e l.head (elem_next s l.head 0)

  -- The loop of XorList.next, and what follows it.
  unfoldable pub next_loop : ℕ → Store V → XorList → ℕ → ℕ → ℕ → Outcome ℕ
  next_loop zero s l e next cur = no_fuel
  next_loop (suc fuel) s l e next cur =
      let rest = next_loop fuel s l e cur (elem_prev s cur next) in
      if cur == 0 || cur == e || cur == l.head then ret (if cur == e then next else 0) else rest

  unfoldable pub find_next : Store V → XorList → ℕ → Outcome ℕ
  find_next s l e = next_loop (l.len + 1) s l e l.tail (elem_prev s l.tail 0)

  -- `next := e.Next(prev); if next == nil { next = &l.tail }`
  unfoldable pub next_or_tail : Store V → XorList → ℕ → ℕ → ℕ
  next_or_tail s l e prev = if elem_next s e prev == 0 then l.tail else elem_next s e prev

  -- Remove: the value, which a nil element does not have.
  unfoldable pub remove_elem : Store V → XorList → ℕ → Outcome (V × Store V × XorList)
  remove_elem s l e = do
    prev ← find_prev s l e
    (s', l') ← if prev == 0 then ret (s, l) else remove s l e prev (next_or_tail s l e prev)
    if e == 0 then panic else ret (s'.value e, s', l')

  unfoldable pub push_front : Store V → XorList → ℕ → V → Outcome (Store V × XorList)
  push_front s l a v =
      let (s', l') = lazy_init s l in insert_value s' l' a v l'.head (s'.pn l'.head)

  unfoldable pub push_back : Store V → XorList → ℕ → V → Outcome (Store V × XorList)
  push_back s l a v = let (s', l') = lazy_init s l in insert_value s' l' a v (s'.pn l'.tail) l'.tail

  -- The element is nil where the mark is not in the list.
  unfoldable pub insert_before : Store V → XorList → ℕ → V → ℕ → Outcome (ℕ × Store V × XorList)
  insert_before s l a v mark = do
    prev ← find_prev s l mark
    let inserted : Outcome (ℕ × Store V × XorList) = do
      (s', l') ← insert_value s l a v prev mark
      ret (a, s', l')
    if prev == 0 then ret (0, s, l) else inserted

  unfoldable pub insert_after : Store V → XorList → ℕ → V → ℕ → Outcome (ℕ × Store V × XorList)
  insert_after s l a v mark = do
    next ← find_next s l mark
    let inserted : Outcome (ℕ × Store V × XorList) = do
      (s', l') ← insert_value s l a v mark next
      ret (a, s', l')
    if next == 0 then ret (0, s, l) else inserted

  unfoldable pub move_to_front : Store V → XorList → ℕ → Outcome (Store V × XorList)
  move_to_front s l e = do
    prev ← find_prev s l e
    let moved : Outcome (Store V × XorList) = do
      (s', l') ← remove s l e prev (next_or_tail s l e prev)
      insert s' l' e l'.head (s'.pn l'.head)
    if prev == 0 then ret (s, l) else moved

  unfoldable pub move_to_back : Store V → XorList → ℕ → Outcome (Store V × XorList)
  move_to_back s l e = do
    prev ← find_prev s l e
    let moved : Outcome (Store V × XorList) = do
      (s', l') ← remove s l e prev (next_or_tail s l e prev)
      insert s' l' e (s'.pn l'.tail) l'.tail
    if prev == 0 then ret (s, l) else moved

  -- What MoveBefore and MoveAfter do first: both are looked up, and `e` is removed. none is an
  -- early return.
  unfoldable pub take_out : Store V → XorList → ℕ → ℕ → Outcome (Bool × Store V × XorList)
  take_out s l e mark = do
    mark_prev ← find_prev s l mark
    let removed : Outcome (Bool × Store V × XorList) = do
      e_prev ← find_prev s l e
      let out : Outcome (Bool × Store V × XorList) = do
        (s', l') ← remove s l e e_prev (next_or_tail s l e e_prev)
        ret (true, s', l')
      if e_prev == 0 then ret (false, s, l) else out
    if mark_prev == 0 then ret (false, s, l) else removed

  unfoldable pub move_before : Store V → XorList → ℕ → ℕ → Outcome (Store V × XorList)
  move_before s l e mark =
      let moved : Outcome (Store V × XorList) = do
        (out, s', l') ← take_out s l e mark
        let put : Outcome (Store V × XorList) = do
          mark_prev ← find_prev s' l' mark
          if mark_prev == 0 then ret (s', l') else insert s' l' e mark_prev mark
        if out then put else ret (s', l')
      in if e == 0 || mark == 0 || e == mark then ret (s, l) else moved

  unfoldable pub move_after : Store V → XorList → ℕ → ℕ → Outcome (Store V × XorList)
  move_after s l e mark =
      let moved : Outcome (Store V × XorList) = do
        (out, s', l') ← take_out s l e mark
        let put : Outcome (Store V × XorList) = do
          mark_next ← find_next s' l' mark
          if mark_next == 0 then ret (s', l') else insert s' l' e mark mark_next
        if out then put else ret (s', l')
      in if e == 0 || mark == 0 || e == mark then ret (s, l) else moved

  -- The loop of PushBackList with `i` rounds to go, from the element `e` after `p` of the other
  -- list. A round takes the address of its new element from the list of them.
  unfoldable pub push_back_rest :
      ℕ → List ℕ → Store V → XorList → ℕ → ℕ → Outcome (Store V × XorList)
  push_back_rest zero new s l e p = ret (s, l)
  push_back_rest (suc i) [] s l e p = if e == 0 then ret (s, l) else no_fuel
  push_back_rest (suc i) (a ∷ new) s l e p =
      let round : Outcome (Store V × XorList) = do
        (s', l') ← push_back s l a (s.value e)
        push_back_rest i new s' l' (elem_next s' e p) e
      in if e == 0 then ret (s, l) else round

  unfoldable pub push_back_list : Store V → XorList → XorList → List ℕ → Outcome (Store V × XorList)
  push_back_list s l other new =
      let (s', l') = lazy_init s l in
      push_back_rest other.len new s' l' (front s' other).0 (front s' other).1

  unfoldable pub push_front_rest :
      ℕ → List ℕ → Store V → XorList → ℕ → ℕ → Outcome (Store V × XorList)
  push_front_rest zero new s l e n = ret (s, l)
  push_front_rest (suc i) [] s l e n = if e == 0 then ret (s, l) else no_fuel
  push_front_rest (suc i) (a ∷ new) s l e n =
      let round : Outcome (Store V × XorList) = do
        (s', l') ← push_front s l a (s.value e)
        push_front_rest i new s' l' (elem_prev s' e n) e
      in if e == 0 then ret (s, l) else round

  unfoldable pub push_front_list :
      Store V → XorList → XorList → List ℕ → Outcome (Store V × XorList)
  push_front_list s l other new =
      let (s', l') = lazy_init s l in
      push_front_rest other.len new s' l' (back s' other).0 (back s' other).1
