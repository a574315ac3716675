-- ===== src/Timer.antt =====
-- time/timer.go: TimerWheel, five levels of timers over a clock in nanoseconds.
-- A slot is the list of the nodes that its XorList holds, first to last. The levels are 0 to 4, and
-- the two arrays over them are a function and a list. A deadline and a period are an int64, and the
-- sums and differences of them wrap around; the clock's own times, nanoseconds since 1970, and their
-- differences are numbers and integers. A TimerFunc is a function that says whether the error it
-- returns is nil.
pub mod Slots
pub mod Moves
pub mod Hands
pub mod Run
pub mod Handle
pub mod Calls
pub mod Tick
pub mod Steps
pub mod Kept
pub mod Take
pub mod Update
pub mod Cascade
pub mod Loop
mod Tests
use goext.Prelude.{
  ℕ, zero, suc, List, [], ◌∷◌, ◌+◌, ◌-◌, ◌*◌, ◌/◌, ◌%◌, ◌==◌, ltb, leb, ◌&&◌, not, if◌then◌else◌,
  Bool, true, false, Option, none, some, Outcome, ret, no_fuel, ◌>>=◌, length, ◌++◌,
}
use goext.Prelude.Int64.{add_int64, sub_int64, div_int64, ltb_int64, leb_int64}
use goext.Prelude.Int.{ℤ, pos, negsuc, ◌+ℤ◌, ◌-ℤ◌}

abbrev pub millisecond : ℕ
millisecond = 1000000

abbrev pub second : ℕ
second = 1000000000

abbrev pub minute : ℕ
minute = 60000000000

abbrev pub hour : ℕ
hour = 3600000000000

abbrev pub day : ℕ
day = 86400000000000

-- The constant minDiff * 0.7
abbrev pub min_step : ℕ
min_step = 7000000

unfoldable pub ms_num : ℕ → ℕ
ms_num expire = div_int64 expire millisecond

-- secondNum divides by time.Minute.
unfoldable pub second_num : ℕ → ℕ
second_num expire = div_int64 expire minute

unfoldable pub minute_num : ℕ → ℕ
minute_num expire = div_int64 expire minute

unfoldable pub hour_num : ℕ → ℕ
hour_num expire = div_int64 expire hour

unfoldable pub day_num : ℕ → ℕ
day_num expire = div_int64 expire day

-- The variables limit and msLimit.
abbrev pub limit : List ℕ
limit = 1000 ∷ 60 ∷ 60 ∷ 24 ∷ 31 ∷ []

abbrev pub ms_limit : List ℕ
ms_limit = millisecond ∷ second ∷ minute ∷ hour ∷ day ∷ []

abbrev pub timer_once : ℕ
timer_once = 1

abbrev pub timer_loop : ℕ
timer_loop = 2

pub record TimerNode (A : Type 0) : Type 0 where
  pub id : ℕ
  pub trig : ℕ
  pub typ : ℕ
  pub period : ℕ
  pub timer_run : ℕ → ℕ → A → Bool
  pub arg : A

pub record TimerWheel (A : Type 0) : Type 0 where
  pub start : ℕ
  pub clock : ℕ
  pub number : ℤ
  pub hand : List ℕ
  pub slot : ℕ → List (TimerNode A)

-- The deadline of a timer that is set at `cur`.
unfoldable pub new_timer_node : {A : Type 0} → ℕ → ℕ → (ℕ → ℕ → A → Bool) → ℕ → ℕ → A → TimerNode A
new_timer_node id cur f typ period arg = record {
  id = id;
  trig = add_int64 cur period;
  typ = typ;
  period = period;
  timer_run = f;
  arg = arg;
}

unfoldable pub compare_timer_node : {A : Type 0} → TimerNode A → TimerNode A → ℤ
compare_timer_node x y =
    if ltb_int64 x.trig y.trig then negsuc 0 else if ltb_int64 y.trig x.trig then pos 1 else pos 0

unfoldable pub is_negative : ℤ → Bool
is_negative (pos n) = false
is_negative (negsuc n) = true

-- The loop of insertSlot, and the insertion before the first later node.
unfoldable pub insert_sorted : {A : Type 0} → TimerNode A → List (TimerNode A) → List (TimerNode A)
insert_sorted node [] = node ∷ []
insert_sorted node (x ∷ xs) =
    if is_negative (compare_timer_node node x) then node ∷ x ∷ xs else x ∷ insert_sorted node xs

-- The switch of insertTimerNode.
unfoldable pub level_of : ℕ → ℕ → ℕ
level_of trig clock =
    let diff = sub_int64 trig clock in
    if leb_int64 diff 0
    then 0
    else if not (day_num diff == 0)
    then 4
    else if not (hour_num diff == 0)
    then 3
    else if not (minute_num diff == 0)
    then 2
    else if not (second_num diff == 0)
    then 1
    else 0

-- The switch of timerCascade: whether the node stays at its level.
unfoldable pub stays : ℕ → ℕ → ℕ → Bool
stays level trig clock =
    let diff = sub_int64 trig clock in
    if leb_int64 trig clock
    then false
    else if level == 1
    then ltb_int64 0 (second_num diff)
    else if level == 2
    then ltb_int64 0 (minute_num diff)
    else if level == 3
    then ltb_int64 0 (hour_num diff)
    else if level == 4
    then ltb_int64 0 (day_num diff)
    else false

-- Front, and the rest of the list.
abbrev pub uncons : {A : Type 0} → List A → Option (A × List A)
uncons [] = none
uncons (x ∷ xs) = some (x, xs)

-- The sum of deltaDiff.
unfoldable pub hand_time : List ℕ → List ℕ → ℕ
hand_time (h ∷ hs) (u ∷ us) = h * u + hand_time hs us
hand_time [] us = 0
hand_time (h ∷ hs) [] = 0

-- `diff` after the divisions by the units of the list, of which the last is the first divisor.
unfoldable pub remainder : List ℕ → ℕ → ℕ
remainder [] diff = diff
remainder (u ∷ us) diff = remainder us diff % u

-- The first loop of timerUpdate.
unfoldable pub increments : List ℕ → ℕ → List ℕ
increments [] diff = []
increments (u ∷ us) diff = remainder us diff / u ∷ increments us diff

-- The second loop of timerUpdate from `idx` on: what it makes of the hands, and maxIdx. `over` is
-- what the round before has added to the increment.
unfoldable pub turn : List ℕ → List ℕ → List ℕ → ℕ → ℕ → ℕ → List ℕ × ℕ
turn (l ∷ ls) (h ∷ hs) (i ∷ inc) over idx max_idx =
    let inc_idx = i + over in
    let still = turn ls hs inc 0 (suc idx) max_idx in
    let moved = turn ls hs inc ((h + inc_idx) / l) (suc idx) (suc idx) in
    if inc_idx == 0 then (h ∷ still.0, still.1) else ((h + inc_idx) % l ∷ moved.0, moved.1)
turn [] hs inc over idx max_idx = (hs, max_idx)
turn (l ∷ ls) [] inc over idx max_idx = ([], max_idx)
turn (l ∷ ls) (h ∷ hs) [] over idx max_idx = (h ∷ hs, max_idx)

-- The node with the ID, taken off a list, and the rest.
unfoldable pub take_node :
    {A : Type 0} → ℕ → List (TimerNode A) → Option (TimerNode A × List (TimerNode A))
take_node id [] = none
take_node id (x ∷ xs) =
    let later = take_node id xs in
    if x.id == id
    then some (x, xs)
    else elim later [ none ↦ none | some (n, rest) ↦ some (n, x ∷ rest) ]

module _ {A : Type 0} where
  unfoldable pub set_slot : TimerWheel A → ℕ → List (TimerNode A) → TimerWheel A
  set_slot w level nodes = record w { slot = λ j. if j == level then nodes else w.slot j }

  unfoldable pub insert_slot : TimerWheel A → ℕ → TimerNode A → TimerWheel A
  insert_slot w idx node = set_slot w idx (insert_sorted node (w.slot idx))

  unfoldable pub insert_timer_node : TimerWheel A → TimerNode A → TimerWheel A
  insert_timer_node w node = insert_slot w (level_of node.trig w.clock) node

  -- The labelled loop of deleteTimerNode and resetTimerNode: the first node with the ID, and the
  -- wheel without it.
  unfoldable pub take_from : TimerWheel A → ℕ → List ℕ → Option (TimerNode A × TimerWheel A)
  take_from w id [] = none
  take_from w id (level ∷ levels) =
      let later = take_from w id levels in
      elim (take_node id (w.slot level)) [
        | none ↦ later
        | some (n, rest) ↦ some (n, set_slot w level rest)
      ]

  unfoldable pub delete_timer_node : TimerWheel A → TimerNode A → TimerWheel A
  delete_timer_node w node = elim (take_from w node.id (0 ∷ 1 ∷ 2 ∷ 3 ∷ 4 ∷ [])) [
    | none ↦ w
    | some (n, w') ↦ w'
  ]

  unfoldable pub reset_timer_node : TimerWheel A → TimerNode A → TimerWheel A
  reset_timer_node w node = elim (take_from w node.id (0 ∷ 1 ∷ 2 ∷ 3 ∷ 4 ∷ [])) [
    | none ↦ w
    | some (n, w') ↦ insert_timer_node w' (record n {
      trig = add_int64 (sub_int64 n.trig n.period) node.period;
      period = node.period;
    })
  ]

  unfoldable pub delta_diff : TimerWheel A → ℕ → ℤ
  delta_diff w clock = pos clock -ℤ pos w.start -ℤ pos (hand_time w.hand ms_limit)

  -- A round looks at the first node of the slot: it stays, or it is inserted at another level.
  unfoldable pub cascade_loop : ℕ → TimerWheel A → ℕ → Outcome (TimerWheel A)
  cascade_loop zero w level = no_fuel
  cascade_loop (suc fuel) w level = elim (uncons (w.slot level)) [
    | none ↦ ret w
    | some (cur, rest) ↦
        let next = cascade_loop fuel (insert_timer_node (set_slot w level rest) cur) level in
        if stays level cur.trig w.clock then ret w else next
  ]

  unfoldable pub timer_cascade : TimerWheel A → ℕ → Outcome (TimerWheel A)
  timer_cascade w level = cascade_loop (suc (length (w.slot level))) w level

  -- The levels from `idx` on, `rounds` of them.
  unfoldable pub cascade_levels : ℕ → ℕ → TimerWheel A → Outcome (TimerWheel A)
  cascade_levels zero idx w = ret w
  cascade_levels (suc rounds) idx w = do
    w' ← timer_cascade w idx
    cascade_levels rounds (suc idx) w'

  -- timerUpdate after the test: the hands and the levels.
  unfoldable pub move_hands : TimerWheel A → ℕ → ℕ → Outcome (TimerWheel A)
  move_hands w now diff =
      let (hand, max_idx) = turn limit w.hand (increments ms_limit diff) 0 0 0 in
      cascade_levels (max_idx - 1) 1 (record w { clock = now; hand = hand })

  -- Whether it returns 0, and the wheel.
  unfoldable pub timer_update : TimerWheel A → ℕ → Outcome (Bool × TimerWheel A)
  timer_update w now = elim (pos now -ℤ pos w.clock +ℤ delta_diff w w.clock) [
    | negsuc n ↦ ret (false, w)
    | pos diff ↦
        let updated : Outcome (Bool × TimerWheel A) = do w' ← move_hands w now diff; ret (true, w')
        in if ltb diff min_step then ret (false, w) else updated
  ]

  -- The first loop of run: the number, the array, the nodes that ran and those left in the slot.
  unfoldable pub run_loop :
      ℕ
      → List (TimerNode A)
      → ℤ
      → List (TimerNode A)
      → ℤ × List (TimerNode A) × List (TimerNode A) × List (TimerNode A)
  run_loop clock [] number array = (number, array, [], [])
  run_loop clock (node ∷ rest) number array =
      let again = node.timer_run node.id clock node.arg && node.typ == timer_loop in
      let (number', array', ran, left) =
        run_loop clock rest (if again then number else number -ℤ pos 1)
          (if again then array ++ node ∷ [] else array) in
      if ltb_int64 clock node.trig
      then (number, array, [], node ∷ rest)
      else (number', array', node ∷ ran, left)

  -- The second loop of run.
  unfoldable pub reinsert : List (TimerNode A) → TimerWheel A → TimerWheel A
  reinsert [] w = w
  reinsert (node ∷ rest) w =
      reinsert rest (insert_timer_node w (record node { trig = add_int64 node.trig node.period }))

  -- The nodes whose functions are called, in order, and the wheel.
  unfoldable pub run : TimerWheel A → List (TimerNode A) × TimerWheel A
  run w =
      let (number, array, ran, left) = run_loop w.clock (w.slot 0) w.number [] in
      (ran, reinsert array (set_slot (record w { number = number }) 0 left))
