-- ===== src/XorList/Tests.antt =====
-- A list of three elements at the addresses 3, 4 and 5, with its sentinels at 1 and 2.
use goext.Prelude.{inr, ℕ, [], ◌∷◌, ◌≡◌, refl, ret, ◌==◌, if◌then◌else◌, ◌*◌, ◌>>=◌}
use goext.XorList.{
  Store, XorList, alloc, remove_elem, push_front, push_back, insert_before, move_before, move_after,
  push_back_list, lazy_init, init, insert_value, insert, linked, write_pn, front, elem_next,
  push_back_rest,
}
use goext.XorList.State.{IsList}
use goext.XorList.Insert.{IsMade}
use goext.XorList.Access.{IsNew, IsZero}
use goext.XorList.Change.{remove_elem_lem, push_back-IsMade, insert_before_lem}
use goext.XorList.Move.{move_before_lem, move_after_lem}
use goext.XorList.Visit.{elements, elements_back, visits_lem, visit}

abbrev small : XorList
small = record { head = 1; tail = 2; len = 3 }

-- The exclusive or of the neighbours: 1 3 4 5 2.
abbrev links_of : ℕ → ℕ
links_of a =
    if a == 1
    then 3
    else if a == 3
    then 5
    else if a == 4
    then 6
    else if a == 5
    then 6
    else if a == 2
    then 5
    else 0

abbrev memory : Store ℕ
memory = record { pn = links_of; value = λ a. 10 * a }

small-IsList : IsList memory small (3 ∷ 4 ∷ 5 ∷ [])
small-IsList = record {
  links = (refl, (refl, (refl, (refl, (refl, tt)))));
  apart = (refl, (refl, (refl, (refl, (refl, tt)))));
  not_nil = refl;
  counted = refl;
}

nine-IsNew : IsNew small (3 ∷ 4 ∷ 5 ∷ []) 9
nine-IsNew = record { not_nil = refl; fresh = refl }

-- The empty list, the pushes of 10 at 3 and 20 at 4, and PushBackList of that list to itself.
built :
    (r : Store ℕ × XorList) × ((do
      (s₁, l₁) ← push_back (init memory small).0 (init memory small).1 3 10
      (s₂, l₂) ← push_front s₁ l₁ 4 20
      push_back_list s₂ l₂ l₂ (5 ∷ 6 ∷ []))
      ≡ ret r)
    × (elements r.0 r.1 ≡ 4 ∷ 3 ∷ 5 ∷ 6 ∷ [])
    × (r.0.value 5 ≡ 20)
    × (r.0.value 6 ≡ 10)
unfolding init lazy_init push_back push_front insert_value insert linked write_pn alloc
    push_back_list push_back_rest front elem_next visit
built = (_, refl, refl, refl, refl)

remove_elem_lem_example :
    (s' : Store ℕ) × (l' : XorList) × (remove_elem memory small 4 ≡ ret (40, s', l'))
    × IsMade memory s' small l' (3 ∷ 4 ∷ 5 ∷ []) (3 ∷ 5 ∷ [])
remove_elem_lem_example = remove_elem_lem memory small (3 ∷ []) 4 (5 ∷ []) refl small-IsList

-- The zero value of a list with its sentinels at 21 and 22.
abbrev nothing : XorList
nothing = record { head = 21; tail = 22; len = 0 }

nothing-IsZero : IsZero memory nothing
nothing-IsZero = record {
  head_link = refl;
  tail_link = refl;
  length = refl;
  head_not_nil = refl;
  tail_not_nil = refl;
  apart = refl;
}

push_back-IsMade_example :
    (s' : Store ℕ) × (l' : XorList) × (push_back memory nothing 9 70 ≡ ret (s', l'))
    × IsMade (alloc memory 9 70) s' nothing l' (9 ∷ []) (9 ∷ [])
push_back-IsMade_example =
    push_back-IsMade memory nothing [] 9 70 (record { not_nil = refl; fresh = refl })
      (inr (nothing-IsZero, refl))

insert_before_lem_example :
    (s' : Store ℕ) × (l' : XorList) × (insert_before memory small 9 70 4 ≡ ret (9, s', l'))
    × IsMade (alloc memory 9 70) s' small l' (3 ∷ 9 ∷ 4 ∷ 5 ∷ []) (3 ∷ 9 ∷ 4 ∷ 5 ∷ [])
insert_before_lem_example =
    insert_before_lem memory small (3 ∷ []) 4 (5 ∷ []) 9 70 refl nine-IsNew small-IsList

move_before_lem_example :
    (s' : Store ℕ) × (l' : XorList) × (move_before memory small 5 3 ≡ ret (s', l'))
    × IsMade memory s' small l' (3 ∷ 4 ∷ 5 ∷ []) (5 ∷ 3 ∷ 4 ∷ [])
move_before_lem_example =
    move_before_lem memory small (3 ∷ 4 ∷ []) 5 [] [] 3 (4 ∷ []) refl refl refl small-IsList

move_after_lem_example :
    (s' : Store ℕ) × (l' : XorList) × (move_after memory small 3 4 ≡ ret (s', l'))
    × IsMade memory s' small l' (3 ∷ 4 ∷ 5 ∷ []) (4 ∷ 3 ∷ 5 ∷ [])
move_after_lem_example =
    move_after_lem memory small [] 3 (4 ∷ 5 ∷ []) [] 4 (5 ∷ []) refl refl refl small-IsList

visits_lem_example :
    (elements memory small ≡ 3 ∷ 4 ∷ 5 ∷ []) × (elements_back memory small ≡ 5 ∷ 4 ∷ 3 ∷ [])
visits_lem_example = visits_lem memory small (3 ∷ 4 ∷ 5 ∷ []) small-IsList
