-- ===== src/Hand/Seating.antt =====
-- gto_hand_history.py: the circular order of the seats, `_next_seat`, `_blind_seats` and
-- `_ordered_after`.
use ranges.Prelude.{
  ℕ, zero, suc, ◌+◌, ◌%◌, Bool, List, [], ◌∷◌, ◌==◌, leb, if◌then◌else◌, Option, none, some, length,
  get_elem?,
}

-- `sorted` on seat numbers.
unfoldable pub insert_sorted : ℕ → List ℕ → List ℕ
insert_sorted x [] = x ∷ []
insert_sorted x (y ∷ ys) = if leb x y then x ∷ y ∷ ys else y ∷ insert_sorted x ys

unfoldable pub sorted : List ℕ → List ℕ
unfolding insert_sorted
sorted [] = []
sorted (x ∷ xs) = insert_sorted x (sorted xs)

-- `ordered_seats.index(seat)`; the length of the list where the seat is missing.
abbrev pub index : ℕ → List ℕ → ℕ
index x [] = 0
index x (y ∷ ys) = if x == y then 0 else suc (index x ys)

or_self : ℕ → Option ℕ → ℕ
or_self seat none = seat
or_self seat (some x) = x

-- `_next_seat`. All callers pass an occupied seat, so that the lookup succeeds.
unfoldable pub next_seat : List ℕ → ℕ → ℕ
unfolding or_self
next_seat seats seat = or_self seat (get_elem? seats ((index seat seats + 1) % length seats))

-- `_blind_seats`: heads-up the button posts the small blind.
unfoldable pub blind_seats : List ℕ → ℕ → ℕ × ℕ
blind_seats seats button =
    if length seats == 2
    then (button, next_seat seats button)
    else (next_seat seats button, next_seat seats (next_seat seats button))

-- The `while` loop of `_ordered_after`, with fuel.
unfoldable pub walk : List ℕ → ℕ → (ℕ → Bool) → ℕ → ℕ → List ℕ
walk seats seat candidates zero current = []
walk seats seat candidates (suc fuel) current =
    let rest = walk seats seat candidates fuel (next_seat seats current) in
    if current == seat
    then (if candidates seat then seat ∷ [] else [])
    else if candidates current
    then current ∷ rest
    else rest

-- `_ordered_after`: one round of the table is enough fuel.
unfoldable pub ordered_after : List ℕ → ℕ → (ℕ → Bool) → List ℕ
ordered_after seats seat candidates =
    walk seats seat candidates (length seats) (next_seat seats seat)
