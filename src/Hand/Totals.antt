-- ===== src/Hand/Totals.antt =====
-- The chips on the table and behind the players add up to the starting stacks.
use ranges.Prelude.{
  ℕ, ◌+◌, ◌≡◌, refl, ◌∙◌, List, [], ◌∷◌, ◌==◌, if◌then◌else◌, arith, elem, Distinct, sum_over,
  sum_over-congr,
}
use ranges.Hand.Types.{HandSeat}
use ranges.Hand.Seating.{sorted, insert_sorted}
use ranges.Hand.View.{per_seat}
use ranges.Hand.Run.{starting_stack, amount_of}
use ranges.Hand.Tables.{seat_ids}

-- The chips that the players sit down with.
pub total_start : List HandSeat → ℕ
total_start [] = 0
total_start (s ∷ rest) = amount_of s.starting_stack_bb + total_start rest

-- The sum of the amounts of a list by seats.
pub sum_amounts : List (ℕ × ℕ) → ℕ
sum_amounts [] = 0
sum_amounts ((seat, amount) ∷ rest) = amount + sum_amounts rest

-- The amount listed for a seat; 0 for another seat.
unfoldable pub amount_at : ℕ → List (ℕ × ℕ) → ℕ
amount_at x [] = 0
amount_at x ((seat, amount) ∷ rest) = if x == seat then amount else amount_at x rest

pub amount_at-per_seat :
    (x : ℕ) (seats : List ℕ) (d : ℕ → ℕ)
    → amount_at x (per_seat seats d) ≡ (if elem x seats then d x else 0)
unfolding amount_at
amount_at-per_seat x [] d = refl
amount_at-per_seat x (y ∷ ys) d = ground (arith, amount_at-per_seat x ys d)

pub sum_amounts-per_seat :
    (seats : List ℕ) (d : ℕ → ℕ) → sum_amounts (per_seat seats d) ≡ sum_over seats d
unfolding sum_amounts sum_over
sum_amounts-per_seat [] d = refl
sum_amounts-per_seat (x ∷ xs) d = omega (arith, sum_amounts-per_seat xs d)

sum_over-insert_sorted :
    (x : ℕ) (xs : List ℕ) (d : ℕ → ℕ) → sum_over (insert_sorted x xs) d ≡ d x + sum_over xs d
unfolding sum_over insert_sorted
sum_over-insert_sorted x [] d = refl
sum_over-insert_sorted x (y ∷ ys) d = ground (arith, sum_over-insert_sorted x ys d)

sum_over-sorted : (xs : List ℕ) (d : ℕ → ℕ) → sum_over (sorted xs) d ≡ sum_over xs d
unfolding sum_over sorted
sum_over-sorted [] d = refl
sum_over-sorted (x ∷ xs) d =
    omega (arith, sum_over-insert_sorted x (sorted xs) d, sum_over-sorted xs d)

sum_over-starting_stack :
    (seats : List HandSeat)
    → Distinct (seat_ids seats)
    → sum_over (seat_ids seats) (starting_stack seats) ≡ total_start seats
unfolding sum_over total_start starting_stack
sum_over-starting_stack [] d = refl
sum_over-starting_stack (s ∷ rest) d =
    let others : sum_over (seat_ids rest) (starting_stack (s ∷ rest))
        ≡ sum_over (seat_ids rest) (starting_stack rest) =
      sum_over-congr (seat_ids rest) _ _ (λ x m. ground (arith, d.0)) in
    ground (arith, others, sum_over-starting_stack rest d.1)

pub sum_over-ordered :
    (seats : List HandSeat)
    → Distinct (seat_ids seats)
    → sum_over (sorted (seat_ids seats)) (starting_stack seats) ≡ total_start seats
sum_over-ordered seats d =
    sum_over-sorted (seat_ids seats) (starting_stack seats) ∙ sum_over-starting_stack seats d
