-- ===== src/Hand/Tables.antt =====
-- What a header that `_validate_header` accepts guarantees.
use ranges.Prelude.{
  ℕ, ◌≤◌, ◌<◌, ◌≡◌, refl, true, false, List, [], ◌∷◌, ◌==◌, ltb, String, arith, elem, Distinct, ok,
  err, map, length,
}
use ranges.Hand.Types.{
  HandSeat, PublicHandHistory, Number, decimal, max_abs_bb, over_bound, bad_sign,
}
use ranges.Hand.Seating.{sorted}
use ranges.Hand.Order.{elem-sorted, Distinct-sorted}
use ranges.Hand.Header.{Table, check_seats, check_six_max, header_fields, validate_header}
use ranges.Hand.Run.{starting_stack, amount_of}
use ranges.Hand.Ensures.{
  Ensures, returns, refuses, Ensures-bind, Ensures-raise_if, Ensures-if, Ensures-weaken,
}

abbrev pub seat_ids : List HandSeat → List ℕ
seat_ids seats = map (λ (s : HandSeat). s.seat) seats

-- The table of a valid header.
pub record IsTable (history : PublicHandHistory) (t : Table) : Type 0 where
  -- The seats are the occupied ones, each once.
  pub seated : (x : ℕ) → elem x t.ordered_seats ≡ elem x (seat_ids history.seats)
  pub listed : Distinct (seat_ids history.seats)
  pub ordered : t.ordered_seats ≡ sorted (seat_ids history.seats)
  pub distinct : Distinct t.ordered_seats
  pub button : elem t.button_seat t.ordered_seats ≡ true
  -- Every player starts with chips.
  pub funded : (x : ℕ) → elem x t.ordered_seats ≡ true → 0 < starting_stack history.seats x
  pub bounded : (x : ℕ) → starting_stack history.seats x ≤ max_abs_bb
  pub blinds : (0 < t.small_blind) × (t.small_blind ≤ t.big_blind)

-- A positive amount is read as it is.
decimal-Ensures :
    (v : Number) → Ensures (λ n. (0 < n) × (n ≤ max_abs_bb) × (amount_of v ≡ n)) (decimal false v)
unfolding decimal amount_of
decimal-Ensures Number.inexact = refuses refl
decimal-Ensures Number.malformed = refuses refl
decimal-Ensures Number.infinite = refuses refl
decimal-Ensures (Number.below_zero n) = refuses refl
decimal-Ensures (Number.exact n) =
    Ensures-if (n == 0) (err bad_sign) _ (λ _. refuses refl)
      (λ p.
        Ensures-if (ltb max_abs_bb n) (err over_bound) (ok n) (λ _. refuses refl)
          (λ within. returns (ground arith, ground arith, refl)))

decimal_zero-Ensures : (v : Number) → Ensures (λ _. Unit {0}) (decimal true v)
unfolding decimal
decimal_zero-Ensures Number.inexact = refuses refl
decimal_zero-Ensures Number.malformed = refuses refl
decimal_zero-Ensures Number.infinite = refuses refl
decimal_zero-Ensures (Number.below_zero n) = refuses refl
decimal_zero-Ensures (Number.exact n) =
    Ensures-if (ltb max_abs_bb n) (err over_bound) (ok n) (λ _. refuses refl) (λ _. returns tt)

-- The loop over the seats, behind the seats it has passed.
record IsSeated (seats : List HandSeat) (passed : List ℕ) : Type 0 where
  distinct : Distinct (seat_ids seats)
  apart : (x : ℕ) → elem x (seat_ids seats) ≡ true → elem x passed ≡ false
  funded : (x : ℕ) → elem x (seat_ids seats) ≡ true → 0 < starting_stack seats x
  bounded : (x : ℕ) → starting_stack seats x ≤ max_abs_bb

check_seats-Ensures :
    (seats : List HandSeat) (passed : List ℕ) (positions : List String)
    → Ensures (λ _. IsSeated seats passed) (check_seats seats passed positions)
unfolding check_seats starting_stack
check_seats-Ensures [] passed positions = returns (record {
  distinct = tt;
  apart = λ x h. absurd (cc);
  funded = λ x h. absurd (cc);
  bounded = λ x. omega arith;
})
check_seats-Ensures (s ∷ rest) passed positions = Ensures-raise_if _ _ _ refl λ a.
    Ensures-raise_if _ _ _ refl λ _. Ensures-bind _ _ (decimal-Ensures s.starting_stack_bb) λ n _ p.
      Ensures-weaken (check_seats-Ensures rest (s.seat ∷ passed) (s.position ∷ positions)) λ _ q.
        record {
          distinct = ground (arith, q.apart s.seat, q.distinct);
          apart = λ x h. ground (arith, q.apart x);
          funded = λ x h. ground (arith, q.funded x, p);
          bounded = λ x. ground (arith, q.bounded x, p);
        }

six_max-Ensures :
    (seats : List HandSeat) (button : ℕ) → Ensures (λ _. Unit {0}) (check_six_max seats button)
unfolding check_six_max
six_max-Ensures seats button =
    Ensures-raise_if _ _ _ refl λ _. Ensures-raise_if _ _ _ refl λ _. returns tt

header_fields-Ensures :
    (history : PublicHandHistory) → Ensures (IsTable history) (header_fields history)
unfolding header_fields
header_fields-Ensures history =
    let seats = history.seats in
    let ids : List ℕ = seat_ids seats in
    Ensures-raise_if _ _ _ refl λ _. Ensures-raise_if _ _ _ refl λ _.
      Ensures-raise_if _ _ _ refl λ _. Ensures-bind _ _ (check_seats-Ensures seats [] []) λ _ _ q.
        Ensures-raise_if _ _ _ refl λ sits.
          Ensures-bind {Q = λ _. Unit {0}} _ _
            (Ensures-if (length seats == 6) (check_six_max seats history.button_seat) (ok tt)
              (λ _. six_max-Ensures seats history.button_seat) (λ _. returns tt))
            λ _ _ _. Ensures-bind _ _ (decimal-Ensures history.small_blind_bb) λ small _ p.
              Ensures-bind _ _ (decimal-Ensures history.big_blind_bb) λ big _ b.
                Ensures-raise_if _ _ _ refl λ le.
                  Ensures-bind _ _ (decimal_zero-Ensures history.ante_bb) λ _ _ _.
                    Ensures-bind _ _ (decimal_zero-Ensures history.rake_rate_pct) λ _ _ _.
                      Ensures-raise_if _ _ _ refl λ _.
                        Ensures-bind _ _ (decimal_zero-Ensures history.rake_cap_bb) λ _ _ _.
                          returns (record {
                            seated = λ x. elem-sorted x ids;
                            listed = q.distinct;
                            ordered = refl;
                            distinct = Distinct-sorted ids q.distinct;
                            button = ground (arith, elem-sorted history.button_seat ids);
                            funded = λ x h. q.funded x (ground (arith, elem-sorted x ids));
                            bounded = q.bounded;
                            blinds = (p.0, ground arith);
                          })

pub validate_header-Ensures :
    (history : PublicHandHistory) → Ensures (IsTable history) (validate_header history)
unfolding validate_header
validate_header-Ensures history =
    Ensures-bind _ _ (header_fields-Ensures history)
      λ t _ v. Ensures-raise_if _ _ _ refl λ _. returns v
