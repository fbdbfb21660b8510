-- ===== src/Hand/Tests.antt =====
-- A three-handed hand from the blinds to the flop.
use ranges.Prelude.{
  ℕ, ◌+◌, ◌*◌, ◌≤◌, ◌<◌, ◌≡◌, refl, true, false, not, Option, none, some, List, [], ◌∷◌, ◌++◌, ◌==◌,
  ◌↔◌, ok, err, is_ok, arith, elem, filter,
}
use ranges.Prelude.{◌>>=◌, max_over, sum_over}
use ranges.Hand.Seating.{sorted, blind_seats, next_seat, ordered_after, walk}
use ranges.Hand.Machine.{
  actor, commit_delta, post_antes, post_forced_bets, settle, normalize_round, pop_actor,
  passive_complete, full_aggression, short_all_in_aggression, pay_to,
}
use ranges.Hand.Actions.{
  require_seat, require_action_shape, amount_to, apply_fold, apply_check, apply_call, apply_bet_to,
  apply_raise_to, apply_all_in_to, by_kind, apply_action,
}
use ranges.Hand.Deals.{check_cards, repeats, open_street, deal_as, apply_deal}
use ranges.Hand.Order.{ordered_after-eq-rotation}
use ranges.Hand.Ensures.{is_assertion}
use ranges.Hand.Totals.{sum_amounts, total_start, amount_at}
use ranges.Hand.Soundness.{
  replay_never_asserts, chips_conserved, closed_round_matched, actor_can_act,
}
use ranges.Hand.Legal.{lists, IsLeast}
use ranges.Hand.Extend.{extend}
use ranges.Hand.Offers.{legal_actions_exact, replays_raise, minimum_raise-IsLeast}
use ranges.Hand.Types.{
  decimal, wrong_actor, Number, exact, HandSeat, HandEvent, PublicHandHistory, Street, preflop,
  flop, Kind, fold, check, call, bet_to, raise_to, all_in_to, deal_flop, Checked,
}
use ranges.Hand.View.{ReplayedHandState}
use ranges.Hand.Header.{validate_header, header_fields, check_seats, check_six_max}
use ranges.Hand.View.{freeze, legal_actions, legal_for, minimum_raise_to, minimum_for}
use ranges.Hand.Run.{replay_public_hand, starting_stack, initial, apply_all, apply, finish_river}

abbrev units : ℕ → ℕ
units n = n * 500000

abbrev seats : List HandSeat
seats =
    record { seat = 4; position = "SB"; starting_stack_bb = exact (units 40) }
    ∷ record { seat = 1; position = "BTN"; starting_stack_bb = exact (units 200) }
    ∷ record { seat = 7; position = "BB"; starting_stack_bb = exact (units 100) }
    ∷ []

abbrev act : ℕ → Kind → Street → ℕ → Option Number → HandEvent
act n kind street seat amount = record {
  sequence = n;
  kind = kind;
  street = street;
  actor_seat = some seat;
  amount_to_bb = amount;
  cards = [];
}

abbrev hand : List HandEvent → PublicHandHistory
hand events = record {
  hand_id = "h1";
  button_seat = 1;
  small_blind_bb = exact (units 1);
  big_blind_bb = exact (units 2);
  ante_bb = exact 0;
  rake_rate_pct = exact 0;
  rake_cap_bb = exact 0;
  seats = seats;
  events = events;
  variant = "NLHE";
}

abbrev opening : List HandEvent
opening =
    act 0 raise_to preflop 1 (some (exact (units 5)))
    ∷ act 1 fold preflop 4 none
    ∷ act 2 call preflop 7 (some (exact (units 5)))
    ∷ record {
      sequence = 3;
      kind = deal_flop;
      street = flop;
      actor_seat = none;
      amount_to_bb = none;
      cards = "As" ∷ "Td" ∷ "2c" ∷ [];
    }
    ∷ act 4 check flop 7 none
    ∷ []

-- Opens all that a run of a hand calls.
unfoldable pub run : PublicHandHistory → Checked ReplayedHandState
unfolding replay_public_hand validate_header header_fields check_seats check_six_max sorted
    starting_stack initial apply_all apply finish_river freeze actor legal_actions legal_for
    minimum_raise_to minimum_for decimal apply_action by_kind require_seat require_action_shape
    amount_to apply_fold apply_check apply_call apply_bet_to apply_raise_to apply_all_in_to
    apply_deal deal_as open_street check_cards repeats settle normalize_round pop_actor
    passive_complete full_aggression short_all_in_aggression pay_to post_forced_bets post_antes
    commit_delta ◌>>=◌ blind_seats next_seat ordered_after walk max_over sum_over
run = replay_public_hand

abbrev flop_state : ReplayedHandState
flop_state = record {
  hand_id = "h1";
  street = flop;
  board = "As" ∷ "Td" ∷ "2c" ∷ [];
  actor_seat = some 1;
  pot_bb = units 11;
  amount_to_call_bb = 0;
  minimum_raise_to_bb = some (units 2);
  stacks = (1, units 195) ∷ (4, units 39) ∷ (7, units 95) ∷ [];
  street_contributions = (1, 0) ∷ (4, 0) ∷ (7, 0) ∷ [];
  total_contributions = (1, units 5) ∷ (4, units 1) ∷ (7, units 5) ∷ [];
  folded = 4 ∷ [];
  all_in = [];
  live_seats = 1 ∷ 7 ∷ [];
  legal_actions = check ∷ bet_to ∷ all_in_to ∷ [];
  round_closed = false;
  terminal = false;
  next_sequence = 5;
}

opening_runs : replay_public_hand (hand opening) ≡ ok flop_state
unfolding run
opening_runs = refl

-- The flop is dealt, and both players check: the round closes.
abbrev checked : List HandEvent
checked = opening ++ (act 5 check flop 1 none ∷ [])

abbrev closed_state : ReplayedHandState
closed_state = record {
  hand_id = "h1";
  street = flop;
  board = "As" ∷ "Td" ∷ "2c" ∷ [];
  actor_seat = none;
  pot_bb = units 11;
  amount_to_call_bb = 0;
  minimum_raise_to_bb = none;
  stacks = (1, units 195) ∷ (4, units 39) ∷ (7, units 95) ∷ [];
  street_contributions = (1, 0) ∷ (4, 0) ∷ (7, 0) ∷ [];
  total_contributions = (1, units 5) ∷ (4, units 1) ∷ (7, units 5) ∷ [];
  folded = 4 ∷ [];
  all_in = [];
  live_seats = 1 ∷ 7 ∷ [];
  legal_actions = [];
  round_closed = true;
  terminal = false;
  next_sequence = 6;
}

checked_runs : replay_public_hand (hand checked) ≡ ok closed_state
unfolding run
checked_runs = refl

-- A player who acts out of turn is refused.
out_of_turn :
    replay_public_hand (hand (act 0 call preflop 7 (some (exact 0)) ∷ [])) ≡ err wrong_actor
unfolding run
out_of_turn = refl

replay_never_asserts_example : is_assertion wrong_actor ≡ false
replay_never_asserts_example =
    replay_never_asserts (hand (act 0 call preflop 7 (some (exact 0)) ∷ [])) wrong_actor out_of_turn

legal_actions_exact_example : (lists raise_to flop_state.legal_actions ≡ true) ↔ (
    (amount : Option Number) × (is_ok
        (replay_public_hand (extend (hand opening) flop_state 1 raise_to amount))
      ≡ true))
legal_actions_exact_example =
    legal_actions_exact (hand opening) flop_state 1 raise_to opening_runs refl (omega arith)

minimum_raise-IsLeast_example : IsLeast (replays_raise (hand opening) flop_state 1) (some (units 2))
minimum_raise-IsLeast_example =
    minimum_raise-IsLeast (hand opening) flop_state 1 opening_runs refl (omega arith)

chips_conserved_example : units 11 + sum_amounts flop_state.stacks ≡ total_start seats
chips_conserved_example = chips_conserved (hand opening) flop_state opening_runs

closed_round_matched_example :
    amount_at 4 closed_state.street_contributions ≤ amount_at 1 closed_state.street_contributions
closed_round_matched_example =
    closed_round_matched (hand checked) closed_state 1 4 checked_runs refl (omega arith) refl refl

actor_can_act_example :
    (elem 1 flop_state.live_seats ≡ true)
    × (elem 1 flop_state.all_in ≡ false)
    × (0 < amount_at 1 flop_state.stacks)
    × (flop_state.round_closed ≡ false)
    × (flop_state.terminal ≡ false)
actor_can_act_example = actor_can_act (hand opening) flop_state 1 opening_runs refl

ordered_after-eq-rotation_example :
    ordered_after (1 ∷ 4 ∷ 7 ∷ []) 4 (λ x. not (x == 7))
    ≡ filter (λ x. not (x == 7)) (7 ∷ 1 ∷ 4 ∷ [])
ordered_after-eq-rotation_example =
    ordered_after-eq-rotation (1 ∷ 4 ∷ 7 ∷ []) 4 (λ x. not (x == 7)) (refl, (refl, (refl, tt)))
      (1 ∷ []) (7 ∷ []) refl
