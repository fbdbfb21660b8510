-- ===== src/Hand/Types.antt =====
-- gto_hand_history.py: the dataclasses `HandSeat`, `HandEvent` and `PublicHandHistory`, the closed
-- sets of words, the errors, and `_decimal`.
use ranges.Prelude.{
  ℕ, ◌*◌, ◌^◌, Bool, Option, List, String, ltb, ◌==◌, ◌&&◌, not, if◌then◌else◌, Result, ok, err,
}

-- The words of `STREETS`; `other_street` is any other string.
pub data Street : Type 0 where
  preflop flop turn river other_street : Street

-- The words of `EVENT_KINDS`; `other_kind` is any other string.
pub data Kind : Type 0 where
  fold check call bet_to raise_to all_in_to deal_flop deal_turn deal_river other_kind : Kind

-- One constructor for each `raise`, the failing assertions last.
pub data HandError : Type 0 where
  not_exact not_a_decimal not_finite bad_sign over_bound : HandError
  bad_variant bad_hand_id bad_seat_count bad_seat_id bad_position button_not_occupied : HandError
  bad_six_max bad_seat_order blind_order bad_rake_rate too_many_events : HandError
  after_end action_after_close wrong_street action_with_cards wrong_actor : HandError
  amount_missing amount_not_allowed below_current above_stack : HandError
  fold_when_free check_when_facing call_without_wager wrong_call_amount : HandError
  bet_on_open_street bet_outside_stack bet_below_big_blind : HandError
  raise_without_wager not_reopened raise_outside_stack below_minimum_raise : HandError
  not_full_stack already_all_in wrong_all_in_call all_in_not_reopened unsupported_action : HandError
  deal_with_actor deal_before_close deal_after_end deal_after_river wrong_deal wrong_card_count :
      HandError
  bad_card repeated_card wrong_sequence bad_kind bad_street : HandError
  assertion_actor assertion_pending assertion_facing : HandError

abbrev pub Checked : Type 0 → Type 0
Checked A = Result HandError A

-- A Python value given as an amount. Decimals are counted in units of 10⁻²⁰ big blinds, so that
-- sums of amounts within the bound are exact in the 28 digits of the context of `decimal`:
-- `exact n` is n units, `below_zero n` is -(n + 1) units; `inexact` is a float or a Boolean.
pub data Number : Type 0 where
  inexact malformed infinite : Number
  exact below_zero : ℕ → Number

-- 1 big blind, in units.
abbrev pub one_bb : ℕ
one_bb = 10 ^ 20

abbrev pub max_abs_bb : ℕ
max_abs_bb = 10000000 * one_bb

-- `_decimal`, with `allow_zero` first.
unfoldable pub decimal : Bool → Number → Checked ℕ
decimal allow_zero inexact = err not_exact
decimal allow_zero malformed = err not_a_decimal
decimal allow_zero infinite = err not_finite
decimal allow_zero (below_zero n) = err bad_sign
decimal allow_zero (exact n) =
    if not allow_zero && (n == 0)
    then err bad_sign
    else if ltb max_abs_bb n
    then err over_bound
    else ok n

pub record HandSeat : Type 0 where
  pub seat : ℕ
  pub position : String
  pub starting_stack_bb : Number

pub record HandEvent : Type 0 where
  pub sequence : ℕ
  pub kind : Kind
  pub street : Street
  pub actor_seat : Option ℕ
  pub amount_to_bb : Option Number
  pub cards : List String

pub record PublicHandHistory : Type 0 where
  pub hand_id : String
  pub button_seat : ℕ
  pub small_blind_bb : Number
  pub big_blind_bb : Number
  pub ante_bb : Number
  pub rake_rate_pct : Number
  pub rake_cap_bb : Number
  pub seats : List HandSeat
  pub events : List HandEvent
  pub variant : String
