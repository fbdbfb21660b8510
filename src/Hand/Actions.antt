-- ===== src/Hand/Actions.antt =====
-- gto_hand_history.py: `_require_action_shape`, `_amount_to` and `_apply_action`, one function for
-- each kind of action.
use ranges.Prelude.{
  ℕ, ◌+◌, ◌-◌, min, Bool, true, false, Option, none, some, ltb, leb, ◌==◌, ◌||◌, not, if◌then◌else◌,
  ok, err, raise_if, ◌>>=◌, ◌>>◌, add, same_option, is_empty,
}
use ranges.Hand.Types.{
  Checked, Number, decimal, HandEvent, Street, preflop, flop, turn, river, other_street, Kind, fold,
  check, call, bet_to, raise_to, all_in_to, after_end, action_after_close, wrong_street,
  action_with_cards, wrong_actor, amount_missing, amount_not_allowed, fold_when_free,
  check_when_facing, call_without_wager, wrong_call_amount, bet_on_open_street, bet_outside_stack,
  bet_below_big_blind, raise_without_wager, not_reopened, raise_outside_stack, below_minimum_raise,
  not_full_stack, already_all_in, wrong_all_in_call, all_in_not_reopened, unsupported_action,
  assertion_actor, assertion_facing,
}
use ranges.Hand.Header.{Table}
use ranges.Hand.Machine.{
  Replay, Action, actor, passive_complete, full_aggression, short_all_in_aggression, pay_to,
}

-- `event.street in STREETS`
abbrev pub is_street : Street → Bool
is_street other_street = false
is_street _ = true

abbrev pub same_street : Street → Street → Bool
same_street preflop preflop = true
same_street flop flop = true
same_street turn turn = true
same_street river river = true
same_street _ _ = false

-- The two last lines of `_require_action_shape`.
unfoldable pub require_seat : Option ℕ → Checked ℕ
require_seat none = err assertion_actor
require_seat (some seat) = ok seat

unfoldable pub require_action_shape : HandEvent → Replay → Checked ℕ
unfolding actor
require_action_shape event r = do
  raise_if r.terminal after_end
  raise_if r.round_closed action_after_close
  raise_if (not (same_street event.street r.street)) wrong_street
  raise_if (not (is_empty event.cards)) action_with_cards
  raise_if (not (same_option event.actor_seat (actor r))) wrong_actor
  require_seat event.actor_seat

-- `_amount_to`
unfoldable pub amount_to : Option Number → Checked ℕ
unfolding decimal
amount_to none = err amount_missing
amount_to (some n) = decimal true n

-- `event.amount_to_bb is not None`
abbrev pub is_some : Option Number → Bool
is_some none = false
is_some (some n) = true

-- The arguments are the variables of `_apply_action`: the table, the actor and what it faces.
unfoldable pub apply_fold : Table → ℕ → ℕ → Option Number → Action
apply_fold t seat facing amount r = do
  raise_if (is_some amount) amount_not_allowed
  raise_if (facing == 0) fold_when_free
  passive_complete t seat (record r { folded = add seat r.folded })

unfoldable pub apply_check : Table → ℕ → ℕ → Option Number → Action
apply_check t seat facing amount r = do
  raise_if (is_some amount) amount_not_allowed
  raise_if (not (facing == 0)) check_when_facing
  passive_complete t seat r

unfoldable pub apply_call : Table → ℕ → ℕ → Option Number → Action
apply_call t seat facing amount r = do
  target ← amount_to amount
  raise_if (facing == 0) call_without_wager
  let expected = min r.highest (r.street_contribution seat + r.remaining seat)
  raise_if (not (target == expected)) wrong_call_amount
  paid ← pay_to seat target r
  passive_complete t seat paid

unfoldable pub apply_bet_to : Table → ℕ → ℕ → Option Number → Action
apply_bet_to t seat facing amount r = do
  target ← amount_to amount
  let current = r.street_contribution seat
  let max_target = current + r.remaining seat
  raise_if (not (r.highest == 0)) bet_on_open_street
  raise_if (leb target current || ltb max_target target) bet_outside_stack
  raise_if (ltb (target - current) t.big_blind) bet_below_big_blind
  paid ← pay_to seat target r
  ok (full_aggression t seat target (record paid { highest = target }))

unfoldable pub apply_raise_to : Table → ℕ → ℕ → Option Number → Action
apply_raise_to t seat facing amount r = do
  target ← amount_to amount
  let max_target = r.street_contribution seat + r.remaining seat
  raise_if (r.highest == 0) raise_without_wager
  raise_if (r.acted_since_full_raise seat) not_reopened
  raise_if (leb target r.highest || ltb max_target target) raise_outside_stack
  let raise_size = target - r.highest
  raise_if (ltb raise_size r.last_full_raise) below_minimum_raise
  paid ← pay_to seat target r
  ok (full_aggression t seat raise_size (record paid { highest = target }))

-- The last lines of an all-in raise: full, or short of the minimum.
unfoldable pub all_in_raise : Table → ℕ → ℕ → Action
all_in_raise t seat target r = do
  let raise_size = target - r.highest
  paid ← pay_to seat target r
  let raised = record paid { highest = target }
  ok (
      if leb raised.last_full_raise raise_size
      then full_aggression t seat raise_size raised
      else short_all_in_aggression t seat raised)

-- An all-in for no more than the high bet.
unfoldable pub all_in_call : Table → ℕ → ℕ → Action
all_in_call t seat target r = do
  let expected = min r.highest (r.street_contribution seat + r.remaining seat)
  raise_if (not (target == expected)) wrong_all_in_call
  paid ← pay_to seat target r
  passive_complete t seat paid

-- An all-in for more than the high bet.
unfoldable pub all_in_over : Table → ℕ → ℕ → Action
unfolding all_in_raise
all_in_over t seat target r = do
  raise_if (r.acted_since_full_raise seat) all_in_not_reopened
  all_in_raise t seat target r

unfoldable pub apply_all_in_to : Table → ℕ → ℕ → Option Number → Action
unfolding all_in_call all_in_over
apply_all_in_to t seat facing amount r = do
  target ← amount_to amount
  let current = r.street_contribution seat
  let max_target = current + r.remaining seat
  raise_if (not (target == max_target)) not_full_stack
  raise_if (leb target current) already_all_in
  if leb target r.highest then all_in_call t seat target r else all_in_over t seat target r

-- The branches of `_apply_action` on the kind of the event.
unfoldable pub by_kind : Kind → Table → ℕ → ℕ → Option Number → Action
by_kind fold t seat facing amount r = apply_fold t seat facing amount r
by_kind check t seat facing amount r = apply_check t seat facing amount r
by_kind call t seat facing amount r = apply_call t seat facing amount r
by_kind bet_to t seat facing amount r = apply_bet_to t seat facing amount r
by_kind raise_to t seat facing amount r = apply_raise_to t seat facing amount r
by_kind all_in_to t seat facing amount r = apply_all_in_to t seat facing amount r
by_kind _ t seat facing amount r = do amount_to amount; err unsupported_action

unfoldable pub apply_action : Table → HandEvent → Action
apply_action t event r = do
  seat ← require_action_shape event r
  raise_if (ltb r.highest (r.street_contribution seat)) assertion_facing
  by_kind event.kind t seat (r.highest - r.street_contribution seat) event.amount_to_bb r
