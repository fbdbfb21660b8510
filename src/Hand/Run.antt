-- ===== src/Hand/Run.antt =====
-- gto_hand_history.py: `apply`, `__init__` and `replay_public_hand`.
use ranges.Prelude.{
  ℕ, ◌+◌, Bool, true, false, List, [], ◌∷◌, ◌==◌, ◌&&◌, ◌||◌, not, if◌then◌else◌, ok, raise_if,
  ◌>>=◌, ◌>>◌, length, empty_set,
}
use ranges.Hand.Types.{
  Checked, Number, HandSeat, HandEvent, PublicHandHistory, preflop, river, Kind, deal_flop,
  deal_turn, deal_river, other_kind, wrong_sequence, bad_kind, bad_street,
}
use ranges.Hand.Seating.{blind_seats, ordered_after}
use ranges.Hand.Header.{Table, validate_header}
use ranges.Hand.Machine.{Replay, Action, eligible, post_forced_bets, normalize_round}
use ranges.Hand.Actions.{is_street, same_street, apply_action}
use ranges.Hand.Deals.{apply_deal}
use ranges.Hand.View.{ReplayedHandState, freeze}

-- `event.kind in ACTION_KINDS`, `event.kind in EVENT_KINDS`, `event.street in STREETS`
abbrev pub is_deal : Kind → Bool
is_deal deal_flop = true
is_deal deal_turn = true
is_deal deal_river = true
is_deal _ = false

abbrev pub is_other_kind : Kind → Bool
is_other_kind other_kind = true
is_other_kind _ = false

-- The last two lines of `apply`.
unfoldable pub finish_river : Replay → Replay
finish_river r = record r {
  terminal = r.terminal || (same_street r.street river && r.round_closed);
}

unfoldable pub apply : Table → HandEvent → ℕ → Action
apply t event expected_sequence r = do
  raise_if (not (event.sequence == expected_sequence)) wrong_sequence
  raise_if (is_other_kind event.kind) bad_kind
  raise_if (not (is_street event.street)) bad_street
  next ← if is_deal event.kind then apply_deal t event r else apply_action t event r
  ok (finish_river next)

unfoldable pub amount_of : Number → ℕ
amount_of (Number.exact n) = n
amount_of _ = 0

-- The starting stack of a seat, which the header check has found valid.
unfoldable pub starting_stack : List HandSeat → ℕ → ℕ
unfolding amount_of
starting_stack [] x = 0
starting_stack (s ∷ rest) x =
    if x == s.seat then amount_of s.starting_stack_bb else starting_stack rest x

abbrev pub before_blinds : Table → (ℕ → ℕ) → Replay
before_blinds t stacks = record {
  remaining = stacks;
  street_contribution = λ _. 0;
  total_contribution = λ _. 0;
  folded = empty_set;
  all_in = empty_set;
  board = [];
  street = preflop;
  highest = 0;
  last_full_raise = t.big_blind;
  acted_since_full_raise = empty_set;
  pending = [];
  round_closed = false;
  terminal = false;
}

-- `_Replay.__init__` behind the header check.
unfoldable pub initial : Table → (ℕ → ℕ) → Replay
initial t stacks =
    let posted = post_forced_bets t (before_blinds t stacks) in
    let (small, big) = blind_seats t.ordered_seats t.button_seat in
    normalize_round t
      (record posted { pending = ordered_after t.ordered_seats big (eligible t posted) })

unfoldable pub apply_all : Table → List HandEvent → ℕ → Action
apply_all t [] index r = ok r
apply_all t (e ∷ rest) index r = do r' ← apply t e index r; apply_all t rest (index + 1) r'

unfoldable pub replay_public_hand : PublicHandHistory → Checked ReplayedHandState
replay_public_hand history = do
  t ← validate_header history
  r ← apply_all t history.events 0 (initial t (starting_stack history.seats))
  ok (freeze history.hand_id t (length history.events) r)
