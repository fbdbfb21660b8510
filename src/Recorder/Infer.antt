-- ===== src/Recorder/Infer.antt =====
-- gto_event_collector.py: `_new_explicit_action`, `_infer_action`.
use ranges.Prelude.{
  ℕ, ◌+◌, ◌-◌, Bool, true, false, not, ◌&&◌, ◌||◌, Option, none, some, List, [], ◌∷◌, ltb, leb,
  ◌==◌, if◌then◌else◌, ok, err, raise_if, ◌>>=◌, ◌>>◌, max, min,
}
use ranges.Hand.Types.{
  HandEvent, PublicHandHistory, Street, preflop, flop, turn, river, other_street, Kind, exact,
}
use ranges.Hand.Types
use ranges.Hand.View.{ReplayedHandState}
use ranges.Recorder.Observation.{
  Collected, VisibleAction, check, call, fold, all_in, no_action, PlayerObservation,
  SnapshotObservation, no_actor, actor_disappeared, stack_increased, not_one_action, nothing_proven,
  round_not_closed, board_after_river, street_skipped, board_changed, wrong_card_count,
  street_rolled_back, board_not_observed, not_reproduced, bad_hand, illegal_event,
}
use ranges.Recorder.Observation
use ranges.Recorder.Anchor.{
  CollectorConfig, close, at_seat, player_at, is_folded, is_all_in, has_action,
}

abbrev pub same_action : VisibleAction → VisibleAction → Bool
same_action Observation.no_action Observation.no_action = true
same_action Observation.raise Observation.raise = true
same_action Observation.bet Observation.bet = true
same_action Observation.call Observation.call = true
same_action Observation.check Observation.check = true
same_action Observation.fold Observation.fold = true
same_action Observation.all_in Observation.all_in = true
same_action _ _ = false

abbrev pub action_of : Option PlayerObservation → VisibleAction
action_of none = no_action
action_of (some p) = p.visible_action

-- The action of the actor is another than in the last observation, or the first.
abbrev pub is_news : VisibleAction → ℕ → Option SnapshotObservation → Bool
is_news current seat none = true
is_news current seat (some last) = elim (player_at seat last.players) [
  | none ↦ true
  | some previous ↦ not (same_action previous.visible_action current)
]

-- `_new_explicit_action`
unfoldable pub new_explicit_action :
    Option ℕ → Option SnapshotObservation → SnapshotObservation → Bool
new_explicit_action none last s = false
new_explicit_action (some seat) last s =
    let current = action_of (player_at seat s.players) in
    has_action current && is_news current seat last

-- `max(..., default=0)` of the values of a dictionary.
unfoldable pub highest_of : List (ℕ × ℕ) → ℕ
highest_of [] = 0
highest_of ((k, v) ∷ rest) = max v (highest_of rest)

abbrev pub event_of : ReplayedHandState → ℕ → Kind → Option ℕ → HandEvent
event_of replayed seat kind target = record {
  sequence = replayed.next_sequence;
  kind = kind;
  street = replayed.street;
  actor_seat = some seat;
  amount_to_bb = elim target [ none ↦ none | some n ↦ some (exact n) ];
  cards = [];
}

-- The amount that the actor has put in on this street.
unfoldable pub target_of : Bool → ℕ → ℕ → ℕ → PlayerObservation → Collected ℕ
target_of street_advanced tolerance previous_stack previous_target p =
    if street_advanced
    then (do
      raise_if (ltb (previous_stack + tolerance) p.stack) stack_increased
      ok (previous_target + (previous_stack - p.stack)))
    else (do
      raise_if
          (ltb (p.current_bet + tolerance) previous_target
            || not (close (previous_stack + previous_target) (p.current_bet + p.stack) tolerance))
          not_one_action
      ok p.current_bet)

-- The kind of an action that put chips in, and its amount.
abbrev pub paid_action : Bool → ℕ → ℕ → ℕ → Kind × ℕ
paid_action is_all_in highest tolerance target =
    if is_all_in
    then (Types.all_in_to, target)
    else if leb target (highest + tolerance)
    then (Types.call, min target highest)
    else if highest == 0
    then (Types.bet_to, target)
    else (Types.raise_to, target)

abbrev pub is_check_or_call : VisibleAction → Bool
is_check_or_call Observation.check = true
is_check_or_call Observation.call = true
is_check_or_call _ = false

abbrev pub is_fold : VisibleAction → Bool
is_fold Observation.fold = true
is_fold _ = false

abbrev pub is_shove : VisibleAction → Bool
is_shove Observation.all_in = true
is_shove _ = false

-- Another seat than the actor's is seen to act.
abbrev pub has_moved : ℕ → Option ℕ → Bool
has_moved seat none = false
has_moved seat (some x) = not (x == seat)

-- The event of an amount: chips that were put in, or a check.
unfoldable pub event_for :
    CollectorConfig
    → ReplayedHandState
    → SnapshotObservation
    → ℕ
    → PlayerObservation
    → ℕ
    → Collected HandEvent
unfolding highest_of at_seat
event_for c replayed s seat p target =
    let tolerance = c.amount_tolerance_bb in
    let previous_target = at_seat replayed.street_contributions seat in
    let highest = highest_of replayed.street_contributions in
    let is_shoved = is_all_in p.status || leb p.stack tolerance || is_shove p.visible_action in
    let paid = paid_action is_shoved highest tolerance target in
    let may_check = is_check_or_call p.visible_action || has_moved seat s.action_on_seat in
    if ltb (previous_target + tolerance) target
    then ok (event_of replayed seat paid.0 (some paid.1))
    else if leb (highest - previous_target) tolerance && may_check
    then ok (event_of replayed seat Types.check none)
    else err nothing_proven

-- `_infer_action` behind the lookups of the actor.
unfoldable pub infer_for :
    CollectorConfig
    → ReplayedHandState
    → SnapshotObservation
    → Bool
    → ℕ
    → PlayerObservation
    → Collected HandEvent
unfolding target_of at_seat
infer_for c replayed s street_advanced seat p =
    if is_folded p.status || is_fold p.visible_action
    then ok (event_of replayed seat Types.fold none)
    else target_of street_advanced c.amount_tolerance_bb (at_seat replayed.stacks seat)
        (at_seat replayed.street_contributions seat) p
      >>= λ target. event_for c replayed s seat p target

unfoldable pub infer_action :
    CollectorConfig → ReplayedHandState → SnapshotObservation → Bool → Collected HandEvent
infer_action c replayed s street_advanced = elim replayed.actor_seat [
  | none ↦ err no_actor
  | some seat ↦ elim (player_at seat s.players) [
    | none ↦ err actor_disappeared
    | some p ↦ infer_for c replayed s street_advanced seat p
  ]
]
