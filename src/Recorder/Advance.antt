-- ===== src/Recorder/Advance.antt =====
-- gto_event_collector.py: `_deal_event`, `_append` and `_advance`.
use ranges.Prelude.{
  ℕ, ◌+◌, Bool, not, ◌||◌, Option, none, some, List, [], ◌∷◌, ◌++◌, String, ltb, ◌==◌,
  if◌then◌else◌, length, ok, err, raise_if, ◌>>=◌, ◌>>◌, str_eq,
}
use ranges.Hand.Types.{
  HandEvent, PublicHandHistory, Street, preflop, flop, turn, river, other_street, Kind,
}
use ranges.Hand.Actions.{same_street}
use ranges.Hand.Deals.{next_deal}
use ranges.Hand.View.{ReplayedHandState}
use ranges.Hand.Run.{replay_public_hand}
use ranges.Recorder.Observation.{
  Collected, SnapshotObservation, round_not_closed, board_after_river, street_skipped,
  board_changed, wrong_card_count, street_rolled_back, board_not_observed, not_reproduced, bad_hand,
  illegal_event,
}
use ranges.Recorder.Anchor.{CollectorConfig, matches, replayed_or}
use ranges.Recorder.Infer.{infer_action}

-- `cards[len(previous) :]`, where the earlier cards are a prefix.
abbrev pub new_cards : List String → List String → Option (List String)
new_cards [] cards = some cards
new_cards (b ∷ bs) [] = none
new_cards (b ∷ bs) (c ∷ cs) = if str_eq b c then new_cards bs cs else none

abbrev pub deal_with :
    ReplayedHandState → Kind → Street → ℕ → Option (List String) → Collected HandEvent
deal_with replayed kind street count none = err board_changed
deal_with replayed kind street count (some cards) = do
  raise_if (not (length cards == count)) wrong_card_count
  ok (record {
    sequence = replayed.next_sequence;
    kind = kind;
    street = street;
    actor_seat = none;
    amount_to_bb = none;
    cards = cards;
  })

-- `_deal_event`; the dictionary of the streets is that of the replay.
unfoldable pub deal_event : ReplayedHandState → SnapshotObservation → Collected HandEvent
deal_event replayed s = do
  raise_if (not replayed.round_closed) round_not_closed
  elim (next_deal replayed.street) [
    | none ↦ err board_after_river
    | some (kind, street, count) ↦ do
      raise_if (not (same_street s.street street)) street_skipped
      deal_with replayed kind street count (new_cards replayed.board s.board)
  ]

abbrev pub with_event : PublicHandHistory → HandEvent → PublicHandHistory
with_event history event = record history { events = history.events ++ event ∷ [] }

-- `_append`
unfoldable pub append_event :
    PublicHandHistory → HandEvent → Collected (PublicHandHistory × ReplayedHandState)
append_event history event = do
  replayed ← replayed_or illegal_event (replay_public_hand (with_event history event))
  ok (with_event history event, replayed)

-- `_STREET_INDEX`
abbrev pub street_index : Street → ℕ
street_index preflop = 0
street_index flop = 1
street_index turn = 2
street_index river = 3
street_index other_street = 4

abbrev pub Progress : Type 0
Progress = PublicHandHistory × ReplayedHandState

-- The action of `_advance`, if the round is open.
unfoldable pub advance_action :
    CollectorConfig
    → PublicHandHistory
    → ReplayedHandState
    → SnapshotObservation
    → Bool
    → Collected Progress
advance_action c history replayed s street_advanced =
    if replayed.round_closed
    then (do raise_if (not street_advanced) board_not_observed; ok (history, replayed))
    else (do event ← infer_action c replayed s street_advanced; append_event history event)

-- The deal of `_advance`, if the street advanced.
unfoldable pub advance_deal : Bool → SnapshotObservation → Progress → Collected Progress
advance_deal street_advanced s progress =
    if street_advanced
    then (do deal ← deal_event progress.1 s; append_event progress.0 deal)
    else ok progress

unfoldable pub advance :
    CollectorConfig → PublicHandHistory → SnapshotObservation → Collected PublicHandHistory
advance c history s = do
  replayed ← replayed_or bad_hand (replay_public_hand history)
  let current_index = street_index replayed.street
  let observed_index = street_index s.street
  raise_if (ltb observed_index current_index || ltb (current_index + 1) observed_index)
      street_rolled_back
  let street_advanced = observed_index == current_index + 1
  acted ← advance_action c history replayed s street_advanced
  dealt ← advance_deal street_advanced s acted
  raise_if (not (matches c dealt.1 s)) not_reproduced
  ok dealt.0
