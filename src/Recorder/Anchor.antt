-- ===== src/Recorder/Anchor.antt =====
-- gto_event_collector.py: the configuration, `_initial_history` and `_matches`. Amounts are in the
-- unit of Hand, in which sums of observed amounts are exact too.
use ranges.Prelude.{
  ℕ, ◌*◌, ◌+◌, ◌/◌, Bool, true, false, not, ◌&&◌, ◌||◌, Option, none, some, List, [], ◌∷◌, String,
  ltb, leb, ◌==◌, if◌then◌else◌, map, elem, is_empty, str_eq, ok, err, raise_if, ◌>>=◌, ◌>>◌,
}
use ranges.Hand.Types.{HandError, Checked, HandSeat, PublicHandHistory, preflop, exact, one_bb}
use ranges.Hand.Actions.{same_street}
use ranges.Hand.View.{ReplayedHandState}
use ranges.Hand.Run.{replay_public_hand}
use ranges.Recorder.Observation.{
  CollectionError, Collected, VisibleAction, no_action, PlayerStatus, folded, all_in_status,
  PlayerObservation, SnapshotObservation, bad_blinds, bad_rake, bad_tolerance, not_preflop,
  voluntary_action, not_untouched, bad_hand, seats_of,
}

-- `PublicEventCollectorConfig`; the decimals are not negative.
pub record CollectorConfig : Type 0 where
  pub small_blind_bb : ℕ
  pub big_blind_bb : ℕ
  pub ante_bb : ℕ
  pub rake_rate_pct : ℕ
  pub rake_cap_bb : ℕ
  pub amount_tolerance_bb : ℕ

-- `__post_init__`
unfoldable pub check_config : CollectorConfig → Collected CollectorConfig
check_config c = do
  raise_if (c.small_blind_bb == 0 || c.big_blind_bb == 0 || ltb c.big_blind_bb c.small_blind_bb)
      bad_blinds
  raise_if (ltb (100 * one_bb) c.rake_rate_pct) bad_rake
  raise_if (ltb (one_bb / 2) c.amount_tolerance_bb) bad_tolerance
  ok c

-- `_close`
abbrev pub close : ℕ → ℕ → ℕ → Bool
close left right tolerance = leb left (right + tolerance) && leb right (left + tolerance)

-- `d[seat]` on the pairs of a replayed state, whose keys are the seats of the table.
unfoldable pub at_seat : List (ℕ × ℕ) → ℕ → ℕ
at_seat [] seat = 0
at_seat ((k, v) ∷ rest) seat = if k == seat then v else at_seat rest seat

-- `player_map.get(seat)`
unfoldable pub player_at : ℕ → List PlayerObservation → Option PlayerObservation
player_at seat [] = none
player_at seat (p ∷ ps) = if p.seat == seat then some p else player_at seat ps

abbrev pub keys : List (ℕ × ℕ) → List ℕ
keys pairs = map (λ (p : ℕ × ℕ). p.0) pairs

unfoldable pub all_in_list : List ℕ → List ℕ → Bool
all_in_list [] ys = true
all_in_list (x ∷ xs) ys = elem x ys && all_in_list xs ys

abbrev pub is_folded : PlayerStatus → Bool
is_folded folded = true
is_folded _ = false

abbrev pub is_all_in : PlayerStatus → Bool
is_all_in all_in_status = true
is_all_in _ = false

abbrev pub same_bool : Bool → Bool → Bool
same_bool true b = b
same_bool false b = not b

-- The tests of one player.
unfoldable pub player_matches : ℕ → ReplayedHandState → PlayerObservation → Bool
unfolding at_seat
player_matches tolerance replayed p =
    close (at_seat replayed.stacks p.seat) p.stack tolerance
    && close (at_seat replayed.street_contributions p.seat) p.current_bet tolerance
    && same_bool (elem p.seat replayed.folded) (is_folded p.status)
    && same_bool (elem p.seat replayed.all_in) (is_all_in p.status)

unfoldable pub players_match : ℕ → ReplayedHandState → List PlayerObservation → Bool
unfolding player_matches
players_match tolerance replayed [] = true
players_match tolerance replayed (p ∷ ps) =
    player_matches tolerance replayed p && players_match tolerance replayed ps

-- Equality of two lists of cards.
abbrev pub same_cards : List String → List String → Bool
same_cards [] [] = true
same_cards (c ∷ cs) (d ∷ ds) = str_eq c d && same_cards cs ds
same_cards _ _ = false

-- The observed actor, where one was seen, is the one to act.
abbrev pub actor_matches : Option ℕ → Option ℕ → Bool
actor_matches none actor = true
actor_matches (some seat) none = false
actor_matches (some seat) (some x) = x == seat

-- `_matches`
unfoldable pub matches : CollectorConfig → ReplayedHandState → SnapshotObservation → Bool
unfolding players_match all_in_list
matches c replayed s =
    str_eq replayed.hand_id s.hand_id
    && same_street replayed.street s.street
    && same_cards replayed.board s.board
    && all_in_list (seats_of s.players) (keys replayed.stacks)
    && all_in_list (keys replayed.stacks) (seats_of s.players)
    && actor_matches s.action_on_seat replayed.actor_seat
    && players_match c.amount_tolerance_bb replayed s.players
    && close replayed.pot_bb s.pot c.amount_tolerance_bb

abbrev pub has_action : VisibleAction → Bool
has_action no_action = false
has_action _ = true

unfoldable pub any_action : List PlayerObservation → Bool
any_action [] = false
any_action (p ∷ ps) = has_action p.visible_action || any_action ps

-- An error of the replay, where the recorder does not turn it into one of its own.
abbrev pub replayed_or : {A : Type 0} → (HandError → CollectionError) → Checked A → Collected A
replayed_or f (ok a) = ok a
replayed_or f (err e) = err (f e)

-- The transcript that `_initial_history` replays.
abbrev pub anchor_history : CollectorConfig → SnapshotObservation → PublicHandHistory
anchor_history c s = record {
  hand_id = s.hand_id;
  button_seat = s.dealer_seat;
  small_blind_bb = exact c.small_blind_bb;
  big_blind_bb = exact c.big_blind_bb;
  ante_bb = exact c.ante_bb;
  rake_rate_pct = exact c.rake_rate_pct;
  rake_cap_bb = exact c.rake_cap_bb;
  seats =
      map
        (λ (p : PlayerObservation).
          let seat : HandSeat = record {
            seat = p.seat;
            position = p.position;
            starting_stack_bb = exact (p.stack + p.current_bet + c.ante_bb);
          } in
          seat)
        s.players;
  events = [];
  variant = "NLHE";
}

-- `_initial_history`
unfoldable pub initial_history : CollectorConfig → SnapshotObservation → Collected PublicHandHistory
unfolding any_action
initial_history c s = do
  raise_if (not (same_street s.street preflop) || not (is_empty s.board)) not_preflop
  raise_if (any_action s.players) voluntary_action
  let history = anchor_history c s
  replayed ← replayed_or bad_hand (replay_public_hand history)
  raise_if (not (matches c replayed s)) not_untouched
  ok history
