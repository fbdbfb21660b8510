-- ===== src/Recorder/Observation.antt =====
-- gto_event_collector.py: the errors, the configuration and `_snapshot`, which checks one
-- observation of the table. Texts are given trimmed and words in upper case, seats as numbers, and
-- the overlay of a player as the word that `_canonical_action` finds in it.
use ranges.Prelude.{
  ℕ, Bool, true, false, not, ◌&&◌, ◌||◌, Option, none, some, List, [], ◌∷◌, String, ltb, ◌==◌,
  if◌then◌else◌, map, length, elem, str_eq, str_elem, Result, ok, err, raise_if, ◌>>=◌, ◌>>◌,
}
use ranges.Hand.Types.{HandError, Street, preflop, flop, turn, river, other_street}

-- The `PublicEventCollectionError`s, by the place that raises them; `capture_gap` is the error that
-- `invalidate_gap` leaves behind, and `bad_hand` an error of the replay.
pub data CollectionError : Type 0 where
  bad_amount bad_blinds bad_rake bad_tolerance : CollectionError
  no_hand_id bad_street bad_board bad_status bad_player_count repeated_seat repeated_position :
      CollectionError
  dealer_not_occupied dealer_flag_disagrees : CollectionError
  not_preflop voluntary_action not_untouched : CollectionError
  no_actor actor_disappeared stack_increased not_one_action nothing_proven : CollectionError
  round_not_closed board_after_river street_skipped board_changed wrong_card_count : CollectionError
  street_rolled_back board_not_observed not_reproduced empty_reason : CollectionError
  foreign_probe rejected_probe stale_probe : CollectionError
  capture_gap : String → CollectionError
  bad_hand illegal_event : HandError → CollectionError

abbrev pub Collected : Type 0 → Type 0
Collected A = Result CollectionError A

-- `_decimal`: a finite decimal that is not negative, in the unit of Hand; `none` is any other value.
abbrev pub amount : Option ℕ → Collected ℕ
amount none = err bad_amount
amount (some n) = ok n

-- `_PlayerObservation.visible_action` and the occupied words of `status`.
pub data VisibleAction : Type 0 where
  no_action raise bet call check fold all_in : VisibleAction

pub data PlayerStatus : Type 0 where
  active folded all_in_status empty sitting_out other_status : PlayerStatus

abbrev pub is_occupied : PlayerStatus → Bool
is_occupied active = true
is_occupied folded = true
is_occupied all_in_status = true
is_occupied _ = false

abbrev pub is_absent : PlayerStatus → Bool
is_absent empty = true
is_absent sitting_out = true
is_absent _ = false

-- `_canonical_position` of a trimmed word in upper case.
unfoldable pub canonical_position : String → String
canonical_position position = if str_eq position "MP" then "HJ" else position

-- What the decoder gives, with the amounts as they were read.
pub record RawPlayer : Type 0 where
  pub seat : ℕ
  pub position : String
  pub stack : Option ℕ
  pub current_bet : Option ℕ
  pub status : PlayerStatus
  pub visible_action : VisibleAction
  pub is_dealer : Bool

pub record RawSnapshot : Type 0 where
  pub hand_id : String
  pub street : Street
  pub board : List String
  pub pot : Option ℕ
  pub dealer_seat : ℕ
  pub action_on_seat : Option ℕ
  pub players : List RawPlayer

pub record PlayerObservation : Type 0 where
  pub seat : ℕ
  pub position : String
  pub stack : ℕ
  pub current_bet : ℕ
  pub status : PlayerStatus
  pub visible_action : VisibleAction
  pub is_dealer : Bool

-- A negative `action_on_seat` is `none`.
pub record SnapshotObservation : Type 0 where
  pub hand_id : String
  pub street : Street
  pub board : List String
  pub pot : ℕ
  pub dealer_seat : ℕ
  pub action_on_seat : Option ℕ
  pub players : List PlayerObservation

-- `expected_board`
abbrev pub board_size : Street → Option ℕ
board_size preflop = some 0
board_size flop = some 3
board_size turn = some 4
board_size river = some 5
board_size other_street = none

unfoldable pub check_board : Option ℕ → List String → Collected (Unit {0})
check_board none board = err bad_street
check_board (some n) board = raise_if (not (length board == n)) bad_board

-- The loop over the players: absent seats are skipped, the others are read or refused.
unfoldable pub read_players : List RawPlayer → Collected (List PlayerObservation)
unfolding canonical_position
read_players [] = ok []
read_players (p ∷ ps) =
    let rest = read_players ps in
    if is_absent p.status then rest else do
      raise_if (not (is_occupied p.status)) bad_status
      stack ← amount p.stack
      current_bet ← amount p.current_bet
      others ← rest
      ok (
          record {
            seat = p.seat;
            position = canonical_position p.position;
            stack = stack;
            current_bet = current_bet;
            status = p.status;
            visible_action = p.visible_action;
            is_dealer = p.is_dealer;
          }
          ∷ others)

abbrev pub seats_of : List PlayerObservation → List ℕ
seats_of ps = map (λ (p : PlayerObservation). p.seat) ps

unfoldable pub has_repeat : List ℕ → Bool
has_repeat [] = false
has_repeat (x ∷ xs) = elem x xs || has_repeat xs

unfoldable pub has_repeated_text : List String → Bool
has_repeated_text [] = false
has_repeated_text (x ∷ xs) = str_elem x xs || has_repeated_text xs

-- The dealer flags, if any is set, name the dealer's seat.
unfoldable pub flags_agree : ℕ → List PlayerObservation → Bool
flags_agree dealer [] = true
flags_agree dealer (p ∷ ps) = (not p.is_dealer || p.seat == dealer) && flags_agree dealer ps

-- `sorted(players, key=seat)`
unfoldable pub insert_player : PlayerObservation → List PlayerObservation → List PlayerObservation
insert_player p [] = p ∷ []
insert_player p (q ∷ qs) = if ltb q.seat p.seat then q ∷ insert_player p qs else p ∷ q ∷ qs

unfoldable pub sort_players : List PlayerObservation → List PlayerObservation
unfolding insert_player
sort_players [] = []
sort_players (p ∷ ps) = insert_player p (sort_players ps)

-- `_snapshot`
unfoldable pub read_snapshot : RawSnapshot → Collected SnapshotObservation
unfolding check_board read_players has_repeat has_repeated_text flags_agree sort_players
read_snapshot raw = do
  raise_if (str_eq raw.hand_id "") no_hand_id
  check_board (board_size raw.street) raw.board
  pot ← amount raw.pot
  players ← read_players raw.players
  raise_if (ltb (length players) 2 || ltb 6 (length players)) bad_player_count
  raise_if (has_repeat (seats_of players)) repeated_seat
  raise_if (has_repeated_text (map (λ (p : PlayerObservation). p.position) players))
      repeated_position
  raise_if (not (elem raw.dealer_seat (seats_of players))) dealer_not_occupied
  raise_if (not (flags_agree raw.dealer_seat players)) dealer_flag_disagrees
  ok (record {
    hand_id = raw.hand_id;
    street = raw.street;
    board = raw.board;
    pot = pot;
    dealer_seat = raw.dealer_seat;
    action_on_seat = raw.action_on_seat;
    players = sort_players players;
  })
