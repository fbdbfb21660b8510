-- ===== src/Hand/Header.antt =====
-- gto_hand_history.py: `_Replay._validate_header`, which the replay of a hand starts with.
use Prim.Native.String.{len}
use ranges.Prelude.{
  ℕ, zero, suc, ◌*◌, Bool, true, false, List, [], ◌∷◌, ◌++◌, String, ltb, leb, ◌==◌, ◌&&◌, ◌||◌,
  not, if◌then◌else◌, ok, raise_if, ◌>>=◌, ◌>>◌, map, length, elem, codes, str_eq, str_elem,
}
use ranges.Hand.Types.{
  Checked, HandSeat, PublicHandHistory, decimal, one_bb, bad_variant, bad_hand_id, bad_seat_count,
  bad_seat_id, bad_position, button_not_occupied, bad_six_max, bad_seat_order, blind_order,
  bad_rake_rate, too_many_events,
}
use ranges.Hand.Seating.{sorted, index}

abbrev pub max_events : ℕ
max_events = 512

abbrev pub max_hand_id_bytes : ℕ
max_hand_id_bytes = 256

-- What the replay keeps of a valid header.
pub record Table : Type 0 where
  pub ordered_seats : List ℕ
  pub button_seat : ℕ
  pub small_blind : ℕ
  pub big_blind : ℕ
  pub ante : ℕ
  pub rake_rate : ℕ
  pub rake_cap : ℕ

is_upper : ℕ → Bool
is_upper c = leb b'A' c && leb c b'Z'

is_position_char : ℕ → Bool
is_position_char c = is_upper c || (leb b'0' c && leb c b'9') || (c == b'_') || (c == b'-')

all_position_chars : List ℕ → Bool
all_position_chars [] = true
all_position_chars (c ∷ cs) = is_position_char c && all_position_chars cs

-- `_POSITION_RE.fullmatch`: an upper-case letter, then at most 15 of `[A-Z0-9_-]`.
matches_position : List ℕ → Bool
unfolding is_upper is_position_char all_position_chars
matches_position [] = false
matches_position (c ∷ cs) = is_upper c && all_position_chars cs && leb (length cs) 15

unfoldable pub check_seats : List HandSeat → List ℕ → List String → Checked (Unit {0})
unfolding matches_position
check_seats [] seat_ids positions = ok tt
check_seats (s ∷ rest) seat_ids positions = do
  raise_if (not (leb s.seat 9) || elem s.seat seat_ids) bad_seat_id
  raise_if (not (matches_position (codes s.position)) || str_elem s.position positions) bad_position
  decimal false s.starting_stack_bb
  check_seats rest (s.seat ∷ seat_ids) (s.position ∷ positions)

six_max_positions : List String
six_max_positions = "UTG" ∷ "HJ" ∷ "CO" ∷ "BTN" ∷ "SB" ∷ "BB" ∷ []

-- `positions == set(...)`, for six different positions.
all_in_list : List String → List String → Bool
all_in_list [] ys = true
all_in_list (x ∷ xs) ys = str_elem x ys && all_in_list xs ys

-- `seats[i:] + seats[:i]`
pub rotate : ℕ → List ℕ → List ℕ → List ℕ
rotate zero xs before = xs ++ before
rotate (suc i) [] before = before
rotate (suc i) (x ∷ xs) before = rotate i xs (before ++ (x ∷ []))

-- `actual == expected` on the two dictionaries from seats to positions.
sits_at : ℕ → String → List HandSeat → Bool
sits_at seat position [] = false
sits_at seat position (s ∷ rest) =
    ((s.seat == seat) && str_eq s.position position) || sits_at seat position rest

sit_in_order : List ℕ → List String → List HandSeat → Bool
sit_in_order [] names seats = true
sit_in_order (k ∷ ks) [] seats = true
sit_in_order (k ∷ ks) (n ∷ names) seats = sits_at k n seats && sit_in_order ks names seats

unfoldable pub check_six_max : List HandSeat → ℕ → Checked (Unit {0})
unfolding all_in_list six_max_positions rotate sits_at sit_in_order
check_six_max seats button = do
  raise_if (not (all_in_list (map (λ s. s.position) seats) six_max_positions)) bad_six_max
  let ordered = sorted (map (λ (s : HandSeat). s.seat) seats)
  raise_if
      (not (
        sit_in_order (rotate (index button ordered) ordered [])
          ("BTN" ∷ "SB" ∷ "BB" ∷ "UTG" ∷ "HJ" ∷ "CO" ∷ []) seats))
      bad_seat_order
  ok tt

-- `_validate_header` up to its last test.
unfoldable pub header_fields : PublicHandHistory → Checked Table
header_fields history = do
  let seat_ids = map (λ (s : HandSeat). s.seat) history.seats
  raise_if (not (str_eq history.variant "NLHE")) bad_variant
  raise_if (str_eq history.hand_id "" || ltb max_hand_id_bytes (len history.hand_id)) bad_hand_id
  raise_if (ltb (length history.seats) 2 || ltb 6 (length history.seats)) bad_seat_count
  check_seats history.seats [] []
  raise_if (not (elem history.button_seat seat_ids)) button_not_occupied
  if length history.seats == 6 then check_six_max history.seats history.button_seat else ok tt
  small_blind ← decimal false history.small_blind_bb
  big_blind ← decimal false history.big_blind_bb
  raise_if (ltb big_blind small_blind) blind_order
  ante ← decimal true history.ante_bb
  rake_rate ← decimal true history.rake_rate_pct
  raise_if (ltb (100 * one_bb) rake_rate) bad_rake_rate
  rake_cap ← decimal true history.rake_cap_bb
  ok (record {
    ordered_seats = sorted seat_ids;
    button_seat = history.button_seat;
    small_blind = small_blind;
    big_blind = big_blind;
    ante = ante;
    rake_rate = rake_rate;
    rake_cap = rake_cap;
  })

unfoldable pub validate_header : PublicHandHistory → Checked Table
validate_header history = do
  t ← header_fields history
  raise_if (ltb max_events (length history.events)) too_many_events
  ok t
