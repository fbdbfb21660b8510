-- ===== src/Hand/View.antt =====
-- gto_hand_history.py: `_legal_actions` and `freeze`.
use ranges.Prelude.{
  ℕ, ◌+◌, ◌-◌, Bool, Option, none, some, List, [], ◌∷◌, ◌++◌, String, ltb, leb, ◌==◌, ◌&&◌, not,
  if◌then◌else◌, map, sum_over, filter,
}
use ranges.Hand.Types.{Street, Kind, fold, check, call, bet_to, raise_to, all_in_to}
use ranges.Hand.Header.{Table}
use ranges.Hand.Machine.{Replay, live, actor}

unfoldable pub legal_for : ℕ → Table → Replay → List Kind
legal_for seat t r =
    let current = r.street_contribution seat in
    let facing = r.highest - current in
    let max_target = current + r.remaining seat in
    let passive = if ltb 0 facing then fold ∷ call ∷ [] else check ∷ [] in
    let aggressive =
      if not (r.acted_since_full_raise seat) && ltb r.highest max_target
      then (if r.highest == 0
          then (if leb t.big_blind (max_target - current)
              then bet_to ∷ all_in_to ∷ []
              else all_in_to ∷ [])
          else if leb r.last_full_raise (max_target - r.highest)
          then raise_to ∷ all_in_to ∷ []
          else all_in_to ∷ [])
      else if ltb 0 facing && leb (r.remaining seat) facing
      then all_in_to ∷ []
      else [] in
    passive ++ aggressive

-- `_legal_actions`
unfoldable pub legal_actions : Table → Replay → List Kind
legal_actions t r = elim (actor r) [ none ↦ [] | some seat ↦ legal_for seat t r ]

-- `minimum_raise_to` of `freeze`
unfoldable pub minimum_for : ℕ → Table → Replay → Option ℕ
minimum_for seat t r =
    let max_target = r.street_contribution seat + r.remaining seat in
    let candidate = if r.highest == 0 then t.big_blind else r.highest + r.last_full_raise in
    if not (r.acted_since_full_raise seat) && ltb r.highest max_target && leb candidate max_target
    then some candidate
    else none

unfoldable pub minimum_raise_to : Table → Replay → Option ℕ
minimum_raise_to t r = elim (actor r) [ none ↦ none | some seat ↦ minimum_for seat t r ]

pub record ReplayedHandState : Type 0 where
  pub hand_id : String
  pub street : Street
  pub board : List String
  pub actor_seat : Option ℕ
  pub pot_bb : ℕ
  pub amount_to_call_bb : ℕ
  pub minimum_raise_to_bb : Option ℕ
  pub stacks : List (ℕ × ℕ)
  pub street_contributions : List (ℕ × ℕ)
  pub total_contributions : List (ℕ × ℕ)
  pub folded : List ℕ
  pub all_in : List ℕ
  pub live_seats : List ℕ
  pub legal_actions : List Kind
  pub round_closed : Bool
  pub terminal : Bool
  pub next_sequence : ℕ

abbrev pub per_seat : List ℕ → (ℕ → ℕ) → List (ℕ × ℕ)
per_seat seats d = map (λ x. (x, d x)) seats

unfoldable pub freeze : String → Table → ℕ → Replay → ReplayedHandState
freeze hand_id t next_sequence r = record {
  hand_id = hand_id;
  street = r.street;
  board = r.board;
  actor_seat = actor r;
  pot_bb = sum_over t.ordered_seats r.total_contribution;
  amount_to_call_bb = elim (actor r) [
    | none ↦ 0
    | some seat ↦ r.highest - r.street_contribution seat
  ];
  minimum_raise_to_bb = minimum_raise_to t r;
  stacks = per_seat t.ordered_seats r.remaining;
  street_contributions = per_seat t.ordered_seats r.street_contribution;
  total_contributions = per_seat t.ordered_seats r.total_contribution;
  folded = filter r.folded t.ordered_seats;
  all_in = filter r.all_in t.ordered_seats;
  live_seats = filter (live t r) t.ordered_seats;
  legal_actions = legal_actions t r;
  round_closed = r.round_closed;
  terminal = r.terminal;
  next_sequence = next_sequence;
}
