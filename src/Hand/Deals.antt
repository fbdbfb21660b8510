-- ===== src/Hand/Deals.antt =====
-- gto_hand_history.py: `_apply_deal`.
use ranges.Prelude.{
  ℕ, Bool, true, false, Option, none, some, List, [], ◌∷◌, ◌++◌, String, leb, ◌==◌, ◌&&◌, ◌||◌, not,
  ok, err, raise_if, ◌>>◌, length, codes, str_elem, empty_set,
}
use ranges.Hand.Types.{
  Checked, HandEvent, Street, preflop, flop, turn, river, Kind, deal_flop, deal_turn, deal_river,
  deal_with_actor, deal_before_close, deal_after_end, deal_after_river, wrong_deal,
  wrong_card_count, bad_card, repeated_card,
}
use ranges.Hand.Seating.{ordered_after}
use ranges.Hand.Header.{Table}
use ranges.Hand.Machine.{Replay, Action, eligible, normalize_round}
use ranges.Hand.Actions.{same_street, is_some}

-- The dictionary of the deals: the kind, the next street and the number of cards.
abbrev pub next_deal : Street → Option (Kind × Street × ℕ)
next_deal preflop = some (deal_flop, flop, 3)
next_deal flop = some (deal_turn, turn, 1)
next_deal turn = some (deal_river, river, 1)
next_deal _ = none

abbrev pub same_deal : Kind → Kind → Bool
same_deal deal_flop deal_flop = true
same_deal deal_turn deal_turn = true
same_deal deal_river deal_river = true
same_deal _ _ = false

is_rank : ℕ → Bool
is_rank c =
    (leb b'2' c && leb c b'9')
    || (c == b'T')
    || (c == b'J')
    || (c == b'Q')
    || (c == b'K')
    || (c == b'A')

is_suit : ℕ → Bool
is_suit c = (c == b'c') || (c == b'd') || (c == b'h') || (c == b's')

-- `_CARD_RE.fullmatch`, which the limit of two bytes adds nothing to.
matches_card : List ℕ → Bool
unfolding is_rank is_suit
matches_card (r ∷ s ∷ []) = is_rank r && is_suit s
matches_card _ = false

unfoldable pub check_cards : List String → Checked (Unit {0})
unfolding matches_card
check_cards [] = ok tt
check_cards (c ∷ cs) = do raise_if (not (matches_card (codes c))) bad_card; check_cards cs

-- `len(set(board + cards)) != len(board) + len(cards)`
unfoldable pub repeats : List String → Bool
repeats [] = false
repeats (c ∷ cs) = str_elem c cs || repeats cs

-- The state after a board deal.
unfoldable pub open_street : Table → Street → List String → Replay → Replay
open_street t street cards r =
    let dealt = record r {
      board = r.board ++ cards;
      street = street;
      street_contribution = λ _. 0;
      highest = 0;
      last_full_raise = t.big_blind;
      acted_since_full_raise = empty_set;
      round_closed = false;
    } in
    normalize_round t
      (record dealt { pending = ordered_after t.ordered_seats t.button_seat (eligible t dealt) })

-- `_apply_deal` behind the lookup of the street.
unfoldable pub deal_as : Option (Kind × Street × ℕ) → Table → HandEvent → Action
deal_as none t event r = err deal_after_river
deal_as (some (kind, street, count)) t event r = do
  raise_if (not (same_deal event.kind kind) || not (same_street event.street street)) wrong_deal
  raise_if (not (length event.cards == count)) wrong_card_count
  check_cards event.cards
  raise_if (repeats (r.board ++ event.cards)) repeated_card
  ok (open_street t street event.cards r)

abbrev pub is_seat : Option ℕ → Bool
is_seat none = false
is_seat (some x) = true

unfoldable pub apply_deal : Table → HandEvent → Action
apply_deal t event r = do
  raise_if (is_seat event.actor_seat || is_some event.amount_to_bb) deal_with_actor
  raise_if (not r.round_closed) deal_before_close
  raise_if r.terminal deal_after_end
  deal_as (next_deal r.street) t event r
