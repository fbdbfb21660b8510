-- ===== src/Hand/Events.antt =====
-- Every event keeps the invariant, or is refused with no failed assertion: `apply` and the replay of
-- all events.
use ranges.Prelude.{
  ℕ, ◌≡◌, refl, Bool, true, false, List, [], ◌∷◌, ◌++◌, Option, none, some, arith, elem, Distinct,
  same_option, String, empty_set,
}
use ranges.Hand.Types.{Kind, Street, HandEvent}
use ranges.Hand.Header.{Table}
use ranges.Hand.Seating.{ordered_after}
use ranges.Hand.Order.{Distinct-ordered_after}
use ranges.Hand.Machine.{Replay, eligible, actor}
use ranges.Hand.Actions.{is_street, require_seat, require_action_shape, apply_action}
use ranges.Hand.Deals.{next_deal, deal_as, apply_deal, open_street, check_cards}
use ranges.Hand.Invariant.{IsSound, normalize_round-IsSound}
use ranges.Hand.Ensures.{Ensures, returns, refuses, Ensures-bind, Ensures-raise_if, Ensures-skip}
use ranges.Hand.Steps.{by_kind-Ensures}

-- `seat` is the first in the queue of an open round.
abbrev pub HasTurn : Replay → ℕ → Type 0
HasTurn r seat =
    (rest : List ℕ) × (r.pending ≡ seat ∷ rest) × (r.round_closed ≡ false) × (r.terminal ≡ false)

-- A deal opens one of the four streets.
abbrev KnownNext : Option (Kind × Street × ℕ) → Type 0
KnownNext none = Unit
KnownNext (some (kind, street, count)) = is_street street ≡ true

next_deal-known : (street : Street) → KnownNext (next_deal street)
next_deal-known Street.preflop = refl
next_deal-known Street.flop = refl
next_deal-known Street.turn = refl
next_deal-known _ = tt

module _ (t : Table) (stacks : ℕ → ℕ) (r : Replay) (s : IsSound t stacks r) where
  turn-Ensures :
      (queue : List ℕ) (seat : Option ℕ)
      → r.pending ≡ queue
      → r.round_closed ≡ false
      → r.terminal ≡ false
      → same_option seat (actor r) ≡ true
      → Ensures (HasTurn r) (require_seat seat)
  unfolding require_seat actor
  turn-Ensures [] seat e opened going same = absurd (ground (arith, s.closes, e))
  turn-Ensures (x ∷ xs) none e opened going same = absurd (ground (arith, e))
  turn-Ensures (x ∷ xs) (some y) e opened going same =
      let here : y ≡ x = ground (arith, e) in returns (xs, rw here e, opened, going)

  shape-Ensures : (event : HandEvent) → Ensures (HasTurn r) (require_action_shape event r)
  unfolding require_action_shape
  shape-Ensures event = Ensures-raise_if _ _ _ refl λ going. Ensures-raise_if _ _ _ refl λ opened.
      Ensures-raise_if _ _ _ refl λ _. Ensures-raise_if _ _ _ refl λ _.
        Ensures-raise_if _ _ _ refl
          λ same. turn-Ensures r.pending event.actor_seat refl opened going (ground arith)

  pub apply_action-Ensures :
      Distinct t.ordered_seats
      → (event : HandEvent) → Ensures (IsSound t stacks) (apply_action t event r)
  unfolding apply_action
  apply_action-Ensures d event = Ensures-bind _ _ (shape-Ensures event) λ seat _ turn.
      let (rest, e, opened, going) = turn in
      Ensures-skip _ _ _ (ground (arith, e, s.queued seat, s.chips.capped seat))
        (by_kind-Ensures t stacks d seat rest r s e opened going event.kind event.amount_to_bb)

  -- A board deal starts the street with nothing wagered and everybody who can act queued.
  open_street-IsSound :
      (street : Street) (cards : List String)
      → Distinct t.ordered_seats
      → elem t.button_seat t.ordered_seats ≡ true
      → r.terminal ≡ false
      → is_street street ≡ true
      → IsSound t stacks (open_street t street cards r)
  unfolding open_street
  open_street-IsSound street cards d button going known =
      let cands : ℕ → Bool = eligible t r in
      normalize_round-IsSound t stacks
        (record r {
          board = r.board ++ cards;
          street = street;
          street_contribution = λ _. 0;
          highest = 0;
          last_full_raise = t.big_blind;
          acted_since_full_raise = empty_set;
          round_closed = false;
          pending = ordered_after t.ordered_seats t.button_seat cands;
        })
        (record {
          conserved = s.chips.conserved;
          capped = λ x h. omega arith;
          broke = s.chips.broke;
          on_street = λ x. omega arith;
          raise_floor = omega arith;
        })
        (record {
          distinct = Distinct-ordered_after t.ordered_seats t.button_seat d button cands;
          matched = λ x a b k. refl;
          reopened = λ x a b. absurd (cc);
        })
        refl going known

  cards-Ensures : (cards : List String) → Ensures (λ _. Unit {0}) (check_cards cards)
  unfolding check_cards
  cards-Ensures [] = returns tt
  cards-Ensures (c ∷ cs) = Ensures-raise_if _ _ _ refl λ _. cards-Ensures cs

  deal_as-Ensures :
      Distinct t.ordered_seats
      → elem t.button_seat t.ordered_seats ≡ true
      → r.terminal ≡ false
      → (next : Option (Kind × Street × ℕ)) (event : HandEvent) → KnownNext next
      → Ensures (IsSound t stacks) (deal_as next t event r)
  unfolding deal_as
  deal_as-Ensures d button going none event known = refuses refl
  deal_as-Ensures d button going (some (kind, street, count)) event known =
      Ensures-raise_if _ _ _ refl λ _. Ensures-raise_if _ _ _ refl λ _.
        Ensures-bind _ _ (cards-Ensures event.cards) λ _ _ _.
          Ensures-raise_if _ _ _ refl
            λ _. returns (open_street-IsSound street event.cards d button going known)

  pub apply_deal-Ensures :
      Distinct t.ordered_seats
      → elem t.button_seat t.ordered_seats ≡ true
      → (event : HandEvent) → Ensures (IsSound t stacks) (apply_deal t event r)
  unfolding apply_deal
  apply_deal-Ensures d button event = Ensures-raise_if _ _ _ refl λ _.
      Ensures-raise_if _ _ _ refl λ _. Ensures-raise_if _ _ _ refl λ going.
        deal_as-Ensures d button going (next_deal r.street) event (next_deal-known r.street)
