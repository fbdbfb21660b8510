-- ===== src/Hand/Soundness.antt =====
-- The replay of a whole hand keeps the invariant and fails no assertion.
use mathlib.Core.Path.{subst}
use ranges.Prelude.{
  ℕ, ◌+◌, ◌≤◌, ◌<◌, ◌≡◌, refl, sym, ◌∙◌, ap, true, false, List, [], ◌∷◌, arith, elem, Distinct, ok,
  err, Bool-cases, inl, inr, sum_over, sum_over-add, length, some, elem-filter, is_empty,
}
use ranges.Hand.Types.{HandEvent, PublicHandHistory, HandError}
use ranges.Hand.Header.{Table, validate_header}
use ranges.Hand.Machine.{Replay, eligible, live, actor, first}
use ranges.Hand.Actions.{apply_action}
use ranges.Hand.Deals.{apply_deal}
use ranges.Hand.View.{freeze, ReplayedHandState}
use ranges.Hand.Run.{
  finish_river, apply, apply_all, initial, starting_stack, replay_public_hand, is_deal,
}
use ranges.Hand.Invariant.{IsSound, contested}
use ranges.Hand.Ensures.{
  is_assertion, Ensures, returns, Ensures-bind, Ensures-raise_if, Ensures-if, Ensures-ok,
  Ensures-err,
}
use ranges.Hand.Events.{apply_action-Ensures, apply_deal-Ensures}
use ranges.Hand.Start.{initial-IsSound}
use ranges.Hand.Tables.{IsTable, validate_header-Ensures}
use ranges.Hand.Totals.{
  total_start, sum_amounts, sum_amounts-per_seat, amount_at, amount_at-per_seat, sum_over-ordered,
}

module _ (t : Table) (stacks : ℕ → ℕ) (d : Distinct t.ordered_seats)
    (button : elem t.button_seat t.ordered_seats ≡ true) where
  finish_river-IsSound : (r : Replay) → IsSound t stacks r → IsSound t stacks (finish_river r)
  unfolding finish_river
  finish_river-IsSound r s = record {
    chips = s.chips;
    queue = record {
      distinct = s.queue.distinct;
      matched = s.queue.matched;
      reopened = s.queue.reopened;
    };
    queued = s.queued;
    closes = s.closes;
    ended = λ e. ground (arith, s.ended);
    known = s.known;
  }

  -- One event keeps the invariant, or is refused with no failed assertion.
  pub apply-Ensures :
      (event : HandEvent) (index : ℕ) (r : Replay)
      → IsSound t stacks r
      → Ensures (IsSound t stacks) (apply t event index r)
  unfolding apply
  apply-Ensures event index r s = Ensures-raise_if _ _ _ refl λ _. Ensures-raise_if _ _ _ refl λ _.
      Ensures-raise_if _ _ _ refl λ _.
        Ensures-bind {Q = IsSound t stacks} _ _
          (Ensures-if (is_deal event.kind) (apply_deal t event r) (apply_action t event r)
            (λ _. apply_deal-Ensures t stacks r s d button event)
            (λ _. apply_action-Ensures t stacks r s d event))
          λ r' _ s'. returns (finish_river-IsSound r' s')

  pub apply_all-Ensures :
      (events : List HandEvent) (index : ℕ) (r : Replay)
      → IsSound t stacks r
      → Ensures (IsSound t stacks) (apply_all t events index r)
  unfolding apply_all
  apply_all-Ensures [] index r s = returns s
  apply_all-Ensures (e ∷ rest) index r s =
      Ensures-bind _ _ (apply-Ensures e index r s)
        λ r' _ s'. apply_all-Ensures rest (index + 1) r' s'

not_listed : (x : ℕ) (xs : List ℕ) → is_empty xs ≡ true → elem x xs ≡ false
not_listed x [] h = refl
not_listed x (y ∷ ys) h = absurd (cc)

listed_first : (x : ℕ) (xs : List ℕ) → first xs ≡ some x → elem x xs ≡ true
unfolding first
listed_first x [] h = absurd (cc)
listed_first x (y ∷ ys) h = ground arith

module _ (t : Table) (stacks : ℕ → ℕ) (r : Replay) (s : IsSound t stacks r) where
  closed_matched :
      (x y : ℕ)
      → r.round_closed ≡ true
      → contested t r ≡ true
      → eligible t r x ≡ true
      → elem y t.ordered_seats ≡ true
      → r.street_contribution y ≤ r.street_contribution x
  closed_matched x y closed two able sits =
      let quiet : elem x r.pending ≡ false = not_listed x r.pending (sym s.closes ∙ closed) in
      omega (arith, s.queue.matched x able quiet two, s.chips.capped y sits)

  acting : (x : ℕ) → actor r ≡ some x → (eligible t r x ≡ true) × (r.round_closed ≡ false)
  unfolding actor
  acting x h = elim (Bool-cases r.round_closed) [
    | inl shut ↦ absurd (ground (arith, shut))
    | inr opened ↦ (s.queued x (listed_first x r.pending (ground (arith, opened))), opened)
  ]

-- What the replay of a hand has found: its table, and the sound state that it froze.
pub record IsReplay (history : PublicHandHistory) (found : ReplayedHandState) : Type 0 where
  pub table : Table
  pub state : Replay
  pub valid : IsTable history table
  pub sound : IsSound table (starting_stack history.seats) state
  pub headed : validate_header history ≡ ok table
  pub replayed :
      apply_all table history.events 0 (initial table (starting_stack history.seats)) ≡ ok state
  pub frozen : found ≡ freeze history.hand_id table (length history.events) state

pub IsReplay-Ensures :
    (history : PublicHandHistory) → Ensures (IsReplay history) (replay_public_hand history)
unfolding replay_public_hand
IsReplay-Ensures history =
    let stacks : ℕ → ℕ = starting_stack history.seats in
    Ensures-bind _ _ (validate_header-Ensures history) λ t headed v.
      Ensures-bind _ _
        (apply_all-Ensures t stacks v.distinct v.button history.events 0 (initial t stacks)
          (initial-IsSound t stacks v.distinct v.button v.funded))
        λ r replayed s. returns (record {
          table = t;
          state = r;
          valid = v;
          sound = s;
          headed = headed;
          replayed = replayed;
          frozen = refl;
        })

-- Whatever the transcript, its replay never ends in one of the three failing assertions: the actor
-- is known, it is the first in the queue, and it has put in no more than the high bet.
pub replay_never_asserts :
    (history : PublicHandHistory) (e : HandError)
    → replay_public_hand history ≡ err e
    → is_assertion e ≡ false
replay_never_asserts history e h = Ensures-err (IsReplay-Ensures history) h

-- No chips appear or vanish: in every replayed hand the pot and the stacks add up to what the
-- players sat down with.
pub chips_conserved :
    (history : PublicHandHistory) (found : ReplayedHandState)
    → replay_public_hand history ≡ ok found
    → found.pot_bb + sum_amounts found.stacks ≡ total_start history.seats
unfolding freeze
chips_conserved history found h =
    let w = Ensures-ok (IsReplay-Ensures history) h in
    let seats : List ℕ = w.table.ordered_seats in
    let r : Replay = w.state in
    let stacks : ℕ → ℕ = starting_stack history.seats in
    let total : sum_over seats stacks ≡ total_start history.seats =
      ap (λ l. sum_over l stacks) w.valid.ordered ∙ sum_over-ordered history.seats w.valid.listed in
    subst (λ f. f.pot_bb + sum_amounts f.stacks ≡ total_start history.seats) (sym w.frozen)
      (omega (
        arith,
        total,
        sum_amounts-per_seat seats r.remaining,
        sum_over-add seats r.remaining r.total_contribution stacks
            (λ x _. w.sound.chips.conserved x),
      ))

-- A betting round with two or more players left closes only when each of them who still has chips
-- has put in at least as much on this street as every other player.
pub closed_round_matched :
    (history : PublicHandHistory) (found : ReplayedHandState) (x y : ℕ)
    → replay_public_hand history ≡ ok found
    → found.round_closed ≡ true
    → 2 ≤ length found.live_seats
    → elem x found.live_seats ≡ true
    → elem x found.all_in ≡ false
    → amount_at y found.street_contributions ≤ amount_at x found.street_contributions
unfolding freeze
closed_round_matched history found x y h =
    let w = Ensures-ok (IsReplay-Ensures history) h in
    let t = w.table in
    let r = w.state in
    let d = r.street_contribution in
    subst
      (λ f.
        f.round_closed ≡ true
        → 2 ≤ length f.live_seats
        → elem x f.live_seats ≡ true
        → elem x f.all_in ≡ false
        → amount_at y f.street_contributions ≤ amount_at x f.street_contributions)
      (sym w.frozen)
      (λ closed two alive free. ground (
        arith,
        amount_at-per_seat y t.ordered_seats d,
        amount_at-per_seat x t.ordered_seats d,
        elem-filter (live t r) x t.ordered_seats,
        elem-filter r.all_in x t.ordered_seats,
        closed_matched t (starting_stack history.seats) r w.sound x y closed,
      ))

-- The player to act sits at the table, is live, is not all-in and has chips, in a round that is open
-- and a hand that goes on.
pub actor_can_act :
    (history : PublicHandHistory) (found : ReplayedHandState) (x : ℕ)
    → replay_public_hand history ≡ ok found
    → found.actor_seat ≡ some x
    → (elem x found.live_seats ≡ true)
      × (elem x found.all_in ≡ false)
      × (0 < amount_at x found.stacks)
      × (found.round_closed ≡ false)
      × (found.terminal ≡ false)
unfolding freeze
actor_can_act history found x h =
    let w = Ensures-ok (IsReplay-Ensures history) h in
    let t = w.table in
    let r = w.state in
    subst
      (λ f.
        f.actor_seat ≡ some x
        → (elem x f.live_seats ≡ true)
          × (elem x f.all_in ≡ false)
          × (0 < amount_at x f.stacks)
          × (f.round_closed ≡ false)
          × (f.terminal ≡ false))
      (sym w.frozen)
      (λ acts.
        let (able, opened) = acting t (starting_stack history.seats) r w.sound x acts in
        ground (
          arith,
          able,
          opened,
          amount_at-per_seat x t.ordered_seats r.remaining,
          elem-filter (live t r) x t.ordered_seats,
          elem-filter r.all_in x t.ordered_seats,
          w.sound.chips.broke x,
          w.sound.ended,
        ))
