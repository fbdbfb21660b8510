-- ===== src/Hand/Extend.antt =====
-- A transcript with one more action: what `_legal_actions` and `minimum_raise_to` promise of it.
use mathlib.Core.Path.{subst}
use ranges.Prelude.{
  ℕ, ◌+◌, ◌≤◌, ◌<◌, ◌≡◌, refl, sym, ap, ◌∙◌, true, false, List, [], ◌∷◌, ◌++◌, Option, some, ◌>>=◌,
  arith, elem, ok, is_ok, length, length-append, >>=-eq-ok, >>=-ok, >>=-congr, >>=_assoc, is_ok->>=,
}
use ranges.Hand.Types.{Kind, Number, HandEvent, PublicHandHistory, Street}
use ranges.Hand.Header.{Table, header_fields, validate_header, max_events}
use ranges.Hand.Machine.{Replay, actor, first}
use ranges.Hand.Actions.{is_street, same_street, require_seat, require_action_shape, apply_action}
use ranges.Hand.View.{
  ReplayedHandState, freeze, legal_for, legal_actions, minimum_for, minimum_raise_to,
}
use ranges.Hand.Run.{
  apply, apply_all, initial, starting_stack, replay_public_hand, is_deal, is_other_kind,
}
use ranges.Hand.Invariant.{IsSound}
use ranges.Hand.Ensures.{Ensures-ok}
use ranges.Hand.Soundness.{IsReplay, IsReplay-Ensures}
use ranges.Hand.Legal.{accepts}

-- The event that the actor of a replayed hand would add.
abbrev pub action_event : ℕ → ReplayedHandState → ℕ → Kind → Option Number → HandEvent
action_event index found seat kind amount = record {
  sequence = index;
  kind = kind;
  street = found.street;
  actor_seat = some seat;
  amount_to_bb = amount;
  cards = [];
}

-- The transcript with that event at its end.
abbrev pub extend :
    PublicHandHistory → ReplayedHandState → ℕ → Kind → Option Number → PublicHandHistory
extend history found seat kind amount = record history {
  events = history.events ++ (action_event (length history.events) found seat kind amount ∷ []);
}

apply_all-append :
    (t : Table) (events : List HandEvent) (e : HandEvent) (index last : ℕ) (r : Replay)
    → last ≡ index + length events
    → apply_all t (events ++ e ∷ []) index r
      ≡ (apply_all t events index r >>= λ r'. apply t e last r')
unfolding apply_all
apply_all-append t [] e index last r h =
    let here : index ≡ last = omega arith in rw here (>>=-ok (apply t e last r) ∙ refl_ok)
  where
    refl_ok : apply t e last r ≡ (ok r >>= λ r'. apply t e last r')
    refl_ok = unfold ◌>>=◌ in refl
apply_all-append t (x ∷ xs) e index last r h =
    >>=-congr (apply t x index r) _ _
      (λ r'. apply_all-append t xs e (index + 1) last r' (omega arith))
    ∙ sym (>>=_assoc (apply t x index r) _ _)

same_street_self : (street : Street) → is_street street ≡ true → same_street street street ≡ true
same_street_self Street.preflop h = refl
same_street_self Street.flop h = refl
same_street_self Street.turn h = refl
same_street_self Street.river h = refl
same_street_self Street.other_street h = h

module _ (t : Table) (stacks : ℕ → ℕ) (seat : ℕ) (rest : List ℕ) (r : Replay)
    (s : IsSound t stacks r) (e : r.pending ≡ seat ∷ rest) (opened : r.round_closed ≡ false) where
  -- An action of the actor passes all tests but those of its own kind.
  is_ok-apply :
      (index : ℕ) (found : ReplayedHandState) (kind : Kind) (amount : Option Number)
      → found.street ≡ r.street
      → is_deal kind ≡ false
      → is_other_kind kind ≡ false
      → is_ok (apply t (action_event index found seat kind amount) index r)
        ≡ accepts t r seat kind amount
  unfolding apply apply_action require_action_shape require_seat first ◌>>=◌
  is_ok-apply index found kind amount street deal other =
      let m : elem seat r.pending ≡ true = ground (arith, e) in
      ground (
        arith,
        e,
        opened,
        street,
        same_street_self r.street,
        s.known,
        s.ended,
        s.queued seat m,
        s.chips.capped seat,
      )

-- The parts of a replay that found `seat` to act.
pub record Turn (history : PublicHandHistory) (found : ReplayedHandState) (seat : ℕ) : Type 0 where
  pub replay : IsReplay history found
  pub rest : List ℕ
  pub queue : replay.state.pending ≡ seat ∷ rest
  pub opened : replay.state.round_closed ≡ false
  pub acts : actor replay.state ≡ some seat

queue_of :
    (seat : ℕ) (queue : List ℕ) → first queue ≡ some seat → (rest : List ℕ) × (queue ≡ seat ∷ rest)
unfolding first
queue_of seat [] h = absurd (cc)
queue_of seat (x ∷ xs) h = (xs, cc)

pub Turn-of :
    (history : PublicHandHistory) (found : ReplayedHandState) (seat : ℕ)
    → replay_public_hand history ≡ ok found
    → found.actor_seat ≡ some seat
    → Turn history found seat
unfolding freeze actor
Turn-of history found seat h a =
    let w = Ensures-ok (IsReplay-Ensures history) h in
    let acts : actor w.state ≡ some seat = subst (λ f. f.actor_seat ≡ some seat) w.frozen a in
    let opened : w.state.round_closed ≡ false = ground (arith, acts) in
    let queue = queue_of seat w.state.pending (ground (arith, acts, opened)) in
    record { replay = w; rest = queue.0; queue = queue.1; opened = opened; acts = acts }

header_fields-ok :
    (history : PublicHandHistory) (t : Table)
    → validate_header history ≡ ok t
    → header_fields history ≡ ok t
unfolding validate_header ◌>>=◌
header_fields-ok history t h =
    let (t', a, b) = >>=-eq-ok (header_fields history) _ h in ground (arith, a, b)

validate_header-ok :
    (history : PublicHandHistory) (t : Table)
    → header_fields history ≡ ok t
    → length history.events ≤ max_events
    → validate_header history ≡ ok t
unfolding validate_header ◌>>=◌
validate_header-ok history t h room = rw h (ground arith)

module _ (history : PublicHandHistory) (found : ReplayedHandState) (seat : ℕ)
    (turn : Turn history found seat) (room : length history.events < max_events) (kind : Kind)
    (amount : Option Number) where
  abbrev pub longer : PublicHandHistory
  longer = extend history found seat kind amount

  same_fields : header_fields longer ≡ header_fields history
  unfolding header_fields
  same_fields = refl

  header-longer : validate_header longer ≡ ok turn.replay.table
  header-longer =
      validate_header-ok longer turn.replay.table
        (same_fields ∙ header_fields-ok history turn.replay.table turn.replay.headed)
        (omega (
          arith,
          length-append history.events
              (action_event (length history.events) found seat kind amount ∷ []),
        ))

  apply_all-longer :
      apply_all turn.replay.table longer.events 0
        (initial turn.replay.table (starting_stack history.seats))
      ≡ apply turn.replay.table
          (action_event (length history.events) found seat kind amount)
          (length history.events)
          turn.replay.state
  unfolding ◌>>=◌
  apply_all-longer =
      rw
        (apply_all-append turn.replay.table history.events
          (action_event (length history.events) found seat kind amount) 0 (length history.events)
          (initial turn.replay.table (starting_stack history.seats)) (omega arith))
        (rw turn.replay.replayed)

  -- The longer transcript replays exactly if its last event applies.
  pub is_ok-longer :
      is_ok (replay_public_hand longer)
      ≡ is_ok (
          apply turn.replay.table
            (action_event (length history.events) found seat kind amount)
            (length history.events)
            turn.replay.state)
  unfolding replay_public_hand ◌>>=◌
  is_ok-longer = rw header-longer (
      is_ok->>= {B = ReplayedHandState}
        (apply_all turn.replay.table longer.events 0
          (initial turn.replay.table (starting_stack history.seats)))
        (freeze history.hand_id turn.replay.table (length longer.events))
      ∙ ap is_ok apply_all-longer)

  -- A longer transcript replays exactly if the rules of its last action accept it.
  pub is_ok-action :
      is_deal kind ≡ false
      → is_other_kind kind ≡ false
      → is_ok (replay_public_hand longer)
        ≡ accepts turn.replay.table turn.replay.state seat kind amount
  unfolding freeze
  is_ok-action deal other =
      is_ok-longer
      ∙ is_ok-apply turn.replay.table (starting_stack history.seats) seat turn.rest
          turn.replay.state turn.replay.sound turn.queue turn.opened (length history.events) found
          kind amount (ap (λ f. f.street) turn.replay.frozen) deal other

-- What the state shows of its actor is what the code computes for it.
pub legal-frozen :
    (history : PublicHandHistory) (found : ReplayedHandState) (seat : ℕ)
    (turn : Turn history found seat)
    → found.legal_actions ≡ legal_for seat turn.replay.table turn.replay.state
unfolding freeze legal_actions
legal-frozen history found seat turn =
    ap (λ f. f.legal_actions) turn.replay.frozen ∙ rw (turn.acts, legal_actions)

pub minimum-frozen :
    (history : PublicHandHistory) (found : ReplayedHandState) (seat : ℕ)
    (turn : Turn history found seat)
    → found.minimum_raise_to_bb ≡ minimum_for seat turn.replay.table turn.replay.state
unfolding freeze minimum_raise_to
minimum-frozen history found seat turn =
    ap (λ f. f.minimum_raise_to_bb) turn.replay.frozen ∙ rw (turn.acts, minimum_raise_to)
