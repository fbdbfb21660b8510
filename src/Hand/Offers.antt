-- ===== src/Hand/Offers.antt =====
-- What a frozen state offers its actor: `legal_actions` and `minimum_raise_to_bb` against the replay
-- of the transcript with one more action.
use ranges.Prelude.{
  ℕ, ◌<◌, ◌≡◌, refl, sym, ap, ◌∙◌, Bool, true, false, ◌||◌, Option, some, ◌>>=◌, arith, ok, is_ok,
  ◌↔◌, Bool-cases, inl, inr, length,
}
use ranges.Hand.Types.{Kind, bet_to, raise_to, Number, exact, PublicHandHistory}
use ranges.Hand.Header.{Table, max_events}
use ranges.Hand.Machine.{Replay}
use ranges.Hand.Deals.{apply_deal}
use ranges.Hand.View.{ReplayedHandState, legal_for, minimum_for}
use ranges.Hand.Run.{apply, replay_public_hand, is_deal, is_other_kind, starting_stack}
use ranges.Hand.Legal.{
  lists, legal_for-IsExact, raises, IsLeast, IsLeast-congr, minimum_for-IsLeast,
}
use ranges.Hand.Extend.{
  action_event, extend, Turn-of, is_ok-longer, is_ok-action, legal-frozen, minimum-frozen,
}

-- The event of an actor is no deal and no unknown kind.
is_ok-no_action :
    (t : Table) (r : Replay) (index : ℕ) (found : ReplayedHandState) (seat : ℕ) (kind : Kind)
    (amount : Option Number)
    → (is_deal kind || is_other_kind kind) ≡ true
    → is_ok (apply t (action_event index found seat kind amount) index r) ≡ false
unfolding apply apply_deal ◌>>=◌
is_ok-no_action t r index found seat kind amount h = ground arith

lists-no_action :
    (t : Table) (r : Replay) (seat : ℕ) (kind : Kind)
    → (is_deal kind || is_other_kind kind) ≡ true
    → lists kind (legal_for seat t r) ≡ false
unfolding legal_for
lists-no_action t r seat kind h = ground arith

-- For a transcript that replays to a state with an actor and that has room for one more event, and for
-- each kind of event: the kind is in `legal_actions` exactly if there is an amount with which the
-- transcript, longer by that event of the actor, replays.
pub legal_actions_exact :
    (history : PublicHandHistory) (found : ReplayedHandState) (seat : ℕ) (kind : Kind)
    → replay_public_hand history ≡ ok found
    → found.actor_seat ≡ some seat
    → length history.events < max_events
    → (lists kind found.legal_actions ≡ true) ↔ (
        (amount : Option Number) × (is_ok
            (replay_public_hand (extend history found seat kind amount))
          ≡ true))
legal_actions_exact history found seat kind h a room =
    let turn = Turn-of history found seat h a in
    let t = turn.replay.table in
    let r = turn.replay.state in
    let same = legal-frozen history found seat turn in
    elim (Bool-cases (is_deal kind || is_other_kind kind)) [
      | inl apart ↦ (
        λ l. absurd (ground (arith, same, lists-no_action t r seat kind apart)),
        λ p. absurd (
            ground (
              arith,
              p.1,
              is_ok-longer history found seat turn room kind p.0,
              is_ok-no_action t r (length history.events) found seat kind p.0 apart,
            )),
      )
      | inr action ↦
          let accepted =
            legal_for-IsExact t (starting_stack history.seats) seat turn.rest r turn.replay.sound
              turn.queue (turn.replay.valid.bounded seat) kind in
          let deal : is_deal kind ≡ false = ground arith in
          let other : is_other_kind kind ≡ false = ground arith in
          (
            λ l.
                let found_amount = accepted.0 (ap (lists kind) (sym same) ∙ l) in
                (
                  found_amount.0,
                  is_ok-action history found seat turn room kind found_amount.0 deal other
                      ∙ found_amount.1,
                ),
            λ p.
                ap (lists kind) same
                ∙ accepted.1 (
                  p.0,
                  sym (is_ok-action history found seat turn room kind p.0 deal other) ∙ p.1,
                ),
          )
    ]

-- The transcript, longer by a bet or a raise of the actor to this amount, replays.
abbrev pub replays_raise : PublicHandHistory → ReplayedHandState → ℕ → ℕ → Bool
replays_raise history found seat n =
    is_ok (replay_public_hand (extend history found seat bet_to (some (exact n))))
    || is_ok (replay_public_hand (extend history found seat raise_to (some (exact n))))

-- For a transcript that replays to a state with an actor and that has room for one more event,
-- `minimum_raise_to_bb` is the least amount of a bet or raise with which the longer transcript
-- replays; where it is None, no amount of a bet or raise replays.
pub minimum_raise-IsLeast :
    (history : PublicHandHistory) (found : ReplayedHandState) (seat : ℕ)
    → replay_public_hand history ≡ ok found
    → found.actor_seat ≡ some seat
    → length history.events < max_events
    → IsLeast (replays_raise history found seat) found.minimum_raise_to_bb
minimum_raise-IsLeast history found seat h a room =
    let turn = Turn-of history found seat h a in
    let t = turn.replay.table in
    let r = turn.replay.state in
    let blind : 0 < t.big_blind = omega (arith, turn.replay.valid.blinds) in
    rw (minimum-frozen history found seat turn) (
      IsLeast-congr (replays_raise history found seat) (raises t r seat) (minimum_for seat t r)
        (λ n. ground (
          arith,
          is_ok-action history found seat turn room bet_to (some (exact n)) refl refl,
          is_ok-action history found seat turn room raise_to (some (exact n)) refl refl,
        ))
        (minimum_for-IsLeast t (starting_stack history.seats) seat turn.rest r turn.replay.sound
          turn.queue (turn.replay.valid.bounded seat) (minimum_for seat t r) blind refl))
