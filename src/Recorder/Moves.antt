-- ===== src/Recorder/Moves.antt =====
-- gto_event_collector.py: how far one observation may advance a transcript.
use mathlib.Core.Path.{subst}
use mathlib.Core.List.{append_assoc}
use ranges.Prelude.{
  ℕ, ◌+◌, ◌==◌, ◌≡◌, refl, sym, ap, Bool, true, false, not, ◌||◌, if◌then◌else◌, >>=-eq-ok, Option,
  none, some, List, [], ◌∷◌, ◌++◌, ok, err, ◌>>=◌, Returns, with_value, Returns->>=,
  Returns-raise_if, Returns-if, Returns-ok, arith,
}
use ranges.Hand.Types.{HandEvent, PublicHandHistory}
use ranges.Hand.Run.{is_deal, replay_public_hand}
use ranges.Hand.View.{ReplayedHandState}
use ranges.Recorder.Observation.{
  Collected, SnapshotObservation, PlayerObservation, board_not_observed, no_actor,
  actor_disappeared,
}
use ranges.Recorder.Anchor.{CollectorConfig, player_at, is_folded}
use ranges.Recorder.Infer.{infer_action, infer_for, event_for, paid_action, is_fold}
use ranges.Recorder.Advance.{
  deal_event, append_event, advance_action, advance_deal, advance, Progress, street_index,
}
use ranges.Recorder.Shows.{replayed_or-ok}

-- The events of one advance, by whether the round was closed and whether the street advanced: an
-- action, a deal, or an action and the deal that follows it.
pub data IsMove (round_closed street_advanced : Bool) : List HandEvent → Type 0 where
  acts :
      (a : HandEvent)
      → is_deal a.kind ≡ false
      → round_closed ≡ false
      → street_advanced ≡ false
      → IsMove round_closed street_advanced (a ∷ [])
  deals :
      (d : HandEvent)
      → is_deal d.kind ≡ true
      → round_closed ≡ true
      → street_advanced ≡ true
      → IsMove round_closed street_advanced (d ∷ [])
  acts_and_deals :
      (a d : HandEvent)
      → is_deal a.kind ≡ false
      → is_deal d.kind ≡ true
      → round_closed ≡ false
      → street_advanced ≡ true
      → IsMove round_closed street_advanced (a ∷ d ∷ [])

abbrev pub with_events : PublicHandHistory → List HandEvent → PublicHandHistory
with_events h events = record h { events = h.events ++ events }

paid_action-is_no_deal :
    (b : Bool) (highest tolerance target : ℕ)
    → is_deal (paid_action b highest tolerance target).0 ≡ false
paid_action-is_no_deal b highest tolerance target = ground arith

event_for-is_no_deal :
    (c : CollectorConfig) (r : ReplayedHandState) (s : SnapshotObservation) (seat : ℕ)
    (p : PlayerObservation) (target : ℕ) {e : HandEvent}
    → event_for c r s seat p target ≡ ok e
    → is_deal e.kind ≡ false
unfolding event_for
event_for-is_no_deal c r s seat p target h = ground arith

no_deal_if :
    (b : Bool) (l m : Collected HandEvent) {e : HandEvent}
    → (l ≡ ok e → is_deal e.kind ≡ false)
    → (m ≡ ok e → is_deal e.kind ≡ false)
    → (if b then l else m) ≡ ok e
    → is_deal e.kind ≡ false
no_deal_if true l m x y h = x h
no_deal_if false l m x y h = y h

infer_for-is_no_deal :
    (c : CollectorConfig) (r : ReplayedHandState) (s : SnapshotObservation) (b : Bool) (seat : ℕ)
    (p : PlayerObservation) {e : HandEvent}
    → infer_for c r s b seat p ≡ ok e
    → is_deal e.kind ≡ false
unfolding infer_for
infer_for-is_no_deal c r s b seat p =
    no_deal_if (is_folded p.status || is_fold p.visible_action) _ _ (λ h. ground arith)
      λ h.
        let (target, _, k) = >>=-eq-ok _ (event_for c r s seat p) h in
        event_for-is_no_deal c r s seat p target k

player_known :
    (c : CollectorConfig) (r : ReplayedHandState) (s : SnapshotObservation) (b : Bool) (seat : ℕ)
    (o : Option PlayerObservation) {e : HandEvent}
    → elim o [ none ↦ err actor_disappeared | some p ↦ infer_for c r s b seat p ] ≡ ok e
    → is_deal e.kind ≡ false
player_known c r s b seat none h = cc
player_known c r s b seat (some p) h = infer_for-is_no_deal c r s b seat p h

actor_known :
    (c : CollectorConfig) (r : ReplayedHandState) (s : SnapshotObservation) (b : Bool)
    (o : Option ℕ) {e : HandEvent}
    → elim o [
      | none ↦ err no_actor
      | some seat ↦ elim (player_at seat s.players) [
        | none ↦ err actor_disappeared
        | some p ↦ infer_for c r s b seat p
      ]
    ]
      ≡ ok e
    → is_deal e.kind ≡ false
actor_known c r s b none h = cc
actor_known c r s b (some seat) h = player_known c r s b seat (player_at seat s.players) h

infer_action-is_no_deal :
    (c : CollectorConfig) (r : ReplayedHandState) (s : SnapshotObservation) (b : Bool)
    {e : HandEvent}
    → infer_action c r s b ≡ ok e
    → is_deal e.kind ≡ false
unfolding infer_action
infer_action-is_no_deal c r s b h = actor_known c r s b r.actor_seat h

deal_event-is_deal :
    (r : ReplayedHandState) (s : SnapshotObservation) {e : HandEvent}
    → deal_event r s ≡ ok e
    → is_deal e.kind ≡ true
unfolding deal_event ◌>>=◌
deal_event-is_deal r s h = ground arith

-- What the action of an advance leaves of the transcript.
data Acted (h : PublicHandHistory) (round_closed street_advanced : Bool)
    : PublicHandHistory → Type 0 where
  waits : round_closed ≡ true → street_advanced ≡ true → Acted h round_closed street_advanced h
  acted :
      (a : HandEvent)
      → is_deal a.kind ≡ false
      → round_closed ≡ false
      → Acted h round_closed street_advanced (with_events h (a ∷ []))

-- The transcript is the other with a move appended.
pub data Moved (h : PublicHandHistory) (round_closed street_advanced : Bool)
    : PublicHandHistory → Type 0 where
  moved :
      {move : List HandEvent}
      → IsMove round_closed street_advanced move
      → Moved h round_closed street_advanced (with_events h move)

append_event-Returns :
    (P : PublicHandHistory → Type 0) (h : PublicHandHistory) (e : HandEvent)
    → P (with_events h (e ∷ []))
    → Returns (λ (p : Progress). P p.0) (append_event h e)
unfolding append_event
append_event-Returns P h e k = Returns->>= _ _ λ replayed _. with_value k

acts-Returns :
    (c : CollectorConfig) (h : PublicHandHistory) (r : ReplayedHandState) (s : SnapshotObservation)
    (b : Bool)
    → Returns (λ (p : Progress). Acted h r.round_closed b p.0) (advance_action c h r s b)
unfolding advance_action
acts-Returns c h r s b =
    Returns-if r.round_closed _ _
      (λ t. Returns-raise_if (not b) board_not_observed _ λ n. with_value (waits t (ground arith)))
      (λ t. Returns->>= (infer_action c r s b) _ λ e k.
        append_event-Returns (Acted h r.round_closed b) h e
          (acted e (infer_action-is_no_deal c r s b k) t))

with_events_twice :
    (h : PublicHandHistory) (a d : HandEvent)
    → with_events h (a ∷ d ∷ []) ≡ with_events (with_events h (a ∷ [])) (d ∷ [])
with_events_twice h a d =
    ap (λ events. record h { events = events }) (sym (append_assoc h.events (a ∷ []) (d ∷ [])))

deal_after :
    (h : PublicHandHistory) (o : Bool) (k : PublicHandHistory) (d : HandEvent)
    → Acted h o true k
    → is_deal d.kind ≡ true
    → Moved h o true (with_events k (d ∷ []))
deal_after h o k d (waits t _) i = moved (deals d i t refl)
deal_after h o k d (acted a n t) i =
    subst (Moved h o true) (with_events_twice h a d) (moved (acts_and_deals a d n i t refl))

no_deal_after :
    (h : PublicHandHistory) (o : Bool) (k : PublicHandHistory)
    → Acted h o false k
    → Moved h o false k
no_deal_after h o k (waits _ t) = absurd (cc)
no_deal_after h o k (acted a n t) = moved (acts a n t refl)

deals-Returns :
    (h : PublicHandHistory) (o b : Bool) (s : SnapshotObservation) (p : Progress)
    → Acted h o b p.0
    → Returns (λ (q : Progress). Moved h o b q.0) (advance_deal b s p)
unfolding advance_deal
deals-Returns h o true s p k = Returns->>= (deal_event p.1 s) _ λ d e.
    append_event-Returns (Moved h o true) p.0 d
      (deal_after h o p.0 d k (deal_event-is_deal p.1 s e))
deals-Returns h o false s p k = with_value (no_deal_after h o p.0 k)

-- By the state that the transcript replays to: its round, and the observed street.
pub record Advanced (h : PublicHandHistory) (s : SnapshotObservation) (k : PublicHandHistory)
    : Type 0 where
  pub replayed : ReplayedHandState
  pub replays : replay_public_hand h ≡ ok replayed
  pub moves :
      Moved h replayed.round_closed (street_index s.street == street_index replayed.street + 1) k

-- An advance appends one action, one deal, or one action and the deal behind it, by the closed round
-- and the observed street, and changes nothing else of the transcript.
pub advance-Returns :
    (c : CollectorConfig) (h : PublicHandHistory) (s : SnapshotObservation)
    → Returns (Advanced h s) (advance c h s)
unfolding advance
advance-Returns c h s = Returns->>= _ _ λ r k. Returns-raise_if _ _ _ λ _.
    Returns->>= _ _ λ acted e. Returns->>= _ _ λ dealt f. Returns-raise_if _ _ _ λ m.
      with_value (record {
        replayed = r;
        replays = replayed_or-ok _ _ k;
        moves = Returns-ok (deals-Returns h _ _ s acted (Returns-ok (acts-Returns c h r s _) e)) f;
      })
