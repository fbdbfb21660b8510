-- ===== src/Recorder/Shows.antt =====
-- gto_event_collector.py: the observation and the transcript of an accepted probe.
use ranges.Prelude.{
  ◌≡◌, refl, Bool, true, false, not, ◌&&◌, if◌then◌else◌, Option, none, some, ok, err, Returns,
  with_value, Returns->>=, Returns-raise_if, Returns-if, Returns-ok, arith,
}
use ranges.Hand.Types.{HandError, Checked, PublicHandHistory}
use ranges.Hand.View.{ReplayedHandState}
use ranges.Hand.Run.{replay_public_hand}
use ranges.Recorder.Observation.{
  CollectionError, Collected, RawSnapshot, SnapshotObservation, read_snapshot, board_not_observed,
}
use ranges.Recorder.Anchor.{CollectorConfig, matches, replayed_or, initial_history, anchor_history}
use ranges.Recorder.Infer.{infer_action, new_explicit_action}
use ranges.Recorder.Advance.{
  advance, deal_event, advance_action, advance_deal, append_event, Progress,
}
use ranges.Recorder.Probe.{
  ProbeStatus, Probe, Recorder, is_accepted, continue_hand, evaluate, probe, probe_snapshot,
  probe_read, probe_result, keep_error, is_other_hand, anchor_as,
}

-- The transcript replays, to a state that the observation matches.
unfoldable pub Shows : CollectorConfig → SnapshotObservation → PublicHandHistory → Type 0
Shows c s h =
    (replayed : ReplayedHandState) × (replay_public_hand h ≡ ok replayed)
    × (matches c replayed s ≡ true)

not-false : (b : Bool) → not b ≡ false → b ≡ true
not-false b h = ground arith

pub replayed_or-ok :
    {A : Type 0} (f : HandError → CollectionError) (m : Checked A) {a : A}
    → replayed_or f m ≡ ok a
    → m ≡ ok a
replayed_or-ok f (ok a) h = cc
replayed_or-ok f (err e) h = cc

shown :
    (c : CollectorConfig) (s : SnapshotObservation) (h : PublicHandHistory)
    (replayed : ReplayedHandState)
    → replay_public_hand h ≡ ok replayed
    → (not (matches c replayed s)) ≡ false
    → Shows c s h
unfolding Shows
shown c s h replayed e m = (replayed, e, not-false _ m)

initial_history-Returns :
    (c : CollectorConfig) (s : SnapshotObservation) → Returns (Shows c s) (initial_history c s)
unfolding initial_history
initial_history-Returns c s = Returns-raise_if _ _ _ λ _. Returns-raise_if _ _ _ λ _.
    Returns->>= _ _ λ replayed e.
      Returns-raise_if _ _ _
        λ m. with_value (shown c s (anchor_history c s) replayed (replayed_or-ok _ _ e) m)

IsReplay : Progress → Type 0
IsReplay p = replay_public_hand p.0 ≡ ok p.1

append_event-Returns : (h : PublicHandHistory) (e : _) → Returns IsReplay (append_event h e)
unfolding append_event IsReplay
append_event-Returns h e = Returns->>= _ _ λ replayed k. with_value (replayed_or-ok _ _ k)

advance_action-Returns :
    (c : CollectorConfig) (h : PublicHandHistory) (r : ReplayedHandState) (s : SnapshotObservation)
    (b : Bool)
    → replay_public_hand h ≡ ok r
    → Returns IsReplay (advance_action c h r s b)
unfolding advance_action IsReplay
advance_action-Returns c h r s b k =
    Returns-if r.round_closed _ _
      (λ _. Returns-raise_if (not b) board_not_observed _ λ _. with_value k)
      (λ _. Returns->>= (infer_action c r s b) _ λ e _. append_event-Returns h e)

advance_deal-Returns :
    (b : Bool) (s : SnapshotObservation) (p : Progress)
    → IsReplay p
    → Returns IsReplay (advance_deal b s p)
unfolding advance_deal
advance_deal-Returns b s p k =
    Returns-if b _ _ (λ _. Returns->>= (deal_event p.1 s) _ λ e _. append_event-Returns p.0 e)
      (λ _. with_value k)

advance-Returns :
    (c : CollectorConfig) (h : PublicHandHistory) (s : SnapshotObservation)
    → Returns (Shows c s) (advance c h s)
unfolding advance IsReplay
advance-Returns c h s = Returns->>= _ _ λ r k. Returns-raise_if _ _ _ λ _.
    Returns->>= _ _ λ acted e. Returns->>= _ _ λ dealt f. Returns-raise_if _ _ _ λ m. with_value (
      shown c s dealt.0 dealt.1
        (Returns-ok
          (advance_deal-Returns _ s acted
            (Returns-ok (advance_action-Returns c h r s _ (replayed_or-ok _ _ k)) e))
          f)
        m)

continue_hand-Returns :
    (r : Recorder) (h : PublicHandHistory) (s : SnapshotObservation)
    → Returns
        (λ (found : ProbeStatus × PublicHandHistory). Shows r.config s found.1)
        (continue_hand r h s)
unfolding continue_hand
continue_hand-Returns r h s = Returns->>= _ _ λ replayed k.
    let same =
      matches r.config replayed s
      && not (new_explicit_action replayed.actor_seat r.last_snapshot s) in
    Returns->>= (if same then ok h else advance r.config h s) _ λ history e. with_value (
      Returns-ok
        (Returns-if same _ _
          (λ t. with_value (shown r.config s h replayed (replayed_or-ok _ _ k) (ground arith)))
          (λ _. advance-Returns r.config h s))
        e)

anchor_as-Returns :
    (r : Recorder) (status : ProbeStatus) (s : SnapshotObservation)
    → Returns
        (λ (found : ProbeStatus × PublicHandHistory). Shows r.config s found.1)
        (anchor_as r status s)
anchor_as-Returns r status s =
    Returns->>= _ _ λ h e. with_value (Returns-ok (initial_history-Returns r.config s) e)

evaluate-Returns :
    (r : Recorder) (o : Option PublicHandHistory) (s : SnapshotObservation)
    → Returns
        (λ (found : ProbeStatus × PublicHandHistory). Shows r.config s found.1)
        (evaluate r o s)
unfolding evaluate
evaluate-Returns r none s = anchor_as-Returns r _ s
evaluate-Returns r (some h) s =
    Returns-if (is_other_hand (some h) s.hand_id) _ _ (λ _. anchor_as-Returns r _ s)
      (λ _. continue_hand-Returns r h s)

-- What an accepted probe carries.
pub record IsProof (r : Recorder) (raw : RawSnapshot) (p : Probe) : Type 0 where
  pub snapshot : SnapshotObservation
  pub history : PublicHandHistory
  pub was_read : read_snapshot raw ≡ ok snapshot
  pub has_snapshot : p.snapshot ≡ some snapshot
  pub has_history : p.history ≡ some history
  pub shows : Shows r.config snapshot history

probe_result-IsProof :
    (r : Recorder) (raw : RawSnapshot) (s : SnapshotObservation)
    (m : Collected (ProbeStatus × PublicHandHistory))
    → read_snapshot raw ≡ ok s
    → Returns (λ (found : ProbeStatus × PublicHandHistory). Shows r.config s found.1) m
    → is_accepted (probe_result r s m).status ≡ true
    → IsProof r raw (probe_result r s m)
probe_result-IsProof r raw s (ok found) e k a = record {
  snapshot = s;
  history = found.1;
  was_read = e;
  has_snapshot = refl;
  has_history = refl;
  shows = Returns-ok k refl;
}
probe_result-IsProof r raw s (err x) e k a = absurd (cc)

probe_snapshot-IsProof :
    (r : Recorder) (raw : RawSnapshot) (s : SnapshotObservation)
    → read_snapshot raw ≡ ok s
    → is_accepted (probe_snapshot r s).status ≡ true
    → IsProof r raw (probe_snapshot r s)
unfolding probe_snapshot
probe_snapshot-IsProof r raw s e a =
    probe_result-IsProof r raw s _ e
      (Returns->>= (keep_error r.error (is_other_hand r.history s.hand_id)) _
        λ _ _. evaluate-Returns r r.history s)
      a

probe_read-IsProof :
    (r : Recorder) (raw : RawSnapshot) (m : Collected SnapshotObservation)
    → read_snapshot raw ≡ m
    → is_accepted (probe_read r m).status ≡ true
    → IsProof r raw (probe_read r m)
probe_read-IsProof r raw (ok s) e a = probe_snapshot-IsProof r raw s e a
probe_read-IsProof r raw (err x) e a = absurd (cc)

-- A probe that a recorder accepts carries the observation that was read from the snapshot and a
-- transcript that replays, to a state which that observation matches.
pub probe-IsProof :
    (r : Recorder) (raw : RawSnapshot)
    → is_accepted (probe r raw).status ≡ true
    → IsProof r raw (probe r raw)
unfolding probe
probe-IsProof r raw a = probe_read-IsProof r raw (read_snapshot raw) refl a
