-- ===== src/Recorder/Statuses.antt =====
-- gto_event_collector.py: what each status of a probe says of its transcript.
use ranges.Prelude.{
  ℕ, ◌≡◌, refl, Bool, true, false, if◌then◌else◌, Option, none, some, [], String, length, ok, err,
  ◌>>=◌, Returns, with_value, Returns->>=, Returns-raise_if, Returns-ok,
}
use ranges.Hand.Types.{PublicHandHistory}
use ranges.Recorder.Observation.{Collected, RawSnapshot, SnapshotObservation, read_snapshot}
use ranges.Recorder.Anchor.{CollectorConfig, initial_history}
use ranges.Recorder.Advance.{advance}
use ranges.Recorder.Probe.{
  ProbeStatus, rejected, anchored, duplicate, advanced, new_hand_anchored, Probe, Recorder,
  event_count, continue_hand, evaluate, probe, probe_snapshot, probe_read, probe_result, keep_error,
  is_other_hand, anchor_as,
}
use ranges.Recorder.Moves.{Advanced, advance-Returns}

-- What a status says of the transcript, of the base count and of the observation, by the retained
-- transcript.
pub data Outcome
    : Option PublicHandHistory
      → ProbeStatus
      → Option PublicHandHistory
      → ℕ
      → Option SnapshotObservation
      → Type 0 where
  is_rejected :
      {o : Option PublicHandHistory} {n : ℕ} {s : Option SnapshotObservation}
      → Outcome o rejected none n s
  is_anchored :
      {h : PublicHandHistory} {s : SnapshotObservation}
      → h.events ≡ []
      → Outcome none anchored (some h) 0 (some s)
  is_new_hand :
      {g h : PublicHandHistory} {s : SnapshotObservation}
      → h.events ≡ []
      → Outcome (some g) new_hand_anchored (some h) 0 (some s)
  is_duplicate :
      {h : PublicHandHistory} {s : SnapshotObservation}
      → Outcome (some h) duplicate (some h) (length h.events) (some s)
  is_advanced :
      {g h : PublicHandHistory} {s : SnapshotObservation}
      → Advanced g s h
      → Outcome (some g) advanced (some h) (length g.events) (some s)

initial_history-Returns :
    (c : _) (s : SnapshotObservation)
    → Returns (λ (h : PublicHandHistory). h.events ≡ []) (initial_history c s)
unfolding initial_history
initial_history-Returns c s = Returns-raise_if _ _ _ λ _.
    Returns-raise_if _ _ _
      λ _. Returns->>= _ _ λ replayed e. Returns-raise_if _ _ _ λ m. with_value refl

Found :
    Option PublicHandHistory → ℕ → SnapshotObservation → ProbeStatus × PublicHandHistory → Type 0
Found o n s found = Outcome o found.0 (some found.1) n (some s)

continued-Returns :
    (c : CollectorConfig) (h : PublicHandHistory) (s : SnapshotObservation) (b : Bool)
    → Returns (Found (some h) (length h.events) s) (
        (if b then ok h else advance c h s) >>= λ history.
        ok (if b then duplicate else advanced, history))
unfolding Found ◌>>=◌
continued-Returns c h s true = with_value is_duplicate
continued-Returns c h s false =
    Returns->>= (advance c h s) _
      λ k e. with_value (is_advanced (Returns-ok (advance-Returns c h s) e))

continue_hand-Returns :
    (r : Recorder) (h : PublicHandHistory) (s : SnapshotObservation)
    → Returns (Found (some h) (length h.events) s) (continue_hand r h s)
unfolding continue_hand
continue_hand-Returns r h s = Returns->>= _ _ λ replayed _. continued-Returns r.config h s _

-- The base count of an accepted probe.
abbrev base : Option PublicHandHistory → String → ℕ
base o hand_id = if is_other_hand o hand_id then 0 else event_count o

anchor_as-Returns :
    (r : Recorder) (s : SnapshotObservation) → Returns (Found none 0 s) (anchor_as r anchored s)
unfolding Found
anchor_as-Returns r s =
    Returns->>= _ _
      λ h e. with_value (is_anchored (Returns-ok (initial_history-Returns r.config s) e))

anchor_as-new-Returns :
    (r : Recorder) (h : PublicHandHistory) (s : SnapshotObservation)
    → Returns (Found (some h) 0 s) (anchor_as r new_hand_anchored s)
unfolding Found
anchor_as-new-Returns r h s =
    Returns->>= _ _
      λ h e. with_value (is_new_hand (Returns-ok (initial_history-Returns r.config s) e))

either :
    (r : Recorder) (h : PublicHandHistory) (s : SnapshotObservation) (b : Bool)
    → Returns
        (Found (some h) (if b then 0 else length h.events) s)
        (if b then anchor_as r new_hand_anchored s else continue_hand r h s)
either r h s true = anchor_as-new-Returns r h s
either r h s false = continue_hand-Returns r h s

evaluate-Returns :
    (r : Recorder) (o : Option PublicHandHistory) (s : SnapshotObservation)
    → Returns (Found o (base o s.hand_id) s) (evaluate r o s)
unfolding evaluate
evaluate-Returns r none s = anchor_as-Returns r s
evaluate-Returns r (some h) s = either r h s (is_other_hand (some h) s.hand_id)

OutcomeOf : Recorder → Probe → Type 0
OutcomeOf r p = Outcome r.history p.status p.history p.base_event_count p.snapshot

result-Outcome :
    (r : Recorder) (s : SnapshotObservation) (m : Collected (ProbeStatus × PublicHandHistory))
    → Returns (Found r.history (base r.history s.hand_id) s) m
    → OutcomeOf r (probe_result r s m)
unfolding Found OutcomeOf
result-Outcome r s (ok found) k = Returns-ok k refl
result-Outcome r s (err e) k = is_rejected

read-Outcome : (r : Recorder) (m : Collected SnapshotObservation) → OutcomeOf r (probe_read r m)
unfolding probe_snapshot OutcomeOf
read-Outcome r (ok s) = result-Outcome r s _ (
    Returns->>= (keep_error r.error (is_other_hand r.history s.hand_id)) _
      λ _ _. evaluate-Returns r r.history s)
read-Outcome r (err e) = is_rejected

-- A rejected probe has no transcript; one that anchors has a transcript without events, for no
-- retained transcript or in place of one; a duplicate has the retained transcript; one that
-- advances has the retained transcript with one action behind it if the round was open and the
-- street is the same, one deal if the round was closed and the next street is observed, an action
-- and a deal if the round was open and the next street is observed, and nothing else changed.
pub probe-Outcome :
    (r : Recorder) (raw : RawSnapshot)
    → Outcome r.history
        (probe r raw).status
        (probe r raw).history
        (probe r raw).base_event_count
        (probe r raw).snapshot
unfolding probe OutcomeOf
probe-Outcome r raw = read-Outcome r (read_snapshot raw)
