-- ===== src/Recorder/Probe.antt =====
-- gto_event_collector.py: `PublicEventProbe` and the state and methods of `PublicHandEventRecorder`.
-- Every method holds the recorder's lock, so it is one step on the state.
use ranges.Prelude.{
  ℕ, ◌+◌, ◌-◌, Bool, true, false, not, ◌&&◌, Option, none, some, String, ◌==◌, if◌then◌else◌,
  length, str_eq, ok, err, raise_if, ◌>>=◌, ◌>>◌,
}
use ranges.Hand.Types.{PublicHandHistory}
use ranges.Hand.Run.{replay_public_hand}
use ranges.Recorder.Observation.{
  CollectionError, Collected, RawSnapshot, SnapshotObservation, read_snapshot, capture_gap,
  empty_reason, bad_hand, foreign_probe, rejected_probe, stale_probe,
}
use ranges.Recorder.Anchor.{CollectorConfig, matches, replayed_or, initial_history}
use ranges.Recorder.Infer.{new_explicit_action}
use ranges.Recorder.Advance.{advance}

-- `PublicEventProbeStatus`
pub data ProbeStatus : Type 0 where
  rejected anchored duplicate advanced new_hand_anchored : ProbeStatus

-- The token that ties a probe to its recorder is a number; `error` is None for the empty text.
pub record Probe : Type 0 where
  pub status : ProbeStatus
  pub base_version : ℕ
  pub candidate_hand_id : String
  pub replaces_hand : Bool
  pub history : Option PublicHandHistory
  pub error : Option CollectionError
  pub base_event_count : ℕ
  pub snapshot : Option SnapshotObservation
  pub owner : ℕ

pub record Recorder : Type 0 where
  pub config : CollectorConfig
  pub history : Option PublicHandHistory
  pub last_snapshot : Option SnapshotObservation
  pub error : Option CollectionError
  pub version : ℕ
  pub owner : ℕ

unfoldable pub new_recorder : CollectorConfig → ℕ → Recorder
new_recorder c owner = record {
  config = c;
  history = none;
  last_snapshot = none;
  error = none;
  version = 0;
  owner = owner;
}

abbrev pub is_accepted : ProbeStatus → Bool
is_accepted rejected = false
is_accepted _ = true

abbrev pub event_count : Option PublicHandHistory → ℕ
event_count none = 0
event_count (some h) = length h.events

-- `PublicEventProbe.events_added`
unfoldable pub events_added : Probe → ℕ
events_added p = if is_accepted p.status then event_count p.history - p.base_event_count else 0

abbrev pub has_error : Option CollectionError → Bool
has_error none = false
has_error (some e) = true

-- The property `complete`.
unfoldable pub complete : Recorder → Bool
complete r = elim r.history [ none ↦ false | some h ↦ not (has_error r.error) ]

unfoldable pub reset : Recorder → Recorder
reset r = record r { history = none; last_snapshot = none; error = none; version = r.version + 1 }

unfoldable pub invalidate_gap : String → Recorder → Collected Recorder
invalidate_gap reason r = do
  raise_if (str_eq reason "") empty_reason
  ok (record r { error = some (capture_gap reason); version = r.version + 1 })

-- The retained hand is another one.
abbrev pub is_other_hand : Option PublicHandHistory → String → Bool
is_other_hand none hand_id = false
is_other_hand (some h) hand_id = not (str_eq hand_id h.hand_id)

abbrev pub keep_error : Option CollectionError → Bool → Collected (Unit {0})
keep_error none replaces_hand = ok tt
keep_error (some e) replaces_hand = if replaces_hand then ok tt else err e

-- The status and the transcript of an accepted probe of the retained hand.
unfoldable pub continue_hand :
    Recorder → PublicHandHistory → SnapshotObservation → Collected (ProbeStatus × PublicHandHistory)
continue_hand r h s = do
  replayed ← replayed_or bad_hand (replay_public_hand h)
  let is_same = matches r.config replayed s
  let is_new = new_explicit_action replayed.actor_seat r.last_snapshot s
  history ← if is_same && not is_new then ok h else advance r.config h s
  ok (if is_same && not is_new then duplicate else advanced, history)

abbrev pub anchor_as :
    Recorder → ProbeStatus → SnapshotObservation → Collected (ProbeStatus × PublicHandHistory)
anchor_as r status s = do history ← initial_history r.config s; ok (status, history)

-- The branches of `probe` behind the test of the retained error.
unfoldable pub evaluate :
    Recorder
    → Option PublicHandHistory
    → SnapshotObservation
    → Collected (ProbeStatus × PublicHandHistory)
unfolding continue_hand
evaluate r none s = anchor_as r anchored s
evaluate r (some h) s =
    if is_other_hand (some h) s.hand_id
    then anchor_as r new_hand_anchored s
    else continue_hand r h s

abbrev pub accepted_probe : Recorder → SnapshotObservation → ProbeStatus × PublicHandHistory → Probe
accepted_probe r s found = record {
  status = found.0;
  base_version = r.version;
  candidate_hand_id = s.hand_id;
  replaces_hand = is_other_hand r.history s.hand_id;
  history = some found.1;
  error = none;
  base_event_count = if is_other_hand r.history s.hand_id then 0 else event_count r.history;
  snapshot = some s;
  owner = r.owner;
}

abbrev pub rejected_as :
    Recorder → String → Bool → Option SnapshotObservation → CollectionError → Probe
rejected_as r hand_id replaces_hand s e = record {
  status = rejected;
  base_version = r.version;
  candidate_hand_id = hand_id;
  replaces_hand = replaces_hand;
  history = none;
  error = some e;
  base_event_count = event_count r.history;
  snapshot = s;
  owner = r.owner;
}

abbrev pub probe_result :
    Recorder → SnapshotObservation → Collected (ProbeStatus × PublicHandHistory) → Probe
probe_result r s (ok found) = accepted_probe r s found
probe_result r s (err e) = rejected_as r s.hand_id (is_other_hand r.history s.hand_id) (some s) e

unfoldable pub probe_snapshot : Recorder → SnapshotObservation → Probe
unfolding evaluate
probe_snapshot r s =
    probe_result r s
      (keep_error r.error (is_other_hand r.history s.hand_id) >> evaluate r r.history s)

abbrev pub probe_read : Recorder → Collected SnapshotObservation → Probe
probe_read r (ok s) = probe_snapshot r s
probe_read r (err e) = rejected_as r "" false none e

unfoldable pub probe : Recorder → RawSnapshot → Probe
probe r raw = probe_read r (read_snapshot raw)

-- `commit` behind the tests of the status and of its values.
abbrev pub commit_values :
    Recorder
    → Probe
    → Option PublicHandHistory
    → Option SnapshotObservation
    → Collected (Recorder × PublicHandHistory)
commit_values r p (some h) (some s) = do
  raise_if (not (p.base_version == r.version)) stale_probe
  ok (
    record r { history = some h; last_snapshot = some s; error = none; version = r.version + 1 },
    h,
  )
commit_values r p _ _ = err rejected_probe

unfoldable pub commit : Probe → Recorder → Collected (Recorder × PublicHandHistory)
commit p r = do
  raise_if (not (p.owner == r.owner)) foreign_probe
  raise_if (not (is_accepted p.status)) rejected_probe
  commit_values r p p.history p.snapshot

-- `observe`: the recorder behind one frame, and the transcript if the frame was accepted.
unfoldable pub observe : RawSnapshot → Recorder → Collected (Recorder × Option PublicHandHistory)
observe raw r =
    let p = probe r raw in
    let base = if p.replaces_hand then reset r else r in
    if is_accepted p.status
    then (do done ← commit p r; ok (done.0, some done.1))
    else ok (record base { error = p.error; version = base.version + 1 }, none)
