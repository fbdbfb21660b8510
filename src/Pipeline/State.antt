-- ===== src/Pipeline/State.antt =====
-- public_history_pipeline.py: the data of `PublicHistoryCoordinator` and its construction. Frame ids
-- are natural numbers, hand ids are trimmed texts and the empty text is no hand; a set is the list of
-- what was added. The recorder that `recorder_factory` makes has the configuration `config` and a
-- token that no earlier recorder has had.
use ranges.Prelude.{
  ℕ, Bool, false, not, Option, none, some, List, [], ◌∷◌, String, str_eq, if◌then◌else◌, Result, ok,
  ◌==◌, raise_if, ◌>>◌,
}
use ranges.Hand.Types.{PublicHandHistory}
use ranges.Recorder.Observation.{CollectionError, RawSnapshot}
use ranges.Recorder.Anchor.{CollectorConfig}
use ranges.Recorder.Probe.{Recorder, new_recorder, event_count}

-- `PublicHistoryStatus`
pub data PublicHistoryStatus : Type 0 where
  waiting_for_anchor tracking gapped : PublicHistoryStatus

-- `CandidateDisposition`
pub data CandidateDisposition : Type 0 where
  anchored new_hand_anchored advanced duplicate rejected ignored_gapped_hand : CandidateDisposition

-- The exceptions that the methods raise, by their places; `recorder_error` is one of the recorder's.
pub data PipelineError : Type 0 where
  frame_not_positive behind_watermark already_processed already_buffered : PipelineError
  watermark_backwards empty_reason empty_hand_id through_not_positive : PipelineError
  assertion_history hand_mismatch missing_candidate : PipelineError
  recorder_error : CollectionError → PipelineError

abbrev pub Checked : Type 0 → Type 0
Checked A = Result PipelineError A

-- The texts of `error` and `_last_rejection`.
pub data Rejection : Type 0 where
  retired_anchor retired_replacement gapped_by : String → Rejection
  not_accepted : CollectionError → Rejection

-- The text `probe.error`.
abbrev pub rejection_of : Option CollectionError → Option Rejection
rejection_of none = none
rejection_of (some e) = some (not_accepted e)

-- `PublicObservationCandidate` and its check.
pub record Candidate : Type 0 where
  pub frame_id : ℕ
  pub snapshot : RawSnapshot

unfoldable pub check_candidate : Candidate → Checked Candidate
check_candidate c = do raise_if (c.frame_id == 0) frame_not_positive; ok c

pub record CandidateResult : Type 0 where
  pub frame_id : ℕ
  pub disposition : CandidateDisposition
  pub status : PublicHistoryStatus
  pub hand_id : String
  pub error : Option Rejection
  pub event_count : ℕ

-- `AcceptedPublicHistoryFrame` and its checks.
pub record AcceptedFrame : Type 0 where
  pub frame_id : ℕ
  pub snapshot : RawSnapshot
  pub history : PublicHandHistory

unfoldable pub check_frame : AcceptedFrame → Checked AcceptedFrame
check_frame a = do
  raise_if (a.frame_id == 0) frame_not_positive
  raise_if (not (str_eq a.snapshot.hand_id a.history.hand_id)) hand_mismatch
  ok a

pub record Coordinator : Type 0 where
  pub config : CollectorConfig
  pub next_owner : ℕ
  pub recorder : Recorder
  pub status : PublicHistoryStatus
  pub active_hand_id : String
  pub expected_hand_id : String
  pub decoder_watermark : ℕ
  pub proven_through_frame_id : ℕ
  pub last_processed_frame_id : ℕ
  pub pending : List Candidate
  pub gap_reason : String
  pub gap_frame_id : Option ℕ
  pub gapped_hand_ids : List String
  pub unknown_hand_before_gap : Bool
  pub unresolved_rejections : List (ℕ × String)
  pub retired_hand_ids : List String
  pub last_rejection : Option Rejection
  pub accepted_frame : Option AcceptedFrame

-- `_make_recorder`
abbrev pub make_recorder : Coordinator → Recorder
make_recorder k = new_recorder k.config k.next_owner

unfoldable pub new_coordinator : CollectorConfig → Coordinator
new_coordinator c = record {
  config = c;
  next_owner = 1;
  recorder = new_recorder c 0;
  status = waiting_for_anchor;
  active_hand_id = "";
  expected_hand_id = "";
  decoder_watermark = 0;
  proven_through_frame_id = 0;
  last_processed_frame_id = 0;
  pending = [];
  gap_reason = "";
  gap_frame_id = none;
  gapped_hand_ids = [];
  unknown_hand_before_gap = false;
  unresolved_rejections = [];
  retired_hand_ids = [];
  last_rejection = none;
  accepted_frame = none;
}

-- `a or b` on texts.
abbrev pub text_or : String → String → String
text_or a b = if str_eq a "" then b else a

-- `s.add(text)` where the text is not empty.
abbrev pub add_text : String → List String → List String
add_text t ts = if str_eq t "" then ts else t ∷ ts

-- The number of events of the recorder's transcript, 0 without one.
abbrev pub events_of : Coordinator → ℕ
events_of k = event_count k.recorder.history
