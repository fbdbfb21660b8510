-- ===== src/Pipeline/Readiness.antt =====
-- public_history_pipeline.py: what the coordinator answers, `readiness`, `view` and
-- `latest_accepted_frame`. A bundle is an immutable value, so copies of it are itself.
use ranges.Prelude.{
  ℕ, Bool, true, false, not, ◌||◌, ◌&&◌, Option, none, some, String, str_eq, if◌then◌else◌, ok, ltb,
  ◌==◌, raise_if, ◌>>=◌, ◌>>◌, length, is_empty,
}
use ranges.Hand.Types.{PublicHandHistory}
use ranges.Hand.Equality.{same_history}
use ranges.Recorder.Observation.{CollectionError}
use ranges.Recorder.Probe.{complete}
use ranges.Pipeline.State.{
  PublicHistoryStatus, waiting_for_anchor, tracking, gapped, Rejection, empty_hand_id,
  through_not_positive, Checked, AcceptedFrame, Coordinator, text_or,
}
use ranges.Pipeline.Process.{is_blank}

-- The texts of `reason`.
pub data Reason : Type 0 where
  is_waiting wrong_hand decoder_behind not_proven proven_further decoder_further
        bundle_unavailable :
      Reason
  is_gapped : String → Reason
  recorder_incomplete : Option CollectionError → Reason

-- `PublicHistoryReadiness`; `reason` is none for the empty text.
pub record PublicHistoryReadiness : Type 0 where
  pub ready : Bool
  pub reason : Option Reason
  pub status : PublicHistoryStatus
  pub hand_id : String
  pub through_frame_id : ℕ
  pub decoder_watermark : ℕ
  pub proven_through_frame_id : ℕ
  pub history : Option PublicHandHistory
  pub accepted_frame : Option AcceptedFrame

pub record PublicHistoryView : Type 0 where
  pub status : PublicHistoryStatus
  pub hand_id : String
  pub history : Option PublicHandHistory
  pub decoder_watermark : ℕ
  pub proven_through_frame_id : ℕ
  pub last_processed_frame_id : ℕ
  pub pending_candidates : ℕ
  pub gap_reason : String
  pub gap_frame_id : Option ℕ
  pub last_rejection : Option Rejection
  pub accepted_frame : Option AcceptedFrame

abbrev pub is_tracking : PublicHistoryStatus → Bool
is_tracking tracking = true
is_tracking _ = false

-- The bundle is of the frame, and its transcript is the recorder's.
abbrev pub is_bundle_of : ℕ → Option AcceptedFrame → Option PublicHandHistory → Bool
is_bundle_of frame_id (some a) (some h) = a.frame_id == frame_id && same_history a.history h
is_bundle_of frame_id _ _ = false

-- `_accepted_is_current_locked`
unfoldable pub accepted_is_current : Coordinator → Bool
accepted_is_current k =
    is_tracking k.status
    && complete k.recorder
    && is_empty k.pending
    && is_bundle_of k.proven_through_frame_id k.accepted_frame k.recorder.history
    && k.decoder_watermark == k.proven_through_frame_id

unfoldable pub latest_accepted_frame : Coordinator → Option AcceptedFrame
unfolding accepted_is_current
latest_accepted_frame k = if accepted_is_current k then k.accepted_frame else none

unfoldable pub view : Coordinator → PublicHistoryView
unfolding latest_accepted_frame
view k = record {
  status = k.status;
  hand_id = text_or k.active_hand_id k.expected_hand_id;
  history = k.recorder.history;
  decoder_watermark = k.decoder_watermark;
  proven_through_frame_id = k.proven_through_frame_id;
  last_processed_frame_id = k.last_processed_frame_id;
  pending_candidates = length k.pending;
  gap_reason = k.gap_reason;
  gap_frame_id = k.gap_frame_id;
  last_rejection = k.last_rejection;
  accepted_frame = latest_accepted_frame k;
}

-- The chain of tests while a hand is tracked; `none` where the answer is ready.
unfoldable pub tracking_reason : String → ℕ → Coordinator → Option Reason
tracking_reason hand_id through k =
    if not (str_eq k.active_hand_id hand_id)
    then some wrong_hand
    else if ltb k.decoder_watermark through
    then some decoder_behind
    else if ltb k.proven_through_frame_id through
    then some not_proven
    else if ltb through k.proven_through_frame_id
    then some proven_further
    else if ltb through k.decoder_watermark
    then some decoder_further
    else if not (complete k.recorder)
    then some (recorder_incomplete k.recorder.error)
    else if not (is_bundle_of through k.accepted_frame k.recorder.history)
        || not (is_empty k.pending)
    then some bundle_unavailable
    else none

abbrev pub reason_as : PublicHistoryStatus → String → ℕ → Coordinator → Option Reason
reason_as waiting_for_anchor hand_id through k = some is_waiting
reason_as gapped hand_id through k = some (is_gapped k.gap_reason)
reason_as tracking hand_id through k = tracking_reason hand_id through k

abbrev pub is_none : {A : Type 0} → Option A → Bool
is_none none = true
is_none (some a) = false

unfoldable pub readiness : String → ℕ → Coordinator → Checked PublicHistoryReadiness
unfolding tracking_reason
readiness hand_id through k = do
  raise_if (is_blank hand_id) empty_hand_id
  raise_if (through == 0) through_not_positive
  let reason = reason_as k.status hand_id through k
  ok (record {
    ready = is_none reason;
    reason = reason;
    status = k.status;
    hand_id = text_or k.active_hand_id k.expected_hand_id;
    through_frame_id = through;
    decoder_watermark = k.decoder_watermark;
    proven_through_frame_id = k.proven_through_frame_id;
    history = if is_none reason then k.recorder.history else none;
    accepted_frame = if is_none reason then k.accepted_frame else none;
  })

unfoldable pub accepted_frame_if_ready : String → ℕ → Coordinator → Checked (Option AcceptedFrame)
unfolding readiness
accepted_frame_if_ready hand_id through k = do
  found ← readiness hand_id through k
  ok found.accepted_frame

unfoldable pub history_if_ready : String → ℕ → Coordinator → Checked (Option PublicHandHistory)
unfolding readiness
history_if_ready hand_id through k = do found ← readiness hand_id through k; ok found.history
