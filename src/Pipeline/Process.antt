-- ===== src/Pipeline/Process.antt =====
-- public_history_pipeline.py: `_replace_with_waiting_recorder`, `_accepted_result` and what is done
-- with one candidate in each status.
use ranges.Prelude.{
  ℕ, ◌+◌, Bool, false, not, ◌||◌, ◌&&◌, Option, none, some, [], String, str_eq, str_elem,
  if◌then◌else◌, ok, err, leb, ◌>>=◌, length,
}
use ranges.Hand.Types.{PublicHandHistory}
use ranges.Recorder.Observation.{Collected}
use ranges.Recorder.Probe.{Recorder, Probe, ProbeStatus, is_accepted, probe, commit}
use ranges.Recorder.Probe
use ranges.Pipeline.State.{
  PublicHistoryStatus, waiting_for_anchor, tracking, gapped, CandidateDisposition, anchored,
  new_hand_anchored, advanced, duplicate, rejected, ignored_gapped_hand, assertion_history,
  recorder_error, Checked, Rejection, retired_anchor, retired_replacement, gapped_by, rejection_of,
  Candidate, CandidateResult, AcceptedFrame, check_frame, Coordinator, make_recorder, text_or,
  add_text, events_of,
}

-- The coordinator behind a candidate, and the candidate's result.
abbrev pub Processed : Type 0
Processed = Coordinator × CandidateResult

abbrev pub is_blank : String → Bool
is_blank t = str_eq t ""

-- A result without a transcript, or with the one that is retained.
abbrev pub rejected_result :
    Candidate → Coordinator → String → Option Rejection → ℕ → CandidateResult
rejected_result c k hand_id error event_count = record {
  frame_id = c.frame_id;
  disposition = rejected;
  status = k.status;
  hand_id = hand_id;
  error = error;
  event_count = event_count;
}

-- `_replace_with_waiting_recorder`
unfoldable pub replace_with_waiting_recorder : String → Coordinator → Coordinator
replace_with_waiting_recorder expected_hand_id k = record k {
  recorder = make_recorder k;
  next_owner = k.next_owner + 1;
  status = waiting_for_anchor;
  active_hand_id = "";
  expected_hand_id = expected_hand_id;
  proven_through_frame_id = 0;
  gap_reason = "";
  gap_frame_id = none;
  gapped_hand_ids = [];
  unknown_hand_before_gap = false;
  unresolved_rejections = [];
  accepted_frame = none;
}

-- The state that `_accepted_result` leaves.
abbrev pub accepted_state :
    Candidate → PublicHandHistory → AcceptedFrame → Coordinator → Coordinator
accepted_state c h frame k = record k {
  status = tracking;
  active_hand_id = h.hand_id;
  expected_hand_id = h.hand_id;
  proven_through_frame_id = c.frame_id;
  gap_reason = "";
  gap_frame_id = none;
  gapped_hand_ids = [];
  unknown_hand_before_gap = false;
  unresolved_rejections = [];
  last_rejection = none;
  accepted_frame = some frame;
}

abbrev pub accept_with :
    Candidate → CandidateDisposition → Coordinator → Option PublicHandHistory → Checked Processed
accept_with c disposition k none = err assertion_history
accept_with c disposition k (some h) = do
  frame ← check_frame (record { frame_id = c.frame_id; snapshot = c.snapshot; history = h })
  ok (
    accepted_state c h frame k,
    record {
      frame_id = c.frame_id;
      disposition = disposition;
      status = tracking;
      hand_id = h.hand_id;
      error = none;
      event_count = length h.events;
    },
  )

-- `_accepted_result`
unfoldable pub accepted_result : Candidate → CandidateDisposition → Coordinator → Checked Processed
accepted_result c disposition k = accept_with c disposition k k.recorder.history

-- `self._recorder.commit(probe)`
abbrev pub recorded : {A : Type 0} → Collected A → Checked A
recorded (ok a) = ok a
recorded (err e) = err (recorder_error e)

-- Another recorder of the coordinator, behind the commit of a probe.
unfoldable pub commit_to : Probe → Recorder → Coordinator → Checked Coordinator
commit_to p r k = do done ← recorded (commit p r); ok (record k { recorder = done.0 })

-- `_process_waiting` behind the test of the retired hands.
unfoldable pub waiting_probed : Candidate → Probe → Coordinator → Checked Processed
waiting_probed c p k =
    let hand_id = text_or p.candidate_hand_id c.snapshot.hand_id in
    if is_accepted p.status
    then (do k' ← commit_to p k.recorder k; accepted_result c anchored k')
    else ok (
      record k {
        expected_hand_id = text_or hand_id k.expected_hand_id;
        last_rejection = rejection_of p.error;
      },
      rejected_result c k hand_id (rejection_of p.error) 0,
    )

unfoldable pub process_waiting : Candidate → Coordinator → Checked Processed
process_waiting c k =
    let raw_hand_id = c.snapshot.hand_id in
    let error = some (retired_anchor raw_hand_id) in
    if not (is_blank raw_hand_id) && str_elem raw_hand_id k.retired_hand_ids
    then ok (record k { last_rejection = error }, rejected_result c k raw_hand_id error 0)
    else waiting_probed c (probe k.recorder c.snapshot) k

-- The dictionary of `_process_tracking`; a rejected probe is not looked up.
abbrev pub disposition_of : ProbeStatus → CandidateDisposition
disposition_of Probe.new_hand_anchored = new_hand_anchored
disposition_of Probe.duplicate = duplicate
disposition_of Probe.advanced = advanced
disposition_of Probe.anchored = anchored
disposition_of Probe.rejected = rejected

-- A rejected probe of another hand ends the retained one.
unfoldable pub end_hand : Probe → String → Coordinator → Coordinator
unfolding replace_with_waiting_recorder
end_hand p hand_id k =
    if p.replaces_hand || (not (is_blank hand_id) && not (str_eq hand_id k.active_hand_id))
    then replace_with_waiting_recorder hand_id
        (record k { retired_hand_ids = add_text k.active_hand_id k.retired_hand_ids })
    else k

-- `_process_tracking` behind the test of the retired hands.
unfoldable pub tracking_probed : Candidate → Probe → Coordinator → Checked Processed
unfolding end_hand
tracking_probed c p k =
    let hand_id = text_or p.candidate_hand_id c.snapshot.hand_id in
    let ended = end_hand p hand_id k in
    let is_replaced = p.replaces_hand && not (str_eq k.active_hand_id hand_id) in
    let retired =
      if is_replaced then add_text k.active_hand_id k.retired_hand_ids else k.retired_hand_ids in
    if is_accepted p.status
    then (do
      k' ← commit_to p k.recorder k
      accepted_result c (disposition_of p.status) (record k' { retired_hand_ids = retired }))
    else ok (
      record ended { last_rejection = rejection_of p.error },
      rejected_result c ended (text_or hand_id ended.active_hand_id) (rejection_of p.error)
          (events_of ended),
    )

unfoldable pub process_tracking : Candidate → Coordinator → Checked Processed
process_tracking c k =
    let raw_hand_id = c.snapshot.hand_id in
    let error = some (retired_replacement raw_hand_id) in
    if not (is_blank raw_hand_id)
      && not (str_eq raw_hand_id k.active_hand_id)
      && str_elem raw_hand_id k.retired_hand_ids
    then ok
        (record k { last_rejection = error }, rejected_result c k raw_hand_id error (events_of k))
    else tracking_probed c (probe k.recorder c.snapshot) k

-- The frame is not behind the gap.
abbrev pub up_to_gap : Option ℕ → ℕ → Bool
up_to_gap none frame_id = false
up_to_gap (some gap_frame_id) frame_id = leb frame_id gap_frame_id

-- A candidate that is not behind the gap blocks its hand, or every hand if it names none.
unfoldable pub note_gapped : Candidate → Coordinator → Coordinator
note_gapped c k =
    if up_to_gap k.gap_frame_id c.frame_id
    then record k {
      gapped_hand_ids = add_text c.snapshot.hand_id k.gapped_hand_ids;
      unknown_hand_before_gap = is_blank c.snapshot.hand_id || k.unknown_hand_before_gap;
    }
    else k

unfoldable pub is_ignored : Candidate → Coordinator → Bool
is_ignored c k =
    k.unknown_hand_before_gap
    || is_blank c.snapshot.hand_id
    || str_elem c.snapshot.hand_id k.gapped_hand_ids
    || str_elem c.snapshot.hand_id k.retired_hand_ids
    || up_to_gap k.gap_frame_id c.frame_id

-- `_process_gapped` behind the test, with the probe of the temporary recorder.
unfoldable pub gapped_probed : Candidate → Recorder → Probe → Coordinator → Checked Processed
gapped_probed c r p k =
    let blocked_hand_id = text_or k.active_hand_id k.expected_hand_id in
    if is_accepted p.status
    then (do
      k' ← commit_to p r k
      accepted_result c anchored
          (record k' { retired_hand_ids = add_text blocked_hand_id k.retired_hand_ids }))
    else ok (
      record k { last_rejection = rejection_of p.error },
      rejected_result c k c.snapshot.hand_id (rejection_of p.error) 0,
    )

abbrev pub ignored_result : Candidate → String → Coordinator → CandidateResult
ignored_result c blocked_hand_id k = record {
  frame_id = c.frame_id;
  disposition = ignored_gapped_hand;
  status = k.status;
  hand_id = text_or blocked_hand_id c.snapshot.hand_id;
  error = some (gapped_by k.gap_reason);
  event_count = events_of k;
}

unfoldable pub process_gapped : Candidate → Coordinator → Checked Processed
unfolding note_gapped is_ignored
process_gapped c k =
    let noted = note_gapped c k in
    let blocked_hand_id = text_or k.active_hand_id k.expected_hand_id in
    let made = record noted { next_owner = noted.next_owner + 1 } in
    if is_ignored c noted
    then ok (noted, ignored_result c blocked_hand_id noted)
    else gapped_probed c (make_recorder noted) (probe (make_recorder noted) c.snapshot) made

-- `_process_candidate`
abbrev pub process_as : PublicHistoryStatus → Candidate → Coordinator → Checked Processed
process_as waiting_for_anchor c k = process_waiting c k
process_as tracking c k = process_tracking c k
process_as gapped c k = process_gapped c k

unfoldable pub process_candidate : Candidate → Coordinator → Checked Processed
process_candidate c k = process_as k.status c k
