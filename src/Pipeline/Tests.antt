-- ===== src/Pipeline/Tests.antt =====
-- Two observations of one hand, a gap in front of a later frame, and the next hand.
use native.Mathlib.Decide.{ℕ_discrete}
use ranges.Prelude.{
  ◌≡◌, ◌≢◌, ◌↔◌, refl, true, false, not, ltb, Option, none, some, ok, err, is_ok, ◌>>=◌, arith,
  Succeeds, str_elem,
}
use ranges.Hand.Equality.{same_history}
use ranges.Hand.Seating.{sorted}
use ranges.Recorder.Observation.{RawSnapshot, no_action}
use ranges.Recorder.Probe.{probe, is_accepted, commit, complete, invalidate_gap}
use ranges.Recorder.Tests.{config, blinds, raised, table, p1_history, run_probe}
use ranges.Pipeline.State.{
  Candidate, AcceptedFrame, Coordinator, Checked, new_coordinator, tracking, gapped,
  check_candidate, check_frame, make_recorder,
}
use ranges.Pipeline.Process.{
  up_to_gap, process_waiting, waiting_probed, process_tracking, tracking_probed, process_gapped,
  gapped_probed, note_gapped, is_ignored, process_candidate, accepted_result, commit_to, end_hand,
  replace_with_waiting_recorder,
}
use ranges.Pipeline.Coordinator.{
  submit_candidate, advance_decoder_watermark, process_ready, find_candidate, without_candidate,
  set_entry, entries_behind, report_gap, mark_gap, block_rejections,
}
use ranges.Pipeline.Readiness.{
  latest_accepted_frame, accepted_frame_if_ready, readiness, tracking_reason,
}
use ranges.Pipeline.Calls.{Call, submits, advances, reports, call, Leads, stays, calls}
use ranges.Pipeline.Valid.{IsValid}
use ranges.Pipeline.Promises.{is_ok-advance, reached-IsValid, retired_for_good}
use ranges.Pipeline.Ready.{IsProven}
use ranges.Pipeline.Answers.{accepted_frame_if_ready-IsProven, accepted_frame_if_ready_iff}
use ranges.Pipeline.Recovery.{IsRecovered, process_candidate-IsRecovered}
use ranges.Pipeline.Lost.{unlocated_gap_is_final}

-- Opens all that a call runs.
unfoldable run_call : Call → Coordinator → Checked Coordinator
unfolding call submit_candidate check_candidate advance_decoder_watermark process_ready
    find_candidate without_candidate set_entry entries_behind report_gap mark_gap block_rejections
    process_candidate process_waiting waiting_probed process_tracking tracking_probed process_gapped
    gapped_probed note_gapped is_ignored accepted_result check_frame commit_to end_hand
    replace_with_waiting_recorder commit invalidate_gap run_probe new_coordinator ◌>>=◌ sorted
run_call = call

abbrev or_else : Coordinator → Checked Coordinator → Coordinator
or_else k (ok m) = m
or_else k (err e) = k

-- The coordinator behind a call.
abbrev after : Call → Coordinator → Coordinator
after x k = or_else k (run_call x k)

abbrev k0 : Coordinator
k0 = new_coordinator config

abbrev k1 : Coordinator
k1 = after (submits 3 blinds) k0

abbrev k2 : Coordinator
k2 = after (submits 5 raised) k1

abbrev k3 : Coordinator
k3 = after (advances 5) k2

tracks : k3.status ≡ tracking
unfolding run_call
tracks = refl

Leads-k2 : Leads k0 k2
unfolding run_call
Leads-k2 = calls (submits 5 raised) (calls (submits 3 blinds) stays refl) refl

Leads-k3 : Leads k0 k3
unfolding run_call
Leads-k3 = calls (advances 5) Leads-k2 refl

-- The blinds of the next hand.
abbrev next_blinds : RawSnapshot
next_blinds = table "h2" 15 1000 0 no_action 1

abbrev k4 : Coordinator
k4 = after (submits 7 next_blinds) k1

abbrev k5 : Coordinator
k5 = after (advances 7) k4

Leads-k4 : Leads k0 k4
unfolding run_call
Leads-k4 = calls (submits 7 next_blinds) (calls (submits 3 blinds) stays refl) refl

Leads-k5 : Leads k0 k5
unfolding run_call
Leads-k5 = calls (advances 7) Leads-k4 refl

is_ok-advance_example : is_ok (advance_decoder_watermark 5 k2) ≡ not (ltb 5 k2.decoder_watermark)
is_ok-advance_example = is_ok-advance config Leads-k2 5

reached-IsValid_example : IsValid k3
reached-IsValid_example = reached-IsValid config Leads-k3

first_retired : str_elem "h1" k5.retired_hand_ids ≡ true
unfolding run_call
first_retired = refl

next_tracked : k5.status ≡ tracking
unfolding run_call
next_tracked = refl

retired_for_good_example : k5.active_hand_id ≢ "h1"
retired_for_good_example = retired_for_good config Leads-k5 first_retired stays next_tracked

abbrev frame_of : Option AcceptedFrame → AcceptedFrame
frame_of (some a) = a
frame_of none = record { frame_id = 0; snapshot = blinds; history = p1_history }

abbrev published : AcceptedFrame
published = frame_of k3.accepted_frame

is_ready : accepted_frame_if_ready "h1" 5 k3 ≡ ok (some published)
unfolding run_call accepted_frame_if_ready readiness tracking_reason complete same_history
    ℕ_discrete
is_ready = refl

accepted_frame_if_ready-IsProven_example : IsProven "h1" 5 k3 published
accepted_frame_if_ready-IsProven_example =
    accepted_frame_if_ready-IsProven config Leads-k3 "h1" 5 published is_ready

accepted_frame_if_ready_iff_example : (accepted_frame_if_ready "h1" 5 k3 ≡ ok (some published)) ↔ (
    (latest_accepted_frame k3 ≡ some published)
    × (published.history.hand_id ≡ "h1")
    × (published.frame_id ≡ 5))
accepted_frame_if_ready_iff_example = accepted_frame_if_ready_iff config Leads-k3 "h1" 5 published

abbrev lost : Coordinator
lost = after (reports "ring overflow" none) k3

loses : report_gap "ring overflow" none k3 ≡ ok lost
unfolding run_call
loses = refl

unlocated_gap_is_final_example : (lost.status ≡ gapped) × (latest_accepted_frame lost ≡ none)
unlocated_gap_is_final_example = unlocated_gap_is_final k3 "ring overflow" loses stays

abbrev interrupted : Coordinator
interrupted = after (reports "ring overflow" (some 6)) k3

abbrev next_candidate : Candidate
next_candidate = record { frame_id = 7; snapshot = next_blinds }

interrupted_gapped : interrupted.status ≡ gapped
unfolding run_call
interrupted_gapped = refl

interrupted_located : interrupted.unknown_hand_before_gap ≡ false
unfolding run_call
interrupted_located = refl

behind : up_to_gap interrupted.gap_frame_id 7 ≡ false
unfolding run_call
behind = refl

next_open : str_elem "h2" interrupted.gapped_hand_ids ≡ false
unfolding run_call
next_open = refl

next_unretired : str_elem "h2" interrupted.retired_hand_ids ≡ false
unfolding run_call
next_unretired = refl

next_accepted : is_accepted (probe (make_recorder interrupted) next_blinds).status ≡ true
unfolding run_call
next_accepted = refl

process_candidate-IsRecovered_example :
    Succeeds (IsRecovered next_candidate interrupted) (process_candidate next_candidate interrupted)
process_candidate-IsRecovered_example =
    process_candidate-IsRecovered next_candidate interrupted interrupted_gapped interrupted_located
      behind next_open next_unretired (λ e. omega arith) next_accepted
