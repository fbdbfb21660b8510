-- ===== src/Pipeline/Coordinator.antt =====
-- public_history_pipeline.py: the methods `submit_candidate`, `advance_decoder_watermark` and
-- `invalidate_gap`. Each holds the coordinator's lock, so it is one step on the state.
use ranges.Prelude.{
  ℕ, Bool, true, false, not, ◌||◌, Option, none, some, List, [], ◌∷◌, ◌++◌, String, if◌then◌else◌,
  map, ok, err, ltb, leb, ◌==◌, max, raise_if, ◌>>=◌, ◌>>◌, elem, filter,
}
use ranges.Hand.Seating.{sorted}
use ranges.Recorder.Observation.{RawSnapshot}
use ranges.Recorder.Probe.{invalidate_gap}
use ranges.Pipeline.State.{
  gapped, CandidateDisposition, rejected, ignored_gapped_hand, behind_watermark, already_processed,
  already_buffered, watermark_backwards, empty_reason, frame_not_positive, missing_candidate,
  Checked, Candidate, check_candidate, CandidateResult, Coordinator, text_or, add_text,
}
use ranges.Pipeline.Process.{is_blank, recorded, process_candidate, Processed}

-- The keys of the dictionary `_pending`.
abbrev pub pending_ids : List Candidate → List ℕ
pending_ids cs = map (λ (c : Candidate). c.frame_id) cs

unfoldable pub submit_candidate : ℕ → RawSnapshot → Coordinator → Checked Coordinator
unfolding check_candidate
submit_candidate frame_id snapshot k = do
  candidate ← check_candidate (record { frame_id = frame_id; snapshot = snapshot })
  raise_if (leb frame_id k.decoder_watermark) behind_watermark
  raise_if (leb frame_id k.last_processed_frame_id) already_processed
  raise_if (elem frame_id (pending_ids k.pending)) already_buffered
  ok (record k { pending = k.pending ++ candidate ∷ [] })

-- `self._pending.pop(frame_id)`
unfoldable pub find_candidate : ℕ → List Candidate → Option Candidate
find_candidate frame_id [] = none
find_candidate frame_id (c ∷ cs) =
    if c.frame_id == frame_id then some c else find_candidate frame_id cs

unfoldable pub without_candidate : ℕ → List Candidate → List Candidate
without_candidate frame_id [] = []
without_candidate frame_id (c ∷ cs) =
    let rest = without_candidate frame_id cs in if c.frame_id == frame_id then rest else c ∷ rest

-- `self._unresolved_rejections[frame_id] = hand_id`
unfoldable pub set_entry : ℕ → String → List (ℕ × String) → List (ℕ × String)
set_entry frame_id hand_id [] = (frame_id, hand_id) ∷ []
set_entry frame_id hand_id ((i, t) ∷ rest) =
    let others = set_entry frame_id hand_id rest in
    if i == frame_id then (i, hand_id) ∷ rest else (i, t) ∷ others

unfoldable pub entries_behind : ℕ → List (ℕ × String) → List (ℕ × String)
entries_behind frame_id [] = []
entries_behind frame_id ((i, t) ∷ rest) =
    let others = entries_behind frame_id rest in if ltb frame_id i then (i, t) ∷ others else others

-- The rejections that stay unresolved behind a result.
abbrev pub unresolved_after :
    CandidateDisposition → Candidate → List (ℕ × String) → List (ℕ × String)
unresolved_after rejected c entries = set_entry c.frame_id c.snapshot.hand_id entries
unresolved_after ignored_gapped_hand c entries = entries
unresolved_after _ c entries = entries_behind c.frame_id entries

-- The end of the body of the loop.
abbrev pub after_result : Candidate → Processed → Coordinator
after_result c done = record done.0 {
  unresolved_rejections = unresolved_after done.1.disposition c done.0.unresolved_rejections;
  last_processed_frame_id = c.frame_id;
}

-- The body of the loop of `advance_decoder_watermark`, with the candidate that was looked up.
abbrev pub process_found : ℕ → Option Candidate → Coordinator → Checked Processed
process_found frame_id none k = err missing_candidate
process_found frame_id (some c) k = do
  done ← process_candidate c (record k { pending = without_candidate frame_id k.pending })
  ok (after_result c done, done.1)

unfoldable pub process_ready : List ℕ → Coordinator → Checked (Coordinator × List CandidateResult)
unfolding find_candidate without_candidate set_entry entries_behind
process_ready [] k = ok (k, [])
process_ready (frame_id ∷ frame_ids) k = do
  done ← process_found frame_id (find_candidate frame_id k.pending) k
  rest ← process_ready frame_ids done.0
  ok (rest.0, done.1 ∷ rest.1)

-- `ready_ids`
abbrev pub ready_ids : ℕ → List Candidate → List ℕ
ready_ids through pending = sorted (filter (λ i. leb i through) (pending_ids pending))

unfoldable pub advance_decoder_watermark :
    ℕ → Coordinator → Checked (Coordinator × List CandidateResult)
unfolding process_ready
advance_decoder_watermark through k = do
  raise_if (ltb through k.decoder_watermark) watermark_backwards
  done ← process_ready (ready_ids through k.pending) k
  ok (record done.0 { decoder_watermark = through }, done.1)

-- The largest gap coordinate that is known.
abbrev pub later_gap : Option ℕ → Option ℕ → Option ℕ
later_gap known none = known
later_gap none (some frame_id) = some frame_id
later_gap (some known) (some frame_id) = some (max known frame_id)

abbrev pub is_located : Option ℕ → Bool
is_located none = false
is_located (some frame_id) = true

-- The rejected frame stands behind the gap.
abbrev pub is_behind_gap : Option ℕ → ℕ → Bool
is_behind_gap none frame_id = false
is_behind_gap (some gap_frame_id) frame_id = ltb gap_frame_id frame_id

-- The loop over `_unresolved_rejections`: the hands that it blocks, and whether one is unknown.
unfoldable pub block_rejections :
    Option ℕ → List (ℕ × String) → List String × Bool → List String × Bool
block_rejections gap_frame_id [] found = found
block_rejections gap_frame_id ((i, t) ∷ rest) found =
    block_rejections gap_frame_id rest
      (if is_behind_gap gap_frame_id i then found else (add_text t found.0, is_blank t || found.1))

abbrev pub is_frame_zero : Option ℕ → Bool
is_frame_zero none = false
is_frame_zero (some frame_id) = frame_id == 0

-- The fields that `invalidate_gap` sets.
unfoldable pub mark_gap : String → Option ℕ → Coordinator → Coordinator
unfolding block_rejections
mark_gap reason frame_id k =
    let gap_frame_id = later_gap k.gap_frame_id frame_id in
    let blocked_hand_id = text_or k.active_hand_id k.expected_hand_id in
    let blocked = block_rejections gap_frame_id k.unresolved_rejections (
      add_text blocked_hand_id k.gapped_hand_ids,
      not (is_located frame_id) || k.unknown_hand_before_gap,
    ) in
    record k {
      status = gapped;
      gap_reason = reason;
      gap_frame_id = gap_frame_id;
      gapped_hand_ids = blocked.0;
      unknown_hand_before_gap = blocked.1;
      last_rejection = none;
      accepted_frame = none;
    }

-- `invalidate_gap`, with the reason trimmed.
unfoldable pub report_gap : String → Option ℕ → Coordinator → Checked Coordinator
unfolding mark_gap
report_gap reason frame_id k = do
  raise_if (is_blank reason) empty_reason
  raise_if (is_frame_zero frame_id) frame_not_positive
  recorder ← recorded (invalidate_gap reason k.recorder)
  ok (mark_gap reason frame_id (record k { recorder = recorder }))
