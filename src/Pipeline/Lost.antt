-- ===== src/Pipeline/Lost.antt =====
-- public_history_pipeline.py: a gap that is reported without a frame.
use mathlib.Core.Path.{subst}
use ranges.Prelude.{
  ℕ, ◌≡◌, refl, sym, ◌∙◌, Bool, true, false, not, ◌||◌, List, [], ◌∷◌, Option, none, some, ok,
  arith, String, raised, Returns-if, Returns, with_value, Returns->>=, Returns-raise_if, Returns-ok,
  Bool-cases, inl, inr,
}
use ranges.Recorder.Observation.{RawSnapshot}
use ranges.Pipeline.State.{Coordinator, gapped, CandidateResult}
use ranges.Pipeline.Coordinator.{submit_candidate, advance_decoder_watermark, report_gap, mark_gap}
use ranges.Pipeline.Readiness.{accepted_is_current, latest_accepted_frame}
use ranges.Pipeline.Calls.{Call, submits, advances, reports, call, Leads, stays, calls}
use ranges.Pipeline.State.{Candidate}
use ranges.Pipeline.Process.{
  Processed, process_candidate, process_as, process_gapped, note_gapped, is_ignored, up_to_gap,
}
use ranges.Pipeline.Coordinator.{
  process_found, process_ready, find_candidate, is_located, mark_gap, without_candidate,
}
use ranges.Pipeline.Calls.{unlocated_still}

-- Gapped, with a hand before the gap that is not known.
IsLost : Coordinator → Type 0
IsLost k = (k.status ≡ gapped) × (k.unknown_hand_before_gap ≡ true)

mark_gap-IsLost :
    (reason : String) (frame_id : Option ℕ) (k : Coordinator)
    → (not (is_located frame_id) || k.unknown_hand_before_gap) ≡ true
    → IsLost (mark_gap reason frame_id k)
unfolding mark_gap IsLost
mark_gap-IsLost reason frame_id k h = (refl, unlocated_still _ k.unresolved_rejections _ h)

report_gap-IsLost :
    (reason : String) (frame_id : Option ℕ) (k : Coordinator)
    → (not (is_located frame_id) || k.unknown_hand_before_gap) ≡ true
    → Returns IsLost (report_gap reason frame_id k)
unfolding report_gap
report_gap-IsLost reason frame_id k h = Returns-raise_if _ _ _ λ _. Returns-raise_if _ _ _ λ _.
    Returns->>= _ _
      λ r _. with_value (mark_gap-IsLost reason frame_id (record k { recorder = r }) h)

submit-IsLost :
    (i : ℕ) (snapshot : RawSnapshot) (k : Coordinator)
    → IsLost k
    → Returns IsLost (submit_candidate i snapshot k)
unfolding submit_candidate IsLost
submit-IsLost i snapshot k h = Returns->>= _ _ λ c _.
    Returns-raise_if _ _ _ λ _. Returns-raise_if _ _ _ λ _. Returns-raise_if _ _ _ λ _. with_value h

false_true : {A : Type 0} → false ≡ true → A
false_true h = absurd (cc)

known : (k : Coordinator) (b : Bool) → IsLost k → (b || k.unknown_hand_before_gap) ≡ true
unfolding IsLost
known k b (h, u) = ground (arith, u)

ignored : (c : Candidate) (k : Coordinator) → IsLost k → is_ignored c k ≡ true
unfolding is_ignored IsLost
ignored c k (h, u) = ground (arith, u)

noted-IsLost : (c : Candidate) (k : Coordinator) → IsLost k → IsLost (note_gapped c k)
unfolding note_gapped IsLost
noted-IsLost c k (h, u) = elim (Bool-cases (up_to_gap k.gap_frame_id c.frame_id)) [
  | inl e ↦ rw e (h, ground (arith, u))
  | inr e ↦ rw e (h, u)
]

gapped-IsLost :
    (c : Candidate) (k : Coordinator)
    → IsLost k
    → Returns (λ (done : Processed). IsLost done.0) (process_gapped c k)
unfolding process_gapped
gapped-IsLost c k h =
    Returns-if (is_ignored c (note_gapped c k)) _ _ (λ _. with_value (noted-IsLost c k h))
      (λ e. false_true (sym e ∙ ignored c (note_gapped c k) (noted-IsLost c k h)))

process-IsLost :
    (c : Candidate) (k : Coordinator)
    → IsLost k
    → Returns (λ (done : Processed). IsLost done.0) (process_candidate c k)
unfolding process_candidate IsLost
process-IsLost c k h =
    subst (λ s. Returns (λ (done : Processed). IsLost done.0) (process_as s c k)) (sym h.0)
      (gapped-IsLost c k h)

found-IsLost :
    (i : ℕ) (o : Option Candidate) (k : Coordinator)
    → IsLost k
    → Returns (λ (done : Processed). IsLost done.0) (process_found i o k)
unfolding IsLost
found-IsLost i none k h = raised
found-IsLost i (some c) k h =
    let popped = record k { pending = without_candidate i k.pending } in
    Returns->>= (process_candidate c popped) _
      λ done e. with_value (Returns-ok (process-IsLost c popped h) e)

ready-IsLost :
    (ids : List ℕ) (k : Coordinator)
    → IsLost k
    → Returns (λ (done : Coordinator × List CandidateResult). IsLost done.0) (process_ready ids k)
unfolding process_ready
ready-IsLost [] k h = with_value h
ready-IsLost (i ∷ ids) k h =
    Returns->>= (process_found i (find_candidate i k.pending) k) _ λ done e.
      Returns->>= (process_ready ids done.0) _ λ rest f. with_value (
        Returns-ok
          (ready-IsLost ids done.0 (Returns-ok (found-IsLost i (find_candidate i k.pending) k h) e))
          f)

advance-IsLost :
    (through : ℕ) (k : Coordinator)
    → IsLost k
    → Returns
        (λ (done : Coordinator × List CandidateResult). IsLost done.0)
        (advance_decoder_watermark through k)
unfolding advance_decoder_watermark IsLost
advance-IsLost through k h =
    Returns-raise_if _ _ _
      λ _. Returns->>= _ _ λ done e. with_value (Returns-ok (ready-IsLost _ k h) e)

call-IsLost : (x : Call) (k : Coordinator) → IsLost k → Returns IsLost (call x k)
unfolding call
call-IsLost (submits i snapshot) k h = submit-IsLost i snapshot k h
call-IsLost (advances through) k h =
    Returns->>= (advance_decoder_watermark through k) _
      λ done e. with_value (Returns-ok (advance-IsLost through k h) e)
call-IsLost (reports reason frame_id) k h = report_gap-IsLost reason frame_id k (known k _ h)

Leads-IsLost : {k m : Coordinator} → Leads k m → IsLost k → IsLost m
Leads-IsLost stays h = h
Leads-IsLost (calls {m} {n} x l e) h = Returns-ok (call-IsLost x m (Leads-IsLost l h)) e

-- After a gap that is reported without a frame every sequence of calls leaves the coordinator
-- gapped and without an accepted bundle.
pub unlocated_gap_is_final :
    (k : Coordinator) {m n : Coordinator} (reason : String)
    → report_gap reason none k ≡ ok m
    → Leads m n
    → (n.status ≡ gapped) × (latest_accepted_frame n ≡ none)
unfolding latest_accepted_frame accepted_is_current IsLost
unlocated_gap_is_final k {m} {n} reason e l =
    let (w, _) = Leads-IsLost l (Returns-ok (report_gap-IsLost reason none k refl) e) in
    (w, rw w refl)
