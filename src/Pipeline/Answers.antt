-- ===== src/Pipeline/Answers.antt =====
-- public_history_pipeline.py: what an answer of `readiness` and of `latest_accepted_frame` proves.
use ranges.Prelude.{
  ℕ, ◌≡◌, refl, sym, ap, ◌∙◌, true, false, some, ok, String, if_true, ◌↔◌, Returns-ok,
}
use ranges.Recorder.Anchor.{CollectorConfig}
use ranges.Pipeline.State.{AcceptedFrame, Coordinator, new_coordinator}
use ranges.Pipeline.Process.{is_blank}
use ranges.Pipeline.Names.{read_snapshot-Returns}
use ranges.Pipeline.Readiness.{accepted_is_current, latest_accepted_frame, accepted_frame_if_ready}
use ranges.Pipeline.Steady.{IsSteady}
use ranges.Pipeline.Valid.{new_coordinator-IsValid}
use ranges.Pipeline.Calls.{Leads, Leads-IsValid}
use ranges.Pipeline.Ready.{
  IsCurrent, IsProven, current_frame, frame-IsProven, ready_frame-Returns, answers, if_some,
}

IsSteady-reached :
    (c : CollectorConfig) {k : Coordinator} → Leads (new_coordinator c) k → IsSteady k
IsSteady-reached c l = (Leads-IsValid l (new_coordinator-IsValid c)).steady

-- Behind any calls of a new coordinator, a bundle that is given for a hand and a frame is of that
-- hand and frame, the decoder has passed exactly that frame, nothing is buffered, and the
-- transcript replays to a state that the observation read from the bundle's snapshot matches.
pub accepted_frame_if_ready-IsProven :
    (c : CollectorConfig) {k : Coordinator}
    → Leads (new_coordinator c) k
    → (hand_id : String) (through : ℕ) (a : AcceptedFrame)
    → accepted_frame_if_ready hand_id through k ≡ ok (some a)
    → IsProven hand_id through k a
accepted_frame_if_ready-IsProven c {k} l hand_id through a e =
    let s = IsSteady-reached c l in
    let (n, o) = Returns-ok (ready_frame-Returns k s hand_id through) e a refl in
    frame-IsProven k s hand_id through a n o

latest-parts :
    (k : Coordinator) (a : AcceptedFrame)
    → latest_accepted_frame k ≡ some a
    → (accepted_is_current k ≡ true) × (k.accepted_frame ≡ some a)
unfolding latest_accepted_frame
latest-parts k a h = if_some h

latest-eq :
    (k : Coordinator) (a : AcceptedFrame)
    → accepted_is_current k ≡ true
    → k.accepted_frame ≡ some a
    → latest_accepted_frame k ≡ some a
unfolding latest_accepted_frame
latest-eq k a h e = if_true _ _ h ∙ e

-- The answers for a frame, and the latest bundle, of a steady coordinator.
ready_is_latest :
    (k : Coordinator) (s : IsSteady k) (hand_id : String) (through : ℕ) (a : AcceptedFrame)
    → accepted_frame_if_ready hand_id through k ≡ ok (some a)
    → (latest_accepted_frame k ≡ some a) × (a.history.hand_id ≡ hand_id) × (a.frame_id ≡ through)
unfolding IsCurrent
ready_is_latest k s hand_id through a e =
    let (n, o) = Returns-ok (ready_frame-Returns k s hand_id through) e a refl in
    let p = frame-IsProven k s hand_id through a n o in
    (latest-eq k a n.0 o, p.is_of_hand, p.is_of_frame)

latest_is_ready :
    (k : Coordinator) (s : IsSteady k) (hand_id : String) (through : ℕ) (a : AcceptedFrame)
    → latest_accepted_frame k ≡ some a
    → a.history.hand_id ≡ hand_id
    → a.frame_id ≡ through
    → accepted_frame_if_ready hand_id through k ≡ ok (some a)
unfolding IsCurrent
latest_is_ready k s hand_id through a h n f =
    let (cur, o) = latest-parts k a h in
    let i = current_frame k s a cur o in
    let filled : is_blank hand_id ≡ false =
      ap is_blank (sym n ∙ sym i.is_named)
      ∙ (Returns-ok (read_snapshot-Returns a.snapshot) i.was_read).1 in
    answers k s hand_id through a filled (λ z. i.is_positive (f ∙ z))
      (cur, i.is_active ∙ n, sym i.is_proven ∙ f) o

-- Behind any calls of a new coordinator, a bundle is given for a hand and a frame exactly if it is
-- the latest accepted bundle and of that hand and frame.
pub accepted_frame_if_ready_iff :
    (c : CollectorConfig) {k : Coordinator}
    → Leads (new_coordinator c) k
    → (hand_id : String) (through : ℕ) (a : AcceptedFrame)
    → (accepted_frame_if_ready hand_id through k ≡ ok (some a)) ↔ (
        (latest_accepted_frame k ≡ some a) × (a.history.hand_id ≡ hand_id) × (a.frame_id ≡ through))
accepted_frame_if_ready_iff c {k} l hand_id through a =
    let s = IsSteady-reached c l in
    (
      ready_is_latest k s hand_id through a,
      λ (h, n, f). latest_is_ready k s hand_id through a h n f,
    )
