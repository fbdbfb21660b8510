-- ===== src/Pipeline/Promises.antt =====
-- public_history_pipeline.py: what the coordinator promises its callers.
use ranges.Prelude.{
  ℕ, ◌≡◌, ◌≢◌, sym, ap, ◌∙◌, true, false, not, ltb, Option, is_ok, arith, ◌>>=◌, String, str_elem,
  Succeeds-is_ok, Returns, with_value, Returns->>=, Returns-raise_if, Returns-ok, Bool-cases, inl,
  inr,
}
use ranges.Recorder.Observation.{RawSnapshot}
use ranges.Recorder.Anchor.{CollectorConfig}
use ranges.Pipeline.State.{Coordinator, new_coordinator, tracking}
use ranges.Pipeline.Coordinator.{submit_candidate, advance_decoder_watermark, report_gap, mark_gap}
use ranges.Pipeline.Valid.{IsValid, new_coordinator-IsValid, advance-Succeeds, advance-Returns}
use ranges.Pipeline.Calls.{
  Call, submits, advances, reports, call, Leads, stays, calls, Leads-IsValid,
}

advance_refuses :
    (through : ℕ) (k : Coordinator)
    → ltb through k.decoder_watermark ≡ true
    → is_ok (advance_decoder_watermark through k) ≡ false
unfolding advance_decoder_watermark ◌>>=◌
advance_refuses through k h = ground (arith, h)

-- Behind any calls of a new coordinator, advance_decoder_watermark raises exactly if the watermark
-- would move backwards: no commit, no assertion, no check of a bundle and no lookup of a buffered
-- candidate fails.
pub is_ok-advance :
    (c : CollectorConfig) {k : Coordinator}
    → Leads (new_coordinator c) k
    → (through : ℕ)
    → is_ok (advance_decoder_watermark through k) ≡ not (ltb through k.decoder_watermark)
is_ok-advance c {k} l through = elim (Bool-cases (ltb through k.decoder_watermark)) [
  | inl h ↦ advance_refuses through k h ∙ ap not (sym h)
  | inr h ↦
      Succeeds-is_ok (
        advance-Succeeds through k (Leads-IsValid l (new_coordinator-IsValid c))
          (ground (arith, h)))
      ∙ ap not (sym h)
]

Retains : String → Coordinator → Type 0
Retains t k = str_elem t k.retired_hand_ids ≡ true

submit-retires :
    (i : ℕ) (snapshot : RawSnapshot) (k : Coordinator) (t : String)
    → Retains t k
    → Returns (Retains t) (submit_candidate i snapshot k)
unfolding submit_candidate Retains
submit-retires i snapshot k t h = Returns->>= _ _ λ c _.
    Returns-raise_if _ _ _ λ _. Returns-raise_if _ _ _ λ _. Returns-raise_if _ _ _ λ _. with_value h

report-retires :
    (reason : String) (frame_id : Option ℕ) (k : Coordinator) (t : String)
    → Retains t k
    → Returns (Retains t) (report_gap reason frame_id k)
unfolding report_gap mark_gap Retains
report-retires reason frame_id k t h =
    Returns-raise_if _ _ _ λ _. Returns-raise_if _ _ _ λ _. Returns->>= _ _ λ r _. with_value h

call-retires :
    (x : Call) (k : Coordinator) (t : String)
    → IsValid k
    → Retains t k
    → Returns (Retains t) (call x k)
unfolding call Retains
call-retires (submits i snapshot) k t v h = submit-retires i snapshot k t h
call-retires (advances through) k t v h =
    Returns->>= (advance_decoder_watermark through k) _
      λ done e. with_value ((Returns-ok (advance-Returns through k v) e).retires t h)
call-retires (reports reason frame_id) k t v h = report-retires reason frame_id k t h

Leads-retires :
    {k m : Coordinator} → Leads k m → IsValid k → (t : String) → Retains t k → Retains t m
Leads-retires stays v t h = h
Leads-retires (calls {m} {n} x l e) v t h =
    Returns-ok (call-retires x m t (Leads-IsValid l v) (Leads-retires l v t h)) e

false_true : {A : Type 0} → false ≡ true → A
false_true h = absurd (cc)

-- A hand that is retired in a coordinator which calls have led to is not tracked again, whatever
-- is called.
pub retired_for_good :
    (c : CollectorConfig) {k m : Coordinator} {t : String}
    → Leads (new_coordinator c) k
    → str_elem t k.retired_hand_ids ≡ true
    → Leads k m
    → m.status ≡ tracking
    → m.active_hand_id ≢ t
unfolding Retains
retired_for_good c {k} {m} {t} l h n w e =
    let v = Leads-IsValid l (new_coordinator-IsValid c) in
    let out = (Leads-IsValid n v).steady.unretired w in
    let in_list = Leads-retires n v t h in
    false_true (sym out ∙ ap (λ u. str_elem u m.retired_hand_ids) e ∙ in_list)

-- Behind any calls of a new coordinator the proven frame is at most the last processed one, which
-- is at most the watermark; every buffered frame is behind the watermark and buffered once; and a
-- tracked hand is not retired and has a bundle whose transcript is that of the recorder.
pub reached-IsValid :
    (c : CollectorConfig) {k : Coordinator} → Leads (new_coordinator c) k → IsValid k
reached-IsValid c l = Leads-IsValid l (new_coordinator-IsValid c)
