-- ===== src/Pipeline/Ready.antt =====
-- public_history_pipeline.py: when an answer of `readiness` is ready.
use mathlib.Core.Path.{subst}
use ranges.Prelude.{
  ℕ, ◌≡◌, ◌≢◌, refl, sym, ap, ◌∙◌, Bool, true, false, ◌&&◌, is_empty, Option, none, some, ok, arith,
  ◌>>=◌, String, str_eq, ==-same, ==-other, ==_iff, Returns, with_value, Returns->>=,
  Returns-raise_if, Returns-ok, if◌then◌else◌,
}
use ranges.Recorder.Observation.{SnapshotObservation, read_snapshot}
use ranges.Recorder.Shows.{Shows}
use ranges.Recorder.Probe.{complete}
use ranges.Pipeline.State.{
  AcceptedFrame, PublicHistoryStatus, Coordinator, waiting_for_anchor, tracking, gapped,
}
use ranges.Pipeline.Process.{is_blank}
use ranges.Pipeline.Names.{str_eq-true, str_eq_refl}
use ranges.Pipeline.Readiness.{
  is_tracking, PublicHistoryReadiness, readiness, reason_as, tracking_reason, is_none, is_bundle_of,
  accepted_is_current, accepted_frame_if_ready,
}
use ranges.Pipeline.Steady.{IsBundle, IsSteady}

tracking_known :
    (status : PublicHistoryStatus) (hand_id : String) (through : ℕ) (k : Coordinator)
    → reason_as status hand_id through k ≡ none
    → status ≡ tracking
tracking_known waiting_for_anchor hand_id through k h = absurd (cc)
tracking_known gapped hand_id through k h = absurd (cc)
tracking_known tracking hand_id through k h = refl

tests_passed :
    (hand_id : String) (through : ℕ) (k : Coordinator)
    → tracking_reason hand_id through k ≡ none
    → (str_eq k.active_hand_id hand_id ≡ true)
      × (k.decoder_watermark ≡ through)
      × (k.proven_through_frame_id ≡ through)
      × (is_empty k.pending ≡ true)
      × (complete k.recorder ≡ true)
      × (is_bundle_of through k.accepted_frame k.recorder.history ≡ true)
unfolding tracking_reason
tests_passed hand_id through k h = ground (arith, h)

tests_pass :
    (hand_id : String) (through : ℕ) (k : Coordinator)
    → str_eq k.active_hand_id hand_id ≡ true
    → k.decoder_watermark ≡ through
    → k.proven_through_frame_id ≡ through
    → complete k.recorder ≡ true
    → is_bundle_of through k.accepted_frame k.recorder.history ≡ true
    → is_empty k.pending ≡ true
    → tracking_reason hand_id through k ≡ none
unfolding tracking_reason
tests_pass hand_id through k a b c d e f = ground (arith, a, b, c, d, e, f)

-- The answer is ready exactly for the current bundle, at its hand and frame.
unfoldable pub IsCurrent : String → ℕ → Coordinator → Type 0
IsCurrent hand_id through k =
    (accepted_is_current k ≡ true)
    × (k.active_hand_id ≡ hand_id)
    × (k.proven_through_frame_id ≡ through)

tracking_is : (status : PublicHistoryStatus) → status ≡ tracking → is_tracking status ≡ true
tracking_is status e = ap is_tracking e

is_tracking-true : (status : PublicHistoryStatus) → is_tracking status ≡ true → status ≡ tracking
is_tracking-true waiting_for_anchor h = absurd (cc)
is_tracking-true gapped h = absurd (cc)
is_tracking-true tracking h = refl

all_true :
    {a b c d e : Bool}
    → a ≡ true
    → b ≡ true
    → c ≡ true
    → d ≡ true
    → e ≡ true
    → (a && b && c && d && e) ≡ true
all_true h i j k l = ground (arith, h, i, j, k, l)

ready-IsCurrent :
    (hand_id : String) (through : ℕ) (k : Coordinator)
    → reason_as k.status hand_id through k ≡ none
    → IsCurrent hand_id through k
unfolding IsCurrent accepted_is_current
ready-IsCurrent hand_id through k h =
    let w = tracking_known k.status hand_id through k h in
    let (a, b, p, e, f, g) =
      tests_passed hand_id through k (sym (ap (λ s. reason_as s hand_id through k) w) ∙ h) in
    (
      all_true (tracking_is k.status w) f e
          (subst (λ x. is_bundle_of x k.accepted_frame k.recorder.history ≡ true) (sym p) g)
          (==-same (b ∙ sym p)),
      str_eq-true _ _ a,
      p,
    )

all_of :
    {a b c d e : Bool}
    → (a && b && c && d && e) ≡ true
    → (a ≡ true) × (b ≡ true) × (c ≡ true) × (d ≡ true) × (e ≡ true)
all_of h = ground (arith, h)

IsCurrent-ready :
    (hand_id : String) (through : ℕ) (k : Coordinator)
    → IsCurrent hand_id through k
    → reason_as k.status hand_id through k ≡ none
unfolding IsCurrent accepted_is_current
IsCurrent-ready hand_id through k (h, a, p) =
    let (t, c, e, b, w) = all_of h in
    ap (λ s. reason_as s hand_id through k) (is_tracking-true k.status t)
    ∙ tests_pass hand_id through k (ap (λ x. str_eq x hand_id) a ∙ str_eq_refl hand_id)
        ((==_iff _ _).0 w ∙ p) p c
        (subst (λ x. is_bundle_of x k.accepted_frame k.recorder.history ≡ true) p b) e

-- The bundle of a hand through a frame, and what it proves.
pub record IsProven (hand_id : String) (through : ℕ) (k : Coordinator) (a : AcceptedFrame)
    : Type 0 where
  pub snapshot : SnapshotObservation
  pub is_of_frame : a.frame_id ≡ through
  pub is_of_hand : a.history.hand_id ≡ hand_id
  pub is_latest : k.decoder_watermark ≡ through
  pub nothing_buffered : is_empty k.pending ≡ true
  pub was_read : read_snapshot a.snapshot ≡ ok snapshot
  pub shows : Shows k.config snapshot a.history

some-injective : {A : Type 0} {a b : A} → some a ≡ some b → a ≡ b
some-injective h = cc

some-none : {A : Type 0} {a : A} → none ≡ some a → ⊥
some-none h = absurd (cc)

pub if_some :
    {A : Type 0} {b : Bool} {o : Option A} {a : A}
    → (if b then o else none) ≡ some a
    → (b ≡ true) × (o ≡ some a)
if_some {b = true} h = (refl, h)
if_some {b = false} h = absurd (some-none h)

none-true : {A : Type 0} {o : Option A} → is_none o ≡ true → o ≡ none
none-true {o = none} h = refl
none-true {o = some a} h = absurd (cc)

module _ (k : Coordinator) (s : IsSteady k) where
  current_facts :
      accepted_is_current k ≡ true
      → (is_tracking k.status ≡ true)
        × (is_empty k.pending ≡ true)
        × (k.decoder_watermark ≡ k.proven_through_frame_id)
  unfolding accepted_is_current
  current_facts h = let (t, _, e, _, w) = all_of h in (t, e, (==_iff _ _).0 w)

  current-IsBundle : accepted_is_current k ≡ true → (a : AcceptedFrame) × IsBundle k a
  current-IsBundle h = s.bundled (is_tracking-true k.status (current_facts h).0)

  pub current_frame :
      (a : AcceptedFrame) → accepted_is_current k ≡ true → k.accepted_frame ≡ some a → IsBundle k a
  current_frame a h e =
      let (b, i) = current-IsBundle h in
      subst (IsBundle k) (some-injective (sym i.is_published ∙ e)) i

  pub frame-IsProven :
      (hand_id : String) (through : ℕ) (a : AcceptedFrame)
      → IsCurrent hand_id through k
      → k.accepted_frame ≡ some a
      → IsProven hand_id through k a
  unfolding IsCurrent
  frame-IsProven hand_id through a (h, n, p) e =
      let i = current_frame a h e in
      let (_, empty, w) = current_facts h in
      record {
        snapshot = i.snapshot;
        is_of_frame = i.is_proven ∙ p;
        is_of_hand = sym i.is_active ∙ n;
        is_latest = w ∙ p;
        nothing_buffered = empty;
        was_read = i.was_read;
        shows = i.shows;
      }

  readiness-Returns :
      (hand_id : String) (through : ℕ)
      → Returns
          (λ (r : PublicHistoryReadiness).
            (a : AcceptedFrame)
            → r.accepted_frame ≡ some a
            → IsCurrent hand_id through k × (k.accepted_frame ≡ some a))
          (readiness hand_id through k)
  unfolding readiness
  readiness-Returns hand_id through = Returns-raise_if _ _ _ λ _. Returns-raise_if _ _ _ λ _.
      with_value
        λ a h. let (t, o) = if_some h in (ready-IsCurrent hand_id through k (none-true t), o)

  pub ready_frame-Returns :
      (hand_id : String) (through : ℕ)
      → Returns
          (λ (o : Option AcceptedFrame).
            (a : AcceptedFrame)
            → o ≡ some a
            → IsCurrent hand_id through k × (k.accepted_frame ≡ some a))
          (accepted_frame_if_ready hand_id through k)
  unfolding accepted_frame_if_ready
  ready_frame-Returns hand_id through =
      Returns->>= _ _ λ r e. with_value (Returns-ok (readiness-Returns hand_id through) e)

  pub answers :
      (hand_id : String) (through : ℕ) (a : AcceptedFrame)
      → is_blank hand_id ≡ false
      → through ≢ 0
      → IsCurrent hand_id through k
      → k.accepted_frame ≡ some a
      → accepted_frame_if_ready hand_id through k ≡ ok (some a)
  unfolding accepted_frame_if_ready readiness ◌>>=◌
  answers hand_id through a b z c e =
      rw (IsCurrent-ready hand_id through k c) (rw b (rw (==-other z) (ap ok e)))

-- The bundle of a hand through a frame is given exactly if it is the latest one, of that hand and frame.
