-- ===== src/Capture/Watch.antt =====
-- live_capture.py: a `KeyframeDetector` over a history of frames, in front of a `KeyframeRing`.
use mathlib.Core.Path.{subst}
use ranges.Prelude.{
  ℕ, ◌<◌, ◌≡◌, refl, sym, Bool, true, false, ◌&&◌, List, [], ◌∷◌, ◌++◌, ltb, ok, err, ◌>>=◌, arith,
  is_ok,
}
use ranges.Capture.Ring.{Ring, Keyframe, Checked, offer, coalesce_gap}
use ranges.Capture.Calls.{IsValid, offered, offer-eq, After-offered}
use ranges.Capture.Valid.{After-IsValid}
use ranges.Capture.Detector.{
  RegionChange, Settings, DetectorError, Observed, Selection, CaptureFrame, Detector, Step,
  new_detector, flush_burst, observe,
}
use ranges.Capture.Rising.{
  Rises, last_of, is_assertion, Follows, fresh, Goes, selects, refuses, observe-Goes,
  flush_burst-Goes,
}

pub data DetectorCall (S : Type 0) : Type 0 where
  sees : CaptureFrame S → DetectorCall S
  flushes : DetectorCall S

-- A frame's number is positive, as `CaptureFrame` checks.
abbrev pub all_positive : {S : Type 0} → List (DetectorCall S) → Bool
all_positive [] = true
all_positive (sees frame ∷ rest) = ltb 0 frame.frame_id && all_positive rest
all_positive (flushes ∷ rest) = all_positive rest

module _ {S : Type 0} (compare : S → S → List RegionChange) (c : Settings) where
  unfoldable pub detector_call : DetectorCall S → Detector S → Observed (Step S)
  detector_call (sees frame) d = observe compare c frame d
  detector_call flushes d = flush_burst d

  -- The calls one after another, with all that they select.
  unfoldable pub watch : List (DetectorCall S) → Detector S → Observed (Step S)
  unfolding detector_call
  watch [] d = ok (d, [])
  watch (k ∷ ks) d = detector_call k d >>= λ s. watch ks s.0 >>= λ t. ok (t.0, s.1 ++ t.1)

Rises-append :
    (last : ℕ) (ss ts : List Selection)
    → Rises last ss
    → Rises (last_of last ss) ts
    → Rises last (ss ++ ts)
Rises-append last [] ts r q = q
Rises-append last (s ∷ ss) ts r q = (r.0, Rises-append s.keyframe.frame_id ss ts r.1 q)

last_of-append :
    (last : ℕ) (ss ts : List Selection) → last_of last (ss ++ ts) ≡ last_of (last_of last ss) ts
last_of-append last [] ts = refl
last_of-append last (s ∷ ss) ts = last_of-append s.keyframe.frame_id ss ts

module _ {S : Type 0} where
  Goes-append :
      (last : ℕ) (ss : List Selection) (m : Observed (Step S))
      → Rises last ss
      → Goes (last_of last ss) m
      → Goes last (m >>= λ t. ok (t.0, ss ++ t.1))
  unfolding ◌>>=◌
  Goes-append last ss _ r (selects {d} {selected} q f) =
      selects {selected = ss ++ selected} (Rises-append last ss selected r q)
        (subst (λ n. Follows n d) (sym (last_of-append last ss selected)) f)
  Goes-append last ss _ r (refuses h) = refuses h

  Goes-then :
      (last : ℕ) (m : Observed (Step S)) (k : Detector S → Observed (Step S))
      → Goes last m
      → ((n : ℕ) (d : Detector S) → Follows n d → Goes n (k d))
      → Goes last (m >>= λ s. k s.0 >>= λ t. ok (t.0, s.1 ++ t.1))
  unfolding ◌>>=◌
  Goes-then last _ k (selects {d} {selected} q f) g =
      Goes-append last selected (k d) q (g (last_of last selected) d f)
  Goes-then last _ k (refuses h) g = refuses h

  watch-Goes :
      (compare : S → S → List RegionChange) (c : Settings) (ks : List (DetectorCall S)) (last : ℕ)
      (d : Detector S)
      → all_positive ks ≡ true
      → Follows last d
      → Goes last (watch compare c ks d)
  unfolding watch detector_call
  watch-Goes compare c [] last d z f = selects {selected = []} tt f
  watch-Goes compare c (sees frame ∷ ks) last d z f =
      Goes-then last (observe compare c frame d) (watch compare c ks)
        (observe-Goes compare c last frame d (ground (arith, z)) f)
        (λ n e g. watch-Goes compare c ks n e (ground (arith, z)) g)
  watch-Goes compare c (flushes ∷ ks) last d z f =
      Goes-then last (flush_burst d) (watch compare c ks) (flush_burst-Goes last d f)
        (λ n e g. watch-Goes compare c ks n e z g)

-- The keyframes are offered one after another.
unfoldable pub offer_all : List Selection → Ring → Checked Ring
unfolding ◌>>=◌
offer_all [] r = ok r
offer_all (s ∷ ss) r = offer s.keyframe r >>= λ q. offer_all ss q

offered-last : (k : Keyframe) (r : Ring) → (offered k r).last_offered_frame_id ≡ k.frame_id
unfolding coalesce_gap
offered-last k r = ground arith

offer_all-Rises :
    (last : ℕ) (ss : List Selection) (r : Ring)
    → IsValid r
    → r.last_offered_frame_id ≡ last
    → Rises last ss
    → is_ok (offer_all ss r) ≡ true
unfolding offer_all
offer_all-Rises last [] r v l q = refl
offer_all-Rises last (s ∷ ss) r v l q =
    let above : r.last_offered_frame_id < s.keyframe.frame_id = omega (arith, l, q.0) in
    let accepted : offer s.keyframe r ≡ ok (offered s.keyframe r) =
      ground (arith, above, offer-eq s.keyframe r v) in
    subst (λ (m : Checked Ring). is_ok (m >>= λ p. offer_all ss p) ≡ true) (sym accepted)
      (offer_all-Rises s.keyframe.frame_id ss (offered s.keyframe r)
        (After-IsValid v (After-offered s.keyframe r above)) (offered-last s.keyframe r) q.1)

abbrev pub RisesIfOk : {S : Type 0} → Observed (Step S) → Type 0
RisesIfOk (ok s) = Rises 0 s.1
RisesIfOk (err e) = is_assertion e ≡ false

Goes-Rises : {S : Type 0} (m : Observed (Step S)) → Goes 0 m → RisesIfOk m
Goes-Rises _ (selects q f) = q
Goes-Rises _ (refuses h) = h

started-Goes :
    {S : Type 0} (compare : S → S → List RegionChange) (c : Settings) (ks : List (DetectorCall S))
    → all_positive ks ≡ true
    → RisesIfOk (watch compare c ks new_detector)
started-Goes compare c ks z =
    Goes-Rises _ (watch-Goes compare c ks 0 new_detector z (fresh refl refl refl refl))

-- Whatever frames with positive numbers a new detector sees, and wherever it is flushed between
-- them, no assertion of its fails.
pub watch_never_asserts :
    {S : Type 0} (compare : S → S → List RegionChange) (c : Settings) (ks : List (DetectorCall S))
    (e : DetectorError)
    → all_positive ks ≡ true
    → watch compare c ks new_detector ≡ err e
    → is_assertion e ≡ false
watch_never_asserts compare c ks e z h = subst RisesIfOk h (started-Goes compare c ks z)

-- The keyframes that a new detector selects from frames with positive numbers have increasing
-- numbers, and a valid ring that has been offered nothing takes them one after another without an
-- error.
pub selections_accepted :
    {S : Type 0} (compare : S → S → List RegionChange) (c : Settings) (ks : List (DetectorCall S))
    (d : Detector S) (selected : List Selection) (r : Ring)
    → all_positive ks ≡ true
    → watch compare c ks new_detector ≡ ok (d, selected)
    → IsValid r
    → r.last_offered_frame_id ≡ 0
    → Rises 0 selected × (is_ok (offer_all selected r) ≡ true)
selections_accepted compare c ks d selected r z h v l =
    let rises = subst RisesIfOk h (started-Goes compare c ks z) in
    (rises, offer_all-Rises 0 selected r v l rises)
