-- ===== src/Capture/Trace.antt =====
-- The histories of a `KeyframeRing` (live_capture.py): the calls that change it, and the rings that
-- a sequence of calls leads to.
use ranges.Prelude.{ℕ, ◌≡◌, List, [], ◌∷◌, ok, ◌>>=◌}
use ranges.Capture.Ring.{
  Ring, Keyframe, CaptureGap, Checked, new_ring, offer, record_gap, acknowledge,
  acknowledge_consumer_batch,
}

pub data RingCall : Type 0 where
  offers : Keyframe → RingCall
  records : CaptureGap → RingCall
  acknowledges : ℕ → RingCall
  acknowledges_batch : ℕ → ℕ → RingCall

unfoldable pub call : RingCall → Ring → Checked Ring
unfolding ◌>>=◌
call (offers k) r = offer k r
call (records g) r = record_gap g r
call (acknowledges through) r = acknowledge through r
call (acknowledges_batch through expected) r =
    acknowledge_consumer_batch through expected r >>= λ p. ok (p.0)

-- The frames offered after a call.
abbrev pub offered_by : RingCall → List ℕ → List ℕ
offered_by (offers k) xs = k.frame_id ∷ xs
offered_by (records g) xs = xs
offered_by (acknowledges through) xs = xs
offered_by (acknowledges_batch through expected) xs = xs

-- A ring that calls without an error lead to from a new one, and the frames that were offered.
pub data Reaches : ℕ → List ℕ → Ring → Type 0 where
  starts : {capacity : ℕ} {r : Ring} → new_ring capacity ≡ ok r → Reaches capacity [] r
  steps :
      {capacity : ℕ} {xs : List ℕ} {r s : Ring} (c : RingCall)
      → Reaches capacity xs r
      → call c r ≡ ok s
      → Reaches capacity (offered_by c xs) s
