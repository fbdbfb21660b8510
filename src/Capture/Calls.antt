-- ===== src/Capture/Calls.antt =====
-- live_capture.py: what the calls of a `KeyframeRing` answer.
use mathlib.Core.Path.{subst}
use ranges.Prelude.{
  ℕ, ◌≤◌, ◌<◌, ◌≡◌, true, false, [], ◌∷◌, ◌++◌, arith, ltb, leb, if◌then◌else◌, length, Bool-cases,
  inl, inr, ok, err, ◌>>=◌,
}
use ranges.Capture.Ring.{
  Ring, Keyframe, CaptureGap, check_gap, overflow_gap, coalesce_gap, make_room, release, offer,
  store, not_increasing, acknowledge, backwards, acknowledge_consumer_batch, outside_ledger,
  record_gap,
}
use ranges.Capture.Trace.{RingCall, offers, records, acknowledges, acknowledges_batch, call}
use ranges.Capture.Retention.{Between, make_room-Between}

-- No more frames than the capacity, all above the acknowledged number and in their order.
pub record IsValid (r : Ring) : Type 0 where
  pub bounded : length r.items ≤ r.capacity
  pub between : Between r.acked_through r.last_offered_frame_id r.items

-- A ring after an acknowledgement, and after the offer of a frame with a larger number.
abbrev pub acknowledged : ℕ → Ring → Ring
acknowledged through r = record r { acked_through = through; items = release through r.items }

abbrev pub offered : Keyframe → Ring → Ring
offered k r =
    if leb k.frame_id r.acked_through
    then record r { last_offered_frame_id = k.frame_id }
    else if leb r.capacity (length r.items)
    then coalesce_gap (overflow_gap k) (record r { last_offered_frame_id = k.frame_id })
    else record r { last_offered_frame_id = k.frame_id; items = r.items ++ k ∷ [] }

check_gap-overflow_gap :
    (k : Keyframe) → 0 < k.frame_id → check_gap (overflow_gap k) ≡ ok (overflow_gap k)
unfolding check_gap ◌>>=◌
check_gap-overflow_gap k h = ground arith

store-eq :
    (k : Keyframe) (r : Ring)
    → 0 < k.frame_id
    → make_room r.capacity r.acked_through r.items ≡ r.items
    → store k (record r { last_offered_frame_id = k.frame_id }) ≡ ok (offered k r)
unfolding store ◌>>=◌
store-eq k r h e = ground (arith, check_gap-overflow_gap k h, e)

-- On a valid ring an offer fails exactly if its number is not larger than the last one offered;
-- otherwise the frame is ignored, reported as a gap or kept, as the acknowledged number and the room
-- say, and no kept frame is discarded.
pub offer-eq :
    (k : Keyframe) (r : Ring)
    → IsValid r
    → offer k r
      ≡ (if leb k.frame_id r.last_offered_frame_id then err not_increasing else ok (offered k r))
unfolding offer ◌>>=◌
offer-eq k r v = ground (
  arith,
  λ (l : r.last_offered_frame_id < k.frame_id).
      store-eq k r (omega (arith, l))
        (make_room-Between r.capacity r.acked_through r.last_offered_frame_id r.items v.between),
)

-- What a call without an error leads to.
pub data After (r : Ring) : RingCall → Ring → Type 0 where
  after_stale :
      (k : Keyframe)
      → r.last_offered_frame_id < k.frame_id
      → k.frame_id ≤ r.acked_through
      → After r (offers k) (record r { last_offered_frame_id = k.frame_id })
  after_overflow :
      (k : Keyframe)
      → r.last_offered_frame_id < k.frame_id
      → r.capacity ≤ length r.items
      → After r
          (offers k)
          (coalesce_gap (overflow_gap k) (record r { last_offered_frame_id = k.frame_id }))
  after_store :
      (k : Keyframe)
      → r.last_offered_frame_id < k.frame_id
      → r.acked_through < k.frame_id
      → length r.items < r.capacity
      → After r
          (offers k)
          (record r { last_offered_frame_id = k.frame_id; items = r.items ++ k ∷ [] })
  after_record : (g : CaptureGap) → After r (records g) (coalesce_gap g r)
  after_ack :
      (through : ℕ)
      → r.acked_through ≤ through
      → After r (acknowledges through) (acknowledged through r)
  after_batch :
      (through expected : ℕ)
      → expected ≡ r.gap_revision
      → r.acked_through ≤ through
      → After r (acknowledges_batch through expected) (acknowledged through r)
  after_refusal :
      (through expected : ℕ)
      → expected < r.gap_revision
      → After r (acknowledges_batch through expected) r

pub After-offered :
    (k : Keyframe) (r : Ring)
    → r.last_offered_frame_id < k.frame_id
    → After r (offers k) (offered k r)
After-offered k r l = elim (Bool-cases (leb k.frame_id r.acked_through)) [
  | inl e ↦ subst (After r (offers k)) (ground arith) (after_stale k l (ground arith))
  | inr n ↦ elim (Bool-cases (leb r.capacity (length r.items))) [
    | inl e ↦ subst (After r (offers k)) (ground arith) (after_overflow k l (ground arith))
    | inr m ↦
        subst (After r (offers k)) (ground arith) (after_store k l (ground arith) (ground arith))
  ]
]

After-offer : (k : Keyframe) (r s : Ring) → IsValid r → offer k r ≡ ok s → After r (offers k) s
After-offer k r s v h = elim (Bool-cases (leb k.frame_id r.last_offered_frame_id)) [
  | inl e ↦ absurd (ground (arith, offer-eq k r v))
  | inr n ↦
      subst (After r (offers k)) (ground (arith, offer-eq k r v)) (After-offered k r (ground arith))
]

After-record : (g : CaptureGap) (r s : Ring) → record_gap g r ≡ ok s → After r (records g) s
unfolding record_gap check_gap ◌>>=◌
After-record g r s h = subst (After r (records g)) (ground arith) (after_record g)

After-acknowledge :
    (through : ℕ) (r s : Ring) → acknowledge through r ≡ ok s → After r (acknowledges through) s
unfolding acknowledge ◌>>=◌
After-acknowledge through r s h =
    subst (After r (acknowledges through)) (ground arith) (after_ack through (ground arith))

-- Every branch of the guarded acknowledgement.
pub acknowledge_consumer_batch-eq :
    (through expected : ℕ) (r : Ring)
    → acknowledge_consumer_batch through expected r ≡ (
        if ltb r.gap_revision expected
        then err outside_ledger
        else if ltb expected r.gap_revision
        then ok (r, false)
        else if ltb through r.acked_through
        then err backwards
        else ok (acknowledged through r, true))
unfolding acknowledge_consumer_batch ◌>>=◌
acknowledge_consumer_batch-eq through expected r = ground arith

After-batch :
    (through expected : ℕ) (r s : Ring)
    → call (acknowledges_batch through expected) r ≡ ok s
    → After r (acknowledges_batch through expected) s
unfolding call acknowledge_consumer_batch ◌>>=◌
After-batch through expected r s h = elim (Bool-cases (ltb expected r.gap_revision)) [
  | inl l ↦
      subst (After r (acknowledges_batch through expected)) (ground arith)
        (after_refusal through expected (ground arith))
  | inr n ↦
      subst (After r (acknowledges_batch through expected)) (ground arith)
        (after_batch through expected (ground arith) (ground arith))
]

pub After-call : (c : RingCall) (r s : Ring) → IsValid r → call c r ≡ ok s → After r c s
unfolding call
After-call (offers k) r s v h = After-offer k r s v h
After-call (records g) r s v h = After-record g r s h
After-call (acknowledges through) r s v h = After-acknowledge through r s h
After-call (acknowledges_batch through expected) r s v h = After-batch through expected r s h
