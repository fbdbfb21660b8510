-- ===== src/Capture/Ring.antt =====
-- live_capture.py: `Keyframe`, `CaptureGap` and `KeyframeRing`. Every method holds the condition's
-- lock for its whole body, so a method is one step on the state; `notify_all` changes no state.
use ranges.Prelude.{
  ℕ, ◌+◌, Bool, true, false, not, ◌&&◌, ◌||◌, List, [], ◌∷◌, ◌++◌, Option, none, some, String, ltb,
  leb, ◌==◌, str_eq, if◌then◌else◌, length, filter, Result, ok, raise_if, ◌>>=◌, ◌>>◌, max,
}

-- `KeyframeReason`
pub data KeyframeReason : Type 0 where
  baseline change peak stable heartbeat flush : KeyframeReason

-- The frame's number and time; its pixels play no part in the ring.
pub record Keyframe : Type 0 where
  pub frame_id : ℕ
  pub monotonic_ns : ℕ
  pub reason : KeyframeReason

pub data CaptureGapKind : Type 0 where
  queue_overflow capture_error : CaptureGapKind

pub record CaptureGap : Type 0 where
  pub kind : CaptureGapKind
  pub first_frame_id : ℕ
  pub last_frame_id : ℕ
  pub detected_monotonic_ns : ℕ
  pub reason : String
  pub dropped_count : ℕ

pub record CaptureGapEvent : Type 0 where
  pub revision : ℕ
  pub gap : CaptureGap

-- The `ValueError`s of the ring and of a gap.
pub data RingError : Type 0 where
  bad_capacity not_increasing backwards outside_ledger : RingError
  bad_first_frame bad_last_frame bad_gap_reason bad_dropped_count : RingError

abbrev pub Checked : Type 0 → Type 0
Checked A = Result RingError A

-- `CaptureGap.__post_init__`
unfoldable pub check_gap : CaptureGap → Checked CaptureGap
check_gap gap = do
  raise_if (gap.first_frame_id == 0) bad_first_frame
  raise_if (ltb gap.last_frame_id gap.first_frame_id) bad_last_frame
  raise_if (str_eq gap.reason "") bad_gap_reason
  raise_if (gap.dropped_count == 0) bad_dropped_count
  ok gap

pub record Ring : Type 0 where
  pub capacity : ℕ
  pub items : List Keyframe
  pub gaps : List CaptureGap
  pub gap_events : List CaptureGapEvent
  pub gap_revision : ℕ
  pub acked_through : ℕ
  pub last_offered_frame_id : ℕ

unfoldable pub new_ring : ℕ → Checked Ring
new_ring capacity = do
  raise_if (capacity == 0) bad_capacity
  ok (record {
    capacity = capacity;
    items = [];
    gaps = [];
    gap_events = [];
    gap_revision = 0;
    acked_through = 0;
    last_offered_frame_id = 0;
  })

abbrev pub same_gap_kind : CaptureGapKind → CaptureGapKind → Bool
same_gap_kind queue_overflow queue_overflow = true
same_gap_kind capture_error capture_error = true
same_gap_kind _ _ = false

-- The test that a gap extends the last one.
abbrev pub extends : CaptureGap → CaptureGap → Bool
extends previous gap =
    same_gap_kind previous.kind gap.kind
    && str_eq previous.reason gap.reason
    && leb previous.first_frame_id gap.first_frame_id
    && leb gap.first_frame_id (previous.last_frame_id + 1)

abbrev pub combine : CaptureGap → CaptureGap → CaptureGap
combine previous gap = record previous {
  last_frame_id = max previous.last_frame_id gap.last_frame_id;
  dropped_count = previous.dropped_count + gap.dropped_count;
}

-- `self._gaps[-1]` is combined with the gap where that extends it.
unfoldable pub merge_last : CaptureGap → List CaptureGap → Option (List CaptureGap)
merge_last gap [] = none
merge_last gap (previous ∷ []) =
    if extends previous gap then some (combine previous gap ∷ []) else none
merge_last gap (g ∷ h ∷ rest) = elim (merge_last gap (h ∷ rest)) [
  | none ↦ none
  | some merged ↦ some (g ∷ merged)
]

-- A smaller sort key.
abbrev pub before : CaptureGap → CaptureGap → Bool
before a b =
    ltb a.first_frame_id b.first_frame_id
    || (a.first_frame_id == b.first_frame_id && ltb a.last_frame_id b.last_frame_id)

unfoldable pub insert_gap : CaptureGap → List CaptureGap → List CaptureGap
insert_gap g [] = g ∷ []
insert_gap g (h ∷ hs) = if before h g then h ∷ insert_gap g hs else g ∷ h ∷ hs

-- The stable `sort`.
unfoldable pub sort_gaps : List CaptureGap → List CaptureGap
unfolding insert_gap
sort_gaps [] = []
sort_gaps (g ∷ gs) = insert_gap g (sort_gaps gs)

abbrev pub or_sorted : List CaptureGap → Option (List CaptureGap) → List CaptureGap
or_sorted all none = sort_gaps all
or_sorted all (some merged) = merged

-- `_coalesce_gap_locked`: the diagnostic ranges may be merged, the event is always kept.
unfoldable pub coalesce_gap : CaptureGap → Ring → Ring
coalesce_gap gap r = record r {
  gaps = or_sorted (r.gaps ++ gap ∷ []) (merge_last gap r.gaps);
  gap_revision = r.gap_revision + 1;
  gap_events = r.gap_events ++ (record { revision = r.gap_revision + 1; gap = gap } ∷ []);
}

-- The loop that releases the acknowledged frames at the front, while there is no free slot.
unfoldable pub make_room : ℕ → ℕ → List Keyframe → List Keyframe
make_room capacity acked [] = []
make_room capacity acked (k ∷ ks) =
    let rest = make_room capacity acked ks in
    if leb capacity (length (k ∷ ks)) && leb k.frame_id acked then rest else k ∷ ks

-- The loop that releases the front up to a frame.
unfoldable pub release : ℕ → List Keyframe → List Keyframe
release through [] = []
release through (k ∷ ks) =
    let rest = release through ks in if leb k.frame_id through then rest else k ∷ ks

abbrev pub overflow_gap : Keyframe → CaptureGap
overflow_gap k = record {
  kind = queue_overflow;
  first_frame_id = k.frame_id;
  last_frame_id = k.frame_id;
  detected_monotonic_ns = k.monotonic_ns;
  reason = "unacknowledged keyframe capacity exceeded";
  dropped_count = 1;
}

-- `offer` behind its order test.
unfoldable pub store : Keyframe → Ring → Checked Ring
unfolding make_room
store k r =
    let kept = make_room r.capacity r.acked_through r.items in
    if leb k.frame_id r.acked_through
    then ok r
    else if leb r.capacity (length kept)
    then (do gap ← check_gap (overflow_gap k); ok (coalesce_gap gap (record r { items = kept })))
    else ok (record r { items = kept ++ (k ∷ []) })

-- `offer`; the gap that it returns is the last event of the ledger.
unfoldable pub offer : Keyframe → Ring → Checked Ring
offer k r = do
  raise_if (leb k.frame_id r.last_offered_frame_id) not_increasing
  store k (record r { last_offered_frame_id = k.frame_id })

-- `record_gap`; a `CaptureGap` has passed its own checks.
unfoldable pub record_gap : CaptureGap → Ring → Checked Ring
record_gap gap r = do checked ← check_gap gap; ok (coalesce_gap checked r)

unfoldable pub acknowledge : ℕ → Ring → Checked Ring
acknowledge through r = do
  raise_if (ltb through r.acked_through) backwards
  ok (record r { acked_through = through; items = release through r.items })

unfoldable pub pending : ℕ → Ring → List Keyframe
pending after r = filter (λ (k : Keyframe). ltb after k.frame_id) r.items

pub record GapSnapshot : Type 0 where
  pub revision : ℕ
  pub gaps : List CaptureGap

-- `gap_snapshot`: the revision and the ranges at one moment.
unfoldable pub gap_snapshot : Ring → GapSnapshot
gap_snapshot r = record { revision = r.gap_revision; gaps = r.gaps }

pub record KeyframeConsumerBatch : Type 0 where
  pub acknowledged_through : ℕ
  pub gap_revision : ℕ
  pub keyframes : List Keyframe
  pub gap_events : List CaptureGapEvent

unfoldable pub consumer_batch : ℕ → ℕ → Ring → Checked KeyframeConsumerBatch
unfolding pending
consumer_batch after_frame_id after_gap_revision r = do
  raise_if (ltb r.gap_revision after_gap_revision) outside_ledger
  ok (record {
    acknowledged_through = r.acked_through;
    gap_revision = r.gap_revision;
    keyframes = pending after_frame_id r;
    gap_events = filter (λ (e : CaptureGapEvent). ltb after_gap_revision e.revision) r.gap_events;
  })

-- `acknowledge_consumer_batch`: the new state, and whether the batch was acknowledged.
unfoldable pub acknowledge_consumer_batch : ℕ → ℕ → Ring → Checked (Ring × Bool)
acknowledge_consumer_batch through expected r = do
  raise_if (ltb r.gap_revision expected) outside_ledger
  if not (expected == r.gap_revision) then ok (r, false) else do
    raise_if (ltb through r.acked_through) backwards
    ok (record r { acked_through = through; items = release through r.items }, true)

-- Why a consumer does not cover the ledger; the source writes a text for each.
pub data Lag : Type 0 where
  unseen_gap ack_differs offered_newer : Lag
  pending_keyframe : ℕ → Lag

pub data CaughtUpRingRead (A : Type 0) : Type 0 where
  caught_up : A → CaughtUpRingRead A
  lagging : Lag → CaughtUpRingRead A

-- The tests behind the one on the revision, on the frames that are pending.
abbrev pub read_pending : {A : Type 0} → ℕ → A → Ring → List Keyframe → CaughtUpRingRead A
read_pending consumed value r (k ∷ ks) = lagging (pending_keyframe k.frame_id)
read_pending consumed value r [] =
    if not (r.acked_through == consumed)
    then lagging ack_differs
    else if ltb consumed r.last_offered_frame_id
    then lagging offered_newer
    else caught_up value

-- `read_if_caught_up`; the reader is run where the value is returned, with the lock held.
unfoldable pub read_if_caught_up : {A : Type 0} → ℕ → ℕ → A → Ring → Checked (CaughtUpRingRead A)
unfolding pending
read_if_caught_up consumed observed value r = do
  raise_if (ltb r.gap_revision observed) outside_ledger
  ok (
      if ltb observed r.gap_revision
      then lagging unseen_gap
      else read_pending consumed value r (pending consumed r))
