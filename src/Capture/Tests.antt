-- ===== src/Capture/Tests.antt =====
-- Runs of the ring of keyframes, and the theorems about it at concrete histories.
use ranges.Prelude.{
  ℕ, ◌≤◌, ◌≡◌, refl, true, false, List, [], ◌∷◌, ◌++◌, length, elem, ok, err, ◌>>=◌,
}
use ranges.Capture.Ring.{
  Ring, Keyframe, change, CaptureGap, CaptureGapEvent, KeyframeConsumerBatch, capture_error,
  new_ring, offer, consumer_batch, acknowledge_consumer_batch, read_if_caught_up, caught_up,
  not_increasing, store, check_gap, coalesce_gap, merge_last, sort_gaps, record_gap, release,
  pending, overflow_gap, lagging, unseen_gap,
}
use ranges.Capture.Trace.{offers, acknowledges_batch, call, Reaches, starts, steps}
use ranges.Capture.Calls.{IsValid, offered, offer-eq}
use ranges.Capture.Valid.{is_accounted, empty_ring, no_silent_loss, Reaches-IsValid}
use ranges.Capture.Ledger.{consumer_batch_complete}
use ranges.Capture.Guard.{calls, guarded_acknowledge, read_if_caught_up_complete}
use ranges.Capture.Ranges.{IsSummary, gaps-IsSummary}

abbrev frame : ℕ → Keyframe
frame n = record { frame_id = n; monotonic_ns = 10; reason = change }

abbrev lost : CaptureGap
lost = record {
  kind = capture_error;
  first_frame_id = 5;
  last_frame_id = 6;
  detected_monotonic_ns = 20;
  reason = "monitor";
  dropped_count = 2;
}

-- The ring after one offer, after two, and after a third without room.
abbrev first : Ring
first = record (empty_ring 2) { items = frame 1 ∷ []; last_offered_frame_id = 1 }

abbrev full : Ring
full = record (empty_ring 2) { items = frame 1 ∷ frame 3 ∷ []; last_offered_frame_id = 3 }

abbrev overflown : Ring
overflown = record full {
  gaps = overflow_gap (frame 4) ∷ [];
  gap_events = (record { revision = 1; gap = overflow_gap (frame 4) }) ∷ [];
  gap_revision = 1;
  last_offered_frame_id = 4;
}

abbrev read : Ring
read = record overflown { items = []; acked_through = 4 }

starting : new_ring 2 ≡ ok (empty_ring 2)
unfolding new_ring ◌>>=◌
starting = refl

offers_first : call (offers (frame 1)) (empty_ring 2) ≡ ok first
unfolding call offer store ◌>>=◌
offers_first = refl

offers_second : call (offers (frame 3)) first ≡ ok full
unfolding call offer store ◌>>=◌
offers_second = refl

offers_third : call (offers (frame 4)) full ≡ ok overflown
unfolding call offer store check_gap coalesce_gap merge_last sort_gaps ◌>>=◌
offers_third = refl

acknowledges_all : call (acknowledges_batch 4 1) overflown ≡ ok read
unfolding call acknowledge_consumer_batch release ◌>>=◌
acknowledges_all = refl

-- A gap that extends the last one, and one that does not.
merges_adjacent :
    (record_gap (record lost { first_frame_id = 7; last_frame_id = 8 }) (empty_ring 2)
      >>= record_gap (record lost { first_frame_id = 9; last_frame_id = 9 })
      >>= record_gap lost
      >>= λ r. ok r.gaps)
    ≡ ok (lost ∷ (record lost { first_frame_id = 7; last_frame_id = 9; dropped_count = 4 }) ∷ [])
unfolding record_gap check_gap coalesce_gap merge_last sort_gaps ◌>>=◌
merges_adjacent = refl

rejects_repeated : offer (frame 3) full ≡ err not_increasing
unfolding offer ◌>>=◌
rejects_repeated = refl

lags : read_if_caught_up {A = ℕ} 4 0 7 overflown ≡ ok (lagging unseen_gap)
unfolding read_if_caught_up ◌>>=◌
lags = refl

to_full : Reaches 2 (3 ∷ 1 ∷ []) full
to_full =
    steps (offers (frame 3)) (steps (offers (frame 1)) (starts starting) offers_first) offers_second

to_overflown : Reaches 2 (4 ∷ 3 ∷ 1 ∷ []) overflown
to_overflown = steps (offers (frame 4)) to_full offers_third

to_read : Reaches 2 (4 ∷ 3 ∷ 1 ∷ []) read
to_read = steps (acknowledges_batch 4 1) to_overflown acknowledges_all

offer-eq_example : offer (frame 4) full ≡ ok (offered (frame 4) full)
offer-eq_example = offer-eq (frame 4) full (Reaches-IsValid to_full)

Reaches-IsValid_example : IsValid overflown
Reaches-IsValid_example = Reaches-IsValid to_overflown

no_silent_loss_example : is_accounted 4 overflown ≡ true
no_silent_loss_example = no_silent_loss 4 to_overflown refl

gaps-IsSummary_example : IsSummary overflown
gaps-IsSummary_example = gaps-IsSummary to_overflown

abbrev batch : KeyframeConsumerBatch
batch = record {
  acknowledged_through = 0;
  gap_revision = 1;
  keyframes = frame 1 ∷ frame 3 ∷ [];
  gap_events = (record { revision = 1; gap = overflow_gap (frame 4) }) ∷ [];
}

reads_batch : consumer_batch 0 0 overflown ≡ ok batch
unfolding consumer_batch pending ◌>>=◌
reads_batch = refl

consumer_batch_complete_example :
    (batch.gap_revision ≡ length overflown.gap_events)
    × (seen : List CaptureGapEvent) × (length seen ≡ 0)
    × (overflown.gap_events ≡ seen ++ batch.gap_events)
consumer_batch_complete_example = consumer_batch_complete 0 0 batch to_overflown reads_batch

abbrev early_batch : KeyframeConsumerBatch
early_batch = record batch { gap_revision = 0; gap_events = [] }

reads_early_batch : consumer_batch 0 0 full ≡ ok early_batch
unfolding consumer_batch pending ◌>>=◌
reads_early_batch = refl

calls_third : calls (offers (frame 4) ∷ []) full ≡ ok overflown
unfolding calls call offer store check_gap coalesce_gap merge_last sort_gaps ◌>>=◌
calls_third = refl

guarded_acknowledge_example :
    (acknowledge_consumer_batch 3 0 overflown ≡ ok (overflown, false))
    × (1 ≤ 0 → overflown.gap_events ≡ [])
guarded_acknowledge_example =
    guarded_acknowledge 0 0 3 (offers (frame 4) ∷ []) full overflown early_batch to_full
      reads_early_batch calls_third

reads_value : read_if_caught_up {A = ℕ} 4 1 7 read ≡ ok (caught_up 7)
unfolding read_if_caught_up pending ◌>>=◌
reads_value = refl

abbrev seven : ℕ
seven = 7

read_if_caught_up_complete_example :
    (seven ≡ seven)
    × ((x : ℕ) → elem x (4 ∷ 3 ∷ 1 ∷ []) ≡ true → x ≤ 4)
    × (read.items ≡ [])
    × (length read.gap_events ≡ 1)
read_if_caught_up_complete_example = read_if_caught_up_complete 4 1 7 7 to_read reads_value
