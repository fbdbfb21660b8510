-- ===== src/Capture/Ranges.antt =====
-- live_capture.py: the merged gap ranges of `KeyframeRing` beside its gap events.
use mathlib.Core.Path.{subst}
use ranges.Prelude.{ℕ, ◌+◌, ◌≡◌, refl, true, List, [], ◌∷◌, ◌++◌, arith}
use ranges.Capture.Ring.{Ring, CaptureGap, CaptureGapEvent, coalesce_gap, merge_last}
use ranges.Capture.Trace.{RingCall, Reaches, starts, steps}
use ranges.Capture.Calls.{
  After, after_stale, after_overflow, after_store, after_record, after_ack, after_batch,
  after_refusal, After-call,
}
use ranges.Capture.Retention.{is_reported, is_reported-append}
use ranges.Capture.Valid.{Reaches-IsValid, new_ring-eq}
use ranges.Capture.Merge.{dropped, is_covered, Ordered, or_sorted-Extended}

-- The number of frames that the events say were dropped.
abbrev pub dropped_events : List CaptureGapEvent → ℕ
dropped_events [] = 0
dropped_events (e ∷ es) = e.gap.dropped_count + dropped_events es

dropped_events-append :
    (gs hs : List CaptureGapEvent)
    → dropped_events (gs ++ hs) ≡ dropped_events gs + dropped_events hs
dropped_events-append [] hs = omega arith
dropped_events-append (g ∷ gs) hs = omega (arith, dropped_events-append gs hs)

-- What the ranges keep of the events.
pub record IsSummary (r : Ring) : Type 0 where
  pub ordered : Ordered r.gaps
  pub count : dropped r.gaps ≡ dropped_events r.gap_events
  pub covers : (x : ℕ) → is_reported x r.gap_events ≡ true → is_covered x r.gaps ≡ true

coalesce_gap-IsSummary : (g : CaptureGap) (r : Ring) → IsSummary r → IsSummary (coalesce_gap g r)
unfolding coalesce_gap
coalesce_gap-IsSummary g r p =
    let x = or_sorted-Extended g r.gaps (merge_last g r.gaps) refl in
    let e : CaptureGapEvent = record { revision = r.gap_revision + 1; gap = g } in
    record {
      ordered = x.ordered p.ordered;
      count = omega (arith, x.count, p.count, dropped_events-append r.gap_events (e ∷ []));
      covers = λ n c.
          x.covers n (ground (arith, p.covers n, is_reported-append n r.gap_events (e ∷ [])));
    }

After-IsSummary : {r : Ring} {c : RingCall} {s : Ring} → After r c s → IsSummary r → IsSummary s
After-IsSummary (after_stale k l m) p = record {
  ordered = p.ordered;
  count = p.count;
  covers = p.covers;
}
After-IsSummary (after_overflow k l m) p =
    coalesce_gap-IsSummary _ _ (record { ordered = p.ordered; count = p.count; covers = p.covers })
After-IsSummary (after_store k l m n) p = record {
  ordered = p.ordered;
  count = p.count;
  covers = p.covers;
}
After-IsSummary {r} (after_record g) p = coalesce_gap-IsSummary g r p
After-IsSummary (after_ack through l) p = record {
  ordered = p.ordered;
  count = p.count;
  covers = p.covers;
}
After-IsSummary (after_batch through expected e l) p = record {
  ordered = p.ordered;
  count = p.count;
  covers = p.covers;
}
After-IsSummary (after_refusal through expected l) p = p

-- In every ring that a history of calls leads to, the merged ranges stand in the order of their
-- bounds, count as many dropped frames as the gap events do, and cover each number that a gap
-- event covers.
pub gaps-IsSummary : {capacity : ℕ} {xs : List ℕ} {r : Ring} → Reaches capacity xs r → IsSummary r
gaps-IsSummary (starts {capacity} {r} h) =
    subst IsSummary (new_ring-eq capacity r h)
      (record { ordered = tt; count = refl; covers = λ x c. absurd (cc) })
gaps-IsSummary (steps {r = r} {s} c p h) =
    After-IsSummary (After-call c r s (Reaches-IsValid p) h) (gaps-IsSummary p)
