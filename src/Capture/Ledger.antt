-- ===== src/Capture/Ledger.antt =====
-- live_capture.py: the gap events that `KeyframeRing` numbers, and the batches that a consumer reads.
use mathlib.Core.Path.{subst}
use ranges.Prelude.{
  ℕ, ◌+◌, ◌≤◌, ◌≡◌, refl, sym, ap, ◌∙◌, true, List, [], ◌∷◌, ◌++◌, arith, ltb, leb, length,
  length-append, filter, Bool-cases, inl, inr, ok, ◌>>=◌,
}
use ranges.Capture.Ring.{
  Ring, CaptureGapEvent, KeyframeConsumerBatch, CaptureGap, coalesce_gap, consumer_batch,
}
use ranges.Capture.Trace.{RingCall, Reaches, starts, steps}
use ranges.Capture.Calls.{
  After, after_stale, after_overflow, after_store, after_record, after_ack, after_batch,
  after_refusal, After-call,
}
use ranges.Capture.Valid.{Reaches-IsValid, new_ring-eq}

-- The events carry the numbers after the first one, without a hole.
abbrev pub Numbered : ℕ → List CaptureGapEvent → Type 0
Numbered n [] = Unit
Numbered n (e ∷ es) = (e.revision ≡ n + 1) × Numbered (n + 1) es

pub record IsLedger (r : Ring) : Type 0 where
  pub numbered : Numbered 0 r.gap_events
  pub counted : length r.gap_events ≡ r.gap_revision

Numbered-append :
    (n : ℕ) (es : List CaptureGapEvent) (e : CaptureGapEvent)
    → Numbered n es
    → e.revision ≡ n + length es + 1
    → Numbered n (es ++ e ∷ [])
Numbered-append n [] e p q = (omega (arith, q), tt)
Numbered-append n (d ∷ es) e p q = (p.0, Numbered-append (n + 1) es e p.1 (omega (arith, q)))

coalesce_gap-IsLedger : (g : CaptureGap) (r : Ring) → IsLedger r → IsLedger (coalesce_gap g r)
unfolding coalesce_gap
coalesce_gap-IsLedger g r l = record {
  numbered = Numbered-append 0 r.gap_events _ l.numbered (omega (arith, l.counted));
  counted = omega (
    arith,
    l.counted,
    length-append r.gap_events (record { revision = r.gap_revision + 1; gap = g } ∷ []),
  );
}

After-IsLedger : {r : Ring} {c : RingCall} {s : Ring} → After r c s → IsLedger r → IsLedger s
After-IsLedger (after_stale k l m) p = record { numbered = p.numbered; counted = p.counted }
After-IsLedger {r} (after_overflow k l m) p =
    coalesce_gap-IsLedger _ _ (record { numbered = p.numbered; counted = p.counted })
After-IsLedger (after_store k l m n) p = record { numbered = p.numbered; counted = p.counted }
After-IsLedger {r} (after_record g) p = coalesce_gap-IsLedger g r p
After-IsLedger (after_ack through l) p = record { numbered = p.numbered; counted = p.counted }
After-IsLedger (after_batch through expected e l) p = record {
  numbered = p.numbered;
  counted = p.counted;
}
After-IsLedger (after_refusal through expected l) p = p

pub Reaches-IsLedger : {capacity : ℕ} {xs : List ℕ} {r : Ring} → Reaches capacity xs r → IsLedger r
Reaches-IsLedger (starts {capacity} {r} h) =
    subst IsLedger (new_ring-eq capacity r h) (record { numbered = tt; counted = refl })
Reaches-IsLedger (steps {r = r} {s} c p h) =
    After-IsLedger (After-call c r s (Reaches-IsValid p) h) (Reaches-IsLedger p)

Numbered-filter_all :
    (n after : ℕ) (es : List CaptureGapEvent)
    → Numbered n es
    → after ≤ n
    → filter (λ (e : CaptureGapEvent). ltb after e.revision) es ≡ es
Numbered-filter_all n after [] p l = refl
Numbered-filter_all n after (e ∷ es) p l =
    ground (arith, p.0, Numbered-filter_all (n + 1) after es p.1 (omega (arith, l)))

-- The events above a number are the rest of the ledger behind the events up to it.
Numbered-filter :
    (n after : ℕ) (es : List CaptureGapEvent)
    → Numbered n es
    → n ≤ after
    → after ≤ n + length es
    → (seen : List CaptureGapEvent) × (es
        ≡ seen ++ filter (λ (e : CaptureGapEvent). ltb after e.revision) es)
      × (n + length seen ≡ after)
Numbered-filter n after [] p l m = ([], refl, omega (arith, l, m))
Numbered-filter n after (e ∷ es) p l m =
    let le : leb after n ≡ true → after ≤ n = λ h. ground arith in
    elim (Bool-cases (leb after n)) [
      | inl h ↦ ([], sym (Numbered-filter_all n after (e ∷ es) p (le h)), omega (arith, l, le h))
      | inr h ↦
          let (seen, q, c) =
            Numbered-filter (n + 1) after es p.1 (ground arith) (omega (arith, m)) in
          (e ∷ seen, ground (arith, p.0), omega (arith, c))
    ]

pub consumer_batch-revision :
    (after cursor : ℕ) (r : Ring) (b : KeyframeConsumerBatch)
    → consumer_batch after cursor r ≡ ok b
    → (b.gap_revision ≡ r.gap_revision)
      × (b.gap_events ≡ filter (λ (e : CaptureGapEvent). ltb cursor e.revision) r.gap_events)
      × (cursor ≤ r.gap_revision)
unfolding consumer_batch ◌>>=◌
consumer_batch-revision after cursor r b h = ground arith

-- A batch that is read with a cursor holds every gap event behind the cursor, in order and none
-- twice, and its own cursor is the end of the ledger.
pub consumer_batch_complete :
    {capacity : ℕ} {xs : List ℕ} {r : Ring} (after cursor : ℕ) (b : KeyframeConsumerBatch)
    → Reaches capacity xs r
    → consumer_batch after cursor r ≡ ok b
    → (b.gap_revision ≡ length r.gap_events)
      × (seen : List CaptureGapEvent) × (length seen ≡ cursor)
      × (r.gap_events ≡ seen ++ b.gap_events)
consumer_batch_complete {r = r} after cursor b p h =
    let ledger = Reaches-IsLedger p in
    let (revision, events, l) = consumer_batch-revision after cursor r b h in
    let (seen, q, c) =
      Numbered-filter 0 cursor r.gap_events ledger.numbered (omega arith)
        (omega (arith, l, ledger.counted)) in
    (
      revision ∙ sym (ledger.counted),
      seen,
      omega (arith, c),
      q ∙ ap (λ (es : List CaptureGapEvent). seen ++ es) (sym events),
    )
