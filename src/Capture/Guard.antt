-- ===== src/Capture/Guard.antt =====
-- live_capture.py: the acknowledgement that a new gap refuses, and the test that a consumer has
-- caught up.
use mathlib.Core.Path.{subst}
use mathlib.Core.List.{append_assoc, append-nil}
use ranges.Prelude.{
  ℕ, ◌≤◌, ◌≡◌, refl, sym, ap, ◌∙◌, true, false, List, [], ◌∷◌, ◌++◌, arith, ltb, if◌then◌else◌,
  length, length-append, filter, elem, ok, err, ◌>>=◌, >>=-eq-ok,
}
use ranges.Capture.Ring.{
  Ring, Keyframe, CaptureGapEvent, KeyframeConsumerBatch, Checked, coalesce_gap, consumer_batch,
  acknowledge_consumer_batch, backwards, read_if_caught_up, caught_up, pending, read_pending,
}
use ranges.Capture.Trace.{RingCall, call, offered_by, Reaches, starts, steps}
use ranges.Capture.Retention.{Between}
use ranges.Capture.Calls.{
  acknowledged, After, after_stale, after_overflow, after_store, after_record, after_ack,
  after_batch, after_refusal, After-call, acknowledge_consumer_batch-eq,
}
use ranges.Capture.Valid.{Reaches-IsValid}
use ranges.Capture.Ledger.{IsLedger, Reaches-IsLedger, consumer_batch-revision}

-- Calls one after another.
unfoldable pub calls : List RingCall → Ring → Checked Ring
unfolding ◌>>=◌
calls [] r = ok r
calls (c ∷ cs) r = call c r >>= λ s. calls cs s

After-gap_events :
    {r : Ring} {c : RingCall} {s : Ring}
    → After r c s
    → (more : List CaptureGapEvent) × (s.gap_events ≡ r.gap_events ++ more)
unfolding coalesce_gap
After-gap_events {r} (after_stale k l m) = ([], sym (append-nil r.gap_events))
After-gap_events (after_overflow k l m) = (_, refl)
After-gap_events {r} (after_store k l m n) = ([], sym (append-nil r.gap_events))
After-gap_events (after_record g) = (_, refl)
After-gap_events {r} (after_ack through l) = ([], sym (append-nil r.gap_events))
After-gap_events {r} (after_batch through expected e l) = ([], sym (append-nil r.gap_events))
After-gap_events {r} (after_refusal through expected l) = ([], sym (append-nil r.gap_events))

-- The ledger only grows, and the calls lead to a ring of the history.
calls-gap_events :
    {capacity : ℕ} {xs : List ℕ} (cs : List RingCall) (r s : Ring)
    → Reaches capacity xs r
    → calls cs r ≡ ok s
    → IsLedger s × (more : List CaptureGapEvent) × (s.gap_events ≡ r.gap_events ++ more)
unfolding calls
calls-gap_events [] r s p h =
    subst
      (λ (t : Ring).
        IsLedger t × (more : List CaptureGapEvent) × (t.gap_events ≡ r.gap_events ++ more))
      (ground arith) (Reaches-IsLedger p, [], sym (append-nil r.gap_events))
calls-gap_events (c ∷ cs) r s p h =
    let (q, e, k) = >>=-eq-ok (call c r) (λ t. calls cs t) h in
    let (first, f) = After-gap_events (After-call c r q (Reaches-IsValid p) e) in
    let (ledger, rest, g) = calls-gap_events cs q s (steps c p e) k in
    (
      ledger,
      first ++ rest,
      g ∙ ap (λ (es : List CaptureGapEvent). es ++ rest) f ∙ append_assoc r.gap_events first rest,
    )

length-zero : (es : List CaptureGapEvent) → length es ≤ 0 → es ≡ []
length-zero [] l = refl
length-zero (e ∷ es) l = absurd (omega (arith, l))

-- After any further calls, the acknowledgement of a batch is answered with false exactly where a
-- gap was recorded since the batch was read, and then changes nothing; where the ledger has not
-- grown it is the ledger that the batch was read from, and the frames are acknowledged, unless the
-- number moves backwards.
pub guarded_acknowledge :
    {capacity : ℕ} {xs : List ℕ} (after cursor through : ℕ) (cs : List RingCall) (r s : Ring)
    (b : KeyframeConsumerBatch)
    → Reaches capacity xs r
    → consumer_batch after cursor r ≡ ok b
    → calls cs r ≡ ok s
    → (acknowledge_consumer_batch through b.gap_revision s ≡ (
        if ltb (length r.gap_events) (length s.gap_events)
        then ok (s, false)
        else if ltb through s.acked_through
        then err backwards
        else ok (acknowledged through s, true)))
      × (length s.gap_events ≤ length r.gap_events → s.gap_events ≡ r.gap_events)
guarded_acknowledge after cursor through cs r s b p h k =
    let (ledger, more, e) = calls-gap_events cs r s p k in
    let revision = consumer_batch-revision after cursor r b h in
    let counted = (Reaches-IsLedger p).counted in
    let total = ap length e ∙ length-append r.gap_events more in
    (
      ground (
        arith,
        acknowledge_consumer_batch-eq through b.gap_revision s,
        revision.0,
        counted,
        ledger.counted,
      ),
      λ l.
          e
          ∙ ap (λ (es : List CaptureGapEvent). r.gap_events ++ es)
              (length-zero more (omega (arith, l, total)))
          ∙ append-nil r.gap_events,
    )

-- The frames offered are no newer than the last one.
After-last_offered :
    {r : Ring} {c : RingCall} {s : Ring} (x : ℕ) (xs : List ℕ)
    → After r c s
    → (elem x xs ≡ true → x ≤ r.last_offered_frame_id)
    → elem x (offered_by c xs) ≡ true
    → x ≤ s.last_offered_frame_id
unfolding coalesce_gap
After-last_offered x xs (after_stale k l m) h e = ground arith
After-last_offered x xs (after_overflow k l m) h e = ground arith
After-last_offered x xs (after_store k l m n) h e = ground arith
After-last_offered x xs (after_record g) h e = h e
After-last_offered x xs (after_ack through l) h e = h e
After-last_offered x xs (after_batch through expected q l) h e = h e
After-last_offered x xs (after_refusal through expected l) h e = h e

Reaches-last_offered :
    {capacity : ℕ} {xs : List ℕ} {r : Ring} (x : ℕ)
    → Reaches capacity xs r
    → elem x xs ≡ true
    → x ≤ r.last_offered_frame_id
Reaches-last_offered x (starts p) e = absurd (cc)
Reaches-last_offered x (steps {xs = xs} {r = r} {s} c p q) e =
    After-last_offered x xs (After-call c r s (Reaches-IsValid p) q) (Reaches-last_offered x p) e

pending-empty :
    (low high : ℕ) (ks : List Keyframe)
    → Between low high ks
    → filter (λ (k : Keyframe). ltb low k.frame_id) ks ≡ []
    → ks ≡ []
pending-empty low high [] b h = refl
pending-empty low high (k ∷ ks) b h = absurd (ground (arith, b.0))

read_pending-caught_up :
    {A : Type 0} (consumed : ℕ) (value w : A) (r : Ring) (ks : List Keyframe)
    → read_pending consumed value r ks ≡ caught_up w
    → (ks ≡ []) × (r.acked_through ≡ consumed) × (r.last_offered_frame_id ≤ consumed) × (w ≡ value)
read_pending-caught_up consumed value w r [] h = (refl, ground arith, ground arith, ground arith)
read_pending-caught_up consumed value w r (k ∷ ks) h = absurd (cc)

read_if_caught_up-tests :
    {A : Type 0} (consumed observed : ℕ) (value w : A) (r : Ring)
    → read_if_caught_up consumed observed value r ≡ ok (caught_up w)
    → (r.gap_revision ≡ observed)
      × (pending consumed r ≡ [])
      × (r.acked_through ≡ consumed)
      × (r.last_offered_frame_id ≤ consumed)
      × (w ≡ value)
unfolding read_if_caught_up ◌>>=◌
read_if_caught_up-tests consumed observed value w r h =
    let (none_pending, acked, offered, read) =
      read_pending-caught_up consumed value w r (pending consumed r) (ground arith) in
    (ground arith, none_pending, acked, offered, read)

-- A read that answers with a value gives the reader's value; then every frame that was ever
-- offered is at most the consumed number, no frame is kept, and the number of gap events is the
-- revision that the consumer has observed.
pub read_if_caught_up_complete :
    {A : Type 0} {capacity : ℕ} {xs : List ℕ} {r : Ring} (consumed observed : ℕ) (value w : A)
    → Reaches capacity xs r
    → read_if_caught_up consumed observed value r ≡ ok (caught_up w)
    → (w ≡ value)
      × ((x : ℕ) → elem x xs ≡ true → x ≤ consumed)
      × (r.items ≡ [])
      × (length r.gap_events ≡ observed)
unfolding pending
read_if_caught_up_complete {r = r} consumed observed value w p h =
    let (revision, none_pending, acked, offered, read) =
      read_if_caught_up-tests consumed observed value w r h in
    (
      read,
      λ x e. omega (arith, offered, Reaches-last_offered x p e),
      pending-empty r.acked_through r.last_offered_frame_id r.items (Reaches-IsValid p).between (
          ap (λ (n : ℕ). filter (λ (k : Keyframe). ltb n k.frame_id) r.items) acked ∙ none_pending),
      (Reaches-IsLedger p).counted ∙ revision,
    )
