-- ===== src/Capture/Valid.antt =====
-- live_capture.py: every ring that a history of calls leads to is valid, and no frame that was
-- offered to it is lost in silence.
use mathlib.Core.Path.{subst}
use ranges.Prelude.{
  ℕ, ◌+◌, ◌≤◌, ◌≡◌, Bool, true, ◌||◌, List, [], ◌∷◌, arith, leb, ◌==◌, length-append, elem,
  Bool-cases, inl, inr, ok, ◌>>=◌, ◌⊎◌,
}
use ranges.Capture.Ring.{Ring, coalesce_gap, overflow_gap, new_ring}
use ranges.Capture.Trace.{RingCall, offered_by, Reaches, starts, steps}
use ranges.Capture.Retention.{
  Between-high, Between-append, release-Between, length-release, is_held, is_held-append,
  is_held-release, is_reported, is_reported-append,
}
use ranges.Capture.Calls.{
  IsValid, acknowledged, After, after_stale, after_overflow, after_store, after_record, after_ack,
  after_batch, after_refusal, After-call,
}

abbrev pub empty_ring : ℕ → Ring
empty_ring capacity = record {
  capacity = capacity;
  items = [];
  gaps = [];
  gap_events = [];
  gap_revision = 0;
  acked_through = 0;
  last_offered_frame_id = 0;
}

pub new_ring-eq : (capacity : ℕ) (r : Ring) → new_ring capacity ≡ ok r → empty_ring capacity ≡ r
unfolding new_ring ◌>>=◌
new_ring-eq capacity r h = ground arith

new_ring-IsValid : (capacity : ℕ) (r : Ring) → new_ring capacity ≡ ok r → IsValid r
new_ring-IsValid capacity r h =
    subst IsValid (new_ring-eq capacity r h) (record { bounded = omega arith; between = tt })

acknowledged-IsValid :
    (through : ℕ) (r : Ring)
    → IsValid r
    → r.acked_through ≤ through
    → IsValid (acknowledged through r)
acknowledged-IsValid through r v l = record {
  bounded = omega (arith, v.bounded, length-release through r.items);
  between = release-Between r.acked_through r.last_offered_frame_id through r.items v.between l;
}

pub After-IsValid : {r : Ring} {c : RingCall} {s : Ring} → IsValid r → After r c s → IsValid s
unfolding coalesce_gap
After-IsValid {r} v (after_stale k l m) = record {
  bounded = v.bounded;
  between =
      Between-high r.acked_through r.last_offered_frame_id k.frame_id r.items (omega (arith, l))
        v.between;
}
After-IsValid {r} v (after_overflow k l m) = record {
  bounded = v.bounded;
  between =
      Between-high r.acked_through r.last_offered_frame_id k.frame_id r.items (omega (arith, l))
        v.between;
}
After-IsValid {r} v (after_store k l m n) = record {
  bounded = omega (arith, n, length-append r.items (k ∷ []));
  between = Between-append r.acked_through r.last_offered_frame_id r.items k v.between m l;
}
After-IsValid v (after_record g) = record { bounded = v.bounded; between = v.between }
After-IsValid {r} v (after_ack through l) = acknowledged-IsValid through r v l
After-IsValid {r} v (after_batch through expected e l) = acknowledged-IsValid through r v l
After-IsValid v (after_refusal through expected l) = v

-- Every ring that a history of calls leads to keeps no more frames than its capacity, all above the
-- acknowledged number, not above the last one offered, and in increasing order.
pub Reaches-IsValid : {capacity : ℕ} {xs : List ℕ} {r : Ring} → Reaches capacity xs r → IsValid r
Reaches-IsValid (starts {capacity} {r} h) = new_ring-IsValid capacity r h
Reaches-IsValid (steps {r = r} {s} c p h) =
    let v = Reaches-IsValid p in After-IsValid v (After-call c r s v h)

-- Acknowledged, still kept, or covered by a gap event.
abbrev pub is_accounted : ℕ → Ring → Bool
is_accounted x r = leb x r.acked_through || is_held x r.items || is_reported x r.gap_events

acknowledged-is_accounted :
    (x through : ℕ) (r : Ring)
    → r.acked_through ≤ through
    → is_accounted x r ≡ true
    → is_accounted x (acknowledged through r) ≡ true
acknowledged-is_accounted x through r l a = ground (arith, is_held-release x through r.items)

After-is_accounted :
    {r : Ring} {c : RingCall} {s : Ring} (x : ℕ)
    → After r c s
    → is_accounted x r ≡ true
    → is_accounted x s ≡ true
unfolding coalesce_gap
After-is_accounted x (after_stale k l m) a = a
After-is_accounted {r} x (after_overflow k l m) a = ground (
  arith,
  is_reported-append x r.gap_events
      (record { revision = r.gap_revision + 1; gap = overflow_gap k } ∷ []),
)
After-is_accounted {r} x (after_store k l m n) a = ground (arith, is_held-append x r.items (k ∷ []))
After-is_accounted {r} x (after_record g) a = ground (
  arith,
  is_reported-append x r.gap_events (record { revision = r.gap_revision + 1; gap = g } ∷ []),
)
After-is_accounted {r} x (after_ack through l) a = acknowledged-is_accounted x through r l a
After-is_accounted {r} x (after_batch through expected e l) a =
    acknowledged-is_accounted x through r l a
After-is_accounted x (after_refusal through expected l) a = a

-- The frames offered are those before the call, and the one that it offers.
After-offered_by :
    {r : Ring} {c : RingCall} {s : Ring} (x : ℕ) (xs : List ℕ)
    → After r c s
    → elem x (offered_by c xs) ≡ true
    → (elem x xs ≡ true) ⊎ (is_accounted x s ≡ true)
unfolding coalesce_gap
After-offered_by {r} x xs (after_stale k l m) h = elim (Bool-cases (x == k.frame_id)) [
  | inl e ↦ inr (ground arith)
  | inr n ↦ inl (ground arith)
]
After-offered_by {r} x xs (after_overflow k l m) h = elim (Bool-cases (x == k.frame_id)) [
  | inl e ↦ inr (
      ground (
        arith,
        is_reported-append x r.gap_events
            (record { revision = r.gap_revision + 1; gap = overflow_gap k } ∷ []),
      ))
  | inr n ↦ inl (ground arith)
]
After-offered_by {r} x xs (after_store k l m n) h = elim (Bool-cases (x == k.frame_id)) [
  | inl e ↦ inr (ground (arith, is_held-append x r.items (k ∷ [])))
  | inr n ↦ inl (ground arith)
]
After-offered_by x xs (after_record g) h = inl h
After-offered_by x xs (after_ack through l) h = inl h
After-offered_by x xs (after_batch through expected e l) h = inl h
After-offered_by x xs (after_refusal through expected l) h = inl h

-- In every ring that a history of calls leads to, each frame that was offered is acknowledged,
-- still kept, or covered by an event of the gap ledger.
pub no_silent_loss :
    {capacity : ℕ} {xs : List ℕ} {r : Ring} (x : ℕ)
    → Reaches capacity xs r
    → elem x xs ≡ true
    → is_accounted x r ≡ true
no_silent_loss x (starts p) h = absurd (cc)
no_silent_loss x (steps {xs = xs} {r = r} {s} c p q) h =
    let after = After-call c r s (Reaches-IsValid p) q in
    elim (After-offered_by x xs after h) [
      | inl e ↦ After-is_accounted x after (no_silent_loss x p e)
      | inr a ↦ a
    ]
