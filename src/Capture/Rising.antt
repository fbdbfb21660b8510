-- ===== src/Capture/Rising.antt =====
-- live_capture.py: the keyframes that `KeyframeDetector` selects have increasing numbers, and its
-- assertions hold.
use mathlib.Core.Path.{subst}
use ranges.Prelude.{
  ℕ, ◌+◌, ◌≤◌, ◌<◌, ◌≡◌, refl, sym, Bool, true, false, not, List, [], ◌∷◌, Option, none, some,
  String, ltb, leb, if◌then◌else◌, is_empty, ok, err, raise_if, ◌>>=◌, ◌>>◌, arith,
}
use ranges.Capture.Ring.{change, heartbeat}
use ranges.Capture.Detector.{
  RegionChange, Settings, DetectorError, frames_not_increasing, time_backwards, assertion_previous,
  assertion_peak, Observed, Selection, CaptureFrame, Detector, Step, emit, observe_calm, settled,
  settle_burst, observe_burst, flushed, flush_as, flush_burst, material_regions, top_score,
  observe_at, observe_next, observe_as, observe, first_frame, or_else, is_due,
}

-- Increasing numbers above one, and the last of them.
abbrev pub Rises : ℕ → List Selection → Type 0
Rises last [] = Unit
Rises last (s ∷ ss) = (last < s.keyframe.frame_id) × Rises s.keyframe.frame_id ss

abbrev pub last_of : ℕ → List Selection → ℕ
last_of last [] = last
last_of last (s ∷ ss) = last_of s.keyframe.frame_id ss

abbrev pub is_assertion : DetectorError → Bool
is_assertion assertion_previous = true
is_assertion assertion_peak = true
is_assertion _ = false

-- The last number emitted, beside the frames that the detector holds.
pub data Follows {S : Type 0} (last : ℕ) (d : Detector S) : Type 0 where
  fresh : d.previous ≡ none → d.anchor ≡ none → d.burst_first_id ≡ none → last ≡ 0 → Follows last d
  quiet :
      (p a : CaptureFrame S)
      → d.previous ≡ some p
      → d.anchor ≡ some a
      → d.burst_first_id ≡ none
      → last ≤ p.frame_id
      → Follows last d
  bursting :
      (p a t : CaptureFrame S)
      → d.previous ≡ some p
      → d.anchor ≡ some a
      → d.burst_first_id ≡ some last
      → d.peak_frame ≡ some t
      → last ≤ t.frame_id
      → t.frame_id ≤ p.frame_id
      → Follows last d

pub data Goes {S : Type 0} (last : ℕ) : Observed (Step S) → Type 0 where
  selects :
      {d : Detector S} {selected : List Selection}
      → Rises last selected
      → Follows (last_of last selected) d
      → Goes last (ok (d, selected))
  refuses : {e : DetectorError} → is_assertion e ≡ false → Goes last (err e)

module _ {S : Type 0} where
  Goes-raise_if :
      (last : ℕ) (c : Bool) (e : DetectorError) (k : Observed (Step S))
      → is_assertion e ≡ false
      → (c ≡ false → Goes last k)
      → Goes last (raise_if c e >> k)
  unfolding ◌>>=◌
  Goes-raise_if last true e k h p = refuses h
  Goes-raise_if last false e k h p = p refl

  first_frame-Goes :
      (last : ℕ) (frame : CaptureFrame S) (d : Detector S)
      → d.burst_first_id ≡ none
      → last < frame.frame_id
      → Goes last (ok (first_frame frame d))
  first_frame-Goes last frame d b l = selects (l, tt) (quiet frame frame refl refl b (omega arith))

  Goes-if_step :
      (last : ℕ) (c : Bool) (x y : Step S)
      → (c ≡ true → Goes last (ok x))
      → (c ≡ false → Goes last (ok y))
      → Goes last (ok (if c then x else y))
  Goes-if_step last true x y g h = g refl
  Goes-if_step last false x y g h = h refl

  Goes-if :
      (last : ℕ) (c : Bool) (x y : Observed (Step S))
      → (c ≡ true → Goes last x)
      → (c ≡ false → Goes last y)
      → Goes last (if c then x else y)
  Goes-if last true x y g h = g refl
  Goes-if last false x y g h = h refl

  observe_calm-Goes :
      (c : Settings) (pair_regions anchor_regions : List String) (score last : ℕ)
      (frame a : CaptureFrame S) (d : Detector S)
      → d.anchor ≡ some a
      → d.burst_first_id ≡ none
      → last < frame.frame_id
      → Goes last (ok (observe_calm c pair_regions anchor_regions score frame d))
  unfolding observe_calm
  observe_calm-Goes c pair_regions anchor_regions score last frame a d h b l =
      Goes-if_step last (not (is_empty (or_else anchor_regions pair_regions))) _ _
        (λ e.
          selects {selected = emit frame change (or_else anchor_regions pair_regions) score ∷ []}
            (l, tt) (bursting frame a frame refl h refl refl (omega arith) (omega arith)))
        (λ n.
          Goes-if_step last (is_due c.heartbeat_interval_ns d.last_emitted_ns frame.monotonic_ns) _
            _
            (λ e.
              selects {selected = emit frame heartbeat [] 0 ∷ []} (l, tt)
                (quiet frame a refl h b (omega arith)))
            (λ m. selects {selected = []} tt (quiet frame a refl h b (omega (arith, l)))))

  -- The keyframes at the end of a burst, behind its first one.
  settled-Rises :
      (first : ℕ) (top frame : CaptureFrame S) (regions anchor_regions : List String)
      (score anchor_score : ℕ)
      → first ≤ top.frame_id
      → top.frame_id ≤ frame.frame_id
      → first < frame.frame_id
      → Rises first (settled first top regions score anchor_regions anchor_score frame)
        × (last_of first (settled first top regions score anchor_regions anchor_score frame)
            ≤ frame.frame_id)
  unfolding settled
  settled-Rises first top frame regions anchor_regions score anchor_score h k l = ground arith

  -- The frame that is the peak after one more frame.
  higher_peak :
      (first : ℕ) (is_higher : Bool) (frame p t : CaptureFrame S) (kept : Option (CaptureFrame S))
      → kept ≡ some t
      → first ≤ t.frame_id
      → t.frame_id ≤ p.frame_id
      → p.frame_id < frame.frame_id
      → (top : CaptureFrame S) × ((if is_higher then some frame else kept) ≡ some top)
        × (first ≤ top.frame_id)
        × (top.frame_id ≤ frame.frame_id)
  higher_peak first true frame p t kept u m n l = (frame, refl, omega (arith, m, n, l), omega arith)
  higher_peak first false frame p t kept u m n l = (t, u, m, omega (arith, n, l))

  observe_burst-Goes :
      (c : Settings) (first score : ℕ) (pair_regions anchor_regions : List String)
      (frame p a t : CaptureFrame S) (d : Detector S)
      → d.anchor ≡ some a
      → d.burst_first_id ≡ some first
      → d.peak_frame ≡ some t
      → first ≤ t.frame_id
      → t.frame_id ≤ p.frame_id
      → p.frame_id < frame.frame_id
      → Goes first (observe_burst c first pair_regions anchor_regions score frame d)
  unfolding observe_burst settle_burst
  observe_burst-Goes c first score pair_regions anchor_regions frame p a t d h b u m n l =
      let is_higher = ltb d.peak_score score in
      let regions = if is_higher then anchor_regions else d.peak_regions in
      let top_score = if is_higher then score else d.peak_score in
      let (top, e, f, g) = higher_peak first is_higher frame p t d.peak_frame u m n l in
      Goes-if first (leb c.stable_frames (if is_empty pair_regions then d.stable_run + 1 else 0)) _
        _
        (λ done.
          subst
            (λ (o : Option (CaptureFrame S)).
              Goes first (settle_burst first o regions top_score anchor_regions score frame d))
            (sym e)
            (let (rises, last) =
                settled-Rises first top frame regions anchor_regions top_score score f g
                  (omega (arith, m, n, l)) in
              selects {selected = settled first top regions top_score anchor_regions score frame}
                rises (quiet frame frame refl refl refl last)))
        (λ more. selects {selected = []} tt (bursting frame a top refl h b e f g))

  flushed-Rises :
      (first : ℕ) (previous top : CaptureFrame S) (d : Detector S)
      → first ≤ top.frame_id
      → top.frame_id ≤ previous.frame_id
      → Rises first (flushed first previous top d)
        × (last_of first (flushed first previous top d) ≤ previous.frame_id)
  unfolding flushed
  flushed-Rises first previous top d h k = ground arith

  -- Outside a burst nothing is flushed.
  flush_calm :
      (last : ℕ) (d : Detector S)
      → Follows last d
      → d.burst_first_id ≡ none
      → Goes last (flush_burst d)
  unfolding flush_burst flush_as
  flush_calm last d f b =
      subst (λ (o : Option ℕ). Goes last (flush_as o d.previous d.peak_frame d)) (sym b)
        (selects {selected = []} tt f)

  pub flush_burst-Goes : (last : ℕ) (d : Detector S) → Follows last d → Goes last (flush_burst d)
  unfolding flush_burst flush_as
  flush_burst-Goes last d (fresh p a b e) = flush_calm last d (fresh p a b e) b
  flush_burst-Goes last d (quiet p a q h b l) = flush_calm last d (quiet p a q h b l) b
  flush_burst-Goes last d (bursting p a t q h b u m n) =
      let (rises, bound) = flushed-Rises last p t d m n in
      subst (λ (o : Option ℕ). Goes last (flush_as o d.previous d.peak_frame d)) (sym b)
        (subst (λ (o : Option (CaptureFrame S)). Goes last (flush_as (some last) o d.peak_frame d))
          (sym q)
          (subst (λ (o : Option (CaptureFrame S)). Goes last (flush_as (some last) (some p) o d))
            (sym u)
            (selects {selected = flushed last p t d} rises (quiet p p refl refl refl bound))))

  module _ (compare : S → S → List RegionChange) (c : Settings) where
    observe_as-Goes :
        (last : ℕ) (frame p a : CaptureFrame S) (d : Detector S)
        → d.previous ≡ some p
        → d.anchor ≡ some a
        → (p.frame_id < frame.frame_id → Goes last (observe_next compare c p a frame d))
        → Goes last (observe compare c frame d)
    unfolding observe observe_as
    observe_as-Goes last frame p a d q h k =
        subst (λ (o : Option (CaptureFrame S)). Goes last (observe_as compare c o d.anchor frame d))
          (sym q)
          (subst
            (λ (o : Option (CaptureFrame S)). Goes last (observe_as compare c (some p) o frame d))
            (sym h)
            (Goes-raise_if last (leb frame.frame_id p.frame_id) frames_not_increasing _ refl (λ l.
              Goes-raise_if last (ltb frame.monotonic_ns p.monotonic_ns) time_backwards _ refl
                (λ t. k (ground arith)))))

    at_burst :
        (last : ℕ) (o : Option ℕ) (frame p a : CaptureFrame S) (d : Detector S)
        → d.burst_first_id ≡ o
        → Goes last (
            observe_at c o
              (material_regions compare c p.signature frame.signature)
              (material_regions compare c a.signature frame.signature)
              (top_score c (compare a.signature frame.signature))
              frame
              d)
        → Goes last (observe_next compare c p a frame d)
    unfolding observe_next
    at_burst last o frame p a d e g =
        subst
          (λ (o : Option ℕ). Goes last (
            observe_at c o (material_regions compare c p.signature frame.signature)
              (material_regions compare c a.signature frame.signature)
              (top_score c (compare a.signature frame.signature)) frame d))
          (sym e) g

    -- From a detector that follows its last keyframe, a frame with a positive number selects
    -- keyframes with increasing numbers above the last one, and leaves a detector that follows the
    -- last of them; or it is refused for its number or its time, never by an assertion.
    pub observe-Goes :
        (last : ℕ) (frame : CaptureFrame S) (d : Detector S)
        → 0 < frame.frame_id
        → Follows last d
        → Goes last (observe compare c frame d)
    unfolding observe observe_as observe_at
    observe-Goes last frame d z (fresh p a b e) =
        subst (λ (o : Option (CaptureFrame S)). Goes last (observe_as compare c o d.anchor frame d))
          (sym p)
          (subst (λ (o : Option (CaptureFrame S)). Goes last (observe_as compare c none o frame d))
            (sym a) (first_frame-Goes last frame d b (omega (arith, e, z))))
    observe-Goes last frame d z (quiet p a q h b l) = observe_as-Goes last frame p a d q h (λ k.
        at_burst last none frame p a d b
          (observe_calm-Goes c _ _ _ last frame a d h b (omega (arith, l, k))))
    observe-Goes last frame d z (bursting p a t q h b u m n) =
        observe_as-Goes last frame p a d q h (λ k.
          at_burst last (some last) frame p a d b
            (observe_burst-Goes c last _ _ _ frame p a t d h b u m n k))
