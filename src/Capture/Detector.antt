-- ===== src/Capture/Detector.antt =====
-- live_capture.py: `KeyframeDetector`. The fractions and thresholds are floats in [0, 1], which are
-- multiples of 2^-1074 and are only compared here: they are natural numbers in that unit.
use ranges.Prelude.{
  ℕ, ◌+◌, ◌-◌, Bool, false, not, ◌&&◌, ◌||◌, List, [], ◌∷◌, ◌++◌, Option, none, some, String, ltb,
  leb, ◌==◌, if◌then◌else◌, map, filter, is_empty, str_elem, Result, ok, err, raise_if, ◌>>◌, max,
}
use ranges.Capture.Ring.{Keyframe, KeyframeReason, baseline, change, peak, stable, heartbeat, flush}

-- A changed region, with its two fractions.
pub record RegionChange : Type 0 where
  pub name : String
  pub pixel_fraction : ℕ
  pub edge_fraction : ℕ

-- The fields of `KeyframeDetector` that do not change.
pub record Settings : Type 0 where
  pub pixel_fraction_threshold : ℕ
  pub edge_fraction_threshold : ℕ
  pub stable_frames : ℕ
  pub heartbeat_interval_ns : Option ℕ
  pub ignored_regions : List String

-- The `ValueError`s of `observe`, and its assertions.
pub data DetectorError : Type 0 where
  frames_not_increasing time_backwards assertion_previous assertion_peak : DetectorError

abbrev pub Observed : Type 0 → Type 0
Observed A = Result DetectorError A

-- A keyframe with the evidence of its selection.
pub record Selection : Type 0 where
  pub keyframe : Keyframe
  pub changed_regions : List String
  pub change_score : ℕ

unfoldable pub is_material : Settings → RegionChange → Bool
is_material c r =
    not (str_elem r.name c.ignored_regions)
    && ((ltb 0 r.pixel_fraction && leb c.pixel_fraction_threshold r.pixel_fraction)
        || (ltb 0 r.edge_fraction && leb c.edge_fraction_threshold r.edge_fraction))

-- The largest `score` of the regions that are not ignored.
unfoldable pub top_score : Settings → List RegionChange → ℕ
top_score c [] = 0
top_score c (r ∷ rs) =
    let rest = top_score c rs in
    if str_elem r.name c.ignored_regions
    then rest
    else max (max r.pixel_fraction r.edge_fraction) rest

-- `CaptureFrame`: the signature is compared by a function of numpy, the images play no part.
pub record CaptureFrame (S : Type 0) : Type 0 where
  pub frame_id : ℕ
  pub monotonic_ns : ℕ
  pub signature : S

pub record Detector (S : Type 0) : Type 0 where
  pub anchor : Option (CaptureFrame S)
  pub previous : Option (CaptureFrame S)
  pub last_emitted_ns : Option ℕ
  pub burst_first_id : Option ℕ
  pub peak_frame : Option (CaptureFrame S)
  pub peak_regions : List String
  pub peak_score : ℕ
  pub stable_run : ℕ

-- `_last_emitted_ns` after the keyframes are emitted.
unfoldable pub stamp : Option ℕ → List Selection → Option ℕ
stamp ns [] = ns
stamp ns (s ∷ ss) = stamp (some s.keyframe.monotonic_ns) ss

abbrev pub or_else : List String → List String → List String
or_else [] ys = ys
or_else (x ∷ xs) ys = x ∷ xs

abbrev pub is_due : Option ℕ → Option ℕ → ℕ → Bool
is_due (some interval) (some last) now = leb interval (now - last)
is_due _ _ now = false

-- What `observe` and `flush` return, beside the new state.
abbrev pub Step : Type 0 → Type 0
Step S = Detector S × List Selection

module _ {S : Type 0} where
  abbrev pub new_detector : Detector S
  new_detector = record {
    anchor = none;
    previous = none;
    last_emitted_ns = none;
    burst_first_id = none;
    peak_frame = none;
    peak_regions = [];
    peak_score = 0;
    stable_run = 0;
  }

  -- The keyframe of `_emit`.
  abbrev pub emit : CaptureFrame S → KeyframeReason → List String → ℕ → Selection
  emit frame reason regions score = record {
    keyframe = record {
      frame_id = frame.frame_id;
      monotonic_ns = frame.monotonic_ns;
      reason = reason;
    };
    changed_regions = regions;
    change_score = score;
  }

  -- The end of a burst, with the frame that is the new anchor.
  abbrev pub calm : CaptureFrame S → List Selection → Detector S → Detector S
  calm frame selected d = record {
    anchor = some frame;
    previous = some frame;
    last_emitted_ns = stamp d.last_emitted_ns selected;
    burst_first_id = none;
    peak_frame = none;
    peak_regions = [];
    peak_score = 0;
    stable_run = 0;
  }

  -- Outside a burst.
  unfoldable pub observe_calm :
      Settings → List String → List String → ℕ → CaptureFrame S → Detector S → Step S
  unfolding stamp
  observe_calm c pair_regions anchor_regions anchor_score frame d =
      let regions = or_else anchor_regions pair_regions in
      if not (is_empty regions)
      then (
        record {
          anchor = d.anchor;
          previous = some frame;
          last_emitted_ns = some frame.monotonic_ns;
          burst_first_id = some frame.frame_id;
          peak_frame = some frame;
          peak_regions = regions;
          peak_score = anchor_score;
          stable_run = 0;
        },
        emit frame change regions anchor_score ∷ [],
      )
      else if is_due c.heartbeat_interval_ns d.last_emitted_ns frame.monotonic_ns
      then (
        record d { previous = some frame; last_emitted_ns = some frame.monotonic_ns },
        emit frame heartbeat [] 0 ∷ [],
      )
      else (record d { previous = some frame }, [])

  -- The keyframes at the end of a burst.
  unfoldable pub settled :
      ℕ → CaptureFrame S → List String → ℕ → List String → ℕ → CaptureFrame S → List Selection
  settled first top top_regions top_score anchor_regions anchor_score frame =
      (if not (top.frame_id == first) && not (top.frame_id == frame.frame_id)
        then emit top peak top_regions top_score ∷ []
        else [])
      ++ (if not (frame.frame_id == first)
          then emit frame stable anchor_regions anchor_score ∷ []
          else [])

  unfoldable pub settle_burst :
      ℕ
      → Option (CaptureFrame S)
      → List String
      → ℕ
      → List String
      → ℕ
      → CaptureFrame S
      → Detector S
      → Observed (Step S)
  settle_burst first none regions score anchor_regions anchor_score frame d = err assertion_peak
  settle_burst first (some top) regions score anchor_regions anchor_score frame d =
      let selected = settled first top regions score anchor_regions anchor_score frame in
      ok (calm frame selected d, selected)

  -- Inside a burst.
  unfoldable pub observe_burst :
      Settings → ℕ → List String → List String → ℕ → CaptureFrame S → Detector S → Observed (Step S)
  observe_burst c first pair_regions anchor_regions anchor_score frame d =
      let is_higher = ltb d.peak_score anchor_score in
      let top = if is_higher then some frame else d.peak_frame in
      let regions = if is_higher then anchor_regions else d.peak_regions in
      let score = if is_higher then anchor_score else d.peak_score in
      let run = if is_empty pair_regions then d.stable_run + 1 else 0 in
      if leb c.stable_frames run
      then settle_burst first top regions score anchor_regions anchor_score frame d
      else ok (
        record d {
          previous = some frame;
          peak_frame = top;
          peak_regions = regions;
          peak_score = score;
          stable_run = run;
        },
        [],
      )

  -- The keyframes of an unfinished burst.
  unfoldable pub flushed : ℕ → CaptureFrame S → CaptureFrame S → Detector S → List Selection
  flushed first previous top d =
      (if not (top.frame_id == first) then emit top peak d.peak_regions d.peak_score ∷ [] else [])
      ++ (if not (previous.frame_id == first) && not (previous.frame_id == top.frame_id)
          then emit previous flush d.peak_regions d.peak_score ∷ []
          else [])

  -- `flush`
  unfoldable pub flush_as :
      Option ℕ → Option (CaptureFrame S) → Option (CaptureFrame S) → Detector S → Observed (Step S)
  flush_as none previous top d = ok (d, [])
  flush_as (some first) none top d = ok (d, [])
  flush_as (some first) (some previous) none d = err assertion_peak
  flush_as (some first) (some previous) (some top) d =
      let selected = flushed first previous top d in ok (calm previous selected d, selected)

  unfoldable pub flush_burst : Detector S → Observed (Step S)
  unfolding flush_as
  flush_burst d = flush_as d.burst_first_id d.previous d.peak_frame d

  -- The branches on `_burst_first_id`.
  unfoldable pub observe_at :
      Settings
      → Option ℕ
      → List String
      → List String
      → ℕ
      → CaptureFrame S
      → Detector S
      → Observed (Step S)
  observe_at c none pair_regions anchor_regions anchor_score frame d =
      ok (observe_calm c pair_regions anchor_regions anchor_score frame d)
  observe_at c (some first) pair_regions anchor_regions anchor_score frame d =
      observe_burst c first pair_regions anchor_regions anchor_score frame d

  -- The baseline.
  abbrev pub first_frame : CaptureFrame S → Detector S → Step S
  first_frame frame d = (
    record d {
      anchor = some frame;
      previous = some frame;
      last_emitted_ns = some frame.monotonic_ns;
    },
    emit frame baseline [] 0 ∷ [],
  )

  module _ (compare : S → S → List RegionChange) where
    abbrev pub material_regions : Settings → S → S → List String
    material_regions c before after =
        map (λ (r : RegionChange). r.name) (filter (is_material c) (compare before after))

    -- `observe` behind the baseline.
    unfoldable pub observe_next :
        Settings → CaptureFrame S → CaptureFrame S → CaptureFrame S → Detector S → Observed (Step S)
    observe_next c previous anchor frame d =
        let pair_regions = material_regions c previous.signature frame.signature in
        let anchor_regions = material_regions c anchor.signature frame.signature in
        let score = top_score c (compare anchor.signature frame.signature) in
        observe_at c d.burst_first_id pair_regions anchor_regions score frame d

    -- The branches on `_previous` and `_anchor`.
    unfoldable pub observe_as :
        Settings
        → Option (CaptureFrame S)
        → Option (CaptureFrame S)
        → CaptureFrame S
        → Detector S
        → Observed (Step S)
    observe_as c none none frame d = ok (first_frame frame d)
    observe_as c none (some anchor) frame d = err assertion_previous
    observe_as c (some previous) anchor frame d = do
      raise_if (leb frame.frame_id previous.frame_id) frames_not_increasing
      raise_if (ltb frame.monotonic_ns previous.monotonic_ns) time_backwards
      elim anchor [ none ↦ ok (first_frame frame d) | some a ↦ observe_next c previous a frame d ]

    unfoldable pub observe : Settings → CaptureFrame S → Detector S → Observed (Step S)
    observe c frame d = observe_as c d.previous d.anchor frame d
