-- ===== src/Capture/Scenes.antt =====
-- Runs of the detector of keyframes, and the theorems about it at a concrete sequence of frames.
use ranges.Prelude.{
  ℕ, ◌≡◌, refl, true, false, ◌==◌, if◌then◌else◌, List, [], ◌∷◌, some, ok, err, ◌>>=◌, is_ok,
}
use ranges.Capture.Ring.{new_ring}
use ranges.Capture.Trace.{starts}
use ranges.Capture.Valid.{empty_ring, Reaches-IsValid}
use ranges.Capture.Detector.{
  RegionChange, Settings, Observed, Selection, Detector, Step, new_detector, frames_not_increasing,
  is_material, top_score, stamp, observe_calm, settled, settle_burst, observe_burst, flushed,
  flush_as, flush_burst, observe_at, observe_next, observe_as, observe,
}
use ranges.Capture.Rising.{is_assertion, Rises}
use ranges.Capture.Watch.{
  DetectorCall, sees, flushes, detector_call, watch, offer_all, watch_never_asserts,
  selections_accepted,
}

-- A signature is the number of a scene; another scene differs by that number.
abbrev differ : ℕ → ℕ → List RegionChange
differ a b =
    if a == b then [] else record { name = "table"; pixel_fraction = b; edge_fraction = 0 } ∷ []

abbrev settings : Settings
settings = record {
  pixel_fraction_threshold = 2;
  edge_fraction_threshold = 2;
  stable_frames = 1;
  heartbeat_interval_ns = some 100;
  ignored_regions = [];
}

abbrev frame : ℕ → ℕ → DetectorCall ℕ
frame n scene = sees (record { frame_id = n; monotonic_ns = 10; signature = scene })

-- A scene moves, peaks and comes to rest; another movement is flushed.
abbrev scenes : List (DetectorCall ℕ)
scenes =
    frame 1 0 ∷ frame 2 3 ∷ frame 3 9 ∷ frame 4 5 ∷ frame 5 5 ∷ frame 6 7 ∷ frame 7 8 ∷ flushes ∷ []

abbrev backwards_scenes : List (DetectorCall ℕ)
backwards_scenes = frame 2 0 ∷ frame 1 0 ∷ []

abbrev detector_of : Observed (Step ℕ) → Detector ℕ
detector_of (ok s) = s.0
detector_of (err e) = new_detector

abbrev selected_of : Observed (Step ℕ) → List Selection
selected_of (ok s) = s.1
selected_of (err e) = []

abbrev ids : List Selection → List ℕ
ids [] = []
ids (s ∷ ss) = s.keyframe.frame_id ∷ ids ss

unfoldable run_scenes : List (DetectorCall ℕ) → Observed (Step ℕ)
unfolding watch detector_call observe observe_as observe_next observe_at observe_calm observe_burst
    settle_burst settled flush_burst flush_as flushed is_material top_score stamp ◌>>=◌
run_scenes calls = watch differ settings calls new_detector

scenes_select : ids (selected_of (run_scenes scenes)) ≡ 1 ∷ 2 ∷ 3 ∷ 5 ∷ 6 ∷ 7 ∷ []
unfolding run_scenes
scenes_select = refl

abbrev watched : Observed (Step ℕ)
watched = watch differ settings scenes new_detector

watched_eq :
    watch differ settings scenes new_detector ≡ ok (detector_of watched, selected_of watched)
unfolding run_scenes
watched_eq = refl

backwards_refused : watch differ settings backwards_scenes new_detector ≡ err frames_not_increasing
unfolding run_scenes
backwards_refused = refl

starting : new_ring 4 ≡ ok (empty_ring 4)
unfolding new_ring ◌>>=◌
starting = refl

watch_never_asserts_example : is_assertion frames_not_increasing ≡ false
watch_never_asserts_example =
    watch_never_asserts differ settings backwards_scenes frames_not_increasing refl
      backwards_refused

selections_accepted_example :
    Rises 0 (selected_of watched) × (is_ok (offer_all (selected_of watched) (empty_ring 4)) ≡ true)
selections_accepted_example =
    selections_accepted differ settings scenes (detector_of watched) (selected_of watched)
      (empty_ring 4) refl watched_eq (Reaches-IsValid (starts starting)) refl
