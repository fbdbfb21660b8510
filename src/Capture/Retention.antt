-- ===== src/Capture/Retention.antt =====
-- live_capture.py: what `KeyframeRing` keeps of the frames that it is offered.
use ranges.Prelude.{
  ℕ, ◌≤◌, ◌<◌, ◌≡◌, refl, Bool, true, false, ◌&&◌, ◌||◌, List, [], ◌∷◌, ◌++◌, arith, leb, ◌==◌,
  length, Bool-cases, inl, inr,
}
use ranges.Capture.Ring.{Keyframe, CaptureGapEvent, make_room, release}

-- The frames have increasing numbers above one bound and up to another.
abbrev pub Between : ℕ → ℕ → List Keyframe → Type 0
Between low high [] = Unit
Between low high (k ∷ ks) = (low < k.frame_id) × (k.frame_id ≤ high) × Between k.frame_id high ks

-- A frame with the number is kept.
abbrev pub is_held : ℕ → List Keyframe → Bool
is_held x [] = false
is_held x (k ∷ ks) = (x == k.frame_id) || is_held x ks

-- A gap event covers the number.
abbrev pub is_reported : ℕ → List CaptureGapEvent → Bool
is_reported x [] = false
is_reported x (e ∷ es) =
    (leb e.gap.first_frame_id x && leb x e.gap.last_frame_id) || is_reported x es

pub is_held-append :
    (x : ℕ) (ks ls : List Keyframe) → is_held x (ks ++ ls) ≡ (is_held x ks || is_held x ls)
is_held-append x [] ls = refl
is_held-append x (k ∷ ks) ls = ground (arith, is_held-append x ks ls)

pub is_reported-append :
    (x : ℕ) (ds es : List CaptureGapEvent)
    → is_reported x (ds ++ es) ≡ (is_reported x ds || is_reported x es)
is_reported-append x [] es = refl
is_reported-append x (d ∷ ds) es = ground (arith, is_reported-append x ds es)

pub Between-high :
    (low high top : ℕ) (ks : List Keyframe) → high ≤ top → Between low high ks → Between low top ks
Between-high low high top [] h b = tt
Between-high low high top (k ∷ ks) h b =
    (b.0, omega (arith, b.1), Between-high k.frame_id high top ks h b.2)

pub Between-append :
    (low high : ℕ) (ks : List Keyframe) (k : Keyframe)
    → Between low high ks
    → low < k.frame_id
    → high < k.frame_id
    → Between low k.frame_id (ks ++ k ∷ [])
Between-append low high [] k b l h = (l, omega arith, tt)
Between-append low high (j ∷ ks) k b l h =
    (b.0, omega (arith, b.1), Between-append j.frame_id high ks k b.2 (omega (arith, b.1)) h)

pub make_room-Between :
    (capacity low high : ℕ) (ks : List Keyframe)
    → Between low high ks
    → make_room capacity low ks ≡ ks
unfolding make_room
make_room-Between capacity low high [] b = refl
make_room-Between capacity low high (k ∷ ks) b = ground (arith, b.0)

pub release-Between :
    (low high through : ℕ) (ks : List Keyframe)
    → Between low high ks
    → low ≤ through
    → Between through high (release through ks)
unfolding release
release-Between low high through [] b l = tt
release-Between low high through (k ∷ ks) b l = elim (Bool-cases (leb k.frame_id through)) [
  | inl e ↦ ground (arith, release-Between k.frame_id high through ks b.2)
  | inr n ↦ ground (arith, b.1, b.2)
]

pub length-release : (through : ℕ) (ks : List Keyframe) → length (release through ks) ≤ length ks
unfolding release
length-release through [] = omega arith
length-release through (k ∷ ks) = ground (arith, length-release through ks)

pub is_held-release :
    (x through : ℕ) (ks : List Keyframe)
    → through < x
    → is_held x ks ≡ true
    → is_held x (release through ks) ≡ true
unfolding release
is_held-release x through [] l h = h
is_held-release x through (k ∷ ks) l h = ground (arith, is_held-release x through ks)
