-- ===== src/Capture/Merge.antt =====
-- live_capture.py: how the gap ranges of `KeyframeRing` change with a gap.
use mathlib.Core.Path.{subst}
use ranges.Prelude.{
  ℕ, ◌+◌, ◌≤◌, ◌≡◌, refl, Bool, true, false, ◌&&◌, ◌||◌, List, [], ◌∷◌, ◌++◌, Option, none, some,
  arith, leb, Bool-cases, inl, inr,
}
use ranges.Capture.Ring.{
  CaptureGap, combine, extends, merge_last, sort_gaps, insert_gap, before, or_sorted,
}

-- The number of frames that the ranges say were dropped.
abbrev pub dropped : List CaptureGap → ℕ
dropped [] = 0
dropped (g ∷ gs) = g.dropped_count + dropped gs

-- A range covers the number.
abbrev pub is_covered : ℕ → List CaptureGap → Bool
is_covered x [] = false
is_covered x (g ∷ gs) = (leb g.first_frame_id x && leb x g.last_frame_id) || is_covered x gs

-- In the order of the sort key.
abbrev pub Ordered : List CaptureGap → Type 0
Ordered [] = Unit
Ordered (g ∷ []) = Unit
Ordered (g ∷ h ∷ rest) = (before h g ≡ false) × Ordered (h ∷ rest)

is_covered-insert_gap :
    (x : ℕ) (g : CaptureGap) (gs : List CaptureGap)
    → is_covered x (insert_gap g gs) ≡ is_covered x (g ∷ gs)
unfolding insert_gap
is_covered-insert_gap x g [] = refl
is_covered-insert_gap x g (h ∷ hs) = ground (arith, is_covered-insert_gap x g hs)

is_covered-sort_gaps :
    (x : ℕ) (gs : List CaptureGap) → is_covered x (sort_gaps gs) ≡ is_covered x gs
unfolding sort_gaps
is_covered-sort_gaps x [] = refl
is_covered-sort_gaps x (g ∷ gs) =
    ground (arith, is_covered-insert_gap x g (sort_gaps gs), is_covered-sort_gaps x gs)

is_covered-append :
    (x : ℕ) (gs hs : List CaptureGap)
    → is_covered x (gs ++ hs) ≡ (is_covered x gs || is_covered x hs)
is_covered-append x [] hs = refl
is_covered-append x (g ∷ gs) hs = ground (arith, is_covered-append x gs hs)

dropped-append : (gs hs : List CaptureGap) → dropped (gs ++ hs) ≡ dropped gs + dropped hs
dropped-append [] hs = omega arith
dropped-append (g ∷ gs) hs = omega (arith, dropped-append gs hs)

dropped-insert_gap :
    (g : CaptureGap) (gs : List CaptureGap)
    → dropped (insert_gap g gs) ≡ g.dropped_count + dropped gs
unfolding insert_gap
dropped-insert_gap g [] = refl
dropped-insert_gap g (h ∷ hs) = ground (arith, dropped-insert_gap g hs)

dropped-sort_gaps : (gs : List CaptureGap) → dropped (sort_gaps gs) ≡ dropped gs
unfolding sort_gaps
dropped-sort_gaps [] = refl
dropped-sort_gaps (g ∷ gs) =
    omega (arith, dropped-insert_gap g (sort_gaps gs), dropped-sort_gaps gs)

insert_gap-Ordered :
    (g : CaptureGap) (gs : List CaptureGap) → Ordered gs → Ordered (insert_gap g gs)
unfolding insert_gap
insert_gap-Ordered g [] o = tt
insert_gap-Ordered g (h ∷ []) o = ground arith
insert_gap-Ordered g (h ∷ k ∷ rest) o = ground (arith, insert_gap-Ordered g (k ∷ rest) o.1)

sort_gaps-Ordered : (gs : List CaptureGap) → Ordered (sort_gaps gs)
unfolding sort_gaps
sort_gaps-Ordered [] = tt
sort_gaps-Ordered (g ∷ gs) = insert_gap-Ordered g (sort_gaps gs) (sort_gaps-Ordered gs)

-- The last range is extended, the others stand.
data Merged (g : CaptureGap) : List CaptureGap → List CaptureGap → Type 0 where
  at_last : (h : CaptureGap) → extends h g ≡ true → Merged g (h ∷ []) (combine h g ∷ [])
  behind :
      (h k l : CaptureGap) {ks ls : List CaptureGap}
      → k.first_frame_id ≡ l.first_frame_id
      → k.last_frame_id ≤ l.last_frame_id
      → Merged g (k ∷ ks) (l ∷ ls)
      → Merged g (h ∷ k ∷ ks) (h ∷ l ∷ ls)

some-inverse :
    (h : CaptureGap) (o : Option (List CaptureGap)) (hs : List CaptureGap)
    → elim o [ none ↦ none | some merged ↦ some (h ∷ merged) ] ≡ some hs
    → (ks : List CaptureGap) × (o ≡ some ks) × (h ∷ ks ≡ hs)
some-inverse h none hs e = absurd (cc)
some-inverse h (some ks) hs e = (ks, refl, ground arith)

Merged-behind :
    {g k : CaptureGap} {ks ls : List CaptureGap} (h : CaptureGap)
    → Merged g (k ∷ ks) ls
    → Merged g (h ∷ k ∷ ks) (h ∷ ls)
Merged-behind {g} h (at_last k e) = behind h k (combine k g) refl (omega arith) (at_last k e)
Merged-behind h (behind k l n e f m) = behind h k k refl (omega arith) (behind k l n e f m)

merge_last-Merged :
    (g : CaptureGap) (gs hs : List CaptureGap) → merge_last g gs ≡ some hs → Merged g gs hs
unfolding merge_last
merge_last-Merged g [] hs e = absurd (cc)
merge_last-Merged g (h ∷ []) hs e = elim (Bool-cases (extends h g)) [
  | inl x ↦ subst (Merged g (h ∷ [])) (ground arith) (at_last h x)
  | inr x ↦ absurd (ground arith)
]
merge_last-Merged g (h ∷ k ∷ rest) hs e =
    let (ks, p, q) = some-inverse h (merge_last g (k ∷ rest)) hs e in
    subst (Merged g (h ∷ k ∷ rest)) q (Merged-behind h (merge_last-Merged g (k ∷ rest) ks p))

Merged-dropped :
    {g : CaptureGap} {gs hs : List CaptureGap}
    → Merged g gs hs
    → dropped hs ≡ dropped gs + g.dropped_count
Merged-dropped (at_last h e) = omega arith
Merged-dropped (behind h k l e f m) = omega (arith, Merged-dropped m)

Merged-Ordered :
    {g : CaptureGap} {gs hs : List CaptureGap} → Merged g gs hs → Ordered gs → Ordered hs
Merged-Ordered (at_last h e) o = tt
Merged-Ordered (behind h k l e f m) o = (ground (arith, o.0), Merged-Ordered m o.1)

-- Every number that the ranges or the gap covered is covered.
Merged-is_covered :
    {g : CaptureGap} {gs hs : List CaptureGap} (x : ℕ)
    → Merged g gs hs
    → is_covered x (g ∷ gs) ≡ true
    → is_covered x hs ≡ true
Merged-is_covered x (at_last h e) c = ground arith
Merged-is_covered x (behind h k l e f m) c = ground (arith, Merged-is_covered x m)

-- The ranges after a gap, merged or sorted in.
pub record Extended (g : CaptureGap) (gs hs : List CaptureGap) : Type 0 where
  pub ordered : Ordered gs → Ordered hs
  pub count : dropped hs ≡ dropped gs + g.dropped_count
  pub covers : (x : ℕ) → is_covered x (g ∷ gs) ≡ true → is_covered x hs ≡ true

pub or_sorted-Extended :
    (g : CaptureGap) (gs : List CaptureGap) (o : Option (List CaptureGap))
    → merge_last g gs ≡ o
    → Extended g gs (or_sorted (gs ++ g ∷ []) o)
or_sorted-Extended g gs none e = record {
  ordered = λ o. sort_gaps-Ordered (gs ++ g ∷ []);
  count = omega (arith, dropped-sort_gaps (gs ++ g ∷ []), dropped-append gs (g ∷ []));
  covers =
      λ x c. ground (arith, is_covered-sort_gaps x (gs ++ g ∷ []), is_covered-append x gs (g ∷ []));
}
or_sorted-Extended g gs (some hs) e =
    let m = merge_last-Merged g gs hs e in
    record {
      ordered = Merged-Ordered m;
      count = Merged-dropped m;
      covers = λ x. Merged-is_covered x m;
    }
