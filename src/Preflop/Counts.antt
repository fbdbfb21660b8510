-- ===== src/Preflop/Counts.antt =====
-- preflop_blueprint.py: `hand_class_combo_count` and `_weighted_combo_total`, against the dictionary
-- of card pairs that preflop_history.py expands class weights to.
use ranges.Prelude.{
  ℕ, ◌+◌, ◌*◌, ◌≡◌, ◌∙◌, refl, ap, sym, false, not, ◌==◌, List, [], ◌∷◌, ◌++◌, Result, ok, raise_if,
  ◌>>=◌, ◌>>◌, arith, Returns, with_value, Returns->>=, Returns-ok, Bool-cases, inl, inr,
}
use ranges.Preflop.Classes.{
  HandClass, pair, suited, offsuit, is_class, Combos, candidates, check_weights, normalize_cards,
  expand_class_weights,
}
use ranges.Preflop.Pairs.{IsClass}
use ranges.Preflop.Keys.{live_writes, writes_of, AreClasses, combos_of-writes_of}
use ranges.Preflop.Given.{AreOnce-once, check_weights-Returns, check_weights-given, given}

pub data BlueprintError : Type 0 where
  invalid_class : BlueprintError

abbrev pub multiplicity : HandClass → ℕ
multiplicity (pair r) = 6
multiplicity (suited h l) = 4
multiplicity (offsuit h l) = 12

unfoldable pub hand_class_combo_count : HandClass → Result BlueprintError ℕ
hand_class_combo_count c = do raise_if (not (is_class c)) invalid_class; ok (multiplicity c)

-- `_weighted_combo_total`
unfoldable pub weighted_combo_total : List (HandClass × ℕ) → Result BlueprintError ℕ
unfolding hand_class_combo_count
weighted_combo_total [] = ok 0
weighted_combo_total ((d, w) ∷ rest) = do
  n ← hand_class_combo_count d
  others ← weighted_combo_total rest
  ok (n * w + others)

-- The weights of a dictionary of card pairs, added up.
unfoldable pub total_weight : Combos → ℕ
total_weight [] = 0
total_weight (e ∷ rest) = e.1 + total_weight rest

total_weight-append : (xs ys : Combos) → total_weight (xs ++ ys) ≡ total_weight xs + total_weight ys
unfolding total_weight
total_weight-append [] ys = omega arith
total_weight-append (e ∷ xs) ys = omega (arith, total_weight-append xs ys)

total_weight-candidates :
    (d : HandClass) (w : ℕ) → total_weight (live_writes [] w (candidates d)) ≡ multiplicity d * w
unfolding total_weight live_writes candidates
total_weight-candidates (pair r) w = omega arith
total_weight-candidates (suited h l) w = omega arith
total_weight-candidates (offsuit h l) w = omega arith

weightless : (d : HandClass) (w : ℕ) → w ≡ 0 → multiplicity d * w ≡ 0
weightless (pair r) w h = omega (arith, h)
weightless (suited k l) w h = omega (arith, h)
weightless (offsuit k l) w h = omega (arith, h)

weighed :
    (d : HandClass) (w : ℕ) (rest : List (HandClass × ℕ))
    → total_weight (writes_of [] ((d, w) ∷ rest))
      ≡ multiplicity d * w + total_weight (writes_of [] rest)
unfolding writes_of
weighed d w rest = elim (Bool-cases (w == 0)) [
  | inl h ↦ rw h (omega (arith, weightless d w (ground (arith, h))))
  | inr h ↦ rw h (
      total_weight-append (live_writes [] w (candidates d)) (writes_of [] rest)
      ∙ ap (λ n. n + total_weight (writes_of [] rest)) (total_weight-candidates d w))
]

IsClass-is_class : (d : HandClass) → IsClass d → not (is_class d) ≡ false
IsClass-is_class (pair r) i = ground (arith, i)
IsClass-is_class (suited h l) i = ground (arith, i)
IsClass-is_class (offsuit h l) i = ground (arith, i)

counted :
    (ws : List (HandClass × ℕ))
    → AreClasses ws
    → weighted_combo_total ws ≡ ok (total_weight (writes_of [] ws))
unfolding weighted_combo_total AreClasses hand_class_combo_count ◌>>=◌ total_weight writes_of
counted [] i = refl
counted ((d, w) ∷ rest) i =
    rw (IsClass-is_class d i.0) (rw (counted rest i.1) (ap ok (sym (weighed d w rest))))

expanded :
    (whole : ℕ) (weights : List (HandClass × ℕ))
    → Returns
        (λ (combos : Combos). weighted_combo_total weights ≡ ok (total_weight combos))
        (expand_class_weights whole (given weights) [])
unfolding expand_class_weights normalize_cards ◌>>=◌
expanded whole weights = Returns->>= (check_weights whole [] (given weights)) _ λ ws e.
    let (cs, _, once) = Returns-ok (check_weights-Returns whole [] (given weights)) e in
    let same = Returns-ok (check_weights-given whole [] weights) e in
    with_value (
      ap weighted_combo_total (sym same)
      ∙ counted ws cs
      ∙ ap (λ combos. ok (total_weight combos))
          (sym (combos_of-writes_of [] ws cs (AreOnce-once ws once))))

-- The values of the dictionary that an expansion without dead cards gives for weights that are not
-- negative add up to what _weighted_combo_total of the blueprint module computes from the same
-- weights, which does not raise.
pub weighted_combo_total-expand_class_weights :
    (whole : ℕ) (weights : List (HandClass × ℕ)) {combos : Combos}
    → expand_class_weights whole (given weights) [] ≡ ok combos
    → weighted_combo_total weights ≡ ok (total_weight combos)
weighted_combo_total-expand_class_weights whole weights e = Returns-ok (expanded whole weights) e
