-- ===== src/Preflop/Given.antt =====
-- preflop_history.py: what the first loop of `expand_class_weights` keeps of the weights it is given.
use ranges.Prelude.{
  ℕ, ◌+◌, ◌≤◌, ◌≡◌, refl, true, false, if◌then◌else◌, Option, none, some, List, [], ◌∷◌, map, arith,
  Returns, with_value, Returns->>=, Returns-raise_if, Returns-ok, raised,
}
use ranges.Preflop.Classes.{
  HandClass, pair, suited, offsuit, same_class, is_class, class_elem, check_weights,
}
use ranges.Preflop.Pairs.{IsClass}
use ranges.Preflop.Keys.{AreClasses, class_count}

-- The weight given for a class, which is given once at most.
abbrev pub weight_of : HandClass → List (HandClass × Option ℕ) → ℕ
weight_of c [] = 0
weight_of c ((d, none) ∷ rest) = weight_of c rest
weight_of c ((d, some w) ∷ rest) = (if same_class c d then w else 0) + weight_of c rest

-- The weight that the first loop keeps for a class.
unfoldable pub kept_weight : HandClass → List (HandClass × ℕ) → ℕ
kept_weight c [] = 0
kept_weight c ((d, w) ∷ rest) = (if same_class c d then w else 0) + kept_weight c rest

is_class-IsClass : (d : HandClass) → is_class d ≡ true → IsClass d
is_class-IsClass (pair r) h = ground (arith, h)
is_class-IsClass (suited k l) h = ground (arith, h)
is_class-IsClass (offsuit k l) h = ground (arith, h)

same_class-same : (c d e : HandClass) → same_class c d ≡ true → same_class c e ≡ same_class d e
same_class-same (pair x) (pair y) (pair z) h = ground (arith, h)
same_class-same (pair x) (pair y) (suited z zl) h = ground (arith, h)
same_class-same (pair x) (pair y) (offsuit z zl) h = ground (arith, h)
same_class-same (pair x) (suited y yl) e h = absurd (cc)
same_class-same (pair x) (offsuit y yl) e h = absurd (cc)
same_class-same (suited x xl) (pair y) e h = absurd (cc)
same_class-same (suited x xl) (suited y yl) (pair z) h = ground (arith, h)
same_class-same (suited x xl) (suited y yl) (suited z zl) h = ground (arith, h)
same_class-same (suited x xl) (suited y yl) (offsuit z zl) h = ground (arith, h)
same_class-same (suited x xl) (offsuit y yl) e h = absurd (cc)
same_class-same (offsuit x xl) (pair y) e h = absurd (cc)
same_class-same (offsuit x xl) (suited y yl) e h = absurd (cc)
same_class-same (offsuit x xl) (offsuit y yl) (pair z) h = ground (arith, h)
same_class-same (offsuit x xl) (offsuit y yl) (suited z zl) h = ground (arith, h)
same_class-same (offsuit x xl) (offsuit y yl) (offsuit z zl) h = ground (arith, h)

class_elem-same :
    (c d : HandClass) (seen : List HandClass)
    → same_class c d ≡ true
    → class_elem c seen ≡ class_elem d seen
unfolding class_elem
class_elem-same c d [] h = refl
class_elem-same c d (e ∷ seen) h =
    ground (arith, same_class-same c d e h, class_elem-same c d seen h)

-- With the classes that were met, no class is kept twice.
unfoldable pub AreOnce : List HandClass → List (HandClass × ℕ) → Type 0
AreOnce seen ws = (c : HandClass) → class_count c ws + (if class_elem c seen then 1 else 0) ≤ 1

AreOnce-cons :
    (d : HandClass) (w : ℕ) (seen : List HandClass) (others : List (HandClass × ℕ))
    → class_elem d seen ≡ false
    → AreOnce (d ∷ seen) others
    → AreOnce seen ((d, w) ∷ others)
unfolding AreOnce class_count class_elem
AreOnce-cons d w seen others n once c = ground (arith, once c, class_elem-same c d seen, n)

pub AreOnce-once :
    (ws : List (HandClass × ℕ)) → AreOnce [] ws → (c : HandClass) → class_count c ws ≤ 1
unfolding AreOnce
AreOnce-once ws once c = omega (arith, once c)

-- Every class that is kept is a hand class, with the weight it was given, and is kept once.
pub check_weights-Returns :
    (whole : ℕ) (seen : List HandClass) (items : List (HandClass × Option ℕ))
    → Returns
        (λ (ws : List (HandClass × ℕ)).
          AreClasses ws
          × ((c : HandClass) → kept_weight c ws ≡ weight_of c items)
          × AreOnce seen ws)
        (check_weights whole seen items)
unfolding check_weights AreClasses kept_weight class_count AreOnce
check_weights-Returns whole seen [] = with_value (tt, λ c. refl, λ c. ground arith)
check_weights-Returns whole seen ((d, none) ∷ rest) =
    Returns-raise_if _ _ _ λ _. Returns-raise_if _ _ _ λ _. raised
check_weights-Returns whole seen ((d, some w) ∷ rest) = Returns-raise_if _ _ _ λ i.
    Returns-raise_if _ _ _ λ n. Returns-raise_if _ _ _ λ _.
      Returns->>= (check_weights whole (d ∷ seen) rest) _ λ others e.
        let (f, g, once) = Returns-ok (check_weights-Returns whole (d ∷ seen) rest) e in
        with_value (
          (is_class-IsClass d (ground (arith, i)), f),
          λ c. omega (arith, g c),
          AreOnce-cons d w seen others n once,
        )

-- The items of class_weights whose weight is not negative.
abbrev pub given : List (HandClass × ℕ) → List (HandClass × Option ℕ)
given ws = map (λ (e : HandClass × ℕ). (e.0, some e.1)) ws

pub check_weights-given :
    (whole : ℕ) (seen : List HandClass) (items : List (HandClass × ℕ))
    → Returns (λ (ws : List (HandClass × ℕ)). ws ≡ items) (check_weights whole seen (given items))
unfolding check_weights
check_weights-given whole seen [] = with_value refl
check_weights-given whole seen ((d, w) ∷ rest) = Returns-raise_if _ _ _ λ _.
    Returns-raise_if _ _ _ λ _. Returns-raise_if _ _ _ λ _.
      Returns->>= (check_weights whole (d ∷ seen) (given rest)) _ λ others e.
        let same = Returns-ok (check_weights-given whole (d ∷ seen) rest) e in with_value (cc)
