-- ===== src/Prelude/Lists.antt =====
-- Lists of native numbers: membership, selection, distinctness and sums.
use Prim.Native.Nat.{ℕ, zero, suc, ◌+◌, ◌≤◌}
use mathlib.Core.Path.{◌≡◌, refl, sym, subst}
use mathlib.Core.Bool.{Bool, true, false, ◌&&◌, ◌||◌}
use mathlib.Core.Option.{Option, none, some}
use mathlib.Core.List.{List, [], ◌∷◌, ◌++◌, append-nil}
use native.Mathlib.Omega.{arith}
use mathlib.Core.Logic.{inl, inr}
use ranges.Prelude.Tests.{◌==◌, if◌then◌else◌, Bool-cases}

module _ {ℓ} {A : Type ℓ} where
  abbrev pub length : List A → ℕ
  length [] = 0
  length (x ∷ xs) = suc (length xs)

  abbrev pub get_elem? : List A → ℕ → Option A
  get_elem? [] i = none
  get_elem? (x ∷ xs) zero = some x
  get_elem? (x ∷ xs) (suc i) = get_elem? xs i

  -- The items that pass a Boolean test, in order.
  abbrev pub filter : (A → Bool) → List A → List A
  filter p [] = []
  filter p (x ∷ xs) = if p x then x ∷ filter p xs else filter p xs

  -- The lists that a function gives for the items, one behind the other.
  abbrev pub concat_map : {B : Type 0} → (A → List B) → List A → List B
  concat_map f [] = []
  concat_map f (x ∷ xs) = f x ++ concat_map f xs

  abbrev pub is_empty : List A → Bool
  is_empty [] = true
  is_empty (x ∷ xs) = false

  pub length-append : (xs ys : List A) → length (xs ++ ys) ≡ length xs + length ys
  length-append [] ys = omega arith
  length-append (x ∷ xs) ys = omega (arith, length-append xs ys)

  pub filter-append :
      (p : A → Bool) (xs ys : List A) → filter p (xs ++ ys) ≡ filter p xs ++ filter p ys
  filter-append p [] ys = refl
  filter-append p (x ∷ xs) ys = ground (arith, filter-append p xs ys)

-- `x in xs` on numbers.
abbrev pub elem : ℕ → List ℕ → Bool
elem x [] = false
elem x (y ∷ ys) = (x == y) || elem x ys

-- `range(start, start + count)`
abbrev pub range : ℕ → ℕ → List ℕ
range start zero = []
range start (suc count) = start ∷ range (start + 1) count

-- No number is listed twice.
abbrev pub Distinct : List ℕ → Type 0
Distinct [] = Unit
Distinct (x ∷ xs) = (elem x xs ≡ false) × Distinct xs

pub elem-filter : (p : ℕ → Bool) (x : ℕ) (xs : List ℕ) → elem x (filter p xs) ≡ (elem x xs && p x)
elem-filter p x [] = refl
elem-filter p x (y ∷ ys) = ground (arith, elem-filter p x ys)

pub elem-append : (x : ℕ) (xs ys : List ℕ) → elem x (xs ++ ys) ≡ (elem x xs || elem x ys)
elem-append x [] ys = refl
elem-append x (y ∷ xs) ys = ground (arith, elem-append x xs ys)

pub Distinct-filter : (p : ℕ → Bool) (xs : List ℕ) → Distinct xs → Distinct (filter p xs)
Distinct-filter p [] d = tt
Distinct-filter p (x ∷ xs) d = ground (arith, Distinct-filter p xs d.1, elem-filter p x xs)

pub Distinct-append_left : (xs ys : List ℕ) → Distinct (xs ++ ys) → Distinct xs
Distinct-append_left [] ys d = tt
Distinct-append_left (x ∷ xs) ys d =
    ground (arith, Distinct-append_left xs ys d.1, elem-append x xs ys)

pub Distinct-append_right : (xs ys : List ℕ) → Distinct (xs ++ ys) → Distinct ys
Distinct-append_right [] ys d = d
Distinct-append_right (x ∷ xs) ys d = Distinct-append_right xs ys d.1

-- The item between the two parts of a list without repetition stands in neither.
pub Distinct-middle :
    (xs : List ℕ) (x : ℕ) (ys : List ℕ)
    → Distinct (xs ++ x ∷ ys)
    → (elem x xs ≡ false) × (elem x ys ≡ false)
Distinct-middle [] x ys d = (refl, d.0)
Distinct-middle (y ∷ xs) x ys d =
    ground (arith, Distinct-middle xs x ys d.1, elem-append y xs (x ∷ ys))

-- A listed item splits the list.
pub elem-split :
    (x : ℕ) (xs : List ℕ)
    → elem x xs ≡ true
    → (pre : List ℕ) × (post : List ℕ) × (xs ≡ pre ++ x ∷ post)
elem-split x [] h = absurd (cc)
elem-split x (y ∷ ys) h = elim (Bool-cases (x == y)) [
  | inl e ↦ ([], ys, ground (arith))
  | inr n ↦ let (pre, post, p) = elem-split x ys (ground arith) in (y ∷ pre, post, cc)
]

Distinct-insert :
    (xs : List ℕ) (y : ℕ) (ys : List ℕ)
    → Distinct (xs ++ ys)
    → elem y (xs ++ ys) ≡ false
    → Distinct (xs ++ (y ∷ ys))
Distinct-insert [] y ys d h = (h, d)
Distinct-insert (x ∷ xs) y ys d h = ground (
  arith,
  Distinct-insert xs y ys d.1,
  elem-append x xs (y ∷ ys),
  elem-append x xs ys,
  elem-append y xs ys,
)

pub Distinct-swap : (xs ys : List ℕ) → Distinct (xs ++ ys) → Distinct (ys ++ xs)
Distinct-swap [] ys d = subst Distinct (sym (append-nil ys)) d
Distinct-swap (x ∷ xs) ys d =
    Distinct-insert ys x xs (Distinct-swap xs ys d.1)
      (ground (arith, elem-append x ys xs, elem-append x xs ys, d.0))

-- A weaker test selects at least as many items.
pub length-filter_mono :
    (p q : ℕ → Bool) (xs : List ℕ)
    → ((x : ℕ) → p x ≡ true → q x ≡ true)
    → length (filter p xs) ≤ length (filter q xs)
length-filter_mono p q [] h = omega arith
length-filter_mono p q (x ∷ xs) h = ground (arith, h x, length-filter_mono p q xs h)
