-- ===== src/Preflop/Queue.antt =====
-- preflop_history.py: the order of the positions behind the one who raises.
use mathlib.Core.Path.{subst}
use mathlib.Core.List.{append-nil, append_assoc}
use ranges.Prelude.{
  ℕ, ◌≤◌, ◌<◌, ◌≡◌, refl, sym, ap, ◌∙◌, Bool, true, false, ◌&&◌, ◌||◌, List, [], ◌∷◌, ◌++◌, arith,
  ◌==◌, length, filter, elem, Distinct, Bool-cases, inl, inr, elem-append, Distinct-swap,
  Distinct-filter, elem-filter,
}
use ranges.Preflop.Machine.{positions, seat_order_after, behind}

pub elem-behind :
    (x seat : ℕ) (ps before : List ℕ)
    → (elem seat ps ≡ true)
    → (x == seat) ≡ false
    → elem x (behind seat ps before) ≡ (elem x before || elem x ps)
unfolding behind
elem-behind x seat [] before m n = absurd (cc)
elem-behind x seat (p ∷ ps) before m n = elim (Bool-cases (p == seat)) [
  | inl e ↦ ground (arith, elem-append x ps before)
  | inr d ↦ ground (arith, elem-behind x seat ps (before ++ p ∷ []), elem-append x before (p ∷ []))
]

-- Everyone else at the table who is eligible is queued.
pub elem-seat_order_after :
    (x seat : ℕ) (eligible : ℕ → Bool)
    → elem seat positions ≡ true
    → (x == seat) ≡ false
    → elem x (seat_order_after seat eligible) ≡ (elem x positions && eligible x)
unfolding seat_order_after
elem-seat_order_after x seat eligible m n =
    elem-filter eligible x (behind seat positions [])
    ∙ ap (λ b. b && eligible x) (elem-behind x seat positions [] m n)

pub behind-Distinct :
    (seat : ℕ) (ps before : List ℕ) → Distinct (before ++ ps) → Distinct (behind seat ps before)
unfolding behind
behind-Distinct seat [] before d = subst Distinct (append-nil before) d
behind-Distinct seat (p ∷ ps) before d = elim (Bool-cases (p == seat)) [
  | inl e ↦ subst Distinct (ground (arith)) ((Distinct-swap before (p ∷ ps) d).1)
  | inr n ↦ subst Distinct (ground (arith)) (
      behind-Distinct seat ps (before ++ p ∷ [])
        (subst Distinct (sym (append_assoc before (p ∷ []) ps)) d))
]

pub seat_order_after-Distinct :
    (seat : ℕ) (eligible : ℕ → Bool) → Distinct (seat_order_after seat eligible)
unfolding seat_order_after
seat_order_after-Distinct seat eligible =
    Distinct-filter eligible (behind seat positions [])
      (behind-Distinct seat positions [] (refl, (refl, (refl, (refl, (refl, (refl, tt)))))))

pub length-filter_none :
    (p : ℕ → Bool) (xs : List ℕ) (x : ℕ) → elem x xs ≡ true → p x ≡ true → 0 < length (filter p xs)
length-filter_none p [] x m h = absurd (cc)
length-filter_none p (y ∷ ys) x m h = ground (arith, length-filter_none p ys x)

-- Two members of a list of at most one item are equal.
pub only_member :
    (p : ℕ → Bool) (xs : List ℕ) (x y : ℕ)
    → length (filter p xs) ≤ 1
    → elem x xs ≡ true
    → p x ≡ true
    → elem y xs ≡ true
    → p y ≡ true
    → x ≡ y
only_member p [] x y l m h n k = absurd (cc)
only_member p (z ∷ zs) x y l m h n k =
    ground (arith, only_member p zs x y, length-filter_none p zs x, length-filter_none p zs y)

-- Only eligible positions are queued.
pub seat_order_after-eligible :
    (x seat : ℕ) (eligible : ℕ → Bool)
    → elem x (seat_order_after seat eligible) ≡ true
    → eligible x ≡ true
unfolding seat_order_after
seat_order_after-eligible x seat eligible m =
    ground (arith, m, elem-filter eligible x (behind seat positions []))
