-- ===== src/Preflop/Pairs.antt =====
-- preflop_history.py: the card pairs of a hand class, counted.
use ranges.Prelude.{
  ℕ, ◌+◌, ◌≡◌, ◌<◌, refl, ◌∙◌, Bool, false, ◌&&◌, ◌||◌, ◌==◌, if◌then◌else◌, List, [], ◌∷◌, arith,
  Bool-cases, inl, inr,
}
use ranges.Preflop.Cards.{Card}
use ranges.Preflop.Classes.{
  HandClass, pair, suited, offsuit, candidates, with_suits, class_of, same_card_as, equal_suits,
  unequal_suits, rising_suits, same_class,
}

-- How often two cards stand in a list of card pairs, in either order.
abbrev pub is_pair_of : Card → Card → Card × Card → Bool
is_pair_of a b p =
    (same_card_as a p.0 && same_card_as b p.1) || (same_card_as a p.1 && same_card_as b p.0)

abbrev pub count : Card → Card → List (Card × Card) → ℕ
count a b [] = 0
count a b (p ∷ ps) = (if is_pair_of a b p then 1 else 0) + count a b ps

abbrev count_suits : ℕ → ℕ → List (ℕ × ℕ) → ℕ
count_suits s t [] = 0
count_suits s t (p ∷ ps) = (if s == p.0 && t == p.1 then 1 else 0) + count_suits s t ps

-- The classes of `ALL_HAND_CLASSES`.
abbrev pub IsClass : HandClass → Type 0
IsClass (pair r) = r < 13
IsClass (suited h l) = (h < l) × (l < 13)
IsClass (offsuit h l) = (h < l) × (l < 13)

count_forward :
    (a b : Card) (h l : ℕ) (ss : List (ℕ × ℕ))
    → a.rank ≡ h
    → b.rank ≡ l
    → h < l
    → count a b (with_suits h l ss) ≡ count_suits a.suit b.suit ss
count_forward a b h l [] e f g = refl
count_forward a b h l (p ∷ ss) e f g = ground (arith, count_forward a b h l ss e f g, e, f, g)

count_backward :
    (a b : Card) (h l : ℕ) (ss : List (ℕ × ℕ))
    → a.rank ≡ l
    → b.rank ≡ h
    → h < l
    → count a b (with_suits h l ss) ≡ count_suits b.suit a.suit ss
count_backward a b h l [] e f g = refl
count_backward a b h l (p ∷ ss) e f g = ground (arith, count_backward a b h l ss e f g, e, f, g)

count_other :
    (a b : Card) (h l : ℕ) (ss : List (ℕ × ℕ))
    → ((a.rank == h && b.rank == l) || (a.rank == l && b.rank == h)) ≡ false
    → count a b (with_suits h l ss) ≡ 0
count_other a b h l [] e = refl
count_other a b h l (p ∷ ss) e = ground (arith, count_other a b h l ss e, e)

equal_once : (s t : ℕ) → s < 4 → count_suits s t equal_suits ≡ (if s == t then 1 else 0)
equal_once s t l = ground (arith, l)

unequal_once : (s t : ℕ) → s < 4 → t < 4 → count_suits s t unequal_suits ≡ (if s == t then 0 else 1)
unequal_once s t l m = ground (arith, l, m)

pair_once :
    (a b : Card) (r : ℕ)
    → a.rank ≡ r
    → b.rank ≡ r
    → a.suit < 4
    → b.suit < 4
    → (a.suit == b.suit) ≡ false
    → count a b (with_suits r r rising_suits) ≡ 1
pair_once a b r e f l m n = ground (arith, e, f, l, m, n)

module _ (a b : Card) (l : a.suit < 4) (m : b.suit < 4) (n : same_card_as a b ≡ false) where
  own_pair :
      (r : ℕ)
      → count a b (candidates (pair r)) ≡ (if same_class (class_of a b) (pair r) then 1 else 0)
  unfolding candidates
  own_pair r = elim (Bool-cases (a.rank == r && b.rank == r)) [
    | inl e ↦
        pair_once a b r (ground (arith, e)) (ground (arith, e)) l m (ground (arith, e, n))
        ∙ ground (arith, e)
    | inr e ↦ count_other a b r r rising_suits (ground (arith, e)) ∙ ground (arith, e)
  ]

  own_suited :
      (h k : ℕ)
      → h < k
      → count a b (candidates (suited h k))
        ≡ (if same_class (class_of a b) (suited h k) then 1 else 0)
  unfolding candidates
  own_suited h k g = elim (Bool-cases (a.rank == h && b.rank == k)) [
    | inl e ↦
        count_forward a b h k equal_suits (ground (arith, e)) (ground (arith, e)) g
        ∙ equal_once a.suit b.suit l
        ∙ ground (arith, e, g)
    | inr e ↦ elim (Bool-cases (a.rank == k && b.rank == h)) [
      | inl f ↦
          count_backward a b h k equal_suits (ground (arith, f)) (ground (arith, f)) g
          ∙ equal_once b.suit a.suit m
          ∙ ground (arith, f, g)
      | inr f ↦ count_other a b h k equal_suits (ground (arith, e, f)) ∙ ground (arith, e, f, g)
    ]
  ]

  own_offsuit :
      (h k : ℕ)
      → h < k
      → count a b (candidates (offsuit h k))
        ≡ (if same_class (class_of a b) (offsuit h k) then 1 else 0)
  unfolding candidates
  own_offsuit h k g = elim (Bool-cases (a.rank == h && b.rank == k)) [
    | inl e ↦
        count_forward a b h k unequal_suits (ground (arith, e)) (ground (arith, e)) g
        ∙ unequal_once a.suit b.suit l m
        ∙ ground (arith, e, g)
    | inr e ↦ elim (Bool-cases (a.rank == k && b.rank == h)) [
      | inl f ↦
          count_backward a b h k unequal_suits (ground (arith, f)) (ground (arith, f)) g
          ∙ unequal_once b.suit a.suit m l
          ∙ ground (arith, f, g)
      | inr f ↦ count_other a b h k unequal_suits (ground (arith, e, f)) ∙ ground (arith, e, f, g)
    ]
  ]

  pub own :
      (d : HandClass)
      → IsClass d
      → count a b (candidates d) ≡ (if same_class (class_of a b) d then 1 else 0)
  own (pair r) i = own_pair r
  own (suited h k) i = own_suited h k i.0
  own (offsuit h k) i = own_offsuit h k i.0
