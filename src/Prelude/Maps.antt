-- ===== src/Prelude/Maps.antt =====
-- Dictionaries and sets keyed by small numbers, as functions, and sums and maxima over their keys.
use Prim.Native.Nat.{ℕ, ◌+◌, ◌≤◌, max}
use mathlib.Core.Path.{◌≡◌, refl}
use mathlib.Core.Bool.{Bool, true, false}
use mathlib.Core.List.{List, [], ◌∷◌}
use native.Mathlib.Omega.{arith}
use ranges.Prelude.Tests.{◌==◌, if◌then◌else◌}
use ranges.Prelude.Lists.{elem}

-- `d[k] = v`
abbrev pub update {ℓ} : {V : Type ℓ} → (ℕ → V) → ℕ → V → ℕ → V
update d k v x = if x == k then v else d x

-- `s.add(k)`
abbrev pub add : ℕ → (ℕ → Bool) → ℕ → Bool
add k s x = if x == k then true else s x

abbrev pub empty_set : ℕ → Bool
empty_set x = false

-- The sum of the values at the listed keys.
unfoldable pub sum_over : List ℕ → (ℕ → ℕ) → ℕ
sum_over [] d = 0
sum_over (k ∷ ks) d = d k + sum_over ks d

-- The largest of the values at the listed keys; 0 if none is listed.
unfoldable pub max_over : List ℕ → (ℕ → ℕ) → ℕ
max_over [] d = 0
max_over (k ∷ ks) d = max (d k) (max_over ks d)

pub le-max_over : (x : ℕ) (ks : List ℕ) (d : ℕ → ℕ) → elem x ks ≡ true → d x ≤ max_over ks d
unfolding max_over
le-max_over x [] d h = absurd (cc)
le-max_over x (k ∷ ks) d h = ground (arith, le-max_over x ks d)

-- Equal at every listed key.
pub sum_over-congr :
    (ks : List ℕ) (d e : ℕ → ℕ)
    → ((x : ℕ) → elem x ks ≡ true → d x ≡ e x)
    → sum_over ks d ≡ sum_over ks e
unfolding sum_over
sum_over-congr [] d e h = refl
sum_over-congr (k ∷ ks) d e h =
    omega (arith, h k (ground arith), sum_over-congr ks d e (λ x m. h x (ground arith)))

pub sum_over-add :
    (ks : List ℕ) (d e f : ℕ → ℕ)
    → ((x : ℕ) → elem x ks ≡ true → d x + e x ≡ f x)
    → sum_over ks d + sum_over ks e ≡ sum_over ks f
unfolding sum_over
sum_over-add [] d e f h = omega arith
sum_over-add (k ∷ ks) d e f h =
    omega (arith, h k (ground arith), sum_over-add ks d e f (λ x m. h x (ground arith)))
