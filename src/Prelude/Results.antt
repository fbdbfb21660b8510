-- ===== src/Prelude/Results.antt =====
-- Functions that may raise: a value or an error, and the chain of such calls.
use mathlib.Core.Path.{◌≡◌, refl}
use mathlib.Core.Bool.{Bool, true, false}

pub data Result (E A : Type 0) : Type 0 where
  ok : A → Result E A
  err : E → Result E A

-- `if test: raise error`
unfoldable pub raise_if : {E : Type 0} → Bool → E → Result E (Unit {0})
raise_if true e = err e
raise_if false e = ok tt

infixl 5 ◌>>=◌ ◌>>◌
-- Opening this opens `raise_if` too.
unfoldable pub ◌>>=◌ : {E A B : Type 0} → Result E A → (A → Result E B) → Result E B
unfolding raise_if
ok a >>= f = f a
err e >>= f = err e

abbrev pub ◌>>◌ : {E A B : Type 0} → Result E A → Result E B → Result E B
m >> k = m >>= λ _. k

abbrev pub is_ok : {E A : Type 0} → Result E A → Bool
is_ok (ok a) = true
is_ok (err e) = false

-- Inversion of a successful chain.
pub >>=-eq-ok :
    {E A B : Type 0} (m : Result E A) (f : A → Result E B) {b : B}
    → (m >>= f) ≡ ok b
    → (a : A) × (m ≡ ok a) × (f a ≡ ok b)
unfolding ◌>>=◌
>>=-eq-ok (ok a) f h = (a, refl, h)
>>=-eq-ok (err e) f h = cc

pub >>=-congr :
    {E A B : Type 0} (m : Result E A) (f g : A → Result E B)
    → ((a : A) → f a ≡ g a)
    → (m >>= f) ≡ (m >>= g)
unfolding ◌>>=◌
>>=-congr (ok a) f g h = h a
>>=-congr (err e) f g h = refl

pub >>=_assoc :
    {E A B C : Type 0} (m : Result E A) (f : A → Result E B) (g : B → Result E C)
    → (m >>= f >>= g) ≡ (m >>= λ a. f a >>= g)
unfolding ◌>>=◌
>>=_assoc (ok a) f g = refl
>>=_assoc (err e) f g = refl

pub >>=-ok : {E A : Type 0} (m : Result E A) → (m >>= λ a. ok a) ≡ m
unfolding ◌>>=◌
>>=-ok (ok a) = refl
>>=-ok (err e) = refl

-- A last step that cannot fail does not change whether the chain succeeds.
pub is_ok->>= :
    {E A B : Type 0} (m : Result E A) (f : A → B) → is_ok (m >>= λ a. ok (f a)) ≡ is_ok m
unfolding ◌>>=◌
is_ok->>= (ok a) f = refl
is_ok->>= (err e) f = refl
