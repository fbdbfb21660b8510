-- ===== src/Prelude/Outcomes.antt =====
-- What holds of the value of a call, where it does not raise.
use mathlib.Core.Path.{◌≡◌, refl, subst}
use mathlib.Core.Bool.{Bool, true, false}
use ranges.Prelude.Results.{Result, ok, err, is_ok, raise_if, ◌>>=◌, ◌>>◌}
use ranges.Prelude.Tests.{if◌then◌else◌}

pub data Returns {E A : Type 0} (P : A → Type 0) : Result E A → Type 0 where
  with_value : {a : A} → P a → Returns P (ok a)
  raised : {e : E} → Returns P (err e)

module _ {E A B : Type 0} {P : B → Type 0} where
  pub Returns->>= :
      (m : Result E A) (f : A → Result E B)
      → ((a : A) → m ≡ ok a → Returns P (f a))
      → Returns P (m >>= f)
  unfolding ◌>>=◌
  Returns->>= (ok a) f k = k a refl
  Returns->>= (err e) f k = raised

module _ {E B : Type 0} {P : B → Type 0} where
  pub Returns-raise_if :
      (c : Bool) (e : E) (k : Result E B)
      → (c ≡ false → Returns P k)
      → Returns P (raise_if c e >> k)
  unfolding ◌>>=◌
  Returns-raise_if true e k p = raised
  Returns-raise_if false e k p = p refl

  pub Returns-if :
      (c : Bool) (k l : Result E B)
      → (c ≡ true → Returns P k)
      → (c ≡ false → Returns P l)
      → Returns P (if c then k else l)
  Returns-if true k l p q = p refl
  Returns-if false k l p q = q refl

abbrev Value : {E A : Type 0} → (A → Type 0) → Result E A → Type 0
Value P (ok a) = P a
Value P (err e) = Unit

value : {E A : Type 0} {P : A → Type 0} {m : Result E A} → Returns P m → Value P m
value (with_value p) = p
value raised = tt

pub Returns-ok :
    {E A : Type 0} {P : A → Type 0} {m : Result E A} {a : A} → Returns P m → m ≡ ok a → P a
Returns-ok {P = P} h e = subst (Value P) e (value h)

clash : true ≡ false → ⊥
clash h = absurd (cc)

-- The call does not raise, and its value has the property.
pub data Succeeds {E A : Type 0} (P : A → Type 0) : Result E A → Type 0 where
  succeeds : {a : A} → P a → Succeeds P (ok a)

pub Succeeds->>= :
    {E A B : Type 0} {Q : A → Type 0} {P : B → Type 0} (m : Result E A) (f : A → Result E B)
    → Succeeds Q m
    → ((a : A) → m ≡ ok a → Q a → Succeeds P (f a))
    → Succeeds P (m >>= f)
unfolding ◌>>=◌
Succeeds->>= (ok a) f (succeeds q) k = k a refl q
Succeeds->>= (err e) f h k = elim h [ ]

pub Succeeds-if :
    {E B : Type 0} {P : B → Type 0} (c : Bool) (k l : Result E B)
    → (c ≡ true → Succeeds P k)
    → (c ≡ false → Succeeds P l)
    → Succeeds P (if c then k else l)
Succeeds-if true k l p q = p refl
Succeeds-if false k l p q = q refl

pub Succeeds-skip :
    {E B : Type 0} {P : B → Type 0} (c : Bool) (e : E) (k : Result E B)
    → c ≡ false
    → Succeeds P k
    → Succeeds P (raise_if c e >> k)
unfolding ◌>>=◌
Succeeds-skip true e k h p = absurd (clash h)
Succeeds-skip false e k h p = p

pub Succeeds-is_ok :
    {E A : Type 0} {P : A → Type 0} {m : Result E A} → Succeeds P m → is_ok m ≡ true
Succeeds-is_ok (succeeds p) = refl

pub Succeeds-Returns : {E A : Type 0} {P : A → Type 0} {m : Result E A} → Succeeds P m → Returns P m
Succeeds-Returns (succeeds p) = with_value p

pub Succeeds-weaken :
    {E A : Type 0} {P Q : A → Type 0} {m : Result E A}
    → Succeeds P m
    → ((a : A) → P a → Q a)
    → Succeeds Q m
Succeeds-weaken (succeeds {a} p) w = succeeds (w a p)
