-- ===== src/Hand/Ensures.antt =====
-- What a call may end in: a state with a property, or a refusal that is no failed assertion.
use mathlib.Core.Path.{subst}
use ranges.Prelude.{◌≡◌, refl, Bool, true, false, ok, err, raise_if, ◌>>=◌, ◌>>◌, if◌then◌else◌}
use ranges.Hand.Types.{HandError, Checked, assertion_actor, assertion_pending, assertion_facing}

-- The `assert` and `raise AssertionError` lines.
abbrev pub is_assertion : HandError → Bool
is_assertion assertion_actor = true
is_assertion assertion_pending = true
is_assertion assertion_facing = true
is_assertion _ = false

pub data Ensures {A : Type 0} (P : A → Type 0) : Checked A → Type 0 where
  returns : {a : A} → P a → Ensures P (ok a)
  refuses : {e : HandError} → is_assertion e ≡ false → Ensures P (err e)

pub Ensures-weaken :
    {A : Type 0} {P Q : A → Type 0} {m : Checked A}
    → Ensures P m
    → ((a : A) → P a → Q a)
    → Ensures Q m
Ensures-weaken (returns {a} p) w = returns (w a p)
Ensures-weaken (refuses h) w = refuses h

module _ {A B : Type 0} {P : B → Type 0} where
  pub Ensures-bind :
      {Q : A → Type 0} (m : Checked A) (f : A → Checked B)
      → Ensures Q m
      → ((a : A) → m ≡ ok a → Q a → Ensures P (f a))
      → Ensures P (m >>= f)
  unfolding ◌>>=◌
  Ensures-bind (ok a) f (returns q) k = k a refl q
  Ensures-bind (err e) f (refuses h) k = refuses h

module _ {B : Type 0} {P : B → Type 0} where
  pub Ensures-raise_if :
      (c : Bool) (e : HandError) (k : Checked B)
      → is_assertion e ≡ false
      → (c ≡ false → Ensures P k)
      → Ensures P (raise_if c e >> k)
  unfolding ◌>>=◌
  Ensures-raise_if true e k h p = refuses h
  Ensures-raise_if false e k h p = p refl

  pub Ensures-skip :
      (c : Bool) (e : HandError) (k : Checked B)
      → c ≡ false
      → Ensures P k
      → Ensures P (raise_if c e >> k)
  unfolding ◌>>=◌
  Ensures-skip true e k h p = absurd (cc)
  Ensures-skip false e k h p = p

  pub Ensures-if :
      (c : Bool) (k l : Checked B)
      → (c ≡ true → Ensures P k)
      → (c ≡ false → Ensures P l)
      → Ensures P (if c then k else l)
  Ensures-if true k l p q = p refl
  Ensures-if false k l p q = q refl

abbrev Holds : {A : Type 0} → (A → Type 0) → Checked A → Type 0
Holds P (ok a) = P a
Holds P (err e) = Unit

holds : {A : Type 0} {P : A → Type 0} {m : Checked A} → Ensures P m → Holds P m
holds (returns p) = p
holds (refuses h) = tt

-- The postcondition of a call that returned.
pub Ensures-ok :
    {A : Type 0} {P : A → Type 0} {m : Checked A} {a : A} → Ensures P m → m ≡ ok a → P a
Ensures-ok {P = P} h e = subst (Holds P) e (holds h)

IsCode : {A : Type 0} → Checked A → Type 0
IsCode (ok a) = Unit
IsCode (err e) = is_assertion e ≡ false

code : {A : Type 0} {P : A → Type 0} {m : Checked A} → Ensures P m → IsCode m
unfolding IsCode
code (returns p) = tt
code (refuses h) = h

-- A call that raised did not fail an assertion.
pub Ensures-err :
    {A : Type 0} {P : A → Type 0} {m : Checked A} {e : HandError}
    → Ensures P m
    → m ≡ err e
    → is_assertion e ≡ false
unfolding IsCode
Ensures-err h e = subst IsCode e (code h)
