-- ===== src/Hand/Equality.antt =====
-- gto_hand_history.py: `==` of the frozen dataclass `PublicHandHistory`, by its fields.
use native.Mathlib.Decide.{ℕ_discrete}
use ranges.Prelude.{String, str_eq, eq_iff, ◌≡◌, ◌≢◌, refl, true, false, Bool}
use ranges.Hand.Types.{PublicHandHistory, HandSeat, HandEvent, Kind, Street, Number}

pub differ : (s t : String) → str_eq s t ≡ false → s ≢ t
differ s t e h = absurd (cc ((eq_iff s t).1 h))

unfoldable decide : (s t : String) (b : Bool) → str_eq s t ≡ b → Dec (s ≡ t)
decide s t true e = yes ((eq_iff s t).0 e)
decide s t false e = no (differ s t e)

unfoldable String-discrete : Discrete String
unfolding decide
String-discrete s t = decide s t (str_eq s t) refl

unfoldable Kind-discrete : Discrete Kind
Kind-discrete = hlevel

unfoldable Street-discrete : Discrete Street
Street-discrete = hlevel

unfoldable Number-discrete : Discrete Number
Number-discrete = hlevel (ℕ_discrete)

unfoldable HandSeat-discrete : Discrete HandSeat
unfolding String-discrete Number-discrete
HandSeat-discrete = hlevel (ℕ_discrete, String-discrete, Number-discrete)

unfoldable HandEvent-discrete : Discrete HandEvent
unfolding String-discrete Number-discrete Kind-discrete Street-discrete
HandEvent-discrete =
    hlevel (ℕ_discrete, String-discrete, Number-discrete, Kind-discrete, Street-discrete)

unfoldable History-discrete : Discrete PublicHandHistory
unfolding HandEvent-discrete HandSeat-discrete
History-discrete =
    hlevel (ℕ_discrete, String-discrete, Number-discrete, HandEvent-discrete, HandSeat-discrete)

unfoldable truth : {A : Type 0} → Dec A → Bool
truth (yes a) = true
truth (no n) = false

-- `PublicHandHistory.__eq__`
unfoldable pub same_history : PublicHandHistory → PublicHandHistory → Bool
unfolding truth History-discrete
same_history h k = truth (History-discrete h k)
