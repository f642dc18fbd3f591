-- ===== src/Prelude/Errors.antt =====
-- Python's exceptions as values. A constructor is an exception class of the program, or a group of
-- classes that no handler of the program tells apart; the text of a message is left out.
use mathlib.Core.Path.{◌≡◌, refl}
use mathlib.Core.Bool.{Bool, true, false}

pub data Error : Type 0 where
  -- `ValueError`, pydantic's `ValidationError` included
  value_error : Error
  -- `UnknownActionError` and `UnknownBatchError`, which derive from `ValueError`
  unknown_action : Error
  unknown_batch : Error
  key_error : Error
  file_not_found : Error
  integrity_error : Error
  assertion_error : Error
  type_error : Error
  -- any other exception, such as one of the network or of a plugin
  failure : Error

-- `except ValueError`
abbrev pub is_value_error : Error → Bool
is_value_error value_error = true
is_value_error unknown_action = true
is_value_error unknown_batch = true
is_value_error _ = false

-- What a call ends in: an exception or a value.
pub data Result {ℓ} (V : Type ℓ) : Type ℓ where
  err : Error → Result V
  ok : V → Result V

-- `if not test: raise x`
abbrev pub guard : Bool → Error → Result (Unit {0})
guard false x = err x
guard true x = ok tt

-- The rest of a body runs on the value of a call; an exception ends the body.
infixl 5 ◌>>=◌
abbrev pub ◌>>=◌ {ℓ κ} : {V : Type ℓ} {W : Type κ} → Result V → (V → Result W) → Result W
err x >>= body = err x
ok v >>= body = body v

infixl 5 ◌>>◌
abbrev pub ◌>>◌ {κ} : {W : Type κ} → Result (Unit {0}) → Result W → Result W
check >> body = check >>= λ _. body

-- What a passed guard shows.
pub guard-eq-ok {κ} :
    {W : Type κ} (t : Bool) (x : Error) (body : Result W) {w : W}
    → (guard t x >> body) ≡ ok w
    → (t ≡ true) × (body ≡ ok w)
guard-eq-ok false x body h = cc
guard-eq-ok true x body h = (refl, h)

-- A body that returns has had the value of its call.
pub >>=-eq-ok {ℓ κ} :
    {V : Type ℓ} {W : Type κ} (call : Result V) (body : V → Result W) {w : W}
    → (call >>= body) ≡ ok w
    → (v : V) × (call ≡ ok v) × (body v ≡ ok w)
>>=-eq-ok (err x) body h = cc
>>=-eq-ok (ok v) body h = (v, refl, h)

-- Two bodies that agree on the value of a call end alike.
pub >>=-same {ℓ κ} :
    {V : Type ℓ} {W : Type κ} (call : Result V) (f g : V → Result W)
    → ((v : V) → call ≡ ok v → f v ≡ g v)
    → (call >>= f) ≡ (call >>= g)
>>=-same (err x) f g h = refl
>>=-same (ok v) f g h = h v refl

pub same_ok : {V : Type 0} {v w : V} → ok v ≡ ok w → v ≡ w
same_ok h = cc
