-- ===== src/Prelude/Errors.antt =====
-- What the extension throws: an `Exception` of DuckDB with its type and its format string. The
-- values that a message is formatted with are left out. `multiple` is the message that
-- `HandleConflict` (storage/delta_transaction_manager.cpp) makes of two.
use Prim.Native.String.{String}
use mathlib.Core.Path.{◌≡◌, refl, ap}
use mathlib.Core.Logic.{◌⊎◌, inl, inr}

pub data ExceptionType : Type 0 where
  internal invalid_input io binder not_implemented catalog transaction permission constraint
        invalid_configuration :
      ExceptionType
  -- a `std::exception` that is none of DuckDB's
  invalid : ExceptionType

pub data Error : Type 0 where
  error : ExceptionType → String → Error
  multiple : Error → Error → Error
  -- no exception: a null pointer is read, and what follows is undefined
  undefined : Error

-- `ErrorData::Type()`
abbrev pub error_type : Error → ExceptionType
error_type (error t m) = t
error_type (multiple first second) = error_type first
error_type undefined = internal

-- `ErrorData::Message()`, the values that it is formatted with left out.
abbrev pub error_message : Error → String
error_message (error t m) = m
error_message (multiple first second) = "Multiple exceptions happened."
error_message undefined = ""

pub data Result {ℓ} (A : Type ℓ) : Type ℓ where
  ok : A → Result A
  err : Error → Result A

-- What is thrown passes by the rest.
infixl 5 ◌>>◌ ◌>>=◌
abbrev pub ◌>>◌ {κ} : {B : Type κ} → Result (Unit {0}) → Result B → Result B
ok done >> next = next
err thrown >> next = err thrown

abbrev pub ◌>>=◌ {κ ℓ} : {B : Type κ} {A : Type ℓ} → Result A → (A → Result B) → Result B
ok value >>= next = next value
err thrown >>= next = err thrown

-- The same for a method with state: an exception ends it, and what was changed before it stays.
abbrev pub and_then : {S A B : Type 0} → S × Result A → (S → A → S × Result B) → S × Result B
and_then (s, ok a) f = f s a
and_then (s, err e) f = (s, err e)

-- What a step that returned has gone through.
pub and_then-ok :
    {S A B : Type 0} (r : S × Result A) (f : S → A → S × Result B) (s' : S) (b : B)
    → and_then r f ≡ (s', ok b)
    → (s : S) × (a : A) × (r ≡ (s, ok a)) × (f s a ≡ (s', ok b))
and_then-ok (s, ok a) f s' b h = (s, a, refl, h)
and_then-ok {S = S} {B = B} (s, err e) f s' b h = cc (ap (λ (x : S × Result B). x.1) h)

-- What both steps keep true of the state, the composition keeps, also when the first one throws.
pub and_then-keeps :
    {S A B : Type 0} (P : S → Type 0) (r : S × Result A) (f : S → A → S × Result B)
    → P r.0
    → ((s : S) (a : A) → r ≡ (s, ok a) → P s → P (f s a).0)
    → P (and_then r f).0
and_then-keeps P (s, ok a) f p q = q s a refl p
and_then-keeps P (s, err e) f p q = p

pub Result-cases :
    {A : Type 0} (r : Result A) → ((a : A) × (r ≡ ok a)) ⊎ ((e : Error) × (r ≡ err e))
Result-cases (ok a) = inl (a, refl)
Result-cases (err e) = inr (e, refl)

pub ok-injective : {A : Type 0} {a b : A} → ◌≡◌ {A = Result A} (ok a) (ok b) → a ≡ b
ok-injective h = cc

pub step-injective :
    {S A : Type 0} (s s' : S) (a b : A)
    → ◌≡◌ {A = S × Result A} (s, ok a) (s', ok b)
    → (s ≡ s') × (a ≡ b)
step-injective {S = S} {A = A} s s' a b h =
    (ap (λ (x : S × Result A). x.0) h, ok-injective (ap (λ (x : S × Result A). x.1) h))
  where
    ok-injective : ◌≡◌ {A = Result A} (ok a) (ok b) → a ≡ b
    ok-injective e = cc

pub step-throws {ℓ} :
    {S A : Type 0} {P : Type ℓ} (s s' : S) (e : Error) (b : A)
    → ◌≡◌ {A = S × Result A} (s, err e) (s', ok b)
    → P
step-throws {S = S} {A = A} s s' e b h = cc (ap (λ (x : S × Result A). x.1) h)

pub >>=-ok :
    {A B : Type 0} (r : Result A) (f : A → Result B) (b : B)
    → (r >>= f) ≡ ok b
    → (a : A) × (r ≡ ok a) × (f a ≡ ok b)
>>=-ok (ok a) f b h = (a, refl, h)
>>=-ok (err e) f b h = cc

pub >>-ok :
    {B : Type 0} (r : Result (Unit {0})) (next : Result B) (b : B)
    → (r >> next) ≡ ok b
    → (r ≡ ok tt) × (next ≡ ok b)
>>-ok (ok tt) next b h = (refl, h)
>>-ok (err e) next b h = cc
