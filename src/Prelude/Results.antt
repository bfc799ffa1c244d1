-- ===== src/Prelude/Results.antt =====
-- The outcome of a call: a value, an error that the code returns, or a panic of the Go runtime
-- (an index out of range, a nil pointer).
use mathlib.Core.Option.{Option, none, some}
use mathlib.Core.Bool.{Bool}
use mathlib.Core.Path.{◌≡◌, refl}
use mathlib.Core.Logic.{◌⊎◌, inl, inr}
use Prim.Native.Nat.{ℕ}

pub data Error : Type 0 where
  -- An error that an operator further down, the context or the storage reports.
  upstream : ℕ → Error
  -- extlabels.ErrDuplicateLabelSet.
  duplicate_label_set : Error
  batch_not_aligned : Error
  window_exceeded : Error
  unexpected_samples : Error
  max_samples_exceeded : Error
  nan_parameter : Error
  parameter_overflow : Error
  parameter_underflow : Error
  nan_ratio : Error
  -- A panic of a child that runs in a goroutine of its own.
  unexpected_panic : Error
  -- newManyToManyMatchError, of the side (true for the left one) and the indices of the two series.
  many_to_many_match : Bool → ℕ → ℕ → Error
  implicit_many_to_one : Error
  unexpected_cardinality : Error
  -- An error of encoding/json; the nil node that Unmarshal returns for an unknown type; and a recursion cut off.
  json_error : Error
  nil_node : Error
  out_of_fuel : Error

pub data Result {ℓ} (A : Type ℓ) : Type ℓ where
  ok : A → Result A
  err : Error → Result A
  panic : Result A

infixl 5 ◌>>=◌
abbrev pub ◌>>=◌ {ℓ κ} : {A : Type ℓ} {B : Type κ} → Result A → (A → Result B) → Result B
ok a >>= f = f a
err e >>= f = err e
panic >>= f = panic

-- An index expression: out of range is a panic.
abbrev pub or_panic {ℓ} : {A : Type ℓ} → Option A → Result A
or_panic none = panic
or_panic (some a) = ok a

pub Result-cases {ℓ} :
    {A : Type ℓ} (r : Result A)
    → ((a : A) × (r ≡ ok a)) ⊎ (((e : Error) × (r ≡ err e)) ⊎ (r ≡ panic))
Result-cases (ok a) = inl (a, refl)
Result-cases (err e) = inr (inl (e, refl))
Result-cases panic = inr (inr refl)

pub ok-injective {ℓ} : {A : Type ℓ} {a b : A} → ok a ≡ ok b → a ≡ b
ok-injective e = cc

-- What a successful chain consists of.
pub >>=-ok {ℓ κ} :
    {A : Type ℓ} {B : Type κ} (r : Result A) (f : A → Result B) (b : B)
    → (r >>= f) ≡ ok b
    → (a : A) × (r ≡ ok a) × (f a ≡ ok b)
>>=-ok (ok a) f b h = (a, refl, h)
>>=-ok (err e) f b h = cc
>>=-ok panic f b h = cc
