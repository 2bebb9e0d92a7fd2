-- ===== src/Prelude/Outcome.antt =====
-- What a call of the program ends in: a value, an exception, or undefined behaviour.
use Prim.Native.Nat.{ℕ, zero, suc, ◌%◌, ◌<◌}
use mathlib.Core.Path.{◌≡◌, refl}
use mathlib.Core.Logic.{◌⊎◌, inl, inr}
use mathlib.Core.Bool.{Bool, true, false}
use mathlib.Core.List.{List, [], ◌∷◌}
use mathlib.Core.Option.{Option, none, some}
use native.Mathlib.Omega.{arith}
use psi.Prelude.Lists.{length}

-- `thrown` is an exception (`YACL_ENFORCE`, `YACL_THROW`; the message is dropped), `undefined` an
-- access out of bounds, a division by zero or a null pointer.
pub data Error : Type 0 where
  thrown undefined : Error

pub data Result {ℓ} (Value : Type ℓ) : Type ℓ where
  err : Error → Result Value
  ok : Value → Result Value

-- The next call sees the value; an error ends the whole.
infixl 5 ◌>>=◌
abbrev pub ◌>>=◌ {ℓ κ} :
    {Value : Type ℓ} {Next : Type κ} → Result Value → (Value → Result Next) → Result Next
err failure >>= continue = err failure
ok value >>= continue = continue value

infixl 5 ◌>>◌
abbrev pub ◌>>◌ {κ} : {Next : Type κ} → Result (Unit {0}) → Result Next → Result Next
check >> next = check >>= λ passed. next

-- `YACL_ENFORCE(b)`.
abbrev pub enforce : Bool → Result (Unit {0})
enforce true = ok tt
enforce false = err thrown

-- `v[i]` of a `std::vector`.
abbrev pub at {ℓ} : {A : Type ℓ} → List A → ℕ → Result A
at [] i = err undefined
at (x ∷ xs) zero = ok x
at (x ∷ xs) (suc i) = at xs i

-- `a % n` of unsigned integers.
abbrev pub rem : ℕ → ℕ → Result ℕ
rem a zero = err undefined
rem a (suc n) = ok (a % suc n)

-- A result that is there, or else an exception.
abbrev pub of_option {ℓ} : {A : Type ℓ} → Option A → Result A
of_option none = err thrown
of_option (some a) = ok a

-- The call ends in a value that satisfies `P`.
abbrev pub Returns {ℓ κ} : {A : Type ℓ} → Result A → (A → Type κ) → Type (ℓ ⊔ κ)
Returns {A} r P = (a : A) × (r ≡ ok a) × P a

-- A chain that ends in a value went through a value of its first call.
pub >>=-eq-ok {ℓ κ} :
    {Value : Type ℓ} {Next : Type κ} (first : Result Value) (continue : Value → Result Next)
    {end : Next}
    → (first >>= continue) ≡ ok end
    → (value : Value) × (first ≡ ok value) × (continue value ≡ ok end)
>>=-eq-ok (err failure) continue ends = cc
>>=-eq-ok (ok value) continue ends = (value, refl, ends)

pub Result-cases {ℓ} :
    {Value : Type ℓ} (r : Result Value)
    → ((failure : Error) × (r ≡ err failure)) ⊎ ((value : Value) × (r ≡ ok value))
Result-cases (err failure) = inl (failure, refl)
Result-cases (ok value) = inr (value, refl)

pub >>=-assoc {ℓ κ ι} :
    {A : Type ℓ} {B : Type κ} {C : Type ι} (m : Result A) (f : A → Result B) (g : B → Result C)
    → (m >>= f >>= g) ≡ (m >>= λ a. f a >>= g)
>>=-assoc (err failure) f g = refl
>>=-assoc (ok value) f g = refl

pub enforce-eq-ok : (b : Bool) {u : Unit {0}} → enforce b ≡ ok u → b ≡ true
enforce-eq-ok true h = refl
enforce-eq-ok false h = cc

pub at_total {ℓ} : {A : Type ℓ} (xs : List A) (i : ℕ) → i < length xs → (a : A) × (at xs i ≡ ok a)
at_total [] i h = absurd (omega arith)
at_total (x ∷ xs) zero h = (x, refl)
at_total (x ∷ xs) (suc i) h = at_total xs i (omega arith)

pub at-lt-length {ℓ} : {A : Type ℓ} (xs : List A) (i : ℕ) {a : A} → at xs i ≡ ok a → i < length xs
at-lt-length [] i h = cc
at-lt-length (x ∷ xs) zero h = omega arith
at-lt-length (x ∷ xs) (suc i) h = omega (arith, at-lt-length xs i h)

pub rem_pos : (a n : ℕ) → 0 < n → rem a n ≡ ok (a % n)
rem_pos a zero h = absurd (omega arith)
rem_pos a (suc n) h = refl

-- The call throws, or ends in a value that satisfies `P`; it never runs into undefined behaviour.
abbrev pub ThrowsOr {ℓ κ} : {A : Type ℓ} → Result A → (A → Type κ) → Type (ℓ ⊔ κ)
ThrowsOr r P = (r ≡ err thrown) ⊎ Returns r P
