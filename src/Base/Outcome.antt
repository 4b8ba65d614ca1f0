-- ===== src/Base/Outcome.antt =====
-- fail of main.go panics with a status and a message, which ServeHTTP turns into the response.
-- A function that may fail returns a Result; a handler that also writes returns its state too.
use Prim.Native.Nat.{ℕ}
use Prim.Native.String.{String}
use gitclub.Base.Text.{Str, bytes}
use mathlib.Core.Path.{◌≡◌, refl}
use mathlib.Core.Bool.{Bool, true, false}
use mathlib.Core.Option.{Option, none, some}

pub record ApiError : Type 0 where
  pub status : ℕ
  pub message : Str

pub data Result {ℓ} (A : Type ℓ) : Type ℓ where
  ok : A → Result A
  err : ApiError → Result A

-- The bytes of a message; shut, since only its spelling depends on it.
unfoldable pub text : String → Str
text m = bytes m

abbrev pub fail {ℓ} : {A : Type ℓ} → ℕ → String → Result A
fail status message = err (record { status = status; message = text message })

-- What follows a call runs only if the call does not panic.
module _ {ℓ κ} {A : Type ℓ} {B : Type κ} where
  infixl 5 ◌>>=◌
  abbrev pub ◌>>=◌ : (first : Result A) (next : A → Result B) → Result B
  err problem >>= next = err problem
  ok value >>= next = next value

  pub >>=-eq-ok :
      (first : Result A) (next : A → Result B) {b : B}
      → (first >>= next) ≡ ok b
      → (value : A) × (first ≡ ok value) × (next value ≡ ok b)
  >>=-eq-ok (err problem) next same = cc
  >>=-eq-ok (ok value) next same = (value, refl, same)

infixl 5 ◌>>◌
abbrev pub ◌>>◌ {κ} : {B : Type κ} (first : Result (Unit {0})) (next : Result B) → Result B
first >> next = first >>= λ _. next

-- if test { fail(status, message) }
abbrev pub fail_if : Bool → ℕ → String → Result (Unit {0})
fail_if true status message = fail status message
fail_if false status message = ok tt

abbrev pub or_fail {ℓ} : {A : Type ℓ} → Option A → ℕ → String → Result A
or_fail none status message = fail status message
or_fail (some a) status message = ok a

pub or_fail-eq-ok {ℓ} :
    {A : Type ℓ} (o : Option A) (status : ℕ) (message : String) {a : A}
    → or_fail o status message ≡ ok a
    → o ≡ some a
or_fail-eq-ok none status message h = cc
or_fail-eq-ok (some a) status message h = cc

pub fail_if-eq-ok :
    (b : Bool) (status : ℕ) (message : String) {x : Unit {0}}
    → fail_if b status message ≡ ok x
    → b ≡ false
fail_if-eq-ok true status message h = cc
fail_if-eq-ok false status message h = refl

-- A step that only checks.
abbrev pub Check : Type 0
Check = Result (Unit {0})
