-- ===== src/Prelude/Outcome.antt =====
-- include/kvstore/status.hpp and include/kvstore/result.hpp: errors are values. A status is its
-- code; its message is text for people, and nothing in the engine reads it back.
mod Code
pub use Code.{StatusCode, not_found, io_error, corruption, invalid_argument}
use mathlib.Core.Path.{◌≡◌, refl, ap, ◌∙◌}
use mathlib.Core.Logic.{◌⊎◌, inl, inr}
use mathlib.Core.Bool.{Bool, true, false}

-- `Result<T>`: a value, or the status that says why there is none.
pub data Result {ℓ} (A : Type ℓ) : Type ℓ where
  ok : A → Result A
  err : StatusCode → Result A

-- A `Status` is a result with nothing in it, and `{}` is Ok.
abbrev pub Status : Type 0
Status = Result (Unit {0})

-- What follows a call: it is not reached when the call has failed.
infixl 5 ◌>>=◌
abbrev pub ◌>>=◌ {ℓ κ} : {A : Type ℓ} {B : Type κ} → Result A → (A → Result B) → Result B
err code >>= next = err code
ok value >>= next = next value

infixl 5 ◌>>◌
abbrev pub ◌>>◌ {ℓ} : {B : Type ℓ} → Status → Result B → Result B
first >> second = first >>= λ done. second

-- `if (bad) return Status::...;`
abbrev pub reject_if : Bool → StatusCode → Status
reject_if true e = err e
reject_if false e = ok tt

-- A bind whose first part has returned goes on with its value.
pub bind-ok {ℓ κ} :
    {A : Type ℓ} {B : Type κ} (m : Result A) (f : A → Result B) {a : A} {r : Result B}
    → m ≡ ok a
    → f a ≡ r
    → (m >>= f) ≡ r
bind-ok m f e h = ap (λ m. m >>= f) e ∙ h

pub bind-err {ℓ κ} :
    {A : Type ℓ} {B : Type κ} (m : Result A) (f : A → Result B) {e : StatusCode}
    → m ≡ err e
    → (m >>= f) ≡ err e
bind-err m f h = ap (λ m. m >>= f) h

pub reject-pass {ℓ} :
    {B : Type ℓ} (b : Bool) (e : StatusCode) (k : Result B) {r : Result B}
    → b ≡ false
    → k ≡ r
    → (reject_if b e >> k) ≡ r
reject-pass b e k p h = ap (λ b. reject_if b e >> k) p ∙ h

pub reject-stop {ℓ} :
    {B : Type ℓ} (b : Bool) (e : StatusCode) (k : Result B)
    → b ≡ true
    → (reject_if b e >> k) ≡ err e
reject-stop b e k p = ap (λ b. reject_if b e >> k) p

pub Result-cases {ℓ} :
    {A : Type ℓ} (r : Result A) → ((a : A) × (r ≡ ok a)) ⊎ ((e : StatusCode) × (r ≡ err e))
Result-cases (ok a) = inl (a, refl)
Result-cases (err e) = inr (e, refl)
