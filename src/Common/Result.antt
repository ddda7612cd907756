-- ===== src/Common/Result.antt =====
-- Go's error returns. An error is a sentinel of the storage package, a new message, or another
-- error with a message in front (`errors.Wrap`).
use Prim.Native.String.{String}
use mathlib.Core.Path.{◌≡◌, refl}
use mathlib.Core.Logic.{◌⊎◌, inl, inr, ◌≢◌}
use mathlib.Core.Bool.{Bool, true, false}
use mathlib.Core.Option.{Option, none, some}

infixl 5 ◌>>=◌ ◌>>◌ ◌>=>◌
pub data Error : Type 0 where
  not_found no_access newer_document_exists : Error
  message : String → Error
  wrapped : String → Error → Error

pub data Result {ℓ} (A : Type ℓ) : Type ℓ where
  ok : A → Result A
  err : Error → Result A

-- `if bad { return e }`
abbrev pub fail_if : Bool → Error → Result (Unit {0})
fail_if true e = err e
fail_if false e = ok tt

abbrev pub ◌>>=◌ {ℓ κ} : {A : Type ℓ} {B : Type κ} → Result A → (A → Result B) → Result B
err e >>= next = err e
ok a >>= next = next a

abbrev pub ◌>>◌ {ℓ} : {A : Type ℓ} → Result (Unit {0}) → Result A → Result A
check >> next = check >>= λ _. next

-- `if err != nil { return errors.Wrap(err, text) }`
abbrev pub wrap {ℓ} : {A : Type ℓ} → String → Result A → Result A
wrap text (ok a) = ok a
wrap text (err e) = err (wrapped text e)

-- `errors.Is(err, ErrNewerDocumentExists)`
abbrev pub is_newer_document : Error → Bool
is_newer_document newer_document_exists = true
is_newer_document (wrapped text e) = is_newer_document e
is_newer_document _ = false

pub >>=-eq-ok {ℓ κ} :
    {A : Type ℓ} {B : Type κ} (first : Result A) (next : A → Result B) {r : B}
    → (first >>= next) ≡ ok r
    → (x : A) × (first ≡ ok x) × (next x ≡ ok r)
>>=-eq-ok (err e) next same = cc
>>=-eq-ok (ok x) next same = (x, refl, same)

pub wrap-eq-ok {ℓ} :
    {A : Type ℓ} (text : String) (m : Result A) {a : A} → wrap text m ≡ ok a → m ≡ ok a
wrap-eq-ok text (ok a) h = h
wrap-eq-ok text (err e) h = cc

pub ok-injective {ℓ} : {A : Type ℓ} {a b : A} → ok a ≡ ok b → a ≡ b
ok-injective e = cc

pub Result-cases {ℓ} :
    {A : Type ℓ} (r : Result A) → ((a : A) × (r ≡ ok a)) ⊎ ((e : Error) × (r ≡ err e))
Result-cases (ok a) = inl (a, refl)
Result-cases (err e) = inr (e, refl)

pub ok≢err {ℓ} : {A : Type ℓ} {a : A} {e : Error} → ok a ≢ err e
ok≢err h = cc

-- The outcome of a run with fuel: `none` means that the fuel ran out.
abbrev pub Run : Type 0 → Type 0
Run A = Option (Result A)

abbrev pub ◌>=>◌ : {A B : Type 0} → Run A → (A → Run B) → Run B
none >=> next = none
some (err e) >=> next = some (err e)
some (ok a) >=> next = next a

pub some-injective : {A : Type 0} {a b : A} → some a ≡ some b → a ≡ b
some-injective e = cc

-- A run that has ended, with a result or an error.
abbrev pub Ended : {A : Type 0} → Run A → Type 0
Ended {A} r = (a : Result A) × (r ≡ some a)

pub >=>-Ended :
    {A B : Type 0} (r : Run A) (next : A → Run B)
    → Ended r
    → ((a : A) → r ≡ some (ok a) → Ended (next a))
    → Ended (r >=> next)
>=>-Ended none next (a, e) h = cc
>=>-Ended (some (ok a)) next ended h = h a refl
>=>-Ended (some (err e)) next ended h = (err e, refl)

pub some-Ended : {A : Type 0} (r : Result A) → Ended (some r)
some-Ended r = (r, refl)

pub >=>-eq-ok :
    {A B : Type 0} (r : Run A) (next : A → Run B) {b : B}
    → (r >=> next) ≡ some (ok b)
    → (a : A) × (r ≡ some (ok a)) × (next a ≡ some (ok b))
>=>-eq-ok none next e = cc
>=>-eq-ok (some (ok a)) next e = (a, refl, e)
>=>-eq-ok (some (err x)) next e = cc

pub some-ok-injective : {A : Type 0} {a b : A} → some (ok a) ≡ some (ok b) → a ≡ b
some-ok-injective e = cc

pub none≢some {ℓ} : {A : Type ℓ} {a : A} → none ≢ some a
none≢some h = cc
