-- ===== src/Base/Exceptions.antt =====
-- Exceptions as values, the bytes of files and packets, and code that works along a buffer.
use mathlib.Core.Path.{◌≡◌, refl}
use mathlib.Core.Bool.{Bool, true, false}
use mathlib.Core.List.{List}
use Prim.Native.Nat.{ℕ}

-- A byte or a character is its code; a `std::string`, a `RawData` and a span are lists of them.
abbrev pub Bytes : Type 0
Bytes = List ℕ

-- The exceptions that the code throws itself, those that come out of the helper library,
-- `std::out_of_range`, and `boost::system::system_error`.
pub data Error : Type 0 where
  arinc_615a_exception : Error
  invalid_find_packet : Error
  helper_exception : Error
  out_of_range : Error
  system_error : Error

pub data Result {ℓ} (A : Type ℓ) : Type ℓ where
  ok : A → Result A
  err : Error → Result A

-- Code that works along a buffer: `rawData` for an encoder, which grows, and `remainingData` for a
-- decoder, which shrinks (`std::tie( remainingData, x ) = f( remainingData )`).
abbrev pub Coder : Type 0 → Type 0
Coder A = Bytes → Result (Bytes × A)

-- What follows a step: an exception ends the block.
abbrev pub continue {ℓ κ} : {A : Type ℓ} {B : Type κ} → Result A → (A → Result B) → Result B
continue (ok a) f = f a
continue (err e) f = err e

infixl 5 ◌>>=◌ ◌>>◌
abbrev pub ◌>>=◌ : {A B : Type 0} → Coder A → (A → Coder B) → Coder B
◌>>=◌ m f buffer = continue (m buffer) (λ p. f p.1 p.0)

abbrev pub ◌>>◌ : {B : Type 0} → Coder (Unit {0}) → Coder B → Coder B
m >> k = m >>= λ _. k

abbrev pub pure : {A : Type 0} → A → Coder A
pure a buffer = ok (buffer, a)

abbrev pub lift : {A : Type 0} → Result A → Coder A
lift r buffer = continue r (λ a. ok (buffer, a))

-- What a `throw` under a condition leaves: the block goes on if the test holds.
abbrev pub check : Bool → Error → Coder (Unit {0})
check true e buffer = ok (buffer, tt)
check false e buffer = err e

-- The value and the buffer that a whole block leaves.
abbrev pub value_of : {A : Type 0} → Result (Bytes × A) → Result A
value_of r = continue r (λ p. ok p.1)

abbrev pub buffer_of : {A : Type 0} → Result (Bytes × A) → Result Bytes
buffer_of r = continue r (λ p. ok p.0)

pub continue-eq-ok {ℓ κ} :
    {A : Type ℓ} {B : Type κ} (r : Result A) (f : A → Result B) {b : B}
    → continue r f ≡ ok b
    → (a : A) × (r ≡ ok a) × (f a ≡ ok b)
continue-eq-ok (ok a) f h = (a, refl, h)
continue-eq-ok (err e) f h = cc

-- A block that ends well: what its first step did.
pub >>=-eq-ok :
    {A B : Type 0} (m : Coder A) (f : A → Coder B) (buffer : Bytes) {r : Bytes × B}
    → (m >>= f) buffer ≡ ok r
    → (p : Bytes × A) × (m buffer ≡ ok p) × (f p.1 p.0 ≡ ok r)
>>=-eq-ok m f buffer h = continue-eq-ok (m buffer) (λ p. f p.1 p.0) h

pub check->>-eq-ok :
    {B : Type 0} (test : Bool) (e : Error) (k : Coder B) (buffer : Bytes) {r : Bytes × B}
    → (check test e >> k) buffer ≡ ok r
    → (test ≡ true) × (k buffer ≡ ok r)
check->>-eq-ok true e k buffer h = (refl, h)
check->>-eq-ok false e k buffer h = cc

pub lift-eq-ok :
    {A : Type 0} (r : Result A) (buffer : Bytes) {p : Bytes × A}
    → lift r buffer ≡ ok p
    → (buffer ≡ p.0) × (r ≡ ok p.1)
lift-eq-ok (ok a) buffer h = (cc, cc)
lift-eq-ok (err e) buffer h = cc

pub value_of-eq-ok :
    {A : Type 0} (r : Result (Bytes × A)) {a : A}
    → value_of r ≡ ok a
    → (rest : Bytes) × (r ≡ ok (rest, a))
value_of-eq-ok (ok (rest, b)) h = (rest, cc)
value_of-eq-ok (err e) h = cc
