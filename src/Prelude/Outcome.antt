-- ===== src/Prelude/Outcome.antt =====
-- What a C++ call ends in: a value, an exception, or undefined behaviour.
use mathlib.Core.Path.{◌≡◌, refl}
use mathlib.Core.Bool.{Bool, true, false}
use mathlib.Core.Option.{Option, none, some}

-- The exceptions that the modelled code throws, and those of the libraries under it.
pub data Error : Type 0 where
  invalid_argument runtime_error out_of_range compile_error bad_any_cast : Error

-- `undefined` is C++ undefined behaviour, such as an access past the end of a vector.
pub data Result {ℓ} (A : Type ℓ) : Type ℓ where
  ok : A → Result A
  throws : Error → Result A
  undefined : Result A

infixl 5 ◌>>=◌ ◌>>◌
-- `v[i]` on a vector: an index out of range is undefined.
abbrev pub or_undefined {ℓ} : {A : Type ℓ} → Option A → Result A
or_undefined none = undefined
or_undefined (some a) = ok a

-- Only a value goes on.
abbrev pub ◌>>=◌ {ℓ κ} : {T : Type ℓ} {U : Type κ} → Result T → (T → Result U) → Result U
undefined >>= next = undefined
throws error >>= next = throws error
ok value >>= next = next value

-- `if (!condition) throw error;`
abbrev pub guard : Bool → Error → Result (Unit {0})
guard condition error = elim condition [ false ↦ throws error | true ↦ ok tt ]

abbrev pub ◌>>◌ {ℓ} : {U : Type ℓ} → Result (Unit {0}) → Result U → Result U
first >> next = first >>= λ done. next

pub or_undefined-eq-ok {ℓ} :
    {A : Type ℓ} (o : Option A) {a : A} → or_undefined o ≡ ok a → o ≡ some a
or_undefined-eq-ok none h = cc
or_undefined-eq-ok (some b) h = cc

-- A bind that succeeds has a first half that succeeds.
pub >>=-eq-ok {ℓ κ} :
    {T : Type ℓ} {U : Type κ} (first : Result T) (next : T → Result U) {u : U}
    → (first >>= next) ≡ ok u
    → (t : T) × (first ≡ ok t) × (next t ≡ ok u)
>>=-eq-ok undefined next e = cc
>>=-eq-ok (throws x) next e = cc
>>=-eq-ok (ok t) next e = (t, refl, e)

pub ok-injective {ℓ} : {A : Type ℓ} {a b : A} → ok a ≡ ok b → a ≡ b
ok-injective h = cc

-- The call is defined: it throws, or it returns a value with the property.
pub data Ensures {A : Type 0} (P : A → Type 0) : Result A → Type 0 where
  returns : {a : A} → P a → Ensures P (ok a)
  raises : {e : Error} → Ensures P (throws e)

-- One call after the other.
pub Ensures-bind :
    {A B : Type 0} {P : A → Type 0} {Q : B → Type 0} {m : Result A} {f : A → Result B}
    → Ensures P m
    → ((a : A) → P a → Ensures Q (f a))
    → Ensures Q (m >>= f)
Ensures-bind (returns p) next = next _ p
Ensures-bind raises next = raises

pub Ensures-imp :
    {A : Type 0} {P Q : A → Type 0} {m : Result A}
    → Ensures P m
    → ((a : A) → P a → Q a)
    → Ensures Q m
Ensures-imp (returns p) f = returns (f _ p)
Ensures-imp raises f = raises

-- Two calls end alike: in related values, in the same exception, or both undefined.
pub data Alike {A B : Type 0} (P : A → B → Type 0) : Result A → Result B → Type 0 where
  values : {a : A} {b : B} → P a b → Alike P (ok a) (ok b)
  errors : {e : Error} → Alike P (throws e) (throws e)
  nothing : Alike P undefined undefined

pub Alike-bind :
    {A B C D : Type 0} {P : A → B → Type 0} {Q : C → D → Type 0} {m : Result A} {r : Result B}
    {f : A → Result C} {h : B → Result D}
    → Alike P m r
    → ((a : A) (b : B) → P a b → Alike Q (f a) (h b))
    → Alike Q (m >>= f) (r >>= h)
Alike-bind (values p) next = next _ _ p
Alike-bind errors next = errors
Alike-bind nothing next = nothing

pub Alike-self : {A : Type 0} (m : Result A) → Alike (λ a b. a ≡ b) m m
Alike-self (ok a) = values refl
Alike-self (throws e) = errors
Alike-self undefined = nothing
