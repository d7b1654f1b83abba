-- ===== src/Prelude/Outcome.antt =====
-- `Result<A, E>`, with `?` as bind, and `Option` with the same notation.
use mathlib.Core.Path.{◌≡◌, refl, ap}
use mathlib.Core.Logic.{◌⊎◌, inl, inr}
use mathlib.Core.Bool.{Bool, true, false}
use mathlib.Core.List.{List, [], ◌∷◌}
use mathlib.Core.Option.{Option, none, some}
use wasi_http_middleware.Prelude.Tests.{if◌then◌else◌}

pub data Result {ℓ κ} (E : Type ℓ) (A : Type κ) : Type (ℓ ⊔ κ) where
  ok : A → Result E A
  err : E → Result E A

infixl 5 ◌>>=◌ ◌>>◌
abbrev pub ◌>>=◌ {ℓ κ μ} :
    {E : Type ℓ} {A : Type κ} {B : Type μ} → Result E A → (A → Result E B) → Result E B
err e >>= next = err e
ok a >>= next = next a

-- An early `return Err(e)` unless the test holds.
abbrev pub guard {ℓ} : {E : Type ℓ} → Bool → E → Result E (Unit {0})
guard false error = err error
guard true error = ok tt

abbrev pub ok_or {ℓ κ} : {E : Type ℓ} {A : Type κ} → Option A → E → Result E A
ok_or none e = err e
ok_or (some a) e = ok a

abbrev pub map_err {ℓ κ μ} : {E : Type ℓ} {F : Type κ} {A : Type μ} → Result E A → F → Result F A
map_err (ok a) f = ok a
map_err (err e) f = err f

abbrev pub ◌>>◌ {ℓ κ} : {E : Type ℓ} {B : Type κ} → Result E (Unit {0}) → Result E B → Result E B
first >> second = first >>= λ _. second

-- `Result::ok`.
abbrev pub to_option {ℓ κ} : {E : Type ℓ} {A : Type κ} → Result E A → Option A
to_option (ok a) = some a
to_option (err e) = none

pub >>=-eq-ok {ℓ κ μ} :
    {E : Type ℓ} {A : Type κ} {B : Type μ} (m : Result E A) (f : A → Result E B) {b : B}
    → (m >>= f) ≡ ok b
    → (a : A) × (m ≡ ok a) × (f a ≡ ok b)
>>=-eq-ok (err e) f h = cc
>>=-eq-ok (ok a) f h = (a, refl, h)

pub guard-eq-ok {ℓ} : {E : Type ℓ} (b : Bool) (e : E) {u : Unit {0}} → guard b e ≡ ok u → b ≡ true
guard-eq-ok true e h = refl
guard-eq-ok false e h = cc

-- `map(f).collect::<Result<Vec<_>, _>>()`: the first error ends it.
unfoldable pub collect {ℓ κ μ} :
    {E : Type ℓ} {A : Type κ} {B : Type μ} → (A → Result E B) → List A → Result E (List B)
collect f [] = ok []
collect f (x ∷ xs) = do y ← f x; ys ← collect f xs; ok (y ∷ ys)

-- What a success says of the test before it.
module _ {ℓ κ} {E : Type ℓ} {A : Type κ} where
  pub if_ok-eq-ok :
      (b : Bool) (e : E) {a u : A} → (if b then ok a else err e) ≡ ok u → (b ≡ true) × (a ≡ u)
  if_ok-eq-ok true e h = (refl, cc)
  if_ok-eq-ok false e h = cc

  pub if_err-eq-ok :
      (b : Bool) (e : E) {m : Result E A} {u : A}
      → (if b then err e else m) ≡ ok u
      → (b ≡ false) × (m ≡ ok u)
  if_err-eq-ok true e h = cc
  if_err-eq-ok false e h = (refl, h)

  -- A test that returns early, and the rest behind it.
  pub if_ok_else-eq-ok :
      (b : Bool) (x : A) {m : Result E A} {u : A}
      → (if b then ok x else m) ≡ ok u
      → ((b ≡ true) × (u ≡ x)) ⊎ ((b ≡ false) × (m ≡ ok u))
  if_ok_else-eq-ok true x h = inl (refl, cc)
  if_ok_else-eq-ok false x h = inr (refl, h)

pub to_option-eq-some {ℓ κ} :
    {E : Type ℓ} {A : Type κ} (m : Result E A) {a : A} → to_option m ≡ some a → m ≡ ok a
to_option-eq-some (ok a) h = cc
to_option-eq-some (err e) h = cc

pub ok-injective {ℓ κ} :
    {E : Type ℓ} {A : Type κ} {a b : A} → ◌≡◌ {A = Result E A} (ok a) (ok b) → a ≡ b
ok-injective h = cc

pub ok_or-eq-ok {ℓ κ} :
    {E : Type ℓ} {A : Type κ} (o : Option A) (e : E) {a : A} → ok_or o e ≡ ok a → o ≡ some a
ok_or-eq-ok none e h = cc
ok_or-eq-ok (some a) e h = cc

-- A step of a chain that is known to succeed.
pub bind_of_ok {ℓ κ μ} :
    {E : Type ℓ} {A : Type κ} {B : Type μ} {m : Result E A} {a : A} (f : A → Result E B)
    → m ≡ ok a
    → (m >>= f) ≡ f a
bind_of_ok f h = ap (λ m. m >>= f) h

pub ok_or_of_some {ℓ κ} :
    {E : Type ℓ} {A : Type κ} {o : Option A} {a : A} (e : E) → o ≡ some a → ok_or o e ≡ ok a
ok_or_of_some e h = ap (λ o. ok_or o e) h

pub guard_of_true {ℓ} : {E : Type ℓ} {b : Bool} (e : E) → b ≡ true → guard b e ≡ ok tt
guard_of_true e h = ap (λ b. guard b e) h

pub map_err-eq-ok {ℓ κ μ} :
    {E : Type ℓ} {F : Type κ} {A : Type μ} (r : Result E A) (error : F) {a : A}
    → map_err r error ≡ ok a
    → r ≡ ok a
map_err-eq-ok (err e) error h = cc
map_err-eq-ok (ok a) error h = cc
