-- ===== src/Prelude/Lists.antt =====
-- Lists measured by native numbers, with Boolean tests, and byte strings.
use Prim.Native.Char.{code}
use Prim.Native.String.{String}
use Prim.Native.Nat.{ℕ, suc, ◌+◌}
use mathlib.Core.Path.{◌≡◌, refl, ap}
use mathlib.Core.Logic.{◌↔◌, ◌≢◌}
use mathlib.Core.Bool.{Bool, true, false, not, ◌&&◌, ◌||◌}
use mathlib.Core.List.{List, [], ◌∷◌, ◌++◌, map}
use native.Mathlib.Omega.{arith}
use wasi_http_middleware.Prelude.Tests.{◌==◌, if◌then◌else◌}

-- `Vec<u8>`, and the bytes of a `str`.
abbrev pub Bytes : Type 0
Bytes = List ℕ

-- The bytes of an ASCII literal.
abbrev pub codes : String → Bytes
codes String.[] = []
codes (String.◌∷◌ c s) = code c ∷ codes s

-- Equality of two byte strings.
infix 50 ◌=b◌
unfoldable pub ◌=b◌ : Bytes → Bytes → Bool
[] =b [] = true
(x ∷ a) =b (y ∷ b) = x == y && a =b b
_ =b _ = false

pub =b_iff : (a b : Bytes) → ((a =b b) ≡ true) ↔ (a ≡ b)
unfolding ◌=b◌
=b_iff (x ∷ a) (y ∷ b) = ground (arith, =b_iff a b)
=b_iff [] [] = ground arith
=b_iff [] (y ∷ b) = ground arith
=b_iff (x ∷ a) [] = ground arith

pub =b_refl : (a : Bytes) → (a =b a) ≡ true
=b_refl a = (=b_iff a a).1 refl

pub =b_comm : (a b : Bytes) → (a =b b) ≡ (b =b a)
unfolding ◌=b◌
=b_comm (x ∷ a) (y ∷ b) = ground (arith, =b_comm a b)
=b_comm [] [] = refl
=b_comm [] (y ∷ b) = refl
=b_comm (x ∷ a) [] = refl

pub =b_ne : (a b : Bytes) → a ≢ b → (a =b b) ≡ false
=b_ne a b h = ground (arith, =b_iff a b)

module _ {ℓ} {A : Type ℓ} where
  abbrev pub length : List A → ℕ
  length [] = 0
  length (x ∷ xs) = suc (length xs)

  abbrev pub is_empty : List A → Bool
  is_empty [] = true
  is_empty (x ∷ xs) = false

  abbrev pub all : (A → Bool) → List A → Bool
  all p [] = true
  all p (x ∷ xs) = p x && all p xs

  abbrev pub any : (A → Bool) → List A → Bool
  any p [] = false
  any p (x ∷ xs) = p x || any p xs

  -- `Iterator::filter` and `Vec::retain`.
  abbrev pub filter : (A → Bool) → List A → List A
  filter p [] = []
  filter p (x ∷ xs) = if p x then x ∷ filter p xs else filter p xs

  pub length-append : (xs ys : List A) → length (xs ++ ys) ≡ length xs + length ys
  length-append [] ys = omega arith
  length-append (x ∷ xs) ys = omega (arith, length-append xs ys)

  pub filter-append :
      (p : A → Bool) (xs ys : List A) → filter p (xs ++ ys) ≡ filter p xs ++ filter p ys
  filter-append p [] ys = refl
  filter-append p (x ∷ xs) ys = ground (arith, filter-append p xs ys)

  pub all-append : (p : A → Bool) (xs ys : List A) → all p (xs ++ ys) ≡ (all p xs && all p ys)
  all-append p [] ys = refl
  all-append p (x ∷ xs) ys = ground (arith, all-append p xs ys)

  pub all-filter : (p : A → Bool) (xs : List A) → all p (filter p xs) ≡ true
  all-filter p [] = refl
  all-filter p (x ∷ xs) = ground (arith, all-filter p xs)

  pub all-of_imp :
      (p q : A → Bool) (xs : List A)
      → ((x : A) → p x ≡ true → q x ≡ true)
      → all p xs ≡ true
      → all q xs ≡ true
  all-of_imp p q [] f h = refl
  all-of_imp p q (x ∷ xs) f h = ground (arith, f x, all-of_imp p q xs f)

  -- A predicate of every element.
  abbrev pub All {κ} : (A → Type κ) → List A → Type κ
  All P [] = Unit
  All P (x ∷ xs) = P x × All P xs

abbrev pub contains : List Bytes → Bytes → Bool
contains [] a = false
contains (x ∷ xs) a = x =b a || contains xs a

module _ {ℓ κ} {A : Type ℓ} {B : Type κ} where
  pub length-map : (f : A → B) (xs : List A) → length (map f xs) ≡ length xs
  length-map f [] = refl
  length-map f (x ∷ xs) = ap suc (length-map f xs)

pub all_of_not-any {ℓ} :
    {A : Type ℓ} (p : A → Bool) (xs : List A) → any (λ x. not (p x)) xs ≡ false → all p xs ≡ true
all_of_not-any p [] h = refl
all_of_not-any p (x ∷ xs) h = ground (arith, all_of_not-any p xs)
