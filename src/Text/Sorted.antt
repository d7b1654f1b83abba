-- ===== src/Text/Sorted.antt =====
-- What sorting and removing duplicates gives: a strictly ascending list of the same texts.
use wasi_http_middleware.Prelude.{
  suc, ◌≤◌, Bool, true, false, ◌&&◌, ◌||◌, List, [], ◌∷◌, ◌≡◌, ◌≢◌, inl, inr, refl, ap, ◌∙◌, arith,
  Bytes, contains, ◌=b◌, =b_iff, =b_ne, Bool-cases, all, length, is_empty,
}
use wasi_http_middleware.Text.Order.{le_text, insert_text, sort, dedup_from, dedup}

pub le_text_refl : (a : Bytes) → le_text a a ≡ true
unfolding le_text
le_text_refl [] = refl
le_text_refl (x ∷ a) = ground (arith, le_text_refl a)

le_text_total : (a b : Bytes) → le_text a b ≡ false → le_text b a ≡ true
unfolding le_text
le_text_total [] b h = cc
le_text_total (x ∷ a) [] h = refl
le_text_total (x ∷ a) (y ∷ b) h = ground (arith, le_text_total a b)

le_text_antisymm : (a b : Bytes) → le_text a b ≡ true → le_text b a ≡ true → a ≡ b
unfolding le_text
le_text_antisymm [] [] h k = refl
le_text_antisymm [] (y ∷ b) h k = cc
le_text_antisymm (x ∷ a) [] h k = cc
le_text_antisymm (x ∷ a) (y ∷ b) h k = ground (arith, le_text_antisymm a b)

-- `x` may stand in front of the list.
abbrev pub Below : Bytes → List Bytes → Type 0
Below x [] = Unit
Below x (y ∷ ys) = le_text x y ≡ true

abbrev pub IsSorted : List Bytes → Type 0
IsSorted [] = Unit
IsSorted (x ∷ xs) = Below x xs × IsSorted xs

-- Ascending, and no text twice.
abbrev pub StrictlyBelow : Bytes → List Bytes → Type 0
StrictlyBelow x [] = Unit
StrictlyBelow x (y ∷ ys) = (le_text x y ≡ true) × (x ≢ y)

abbrev pub IsCanonical : List Bytes → Type 0
IsCanonical [] = Unit
IsCanonical (x ∷ xs) = StrictlyBelow x xs × IsCanonical xs

insert_text-Below :
    (a x : Bytes) (xs : List Bytes) → le_text x a ≡ true → Below x xs → Below x (insert_text a xs)
unfolding insert_text
insert_text-Below a x [] h k = h
insert_text-Below a x (y ∷ xs) h k = ground arith

insert_text-IsSorted : (a : Bytes) (xs : List Bytes) → IsSorted xs → IsSorted (insert_text a xs)
unfolding insert_text
insert_text-IsSorted a [] s = (tt, tt)
insert_text-IsSorted a (x ∷ xs) (b, s) = elim (Bool-cases (le_text a x)) [
  | inl le ↦ rw le (le, (b, s))
  | inr gt ↦ rw gt (insert_text-Below a x xs (le_text_total a x gt) b, insert_text-IsSorted a xs s)
]

sort-IsSorted : (xs : List Bytes) → IsSorted (sort xs)
unfolding sort
sort-IsSorted [] = tt
sort-IsSorted (x ∷ xs) = insert_text-IsSorted x (sort xs) (sort-IsSorted xs)

StrictlyBelow-dedup_from :
    (x a : Bytes) (xs : List Bytes) → le_text x a ≡ true → x ≢ a → StrictlyBelow x (dedup_from a xs)
unfolding dedup_from
StrictlyBelow-dedup_from x a [] h k = (h, k)
StrictlyBelow-dedup_from x a (y ∷ xs) h k = elim (Bool-cases (a =b y)) [
  | inl same ↦ rw same (StrictlyBelow-dedup_from x a xs h k)
  | inr other ↦ rw other (h, k)
]

dedup_from-IsCanonical :
    (a : Bytes) (xs : List Bytes) → Below a xs → IsSorted xs → IsCanonical (dedup_from a xs)
unfolding dedup_from
dedup_from-IsCanonical a [] b s = (tt, tt)
dedup_from-IsCanonical a (x ∷ []) b s = elim (Bool-cases (a =b x)) [
  | inl same ↦ rw same (tt, tt)
  | inr other ↦ rw other ((b, λ e. ground (arith, =b_iff a x)), (tt, tt))
]
dedup_from-IsCanonical a (x ∷ y ∷ xs) b (bx, s) = elim (Bool-cases (a =b x)) [
  | inl same ↦
      let e : a ≡ x = (=b_iff a x).0 same in rw same (dedup_from-IsCanonical a (y ∷ xs) (rw e bx) s)
  | inr other ↦ rw other (
    StrictlyBelow-dedup_from a x (y ∷ xs) b (λ e. ground (arith, =b_iff a x)),
    dedup_from-IsCanonical x (y ∷ xs) bx s,
  )
]

pub dedup-sort-IsCanonical : (xs : List Bytes) → IsCanonical (dedup (sort xs))
dedup-sort-IsCanonical xs = go (sort xs) (sort-IsSorted xs)
  where
    go : (ys : List Bytes) → IsSorted ys → IsCanonical (dedup ys)
    go [] s = unfold dedup in tt
    go (y ∷ ys) s = unfold dedup in dedup_from-IsCanonical y ys s.0 s.1

-- The same texts are in the list.
contains-insert_text :
    (a t : Bytes) (xs : List Bytes) → contains (insert_text a xs) t ≡ (a =b t || contains xs t)
unfolding insert_text
contains-insert_text a t [] = refl
contains-insert_text a t (x ∷ xs) = ground (arith, contains-insert_text a t xs)

contains-sort : (xs : List Bytes) (t : Bytes) → contains (sort xs) t ≡ contains xs t
unfolding sort
contains-sort [] t = refl
contains-sort (x ∷ xs) t = ground (arith, contains-insert_text x t (sort xs), contains-sort xs t)

contains-dedup_from :
    (a t : Bytes) (xs : List Bytes) → contains (dedup_from a xs) t ≡ (a =b t || contains xs t)
unfolding dedup_from
contains-dedup_from a t [] = refl
contains-dedup_from a t (x ∷ xs) =
    ground (arith, =b_iff a x, contains-dedup_from a t xs, contains-dedup_from x t xs)

contains-dedup : (xs : List Bytes) (t : Bytes) → contains (dedup xs) t ≡ contains xs t
unfolding dedup
contains-dedup [] t = refl
contains-dedup (x ∷ xs) t = contains-dedup_from x t xs

pub contains-dedup-sort :
    (xs : List Bytes) (t : Bytes) → contains (dedup (sort xs)) t ≡ contains xs t
contains-dedup-sort xs t = contains-dedup (sort xs) t ∙ contains-sort xs t

-- A canonical list is left as it is.
insert_text_of_StrictlyBelow :
    (x : Bytes) (xs : List Bytes) → StrictlyBelow x xs → insert_text x xs ≡ x ∷ xs
unfolding insert_text
insert_text_of_StrictlyBelow x [] h = refl
insert_text_of_StrictlyBelow x (y ∷ xs) h = rw h.0

sort_of_IsCanonical : (xs : List Bytes) → IsCanonical xs → sort xs ≡ xs
unfolding sort
sort_of_IsCanonical [] h = refl
sort_of_IsCanonical (x ∷ xs) (b, h) =
    ap (insert_text x) (sort_of_IsCanonical xs h) ∙ insert_text_of_StrictlyBelow x xs b

dedup_from_of_IsCanonical :
    (x : Bytes) (xs : List Bytes) → StrictlyBelow x xs → IsCanonical xs → dedup_from x xs ≡ x ∷ xs
unfolding dedup_from
dedup_from_of_IsCanonical x [] b h = refl
dedup_from_of_IsCanonical x (y ∷ xs) b (c, h) =
    rw (=b_ne x y b.1) (ap (◌∷◌ x) (dedup_from_of_IsCanonical y xs c h))

pub dedup-sort_of_IsCanonical : (xs : List Bytes) → IsCanonical xs → dedup (sort xs) ≡ xs
unfolding dedup
dedup-sort_of_IsCanonical [] h = unfold sort in refl
dedup-sort_of_IsCanonical (x ∷ xs) h =
    ap dedup (sort_of_IsCanonical (x ∷ xs) h) ∙ dedup_from_of_IsCanonical x xs h.0 h.1

-- Sorting and removing duplicates keeps a property of every text, and does not lengthen the list.
module _ (p : Bytes → Bool) where
  all-insert_text : (a : Bytes) (xs : List Bytes) → all p (insert_text a xs) ≡ (p a && all p xs)
  unfolding insert_text
  all-insert_text a [] = refl
  all-insert_text a (x ∷ xs) = ground (arith, all-insert_text a xs)

  all-sort : (xs : List Bytes) → all p (sort xs) ≡ all p xs
  unfolding sort
  all-sort [] = refl
  all-sort (x ∷ xs) = ground (arith, all-insert_text x (sort xs), all-sort xs)

  all-dedup_from :
      (a : Bytes) (xs : List Bytes) → p a ≡ true → all p xs ≡ true → all p (dedup_from a xs) ≡ true
  unfolding dedup_from
  all-dedup_from a [] h k = ground arith
  all-dedup_from a (x ∷ xs) h k = ground (arith, all-dedup_from a xs, all-dedup_from x xs)

  pub all-dedup-sort : (xs : List Bytes) → all p xs ≡ true → all p (dedup (sort xs)) ≡ true
  all-dedup-sort xs h = go (sort xs) (all-sort xs ∙ h)
    where
      go : (ys : List Bytes) → all p ys ≡ true → all p (dedup ys) ≡ true
      go [] k = unfold dedup in refl
      go (y ∷ ys) k = unfold dedup in ground (arith, all-dedup_from y ys)

length-insert_text : (a : Bytes) (xs : List Bytes) → length (insert_text a xs) ≡ suc (length xs)
unfolding insert_text
length-insert_text a [] = refl
length-insert_text a (x ∷ xs) = ground (arith, length-insert_text a xs)

length-sort : (xs : List Bytes) → length (sort xs) ≡ length xs
unfolding sort
length-sort [] = refl
length-sort (x ∷ xs) = length-insert_text x (sort xs) ∙ ap suc (length-sort xs)

length-dedup_from : (a : Bytes) (xs : List Bytes) → length (dedup_from a xs) ≤ suc (length xs)
unfolding dedup_from
length-dedup_from a [] = omega arith
length-dedup_from a (x ∷ xs) = ground (arith, length-dedup_from a xs, length-dedup_from x xs)

length-dedup : (xs : List Bytes) → length (dedup xs) ≤ length xs
unfolding dedup
length-dedup [] = omega arith
length-dedup (x ∷ xs) = length-dedup_from x xs

pub length-dedup-sort : (xs : List Bytes) → length (dedup (sort xs)) ≤ length xs
length-dedup-sort xs = omega (arith, length-dedup (sort xs), length-sort xs)

is_empty-insert_text : (a : Bytes) (xs : List Bytes) → is_empty (insert_text a xs) ≡ false
unfolding insert_text
is_empty-insert_text a [] = refl
is_empty-insert_text a (x ∷ xs) = ground arith

is_empty-dedup_from : (a : Bytes) (xs : List Bytes) → is_empty (dedup_from a xs) ≡ false
unfolding dedup_from
is_empty-dedup_from a [] = refl
is_empty-dedup_from a (x ∷ xs) = ground (arith, is_empty-dedup_from a xs)

is_empty-dedup : (xs : List Bytes) → is_empty (dedup xs) ≡ is_empty xs
unfolding dedup
is_empty-dedup [] = refl
is_empty-dedup (x ∷ xs) = is_empty-dedup_from x xs

pub is_empty-dedup-sort : (xs : List Bytes) → is_empty (dedup (sort xs)) ≡ is_empty xs
unfolding sort
is_empty-dedup-sort [] = is_empty-dedup []
is_empty-dedup-sort (x ∷ xs) = is_empty-dedup _ ∙ is_empty-insert_text x (sort xs)
