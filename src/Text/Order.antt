-- ===== src/Text/Order.antt =====
-- The order of `str`, which is that of the bytes, with `sort_unstable` and `dedup`.
use wasi_http_middleware.Prelude.{
  Bool, true, false, ◌&&◌, ◌||◌, List, [], ◌∷◌, ltb, ◌==◌, if◌then◌else◌, Bytes, ◌=b◌,
}

-- `a <= b`
unfoldable pub le_text : Bytes → Bytes → Bool
le_text [] b = true
le_text (x ∷ a) [] = false
le_text (x ∷ a) (y ∷ b) = ltb x y || (x == y && le_text a b)

-- A sorted copy: equal texts are indistinguishable, so any sorting algorithm returns this list.
unfoldable pub insert_text : Bytes → List Bytes → List Bytes
unfolding le_text
insert_text a [] = a ∷ []
insert_text a (x ∷ xs) = if le_text a x then a ∷ x ∷ xs else x ∷ insert_text a xs

-- `sort_unstable`
unfoldable pub sort : List Bytes → List Bytes
unfolding insert_text
sort [] = []
sort (x ∷ xs) = insert_text x (sort xs)

-- `dedup`: of each run of equal texts the first is kept.
unfoldable pub dedup_from : Bytes → List Bytes → List Bytes
unfolding ◌=b◌
dedup_from a [] = a ∷ []
dedup_from a (x ∷ xs) = if a =b x then dedup_from a xs else a ∷ dedup_from x xs

unfoldable pub dedup : List Bytes → List Bytes
unfolding dedup_from
dedup [] = []
dedup (x ∷ xs) = dedup_from x xs
