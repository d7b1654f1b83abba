-- ===== src/Text/Cut.antt =====
-- What `split_once` and `split` cut off holds no separator.
use wasi_http_middleware.Prelude.{ℕ, true, false, [], ◌∷◌, ◌++◌, ◌≡◌, refl, arith, Bytes, all, not}
use wasi_http_middleware.Text.Pieces.{split_first, split_rest, contains_byte}

module _ (sep : ℕ) where
  pub split_first-lacks : (s : Bytes) → contains_byte sep (split_first sep s) ≡ false
  unfolding split_first
  split_first-lacks [] = refl
  split_first-lacks (c ∷ s) = ground (arith, split_first-lacks s)

  pub split_first_of_lacks : (s : Bytes) → contains_byte sep s ≡ false → split_first sep s ≡ s
  unfolding split_first
  split_first_of_lacks [] h = refl
  split_first_of_lacks (c ∷ s) h = ground (arith, split_first_of_lacks s)

  pub split_first-append :
      (s t : Bytes) → contains_byte sep s ≡ false → split_first sep (s ++ sep ∷ t) ≡ s
  unfolding split_first
  split_first-append [] t h = ground arith
  split_first-append (c ∷ s) t h = ground (arith, split_first-append s t)

  pub split_rest-lacks :
      (s : Bytes) → all (λ t. not (contains_byte sep t)) (split_rest sep s) ≡ true
  unfolding split_rest
  split_rest-lacks [] = refl
  split_rest-lacks (c ∷ s) = ground (arith, split_rest-lacks s, split_first-lacks s)
