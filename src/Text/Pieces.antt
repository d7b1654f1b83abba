-- ===== src/Text/Pieces.antt =====
-- Splitting, joining and searching.
use wasi_http_middleware.Prelude.{
  ℕ, Bool, true, false, ◌&&◌, ◌||◌, List, [], ◌∷◌, ◌++◌, ◌==◌, if◌then◌else◌, Bytes, any,
}

-- `str::split` on one ASCII byte: the first piece, and the pieces behind each separator.
unfoldable pub split_first : ℕ → Bytes → Bytes
split_first sep [] = []
split_first sep (c ∷ s) = if c == sep then [] else c ∷ split_first sep s

unfoldable pub split_rest : ℕ → Bytes → List Bytes
unfolding split_first
split_rest sep [] = []
split_rest sep (c ∷ s) = if c == sep then split_first sep s ∷ split_rest sep s else split_rest sep s

unfoldable pub split : ℕ → Bytes → List Bytes
unfolding split_first split_rest
split sep s = split_first sep s ∷ split_rest sep s

-- `[T]::join` with a text separator.
unfoldable pub join : Bytes → List Bytes → Bytes
join sep [] = []
join sep (s ∷ []) = s
join sep (s ∷ t ∷ ss) = s ++ sep ++ join sep (t ∷ ss)

-- `str::contains` of one ASCII byte.
abbrev pub contains_byte : ℕ → Bytes → Bool
contains_byte b = any (λ c. c == b)

-- `str::starts_with`
unfoldable pub starts_with : Bytes → Bytes → Bool
starts_with s [] = true
starts_with [] (p ∷ ps) = false
starts_with (c ∷ s) (p ∷ ps) = c == p && starts_with s ps

-- `str::contains` of a text.
unfoldable pub contains_text : Bytes → Bytes → Bool
unfolding starts_with
contains_text [] p = starts_with [] p
contains_text (c ∷ s) p = starts_with (c ∷ s) p || contains_text s p
