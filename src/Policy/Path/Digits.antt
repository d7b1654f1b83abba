-- ===== src/Policy/Path/Digits.antt =====
-- The tests of `normalize_policy_path` of crates/policy-core/src/lib.rs on bytes and segments, against the
-- tables of the specification.
use wasi_http_middleware.Prelude.{
  ℕ, zero, suc, ◌+◌, ◌*◌, ◌<◌, ◌≤◌, inl, inr, Bool-cases, ==_iff, Bool, true, not, ◌&&◌, List, [],
  ◌∷◌, some, ◌==◌, ◌≡◌, refl, arith, Bytes, codes, any, contains, =b_comm,
}
use wasi_http_middleware.Text.{lower}
use wasi_http_middleware.Policy.Path.{
  hex_value, combine, is_escape_rejected, is_literal_rejected, is_dot_segment,
}
use wasi_http_middleware.Policy.Path.Spec.{
  index_of, hex_digits, is_path_byte, is_escapable, dot_segments,
}

pub hex_value-eq : (byte : ℕ) → hex_value byte ≡ index_of (lower byte) hex_digits
unfolding hex_value index_of lower
hex_value-eq byte = ground arith

pub hex_value-bound : (byte : ℕ) {h : ℕ} → hex_value byte ≡ some h → h < 16
unfolding hex_value
hex_value-bound byte e = ground arith

-- A test of `count` numbers, from `first` on.
holds_from : (ℕ → Bool) → ℕ → ℕ → Bool
holds_from test first zero = true
holds_from test first (suc count) = test first && holds_from test (first + 1) count

holds_from-within :
    (test : ℕ → Bool) (first count digit : ℕ)
    → first ≤ digit
    → digit < first + count
    → holds_from test first count ≡ true
    → test digit ≡ true
unfolding holds_from
holds_from-within test first zero digit above below tested = absurd (omega arith)
holds_from-within test first (suc count) digit above below tested =
    elim (Bool-cases (digit == first)) [
      | inl same ↦ rw ((==_iff digit first).0 same) (ground (arith, tested))
      | inr other ↦
          holds_from-within test (first + 1) count digit (ground (arith, other))
            (omega (arith, below)) (ground (arith, tested))
    ]

spells_byte : ℕ → ℕ → Bool
spells_byte high low = combine high low == 16 * high + low

digit_pairs : holds_from (λ high. holds_from (spells_byte high) 0 16) 0 16 ≡ true
unfolding holds_from spells_byte
digit_pairs = refl

pub combine-eq : (high low : ℕ) → high < 16 → low < 16 → combine high low ≡ 16 * high + low
unfolding spells_byte
combine-eq high low p q =
    let each = λ (h : ℕ). holds_from (spells_byte h) 0 16 in
    let row = holds_from-within each 0 16 high (omega arith) (omega (arith, p)) digit_pairs in
    let cell = holds_from-within (spells_byte high) 0 16 low (omega arith) (omega (arith, q)) row in
    (==_iff _ _).0 cell

pub is_literal_rejected-eq :
    (c : ℕ) → is_path_byte c ≡ (not (c == b'%') && not (is_literal_rejected c))
is_literal_rejected-eq c = ground arith

pub is_escape_rejected-eq : (c : ℕ) → is_escapable c ≡ not (is_escape_rejected c)
is_escape_rejected-eq c = ground arith

pub any-is_dot_segment :
    (segments : List Bytes) → any is_dot_segment segments ≡ any (contains dot_segments) segments
any-is_dot_segment [] = refl
any-is_dot_segment (s ∷ segments) =
    ground (arith, =b_comm s (codes "."), =b_comm s (codes ".."), any-is_dot_segment segments)
