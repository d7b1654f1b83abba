-- ===== src/Examples/Codecs.antt =====
-- Small encodings: a JSON for anonymous contexts with one audience, and a base64 in two letters.
use wasi_http_middleware.Prelude.{
  ℕ, zero, suc, ◌+◌, true, false, List, [], ◌∷◌, ◌≡◌, refl, ap, ◌∙◌, arith, Bytes, is_empty, all,
  within, Option, none, some, ◌==◌, if◌then◌else◌,
}
use mathlib.Core.Option
use wasi_http_middleware.Metadata.Wire.{WireContext, WireState, WirePrincipal}
use wasi_http_middleware.Metadata.Codec.{Encodings, IsEncodings}

write_onto : Bytes → Bytes → Bytes
write_onto [] rest = 0 ∷ rest
write_onto (b ∷ text) rest = 1 ∷ b ∷ write_onto text rest

read_text : Bytes → Bytes × Bytes
read_text (suc _ ∷ b ∷ rest) = let more = read_text rest in (b ∷ more.0, more.1)
read_text (zero ∷ rest) = ([], rest)
read_text _ = ([], [])

read_text-write_onto : (text rest : Bytes) → read_text (write_onto text rest) ≡ (text, rest)
unfolding read_text write_onto
read_text-write_onto [] rest = refl
read_text-write_onto (b ∷ text) rest = rw (read_text-write_onto text rest) refl

write :
    ℕ
    → WireState
    → Bytes
    → List Bytes
    → Option WirePrincipal
    → Option Bytes
    → Option Bytes
    → Option Bytes
unfolding write_onto
write version WireState.anonymous service (audience ∷ []) none none none =
    some (version ∷ write_onto service audience)
write _ _ _ _ _ _ _ = none

read : Bytes → Option WireContext
unfolding read_text
read [] = none
read (version ∷ text) =
    let texts = read_text text in
    some (record {
      version = version;
      state = WireState.anonymous;
      service_id = texts.0;
      audiences = texts.1 ∷ [];
      principal = none;
      decision_id = none;
      policy_revision = none;
    })

unary : ℕ → Bytes → Bytes
unary zero rest = b'B' ∷ rest
unary (suc n) rest = b'A' ∷ unary n rest

letters : Bytes → Bytes
unfolding unary
letters [] = []
letters (b ∷ text) = unary b (letters text)

from_letters : ℕ → Bytes → Option Bytes
from_letters n [] = if n == 0 then some [] else none
from_letters n (c ∷ text) = elim (c == b'A') [
  | true ↦ from_letters (n + 1) text
  | false ↦ Option.map (λ s. n ∷ s) (from_letters 0 text)
]

unfoldable pub codecs : Encodings
unfolding write read letters from_letters
codecs = record {
  to_vec = λ wire.
      write wire.version wire.state wire.service_id wire.audiences wire.principal wire.decision_id
        wire.policy_revision;
  from_slice = read;
  base64_encode = letters;
  base64_decode = from_letters 0;
}

from_letters-unary :
    (n b : ℕ) (rest : Bytes)
    → from_letters n (unary b rest) ≡ Option.map (λ s. (n + b) ∷ s) (from_letters 0 rest)
unfolding unary from_letters
from_letters-unary n zero rest =
    ap (λ m. Option.map (λ s. m ∷ s) (from_letters 0 rest)) (omega arith)
from_letters-unary n (suc b) rest =
    from_letters-unary (n + 1) b rest
    ∙ ap (λ m. Option.map (λ s. m ∷ s) (from_letters 0 rest)) (omega arith)

from_letters-letters : (text : Bytes) → from_letters 0 (letters text) ≡ some text
unfolding letters from_letters
from_letters-letters [] = refl
from_letters-letters (b ∷ text) =
    let same : 0 + b ≡ b = omega arith in
    from_letters-unary 0 b (letters text)
    ∙ ap (Option.map (λ s. (0 + b) ∷ s)) (from_letters-letters text)
    ∙ ap (λ m. some (m ∷ text)) same

unary_visible :
    (b : ℕ) (rest : Bytes)
    → all (within 32 126) rest ≡ true
    → all (within 32 126) (unary b rest) ≡ true
unfolding unary
unary_visible zero rest h = h
unary_visible (suc b) rest h = unary_visible b rest h

letters_visible : (text : Bytes) → all (within 32 126) (letters text) ≡ true
unfolding letters
letters_visible [] = refl
letters_visible (b ∷ text) = unary_visible b (letters text) (letters_visible text)

is_empty-unary : (b : ℕ) (rest : Bytes) → is_empty (unary b rest) ≡ false
unfolding unary
is_empty-unary zero rest = refl
is_empty-unary (suc b) rest = refl

is_empty-letters : (text : Bytes) → is_empty (letters text) ≡ is_empty text
unfolding letters
is_empty-letters [] = refl
is_empty-letters (b ∷ text) = is_empty-unary b (letters text)

read-write :
    (version : ℕ) (state : WireState) (service : Bytes) (audiences : List Bytes)
    (principal : Option WirePrincipal) (decision revision : Option Bytes) (json : Bytes)
    → write version state service audiences principal decision revision ≡ some json
    → (read json
        ≡ some (record {
          version = version;
          state = state;
          service_id = service;
          audiences = audiences;
          principal = principal;
          decision_id = decision;
          policy_revision = revision;
        }))
      × (is_empty json ≡ false)
unfolding write read
read-write version WireState.anonymous service (audience ∷ []) none none none json h =
    let same : version ∷ write_onto service audience ≡ json = cc in
    rw (← same) (rw (read_text-write_onto service audience) (refl, refl))
read-write version WireState.authenticated service audiences principal decision revision json h =
    absurd (cc)
read-write version WireState.anonymous service [] principal decision revision json h = absurd (cc)
read-write version WireState.anonymous service (a ∷ b ∷ more) principal decision revision json h =
    absurd (cc)
read-write version WireState.anonymous service (a ∷ []) (some p) decision revision json h =
    absurd (cc)
read-write version WireState.anonymous service (a ∷ []) none (some d) revision json h = absurd (cc)
read-write version WireState.anonymous service (a ∷ []) none none (some r) json h = absurd (cc)

pub codec_laws : IsEncodings codecs
unfolding codecs
codec_laws = record {
  from_slice-to_vec = λ wire json h.
      (read-write wire.version wire.state wire.service_id wire.audiences wire.principal
        wire.decision_id wire.policy_revision json h).0;
  to_vec_nonempty = λ wire json h.
      (read-write wire.version wire.state wire.service_id wire.audiences wire.principal
        wire.decision_id wire.policy_revision json h).1;
  decode-encode = from_letters-letters;
  encode_visible = letters_visible;
  encode_empty = is_empty-letters;
}
