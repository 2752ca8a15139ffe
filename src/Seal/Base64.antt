-- ===== src/Seal/Base64.antt =====
-- app/crypto/location_seal.py: `_b64url` and `_b64url_decode`, with `base64` as Python has it. The
-- decoder passes over characters that are not in the alphabet, and stops at a full padding.
pub mod RoundTrip
use map_service_agent.Prelude.{
  ℕ, zero, suc, ◌+◌, ◌-◌, ◌*◌, ◌/◌, ◌%◌, ◌≤◌, ◌<◌, Bool, true, false, ◌&&◌, ◌||◌, Option, none,
  some, List, [], ◌∷◌, ◌++◌, length, if◌then◌else◌, leb, ltb, ◌==◌, between,
}
use map_service_agent.Value.{Str}

-- The character for six bits
unfoldable pub symbol : ℕ → ℕ
symbol v =
    if ltb v 26
    then v + b'A'
    else if ltb v 52
    then v - 26 + b'a'
    else if ltb v 62
    then v - 52 + b'0'
    else if v == 62
    then b'-'
    else b'_'

-- The six bits of a character; `+` and `/` are read too.
unfoldable pub bits_of : ℕ → Option ℕ
bits_of c =
    if between b'A' b'Z' c
    then some (c - b'A')
    else if between b'a' b'z' c
    then some (c - b'a' + 26)
    else if between b'0' b'9' c
    then some (c - b'0' + 52)
    else if c == b'-' || c == b'+'
    then some 62
    else if c == b'_' || c == b'/'
    then some 63
    else none

-- `_b64url`: three bytes make four characters, and no padding is left.
unfoldable pub b64url : List ℕ → Str
b64url [] = []
b64url (a ∷ []) = symbol (a / 4) ∷ symbol (a % 4 * 16) ∷ []
b64url (a ∷ b ∷ []) = symbol (a / 4) ∷ symbol (a % 4 * 16 + b / 16) ∷ symbol (b % 16 * 4) ∷ []
b64url (a ∷ b ∷ c ∷ rest) =
    symbol (a / 4)
    ∷ symbol (a % 4 * 16 + b / 16)
    ∷ symbol (b % 16 * 4 + c / 64)
    ∷ symbol (c % 64)
    ∷ b64url rest

-- Where the decoder stands: in which of four places, and with which bits of the last character
pub data Quad : Type 0 where
  first : Quad
  second third fourth : (left : ℕ) → Quad

-- What one character of the alphabet gives: the next place, and a byte
unfoldable pub advance : Quad → ℕ → Quad × List ℕ
advance first v = (second v, [])
advance (second left) v = (third (v % 16), (left * 4 + v / 16) ∷ [])
advance (third left) v = (fourth (v % 4), (left * 16 + v / 4) ∷ [])
advance (fourth left) v = (first, (left * 64 + v) ∷ [])

-- `quad_pos >= 2 and quad_pos + pads >= 4`, with the padding that is read now
unfoldable pub is_padded : Quad → ℕ → Bool
is_padded first pads = false
is_padded (second left) pads = false
is_padded (third left) pads = leb 2 (suc pads)
is_padded (fourth left) pads = true

unfoldable pub next_pads : Quad → ℕ → ℕ
next_pads first pads = pads
next_pads (second left) pads = pads
next_pads (third left) pads = suc pads
next_pads (fourth left) pads = suc pads

-- At the end of the input, a group has to be complete.
unfoldable pub finished : Quad → List ℕ → Option (List ℕ)
finished first out = some out
finished _ out = none

-- The loop of `binascii.a2b_base64`, with the bytes so far
unfoldable pub decode_from : Quad → (pads : ℕ) → List ℕ → Str → Option (List ℕ)
decode_from q pads out [] = finished q out
decode_from q pads out (c ∷ cs) =
    if c == b'='
    then (let rest = decode_from q (next_pads q pads) out cs in
        if is_padded q pads then some out else rest)
    else elim (bits_of c) [
      | none ↦ decode_from q pads out cs
      | some v ↦ decode_from (advance q v).0 0 (out ++ (advance q v).1) cs
    ]

unfoldable pub padding : ℕ → Str
padding zero = []
padding (suc n) = b'=' ∷ padding n

-- `_b64url_decode`; a text that is not ASCII raises, as one with an incomplete group does.
unfoldable pub is_ascii : Str → Bool
is_ascii [] = true
is_ascii (c ∷ cs) = ltb c 128 && is_ascii cs

unfoldable pub b64url_decode : Str → Option (List ℕ)
b64url_decode text =
    if is_ascii text
    then decode_from first 0 [] (text ++ padding ((4 - length text % 4) % 4))
    else none
