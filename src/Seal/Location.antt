-- ===== src/Seal/Location.antt =====
-- app/crypto/location_seal.py: `seal` and `open_seal`. AES-GCM, `json`, the decoding of the key in
-- the settings, the clock and the random bytes are parameters.
pub mod RoundTrip
pub mod Inverse
use map_service_agent.Prelude.{
  ℕ, suc, Bool, true, false, not, ◌&&◌, ◌||◌, Option, none, some, List, [], ◌∷◌, ◌++◌, length,
  if◌then◌else◌, ◌==◌,
}
use map_service_agent.Value.{
  Str, codes, str_eq, starts_with, Json, null, bool, int, float, str, arr, obj, pos, Fields, end,
  field, find, or_null, Float, is_finite, float_lt,
}
use map_service_agent.Failure.{Exc, value_error, Result, returned, raised}
use map_service_agent.Seal.Base64.{b64url, b64url_decode}
use map_service_agent.Seal.Base64.RoundTrip.{dots}

-- `AESGCM(key).encrypt(iv, data, aad)` and `decrypt`, which raises where it does not fit
pub record Aes : Type 0 where
  pub encrypt : (key iv plain aad : List ℕ) → List ℕ
  pub decrypt : (key iv sealed aad : List ℕ) → Option (List ℕ)

-- `json.loads` of bytes: a value, `JSONDecodeError`, or bytes that are no text
pub data Loaded : Type 0 where
  loaded : Json → Loaded
  no_json no_text : Loaded

-- What `open_seal` gives: the fields, `SealError`, or another exception.
pub data Opened : Type 0 where
  opened : Fields → Opened
  seal_error : Opened
  escaped : Exc → Opened

abbrev pub aad : List ℕ
aad = codes "map|loc|v1"

-- `_key`: `decode` is `base64.b64decode`.
unfoldable pub with_length_32 : Option (List ℕ) → Option (List ℕ)
with_length_32 none = none
with_length_32 (some key) = if length key == 32 then some key else none

unfoldable pub wire_key : (decode : Str → Option (List ℕ)) → Str → Option (List ℕ)
wire_key decode [] = none
wire_key decode (c ∷ cs) = with_length_32 (decode (c ∷ cs))

-- `body[key] = value`
unfoldable pub set_field : Str → Json → Fields → Fields
set_field k v end = field k v end
set_field k v (field j w fs) = if str_eq j k then field j v fs else field j w (set_field k v fs)

-- `is_sealed`
unfoldable pub is_sealed : Str → Bool
is_sealed token = starts_with token (codes "v1.") && dots token == 2

-- The parts of `token.split(".", 2)`, where there are three
unfoldable pub before_dot : Str → Str
before_dot [] = []
before_dot (c ∷ cs) = if c == b'.' then [] else c ∷ before_dot cs

unfoldable pub after_dot : Str → Str
after_dot [] = []
after_dot (c ∷ cs) = if c == b'.' then cs else after_dot cs

-- `f"{VERSION}.{_b64url(iv)}.{_b64url(sealed)}"`
unfoldable pub token_of : (iv sealed : List ℕ) → Str
token_of iv sealed = codes "v1." ++ (b64url iv ++ b'.' ∷ b64url sealed)

-- `type(issued) in (int, float)`, and that it is finite if it is a float
unfoldable pub is_time : Json → Bool
is_time (int z) = true
is_time (float x) = is_finite x
is_time _ = false

abbrev pub issued_of : Fields → Json
issued_of fs = or_null (find (codes "iat") fs)

-- `age > MAX_AGE_SECONDS or age < -60`
unfoldable pub is_expired : Float → Bool
is_expired age =
    float_lt (record { bits = 0x4072c00000000000 }) age
    || float_lt age (record { bits = 0xc04e000000000000 })

unfoldable pub unless_expired : Fields → Result Float → Opened
unless_expired fs (returned age) = if is_expired age then seal_error else opened fs
unless_expired fs (raised e) = escaped e

module _ (loads : List ℕ → Loaded) (age : Json → Result Float) where
  -- The checks of the time, on a dict; `age` is the time that went by since.
  unfoldable pub checked : Loaded → Opened
  checked no_json = seal_error
  checked no_text = escaped value_error
  checked (loaded (obj fs)) =
      if is_time (issued_of fs) then unless_expired fs (age (issued_of fs)) else seal_error
  checked (loaded _) = seal_error

  unfoldable pub read_plain : Option (List ℕ) → Opened
  read_plain none = seal_error
  read_plain (some plain) = checked (loads plain)

module _ (aes : Aes) (key : Option (List ℕ)) where
  -- `seal`, with the fields that `json.dumps` writes, the random bytes and the time
  unfoldable pub seal : (dumps : Fields → List ℕ) (iv : List ℕ) (now : ℕ) → Fields → Option Str
  seal dumps iv now payload = elim key [
    | none ↦ none
    | some k ↦ some (
        token_of iv
          (aes.encrypt k iv (dumps (set_field (codes "iat") (int (pos now)) payload)) aad))
  ]

  -- The call of `decrypt` in its `try`
  unfoldable pub decrypted : (iv sealed : Option (List ℕ)) → Option (List ℕ)
  decrypted (some iv) (some sealed) = elim key [
    | none ↦ none
    | some k ↦ aes.decrypt k iv sealed aad
  ]
  decrypted _ _ = none

  module _ (loads : List ℕ → Loaded) (age : Json → Result Float) where
    -- `open_seal`
    unfoldable pub open_seal : Str → Opened
    open_seal token =
        if is_sealed token
        then read_plain loads age (
            decrypted (b64url_decode (before_dot (after_dot token)))
              (b64url_decode (after_dot (after_dot token))))
        else seal_error
