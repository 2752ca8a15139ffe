-- ===== src/Seal/Checkpoint.antt =====
-- app/crypto/checkpoint_seal.py: `parse_keys`, `CheckpointCipher` and `build_cipher`. AES-GCM, the
-- decoding of base64 and the random bytes are parameters; `none` is `CheckpointSealError`.
pub mod Parsed
pub mod Rotation
use map_service_agent.Prelude.{
  ℕ, suc, Bool, true, false, not, ◌&&◌, ◌||◌, Option, none, some, List, [], ◌∷◌, ◌++◌, map, keep,
  take, drop, length, if◌then◌else◌, ◌==◌,
}
use map_service_agent.Value.{Str, codes, str_eq, starts_with, strip}
use map_service_agent.Nodes.Candidates.{and_then}
use map_service_agent.Seal.Location.{Aes}

abbrev onto_first : ℕ → List Str → List Str
onto_first c [] = (c ∷ []) ∷ []
onto_first c (p ∷ ps) = (c ∷ p) ∷ ps

-- `raw.split(sep)`
unfoldable pub split_on : ℕ → Str → List Str
split_on sep [] = [] ∷ []
split_on sep (c ∷ cs) =
    let parts = split_on sep cs in if c == sep then [] ∷ parts else onto_first c parts

-- `entry.partition(":")`: what stands before and after, if there is one
unfoldable pub partition_at : ℕ → Str → Option (Str × Str)
partition_at sep [] = none
partition_at sep (c ∷ cs) =
    let rest = partition_at sep cs in
    if c == sep then some ([], cs) else and_then rest (λ p. some (c ∷ p.0, p.1))

abbrev pub Keys : Type 0
Keys = List (Str × List ℕ)

-- `keys.get(kid)`
unfoldable pub find_key : Str → Keys → Option (List ℕ)
find_key kid [] = none
find_key kid ((j, key) ∷ keys) = if str_eq j kid then some key else find_key kid keys

abbrev pub is_none {ℓ} : {A : Type ℓ} → Option A → Bool
is_none none = true
is_none (some a) = false

abbrev pub is_nil : Str → Bool
is_nil [] = true
is_nil (c ∷ cs) = false

-- A key that was decoded, under its kid
unfoldable pub add_decoded : Keys → Str → Option (List ℕ) → Option Keys
add_decoded keys kid none = none
add_decoded keys kid (some key) = if length key == 32 then some (keys ++ (kid, key) ∷ []) else none

module _ (decode : Str → Option (List ℕ)) where
  unfoldable pub add_named : Keys → Str → Str → Option Keys
  add_named keys kid encoded =
      if is_nil kid || not (is_none (find_key kid keys))
      then none
      else add_decoded keys kid (decode (strip encoded))

  -- One round of the loop of `parse_keys`
  unfoldable pub add_entry : Keys → Option (Str × Str) → Option Keys
  add_entry keys none = none
  add_entry keys (some (kid, encoded)) = add_named keys (strip kid) encoded

  unfoldable pub add_entries : Keys → List Str → Option Keys
  add_entries keys [] = some keys
  add_entries keys (entry ∷ entries) =
      and_then (add_entry keys (partition_at b':' entry)) (λ more. add_entries more entries)

  unfoldable pub unless_no_keys : Option Keys → Option Keys
  unless_no_keys none = none
  unless_no_keys (some []) = none
  unless_no_keys (some (k ∷ ks)) = some (k ∷ ks)

  -- `parse_keys`
  unfoldable pub parse_keys : Str → Option Keys
  parse_keys raw =
      unless_no_keys (add_entries [] (keep (λ e. not (is_nil e)) (map strip (split_on b',' raw))))

pub record Cipher : Type 0 where
  pub keys : Keys
  pub active_kid : Str

-- `CheckpointCipher(keys, active_kid)`
unfoldable pub new_cipher : Keys → Str → Option Cipher
new_cipher keys active_kid =
    if is_none (find_key active_kid keys)
    then none
    else some (record { keys = keys; active_kid = active_kid })

abbrev pub bytes_eq : List ℕ → List ℕ → Bool
bytes_eq = str_eq

-- `wire_key in keys.values()`
unfoldable pub has_value : List ℕ → Keys → Bool
has_value key [] = false
has_value key ((kid, k) ∷ keys) = bytes_eq k key || has_value key keys

unfoldable pub shares_key : Option (List ℕ) → Keys → Bool
shares_key none keys = false
shares_key (some key) keys = has_value key keys

-- The wire key of the settings, if there is one that can be decoded
unfoldable pub wire_of : (decode : Str → Option (List ℕ)) → Str → Option (List ℕ)
wire_of decode [] = none
wire_of decode (c ∷ cs) = decode (c ∷ cs)

-- `build_cipher`: the two decoders are the strict one of the keys and the plain one.
unfoldable pub build_cipher :
    (strict plain : Str → Option (List ℕ)) (enc_keys wire active_kid : Str) → Option Cipher
build_cipher strict plain enc_keys wire active_kid =
    if is_nil enc_keys
    then none
    else and_then (parse_keys strict enc_keys)
        (λ keys. if shares_key (wire_of plain wire) keys then none else new_cipher keys active_kid)

abbrev pub cipher_prefix : Str
cipher_prefix = codes "aesgcm:"

abbrev pub checkpoint_aad : List ℕ
checkpoint_aad = codes "map|ckpt|v1"

module _ (aes : Aes) where
  -- `encrypt`: the name of the cipher, and the bytes
  unfoldable pub encrypt : Cipher → (iv plain : List ℕ) → Option (Str × List ℕ)
  encrypt c iv plain =
      and_then (find_key c.active_kid c.keys)
        (λ key. some (cipher_prefix ++ c.active_kid, iv ++ aes.encrypt key iv plain checkpoint_aad))

  -- `decrypt`
  unfoldable pub decrypt : Cipher → (name : Str) → (bytes : List ℕ) → Option (List ℕ)
  decrypt c name bytes =
      if starts_with name cipher_prefix
      then and_then (find_key (drop 7 name) c.keys)
          (λ key. aes.decrypt key (take 12 bytes) (drop 12 bytes) checkpoint_aad)
      else none
