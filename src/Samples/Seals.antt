-- ===== src/Samples/Seals.antt =====
-- Sealed values, with a cipher that adds a mark.
use map_service_agent.Prelude.{
  ℕ, zero, suc, ◌+◌, ◌∙◌, ◌≡◌, refl, ap, Option, some, List, [], ◌∷◌, All, arith,
}
use map_service_agent.Value.{Str, codes, Json, int, pos, obj, Fields, field, end, Float, zero_float}
use map_service_agent.Failure.{Result, returned}
use map_service_agent.Seal.Base64.RoundTrip.{IsByte}
use map_service_agent.Seal.Location.{
  Aes, Loaded, loaded, opened, seal, open_seal, set_field, is_expired, is_time, token_of,
}
use map_service_agent.Seal.Location.Inverse.{WasSealed, open_seal-WasSealed}
use map_service_agent.Seal.Location.RoundTrip.{IsAead, open_seal-seal, opens_token}
use map_service_agent.Seal.Checkpoint.{
  Cipher, build_cipher, find_key, wire_of, encrypt, decrypt, parse_keys, unless_no_keys,
  add_entries, add_entry, add_named, add_decoded, split_on, partition_at, shares_key, new_cipher,
}
use map_service_agent.Seal.Checkpoint.Rotation.{IsUsable, decrypt-encrypt}

-- Each byte as so many ones and a zero
abbrev ones : ℕ → List ℕ → List ℕ
ones zero rest = 0 ∷ rest
ones (suc n) rest = 1 ∷ ones n rest

abbrev marked : List ℕ → List ℕ
marked [] = []
marked (n ∷ ns) = ones n (marked ns)

abbrev unmarked : ℕ → List ℕ → List ℕ
unmarked n [] = []
unmarked n (zero ∷ bs) = n ∷ unmarked 0 bs
unmarked n (suc b ∷ bs) = unmarked (suc n) bs

abbrev marks : Aes
marks = record {
  encrypt = λ k iv plain a. marked plain;
  decrypt = λ k iv sealed a. some (unmarked 0 sealed);
}

unmarked-ones : (n m : ℕ) (rest : List ℕ) → unmarked m (ones n rest) ≡ (n + m) ∷ unmarked 0 rest
unmarked-ones zero m rest = ap (λ k. k ∷ unmarked 0 rest) (omega arith)
unmarked-ones (suc n) m rest =
    unmarked-ones n (suc m) rest ∙ ap (λ k. k ∷ unmarked 0 rest) (omega arith)

unmarked-marked : (ns : List ℕ) → unmarked 0 (marked ns) ≡ ns
unmarked-marked [] = refl
unmarked-marked (n ∷ ns) =
    let rest = unmarked-marked ns in
    unmarked-ones n 0 (marked ns) ∙ rw rest (ap (λ k. k ∷ ns) (omega arith))

ones-bytes : (n : ℕ) (rest : List ℕ) → All IsByte rest → All IsByte (ones n rest)
ones-bytes zero rest h = (omega arith, h)
ones-bytes (suc n) rest h = (omega arith, ones-bytes n rest h)

marked-bytes : (ns : List ℕ) → All IsByte (marked ns)
marked-bytes [] = tt
marked-bytes (n ∷ ns) = ones-bytes n (marked ns) (marked-bytes ns)

marks-IsAead : IsAead marks
marks-IsAead = record {
  opens = λ k iv plain a l. ap some (unmarked-marked plain);
  bytes = λ k iv plain a l. marked-bytes plain;
}

abbrev zeros : ℕ → List ℕ
zeros zero = []
zeros (suc n) = 0 ∷ zeros n

abbrev payload : Fields
payload = field (codes "lat") (int (pos 37)) end

abbrev body : Fields
body = set_field (codes "iat") (int (pos 5)) payload

abbrev dumps : Fields → List ℕ
dumps fs = 123 ∷ 125 ∷ []

abbrev loads : List ℕ → Loaded
loads bytes = loaded (obj body)

abbrev age : Json → Result Float
age issued = returned zero_float

abbrev token : Str
token = token_of (zeros 12) (marked (dumps body))

open_seal-seal_example :
    (t : Str) × (seal marks (some (zeros 32)) dumps (zeros 12) 5 payload ≡ some t)
    × (open_seal marks (some (zeros 32)) loads age t ≡ opened body)
open_seal-seal_example =
    open_seal-seal marks marks-IsAead dumps loads age (zeros 32) (zeros 12) refl (omega arith)
      payload 5 zero_float refl refl (unfold is_expired in refl)

is_opened : open_seal marks (some (zeros 32)) loads age token ≡ opened body
unfolding is_time is_expired set_field
is_opened =
    opens_token marks marks-IsAead dumps loads age (zeros 32) (zeros 12) refl (omega arith)
      (marked (dumps body)) body zero_float (omega arith) refl refl refl refl refl refl

open_seal-WasSealed_example : WasSealed marks loads age (some (zeros 32)) token body
open_seal-WasSealed_example =
    open_seal-WasSealed marks loads age (some (zeros 32)) token body is_opened

abbrev zero_key : Str → Option (List ℕ)
zero_key encoded = some (zeros 32)

abbrev cipher : Cipher
cipher = record { keys = (codes "a", zeros 32) ∷ []; active_kid = codes "a" }

-- The kid that is active now has another key.
abbrev rotated : Cipher
rotated = record {
  keys = (codes "b", 1 ∷ zeros 31) ∷ (codes "a", zeros 32) ∷ [];
  active_kid = codes "b";
}

is_built : build_cipher zero_key zero_key (codes "a:key") [] (codes "a") ≡ some cipher
unfolding build_cipher parse_keys unless_no_keys add_entries add_entry add_named add_decoded
    split_on partition_at find_key shares_key wire_of new_cipher
is_built = refl

has_same_key : find_key cipher.active_kid rotated.keys ≡ find_key cipher.active_kid cipher.keys
unfolding find_key
has_same_key = refl

decrypt-encrypt_example :
    IsUsable (wire_of zero_key []) cipher
    × (name : Str) × (bytes : List ℕ) × (encrypt marks cipher (zeros 12) (7 ∷ [])
        ≡ some (name, bytes))
    × (decrypt marks rotated name bytes ≡ some (7 ∷ []))
decrypt-encrypt_example =
    decrypt-encrypt marks marks-IsAead zero_key zero_key (codes "a:key") [] (codes "a") cipher
      is_built rotated has_same_key (zeros 12) (7 ∷ []) refl
