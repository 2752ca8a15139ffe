-- ===== src/Seal/Location/RoundTrip.antt =====
-- app/crypto/location_seal.py: what is sealed is opened while it is fresh.
use map_service_agent.Prelude.{
  ℕ, ◌+◌, ◌≡◌, refl, ap, length, true, false, some, List, [], ◌∷◌, ◌++◌, All, arith, Bool-cases,
  inl, inr,
}
use map_service_agent.Value.{
  Str, codes, str_eq, str_eq_self, Json, int, obj, pos, Fields, end, field, find, Float, or_null,
}
use map_service_agent.Failure.{Result, returned}
use map_service_agent.Seal.Base64.{b64url}
use map_service_agent.Seal.Base64.RoundTrip.{IsByte, dots, b64url_decode-b64url, dots-b64url}
use map_service_agent.Seal.Location.{
  Aes, Loaded, loaded, opened, aad, set_field, is_sealed, before_dot, after_dot, token_of, is_time,
  issued_of, is_expired, unless_expired, seal, decrypted, checked, read_plain, open_seal,
}

find-set_field : (k : Str) (v : Json) (fs : Fields) → find k (set_field k v fs) ≡ some v
unfolding set_field
find-set_field k v end = ground (arith, str_eq_self k)
find-set_field k v (field j w fs) = elim (Bool-cases (str_eq j k)) [
  | inl e ↦ rw e (rw e refl)
  | inr e ↦ rw e (rw e (find-set_field k v fs))
]

before_dot-append : (s t : Str) → dots s ≡ 0 → before_dot (s ++ b'.' ∷ t) ≡ s
unfolding before_dot
before_dot-append [] t h = refl
before_dot-append (c ∷ s) t h = ground (arith, before_dot-append s t)

after_dot-append : (s t : Str) → dots s ≡ 0 → after_dot (s ++ b'.' ∷ t) ≡ t
unfolding after_dot
after_dot-append [] t h = refl
after_dot-append (c ∷ s) t h = ground (arith, after_dot-append s t)

dots-append : (s t : Str) → dots (s ++ t) ≡ dots s + dots t
dots-append [] t = omega arith
dots-append (c ∷ s) t = ground (arith, dots-append s t)

module _ (iv sealed : List ℕ) (iv_bytes : All IsByte iv) (sealed_bytes : All IsByte sealed) where
  token-IsSealed : is_sealed (token_of iv sealed) ≡ true
  unfolding is_sealed token_of
  token-IsSealed =
      let n = dots-append (b64url iv) (b'.' ∷ b64url sealed) in
      let i = dots-b64url iv iv_bytes in let s = dots-b64url sealed sealed_bytes in ground arith

  token-iv : before_dot (after_dot (token_of iv sealed)) ≡ b64url iv
  unfolding token_of after_dot
  token-iv = before_dot-append (b64url iv) (b64url sealed) (dots-b64url iv iv_bytes)

  token-sealed : after_dot (after_dot (token_of iv sealed)) ≡ b64url sealed
  token-sealed =
      unfold token_of after_dot in
      after_dot-append (b64url iv) (b64url sealed) (dots-b64url iv iv_bytes)

-- What is documented of AES-GCM with a key of 32 bytes: what is sealed is bytes, and opens again.
pub record IsAead (aes : Aes) : Type 0 where
  pub opens :
      (k iv plain a : List ℕ)
      → length k ≡ 32
      → aes.decrypt k iv (aes.encrypt k iv plain a) a ≡ some plain
  pub bytes : (k iv plain a : List ℕ) → length k ≡ 32 → All IsByte (aes.encrypt k iv plain a)

module _ (aes : Aes) (aead : IsAead aes) (dumps : Fields → List ℕ) (loads : List ℕ → Loaded)
    (age : Json → Result Float) (key iv : List ℕ) (long : length key ≡ 32)
    (iv_bytes : All IsByte iv) where
  pub opens_token :
      (sealed : List ℕ) (body : Fields) {issued : Json} (since : Float)
      → All IsByte sealed
      → aes.decrypt key iv sealed aad ≡ some (dumps body)
      → loads (dumps body) ≡ loaded (obj body)
      → issued_of body ≡ issued
      → is_time issued ≡ true
      → age issued ≡ returned since
      → is_expired since ≡ false
      → open_seal aes (some key) loads age (token_of iv sealed) ≡ opened body
  unfolding open_seal decrypted read_plain checked unless_expired
  opens_token sealed body since bytes d json at timed passed fresh =
      rw
        (
          open_seal,
          token-IsSealed iv sealed iv_bytes bytes,
          token-iv iv sealed iv_bytes bytes,
          token-sealed iv sealed iv_bytes bytes,
          b64url_decode-b64url iv iv_bytes,
          b64url_decode-b64url sealed bytes,
          d,
          json,
          at,
          timed,
          passed,
          fresh,
        )
        refl

  issued-set : (v : Json) (payload : Fields) → issued_of (set_field (codes "iat") v payload) ≡ v
  issued-set v payload = ap or_null (find-set_field (codes "iat") v payload)

  -- What is sealed is opened to the same fields with the time of issue, by the holder of the key and
  -- as long as it is not expired, where JSON reads back what it writes of these fields.
  pub open_seal-seal :
      (payload : Fields) (now : ℕ) (since : Float)
      → let body = set_field (codes "iat") (int (pos now)) payload in
        loads (dumps body) ≡ loaded (obj body)
        → age (int (pos now)) ≡ returned since
        → is_expired since ≡ false
        → (token : Str) × (seal aes (some key) dumps iv now payload ≡ some token)
          × (open_seal aes (some key) loads age token
              ≡ opened (set_field (codes "iat") (int (pos now)) payload))
  unfolding seal
  open_seal-seal payload now since json passed fresh =
      let body = set_field (codes "iat") (int (pos now)) payload in
      let sealed = aes.encrypt key iv (dumps body) aad in
      let bytes = aead.bytes key iv (dumps body) aad long in
      (
        token_of iv sealed,
        refl,
        opens_token sealed body since bytes (aead.opens key iv (dumps body) aad long) json
            (issued-set (int (pos now)) payload) (unfold is_time in refl) passed fresh,
      )
