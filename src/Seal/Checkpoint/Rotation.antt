-- ===== src/Seal/Checkpoint/Rotation.antt =====
-- app/crypto/checkpoint_seal.py: which ciphers can be built, and which records they open.
use map_service_agent.Prelude.{
  ℕ, zero, suc, ◌≡◌, refl, ap, ◌∙◌, subst, false, Option, none, some, List, [], ◌∷◌, ◌++◌, take,
  drop, length, arith, Bool-cases, inl, inr, if◌then◌else◌,
}
use map_service_agent.Value.{Str, str_eq}
use map_service_agent.Seal.Location.{Aes}
use map_service_agent.Seal.Location.RoundTrip.{IsAead}
use map_service_agent.Seal.Checkpoint.{
  Keys, find_key, is_none, is_nil, parse_keys, Cipher, new_cipher, shares_key, wire_of,
  build_cipher, cipher_prefix, checkpoint_aad, encrypt, decrypt,
}
use map_service_agent.Seal.Checkpoint.Parsed.{AreKeys, Gives, and_then-Gives, parse_keys-AreKeys}

-- A cipher that can be used: every key has 32 bytes under a kid of its own, the active kid has a
-- key, and no key is the one that seals locations.
pub record IsUsable (wire : Option (List ℕ)) (c : Cipher) : Type 0 where
  pub keyed : AreKeys c.keys
  pub active : is_none (find_key c.active_kid c.keys) ≡ false
  pub apart : shares_key wire c.keys ≡ false

cipher-IsUsable :
    (wire : Option (List ℕ)) (keys : Keys) (kid : Str)
    → AreKeys keys
    → Gives (IsUsable wire) (if shares_key wire keys then none else new_cipher keys kid)
unfolding new_cipher
cipher-IsUsable wire keys kid h = elim (Bool-cases (shares_key wire keys)) [
  | inl e ↦ rw e tt
  | inr e ↦ elim (Bool-cases (is_none (find_key kid keys))) [
    | inl n ↦ rw (e, new_cipher, n) tt
    | inr n ↦ rw (e, new_cipher, n) (record { keyed = h; active = n; apart = e })
  ]
]

build_cipher-IsUsable :
    (strict plain : Str → Option (List ℕ)) (enc_keys wire kid : Str)
    → Gives (IsUsable (wire_of plain wire)) (build_cipher strict plain enc_keys wire kid)
unfolding build_cipher
build_cipher-IsUsable strict plain enc_keys wire kid = elim (Bool-cases (is_nil enc_keys)) [
  | inl e ↦ rw e tt
  | inr e ↦ rw e (
      and_then-Gives AreKeys (IsUsable (wire_of plain wire)) (parse_keys strict enc_keys) _
        (parse_keys-AreKeys strict enc_keys)
        (λ keys h. cipher-IsUsable (wire_of plain wire) keys kid h))
]

Gives-some {ℓ} : {A : Type ℓ} (P : A → Type 0) (o : Option A) (a : A) → o ≡ some a → Gives P o → P a
Gives-some P none a e h = cc e
Gives-some {A} P (some b) a e h = subst P (ap value e) h
  where
    value : Option A → A
    value none = b
    value (some x) = x

find_key-length :
    (kid : Str) (key : List ℕ) (keys : Keys)
    → AreKeys keys
    → find_key kid keys ≡ some key
    → length key ≡ 32
unfolding find_key
find_key-length kid key [] h e = cc e
find_key-length kid key ((j, k) ∷ keys) h e = elim (Bool-cases (str_eq j kid)) [
  | inl s ↦ let same = rw s at e in ground (arith, h.0)
  | inr s ↦ let later = rw s at e in find_key-length kid key keys h.2 later
]

take-append : (n : ℕ) (xs ys : List ℕ) → length xs ≡ n → take n (xs ++ ys) ≡ xs
take-append zero [] ys h = refl
take-append zero (x ∷ xs) ys h = absurd (omega arith)
take-append (suc n) [] ys h = absurd (omega arith)
take-append (suc n) (x ∷ xs) ys h = ap (λ r. x ∷ r) (take-append n xs ys (omega arith))

drop-append : (n : ℕ) (xs ys : List ℕ) → length xs ≡ n → drop n (xs ++ ys) ≡ ys
drop-append zero [] ys h = refl
drop-append zero (x ∷ xs) ys h = absurd (omega arith)
drop-append (suc n) [] ys h = absurd (omega arith)
drop-append (suc n) (x ∷ xs) ys h = drop-append n xs ys (omega arith)

some_of_active : (o : Option (List ℕ)) → is_none o ≡ false → (key : List ℕ) × (o ≡ some key)
some_of_active none h = cc h
some_of_active (some key) h = (key, refl)

module _ (aes : Aes) (aead : IsAead aes) where
  decrypt_with :
      (d : Cipher) (kid : Str) (key iv plain : List ℕ)
      → length key ≡ 32
      → length iv ≡ 12
      → find_key kid d.keys ≡ some key
      → decrypt aes d (cipher_prefix ++ kid) (iv ++ aes.encrypt key iv plain checkpoint_aad)
        ≡ some plain
  unfolding decrypt
  decrypt_with d [] key iv plain l i e =
      rw
        (
          decrypt,
          e,
          take-append 12 iv (aes.encrypt key iv plain checkpoint_aad) i,
          drop-append 12 iv (aes.encrypt key iv plain checkpoint_aad) i,
        )
        (aead.opens key iv plain checkpoint_aad l)
  decrypt_with d (c ∷ kid) key iv plain l i e =
      rw
        (
          decrypt,
          e,
          take-append 12 iv (aes.encrypt key iv plain checkpoint_aad) i,
          drop-append 12 iv (aes.encrypt key iv plain checkpoint_aad) i,
        )
        (aead.opens key iv plain checkpoint_aad l)

  -- A cipher that the settings give is usable: each key has 32 bytes under a kid of its own, the
  -- active kid has a key, and no key is that of the locations. It always encrypts, and what it wrote
  -- is opened by every cipher that has the same key under the kid that was active then, whichever kid
  -- is active now.
  pub decrypt-encrypt :
      (strict decode : Str → Option (List ℕ)) (enc_keys wire kid : Str) (c : Cipher)
      → build_cipher strict decode enc_keys wire kid ≡ some c
      → (d : Cipher) → find_key c.active_kid d.keys ≡ find_key c.active_kid c.keys
      → (iv plain : List ℕ) → length iv ≡ 12
      → IsUsable (wire_of decode wire) c
        × (name : Str) × (bytes : List ℕ) × (encrypt aes c iv plain ≡ some (name, bytes))
        × (decrypt aes d name bytes ≡ some plain)
  unfolding encrypt
  decrypt-encrypt strict decode enc_keys wire kid c built d same iv plain i =
      let usable =
        Gives-some (IsUsable (wire_of decode wire)) _ c built
          (build_cipher-IsUsable strict decode enc_keys wire kid) in
      let (key, e) = some_of_active (find_key c.active_kid c.keys) usable.active in
      (
        usable,
        cipher_prefix ++ c.active_kid,
        iv ++ aes.encrypt key iv plain checkpoint_aad,
        rw (encrypt, e) refl,
        decrypt_with d c.active_kid key iv plain
            (find_key-length c.active_kid key c.keys usable.keyed e) i (same ∙ e),
      )
