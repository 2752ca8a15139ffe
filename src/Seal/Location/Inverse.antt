-- ===== src/Seal/Location/Inverse.antt =====
-- app/crypto/location_seal.py: what comes out of a token was sealed in it.
use map_service_agent.Prelude.{
  ℕ, suc, ◌≡◌, ◌⊎◌, refl, ap, ap₂, sym, subst, ◌∙◌, true, false, Option, none, some, List, [], ◌∷◌,
  ◌++◌, arith, Bool-cases, inl, inr, ◌==◌,
}
use map_service_agent.Value.{
  Str, codes, starts_with, Json, int, float, obj, Fields, find, or_null, Float, is_finite, float_lt,
  ℤ,
}
use map_service_agent.Failure.{Result, returned, raised}
use map_service_agent.Seal.Base64.{b64url_decode}
use map_service_agent.Seal.Base64.RoundTrip.{dots}
use map_service_agent.Seal.Location.{
  Aes, Loaded, loaded, no_json, no_text, opened, is_sealed, before_dot, after_dot, is_time,
  issued_of, is_expired, unless_expired, decrypted, checked, read_plain, open_seal,
}

-- Of a text with two dots, the parts before and after the first.
dots-before : (s : Str) → dots (before_dot s) ≡ 0
unfolding before_dot
dots-before [] = refl
dots-before (c ∷ s) = ground (arith, dots-before s)

split_at_dot :
    (s : Str) → dots s ≡ 1 → (s ≡ before_dot s ++ b'.' ∷ after_dot s) × (dots (after_dot s) ≡ 0)
unfolding before_dot after_dot
split_at_dot [] h = absurd (omega arith)
split_at_dot (c ∷ s) h = elim (Bool-cases (c == b'.')) [
  | inl e ↦
      let k : suc (dots s) ≡ 1 = rw e at h in
      let at_dot : c ≡ b'.' = ground arith in rw e (ap (λ d. d ∷ s) at_dot, omega (arith, k))
  | inr e ↦
      let k : dots s ≡ 1 = rw e at h in
      let (parts, none_later) = split_at_dot s k in rw e (ap (λ r. c ∷ r) parts, none_later)
]

-- A number of seconds: an integer, or a float that is finite
abbrev pub IsTime : Json → Type 0
IsTime v = ((z : ℤ) × (v ≡ int z)) ⊎ ((x : Float) × (v ≡ float x) × (is_finite x ≡ true))

is_time-IsTime : (v : Json) → is_time v ≡ true → IsTime v
unfolding is_time
is_time-IsTime (int z) h = inl (z, refl)
is_time-IsTime (float x) h = inr (x, refl, h)
is_time-IsTime _ h = cc h

-- 300 seconds ago, and 60 seconds ahead
abbrev pub oldest : Float
oldest = record { bits = 0x4072c00000000000 }

abbrev pub newest : Float
newest = record { bits = 0xc04e000000000000 }

-- A token of the first version has two parts.
pub record IsToken (token x y : Str) : Type 0 where
  parts : token ≡ codes "v1." ++ (x ++ b'.' ∷ y)
  no_dot : dots x ≡ 0
  nor_dot : dots y ≡ 0

starts_with-append : (s p : Str) → starts_with s p ≡ true → (rest : Str) × (s ≡ p ++ rest)
starts_with-append s [] h = (s, refl)
starts_with-append [] (b ∷ p) h = cc h
starts_with-append (a ∷ s) (b ∷ p) h =
    let (rest, e) = starts_with-append s p (ground arith) in
    let same : a ≡ b = ground arith in (rest, ap₂ (λ x xs. x ∷ xs) same e)

version-IsToken :
    (rest : Str) → dots rest ≡ 1 → IsToken (codes "v1." ++ rest) (before_dot rest) (after_dot rest)
version-IsToken rest h =
    let (parts, later) = split_at_dot rest h in
    record { parts = ap (λ r. codes "v1." ++ r) parts; no_dot = dots-before rest; nor_dot = later }

is_sealed-IsToken :
    (token : Str)
    → is_sealed token ≡ true
    → IsToken token (before_dot (after_dot token)) (after_dot (after_dot token))
unfolding is_sealed after_dot
is_sealed-IsToken token h =
    let (rest, e) = starts_with-append token (codes "v1.") (ground arith) in
    let two : dots token ≡ 2 = ground arith in
    let k : dots (codes "v1." ++ rest) ≡ 2 = ap dots (sym e) ∙ two in
    subst (λ t. IsToken t (before_dot (after_dot t)) (after_dot (after_dot t))) (sym e)
      (version-IsToken rest (omega (arith, k)))

module _ (aes : Aes) (loads : List ℕ → Loaded) (age : Json → Result Float) where
  -- What an opened value went through: its two parts are the base64 texts of random bytes and of what
  -- the key decrypts, with the fixed additional data, to the JSON text of the fields, and their time
  -- of issue is a number of seconds, neither too long ago nor too far ahead.
  pub record WasSealed (key : Option (List ℕ)) (token : Str) (fs : Fields) : Type 0 where
    x : Str
    y : Str
    k : List ℕ
    iv : List ℕ
    sealed : List ℕ
    plain : List ℕ
    since : Float
    form : IsToken token x y
    keyed : key ≡ some k
    random : b64url_decode x ≡ some iv
    content : b64url_decode y ≡ some sealed
    decrypts : aes.decrypt k iv sealed (codes "map|loc|v1") ≡ some plain
    reads : loads plain ≡ loaded (obj fs)
    timed : IsTime (or_null (find (codes "iat") fs))
    passed : age (or_null (find (codes "iat") fs)) ≡ returned since
    not_old : float_lt oldest since ≡ false
    not_ahead : float_lt since newest ≡ false

  -- What is decrypted, from which parts
  Decrypts : (key iv sealed : Option (List ℕ)) (plain : List ℕ) → Type 0
  Decrypts key iv sealed plain =
      (k : List ℕ) × (i : List ℕ) × (c : List ℕ) × (key ≡ some k)
      × (iv ≡ some i)
      × (sealed ≡ some c)
      × (aes.decrypt k i c (codes "map|loc|v1") ≡ some plain)

  decrypted-Decrypts :
      (key iv sealed : Option (List ℕ)) (plain : List ℕ)
      → decrypted aes key iv sealed ≡ some plain
      → Decrypts key iv sealed plain
  unfolding decrypted Decrypts
  decrypted-Decrypts (some k) (some i) (some c) plain h = (k, i, c, refl, refl, refl, h)
  decrypted-Decrypts none (some i) (some c) plain h = cc h
  decrypted-Decrypts key none sealed plain h = cc h
  decrypted-Decrypts key (some i) none plain h = cc h

  opened-eq : (fs gs : Fields) → opened fs ≡ opened gs → fs ≡ gs
  opened-eq fs gs h = cc h

  -- The checks that are passed where the fields come out.
  unless_expired-opened :
      (fs gs : Fields) (r : Result Float)
      → unless_expired fs r ≡ opened gs
      → (fs ≡ gs) × (a : Float) × (r ≡ returned a) × (is_expired a ≡ false)
  unfolding unless_expired
  unless_expired-opened fs gs (raised e) h = cc h
  unless_expired-opened fs gs (returned a) h = elim (Bool-cases (is_expired a)) [
    | inl e ↦ let k = rw e at h in cc k
    | inr e ↦ let k = rw e at h in (opened-eq fs gs k, a, refl, e)
  ]

  -- The same for the checks of what was decrypted.
  IsRead : Fields → Loaded → Type 0
  IsRead gs l =
      (l ≡ loaded (obj gs))
      × (a : Float) × (is_time (issued_of gs) ≡ true)
      × (age (issued_of gs) ≡ returned a)
      × (is_expired a ≡ false)

  timed-IsRead :
      (fs gs : Fields)
      → is_time (issued_of fs) ≡ true
      → unless_expired fs (age (issued_of fs)) ≡ opened gs
      → IsRead gs (loaded (obj fs))
  unfolding IsRead
  timed-IsRead fs gs t h =
      let (e, a, r, x) = unless_expired-opened fs gs (age (issued_of fs)) h in
      (
        ap (λ f. loaded (obj f)) e,
        a,
        subst (λ f. is_time (issued_of f) ≡ true) e t,
        subst (λ f. age (issued_of f) ≡ returned a) e r,
        x,
      )

  checked-IsRead : (l : Loaded) (gs : Fields) → checked loads age l ≡ opened gs → IsRead gs l
  unfolding checked
  checked-IsRead no_json gs h = cc h
  checked-IsRead no_text gs h = cc h
  checked-IsRead (loaded (obj fs)) gs h = elim (Bool-cases (is_time (issued_of fs))) [
    | inl t ↦ let k = rw t at h in timed-IsRead fs gs t k
    | inr t ↦ let k = rw t at h in cc k
  ]
  checked-IsRead (loaded _) gs h = cc h

  plain-WasSealed :
      (key : Option (List ℕ)) (token : Str) (gs : Fields) (o : Option (List ℕ))
      → is_sealed token ≡ true
      → decrypted aes key
          (b64url_decode (before_dot (after_dot token)))
          (b64url_decode (after_dot (after_dot token)))
        ≡ o
      → read_plain loads age o ≡ opened gs
      → WasSealed key token gs
  unfolding read_plain IsRead Decrypts is_expired
  plain-WasSealed key token gs none f d h = cc h
  plain-WasSealed key token gs (some plain) f d h =
      let (l, a, t, r, x) = checked-IsRead (loads plain) gs h in
      let (k, i, c, keyed, random, content, decrypts) = decrypted-Decrypts key _ _ plain d in
      record {
        x = before_dot (after_dot token);
        y = after_dot (after_dot token);
        k = k;
        iv = i;
        sealed = c;
        plain = plain;
        since = a;
        form = is_sealed-IsToken token f;
        keyed = keyed;
        random = random;
        content = content;
        decrypts = decrypts;
        reads = l;
        timed = is_time-IsTime (issued_of gs) t;
        passed = r;
        not_old = ground arith;
        not_ahead = ground arith;
      }

  -- Whatever comes in as a token, fields come out only if it is two texts of base64 after its version,
  -- the second of which the key decrypts, with the random bytes of the first and the fixed additional
  -- data, to the JSON text of these very fields; and their time of issue is an integer or a finite
  -- float that is at most 300 seconds ago and at most 60 seconds ahead.
  pub open_seal-WasSealed :
      (key : Option (List ℕ)) (token : Str) (fs : Fields)
      → open_seal aes key loads age token ≡ opened fs
      → WasSealed key token fs
  unfolding open_seal
  open_seal-WasSealed key token fs h = elim (Bool-cases (is_sealed token)) [
    | inl f ↦ let k = rw f at h in plain-WasSealed key token fs _ f refl k
    | inr f ↦ let k = rw f at h in cc k
  ]
