-- ===== src/Seal/Base64/RoundTrip.antt =====
-- app/crypto/location_seal.py: what `_b64url` writes, `_b64url_decode` reads.
use mathlib.Core.List.{append_assoc, append-nil}
use mathlib.Core.Path.{◌≡⟨◌⟩◌, ◌∎}
use map_service_agent.Prelude.{
  ℕ, zero, suc, ◌+◌, ◌-◌, ◌*◌, ◌/◌, ◌%◌, ◌<◌, ◌≡◌, refl, ap, sym, ◌∙◌, Bool, true, false, ◌&&◌,
  Option, none, some, List, [], ◌∷◌, ◌++◌, length, All, arith, ltb, ◌==◌, ==_iff, if◌then◌else◌,
}
use map_service_agent.Value.{Str}
use map_service_agent.Seal.Base64.{
  symbol, bits_of, b64url, Quad, first, second, third, fourth, advance, is_padded, next_pads,
  finished, decode_from, padding, is_ascii, b64url_decode,
}

-- A test passes on all numbers of six bits, or of fewer.
passes_to : (ℕ → Bool) → (bound : ℕ) → Bool
passes_to test zero = true
passes_to test (suc v) = if test v then passes_to test v else false

passes_at :
    (test : ℕ → Bool) (bound v : ℕ) → v < bound → passes_to test bound ≡ true → test v ≡ true
unfolding passes_to
passes_at test zero v below h = absurd (omega arith)
passes_at test (suc w) v below h = ground (arith, passes_at test w v)

is_some_eq : Option ℕ → ℕ → Bool
is_some_eq none v = false
is_some_eq (some w) v = w == v

is_some_eq_sound : (o : Option ℕ) (v : ℕ) → is_some_eq o v ≡ true → o ≡ some v
unfolding is_some_eq
is_some_eq_sound none v h = cc h
is_some_eq_sound (some w) v h = ap some ((==_iff w v).0 h)

-- Every character of the alphabet is read back, is no padding, and is ASCII.
reads_back : ℕ → Bool
reads_back v =
    is_some_eq (bits_of (symbol v)) v
    && (ltb (symbol v) 128 && (if symbol v == b'=' then false else true))

table : passes_to reads_back 64 ≡ true
unfolding passes_to reads_back is_some_eq bits_of symbol
table = refl

record IsLetter (v : ℕ) : Type 0 where
  read : bits_of (symbol v) ≡ some v
  ascii : ltb (symbol v) 128 ≡ true
  no_pad : (symbol v == b'=') ≡ false

symbol-IsLetter : (v : ℕ) → v < 64 → IsLetter v
unfolding reads_back
symbol-IsLetter v h =
    let good = passes_at reads_back 64 v h table in
    record {
      read = is_some_eq_sound (bits_of (symbol v)) v (ground arith);
      ascii = ground arith;
      no_pad = ground arith;
    }

decode-symbol :
    (q : Quad) (pads v : ℕ) (out : List ℕ) (cs : Str)
    → v < 64
    → decode_from q pads out (symbol v ∷ cs)
      ≡ decode_from (advance q v).0 0 (out ++ (advance q v).1) cs
unfolding decode_from
decode-symbol q pads v out cs h = let s = symbol-IsLetter v h in rw (s.no_pad, s.read) refl

abbrev pub IsByte : ℕ → Type 0
IsByte b = b < 256

-- The characters of two, three and four places, with the bytes that they give.
two_symbols :
    (a v : ℕ) (out : List ℕ) (cs : Str)
    → IsByte a
    → v < 16
    → decode_from first 0 out (symbol (a / 4) ∷ symbol (a % 4 * 16 + v) ∷ cs)
      ≡ decode_from (third v) 0 (out ++ a ∷ []) cs
unfolding advance
two_symbols a v out cs ha hv =
    decode_from first 0 out (symbol (a / 4) ∷ symbol (a % 4 * 16 + v) ∷ cs)
    ≡⟨ decode-symbol first 0 (a / 4) out (symbol (a % 4 * 16 + v) ∷ cs) (omega arith) ⟩
      decode_from (second (a / 4)) 0 (out ++ []) (symbol (a % 4 * 16 + v) ∷ cs)
    ≡⟨ decode-symbol (second (a / 4)) 0 (a % 4 * 16 + v) (out ++ []) cs (omega arith) ⟩
      decode_from (third ((a % 4 * 16 + v) % 16)) 0
        ((out ++ []) ++ (a / 4 * 4 + (a % 4 * 16 + v) / 16) ∷ []) cs
    ≡⟨ (let e : (a % 4 * 16 + v) % 16 ≡ v = omega arith in
        let f : a / 4 * 4 + (a % 4 * 16 + v) / 16 ≡ a = omega arith in
        rw (e, f, append-nil out) refl) ⟩
      decode_from (third v) 0 (out ++ a ∷ []) cs ∎

three_symbols :
    (a b v : ℕ) (out : List ℕ) (cs : Str)
    → IsByte a
    → IsByte b
    → v < 4
    → decode_from first 0 out
        (symbol (a / 4) ∷ symbol (a % 4 * 16 + b / 16) ∷ symbol (b % 16 * 4 + v) ∷ cs)
      ≡ decode_from (fourth v) 0 (out ++ a ∷ b ∷ []) cs
unfolding advance
three_symbols a b v out cs ha hb hv =
    decode_from first 0 out
      (symbol (a / 4) ∷ symbol (a % 4 * 16 + b / 16) ∷ symbol (b % 16 * 4 + v) ∷ cs)
    ≡⟨ two_symbols a (b / 16) out (symbol (b % 16 * 4 + v) ∷ cs) ha (omega arith) ⟩
      decode_from (third (b / 16)) 0 (out ++ a ∷ []) (symbol (b % 16 * 4 + v) ∷ cs)
    ≡⟨ decode-symbol (third (b / 16)) 0 (b % 16 * 4 + v) (out ++ a ∷ []) cs (omega arith) ⟩
      decode_from (fourth ((b % 16 * 4 + v) % 4)) 0
        ((out ++ a ∷ []) ++ (b / 16 * 16 + (b % 16 * 4 + v) / 4) ∷ []) cs
    ≡⟨ (let e : (b % 16 * 4 + v) % 4 ≡ v = omega arith in
        let f : b / 16 * 16 + (b % 16 * 4 + v) / 4 ≡ b = omega arith in
        rw (e, f, append_assoc out (a ∷ []) (b ∷ [])) refl) ⟩
      decode_from (fourth v) 0 (out ++ a ∷ b ∷ []) cs ∎

four_symbols :
    (a b c : ℕ) (out : List ℕ) (cs : Str)
    → IsByte a
    → IsByte b
    → IsByte c
    → decode_from first 0 out (
        symbol (a / 4)
        ∷ symbol (a % 4 * 16 + b / 16)
        ∷ symbol (b % 16 * 4 + c / 64)
        ∷ symbol (c % 64)
        ∷ cs)
      ≡ decode_from first 0 (out ++ a ∷ b ∷ c ∷ []) cs
unfolding advance
four_symbols a b c out cs ha hb hc =
    three_symbols a b (c / 64) out (symbol (c % 64) ∷ cs) ha hb (omega arith)
    ∙ (decode-symbol (fourth (c / 64)) 0 (c % 64) (out ++ a ∷ b ∷ []) cs (omega arith)
        ∙ (let f : c / 64 * 64 + c % 64 ≡ c = omega arith in
            rw (f, append_assoc out (a ∷ b ∷ []) (c ∷ [])) refl))

-- How much padding the text of some bytes lacks.
pads_of : List ℕ → ℕ
pads_of [] = 0
pads_of (a ∷ []) = 2
pads_of (a ∷ b ∷ []) = 1
pads_of (a ∷ b ∷ c ∷ rest) = pads_of rest

length-pads : (bs : List ℕ) → (4 - length (b64url bs) % 4) % 4 ≡ pads_of bs
unfolding b64url pads_of
length-pads [] = refl
length-pads (a ∷ []) = refl
length-pads (a ∷ b ∷ []) = refl
length-pads (a ∷ b ∷ c ∷ rest) = omega (arith, length-pads rest)

third-padding : (left : ℕ) (out : List ℕ) → decode_from (third left) 0 out (padding 2) ≡ some out
unfolding padding decode_from is_padded next_pads
third-padding left out = refl

fourth-padding : (left : ℕ) (out : List ℕ) → decode_from (fourth left) 0 out (padding 1) ≡ some out
unfolding padding decode_from is_padded next_pads
fourth-padding left out = refl

decode-b64url :
    (bs out : List ℕ)
    → All IsByte bs
    → decode_from first 0 out (b64url bs ++ padding (pads_of bs)) ≡ some (out ++ bs)
unfolding b64url pads_of
decode-b64url [] out h = unfold padding decode_from finished in ap some (sym (append-nil out))
decode-b64url (a ∷ []) out h =
    let e : a % 4 * 16 ≡ a % 4 * 16 + 0 = omega arith in
    rw e (two_symbols a 0 out (padding 2) h.0 (omega arith) ∙ third-padding 0 (out ++ a ∷ []))
decode-b64url (a ∷ b ∷ []) out h =
    let e : b % 16 * 4 ≡ b % 16 * 4 + 0 = omega arith in
    rw e (
      three_symbols a b 0 out (padding 1) h.0 h.1.0 (omega arith)
      ∙ fourth-padding 0 (out ++ a ∷ b ∷ []))
decode-b64url (a ∷ b ∷ c ∷ rest) out h =
    four_symbols a b c out (b64url rest ++ padding (pads_of rest)) h.0 h.1.0 h.1.1.0
    ∙ (decode-b64url rest (out ++ a ∷ b ∷ c ∷ []) h.1.1.1
        ∙ ap some (append_assoc out (a ∷ b ∷ c ∷ []) rest))

is_ascii-b64url : (bs : List ℕ) → All IsByte bs → is_ascii (b64url bs) ≡ true
unfolding is_ascii b64url
is_ascii-b64url [] h = refl
is_ascii-b64url (a ∷ []) h =
    let s = symbol-IsLetter (a / 4) (omega arith) in
    let t = symbol-IsLetter (a % 4 * 16) (omega arith) in rw (s.ascii, t.ascii) refl
is_ascii-b64url (a ∷ b ∷ []) h =
    let s = symbol-IsLetter (a / 4) (omega arith) in
    let t = symbol-IsLetter (a % 4 * 16 + b / 16) (omega arith) in
    let u = symbol-IsLetter (b % 16 * 4) (omega arith) in rw (s.ascii, t.ascii, u.ascii) refl
is_ascii-b64url (a ∷ b ∷ c ∷ rest) h =
    let s = symbol-IsLetter (a / 4) (omega arith) in
    let t = symbol-IsLetter (a % 4 * 16 + b / 16) (omega arith) in
    let u = symbol-IsLetter (b % 16 * 4 + c / 64) (omega arith) in
    let v = symbol-IsLetter (c % 64) (omega arith) in
    rw (s.ascii, t.ascii, u.ascii, v.ascii) (is_ascii-b64url rest h.1.1.1)

-- Every text of bytes that is written without padding is read back.
pub b64url_decode-b64url : (bs : List ℕ) → All IsByte bs → b64url_decode (b64url bs) ≡ some bs
unfolding b64url_decode
b64url_decode-b64url bs h =
    rw (b64url_decode, is_ascii-b64url bs h, length-pads bs) (decode-b64url bs [] h)

-- No character that is written is a dot.
symbol-ne-dot : (v : ℕ) → v < 64 → (symbol v == b'.') ≡ false
unfolding passes_to symbol
symbol-ne-dot v h =
    ground (arith, passes_at (λ x. if symbol x == b'.' then false else true) 64 v h refl)

-- `text.count(".")`
abbrev pub dots : Str → ℕ
dots [] = 0
dots (c ∷ cs) = if c == b'.' then suc (dots cs) else dots cs

pub dots-b64url : (bs : List ℕ) → All IsByte bs → dots (b64url bs) ≡ 0
unfolding b64url
dots-b64url [] h = refl
dots-b64url (a ∷ []) h =
    rw (symbol-ne-dot (a / 4) (omega arith), symbol-ne-dot (a % 4 * 16) (omega arith)) refl
dots-b64url (a ∷ b ∷ []) h =
    rw
      (
        symbol-ne-dot (a / 4) (omega arith),
        symbol-ne-dot (a % 4 * 16 + b / 16) (omega arith),
        symbol-ne-dot (b % 16 * 4) (omega arith),
      )
      refl
dots-b64url (a ∷ b ∷ c ∷ rest) h =
    rw
      (
        symbol-ne-dot (a / 4) (omega arith),
        symbol-ne-dot (a % 4 * 16 + b / 16) (omega arith),
        symbol-ne-dot (b % 16 * 4 + c / 64) (omega arith),
        symbol-ne-dot (c % 64) (omega arith),
      )
      (dots-b64url rest h.1.1.1)
