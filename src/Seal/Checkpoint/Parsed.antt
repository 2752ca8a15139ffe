-- ===== src/Seal/Checkpoint/Parsed.antt =====
-- app/crypto/checkpoint_seal.py, `parse_keys`: the keys have 32 bytes under kids of their own.
use map_service_agent.Prelude.{
  ℕ, ◌≡◌, refl, ◌∙◌, true, false, not, ◌||◌, Option, none, some, List, [], ◌∷◌, ◌++◌, length, arith,
  Bool-cases, inl, inr, if◌then◌else◌, ◌==◌,
}
use map_service_agent.Value.{Str, str_eq, str_eq-flip, strip}
use map_service_agent.Nodes.Candidates.{and_then}
use map_service_agent.Seal.Checkpoint.{
  partition_at, Keys, find_key, is_none, is_nil, add_decoded, add_named, add_entry, add_entries,
  unless_no_keys, parse_keys,
}

-- Every key has 32 bytes, and no kid stands twice.
abbrev pub AreKeys : Keys → Type 0
AreKeys [] = Unit
AreKeys ((kid, key) ∷ keys) = (length key ≡ 32) × (find_key kid keys ≡ none) × AreKeys keys

pub find_key-append :
    (i kid : Str) (key : List ℕ) (keys : Keys)
    → find_key i (keys ++ (kid, key) ∷ []) ≡ (
        if is_none (find_key i keys)
        then (if str_eq kid i then some key else none)
        else find_key i keys)
unfolding find_key
find_key-append i kid key [] = refl
find_key-append i kid key ((j, k) ∷ keys) = elim (Bool-cases (str_eq j i)) [
  | inl e ↦ rw e refl
  | inr e ↦ rw e (find_key-append i kid key keys)
]

-- A kid that is not among the keys differs from each of theirs.
pub missing-cons :
    (kid j : Str) (k : List ℕ) (keys : Keys)
    → find_key kid ((j, k) ∷ keys) ≡ none
    → (str_eq j kid ≡ false) × (find_key kid keys ≡ none)
unfolding find_key
missing-cons kid j k keys h = elim (Bool-cases (str_eq j kid)) [
  | inl e ↦ let bad = rw e at h in cc bad
  | inr e ↦ let rest = rw e at h in (e, rest)
]

pub AreKeys-append :
    (kid : Str) (key : List ℕ) (keys : Keys)
    → length key ≡ 32
    → find_key kid keys ≡ none
    → AreKeys keys
    → AreKeys (keys ++ (kid, key) ∷ [])
AreKeys-append kid key [] l m h = (l, unfold find_key in refl, tt)
AreKeys-append kid key ((j, k) ∷ keys) l m h =
    let (differs, missing) = missing-cons kid j k keys m in
    (
      h.0,
      find_key-append j kid key keys ∙ rw (h.1, str_eq-flip j kid differs) refl,
      AreKeys-append kid key keys l missing h.2,
    )

pub is_none-eq {ℓ} : {A : Type ℓ} (o : Option A) → is_none o ≡ true → o ≡ none
is_none-eq none h = refl
is_none-eq (some a) h = cc h

-- What a step of the parser gives, if it gives anything.
abbrev pub Gives {ℓ} : {A : Type ℓ} → (A → Type 0) → Option A → Type 0
Gives P none = Unit
Gives P (some a) = P a

pub and_then-Gives {ℓ κ} :
    {A : Type ℓ} (P : A → Type 0) {B : Type κ} (Q : B → Type 0) (o : Option A) (f : A → Option B)
    → Gives P o
    → ((a : A) → P a → Gives Q (f a))
    → Gives Q (and_then o f)
and_then-Gives P Q none f h g = tt
and_then-Gives P Q (some a) f h g = g a h

pub add_decoded-AreKeys :
    (keys : Keys) (kid : Str) (o : Option (List ℕ))
    → find_key kid keys ≡ none
    → AreKeys keys
    → Gives AreKeys (add_decoded keys kid o)
unfolding add_decoded
add_decoded-AreKeys keys kid none m h = tt
add_decoded-AreKeys keys kid (some key) m h = elim (Bool-cases (length key == 32)) [
  | inl e ↦ rw e (AreKeys-append kid key keys (ground arith) m h)
  | inr e ↦ rw e tt
]

module _ (decode : Str → Option (List ℕ)) where
  pub add_named-AreKeys :
      (keys : Keys) (kid encoded : Str)
      → AreKeys keys
      → Gives AreKeys (add_named decode keys kid encoded)
  unfolding add_named
  add_named-AreKeys keys kid encoded h =
      elim (Bool-cases (is_nil kid || not (is_none (find_key kid keys)))) [
        | inl e ↦ rw e tt
        | inr e ↦ rw e (
            add_decoded-AreKeys keys kid (decode (strip encoded))
              (is_none-eq (find_key kid keys) (ground arith)) h)
      ]

  pub add_entry-AreKeys :
      (keys : Keys) (entry : Option (Str × Str))
      → AreKeys keys
      → Gives AreKeys (add_entry decode keys entry)
  unfolding add_entry
  add_entry-AreKeys keys none h = tt
  add_entry-AreKeys keys (some (kid, encoded)) h = add_named-AreKeys keys (strip kid) encoded h

  pub add_entries-AreKeys :
      (keys : Keys) (entries : List Str)
      → AreKeys keys
      → Gives AreKeys (add_entries decode keys entries)
  unfolding add_entries
  add_entries-AreKeys keys [] h = h
  add_entries-AreKeys keys (entry ∷ entries) h =
      and_then-Gives AreKeys AreKeys (add_entry decode keys (partition_at b':' entry)) _
        (add_entry-AreKeys keys (partition_at b':' entry) h)
        (λ more m. add_entries-AreKeys more entries m)

  pub unless_no_keys-AreKeys :
      (o : Option Keys) → Gives AreKeys o → Gives AreKeys (unless_no_keys decode o)
  unfolding unless_no_keys
  unless_no_keys-AreKeys none h = tt
  unless_no_keys-AreKeys (some []) h = tt
  unless_no_keys-AreKeys (some (k ∷ ks)) h = h

  pub parse_keys-AreKeys : (raw : Str) → Gives AreKeys (parse_keys decode raw)
  unfolding parse_keys
  parse_keys-AreKeys raw =
      unless_no_keys-AreKeys (add_entries decode [] _) (add_entries-AreKeys [] _ tt)
