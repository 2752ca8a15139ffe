-- ===== src/Sanitize/Struct.antt =====
-- app/security/sanitize.py, `sanitize_struct`: every text in the copy, keys included, is sanitised,
-- and the copy is no deeper than the limit.
use map_service_agent.Prelude.{ℕ, zero, suc, ◌≤◌, refl, All, length, Bool-cases, inl, inr, [], ◌∷◌}
use map_service_agent.Value.{
  Str, Json, null, bool, int, float, str, arr, obj, Items, nil, cons, Fields, end, field, str_eq,
}
use map_service_agent.Sanitize.{
  is_control, is_tag, sanitize_text, put, sanitize_struct, sanitize_items, sanitize_fields,
}
use map_service_agent.Sanitize.View.{IsInert, sanitize_text-IsInert}

abbrev pub IsView : ℕ → Str → Type 0
IsView n s = All IsInert s × (length s ≤ n)

unfoldable mutual
  -- Every text and key is a view of at most `n` characters, and containers nest `d` deep at most.
  pub Fits : ℕ → ℕ → Json → Type 0
  Fits n d (str s) = IsView n s
  Fits n zero (arr vs) = ⊥
  Fits n (suc d) (arr vs) = FitsItems n d vs
  Fits n zero (obj fs) = ⊥
  Fits n (suc d) (obj fs) = FitsFields n d fs
  Fits n d null = Unit
  Fits n d (bool b) = Unit
  Fits n d (int z) = Unit
  Fits n d (float x) = Unit

  pub FitsItems : ℕ → ℕ → Items → Type 0
  FitsItems n d nil = Unit
  FitsItems n d (cons v vs) = Fits n d v × FitsItems n d vs

  pub FitsFields : ℕ → ℕ → Fields → Type 0
  FitsFields n d end = Unit
  FitsFields n d (field k v fs) = IsView n k × Fits n d v × FitsFields n d fs

placeholder-IsView : (n : ℕ) → 1 ≤ n → IsView n (0x2026 ∷ [])
unfolding is_tag is_control
placeholder-IsView n h = (((refl, refl, λ e. cc), tt), h)

put-FitsFields :
    (n d : ℕ) (k : Str) (v : Json) (fs : Fields)
    → IsView n k
    → Fits n d v
    → FitsFields n d fs
    → FitsFields n d (put k v fs)
unfolding put Fits FitsFields
put-FitsFields n d k v end hk hv h = (hk, hv, tt)
put-FitsFields n d k v (field j w fs) hk hv h = elim (Bool-cases (str_eq j k)) [
  | inl e ↦ rw e (h.0, hv, h.2)
  | inr e ↦ rw e (h.0, h.1, put-FitsFields n d k v fs hk hv h.2)
]

mutual
  unfolding sanitize_struct Fits

  struct-Fits : (n d : ℕ) (v : Json) → 1 ≤ n → Fits n d (sanitize_struct n d v)
  struct-Fits n d (str s) h = sanitize_text-IsInert s n
  struct-Fits n zero (arr vs) h = placeholder-IsView n h
  struct-Fits n (suc d) (arr vs) h = items-Fits n d vs h
  struct-Fits n zero (obj fs) h = placeholder-IsView n h
  struct-Fits n (suc d) (obj fs) h = fields-Fits n d fs end h tt
  struct-Fits n d null h = tt
  struct-Fits n d (bool b) h = tt
  struct-Fits n d (int z) h = tt
  struct-Fits n d (float x) h = tt

  items-Fits : (n d : ℕ) (vs : Items) → 1 ≤ n → FitsItems n d (sanitize_items n d vs)
  items-Fits n d nil h = tt
  items-Fits n d (cons v vs) h = (struct-Fits n d v h, items-Fits n d vs h)

  fields-Fits :
      (n d : ℕ) (fs out : Fields)
      → 1 ≤ n
      → FitsFields n d out
      → FitsFields n d (sanitize_fields n d fs out)
  fields-Fits n d end out h k = k
  fields-Fits n d (field j v fs) out h k =
      fields-Fits n d fs (put (sanitize_text j n) (sanitize_struct n d v) out) h (
        put-FitsFields n d (sanitize_text j n) (sanitize_struct n d v) out
          (sanitize_text-IsInert j n) (struct-Fits n d v h) k)

-- Whatever the value, where the given length is 1 or more, every text in its sanitised copy, keys
-- included, is an inert view of at most that length, and containers are no deeper than the limit.
pub sanitize_struct-Fits : (n d : ℕ) (v : Json) → 1 ≤ n → Fits n d (sanitize_struct n d v)
sanitize_struct-Fits n d v h = struct-Fits n d v h
