-- ===== src/Llm/PromptJson.antt =====
-- app/llm/prompt_json.py: empty values are taken out of what goes into a prompt. The text that
-- `json.dumps` writes of the rest is the library's.
use map_service_agent.Prelude.{
  Bool, true, false, ◌≡◌, refl, ap, Bool-cases, inl, inr, [], if◌then◌else◌,
}
use map_service_agent.Value.{
  Str, Json, null, bool, int, float, str, arr, obj, Items, nil, cons, Fields, end, field,
}

-- `_is_empty`
unfoldable pub is_empty : Json → Bool
is_empty null = true
is_empty (str []) = true
is_empty (arr nil) = true
is_empty (obj end) = true
is_empty _ = false

unfoldable mutual
  pub prune_empty : Json → Json
  prune_empty (obj fs) = obj (prune_fields fs)
  prune_empty (arr vs) = arr (prune_items vs)
  prune_empty null = null
  prune_empty (bool b) = bool b
  prune_empty (int z) = int z
  prune_empty (float x) = float x
  prune_empty (str s) = str s

  pub prune_items : Items → Items
  prune_items nil = nil
  prune_items (cons v vs) =
      if is_empty (prune_empty v) then prune_items vs else cons (prune_empty v) (prune_items vs)

  pub prune_fields : Fields → Fields
  prune_fields end = end
  prune_fields (field k v fs) =
      if is_empty (prune_empty v)
      then prune_fields fs
      else field k (prune_empty v) (prune_fields fs)

-- `dump_prompt_json`; `dumps` is `json.dumps` with its options.
unfoldable pub dump_prompt_json : (dumps : Json → Str) → Json → Str
dump_prompt_json dumps value = dumps (prune_empty value)

unfoldable mutual
  -- No element of a list and no value of a field is empty, however deep it stands.
  pub HasNoEmpty : Json → Type 0
  HasNoEmpty (arr vs) = ItemsFull vs
  HasNoEmpty (obj fs) = FieldsFull fs
  HasNoEmpty null = Unit
  HasNoEmpty (bool b) = Unit
  HasNoEmpty (int z) = Unit
  HasNoEmpty (float x) = Unit
  HasNoEmpty (str s) = Unit

  pub ItemsFull : Items → Type 0
  ItemsFull nil = Unit
  ItemsFull (cons v vs) = (is_empty v ≡ false) × HasNoEmpty v × ItemsFull vs

  pub FieldsFull : Fields → Type 0
  FieldsFull end = Unit
  FieldsFull (field k v fs) = (is_empty v ≡ false) × HasNoEmpty v × FieldsFull fs

mutual
  unfolding prune_empty HasNoEmpty

  prune-full : (v : Json) → HasNoEmpty (prune_empty v)
  prune-full (obj fs) = fields-full fs
  prune-full (arr vs) = items-full vs
  prune-full null = tt
  prune-full (bool b) = tt
  prune-full (int z) = tt
  prune-full (float x) = tt
  prune-full (str s) = tt

  items-full : (vs : Items) → ItemsFull (prune_items vs)
  items-full nil = tt
  items-full (cons v vs) = elim (Bool-cases (is_empty (prune_empty v))) [
    | inl e ↦ rw e (items-full vs)
    | inr e ↦ rw e (e, prune-full v, items-full vs)
  ]

  fields-full : (fs : Fields) → FieldsFull (prune_fields fs)
  fields-full end = tt
  fields-full (field k v fs) = elim (Bool-cases (is_empty (prune_empty v))) [
    | inl e ↦ rw e (fields-full fs)
    | inr e ↦ rw e (e, prune-full v, fields-full fs)
  ]

mutual
  unfolding prune_empty HasNoEmpty

  full-pruned : (v : Json) → HasNoEmpty v → prune_empty v ≡ v
  full-pruned (obj fs) h = ap obj (fields-pruned fs h)
  full-pruned (arr vs) h = ap arr (items-pruned vs h)
  full-pruned null h = refl
  full-pruned (bool b) h = refl
  full-pruned (int z) h = refl
  full-pruned (float x) h = refl
  full-pruned (str s) h = refl

  items-pruned : (vs : Items) → ItemsFull vs → prune_items vs ≡ vs
  items-pruned nil h = refl
  items-pruned (cons v vs) h = rw (full-pruned v h.1, h.0, items-pruned vs h.2) refl

  fields-pruned : (fs : Fields) → FieldsFull fs → prune_fields fs ≡ fs
  fields-pruned end h = refl
  fields-pruned (field k v fs) h = rw (full-pruned v h.1, h.0, fields-pruned fs h.2) refl

-- What is pruned holds no empty value at any depth, so that pruning once is enough.
prune_empty-HasNoEmpty :
    (v : Json) → HasNoEmpty (prune_empty v) × (prune_empty (prune_empty v) ≡ prune_empty v)
prune_empty-HasNoEmpty v = (prune-full v, full-pruned (prune_empty v) (prune-full v))
