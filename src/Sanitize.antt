-- ===== src/Sanitize.antt =====
-- app/security/sanitize.py: text that goes into a prompt, and text that goes out for display.
pub mod Output
pub mod View
pub mod Struct
use map_service_agent.Prelude.{
  ℕ, zero, suc, Bool, true, false, not, ◌&&◌, ◌||◌, List, [], ◌∷◌, ◌++◌, map, leb, ◌==◌, take, keep,
  any, if◌then◌else◌, Option, none, some, between,
}
use map_service_agent.Value.{
  Str, codes, is_space, strip, Json, null, bool, int, float, str, arr, obj, Items, nil, cons,
  Fields, end, field, str_eq,
}

-- `_CONTROL_RE`, of one code point
unfoldable pub is_control : ℕ → Bool
is_control c =
    leb c 8
    || c == 0x0b
    || c == 0x0c
    || between 0x0e 0x1f c
    || between 0x7f 0x9f c
    || between 0x200b 0x200f c
    || c == 0x2028
    || c == 0x2029
    || between 0x202a 0x202e c
    || between 0x2066 0x2069 c
    || between 0x2060 0x2064 c
    || c == 0xfeff
    || between 0xe0000 0xe007f c

-- `_TAG_CHARS_RE`, of one code point: `<`, `>` and their full-width forms
unfoldable pub is_tag : ℕ → Bool
is_tag c = c == b'<' || c == b'>' || c == 0xff1c || c == 0xff1e

-- `_CONTROL_RE.sub("", value)`
abbrev pub drop_control : Str → Str
drop_control s = keep (λ c. not (is_control c)) s

abbrev pub replace_tag : ℕ → ℕ
replace_tag c = if is_tag c then b'/' else c

-- `neutralize_tags` of a text
unfoldable pub neutralize : Str → Str
neutralize s = map replace_tag (drop_control s)

-- `neutralize_tags` of any value: all but texts pass
unfoldable pub neutralize_tags : Json → Json
neutralize_tags (str s) = str (neutralize s)
neutralize_tags v = v

-- `_WHITESPACE_RE.sub(" ", text)`; the flag says that the code point before was a space
unfoldable pub collapse : Bool → Str → Str
collapse after_space [] = []
collapse after_space (c ∷ s) =
    let rest = collapse (is_space c) s in
    if is_space c then if after_space then rest else b' ' ∷ rest else c ∷ rest

-- The four `replace` calls: none of their results holds a character that another one replaces.
unfoldable pub escape : Str → Str
escape [] = []
escape (c ∷ s) =
    let rest = escape s in
    if c == b'<' || c == 0xff1c
    then b'&' ∷ b'l' ∷ b't' ∷ b';' ∷ rest
    else if c == b'>' || c == 0xff1e
    then b'&' ∷ b'g' ∷ b't' ∷ b';' ∷ rest
    else c ∷ rest

unfoldable pub sanitize_text : Str → ℕ → Str
sanitize_text value max_len = take max_len (escape (strip (collapse false (drop_control value))))

-- The mark that stands for a container below the depth limit, `…`.
abbrev pub depth_placeholder : Json
depth_placeholder = str (0x2026 ∷ [])

-- `out[k] = v`: a key that is there keeps its place and gets the new value.
unfoldable pub put : Str → Json → Fields → Fields
put k v end = field k v end
put k v (field j w fs) = if str_eq j k then field j v fs else field j w (put k v fs)

unfoldable mutual
  -- `sanitize_struct(obj, str_max=…, depth_max=…)`
  pub sanitize_struct : ℕ → ℕ → Json → Json
  sanitize_struct n d (str s) = str (sanitize_text s n)
  sanitize_struct n zero (arr vs) = depth_placeholder
  sanitize_struct n (suc d) (arr vs) = arr (sanitize_items n d vs)
  sanitize_struct n zero (obj fs) = depth_placeholder
  sanitize_struct n (suc d) (obj fs) = obj (sanitize_fields n d fs end)
  sanitize_struct n d null = null
  sanitize_struct n d (bool b) = bool b
  sanitize_struct n d (int z) = int z
  sanitize_struct n d (float x) = float x

  pub sanitize_items : ℕ → ℕ → Items → Items
  sanitize_items n d nil = nil
  sanitize_items n d (cons v vs) = cons (sanitize_struct n d v) (sanitize_items n d vs)

  -- The fields are added to `out` one by one.
  pub sanitize_fields : ℕ → ℕ → Fields → Fields → Fields
  sanitize_fields n d end out = out
  sanitize_fields n d (field k v fs) out =
      sanitize_fields n d fs (put (sanitize_text k n) (sanitize_struct n d v) out)
