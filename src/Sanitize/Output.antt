-- ===== src/Sanitize/Output.antt =====
-- app/security/sanitize.py, text for display: `neutralize_tags` against the validator of
-- app/schemas/agent_schemas.py.
use map_service_agent.Prelude.{ℕ, Bool, false, ◌||◌, [], ◌∷◌, ◌≡◌, refl, any, Bool-cases, inl, inr}
use map_service_agent.Value.{Str}
use map_service_agent.Sanitize.{is_control, is_tag, replace_tag, neutralize}

-- `_FORBIDDEN_TEXT_RE`, of one code point
unfoldable pub is_forbidden : ℕ → Bool
is_forbidden c = is_tag c || is_control c

-- `_reject_tags_and_control(value)` raises on a text exactly if this search succeeds.
unfoldable pub forbidden_text : Str → Bool
forbidden_text s = any is_forbidden s

replace_tag-allowed : (c : ℕ) → is_control c ≡ false → is_forbidden (replace_tag c) ≡ false
unfolding is_forbidden
replace_tag-allowed c h = elim (Bool-cases (is_tag c)) [
  | inl t ↦ rw t (unfold is_tag is_control in refl)
  | inr f ↦ rw f (rw (f, h) refl)
]

neutralize-cons :
    (c : ℕ) (s : Str)
    → forbidden_text (neutralize s) ≡ false
    → forbidden_text (neutralize (c ∷ s)) ≡ false
unfolding neutralize forbidden_text
neutralize-cons c s h = elim (Bool-cases (is_control c)) [
  | inl e ↦ rw e h
  | inr e ↦ rw e (rw (replace_tag-allowed c e) h)
]

-- A neutralised text passes the validator of every text field of `Place`.
neutralize-passes : (s : Str) → forbidden_text (neutralize s) ≡ false
neutralize-passes [] = unfold neutralize forbidden_text in refl
neutralize-passes (c ∷ s) = neutralize-cons c s (neutralize-passes s)
