-- ===== src/Llm/StructuredCall/Feedback.antt =====
-- app/llm/structured_call.py: what the corrective prompt lets through of the model's own text.
use map_service_agent.Prelude.{ℕ, suc, ◌+◌, ◌≡◌, refl, [], ◌∷◌, ◌++◌, if◌then◌else◌, All, arith}
use map_service_agent.Value.{Str}
use map_service_agent.Sanitize.{is_tag, sanitize_text}
use map_service_agent.Sanitize.View.{IsInert, sanitize_text-IsInert}
use map_service_agent.Llm.StructuredCall.{
  escape_feedback, corrective, feedback_head, feedback_middle, feedback_tail,
}

-- How many characters of the text could open or close a tag.
abbrev pub tags : Str → ℕ
tags [] = 0
tags (c ∷ s) = if is_tag c then suc (tags s) else tags s

tags-append : (s t : Str) → tags (s ++ t) ≡ tags s + tags t
tags-append [] t = omega arith
tags-append (c ∷ s) t = ground (arith, tags-append s t)

tags-IsInert : (s : Str) → All IsInert s → tags s ≡ 0
tags-IsInert [] h = refl
tags-IsInert (c ∷ s) h = rw (h.0.0) (tags-IsInert s h.1)

tags-escape_feedback : (s : Str) → tags (escape_feedback s) ≡ 0
unfolding escape_feedback
tags-escape_feedback s = tags-IsInert (sanitize_text s 500) (sanitize_text-IsInert s 500).0

tags-feedback_head : tags feedback_head ≡ 2
unfolding feedback_head is_tag
tags-feedback_head = refl

tags-feedback_middle : tags feedback_middle ≡ 0
unfolding feedback_middle is_tag
tags-feedback_middle = refl

tags-feedback_tail : tags feedback_tail ≡ 2
unfolding feedback_tail is_tag
tags-feedback_tail = refl

-- Whatever the model wrote and whatever the error says, the corrective prompt has the tags of the
-- first prompt and the four brackets of its own feedback tag, and no other.
pub tags-corrective :
    (cause prompt raw_text : Str) → tags (corrective cause prompt raw_text) ≡ tags prompt + 4
unfolding corrective
tags-corrective cause prompt raw_text =
    simp
      (
        tags-append, tags-escape_feedback, tags-feedback_head, tags-feedback_middle,
        tags-feedback_tail,
      )
      refl
