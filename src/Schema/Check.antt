-- ===== src/Schema/Check.antt =====
-- app/schemas/agent_schemas.py: the checks of `Place` and of the texts in the model's answers, and
-- the validators of `SelectedPlace` that mend a value.
use map_service_agent.Prelude.{
  ℕ, Bool, true, not, ◌&&◌, Option, none, some, List, [], ◌∷◌, leb, between, length, take,
  if◌then◌else◌,
}
use map_service_agent.Value.{Str, Float, float_le, is_blank, strip}
use map_service_agent.Sanitize.{neutralize}
use map_service_agent.Sanitize.Output.{forbidden_text}
use map_service_agent.Schema.Model.{Place}

-- 33.0, 43.0, 124.0 and 132.0
abbrev pub lat_min : Float
lat_min = record { bits = 0x4040800000000000 }

abbrev pub lat_max : Float
lat_max = record { bits = 0x4045800000000000 }

abbrev pub lng_min : Float
lng_min = record { bits = 0x405f000000000000 }

abbrev pub lng_max : Float
lng_max = record { bits = 0x4060800000000000 }

-- `Field(ge=…, le=…)` of the coordinates
unfoldable pub in_korea : Float → Float → Bool
in_korea lat lng =
    float_le lat_min lat && float_le lat lat_max && float_le lng_min lng && float_le lng lng_max

-- `_reject_tags_and_control`: true if the value passes
unfoldable pub allowed : Str → Bool
allowed s = not (forbidden_text s)

abbrev pub optional : (Str → Bool) → Option Str → Bool
optional p none = true
optional p (some s) = p s

abbrev pub at_most : ℕ → Str → Bool
at_most n s = leb (length s) n

abbrev pub bullet_max_len : ℕ
bullet_max_len = 80

-- `_reject_tags_and_control_list`, of texts: none is blank, too long or forbidden
unfoldable pub allowed_bullets : List Str → Bool
allowed_bullets [] = true
allowed_bullets (b ∷ bs) =
    not (is_blank b) && at_most bullet_max_len b && allowed b && allowed_bullets bs

-- The texts of a place that may come from outside.
unfoldable pub texts_allowed : Place → Bool
texts_allowed p =
    allowed p.name
    && allowed p.address
    && allowed p.recommended_visit_time
    && optional allowed p.content_id
    && optional allowed p.source
    && optional allowed p.category
    && optional allowed p.category_group_code
    && optional allowed p.phone
    && optional allowed p.place_url
    && optional allowed p.brd_div
    && optional allowed p.gpx_url
    && optional allowed p.route_idx

unfoldable pub sizes_allowed : Place → Bool
sizes_allowed p =
    leb 1 p.day
    && between 1 80 (length p.name)
    && at_most 200 p.address
    && at_most 50 p.recommended_visit_time

-- `Place(…)` as the program calls it, with no field of the time axis and no generated text
unfoldable pub validated : Place → Option Place
validated p = if in_korea p.lat p.lng && sizes_allowed p && texts_allowed p then some p else none

-- `_first_day_when_null`
abbrev pub first_day_when_null : Option ℕ → ℕ
first_day_when_null none = 1
first_day_when_null (some d) = d

-- `_blank_when_null`
abbrev pub blank_when_null : Option Str → Str
blank_when_null none = []
blank_when_null (some s) = s

abbrev pub category_max : ℕ
category_max = 80

abbrev pub none_if_empty : Str → Option Str
none_if_empty [] = none
none_if_empty (c ∷ s) = some (c ∷ s)

-- `_tidy_category` of a text
unfoldable pub tidy_category : Str → Option Str
tidy_category value = none_if_empty (take category_max (strip (neutralize value)))
