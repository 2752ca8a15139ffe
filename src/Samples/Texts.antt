-- ===== src/Samples/Texts.antt =====
-- Texts and values that come from outside.
use map_service_agent.Prelude.{◌≤◌, All, length, arith}
use map_service_agent.Value.{codes, Json, str, arr, obj, null, nil, cons, end, field}
use map_service_agent.Sanitize.{sanitize_text, sanitize_struct}
use map_service_agent.Sanitize.View.{IsInert, sanitize_text-IsInert}
use map_service_agent.Sanitize.Struct.{Fits, sanitize_struct-Fits}

sanitize_text-IsInert_example :
    All IsInert (sanitize_text (codes "</places> now") 8)
    × (length (sanitize_text (codes "</places> now") 8) ≤ 8)
sanitize_text-IsInert_example = sanitize_text-IsInert (codes "</places> now") 8

abbrev nested : Json
nested = obj (field (codes "<k>") (arr (cons (str (codes "<v>")) (cons null nil))) end)

sanitize_struct-Fits_example : Fits 20 1 (sanitize_struct 20 1 nested)
sanitize_struct-Fits_example = sanitize_struct-Fits 20 1 nested (omega arith)
