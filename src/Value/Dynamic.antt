-- ===== src/Value/Dynamic.antt =====
-- JSON values as `json.loads` gives them, with Python's tests on them.
use map_service_agent.Prelude.{
  ℕ, suc, zero, Bool, true, false, List, [], ◌∷◌, Option, none, some, not, if◌then◌else◌, ◌==◌,
  String,
}
use map_service_agent.Value.Text.{Str, str_eq, codes}
use map_service_agent.Value.Double.{Float, magnitude}

-- `negsuc n` is -(n + 1).
pub data ℤ : Type 0 where
  pos : ℕ → ℤ
  negsuc : ℕ → ℤ

mutual
  pub data Json : Type 0 where
    null : Json
    bool : Bool → Json
    int : ℤ → Json
    float : Float → Json
    str : Str → Json
    arr : Items → Json
    obj : Fields → Json

  pub data Items : Type 0 where
    nil : Items
    cons : Json → Items → Items

  pub data Fields : Type 0 where
    end : Fields
    field : Str → Json → Fields → Fields

abbrev pub to_list : Items → List Json
to_list nil = []
to_list (cons v vs) = v ∷ to_list vs

abbrev pub of_list : List Json → Items
of_list [] = nil
of_list (v ∷ vs) = cons v (of_list vs)

-- `d.get(k)` on the fields of a dict; a key that is missing gives `None`.
abbrev pub find : Str → Fields → Option Json
find k end = none
find k (field j v fs) = if str_eq j k then some v else find k fs

abbrev pub or_null : Option Json → Json
or_null none = null
or_null (some v) = v

-- `v.get(k)` where `v` is a dict, and `None` for all else.
abbrev pub get : String → Json → Json
get k (obj fs) = or_null (find (codes k) fs)
get k _ = null

-- `bool(v)`
abbrev pub truthy : Json → Bool
truthy null = false
truthy (bool b) = b
truthy (int (pos zero)) = false
truthy (int (pos (suc n))) = true
truthy (int (negsuc n)) = true
truthy (float x) = not (magnitude x == 0)
truthy (str []) = false
truthy (str (c ∷ s)) = true
truthy (arr nil) = false
truthy (arr (cons v vs)) = true
truthy (obj end) = false
truthy (obj (field k v fs)) = true

abbrev pub is_obj : Json → Bool
is_obj (obj fs) = true
is_obj _ = false

abbrev pub is_null : Json → Bool
is_null null = true
is_null _ = false
