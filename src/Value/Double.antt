-- ===== src/Value/Double.antt =====
-- A Python `float`: the bits of an IEEE 754 double. The comparisons are those of the standard;
-- arithmetic is a parameter of the models that use it.
use map_service_agent.Prelude.{ℕ, ◌%◌, ◌^◌, Bool, true, not, ◌&&◌, leb, ltb, ◌==◌, if◌then◌else◌}

pub record Float : Type 0 where
  pub bits : ℕ

-- `-0.0` and every negative number have the sign bit.
abbrev pub is_negative : Float → Bool
is_negative x = leb (2 ^ 63) x.bits

abbrev pub magnitude : Float → ℕ
magnitude x = x.bits % 2 ^ 63

abbrev pub is_nan : Float → Bool
is_nan x = ltb 0x7ff0000000000000 (magnitude x)

-- `math.isfinite(x)`
abbrev pub is_finite : Float → Bool
is_finite x = ltb (magnitude x) 0x7ff0000000000000

-- `x <= y`
abbrev pub float_le : Float → Float → Bool
float_le x y =
    not (is_nan x)
    && not (is_nan y)
    && (if is_negative x
        then if is_negative y then leb (magnitude y) (magnitude x) else true
        else if is_negative y
        then magnitude x == 0 && magnitude y == 0
        else leb (magnitude x) (magnitude y))

abbrev pub hundred : Float
hundred = record { bits = 0x4059000000000000 }

abbrev pub zero_float : Float
zero_float = record { bits = 0 }

-- `x < y`
abbrev pub float_lt : Float → Float → Bool
float_lt x y = float_le x y && not (float_le y x)

-- Arithmetic and the `math` functions, as the models need them.
pub record FloatOps : Type 0 where
  pub add : Float → Float → Float
  pub sub : Float → Float → Float
  pub mul : Float → Float → Float
  pub div : Float → Float → Float
  pub of_nat : ℕ → Float
  -- `x ** n`
  pub pow_nat : Float → ℕ → Float
  pub radians : Float → Float
  pub sin : Float → Float
  pub cos : Float → Float
  pub asin : Float → Float
  pub sqrt : Float → Float
  -- `int(round(x))`, of a number that is not negative
  pub round_nat : Float → ℕ
  -- `round(x, 2)`
  pub round_2 : Float → Float
  -- `int(x)`, of a number that is not negative
  pub trunc_nat : Float → ℕ
