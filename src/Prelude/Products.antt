-- ===== src/Prelude/Products.antt =====
-- Products with an unknown factor, which `omega` takes as they stand.
use Prim.Native.Nat.{ℕ, ◌+◌, ◌*◌, ◌≤◌}
use mathlib.Core.Path.{◌≡◌}
use native.Mathlib.Omega.{arith}

pub mul-split : (a b c r : ℕ) → a ≡ b + c → a * r ≡ b * r + c * r
mul-split a b c r e = grind arith

pub mul_mono : (a b r : ℕ) → a ≤ b → a * r ≤ b * r
mul_mono a b r h = grind arith
