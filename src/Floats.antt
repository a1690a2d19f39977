-- ===== src/Floats.antt =====
-- `f32` and `f64`: the program clamps them, compares them, and does no arithmetic on them. The type
-- and its operations are the Rust core library's.
use zel.Prelude.{Bool, true, false, ◌≡◌}

pub record Floats : Type 1 where
  pub Float : Type 0
  -- `a <= b`, which is false where one of the two is NaN.
  pub le : Float → Float → Bool
  pub zero : Float
  pub half : Float
  pub one : Float
  pub two : Float
  pub clamp : Float → Float → Float → Float
  -- A value that equals itself is no NaN, and is clamped into the range.
  pub clamp_bounds :
      (x : Float)
      → le x x ≡ true
      → (le zero (clamp x zero one) ≡ true) × (le (clamp x zero one) one ≡ true)
  pub half_bounds : (le zero half ≡ true) × (le half one ≡ true)
  pub two_gt_one : le two one ≡ false
  pub nan_le : (x y : Float) → le x x ≡ false → le x y ≡ false
