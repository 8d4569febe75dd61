-- ===== src/Doubles.antt =====
-- The floating-point arithmetic that the sources use. There are no laws among the operations: a
-- theorem that needs one takes it as a hypothesis.
use slam_system_manager.Base.{ℕ, Bool, true, false, ◌≡◌, ◌⊎◌, ◌↔◌, arith}

pub record Doubles : Type 1 where
  pub Double : Type 0
  pub lt : Double → Double → Bool
  pub le : Double → Double → Bool
  pub add : Double → Double → Double
  pub sub : Double → Double → Double
  pub mul : Double → Double → Double
  pub div : Double → Double → Double
  pub zero_d : Double
  -- `duration<double>(a - b).count()` of two steady-clock times; negative where a is earlier.
  pub elapsed : ℕ → ℕ → Double
  -- `static_cast<double>` of a size.
  pub of_size : ℕ → Double
  -- `(a - b).seconds()` of two rclcpp::Time with so many nanoseconds; negative where a is earlier.
  pub time_seconds : ℕ → ℕ → Double
  -- The literal n · 10 ^ (- k).
  pub decimal : ℕ → ℕ → Double
  -- std::isfinite, quiet_NaN() and <cmath>.
  pub is_finite : Double → Bool
  pub quiet_nan : Double
  pub sqrt : Double → Double
  pub abs : Double → Double
  pub sin : Double → Double
  pub cos : Double → Double
  pub atan2 : Double → Double → Double
  -- `float`, `static_cast<float>` and the conversion back.
  pub Float : Type 0
  pub narrow : Double → Float
  pub widen : Float → Double
  pub float_nan : Float

-- The comparisons of IEEE 754: a NaN does not compare with itself, and any other two numbers are
-- ordered one way or the other.
module _ (f : Doubles) where
  open f use {Double, lt, le, zero_d}

  abbrev pub IsNan : Double → Type 0
  IsNan x = le x x ≡ false

  pub record Comparisons : Type 0 where
    pub not_le : (x y : Double) → (le x y ≡ false) ↔ ((lt y x ≡ true) ⊎ IsNan x ⊎ IsNan y)
    pub not_lt : (x y : Double) → (lt x y ≡ false) ↔ ((le y x ≡ true) ⊎ IsNan x ⊎ IsNan y)
    pub zero_ordered : le zero_d zero_d ≡ true

  -- Greater than zero, or a NaN.
  abbrev pub IsPositive : Double → Type 0
  IsPositive x = (lt zero_d x ≡ true) ⊎ IsNan x

  -- At least zero, or a NaN.
  abbrev pub IsNonNegative : Double → Type 0
  IsNonNegative x = (le zero_d x ≡ true) ⊎ IsNan x

  pub not_le_iff-IsPositive : Comparisons → (x : Double) → (le x zero_d ≡ false) ↔ IsPositive x
  not_le_iff-IsPositive h x = ground (arith, h.not_le x zero_d, h.zero_ordered)

  pub not_lt_iff-IsNonNegative :
      Comparisons → (x : Double) → (lt x zero_d ≡ false) ↔ IsNonNegative x
  not_lt_iff-IsNonNegative h x = ground (arith, h.not_lt x zero_d, h.zero_ordered)
