-- ===== src/Float.antt =====
-- f64, which the language of this library has no counterpart of: an interface of the operations
-- that the program calls. Theorems name the laws that they need.
pub mod Hundredths
use forgepost.Prelude.{
  ℕ, ◌≡◌, Bool, true, false, ◌&&◌, not, Option, none, some, List, [], ◌∷◌, if◌then◌else◌,
}
use Prim.Native.Nat.{Ordering}

pub record Float : Type 1 where
  pub F64 : Type 0
  -- A count as f64, and a decimal literal: its digits and the number of those behind the point.
  pub of_ℕ : ℕ → F64
  pub literal : ℕ → ℕ → F64
  pub add : F64 → F64 → F64
  pub sub : F64 → F64 → F64
  pub mul : F64 → F64 → F64
  pub div : F64 → F64 → F64
  pub ln : F64 → F64
  pub exp : F64 → F64
  pub sin : F64 → F64
  pub pi : F64
  pub ln_2 : F64
  -- `x.floor() as usize`.
  pub floor : F64 → ℕ
  -- `x <= y`; false if either is not a number.
  pub le : F64 → F64 → Bool

module _ (f : Float) where
  open f use {F64, of_ℕ, literal, add, le}

  -- `x < y`.
  abbrev pub lt : F64 → F64 → Bool
  lt x y = le x y && not (le y x)

  abbrev pub zero_f : F64
  zero_f = literal 0 0

  abbrev pub one_f : F64
  one_f = literal 1 0

  abbrev pub compare_by : Bool → Bool → Option Ordering
  compare_by true true = some Ordering.eq
  compare_by true false = some Ordering.lt
  compare_by false true = some Ordering.gt
  compare_by false false = none

  -- f64::partial_cmp.
  abbrev pub partial_cmp : F64 → F64 → Option Ordering
  partial_cmp x y = compare_by (le x y) (le y x)

  -- f64::clamp.
  abbrev pub clamp : F64 → F64 → F64 → F64
  clamp x lo hi = if lt x lo then lo else if lt hi x then hi else x

  -- The sum of an iterator.
  unfoldable pub sum_from : F64 → List F64 → F64
  sum_from acc [] = acc
  sum_from acc (x ∷ xs) = sum_from (add acc x) xs

  abbrev pub sum : List F64 → F64
  sum xs = sum_from zero_f xs

-- The order of the numbers other than NaN: total and transitive.
pub record IsTotalOrder (f : Float) : Type 0 where
  pub total : (x y : f.F64) → f.le x y ≡ false → f.le y x ≡ true
  pub trans : (x y z : f.F64) → f.le x y ≡ true → f.le y z ≡ true → f.le x z ≡ true
