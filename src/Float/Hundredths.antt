-- ===== src/Float/Hundredths.antt =====
-- A number of hundredths in place of an f64, to run definitions on.
use forgepost.Prelude.{ℕ, ◌+◌, ◌-◌, ◌*◌, ◌/◌, ◌^◌, arith, leb}
use forgepost.Float.{Float, IsTotalOrder}

abbrev pub hundredths : Float
hundredths = record {
  F64 = ℕ;
  of_ℕ = λ n. n * 100;
  literal = λ digits places. digits * 100 / 10 ^ places;
  add = λ x y. x + y;
  sub = λ x y. x - y;
  mul = λ x y. x * y / 100;
  div = λ x y. x * 100 / y;
  ln = λ x. x;
  exp = λ x. 100 + x;
  sin = λ x. x;
  pi = 314;
  ln_2 = 69;
  floor = λ x. x / 100;
  le = λ x y. leb x y;
}

pub hundredths-IsTotalOrder : IsTotalOrder hundredths
hundredths-IsTotalOrder = record {
  total = λ x y h. ground (arith, h);
  trans = λ x y z h g. ground (arith, h, g);
}
