-- ===== src/Experiments/Numerics/Quantile.antt =====
-- The ends of a credible interval, as the bisection finds them.
use forgepost.Prelude.{
  ℕ, zero, suc, ◌≡◌, refl, ◌+◌, subst, true, false, Bool-cases, inl, inr, arith,
}
use forgepost.Float.{Float, lt}
use forgepost.Experiments.Numerics.{half, beta_cdf, bisect, invert_cdf, credible_interval}

module _ (f : Float) where
  abbrev pub midpoint : f.F64 → f.F64 → f.F64
  midpoint lo hi = f.mul (half f) (f.add lo hi)

  -- What a number of halvings of the range from 0 to 1 can leave, whatever half is kept.
  pub data IsHalved : ℕ → f.F64 → f.F64 → Type 0 where
    whole : IsHalved 0 (f.literal 0 0) (f.literal 1 0)
    upper : (n : ℕ) (lo hi : f.F64) → IsHalved n lo hi → IsHalved (suc n) (midpoint lo hi) hi
    lower : (n : ℕ) (lo hi : f.F64) → IsHalved n lo hi → IsHalved (suc n) lo (midpoint lo hi)

  -- The middle of a range that 60 halvings leave, at whose lower end the distribution function is
  -- below a probability and at whose upper end it is not.
  pub record IsQuantile (a b : ℕ) (p x : f.F64) : Type 0 where
    pub lo : f.F64
    pub hi : f.F64
    pub middle : x ≡ midpoint lo hi
    pub halved : IsHalved 60 lo hi
    pub below : lt f (beta_cdf f lo a b) p ≡ true
    pub reached : lt f (beta_cdf f hi a b) p ≡ false

  module _ (a b : ℕ) (p : f.F64) where
    bisect-IsQuantile :
        (n rounds : ℕ) (lo hi : f.F64)
        → n + rounds ≡ 60
        → IsHalved n lo hi
        → lt f (beta_cdf f lo a b) p ≡ true
        → lt f (beta_cdf f hi a b) p ≡ false
        → IsQuantile a b p (bisect f a b p rounds lo hi)
    unfolding bisect
    bisect-IsQuantile n zero lo hi e h g k = record {
      lo = lo;
      hi = hi;
      middle = refl;
      halved = let all : n ≡ 60 = omega (arith, e) in subst (λ m. IsHalved m lo hi) all h;
      below = g;
      reached = k;
    }
    bisect-IsQuantile n (suc rounds) lo hi e h g k =
        elim (Bool-cases (lt f (beta_cdf f (midpoint lo hi) a b) p)) [
          | inl left ↦
              rw (bisect, left)
                (bisect-IsQuantile (suc n) rounds (midpoint lo hi) hi (omega (arith, e))
                  (upper n lo hi h) left k)
          | inr right ↦
              rw (bisect, right)
                (bisect-IsQuantile (suc n) rounds lo (midpoint lo hi) (omega (arith, e))
                  (lower n lo hi h) g right)
        ]

    invert_cdf-IsQuantile :
        f.le (f.literal 0 0) (f.literal 0 0) ≡ true
        → f.le (f.literal 1 0) (f.literal 1 0) ≡ true
        → f.le (f.literal 1 0) (f.literal 0 0) ≡ false
        → lt f (f.literal 0 0) p ≡ true
        → lt f (f.literal 1 0) p ≡ false
        → IsQuantile a b p (invert_cdf f a b p)
    unfolding invert_cdf beta_cdf
    invert_cdf-IsQuantile zero_le one_le apart above not_above =
        bisect-IsQuantile 0 60 (f.literal 0 0) (f.literal 1 0) refl whole (rw zero_le above)
          (rw (apart, one_le) not_above)

  -- The part of the mass that each tail leaves out.
  abbrev pub tail : f.F64 → f.F64
  tail mass = f.div (f.sub (f.literal 1 0) mass) (f.literal 2 0)

-- The probability of the lower end of a credible interval is the tail that the mass leaves, that of the
-- upper end is 1 less it. If 0 and 1 are ordered as they are and both probabilities, as they are
-- computed, lie above 0 and not above 1, then each end is the middle of a range that 60 halvings of the
-- range from 0 to 1 leave, with the distribution function below the end's probability where the range
-- starts and not below it where the range stops; for parameters of at least 1, as the engine gives.
pub credible_interval-IsQuantile :
    (f : Float) (a b : ℕ) (mass : f.F64)
    → f.le (f.literal 0 0) (f.literal 0 0) ≡ true
    → f.le (f.literal 1 0) (f.literal 1 0) ≡ true
    → f.le (f.literal 1 0) (f.literal 0 0) ≡ false
    → lt f (f.literal 0 0) (tail f mass) ≡ true
    → lt f (f.literal 1 0) (tail f mass) ≡ false
    → lt f (f.literal 0 0) (f.sub (f.literal 1 0) (tail f mass)) ≡ true
    → lt f (f.literal 1 0) (f.sub (f.literal 1 0) (tail f mass)) ≡ false
    → let ends = credible_interval f (suc a) (suc b) mass in
      IsQuantile f (suc a) (suc b) (tail f mass) ends.0
      × IsQuantile f (suc a) (suc b) (f.sub (f.literal 1 0) (tail f mass)) ends.1
unfolding credible_interval
credible_interval-IsQuantile f a b mass zero_le one_le apart low low' high high' = (
  invert_cdf-IsQuantile f (suc a) (suc b) (tail f mass) zero_le one_le apart low low',
  invert_cdf-IsQuantile f (suc a) (suc b) (f.sub (f.literal 1 0) (tail f mass)) zero_le one_le apart
      high high',
)
