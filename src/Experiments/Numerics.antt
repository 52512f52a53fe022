-- ===== src/Experiments/Numerics.antt =====
-- crates/experiments/src/lib.rs: log-gamma, log-beta, the Beta distribution, credible intervals.
pub mod Quantile
use forgepost.Prelude.{ℕ, zero, suc, ◌+◌, ◌-◌, ◌||◌, List, [], ◌∷◌, ◌==◌, if◌then◌else◌}
use forgepost.Float.{Float, lt, clamp}

module _ (f : Float) where
  open f use {F64, of_ℕ, literal, add, sub, mul, div, ln, exp, sin, pi, ln_2, floor, le}

  abbrev pub half : F64
  half = literal 5 1

  abbrev negate : F64 → F64
  negate x = sub (literal 0 0) x

  -- The Lanczos coefficients behind the first one.
  abbrev lanczos_coeffs : List F64
  lanczos_coeffs =
      literal 6765203681218851 13
      ∷ negate (literal 12591392167224028 13)
      ∷ literal 77132342877765313 14
      ∷ negate (literal 17661502916214059 14)
      ∷ literal 12507343278686905 15
      ∷ negate (literal 13857109526572012 17)
      ∷ literal 99843695780195716 22
      ∷ literal 15056327351493116 23
      ∷ []

  -- The loop over the coefficients, with the index of the next one.
  lanczos_sum : F64 → F64 → ℕ → List F64 → F64
  lanczos_sum z a i [] = a
  lanczos_sum z a i (c ∷ cs) = lanczos_sum z (add a (div c (add z (of_ℕ (i + 1))))) (suc i) cs

  -- `log_gamma` for arguments of at least a half.
  lanczos : F64 → F64
  unfolding lanczos_sum
  lanczos x =
      let z = sub x (literal 1 0) in
      let t = add (add z (literal 7 0)) half in
      let a = lanczos_sum z (literal 99999999999980993 17) 0 lanczos_coeffs in
      add (sub (add (mul half (add ln_2 (ln pi))) (mul (add z half) (ln t))) t) (ln a)

  -- The reflection below a half calls the function itself, `depth` times at most.
  log_gamma_within : ℕ → F64 → F64
  unfolding lanczos
  log_gamma_within zero x = lanczos x
  log_gamma_within (suc depth) x =
      let s = div pi (mul x (sin (mul pi x))) in
      let reflected = sub (ln (div pi s)) (log_gamma_within depth (sub (literal 1 0) x)) in
      if lt f x half then reflected else lanczos x

  -- One reflection leads past a half.
  unfoldable pub log_gamma : F64 → F64
  unfolding log_gamma_within
  log_gamma x = log_gamma_within 1 x

  unfoldable pub log_beta : F64 → F64 → F64
  log_beta a b = sub (add (log_gamma a) (log_gamma b)) (log_gamma (add a b))

  -- The sum over j in 0..ay, from j on.
  prob_sum : ℕ → ℕ → ℕ → ℕ → ℕ → F64 → F64
  prob_sum zero j ax bx by total = total
  prob_sum (suc n) j ax bx by total =
      let log_num = log_beta (of_ℕ (ax + j)) (of_ℕ (bx + by)) in
      let log_den =
        add (add (ln (of_ℕ (by + j))) (log_beta (of_ℕ (1 + j)) (of_ℕ by)))
          (log_beta (of_ℕ ax) (of_ℕ bx)) in
      prob_sum n (suc j) ax bx by (add total (exp (sub log_num log_den)))

  -- P(X < Y) for X ~ Beta(ax, bx) and Y ~ Beta(ay, by).
  unfoldable pub prob_beta_lt : ℕ → ℕ → ℕ → ℕ → F64
  unfolding prob_sum
  prob_beta_lt ax bx ay by =
      if ax == 0 || (bx == 0 || (ay == 0 || by == 0))
      then literal 0 0
      else clamp f (prob_sum ay 0 ax bx by (literal 0 0)) (literal 0 0) (literal 1 0)

  unfoldable pub prob_variant_beats_control : ℕ → ℕ → ℕ → ℕ → F64
  prob_variant_beats_control c_alpha c_beta x_alpha x_beta =
      prob_beta_lt c_alpha c_beta x_alpha x_beta

  -- The logarithm of P(Bin(n, x) = k).
  log_binomial : ℕ → F64 → ℕ → F64
  log_binomial n x k =
      add
        (add
          (sub
            (sub (log_gamma (add (of_ℕ n) (literal 1 0))) (log_gamma (add (of_ℕ k) (literal 1 0))))
            (log_gamma (add (of_ℕ (n - k)) (literal 1 0))))
          (mul (of_ℕ k) (ln x)))
        (mul (of_ℕ (n - k)) (ln (sub (literal 1 0) x)))

  -- The walk down from the mode: `k` runs from the mode to 1.
  walk_down : ℕ → F64 → ℕ → F64 → F64 → F64
  walk_down n x zero t total = total
  walk_down n x (suc k) t total =
      let t' =
        mul t (div (mul (div (of_ℕ (suc k)) (of_ℕ (n - suc k + 1))) (sub (literal 1 0) x)) x) in
      walk_down n x k t' (add total t')

  -- The walk up, `rounds` steps from `k` on.
  walk_up : ℕ → F64 → ℕ → ℕ → F64 → F64 → F64
  walk_up n x zero k t total = total
  walk_up n x (suc rounds) k t total =
      let t' =
        mul t
          (div (mul (div (of_ℕ (n - k)) (add (of_ℕ k) (literal 1 0))) x) (sub (literal 1 0) x)) in
      walk_up n x rounds (suc k) t' (add total t')

  -- The sum of the probabilities of k in 0..a.
  sum_below : ℕ → F64 → ℕ → ℕ → F64 → F64
  sum_below n x zero k acc = acc
  sum_below n x (suc rounds) k acc =
      sum_below n x rounds (suc k) (add acc (exp (log_binomial n x k)))

  -- The parameters are 1 at least where the engine calls this, and the mode and each `k` of the last
  -- sum do not pass `n`, so that the differences here are those of u64. On other parameters (both 0)
  -- the source overflows, where the model stops at 0.
  pub beta_cdf : F64 → ℕ → ℕ → F64
  unfolding log_binomial walk_down walk_up sum_below
  beta_cdf x a b =
      if le x (literal 0 0)
      then literal 0 0
      else if le (literal 1 0) x
      then literal 1 0
      else let n = a + b - 1 in
        let mode = floor (mul (add (of_ℕ n) (literal 1 0)) x) in
        let t = exp (log_binomial n x mode) in
        let down = walk_down n x mode t (add (literal 0 0) t) in
        let total = walk_up n x (n - mode) mode t down in
        clamp f (sub total (sum_below n x a 0 (literal 0 0))) (literal 0 0) (literal 1 0)

  -- The bisection: rounds left, and the two ends.
  bisect : ℕ → ℕ → F64 → ℕ → F64 → F64 → F64
  bisect a b p zero lo hi = mul half (add lo hi)
  bisect a b p (suc rounds) lo hi =
      let mid = mul half (add lo hi) in
      let left = lt f (beta_cdf mid a b) p in
      bisect a b p rounds (if left then mid else lo) (if left then hi else mid)

  pub invert_cdf : ℕ → ℕ → F64 → F64
  unfolding bisect
  invert_cdf a b p = bisect a b p 60 (literal 0 0) (literal 1 0)

  pub credible_interval : ℕ → ℕ → F64 → F64 × F64
  credible_interval a b mass =
      let lo = invert_cdf a b (div (sub (literal 1 0) mass) (literal 2 0)) in
      let hi = invert_cdf a b (sub (literal 1 0) (div (sub (literal 1 0) mass) (literal 2 0))) in
      (lo, hi)
