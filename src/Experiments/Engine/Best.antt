-- ===== src/Experiments/Engine/Best.antt =====
-- The best variant of a report, as `max_by` finds it.
use Prim.Native.Nat.{Ordering}
use forgepost.Prelude.{
  ◌≡◌, refl, subst, inl, inr, Bool, true, false, not, Option, none, some, some-inj, List, [], ◌∷◌,
  arith, Bool-cases, keep, In, In-keep, keep-In,
}
use forgepost.Float.{Float, IsTotalOrder}
use forgepost.Experiments.{VariantReport}
use forgepost.Experiments.Engine.{max_from, max_by, option_cmp, prob_or_zero, by_prob, best_of}

abbrev pub better : {A : Type 0} → Ordering → A → A → A
better o b x = elim o [ Ordering.gt ↦ b | _ ↦ x ]

better-In :
    {A : Type 0} (o : Ordering) (b x m : A) (xs : List A)
    → In m (better o b x ∷ xs)
    → In m (b ∷ x ∷ xs)
better-In Ordering.gt b x m xs (inl e) = inl e
better-In Ordering.gt b x m xs (inr h) = inr (inr h)
better-In Ordering.lt b x m xs h = inr h
better-In Ordering.eq b x m xs h = inr h

max_from-In :
    {A : Type 0} (cmp : A → A → Ordering) (b : A) (xs : List A) → In (max_from cmp b xs) (b ∷ xs)
unfolding max_from
max_from-In cmp b [] = inl refl
max_from-In cmp b (x ∷ xs) =
    better-In (cmp b x) b x _ xs (max_from-In cmp (better (cmp b x) b x) xs)

-- The order that `max_by` works with: an absent probability comes first.
abbrev pub le_option : (f : Float) → Option f.F64 → Option f.F64 → Bool
le_option f none y = true
le_option f (some x) none = false
le_option f (some x) (some y) = f.le x y

module _ (f : Float) (laws : IsTotalOrder f) where
  le_option_trans :
      (x y z : Option f.F64)
      → le_option f x y ≡ true
      → le_option f y z ≡ true
      → le_option f x z ≡ true
  le_option_trans none y z h g = refl
  le_option_trans (some x) none z h g = cc
  le_option_trans (some x) (some y) none h g = cc
  le_option_trans (some x) (some y) (some z) h g = laws.trans x y z h g

  le_option_refl : (x : Option f.F64) → le_option f x x ≡ true
  le_option_refl none = refl
  le_option_refl (some x) = elim (Bool-cases (f.le x x)) [ inl h ↦ h | inr h ↦ laws.total x x h ]

  -- The comparison keeps a greatest one of the two.
  better-le :
      (a b : VariantReport f)
      → let m = better (by_prob f a b) a b in
        (le_option f a.prob_beats_control m.prob_beats_control ≡ true)
        × (le_option f b.prob_beats_control m.prob_beats_control ≡ true)
  unfolding by_prob option_cmp
  better-le a b = split a.prob_beats_control b.prob_beats_control refl refl
    where
      split :
          (x y : Option f.F64)
          → a.prob_beats_control ≡ x
          → b.prob_beats_control ≡ y
          → let m = better (by_prob f a b) a b in
            (le_option f a.prob_beats_control m.prob_beats_control ≡ true)
            × (le_option f b.prob_beats_control m.prob_beats_control ≡ true)
      split none none e g = ground arith
      split none (some y) e g = ground (arith, le_option_refl b.prob_beats_control)
      split (some x) none e g = ground (arith, le_option_refl a.prob_beats_control)
      split (some x) (some y) e g = ground (
        arith,
        laws.total x y,
        laws.total y x,
        le_option_refl a.prob_beats_control,
        le_option_refl b.prob_beats_control,
      )

  abbrev pub Below : VariantReport f → VariantReport f → Type 0
  Below m r = le_option f r.prob_beats_control m.prob_beats_control ≡ true

  max_from-greatest :
      (b : VariantReport f) (xs : List (VariantReport f)) (r : VariantReport f)
      → In r (b ∷ xs)
      → Below (max_from (by_prob f) b xs) r
  unfolding max_from
  max_from-greatest b [] r (inl e) = rw e (le_option_refl b.prob_beats_control)
  max_from-greatest b [] r (inr m) = elim m [ ]
  max_from-greatest b (x ∷ xs) r (inl e) = rw e (
      le_option_trans b.prob_beats_control (better (by_prob f b x) b x).prob_beats_control _
        (better-le b x).0
        (max_from-greatest (better (by_prob f b x) b x) xs (better (by_prob f b x) b x) (inl refl)))
  max_from-greatest b (x ∷ xs) r (inr (inl e)) = rw e (
      le_option_trans x.prob_beats_control (better (by_prob f b x) b x).prob_beats_control _
        (better-le b x).1
        (max_from-greatest (better (by_prob f b x) b x) xs (better (by_prob f b x) b x) (inl refl)))
  max_from-greatest b (x ∷ xs) r (inr (inr m)) =
      max_from-greatest (better (by_prob f b x) b x) xs r (inr m)

module _ (f : Float) where
  pub best_of-In :
      (reports : List (VariantReport f)) (best : VariantReport f)
      → best_of f reports ≡ some best
      → In best reports × (best.is_control ≡ false)
  unfolding best_of max_by
  best_of-In reports best e =
      candidates (keep (λ (r : VariantReport f). not r.is_control) reports) (In-keep _ reports) e
    where
      candidates :
          (rs : List (VariantReport f))
          → ((a : VariantReport f) → In a rs → In a reports × (not a.is_control ≡ true))
          → max_by (by_prob f) rs ≡ some best
          → In best reports × (best.is_control ≡ false)
      candidates [] h e = cc
      candidates (x ∷ xs) h e =
          let same : max_from (by_prob f) x xs ≡ best = some-inj e in
          let there : In best (x ∷ xs) =
            subst (λ b. In b (x ∷ xs)) same (max_from-In (by_prob f) x xs) in
          let (m, t) = h best there in (m, ground arith)

  pub best_of-ne-none :
      (reports : List (VariantReport f)) (r : VariantReport f)
      → In r reports
      → r.is_control ≡ false
      → (best : VariantReport f) × (best_of f reports ≡ some best)
  unfolding best_of max_by
  best_of-ne-none reports r m c =
      candidates (keep (λ (s : VariantReport f). not s.is_control) reports)
        (keep-In _ reports r m (rw c))
    where
      candidates :
          (rs : List (VariantReport f))
          → In r rs
          → (best : VariantReport f) × (max_by (by_prob f) rs ≡ some best)
      candidates [] h = elim h [ ]
      candidates (x ∷ xs) h = (max_from (by_prob f) x xs, refl)

pub best_of-greatest :
    (f : Float) (laws : IsTotalOrder f) (reports : List (VariantReport f)) (best : VariantReport f)
    → best_of f reports ≡ some best
    → (r : VariantReport f) → In r reports
    → r.is_control ≡ false
    → Below f laws best r
unfolding best_of max_by
best_of-greatest f laws reports best e r m c =
    candidates (keep (λ (s : VariantReport f). not s.is_control) reports)
      (keep-In _ reports r m (rw c)) e
  where
    candidates :
        (rs : List (VariantReport f))
        → In r rs
        → max_by (by_prob f) rs ≡ some best
        → Below f laws best r
    candidates [] h g = elim h [ ]
    candidates (x ∷ xs) h g =
        let same : max_from (by_prob f) x xs ≡ best = some-inj g in
        subst (λ (b : VariantReport f). Below f laws b r) same (max_from-greatest f laws x xs r h)

pub le_option-some :
    (f : Float) (x y : Option f.F64) (q p : f.F64)
    → le_option f x y ≡ true
    → x ≡ some q
    → prob_or_zero f y ≡ p
    → f.le q p ≡ true
le_option-some f none y q p h e g = cc
le_option-some f (some x) none q p h e g = cc
le_option-some f (some x) (some y) q p h e g =
    let same : x ≡ q = some-inj e in
    subst (λ a. f.le a p ≡ true) same (subst (λ b. f.le x b ≡ true) g h)
