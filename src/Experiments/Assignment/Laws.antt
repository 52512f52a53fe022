-- ===== src/Experiments/Assignment/Laws.antt =====
-- What assignment promises.
use forgepost.Prelude.{
  Option, none, ◌==◌, ℕ, ◌≡◌, ◌↔◌, refl, sym, subst, ap, ◌∙◌, inl, inr, Bool, true, false, some,
  some-inj, List, [], ◌∷◌, map, find, In, Bool-cases, ==_iff, if◌then◌else◌,
}
use forgepost.Content.{Uuid}
use forgepost.Float.{Float}
use forgepost.Experiments.Record.{VariantRecord, ExperimentRecord}
use forgepost.Experiments.Assignment.{
  pick, assign_variant, others, control_share, assigned_variant, verify_assignment,
}

abbrev ids : (f : Float) → List (Uuid × f.F64) → List Uuid
ids f variants = map (λ (v : Uuid × f.F64). v.0) variants

-- A test between the first of a list and a value of the rest.
if-In :
    {A : Type 0} (b : Bool) (i c x : A) (rest : List A)
    → In x (c ∷ rest)
    → In (if b then i else x) (c ∷ i ∷ rest)
if-In true i c x rest h = inr (inl refl)
if-In false i c x rest (inl e) = inl e
if-In false i c x rest (inr m) = inr (inr m)

if-In-head :
    {A : Type 0} (b : Bool) (c x : A) (rest : List A)
    → In x (c ∷ rest)
    → In (if b then c else x) (c ∷ rest)
if-In-head true c x rest h = inl refl
if-In-head false c x rest h = h

module _ (f : Float) (digest : Uuid → Uuid → ℕ) where
  pick-In :
      (frac share total : f.F64) (control_id : Uuid) (cum : f.F64) (variants : List (Uuid × f.F64))
      → In (pick f digest frac share total control_id cum variants) (control_id ∷ ids f variants)
  unfolding pick
  pick-In frac share total c cum [] = inl refl
  pick-In frac share total c cum ((i, w) ∷ rest) =
      if-In _ i c _ (ids f rest) (pick-In frac share total c (f.add cum (f.div w total)) rest)

  assign_variant-In :
      (e v control_id : Uuid) (share : f.F64) (variants : List (Uuid × f.F64))
      → In (assign_variant f digest e v control_id share variants) (control_id ∷ ids f variants)
  unfolding assign_variant
  assign_variant-In e v c share variants =
      if-In-head _ c _ (ids f variants)
        (if-In-head _ c _ (ids f variants) (pick-In _ share _ c (f.literal 0 0) variants))

Named : (f : Float) → Uuid → List (VariantRecord f) → Type 0
Named f i variants = (r : VariantRecord f) × In r variants × (r.id ≡ i)

later :
    (f : Float) (i : Uuid) (v : VariantRecord f) (vs : List (VariantRecord f))
    → Named f i vs
    → Named f i (v ∷ vs)
unfolding Named
later f i v vs (r, m, e) = (r, inr m, e)

others-Named :
    (f : Float) (i : Uuid) (variants : List (VariantRecord f))
    → In i (ids f (others f variants))
    → Named f i variants
unfolding others Named
others-Named f i [] h = elim h [ ]
others-Named f i (v ∷ vs) h = elim (Bool-cases v.is_control) [
  | inl control ↦ later f i v vs (others-Named f i vs (rw control at h))
  | inr other ↦ found (others-Named f i vs) (rw other at h)
]
  where
    found :
        (In i (ids f (others f vs)) → Named f i vs)
        → In i (v.id ∷ ids f (others f vs))
        → Named f i (v ∷ vs)
    found ih (inl e) = (v, inl refl, sym e)
    found ih (inr m) = later f i v vs (ih m)

if-true {ℓ} : {A : Type ℓ} (b : Bool) (x y z : A) → b ≡ true → (if b then x else y) ≡ z → x ≡ z
if-true true x y z e h = h
if-true false x y z e h = cc

control-Named :
    (f : Float) (variants : List (VariantRecord f)) (control : VariantRecord f)
    → find (λ (v : VariantRecord f). v.is_control) variants ≡ some control
    → Named f control.id variants
unfolding Named
control-Named f [] control h = cc
control-Named f (v ∷ vs) control h = elim (Bool-cases v.is_control) [
  | inl is ↦
      let same : v ≡ control = some-inj (if-true v.is_control (some v) _ (some control) is h) in
      (v, inl refl, ap (λ (r : VariantRecord f). r.id) same)
  | inr other ↦ later f control.id v vs (control-Named f vs control (rw other at h))
]

assigned_variant-Named :
    (f : Float) (digest : Uuid → Uuid → ℕ) (exp : ExperimentRecord f) (visitor_id : Uuid)
    (control : VariantRecord f)
    → find (λ (v : VariantRecord f). v.is_control) exp.variants ≡ some control
    → (i : Uuid) × (assigned_variant f digest exp visitor_id ≡ some i) × Named f i exp.variants
unfolding assigned_variant
assigned_variant-Named f digest exp visitor control h = (
  assign_variant f digest exp.id visitor control.id (control_share f exp.traffic_weight)
      (others f exp.variants),
  rw (h, assigned_variant),
  belongs _ (assign_variant-In f digest exp.id visitor control.id _ (others f exp.variants)),
)
  where
    belongs :
        (i : Uuid) → In i (control.id ∷ ids f (others f exp.variants)) → Named f i exp.variants
    belongs i (inl e) =
        subst (λ j. Named f j exp.variants) (sym e) (control-Named f exp.variants control h)
    belongs i (inr m) = others-Named f i exp.variants m

verify_assignment_iff :
    (f : Float) (digest : Uuid → Uuid → ℕ) (exp : ExperimentRecord f)
    (visitor_id i submitted : Uuid)
    → assigned_variant f digest exp visitor_id ≡ some i
    → (verify_assignment f digest exp visitor_id submitted ≡ some true) ↔ (submitted ≡ i)
unfolding verify_assignment
verify_assignment_iff f digest exp visitor i submitted e = (
  λ t. sym ((==_iff i submitted).0 (some-inj (rw (e, verify_assignment) at t))),
  λ same. rw (e, verify_assignment) (ap some ((==_iff i submitted).1 (sym same))),
)

-- An experiment with a control assigns each visitor one of its own variants, and of all the ids that
-- a client can submit, the check passes this one alone.
pub assigned_variant_unique :
    (f : Float) (digest : Uuid → Uuid → ℕ) (exp : ExperimentRecord f) (visitor_id : Uuid)
    (control : VariantRecord f)
    → find (λ (v : VariantRecord f). v.is_control) exp.variants ≡ some control
    → (r : VariantRecord f) × In r exp.variants
      × (assigned_variant f digest exp visitor_id ≡ some r.id)
      × ((submitted : Uuid)
          → (verify_assignment f digest exp visitor_id submitted ≡ some true) ↔ (submitted ≡ r.id))
unfolding Named
assigned_variant_unique f digest exp visitor control h =
    let (i, e, (r, m, n)) = assigned_variant-Named f digest exp visitor control h in
    (
      r,
      m,
      e ∙ ap some (sym n),
      λ submitted. verify_assignment_iff f digest exp visitor r.id submitted (e ∙ ap some (sym n)),
    )

-- A variant that passes the check is the assigned one.
pub verify_assignment-true :
    (f : Float) (digest : Uuid → Uuid → ℕ) (exp : ExperimentRecord f) (visitor_id submitted : Uuid)
    → verify_assignment f digest exp visitor_id submitted ≡ some true
    → assigned_variant f digest exp visitor_id ≡ some submitted
unfolding verify_assignment
verify_assignment-true f digest exp visitor submitted h =
    judged (assigned_variant f digest exp visitor) h
  where
    judged :
        (o : Option Uuid)
        → elim o as (λ _. Option Bool) [
          | none ↦ none
          | some assigned ↦ some (assigned == submitted)
        ]
          ≡ some true
        → o ≡ some submitted
    judged none k = cc
    judged (some assigned) k = ap some ((==_iff assigned submitted).0 (some-inj k))
