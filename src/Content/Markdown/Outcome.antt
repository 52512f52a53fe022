-- ===== src/Content/Markdown/Outcome.antt =====
-- What a call of the parser comes to: a value, a panic of a slice that cuts a character, or, in the
-- model, a loop that had too few rounds.
pub data Outcome {ℓ} (A : Type ℓ) : Type ℓ where
  done : A → Outcome A
  panic : Outcome A
  unfinished : Outcome A

abbrev pub and_then {ℓ κ} : {A : Type ℓ} {B : Type κ} → Outcome A → (A → Outcome B) → Outcome B
and_then (done a) f = f a
and_then panic f = panic
and_then unfinished f = unfinished

-- An outcome that is not unfinished, and whose value, if there is one, has a property.
abbrev pub Holds {ℓ} : {A : Type ℓ} → (A → Type 0) → Outcome A → Type 0
Holds P (done a) = P a
Holds P panic = Unit
Holds P unfinished = ⊥

pub and_then-Holds {ℓ κ} :
    {A : Type ℓ} {B : Type κ} (P : A → Type 0) (Q : B → Type 0) (o : Outcome A) (f : A → Outcome B)
    → Holds P o
    → ((a : A) → P a → Holds Q (f a))
    → Holds Q (and_then o f)
and_then-Holds P Q (done a) f h k = k a h
and_then-Holds P Q panic f h k = h
and_then-Holds P Q unfinished f h k = elim h [ ]

pub Holds-map {ℓ} :
    {A : Type ℓ} (P Q : A → Type 0) (o : Outcome A) → ((a : A) → P a → Q a) → Holds P o → Holds Q o
Holds-map P Q (done a) f h = f a h
Holds-map P Q panic f h = h
Holds-map P Q unfinished f h = h

pub both {ℓ} :
    {A : Type ℓ} (P Q : A → Type 0) (o : Outcome A)
    → Holds P o
    → Holds Q o
    → Holds (λ a. P a × Q a) o
both P Q (done a) h k = (h, k)
both P Q panic h k = h
both P Q unfinished h k = h
