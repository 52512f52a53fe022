-- ===== src/Prelude/Lists.antt =====
-- Lists measured and indexed by native numbers, and predicates over them by recursion.
use Prim.Native.Nat.{ℕ, zero, suc, ◌+◌}
use mathlib.Core.Path.{◌≡◌, refl, sym, ap}
use mathlib.Core.Bool.{Bool, true, false, ◌&&◌, ◌||◌}
use mathlib.Core.List.{List, [], ◌∷◌, ◌++◌, map}
use mathlib.Core.Logic.{◌⊎◌, inl, inr}
use mathlib.Core.Option.{Option, none, some}
use native.Mathlib.Omega.{arith}
use native.Mathlib.Nat.{zero-add, suc-add}
use forgepost.Prelude.Tests.{if◌then◌else◌, Bool-cases, some-inj}

module _ {ℓ} {A : Type ℓ} where
  abbrev pub length : List A → ℕ
  length [] = 0
  length (x ∷ xs) = suc (length xs)

  abbrev pub get_elem? : List A → ℕ → Option A
  get_elem? [] i = none
  get_elem? (x ∷ xs) zero = some x
  get_elem? (x ∷ xs) (suc i) = get_elem? xs i

  abbrev pub get_or : List A → ℕ → A → A
  get_or [] i d = d
  get_or (x ∷ xs) zero d = x
  get_or (x ∷ xs) (suc i) d = get_or xs i d

  abbrev pub take : ℕ → List A → List A
  take zero xs = []
  take (suc n) [] = []
  take (suc n) (x ∷ xs) = x ∷ take n xs

  abbrev pub drop : ℕ → List A → List A
  drop zero xs = xs
  drop (suc n) [] = []
  drop (suc n) (x ∷ xs) = drop n xs

  abbrev pub tail : List A → List A
  tail [] = []
  tail (x ∷ xs) = xs

  abbrev pub replicate : ℕ → A → List A
  replicate zero a = []
  replicate (suc n) a = a ∷ replicate n a

  -- The first element that passes a test, and the elements that pass it.
  abbrev pub find : (A → Bool) → List A → Option A
  find p [] = none
  find p (x ∷ xs) = if p x then some x else find p xs

  abbrev pub keep : (A → Bool) → List A → List A
  keep p [] = []
  keep p (x ∷ xs) = if p x then x ∷ keep p xs else keep p xs

  abbrev pub any : (A → Bool) → List A → Bool
  any p [] = false
  any p (x ∷ xs) = p x || any p xs

  abbrev pub all : (A → Bool) → List A → Bool
  all p [] = true
  all p (x ∷ xs) = p x && all p xs

  -- A property of every element, by recursion.
  abbrev pub All {κ} : (A → Type κ) → List A → Type κ
  All P [] = Unit
  All P (x ∷ xs) = P x × All P xs

-- Membership by recursion.
abbrev pub In : {A : Type 0} → A → List A → Type 0
In a [] = ⊥
In a (x ∷ xs) = (a ≡ x) ⊎ In a xs

module _ {ℓ} {A : Type ℓ} where
  pub length-append : (xs ys : List A) → length (xs ++ ys) ≡ length xs + length ys
  length-append [] ys = omega arith
  length-append (x ∷ xs) ys = omega (arith, length-append xs ys)

  pub All-append {κ} : (P : A → Type κ) (xs ys : List A) → All P xs → All P ys → All P (xs ++ ys)
  All-append P [] ys p q = q
  All-append P (x ∷ xs) ys (p, ps) q = (p, All-append P xs ys ps q)

  -- Dropping one more element drops the head of what was left.
  pub drop-tail : (n : ℕ) (xs : List A) → drop (suc n) xs ≡ tail (drop n xs)
  drop-tail zero [] = refl
  drop-tail zero (x ∷ xs) = refl
  drop-tail (suc n) [] = refl
  drop-tail (suc n) (x ∷ xs) = drop-tail n xs

  pub get_elem?-drop :
      (n : ℕ) (xs : List A) (i : ℕ) → get_elem? (drop n xs) i ≡ get_elem? xs (n + i)
  get_elem?-drop zero xs i = rw zero-add
  get_elem?-drop (suc n) [] i = ground arith
  get_elem?-drop (suc n) (x ∷ xs) i = rw suc-add (get_elem?-drop n xs i)

  -- What stands at an index, and what is left behind it.
  pub head_of_drop :
      (l : List A) (i : ℕ) (x : A) (xs : List A)
      → drop i l ≡ x ∷ xs
      → (get_elem? l i ≡ some x) × (drop (suc i) l ≡ xs)
  head_of_drop [] zero x xs h = cc
  head_of_drop [] (suc i) x xs h = cc
  head_of_drop (y ∷ l) zero x xs h = (cc, cc)
  head_of_drop (y ∷ l) (suc i) x xs h = head_of_drop l i x xs h

  pub find-append :
      (p : A → Bool) (xs ys : List A) (a : A) → find p xs ≡ some a → find p (xs ++ ys) ≡ some a
  find-append p [] ys a h = cc
  find-append p (x ∷ xs) ys a h = ground (arith, find-append p xs ys a)

  pub find-append_none :
      (p : A → Bool) (xs ys : List A) → find p xs ≡ none → find p (xs ++ ys) ≡ find p ys
  find-append_none p [] ys h = refl
  find-append_none p (x ∷ xs) ys h = ground (arith, find-append_none p xs ys)

  pub find-true : (p : A → Bool) (xs : List A) (a : A) → find p xs ≡ some a → p a ≡ true
  find-true p [] a h = cc
  find-true p (x ∷ xs) a h = ground (arith, find-true p xs a)

-- Two lists of one length, related place by place.
abbrev pub Each₂ : {A B : Type 0} → (A → B → Type 0) → List A → List B → Type 0
Each₂ R [] [] = Unit {0}
Each₂ R [] (y ∷ ys) = ⊥
Each₂ R (x ∷ xs) [] = ⊥
Each₂ R (x ∷ xs) (y ∷ ys) = R x y × Each₂ R xs ys

pub Each₂-map :
    {A B : Type 0} (R S : A → B → Type 0)
    → ((a : A) (b : B) → R a b → S a b)
    → (xs : List A) (ys : List B) → Each₂ R xs ys
    → Each₂ S xs ys
Each₂-map R S f [] [] h = tt
Each₂-map R S f [] (y ∷ ys) h = elim h [ ]
Each₂-map R S f (x ∷ xs) [] h = elim h [ ]
Each₂-map R S f (x ∷ xs) (y ∷ ys) (h, hs) = (f x y h, Each₂-map R S f xs ys hs)

pub In-keep :
    {A : Type 0} (p : A → Bool) (xs : List A) (a : A) → In a (keep p xs) → In a xs × (p a ≡ true)
In-keep p [] a h = elim h [ ]
In-keep p (x ∷ xs) a h = elim (Bool-cases (p x)) [
  | inl pass ↦ kept pass (In-keep p xs a) (rw pass at h)
  | inr drop ↦ let (m, t) = In-keep p xs a (rw drop at h) in (inr m, t)
]
  where
    kept :
        p x ≡ true
        → (In a (keep p xs) → In a xs × (p a ≡ true))
        → (a ≡ x) ⊎ In a (keep p xs)
        → In a (x ∷ xs) × (p a ≡ true)
    kept pass ih (inl e) = (inl e, rw e pass)
    kept pass ih (inr m) = let (m', t) = ih m in (inr m', t)

pub keep-In :
    {A : Type 0} (p : A → Bool) (xs : List A) (a : A) → In a xs → p a ≡ true → In a (keep p xs)
keep-In p [] a m t = elim m [ ]
keep-In p (x ∷ xs) a (inl e) t = let pass : p x ≡ true = rw e at t in rw pass (inl e)
keep-In p (x ∷ xs) a (inr m) t = later (p x) (keep-In p xs a m t)
  where
    later : (b : Bool) → In a (keep p xs) → In a (if b then x ∷ keep p xs else keep p xs)
    later true h = inr h
    later false h = h

if-some :
    {A : Type 0} (b : Bool) (x a : A) (o : Option A)
    → b ≡ true
    → (if b then some x else o) ≡ some a
    → x ≡ a
if-some true x a o e h = some-inj h
if-some false x a o e h = cc

pub find-In : {A : Type 0} (p : A → Bool) (xs : List A) (a : A) → find p xs ≡ some a → In a xs
find-In p [] a h = cc
find-In p (x ∷ xs) a h = elim (Bool-cases (p x)) [
  | inl pass ↦ inl (sym (if-some (p x) x a (find p xs) pass h))
  | inr fail ↦ inr (find-In p xs a (rw fail at h))
]

pub find-none : {A : Type 0} (p : A → Bool) (xs : List A) → any p xs ≡ false → find p xs ≡ none
find-none p [] h = refl
find-none p (x ∷ xs) h = ground (arith, find-none p xs)

-- Membership in a map.
pub In-map :
    {A B : Type 0} (g : A → B) (xs : List A) (b : B)
    → In b (map g xs)
    → (a : A) × In a xs × (b ≡ g a)
In-map g [] b h = elim h [ ]
In-map g (x ∷ xs) b (inl e) = (x, inl refl, e)
In-map g (x ∷ xs) b (inr m) = let (a, n, e) = In-map g xs b m in (a, inr n, e)

pub map-In : {A B : Type 0} (g : A → B) (xs : List A) (a : A) → In a xs → In (g a) (map g xs)
map-In g [] a h = h
map-In g (x ∷ xs) a (inl e) = inl (ap g e)
map-In g (x ∷ xs) a (inr m) = inr (map-In g xs a m)

pub length-map : {A B : Type 0} (g : A → B) (xs : List A) → length (map g xs) ≡ length xs
length-map g [] = refl
length-map g (x ∷ xs) = ap suc (length-map g xs)
