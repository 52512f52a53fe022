-- ===== src/Content/Markdown/Html/Attributes.antt =====
-- How much the scans of white space, names and values of a tag leave.
use forgepost.Prelude.{
  ℕ, zero, suc, ◌≤◌, ◌<◌, ◌≡◌, refl, ap, Bool, true, false, ◌||◌, Option, none, some, List, [], ◌∷◌,
  ◌++◌, ◌==◌, length, arith, Bool-cases, inl, inr,
}
use forgepost.Text.{Text, codes, strip_prefix}
use forgepost.Text.Ops.{trim, trim_start, trim_end, to_ascii_lowercase}
use forgepost.Content.Markdown.Outcome.{Outcome, done, and_then, Holds, and_then-Holds, Holds-map}
use forgepost.Content.Markdown.Inline.Spans.{strip_prefix-append}
use forgepost.Content.Markdown.Html.Tag.{
  is_blank, skip_blanks, until, latin, ends_name, ends_value, quoted, value_after_equals,
  attribute_value, one_attribute, with_attribute, attributes_from, attributes_of,
}

-- A result that leaves at most n characters.
abbrev pub Leaves {ℓ} : {A : Type ℓ} → ℕ → Option (A × Text) → Type 0
Leaves n none = Unit
Leaves n (some (a, rest)) = length rest ≤ n

pub trim_start-length : (s : Text) → length (trim_start s) ≤ length s
unfolding trim_start
trim_start-length [] = omega arith
trim_start-length (c ∷ s) = ground (arith, trim_start-length s)

trim_end-length : (s : Text) → length (trim_end s) ≤ length s
unfolding trim_end
trim_end-length [] = omega arith
trim_end-length (c ∷ s) = ground (arith, trim_end-length s)

pub trim-length : (s : Text) → length (trim s) ≤ length s
unfolding trim
trim-length s = omega (arith, trim_start-length s, trim_end-length (trim_start s))

skip_blanks-length : (s : Text) → length (skip_blanks s) ≤ length s
unfolding skip_blanks
skip_blanks-length [] = omega arith
skip_blanks-length (c ∷ s) = ground (arith, skip_blanks-length s)

pub until-length : (stop : ℕ → Bool) (s : Text) → length (until stop s).1 ≤ length s
unfolding until
until-length stop [] = omega arith
until-length stop (c ∷ s) = ground (arith, until-length stop s)

-- What is left behind a quoted value is less than what it was in.
quoted-Leaves : (quote : ℕ) (s : Text) → Leaves (length s) (quoted quote s)
unfolding quoted
quoted-Leaves quote s = rest_of (until (λ c. c == quote) s).1 (until-length (λ c. c == quote) s)
  where
    rest_of :
        (rest : Text)
        → length rest ≤ length s
        → Leaves (length s) (elim rest as (λ _. Option (Text × Text)) [
          | [] ↦ none
          | q ∷ after ↦ some (latin (until (λ c. c == quote) s).0, after)
        ])
    rest_of [] l = tt
    rest_of (q ∷ after) l = omega (arith, l)

pub Leaves-grow {ℓ} :
    {A : Type ℓ} (m n : ℕ) (o : Option (A × Text)) → m ≤ n → Leaves m o → Leaves n o
Leaves-grow m n none l h = tt
Leaves-grow m n (some (a, rest)) l h = omega (arith, l, h)

value_after_equals-Leaves : (s : Text) → Leaves (length s) (value_after_equals s)
unfolding value_after_equals
value_after_equals-Leaves [] = omega arith
value_after_equals-Leaves (c ∷ s) = elim (Bool-cases ((c == 34) || (c == 39))) [
  | inl marked ↦ rw marked (Leaves-grow (length s) _ (quoted c s) (omega arith) (quoted-Leaves c s))
  | inr plain ↦ rw plain (until-length ends_value (c ∷ s))
]

after_equals : (s : Text) → Leaves (length s) (value_after_equals (skip_blanks s))
after_equals s =
    Leaves-grow _ (length s) (value_after_equals (skip_blanks s)) (skip_blanks-length s)
      (value_after_equals-Leaves (skip_blanks s))

attribute_value-Leaves : (s : Text) → Leaves (length s) (attribute_value s)
unfolding attribute_value
attribute_value-Leaves [] = omega arith
attribute_value-Leaves (c ∷ s) = elim (Bool-cases (c == 61)) [
  | inl equals ↦
      rw equals (
        Leaves-grow (length s) _ (value_after_equals (skip_blanks s)) (omega arith)
          (after_equals s))
  | inr other ↦ rw other (omega arith)
]

-- The value of an attribute whose name leaves t.
value_of : (t : Text) (n : ℕ) → length t ≤ n → Leaves n (attribute_value (skip_blanks t))
value_of t n l =
    Leaves-grow _ n (attribute_value (skip_blanks t)) (omega (arith, skip_blanks-length t, l))
      (attribute_value-Leaves (skip_blanks t))

-- A character that stops a name is dropped with the value.
value_at_stop :
    (c : ℕ) (s : Text)
    → ends_name c ≡ true
    → (c == 62) ≡ false
    → (c == 47) ≡ false
    → Leaves (length s) (attribute_value (skip_blanks (c ∷ s)))
unfolding attribute_value skip_blanks
value_at_stop c s e g h = elim (Bool-cases (is_blank c)) [
  | inl blank ↦ rw blank (value_of s (length s) (omega arith))
  | inr solid ↦
      let equals : (c == 61) ≡ true = ground (arith, e, g, h, solid) in
      rw (solid, equals) (after_equals s)
]

until_stops : (stop : ℕ → Bool) (c : ℕ) (s : Text) → stop c ≡ true → (until stop (c ∷ s)).1 ≡ c ∷ s
unfolding until
until_stops stop c s h = rw h refl

until_goes :
    (stop : ℕ → Bool) (c : ℕ) (s : Text)
    → stop c ≡ false
    → (until stop (c ∷ s)).1 ≡ (until stop s).1
unfolding until
until_goes stop c s h = rw h refl

-- The value of an attribute that starts with a character other than `>` and `/`.
value_behind_name :
    (c : ℕ) (s : Text)
    → (c == 62) ≡ false
    → (c == 47) ≡ false
    → Leaves (length s) (attribute_value (skip_blanks (until ends_name (c ∷ s)).1))
value_behind_name c s g h = elim (Bool-cases (ends_name c)) [
  | inl stops ↦ rw (until_stops ends_name c s stops) (value_at_stop c s stops g h)
  | inr goes ↦
      rw (until_goes ends_name c s goes)
        (value_of (until ends_name s).1 (length s) (until-length ends_name s))
]

-- An attribute leaves less than it was in.
abbrev Behind : ℕ → Option (Text × Text × Text) → Type 0
Behind n none = Unit
Behind n (some (name, value, rest)) = length rest ≤ n

one_attribute-Behind :
    (c : ℕ) (s : Text)
    → (c == 62) ≡ false
    → (c == 47) ≡ false
    → Behind (length s) (one_attribute (c ∷ s))
unfolding one_attribute
one_attribute-Behind c s g h =
    named (attribute_value (skip_blanks (until ends_name (c ∷ s)).1)) (value_behind_name c s g h)
  where
    named :
        (o : Option (Text × Text))
        → Leaves (length s) o
        → Behind (length s) (elim o as (λ _. Option (Text × Text × Text)) [
          | none ↦ none
          | some (value, rest) ↦ some (to_ascii_lowercase (until ends_name (c ∷ s)).0, value, rest)
        ])
    named none l = tt
    named (some (v, rest)) l = l

attributes_from-Holds :
    (scan : Text → Outcome (Option (List (Text × Text) × Text))) (n : ℕ)
    → ((t : Text) → length t < n → Holds (Leaves (length t)) (scan t))
    → (s : Text) → length s ≤ n
    → Holds (Leaves (length s)) (attributes_from scan s)
unfolding attributes_from
attributes_from-Holds scan n ih [] l = tt
attributes_from-Holds scan n ih (c ∷ rest) l = elim (Bool-cases (c == 62)) [
  | inl close ↦ rw close (omega arith)
  | inr open_still ↦ elim (Bool-cases (c == 47)) [
    | inl slash ↦
        rw (open_still, slash)
          (after_slash (strip_prefix (codes ">") rest) (strip_prefix-append (codes ">") rest))
    | inr other ↦
        rw (open_still, other)
          (after_attribute (one_attribute (c ∷ rest))
            (one_attribute-Behind c rest open_still other))
  ]
]
  where
    goes_on : (t : Text) → length t ≤ length rest → Holds (Leaves (suc (length rest))) (scan t)
    goes_on t m =
        Holds-map (Leaves (length t)) (Leaves (suc (length rest))) (scan t)
          (λ o h. Leaves-grow (length t) (suc (length rest)) o (omega (arith, m)) h)
          (ih t (omega (arith, m, l)))

    after_slash :
        (o : Option Text)
        → ((t : Text) → o ≡ some t → rest ≡ codes ">" ++ t)
        → Holds
            (Leaves (suc (length rest)))
            (elim o as (λ x. Outcome (Option (List (Text × Text) × Text))) [
              | some after ↦ done (some ([], after))
              | none ↦ scan rest
            ])
    after_slash none f = goes_on rest (omega arith)
    after_slash (some t) f = let shorter = ap length (f t refl) in omega (arith, shorter)

    after_attribute :
        (o : Option (Text × Text × Text))
        → Behind (length rest) o
        → Holds
            (Leaves (suc (length rest)))
            (elim o as (λ x. Outcome (Option (List (Text × Text) × Text))) [
              | none ↦ done none
              | some (name, value, after) ↦
                  and_then (scan after) (λ found. done (with_attribute name value found))
            ])
    after_attribute none b = tt
    after_attribute (some (name, value, after)) b =
        and_then-Holds (Leaves (suc (length rest))) (Leaves (suc (length rest))) (scan after)
          (λ found. done (with_attribute name value found)) (goes_on after b)
          (λ found h. with_one found h)
      where
        with_one :
            (found : Option (List (Text × Text) × Text))
            → Leaves (suc (length rest)) found
            → Leaves (suc (length rest)) (with_attribute name value found)
        with_one none h = h
        with_one (some (more, left)) h = h

-- With more rounds than characters the scan of a tag ends.
pub attributes_of-Holds :
    (rounds : ℕ) (s : Text) → length s < rounds → Holds (Leaves (length s)) (attributes_of rounds s)
unfolding attributes_of
attributes_of-Holds zero s l = let impossible : ⊥ = omega (arith, l) in elim impossible [ ]
attributes_of-Holds (suc rounds) s l =
    Holds-map (Leaves (length (skip_blanks s))) (Leaves (length s)) _
      (λ o h. Leaves-grow (length (skip_blanks s)) (length s) o (skip_blanks-length s) h)
      (attributes_from-Holds (λ t. attributes_of rounds t) rounds
        (λ t m. attributes_of-Holds rounds t m) (skip_blanks s)
        (omega (arith, skip_blanks-length s, l)))
