-- ===== src/Content/Markdown/Inline/Spans.antt =====
-- What next_span returns, as a reading of the text.
use forgepost.Prelude.{
  ℕ, ◌≡◌, refl, ap, subst, ◌∙◌, Bool, true, false, Option, none, some, [], ◌∷◌, ◌++◌, if◌then◌else◌,
  arith, Option-cases, some-inj, inl, inr,
}
use forgepost.Text.{Text, codes, strip_prefix, is_empty}
use forgepost.Text.Ops.{split_once, trim}
use forgepost.Content.Markdown.Inline.{
  between, link, Span, code_span, strong, em, anchor, single, first_of, next_span,
}

pub strip_prefix-append : (p s t : Text) → strip_prefix p s ≡ some t → s ≡ p ++ t
strip_prefix-append [] s t h = some-inj h
strip_prefix-append (d ∷ p) [] t h = cc
strip_prefix-append (d ∷ p) (c ∷ s) t h = ground (arith, strip_prefix-append p s t)

abbrev cut : ℕ → Option Text → Option (Text × Text) → Option (Text × Text)
cut c o rest = elim o [
  | some after ↦ some ([], after)
  | none ↦ elim rest [ none ↦ none | some p ↦ some (c ∷ p.0, p.1) ]
]

split_step :
    (sep s : Text) (c : ℕ) (o : Option Text) (rest : Option (Text × Text)) (inside after : Text)
    → ((t : Text) → o ≡ some t → c ∷ s ≡ sep ++ t)
    → ((i : Text) → rest ≡ some (i, after) → s ≡ i ++ (sep ++ after))
    → cut c o rest ≡ some (inside, after)
    → c ∷ s ≡ inside ++ (sep ++ after)
split_step sep s c (some t) rest inside after f g h = cc (f t refl, h)
split_step sep s c none none inside after f g h = cc
split_step sep s c none (some (i, a)) inside after f g h =
    let k : c ∷ i ≡ inside = cc in
    let l : a ≡ after = cc in
    subst (λ x. c ∷ s ≡ x ++ (sep ++ after)) k (ap (λ x. c ∷ x) (g i (ap (λ x. some (i, x)) l)))

-- The first separator cuts the text in two.
pub split_once-append :
    (sep s inside after : Text)
    → split_once sep s ≡ some (inside, after)
    → s ≡ inside ++ (sep ++ after)
unfolding split_once
split_once-append sep [] inside after h = elim (Option-cases (strip_prefix sep [])) [
  | inl missing ↦ cc (rw (missing, split_once) at h)
  | inr (t, found) ↦
      let h' = rw (found, split_once) at h in cc (strip_prefix-append sep [] t found, h')
]
split_once-append sep (c ∷ s) inside after h =
    split_step sep s c (strip_prefix sep (c ∷ s)) (split_once sep s) inside after
      (λ t e. strip_prefix-append sep (c ∷ s) t e) (λ i e. split_once-append sep s i after e) h

-- What a span is of the text it was found in.
abbrev pub IsReading : Text → Span → Type 0
IsReading t (code_span inside after) = t ≡ codes "`" ++ (inside ++ (codes "`" ++ after))
IsReading t (strong inside after) = t ≡ codes "**" ++ (inside ++ (codes "**" ++ after))
IsReading t (em inside after) = t ≡ codes "*" ++ (inside ++ (codes "*" ++ after))
IsReading t (anchor label url after) =
    (raw : Text) × (t ≡ codes "[" ++ (label ++ (codes "](" ++ (raw ++ (codes ")" ++ after)))))
    × (url ≡ trim raw)
IsReading t (single c after) = t ≡ c ∷ after

between-append :
    (s marker inside after : Text)
    → between s marker ≡ some (inside, after)
    → s ≡ marker ++ (inside ++ (marker ++ after))
unfolding between
between-append s marker inside after h = elim (Option-cases (strip_prefix marker s)) [
  | inl missing ↦ cc (rw (missing, between) at h)
  | inr (rest, found) ↦
      strip_prefix-append marker s rest found
      ∙ ap (λ t. marker ++ t)
          (split_once-append marker rest inside after (rw (found, between) at h))
]

first_of-IsReading :
    (o₁ o₂ : Option (Text × Text)) (o₃ : Option (Text × Text × Text)) (o₄ : Option (Text × Text))
    → (c : ℕ) (s : Text) → ((i a : Text) → o₁ ≡ some (i, a) → IsReading (c ∷ s) (code_span i a))
    → ((i a : Text) → o₂ ≡ some (i, a) → IsReading (c ∷ s) (strong i a))
    → ((l u a : Text) → o₃ ≡ some (l, u, a) → IsReading (c ∷ s) (anchor l u a))
    → ((i a : Text) → o₄ ≡ some (i, a) → IsReading (c ∷ s) (em i a))
    → IsReading (c ∷ s) (first_of o₁ o₂ o₃ o₄ c s)
first_of-IsReading (some (i, a)) o₂ o₃ o₄ c s f g k l = f i a refl
first_of-IsReading none (some (i, a)) o₃ o₄ c s f g k l = g i a refl
first_of-IsReading none none (some (i, u, a)) o₄ c s f g k l = k i u a refl
first_of-IsReading none none none (some (i, a)) c s f g k l = l i a refl
first_of-IsReading none none none none c s f g k l = refl

kept : (b : Bool) (x y : Text × Text × Text) → (if b then none else some x) ≡ some y → x ≡ y
kept true x y h = cc
kept false x y h = some-inj h

link-IsReading :
    (t label url after : Text)
    → link t ≡ some (label, url, after)
    → IsReading t (anchor label url after)
unfolding link
link-IsReading t label url after h = elim (Option-cases (strip_prefix (codes "[") t)) [
  | inl missing ↦ cc (rw (missing, link) at h)
  | inr (rest, opened) ↦ elim (Option-cases (split_once (codes "]") rest)) [
    | inl missing ↦ cc (rw (opened, missing, link) at h)
    | inr ((l, more), labelled) ↦ elim (Option-cases (strip_prefix (codes "(") more)) [
      | inl missing ↦ cc (rw (opened, labelled, missing, link) at h)
      | inr (target, led) ↦ elim (Option-cases (split_once (codes ")") target)) [
        | inl missing ↦ cc (rw (opened, labelled, led, missing, link) at h)
        | inr ((raw, a), closed) ↦
            let whole = rw (opened, labelled, led, closed, link) at h in
            let same = kept (is_empty (trim raw)) (l, trim raw, a) (label, url, after) whole in
            let before = strip_prefix-append (codes "[") t rest opened in
            let cut_label = split_once-append (codes "]") rest l more labelled in
            let paren = strip_prefix-append (codes "(") more target led in
            let cut_url = split_once-append (codes ")") target raw a closed in
            (raw, cc (same, before, cut_label, paren, cut_url), cc same)
      ]
    ]
  ]
]

pub next_span-IsReading : (c : ℕ) (s : Text) → IsReading (c ∷ s) (next_span c s)
unfolding next_span
next_span-IsReading c s =
    first_of-IsReading (between (c ∷ s) (codes "`")) (between (c ∷ s) (codes "**")) (link (c ∷ s))
      (between (c ∷ s) (codes "*")) c s (λ i a e. between-append (c ∷ s) (codes "`") i a e)
      (λ i a e. between-append (c ∷ s) (codes "**") i a e)
      (λ l u a e. link-IsReading (c ∷ s) l u a e)
      (λ i a e. between-append (c ∷ s) (codes "*") i a e)
