-- ===== src/Slug/Laws.antt =====
-- What slugify returns.
use forgepost.Prelude.{
  ℕ, Bool, true, false, not, ◌&&◌, ◌≡◌, refl, sym, ap, ◌∙◌, append_assoc, keep, any, subst,
  append-nil, [], ◌∷◌, ◌++◌, ◌==◌, if◌then◌else◌, ◌⊎◌, inl, inr, Bool-cases, arith,
}
use forgepost.Text.{Text, is_empty}
use forgepost.Text.Ops.{skip_char, skip_char_end}
use forgepost.Slug.{slug_from, slugify, untitled}

-- Alphanumeric characters, with single dashes between them.
pub data IsSlug (is_alphanumeric : ℕ → Bool) : Text → Type 0 where
  last : (c : ℕ) → is_alphanumeric c ≡ true → IsSlug is_alphanumeric (c ∷ [])
  next :
      (c : ℕ) (s : Text)
      → is_alphanumeric c ≡ true
      → IsSlug is_alphanumeric s
      → IsSlug is_alphanumeric (c ∷ s)
  dash :
      (c : ℕ) (s : Text)
      → is_alphanumeric c ≡ true
      → IsSlug is_alphanumeric s
      → IsSlug is_alphanumeric (c ∷ 45 ∷ s)

module _ (to_lowercase : Text → Text) (is_alphanumeric : ℕ → Bool)
    (dash_separates : is_alphanumeric 45 ≡ false) where
  -- The slug within the loop once it holds anything: a slug, or a slug with a dash behind it.
  data IsBegun : Text → Bool → Type 0 where
    word : (s : Text) → IsSlug is_alphanumeric s → IsBegun s false
    dashed : (s : Text) → IsSlug is_alphanumeric s → IsBegun (s ++ 45 ∷ []) true

  grow :
      (s : Text) (c : ℕ)
      → IsSlug is_alphanumeric s
      → is_alphanumeric c ≡ true
      → IsSlug is_alphanumeric (s ++ c ∷ [])
  grow _ d (last c h) a = next c _ h (last d a)
  grow _ d (next c s h r) a = next c _ h (grow s d r a)
  grow _ d (dash c s h r) a = dash c _ h (grow s d r a)

  grow_dashed :
      (s : Text) (c : ℕ)
      → IsSlug is_alphanumeric s
      → is_alphanumeric c ≡ true
      → IsSlug is_alphanumeric ((s ++ 45 ∷ []) ++ c ∷ [])
  grow_dashed _ d (last c h) a = dash c _ h (last d a)
  grow_dashed _ d (next c s h r) a = next c _ h (grow_dashed s d r a)
  grow_dashed _ d (dash c s h r) a = dash c _ h (grow_dashed s d r a)

  no_dash : (c : ℕ) → is_alphanumeric c ≡ true → (c == 45) ≡ false
  no_dash c h = elim (Bool-cases (c == 45)) [
    | inr differs ↦ differs
    | inl same ↦ ground (arith, h, dash_separates)
  ]

  solid : (s : Text) → IsSlug is_alphanumeric s → is_empty s ≡ false
  solid _ (last c h) = refl
  solid _ (next c s h r) = refl
  solid _ (dash c s h r) = refl

  skip_char-slug : (s rest : Text) → IsSlug is_alphanumeric s → skip_char 45 (s ++ rest) ≡ s ++ rest
  unfolding skip_char
  skip_char-slug _ rest (last c h) = rw (no_dash c h) refl
  skip_char-slug _ rest (next c s h r) = rw (no_dash c h) refl
  skip_char-slug _ rest (dash c s h r) = rw (no_dash c h) refl

  skip_char_end-slug : (s : Text) → IsSlug is_alphanumeric s → skip_char_end 45 s ≡ s
  unfolding skip_char_end
  skip_char_end-slug _ (last c h) = rw (no_dash c h) refl
  skip_char_end-slug _ (next c s h r) = rw (skip_char_end-slug s r, solid s r) refl
  skip_char_end-slug _ (dash c s h r) = rw (skip_char_end-slug s r, solid s r) refl

  skip_char_end-dashed : (s : Text) → IsSlug is_alphanumeric s → skip_char_end 45 (s ++ 45 ∷ []) ≡ s
  unfolding skip_char_end
  skip_char_end-dashed _ (last c h) = rw (no_dash c h) refl
  skip_char_end-dashed _ (next c s h r) = rw (skip_char_end-dashed s r, solid s r) refl
  skip_char_end-dashed _ (dash c s h r) = rw (skip_char_end-dashed s r, solid s r) refl

  with_char :
      (s : Text) (d : Bool) (c : ℕ)
      → IsBegun s d
      → is_alphanumeric c ≡ true
      → IsSlug is_alphanumeric (s ++ c ∷ [])
  with_char _ _ c (word s h) a = grow s c h a
  with_char _ _ c (dashed s h) a = grow_dashed s c h a

  with_dash :
      (s : Text) (d : Bool)
      → IsBegun s d
      → (not d && not (is_empty s)) ≡ true
      → IsBegun (s ++ 45 ∷ []) true
  with_dash _ _ (word s h) e = dashed s h
  with_dash _ _ (dashed s h) e = cc

  -- What the loop ends with.
  abbrev Ends : Text → Type 0
  Ends s = IsBegun s false ⊎ IsBegun s true

  ended : (s : Text) (d : Bool) → IsBegun s d → Ends s
  ended s false h = inl h
  ended s true h = inr h

  slug_from-Ends :
      (s : Text) (d : Bool) (cs : Text)
      → IsBegun s d
      → Ends (slug_from to_lowercase is_alphanumeric s d cs)
  unfolding slug_from
  slug_from-Ends s d [] h = ended s d h
  slug_from-Ends s d (c ∷ cs) h = elim (Bool-cases (is_alphanumeric c)) [
    | inl a ↦
        rw (slug_from, a)
          (slug_from-Ends (s ++ c ∷ []) false cs (word (s ++ c ∷ []) (with_char s d c h a)))
    | inr other ↦
        rw (slug_from, other)
          (elim (Bool-cases (not d && not (is_empty s))) [
            | inl e ↦ rw e (slug_from-Ends (s ++ 45 ∷ []) true cs (with_dash s d h e))
            | inr e ↦ rw e (slug_from-Ends s d cs h)
          ])
  ]

  abbrev or_untitled : Text → Text
  or_untitled s = if is_empty s then untitled else s

  given : (s t : Text) → IsSlug is_alphanumeric s → t ≡ s → IsSlug is_alphanumeric (or_untitled t)
  given s t h e = rw (e, solid s h) h

  trimmed :
      (s : Text) (d : Bool)
      → IsBegun s d
      → IsSlug is_alphanumeric (or_untitled (skip_char_end 45 (skip_char 45 s)))
  unfolding skip_char skip_char_end
  trimmed _ _ (word s h) =
      let same = subst (λ x. skip_char 45 x ≡ x) (append-nil s) (skip_char-slug s [] h) in
      given s (skip_char_end 45 (skip_char 45 s)) h (rw same (skip_char_end-slug s h))
  trimmed _ _ (dashed s h) =
      given s (skip_char_end 45 (skip_char 45 (s ++ 45 ∷ []))) h
        (rw (skip_char-slug s (45 ∷ []) h) (skip_char_end-dashed s h))

  -- The alphanumeric characters, in order.
  abbrev pub letters : Text → Text
  letters s = keep is_alphanumeric s

  letters-append : (s t : Text) → letters (s ++ t) ≡ letters s ++ letters t
  letters-append [] t = refl
  letters-append (c ∷ s) t = ground (arith, letters-append s t)

  letters-char :
      (s : Text) (c : ℕ) → is_alphanumeric c ≡ true → letters (s ++ c ∷ []) ≡ letters s ++ c ∷ []
  letters-char s c a = letters-append s (c ∷ []) ∙ ap (λ t. letters s ++ t) (rw a refl)

  letters-dash : (s : Text) → letters (s ++ 45 ∷ []) ≡ letters s
  letters-dash s =
      letters-append s (45 ∷ [])
      ∙ ap (λ t. letters s ++ t) (rw dash_separates refl)
      ∙ append-nil (letters s)

  slug_from-letters :
      (s : Text) (d : Bool) (cs : Text)
      → letters (slug_from to_lowercase is_alphanumeric s d cs) ≡ letters s ++ letters cs
  unfolding slug_from
  slug_from-letters s d [] = sym (append-nil (letters s))
  slug_from-letters s d (c ∷ cs) = elim (Bool-cases (is_alphanumeric c)) [
    | inl a ↦
        rw (slug_from, a)
          (slug_from-letters (s ++ c ∷ []) false cs
            ∙ ap (λ t. t ++ letters cs) (letters-char s c a)
            ∙ append_assoc (letters s) (c ∷ []) (letters cs))
    | inr other ↦
        rw (slug_from, other)
          (elim (Bool-cases (not d && not (is_empty s))) [
            | inl e ↦ rw e (
                slug_from-letters (s ++ 45 ∷ []) true cs
                ∙ ap (λ t. t ++ letters cs) (letters-dash s))
            | inr e ↦ rw e (slug_from-letters s d cs)
          ])
  ]

  trimmed-letters :
      (s : Text) (d : Bool)
      → IsBegun s d
      → letters (or_untitled (skip_char_end 45 (skip_char 45 s))) ≡ letters s
  unfolding skip_char skip_char_end
  trimmed-letters _ _ (word s h) =
      let same = subst (λ x. skip_char 45 x ≡ x) (append-nil s) (skip_char-slug s [] h) in
      rw (same, skip_char_end-slug s h, solid s h) refl
  trimmed-letters _ _ (dashed s h) =
      rw (skip_char-slug s (45 ∷ []) h, skip_char_end-dashed s h, solid s h) (sym (letters-dash s))

  -- From nothing, the loop begins at the first alphanumeric character, if there is one.
  slug_from-nothing :
      (cs : Text)
      → ((any is_alphanumeric cs ≡ true)
          × Ends (slug_from to_lowercase is_alphanumeric [] false cs))
        ⊎ ((any is_alphanumeric cs ≡ false)
            × (slug_from to_lowercase is_alphanumeric [] false cs ≡ []))
  unfolding slug_from
  slug_from-nothing [] = inr (refl, refl)
  slug_from-nothing (c ∷ cs) = elim (Bool-cases (is_alphanumeric c)) [
    | inl a ↦
        rw (slug_from, a) (inl (refl, slug_from-Ends (c ∷ []) false cs (word (c ∷ []) (last c a))))
    | inr other ↦ rw (slug_from, other) (slug_from-nothing cs)
  ]

  untitled_when : (s : Text) → s ≡ [] → or_untitled (skip_char_end 45 (skip_char 45 s)) ≡ untitled
  unfolding skip_char skip_char_end
  untitled_when s e = rw e refl

  -- A slug with the alphanumeric characters of a text, in order.
  abbrev pub IsSlugOf : Text → Text → Type 0
  IsSlugOf t s = IsSlug is_alphanumeric s × (letters s ≡ letters t)

  slug_of :
      (t : Text) (d : Bool)
      → IsBegun (slug_from to_lowercase is_alphanumeric [] false t) d
      → IsSlugOf t (
          or_untitled
            (skip_char_end 45 (skip_char 45 (slug_from to_lowercase is_alphanumeric [] false t))))
  slug_of t d h = (trimmed _ d h, trimmed-letters _ d h ∙ slug_from-letters [] false t)

  -- Where a dash is not alphanumeric: if the title in lower case has alphanumeric characters, its
  -- slug holds just these, in order, with single dashes between some of them and none at either end;
  -- if it has none, the slug is the fixed one.
  pub slugify-IsSlugOf :
      (title : Text)
      → let slug = slugify to_lowercase is_alphanumeric title in
        let lower = to_lowercase title in
        ((any is_alphanumeric lower ≡ true) × IsSlugOf lower slug)
        ⊎ ((any is_alphanumeric lower ≡ false) × (slug ≡ untitled))
  unfolding slugify
  slugify-IsSlugOf title = elim (slug_from-nothing (to_lowercase title)) [
    | inl (some_there, inl h) ↦ inl (some_there, slug_of _ false h)
    | inl (some_there, inr h) ↦ inl (some_there, slug_of _ true h)
    | inr (none_there, e) ↦ inr (none_there, untitled_when _ e)
  ]
