-- ===== src/Content/Markdown/Inline/Safe.antt =====
-- The inline renderer ends within its rounds, and writes markup only.
use forgepost.Prelude.{
  ℕ, zero, suc, ◌≤◌, ◌≡◌, refl, sym, ap, ◌∙◌, true, Option, none, some, [], ◌∷◌, ◌++◌, length,
  length-append, arith, Bool-cases, inl, inr, append_assoc, append-nil, any, subst,
}
use forgepost.Text.{Text, codes, text_eq}
use forgepost.Text.Ops.{trim, trim_start, trim_end, is_whitespace}
use forgepost.Content.Markdown.Escape.{html_escape, html_escape-IsInert, IsInert}
use forgepost.Content.Markdown.Url.{is_safe_url}
use forgepost.Content.Markdown.Markup.{
  IsMarkup, elements, inert, join, element, bare, attribute, spelled,
}
use forgepost.Content.Markdown.Inline.{
  Span, code_span, strong, em, anchor, single, next_span, around, write_span, spans, inline_spans,
  render_inline,
}
use forgepost.Content.Markdown.Inline.Spans.{IsReading, next_span-IsReading}

-- A scan of a text that has a result, which is markup if the text is inert.
abbrev IsFine : Option Text → Text → Type 0
IsFine o s = (out : Text) × (o ≡ some out) × (IsInert s → IsMarkup out)

-- The parts of an inert text.
All-split : (s t : Text) → IsInert (s ++ t) → IsInert s × IsInert t
All-split [] t h = (tt, h)
All-split (c ∷ s) t (h, hs) = let (p, q) = All-split s t hs in ((h, p), q)

trim_start-IsInert : (s : Text) → IsInert s → IsInert (trim_start s)
unfolding trim_start
trim_start-IsInert [] h = h
trim_start-IsInert (c ∷ s) (h, hs) = elim (Bool-cases (is_whitespace c)) [
  | inl white ↦ rw white (trim_start-IsInert s hs)
  | inr solid ↦ rw solid (h, hs)
]

trim_end-IsInert : (s : Text) → IsInert s → IsInert (trim_end s)
unfolding trim_end
trim_end-IsInert [] h = h
trim_end-IsInert (c ∷ s) (h, hs) = ground (arith, trim_end-IsInert s hs, h)

trim-IsInert : (s : Text) → IsInert s → IsInert (trim s)
unfolding trim
trim-IsInert s h = trim_end-IsInert (trim_start s) (trim_start-IsInert s h)

-- An element without attributes, around markup, and what follows it.
pub simple-IsMarkup :
    (tag inside after : Text)
    → any (text_eq tag) elements ≡ true
    → IsMarkup inside
    → IsMarkup after
    → IsMarkup
        (codes "<" ++ tag ++ codes ">" ++ inside ++ (codes "</" ++ tag ++ codes ">") ++ after)
simple-IsMarkup tag inside after known m f =
    spelled (simp append_assoc) (join _ after (element tag [] inside (inl known) bare m) f)

pub anchor-IsMarkup :
    (url inside after : Text)
    → IsInert url
    → is_safe_url url ≡ true
    → IsMarkup inside
    → IsMarkup after
    → IsMarkup (codes "<a href=\"" ++ url ++ codes "\">" ++ inside ++ codes "</a>" ++ after)
anchor-IsMarkup url inside after i safe m f =
    let link = attribute (codes "href") url [] refl i (λ h. safe) bare in
    spelled (simp append_assoc) (join _ after (element (codes "a") _ inside (inl refl) link m) f)

-- What is enclosed in a text that opens with p, and what follows: both shorter, both inert.
parts-length :
    (p inside q after t : Text) (n : ℕ)
    → t ≡ p ++ (inside ++ (q ++ after))
    → 1 ≤ length p
    → length t ≤ suc n
    → (length inside ≤ n) × (length after ≤ n)
parts-length p inside q after t n e some_p l =
    let whole = ap length e in
    let a = length-append p (inside ++ (q ++ after)) in
    let b = length-append inside (q ++ after) in
    let c = length-append q after in
    (omega (arith, whole, a, b, c, l, some_p), omega (arith, whole, a, b, c, l, some_p))

parts-IsInert :
    (p inside q after t : Text)
    → t ≡ p ++ (inside ++ (q ++ after))
    → IsInert t
    → IsInert inside × IsInert after
parts-IsInert p inside q after t e h =
    let (_, k) = All-split p (inside ++ (q ++ after)) (subst IsInert e h) in
    let (i, l) = All-split inside (q ++ after) k in let (_, j) = All-split q after l in (i, j)

module _ (scan : Text → Option Text) (n : ℕ)
    (ih : (s : Text) → length s ≤ n → IsFine (scan s) s) where
  around-IsFine :
      (tag p inside q after t : Text)
      → any (text_eq tag) elements ≡ true
      → t ≡ p ++ (inside ++ (q ++ after))
      → 1 ≤ length p
      → length t ≤ suc n
      → IsFine
          (around
            (codes "<" ++ tag ++ codes ">")
            (scan inside)
            (codes "</" ++ tag ++ codes ">")
            (scan after))
          t
  around-IsFine tag p inside q after t known e some_p l =
      let (i, j) = parts-length p inside q after t n e some_p l in
      let (out, f, g) = ih inside i in
      let (out', f', g') = ih after j in
      (
        _,
        rw (f, f') refl,
        λ h.
            let (a, b) = parts-IsInert p inside q after t e h in
            simple-IsMarkup tag out out' known (g a) (g' b),
      )

  code-IsFine :
      (inside after t : Text)
      → t ≡ codes "`" ++ (inside ++ (codes "`" ++ after))
      → length t ≤ suc n
      → IsFine (write_span scan (code_span inside after)) t
  code-IsFine inside after t e l =
      let (_, j) = parts-length (codes "`") inside (codes "`") after t n e (omega arith) l in
      let (out, f, g) = ih after j in
      (
        _,
        rw f refl,
        λ h.
            let (a, b) = parts-IsInert (codes "`") inside (codes "`") after t e h in
            simple-IsMarkup (codes "code") inside out refl (inert inside a) (g b),
      )

  anchor-IsFine :
      (label url after raw t : Text)
      → t ≡ codes "[" ++ (label ++ (codes "](" ++ (raw ++ (codes ")" ++ after))))
      → url ≡ trim raw
      → length t ≤ suc n
      → IsFine (write_span scan (anchor label url after)) t
  anchor-IsFine label url after raw t e u l =
      let q = codes "](" ++ (raw ++ codes ")") in
      let e' : t ≡ codes "[" ++ (label ++ (q ++ after)) = e ∙ simp append_assoc in
      let opened = codes "[" ++ (label ++ codes "](") in
      let e'' : t ≡ opened ++ (raw ++ (codes ")" ++ after)) = e ∙ simp append_assoc in
      let (i, j) = parts-length (codes "[") label q after t n e' (omega arith) l in
      let (out, f, g) = ih label i in
      let (out', f', g') = ih after j in
      let inside : IsInert t → IsMarkup out =
        λ h. g (parts-IsInert (codes "[") label q after t e' h).0 in
      let behind : IsInert t → IsMarkup out' =
        λ h. g' (parts-IsInert (codes "[") label q after t e' h).1 in
      let address : IsInert t → IsInert url = λ h.
        subst IsInert (sym u)
          (trim-IsInert raw (parts-IsInert opened raw (codes ")") after t e'' h).0) in
      elim (Bool-cases (is_safe_url url)) [
        | inl safe ↦ (
          _,
          rw (safe, f, f') refl,
          λ h. anchor-IsMarkup url out out' (address h) safe (inside h) (behind h),
        )
        | inr unsafe ↦ (
          [] ++ out ++ [] ++ out',
          rw (unsafe, f, f') refl,
          λ h. spelled (simp (append_assoc, append-nil)) (join out out' (inside h) (behind h)),
        )
      ]

  span-IsFine :
      (t : Text) (x : Span) → IsReading t x → length t ≤ suc n → IsFine (write_span scan x) t
  span-IsFine t (code_span inside after) e l = code-IsFine inside after t e l
  span-IsFine t (strong inside after) e l =
      around-IsFine (codes "strong") (codes "**") inside (codes "**") after t refl e (omega arith) l
  span-IsFine t (em inside after) e l =
      around-IsFine (codes "em") (codes "*") inside (codes "*") after t refl e (omega arith) l
  span-IsFine t (anchor label url after) (raw, e, u) l = anchor-IsFine label url after raw t e u l
  span-IsFine t (single c after) e l =
      let (out, f, g) = ih after (omega (arith, ap length e, l)) in
      (
        c ∷ out,
        rw f refl,
        λ h. let (i, is) = subst IsInert e h in join (c ∷ []) out (inert (c ∷ []) (i, tt)) (g is),
      )

spans-IsFine : (n : ℕ) (s : Text) → length s ≤ n → IsFine (spans n s) s
unfolding spans
spans-IsFine n [] l = ([], refl, λ h. inert [] tt)
spans-IsFine zero (c ∷ s) l = let impossible : ⊥ = omega (arith, l) in elim impossible [ ]
spans-IsFine (suc n) (c ∷ s) l =
    span-IsFine (λ t. spans n t) n (λ t k. spans-IsFine n t k) (c ∷ s) (next_span c s)
      (next_span-IsReading c s) l

-- The scan ends: it needs no more rounds than the text has characters.
pub inline_spans_total : (s : Text) → spans (length s) s ≡ some (inline_spans s)
unfolding inline_spans
inline_spans_total s =
    let (out, e, f) = spans-IsFine (length s) s (omega arith) in
    let same : inline_spans s ≡ out = ap (λ o. elim o [ none ↦ [] | some x ↦ x ]) e in
    e ∙ ap some (sym same)

-- Whatever the text, what the inline renderer returns is markup.
pub render_inline-IsMarkup : (text : Text) → IsMarkup (render_inline text)
unfolding render_inline inline_spans
render_inline-IsMarkup text =
    let (out, e, f) = spans-IsFine (length (html_escape text)) (html_escape text) (omega arith) in
    subst IsMarkup (sym (ap (λ o. elim o [ none ↦ [] | some x ↦ x ]) e))
      (f (html_escape-IsInert text))
