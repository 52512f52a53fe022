-- ===== src/Content/Markdown/Url/Browser.antt =====
-- What a browser makes of the addresses that pass.
use forgepost.Prelude.{
  ℕ, ◌≡◌, refl, Bool, true, false, not, ◌||◌, ◌&&◌, [], ◌∷◌, ◌++◌, ◌==◌, leb, ltb, if◌then◌else◌,
  arith, any, All, Bool-cases, inl, inr,
}
use forgepost.Text.{Text, codes, starts_with, is_empty}
use forgepost.Text.Ops.{
  is_whitespace, trim_start, trim_end, trim, skip_char, to_ascii_lowercase, ascii_lower,
}
use forgepost.Content.Markdown.Url.Escaped.{trim_end-solid}
use forgepost.Content.Markdown.Url.{
  is_break, normalized, executable_schemes, is_safe_url, drop_controls, runs_script,
}

-- The characters below the space that are no white space.
abbrev pub is_control : ℕ → Bool
is_control c = ltb c 9 || (ltb 13 c && ltb c 32)

white_lower : (c : ℕ) → is_whitespace c ≡ true → ascii_lower c ≡ c
unfolding is_whitespace
white_lower c h = ground arith

space_white : (c : ℕ) → leb c 32 ≡ true → is_control c ≡ false → is_whitespace c ≡ true
unfolding is_whitespace
space_white c h p = ground arith

-- A text that starts with a solid character, once normalized, does not start with white space.
starts_with_white :
    (d : ℕ) (p : Text) (c : ℕ) (s : Text)
    → is_whitespace d ≡ false
    → is_break c ≡ false
    → starts_with (d ∷ p) (normalized (c ∷ s)) ≡ true
    → is_whitespace c ≡ false
unfolding normalized to_ascii_lowercase
starts_with_white d p c s w b h = elim (Bool-cases (is_whitespace c)) [
  | inr solid ↦ solid
  | inl white ↦
      let same = white_lower c white in
      let head : d ≡ ascii_lower c = ground (arith, b, h) in cc (head, same, w)
]

drop_controls-trim_start :
    (s : Text)
    → All (λ c. is_control c ≡ false) s
    → starts_with (codes "javascript:") (normalized (drop_controls s)) ≡ true
    → starts_with (codes "javascript:") (normalized (trim_start s)) ≡ true
unfolding drop_controls trim_start
drop_controls-trim_start [] p h = h
drop_controls-trim_start (c ∷ s) (p, ps) h = elim (Bool-cases (leb c 32)) [
  | inl low ↦ rw (space_white c low p) (drop_controls-trim_start s ps (rw low at h))
  | inr high ↦
      let h' : starts_with (codes "javascript:") (normalized (c ∷ s)) ≡ true = rw high at h in
      let other : is_break c ≡ false = ground (arith, high) in
      rw (starts_with_white 106 (codes "avascript:") c s refl other h') h'
]

nothing :
    (d : ℕ) (p : Text) (c : ℕ)
    → is_break c ≡ true
    → starts_with (d ∷ p) (normalized (c ∷ [])) ≡ true
    → false ≡ true
unfolding normalized to_ascii_lowercase
nothing d p c b h = ground (arith, b, h)

-- Dropping an end of white space keeps such a start.
keeps_head :
    (d : ℕ) (p : Text) (c : ℕ) (r : Text)
    → is_whitespace d ≡ false
    → starts_with (d ∷ p) (normalized (c ∷ r)) ≡ true
    → starts_with (d ∷ p) (normalized (if is_empty r && is_whitespace c then [] else c ∷ r)) ≡ true
keeps_head d p c (x ∷ r) w h = h
keeps_head d p c [] w h = elim (Bool-cases (is_break c)) [
  | inl break ↦ let impossible : false ≡ true = nothing d p c break h in cc
  | inr other ↦ rw (starts_with_white d p c [] w other h) h
]

keeps_tail :
    (d : ℕ) (p : Text) (c : ℕ) (s : Text)
    → starts_with (d ∷ p) (normalized (c ∷ s)) ≡ true
    → (starts_with (d ∷ p) (normalized s) ≡ true
        → starts_with (d ∷ p) (normalized (trim_end s)) ≡ true)
    → (starts_with p (normalized s) ≡ true → starts_with p (normalized (trim_end s)) ≡ true)
    → starts_with (d ∷ p) (normalized (c ∷ trim_end s)) ≡ true
unfolding normalized to_ascii_lowercase
keeps_tail d p c s h ih₁ ih₂ = ground (arith, h, ih₁, ih₂)

keeps_start :
    (p : Text) (s : Text)
    → All (λ c. is_whitespace c ≡ false) p
    → starts_with p (normalized s) ≡ true
    → starts_with p (normalized (trim_end s)) ≡ true
unfolding trim_end
keeps_start [] s w h = refl
keeps_start (d ∷ p) [] w h = h
keeps_start (d ∷ p) (c ∷ s) (w, ws) h =
    keeps_head d p c (trim_end s) w
      (keeps_tail d p c s h (keeps_start (d ∷ p) s (w, ws)) (keeps_start p s ws))

skip_char-start :
    (s : Text)
    → starts_with (codes "javascript:") (normalized s) ≡ true
    → starts_with (codes "javascript:") (normalized (skip_char 8203 s)) ≡ true
unfolding skip_char normalized to_ascii_lowercase
skip_char-start [] h = h
skip_char-start (c ∷ s) h = ground arith

refused :
    (a : Text)
    → starts_with (codes "javascript:") (normalized a) ≡ true
    → not (any (λ scheme. starts_with scheme (normalized a)) executable_schemes) ≡ false
refused a h = rw h refl

-- An address that passes, and has no control character other than white space, is none that a
-- browser runs as a script.
pub is_safe_url-runs_script :
    (url : Text)
    → All (λ c. is_control c ≡ false) url
    → is_safe_url url ≡ true
    → runs_script url ≡ false
unfolding is_safe_url runs_script trim
is_safe_url-runs_script url plain safe = elim (Bool-cases (runs_script url)) [
  | inr idle ↦ idle
  | inl runs ↦
      let start = drop_controls-trim_start url plain runs in
      let kept = keeps_start (codes "javascript:") (trim_start url) (ground arith) start in
      let bare = skip_char-start (trim_end (trim_start url)) kept in
      let refuse = refused (skip_char 8203 (trim_end (trim_start url))) bare in cc (refuse, safe)
]

control_solid : (k : ℕ) → is_control k ≡ true → is_whitespace k ≡ false
unfolding is_whitespace
control_solid k h = ground arith

scheme_found :
    (s : Text) → starts_with (codes "javascript:") (normalized (codes "javascript:" ++ s)) ≡ true
unfolding normalized to_ascii_lowercase
scheme_found s = refl

control_start : (k : ℕ) (t : Text) → is_control k ≡ true → trim (k ∷ t) ≡ k ∷ trim_end t
unfolding trim trim_start trim_end
control_start k t h =
    let solid = control_solid k h in rw (solid, trim_end-solid (k ∷ []) t (solid, tt)) refl

normalized-control :
    (k : ℕ) (t : Text)
    → is_control k ≡ true
    → normalized (skip_char 8203 (k ∷ t)) ≡ k ∷ normalized t
unfolding skip_char normalized to_ascii_lowercase
normalized-control k t h = ground arith

control_other : (k d : ℕ) → ltb 31 d ≡ true → is_control k ≡ true → (d == k) ≡ false
control_other k d l h = ground arith

control_passes :
    (k : ℕ) (t : Text)
    → is_control k ≡ true
    → not (
        any (λ scheme. starts_with scheme (normalized (skip_char 8203 (k ∷ t)))) executable_schemes)
      ≡ true
control_passes k t h =
    let j = control_other k 106 refl h in
    let v = control_other k 118 refl h in
    let f = control_other k 102 refl h in
    let d = control_other k 100 refl h in rw (normalized-control k t h, j, v, f, d) refl

control_dropped :
    (k : ℕ) (s : Text)
    → is_control k ≡ true
    → drop_controls (k ∷ codes "javascript:" ++ s) ≡ codes "javascript:" ++ s
unfolding drop_controls
control_dropped k s h = ground arith

-- Finding: behind a control character the scheme is not seen, though a browser drops the character.
pub is_safe_url-control :
    (k : ℕ) (s : Text)
    → is_control k ≡ true
    → (is_safe_url (k ∷ codes "javascript:" ++ s) ≡ true)
      × (runs_script (k ∷ codes "javascript:" ++ s) ≡ true)
unfolding is_safe_url runs_script trim
is_safe_url-control k s h = (
  rw (control_start k (codes "javascript:" ++ s) h)
      (control_passes k (trim_end (codes "javascript:" ++ s)) h),
  rw (control_dropped k s h) (scheme_found s),
)
