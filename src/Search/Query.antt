-- ===== src/Search/Query.antt =====
-- What fts_match_expr writes.
use forgepost.Prelude.{
  ◌≡◌, refl, false, not, ◌&&◌, List, [], ◌∷◌, ◌++◌, ◌==◌, keep, All, Bool-cases, inl, inr, ◌⊎◌,
  arith,
}
use forgepost.Text.{Text, codes, is_empty}
use forgepost.Text.Ops.{is_whitespace, trim, trim_start, trim_end}
use forgepost.Search.{
  is_control, token_of, tokens_of, split_whitespace, write_tokens, fts_match_expr,
}

-- Without quotation marks.
abbrev pub IsLiteral : Text → Type 0
IsLiteral s = All (λ c. (c == 34) ≡ false) s

-- Phrases: literals in quotes, parted by spaces, with a star behind the last.
pub data IsPhrases : Text → Type 0 where
  last :
      (token : Text)
      → is_empty token ≡ false
      → IsLiteral token
      → IsPhrases (codes "\"" ++ token ++ codes "\"*")
  more :
      (token rest : Text)
      → is_empty token ≡ false
      → IsLiteral token
      → IsPhrases rest
      → IsPhrases (codes "\"" ++ token ++ codes "\"" ++ codes " " ++ rest)

keep-IsLiteral : (s : Text) → IsLiteral (keep (λ c. not (is_control c) && not (c == 34)) s)
keep-IsLiteral [] = tt
keep-IsLiteral (c ∷ s) = ground (arith, keep-IsLiteral s)

trim_start-IsLiteral : (s : Text) → IsLiteral s → IsLiteral (trim_start s)
unfolding trim_start
trim_start-IsLiteral [] h = h
trim_start-IsLiteral (c ∷ s) (h, hs) = elim (Bool-cases (is_whitespace c)) [
  | inl white ↦ rw white (trim_start-IsLiteral s hs)
  | inr solid ↦ rw solid (h, hs)
]

trim_end-IsLiteral : (s : Text) → IsLiteral s → IsLiteral (trim_end s)
unfolding trim_end
trim_end-IsLiteral [] h = h
trim_end-IsLiteral (c ∷ s) (h, hs) = elim (Bool-cases (is_empty (trim_end s) && is_whitespace c)) [
  | inl white ↦ rw white tt
  | inr solid ↦ rw solid (h, trim_end-IsLiteral s hs)
]

token_of-IsLiteral : (raw : Text) → IsLiteral (token_of raw)
unfolding token_of trim
token_of-IsLiteral raw = trim_end-IsLiteral _ (trim_start-IsLiteral _ (keep-IsLiteral raw))

-- Tokens are literals, and none is empty.
abbrev IsToken : Text → Type 0
IsToken t = (is_empty t ≡ false) × IsLiteral t

tokens_of-All : (raws : List Text) → All IsToken (tokens_of raws)
unfolding tokens_of
tokens_of-All [] = tt
tokens_of-All (raw ∷ raws) = elim (Bool-cases (is_empty (token_of raw))) [
  | inl blank ↦ rw blank (tokens_of-All raws)
  | inr given ↦ rw given ((given, token_of-IsLiteral raw), tokens_of-All raws)
]

write_tokens-IsPhrases :
    (token : Text) (tokens : List Text)
    → All IsToken (token ∷ tokens)
    → IsPhrases (write_tokens (token ∷ tokens))
unfolding write_tokens
write_tokens-IsPhrases token [] ((g, l), h) = last token g l
write_tokens-IsPhrases token (next ∷ tokens) ((g, l), h) =
    more token _ g l (write_tokens-IsPhrases next tokens h)

-- The expression is empty, or it is made of literals in quotes: no character of the query acts as an
-- operator of the search.
pub fts_match_expr-IsPhrases :
    (query : Text) → (fts_match_expr query ≡ []) ⊎ IsPhrases (fts_match_expr query)
unfolding fts_match_expr
fts_match_expr-IsPhrases query =
    written (tokens_of (split_whitespace query)) (tokens_of-All (split_whitespace query))
  where
    written :
        (ts : List Text) → All IsToken ts → (write_tokens ts ≡ []) ⊎ IsPhrases (write_tokens ts)
    written [] h = inl refl
    written (t ∷ ts) h = inr (write_tokens-IsPhrases t ts h)
