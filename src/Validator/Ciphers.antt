-- ===== src/Validator/Ciphers.antt =====
-- src/cardanowall/poe_standard/validator.py, UNAUTHENTICATED_CIPHER_RE: names of ciphers without
-- authentication, searched in a text.
use label_309_py.Prelude.{
  ℕ, ◌+◌, Bool, true, false, ◌&&◌, ◌||◌, List, [], ◌∷◌, leb, ◌==◌, if◌then◌else◌, length, codes,
}
use label_309_py.Cbor.{Text}

-- Case is folded, and the long s is a case of s.
unfoldable pub fold_case : ℕ → ℕ
fold_case c = if leb b'A' c && leb c b'Z' then c + 32 else if c == 383 then b's' else c

abbrev pub is_delimiter : ℕ → Bool
is_delimiter c = c == b'-' || c == b'_'

-- `(?:[-_]|$)`; the end is also before a last newline.
unfoldable pub ends_token : Text → Bool
ends_token [] = true
ends_token (c ∷ cs) = is_delimiter c || (c == 10 && length cs == 0)

-- A text that begins with a token.
unfoldable pub starts_with_token : Text → Text → Bool
starts_with_token [] s = ends_token s
starts_with_token (t ∷ token) [] = false
starts_with_token (t ∷ token) (c ∷ cs) = fold_case c == t && starts_with_token token cs

unfoldable pub starts_with_any : List Text → Text → Bool
starts_with_any [] s = false
starts_with_any (token ∷ tokens) s = starts_with_token token s || starts_with_any tokens s

abbrev pub modes : List Text
modes = codes "cbc" ∷ codes "ctr" ∷ codes "ecb" ∷ codes "cfb" ∷ codes "ofb" ∷ []

-- A mode behind a delimiter.
unfoldable pub has_later_mode : Text → Bool
has_later_mode [] = false
has_later_mode (c ∷ cs) = (is_delimiter c && starts_with_any modes cs) || has_later_mode cs

unfoldable pub is_unauthenticated_cipher : Text → Bool
is_unauthenticated_cipher aead =
    starts_with_any modes aead
    || has_later_mode aead
    || starts_with_any (codes "rc4" ∷ codes "des" ∷ codes "3des" ∷ []) aead
