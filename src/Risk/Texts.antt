-- ===== src/Risk/Texts.antt =====
-- The texts that internal/domain/iprisk.go checks: digests, identifiers and reason codes.
use clash_sub_parser.Prelude.{
  ℕ, String, Bool, false, not, ◌&&◌, ◌||◌, List, [], ◌∷◌, if◌then◌else◌, any, leb, ltb, ◌==◌, drop,
}
use clash_sub_parser.Prelude.Strings.{codes, contains, has_prefix, to_lower, trim_space}
use clash_sub_parser.Filters.Regex.{byte_length}

-- What `regexp` and `net.ParseIP` find in a text: an address, a URL with a query, a secret of a query.
pub record Scanner : Type 0 where
  pub has_address : List ℕ → Bool
  pub has_url_query : List ℕ → Bool
  pub has_query_secret : List ℕ → Bool

abbrev all : (ℕ → Bool) → List ℕ → Bool
all p cs = not (any (λ c. not (p c)) cs)

abbrev is_lower : ℕ → Bool
is_lower c = leb b'a' c && leb c b'z'

abbrev is_upper : ℕ → Bool
is_upper c = leb b'A' c && leb c b'Z'

abbrev is_digit : ℕ → Bool
is_digit c = leb b'0' c && leb c b'9'

abbrev is_hex_digit : ℕ → Bool
is_hex_digit c = is_digit c || (leb b'a' c && leb c b'f' || leb b'A' c && leb c b'F')

abbrev is_mark : ℕ → Bool
is_mark c = c == b'_' || (c == b'.' || c == b'-')

-- `validDigest`. What follows the prefix is in ASCII where it passes, so its characters are its bytes.
unfoldable pub valid_digest : List ℕ → Bool
valid_digest cs =
    has_prefix cs (codes "sha256:") && byte_length cs == 71 && all is_hex_digit (drop 7 cs)

-- `reasonCodeRegex`
unfoldable pub is_reason_code : List ℕ → Bool
is_reason_code [] = false
is_reason_code (c ∷ cs) = is_lower c && all (λ d. is_lower d || (is_digit d || is_mark d)) cs

abbrev is_word : ℕ → Bool
is_word c = is_lower c || (is_upper c || is_digit c)

-- `ipRiskIdentifierRegex`
unfoldable pub is_identifier : List ℕ → Bool
is_identifier [] = false
is_identifier (c ∷ cs) = is_word c && all (λ d. is_word d || is_mark d) cs

-- The words that show secrets.
abbrev pub secret_words : List (List ℕ)
secret_words =
    codes "api_key"
    ∷ codes "apikey"
    ∷ codes "cookie"
    ∷ codes "raw_payload"
    ∷ codes "raw json"
    ∷ codes "access_token"
    ∷ codes "token="
    ∷ codes "secret="
    ∷ codes "password="
    ∷ []

unfoldable pub has_secret_word : List ℕ → Bool
unfolding contains
has_secret_word cs = any (contains (to_lower cs)) secret_words

pub data TextFailure : Type 0 where
  missing_text invalid_text sensitive_text no_failure : TextFailure

module _ (scan : Scanner) where
  -- `containsSensitiveIPRiskText`
  unfoldable pub is_sensitive : List ℕ → Bool
  unfolding has_secret_word
  is_sensitive cs =
      scan.has_address cs
      || (scan.has_url_query cs || (scan.has_query_secret cs || has_secret_word cs))

  abbrev trimmed_failure : List ℕ → TextFailure
  trimmed_failure [] = missing_text
  trimmed_failure (c ∷ cs) =
      if ltb 64 (byte_length (c ∷ cs)) || not (is_identifier (c ∷ cs))
      then invalid_text
      else if is_sensitive (c ∷ cs)
      then sensitive_text
      else no_failure

  -- `validateIPRiskIdentifier`
  unfoldable pub identifier_failure : String → TextFailure
  unfolding trim_space is_identifier is_sensitive
  identifier_failure s = trimmed_failure (trim_space (codes s))

  -- `reasonCodeRegex.MatchString` without sensitive text
  unfoldable pub is_safe_reason : List ℕ → Bool
  unfolding is_reason_code is_sensitive
  is_safe_reason cs = is_reason_code cs && not (is_sensitive cs)
