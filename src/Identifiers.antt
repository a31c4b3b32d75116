-- ===== src/Identifiers.antt =====
-- The character classes behind the identifier patterns: `TopicID` of app/schemas/onboarding.py, the
-- challenge and claim-code patterns of app/services/provisioning_state.py and
-- app/services/onboarding_service.py, and `_IDENTIFIER` of app/transports/mqtt_topics.py.
use kz_home_core.Common.{
  ℕ, String, List, [], ◌∷◌, Bool, false, ◌&&◌, ◌||◌, all, length, leb, ◌==◌, codes,
}

-- [0-9]
abbrev is_digit : ℕ → Bool
is_digit c = leb b'0' c && leb c b'9'

-- [A-Za-z0-9]
unfoldable pub is_alnum : ℕ → Bool
is_alnum c = is_digit c || (leb b'A' c && leb c b'Z') || (leb b'a' c && leb c b'z')

-- [A-Za-z0-9_.-]
unfoldable pub is_identifier_char : ℕ → Bool
unfolding is_alnum
is_identifier_char c = is_alnum c || c == b'_' || c == b'.' || c == b'-'

-- [A-Za-z0-9_-]
unfoldable pub is_token_char : ℕ → Bool
unfolding is_alnum
is_token_char c = is_alnum c || c == b'_' || c == b'-'

-- [0-9a-f]
unfoldable pub is_hex_char : ℕ → Bool
is_hex_char c = is_digit c || (leb b'a' c && leb c b'f')

-- ^[A-Za-z0-9][A-Za-z0-9_.-]{0,rest}$
unfoldable pub is_identifier : ℕ → List ℕ → Bool
unfolding is_identifier_char
is_identifier rest [] = false
is_identifier rest (c ∷ cs) = is_alnum c && (leb (length cs) rest && all is_identifier_char cs)

-- `TopicID`: 1 to 64 characters.
unfoldable pub is_topic_id : String → Bool
unfolding is_identifier
is_topic_id s = is_identifier 63 (codes s)

-- [A-Za-z0-9_-]{43}, the form of `token_urlsafe(32)`
unfoldable pub is_token : String → Bool
unfolding is_token_char
is_token s = (length (codes s) == 43) && all is_token_char (codes s)

-- [0-9a-f]{64}, the form of a SHA-256 digest
unfoldable pub is_hex_digest : String → Bool
unfolding is_hex_char
is_hex_digest s = (length (codes s) == 64) && all is_hex_char (codes s)
