-- ===== src/S3/Cors.antt =====
-- backend/src/s3/cors.cpp: the matching of a cross-origin request against the rules of a bucket.
pub mod Validation
pub mod Patterns
pub mod Decisions
pub mod Validated
pub mod Unreadable
pub mod Handlers
mod Tests
use mono_bucket.Base.{
  ℕ, suc, ◌+◌, ◌-◌, Bool, true, false, ◌&&◌, ◌||◌, not, Option, none, some, List, [], ◌∷◌, ◌++◌,
  map, ltb, leb, ◌==◌, if◌then◌else◌, Bytes, bytes_eq, length, drop, any, all, codes, ℤ, pos,
  negsuc, Result, ok, err,
}
use mono_bucket.S3.Errors.{S3ErrorCode, malformed_xml}
use mono_bucket.S3.Names.{bytes_start}
use mono_bucket.S3.Range.{split_at_first}
use mono_bucket.S3.Text.{split_at_each, to_lower}
use mono_bucket.Storage.Records.{CorsRule}

unfoldable pub upper_byte : ℕ → ℕ
upper_byte c = if leb b'a' c && leb c b'z' then c - 32 else c

unfoldable pub to_upper : Bytes → Bytes
unfolding upper_byte
to_upper [] = []
to_upper (c ∷ text) = upper_byte c ∷ to_upper text

-- The characters of " \t\r\n".
unfoldable pub is_space : ℕ → Bool
is_space c = c == b' ' || (c == b'\t' || (c == 13 || c == 10))

unfoldable pub after_spaces : Bytes → Bytes
unfolding is_space
after_spaces [] = []
after_spaces (c ∷ text) = let rest = after_spaces text in if is_space c then rest else c ∷ text

abbrev pub ends_solid : ℕ → Bytes → Bytes
unfolding is_space
ends_solid c [] = if is_space c then [] else c ∷ []
ends_solid c (d ∷ text) = c ∷ d ∷ text

unfoldable pub before_spaces : Bytes → Bytes
before_spaces [] = []
before_spaces (c ∷ text) = ends_solid c (before_spaces text)

-- `trim` of this file
unfoldable pub trim_spaces : Bytes → Bytes
unfolding after_spaces before_spaces
trim_spaces text = before_spaces (after_spaces text)

-- `join` of this file
abbrev add_joined : Bytes → Bytes → Bytes → Bytes
add_joined separator [] value = value
add_joined separator (c ∷ out) value = (c ∷ out) ++ (separator ++ value)

unfoldable pub join_from : Bytes → List Bytes → Bytes → Bytes
join_from out [] separator = out
join_from out (value ∷ values) separator =
    join_from (add_joined separator out value) values separator

unfoldable pub join : List Bytes → Bytes → Bytes
unfolding join_from
join values separator = join_from [] values separator

-- The test of the two halves of a pattern. `value` is at least as long as both.
abbrev pub match_halves : Option (Bytes × Bytes) → Bytes → Bytes → Bool
match_halves none pattern value = bytes_eq pattern value
match_halves (some (prefix, suffix)) pattern value =
    if ltb (length value) (length prefix + length suffix)
    then false
    else bytes_start prefix value && bytes_eq (drop (length value - length suffix) value) suffix

unfoldable pub cors_pattern_matches : Bytes → Bytes → Bool
unfolding split_at_first bytes_start
cors_pattern_matches pattern value = match_halves (split_at_first b'*' pattern) pattern value

unfoldable pub matches_any : List Bytes → Bytes → Bool
unfolding cors_pattern_matches
matches_any patterns value = any (λ pattern. cors_pattern_matches pattern value) patterns

unfoldable pub kept_names : List Bytes → List Bytes
unfolding trim_spaces to_lower
kept_names [] = []
kept_names (text ∷ texts) = elim (trim_spaces text) [
  | [] ↦ kept_names texts
  | c ∷ name ↦ to_lower (c ∷ name) ∷ kept_names texts
]

unfoldable pub split_requested_headers : Bytes → List Bytes
unfolding kept_names split_at_each
split_requested_headers value = kept_names (split_at_each b',' value)

pub record CorsQuery : Type 0 where
  pub origin : Bytes
  pub method : Bytes
  pub requested_headers : List Bytes

pub record CorsDecision : Type 0 where
  pub rule : Option CorsRule
  pub allowed_headers : List Bytes

-- The three conditions of the loop of `matchCors`.
unfoldable pub rule_permits : CorsRule → CorsQuery → Bool
unfolding matches_any to_upper
rule_permits rule query =
    matches_any rule.allowed_origins query.origin
    && (any (λ m. bytes_eq m (to_upper query.method)) rule.allowed_methods
        && all (λ name. matches_any rule.allowed_headers name) query.requested_headers)

unfoldable pub match_cors : List CorsRule → CorsQuery → CorsDecision
unfolding rule_permits
match_cors [] query = record { rule = none; allowed_headers = [] }
match_cors (rule ∷ rules) query =
    let later = match_cors rules query in
    if rule_permits rule query
    then record { rule = some rule; allowed_headers = query.requested_headers }
    else later
