-- ===== src/Model/Ids.antt =====
-- crates/lore-auth-core/src/model.rs: resource and repository ids, and account emails.
use Prim.Native.Char.{Char, code}
use Prim.Native.String.{len, char_at}
use lore_auth_bridge.Base.{
  String, Bool, not, ◌&&◌, ◌||◌, leb, ltb, ◌==◌, nat_eq, if◌then◌else◌, Option, none, some,
  is_empty_str, is_whitespace, trim, any_char, all_chars, strip_prefix, has_prefix,
  to_ascii_lowercase, is_ascii_uppercase, is_ascii_lowercase, concat, [], ◌∷◌,
}

-- `ResourceID::for_repository_id`.
unfoldable pub for_repository_id : String → Option String
unfolding is_empty_str has_prefix
for_repository_id repository_id =
    if is_empty_str repository_id
    then none
    else if has_prefix "urc-" repository_id
    then some repository_id
    else some (concat ("urc-" ∷ repository_id ∷ []))

-- `ResourceID::repository_id_from_resource_id`.
unfoldable pub repository_id_from_resource_id : String → String
unfolding strip_prefix
repository_id_from_resource_id resource_id = elim (strip_prefix "urc-" resource_id) [
  | none ↦ resource_id
  | some rest ↦ rest
]

unfoldable pub normalize_email : String → String
unfolding trim to_ascii_lowercase
normalize_email email = to_ascii_lowercase (trim email)

unfoldable pub normalize_valid_account_email : String → Option String
unfolding normalize_email is_empty_str any_char is_whitespace
normalize_valid_account_email email =
    let normalized = normalize_email email in
    if is_empty_str normalized
      || not (any_char (λ c. code c == code (char_at "@" 0)) normalized)
      || any_char is_whitespace normalized
    then none
    else some normalized

-- `is_ascii_alphanumeric() || matches!(byte, b'-' | b'_')`.
unfoldable pub is_repository_id_byte : Char → Bool
unfolding is_ascii_uppercase is_ascii_lowercase
is_repository_id_byte c =
    is_ascii_uppercase c
    || is_ascii_lowercase c
    || (leb b'0' (code c) && leb (code c) b'9')
    || code c == b'-'
    || code c == b'_'

unfoldable pub normalize_valid_lore_repository_id : String → Option String
unfolding trim is_empty_str all_chars is_repository_id_byte
normalize_valid_lore_repository_id untrimmed =
    let value = trim untrimmed in
    if is_empty_str value || ltb 128 (len value) || not (all_chars is_repository_id_byte value)
    then none
    else some value
