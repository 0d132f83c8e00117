-- ===== src/Inbound/Http/Text.antt =====
-- crates/lore-auth-inbound/src/httpserver/response.rs: text that goes into a page.
pub mod Escape
use Prim.Native.Char.{Char, code}
use Prim.Native.String.{String, [], ◌∷◌, ◌++◌, char_at}
use lore_auth_bridge.Base.{◌==◌, nat_eq, if◌then◌else◌, is_empty_str}

-- `str::replace` of a character.
unfoldable pub replace : Char → String → String → String
replace d by [] = []
replace d by (c ∷ s) =
    let rest = replace d by s in if code c == code d then by ++ rest else c ∷ rest

unfoldable pub html_escape : String → String
unfolding replace
html_escape value = replace (char_at "'" 0) "&#39;" (
    replace (char_at "\"" 0) "&quot;" (
      replace (char_at ">" 0) "&gt;"
        (replace (char_at "<" 0) "&lt;" (replace (char_at "&" 0) "&amp;" value))))

unfoldable pub string_or : String → String → String
unfolding is_empty_str
string_or a b = if is_empty_str a then b else a
