-- ===== src/Inbound/Http/Text/Escape.antt =====
-- `html_escape` of httpserver/response.rs replaces character by character.
use Prim.Native.Char.{Char, code}
use Prim.Native.String.{String, [], ◌∷◌, ◌++◌, char_at}
use text.Mathlib.TextLemmas.{nil-append, cons-append, append_assoc}
use lore_auth_bridge.Base.{
  ◌≡◌, refl, sym, ap, ◌∙◌, inl, inr, Bool, true, false, not, ◌||◌, ◌==◌, nat_eq, if◌then◌else◌,
  all_chars, arith, Bool-cases,
}
use lore_auth_bridge.Inbound.Http.Text.{replace, html_escape}

replace-append :
    (d : Char) (by s t : String) → replace d by (s ++ t) ≡ replace d by s ++ replace d by t
unfolding replace
replace-append d by [] t = rw (nil-append t, nil-append (replace d by t)) refl
replace-append d by (c ∷ s) t = elim (Bool-cases (code c == code d)) [
  | inl e ↦
      rw (cons-append c s t, e)
        (ap (λ r. by ++ r) (replace-append d by s t)
          ∙ sym (append_assoc by (replace d by s) (replace d by t)))
  | inr e ↦
      rw (cons-append c s t, e)
        (ap (λ r. c ∷ r) (replace-append d by s t)
          ∙ sym (cons-append c (replace d by s) (replace d by t)))
]

html_escape-append : (s t : String) → html_escape (s ++ t) ≡ html_escape s ++ html_escape t
unfolding html_escape
html_escape-append s t =
    let amp = replace (char_at "&" 0) "&amp;" in
    let lt = replace (char_at "<" 0) "&lt;" in
    let gt = replace (char_at ">" 0) "&gt;" in
    let quot = replace (char_at "\"" 0) "&quot;" in
    rw
      (
        replace-append (char_at "&" 0) "&amp;" s t,
        replace-append (char_at "<" 0) "&lt;" (amp s) (amp t),
        replace-append (char_at ">" 0) "&gt;" (lt (amp s)) (lt (amp t)),
        replace-append (char_at "\"" 0) "&quot;" (gt (lt (amp s))) (gt (lt (amp t))),
        replace-append (char_at "'" 0) "&#39;" (quot (gt (lt (amp s)))) (quot (gt (lt (amp t)))),
      )
      refl

-- What a character becomes.
unfoldable pub escape_char : Char → String
escape_char c =
    if code c == b'&'
    then "&amp;"
    else if code c == b'<'
    then "&lt;"
    else if code c == b'>'
    then "&gt;"
    else if code c == b'"'
    then "&quot;"
    else if code c == b'\''
    then "&#39;"
    else c ∷ []

unfoldable pub escape_each : String → String
unfolding escape_char
escape_each [] = []
escape_each (c ∷ s) = escape_char c ++ escape_each s

html_escape-char : (c : Char) → html_escape (c ∷ []) ≡ escape_char c
unfolding html_escape escape_char replace
html_escape-char c = elim (Bool-cases (code c == b'&')) [
  | inl e ↦ rw e refl
  | inr a ↦ elim (Bool-cases (code c == b'<')) [
    | inl e ↦ rw (a, e) refl
    | inr b ↦ elim (Bool-cases (code c == b'>')) [
      | inl e ↦ rw (a, b, e) refl
      | inr d ↦ elim (Bool-cases (code c == b'"')) [
        | inl e ↦ rw (a, b, d, e) refl
        | inr f ↦ elim (Bool-cases (code c == b'\'')) [
          | inl e ↦ rw (a, b, d, f, e) refl
          | inr g ↦ rw (a, b, d, f, g) refl
        ]
      ]
    ]
  ]
]

-- Characters that end a text or an attribute of a page.
unfoldable pub is_plain : Char → Bool
is_plain c = not (code c == b'<' || code c == b'>' || code c == b'"' || code c == b'\'')

all_chars-append :
    (p : Char → Bool) (s t : String)
    → all_chars p s ≡ true
    → all_chars p t ≡ true
    → all_chars p (s ++ t) ≡ true
unfolding all_chars
all_chars-append p [] t h k = rw (nil-append t) k
all_chars-append p (c ∷ s) t h k =
    rw (cons-append c s t) (ground (arith, all_chars-append p s t (ground arith) k))

if_cases :
    (x y : String) (b : Bool)
    → (b ≡ true → all_chars is_plain x ≡ true)
    → (b ≡ false → all_chars is_plain y ≡ true)
    → all_chars is_plain (if b then x else y) ≡ true
if_cases x y true f g = f refl
if_cases x y false f g = g refl

escape_char-plain : (c : Char) → all_chars is_plain (escape_char c) ≡ true
unfolding escape_char all_chars is_plain
escape_char-plain c =
    if_cases _ _ (code c == b'&') (λ _. refl)
      (λ _.
        if_cases _ _ (code c == b'<') (λ _. refl)
          (λ a.
            if_cases _ _ (code c == b'>') (λ _. refl)
              (λ b.
                if_cases _ _ (code c == b'"') (λ _. refl)
                  (λ d.
                    if_cases _ _ (code c == b'\'') (λ _. refl) (λ e. ground (arith, a, b, d, e))))))

html_escape-each : (s : String) → html_escape s ≡ escape_each s
unfolding escape_each
html_escape-each [] = unfold html_escape in refl
html_escape-each (c ∷ s) =
    ap html_escape (sym (cons-append c [] s ∙ ap (λ t. c ∷ t) (nil-append s)))
    ∙ html_escape-append (c ∷ []) s
    ∙ rw (html_escape-char c, html_escape-each s) refl

escape_each-plain : (s : String) → all_chars is_plain (escape_each s) ≡ true
unfolding escape_each all_chars
escape_each-plain [] = refl
escape_each-plain (c ∷ s) =
    all_chars-append is_plain (escape_char c) (escape_each s) (escape_char-plain c)
      (escape_each-plain s)

-- The five replacements of `html_escape`, one after another, come to one pass that replaces each
-- character by itself or by its entity, so that no `&` is replaced twice; and no character stays that
-- would end a text or an attribute of a page.
pub html_escape_lem :
    (s : String) → (html_escape s ≡ escape_each s) × (all_chars is_plain (html_escape s) ≡ true)
html_escape_lem s = (html_escape-each s, rw (html_escape-each s) (escape_each-plain s))
