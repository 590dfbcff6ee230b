-- ===== src/Config/Quoting.antt =====
-- `quoteJSON` against the JSON grammar of texts.
use nacelle.Prelude.{
  ℕ, ◌≤◌, ◌≡◌, refl, ap, ◌∙◌, ◌≢◌, ◌⊎◌, inl, inr, true, false, ◌||◌, Option, none, some, [], ◌∷◌,
  ◌++◌, append_assoc, arith, ltb, eqb, if◌then◌else◌, All, concat_map, string_comparable,
  nat_comparable, int_comparable, bytes_comparable, Bytes,
}
use mathlib.Core.Option
use nacelle.Config.Json.{Json, escape, quote_json, to_json}

-- The character that a backslash and this character stand for; `\u` is left out.
unescape : ℕ → Option ℕ
unescape e =
    if eqb e b'n'
    then some 10
    else if eqb e b't'
    then some 9
    else if eqb e b'r'
    then some 13
    else if eqb e b'"' || (eqb e b'\\' || eqb e b'/')
    then some e
    else none

-- A JSON text behind its opening quote, up to a closing quote that ends it.
read_body : Bytes → Option Bytes
unfolding unescape
read_body [] = none
read_body (c ∷ []) = if eqb c b'"' then some [] else none
read_body (c ∷ e ∷ rest) =
    let after = read_body rest in
    let next = read_body (e ∷ rest) in
    if eqb c b'"'
    then none
    else if eqb c b'\\'
    then elim (unescape e) [ none ↦ none | some u ↦ Option.map (◌∷◌ u) after ]
    else if ltb c 32
    then none
    else Option.map (◌∷◌ c) next

-- The text that a JSON text literal stands for.
unfoldable pub unquote_json : Bytes → Option Bytes
unfolding read_body
unquote_json [] = none
unquote_json (c ∷ cs) = if eqb c b'"' then read_body cs else none

-- A character that the replacer leaves correct: no quote, no backslash, and no control character but
-- the three that it replaces.
abbrev pub IsPlain : ℕ → Type 0
IsPlain c = (c ≢ b'"') × (c ≢ b'\\') × ((32 ≤ c) ⊎ ((c ≡ 10) ⊎ ((c ≡ 9) ⊎ (c ≡ 13))))

read_body-cons :
    (c : ℕ) (cs : Bytes)
    → c ≢ b'"'
    → c ≢ b'\\'
    → 32 ≤ c
    → read_body (c ∷ cs) ≡ Option.map (◌∷◌ c) (read_body cs)
unfolding read_body
read_body-cons c [] q b h = ground arith
read_body-cons c (e ∷ cs) q b h = ground arith

escape_printable : (c : ℕ) → 32 ≤ c → escape c ≡ c ∷ []
unfolding escape
escape_printable c h = ground arith

read_body-escape :
    (c : ℕ) (cs : Bytes)
    → IsPlain c
    → read_body (escape c ++ cs) ≡ Option.map (◌∷◌ c) (read_body cs)
unfolding escape read_body
read_body-escape c cs (q, b, inl h) =
    ap (λ e. read_body (e ++ cs)) (escape_printable c h) ∙ read_body-cons c cs q b h
read_body-escape c cs (q, b, inr (inl h)) = rw h
read_body-escape c cs (q, b, inr (inr (inl h))) = rw h
read_body-escape c cs (q, b, inr (inr (inr h))) = rw h

read_body-concat_map :
    (text : Bytes) → All IsPlain text → read_body (concat_map escape text ++ b'"' ∷ []) ≡ some text
read_body-concat_map [] h = unfold read_body in refl
read_body-concat_map (c ∷ text) h =
    ap read_body (append_assoc (escape c) (concat_map escape text) _)
    ∙ read_body-escape c (concat_map escape text ++ b'"' ∷ []) h.0
    ∙ ap (Option.map (◌∷◌ c)) (read_body-concat_map text h.1)

-- What `quoteJSON` makes of a text without quotes, backslashes and other control characters than
-- newline, tab and carriage return is a JSON text that stands for it.
pub unquote_json-quote_json :
    (text : Bytes) → All IsPlain text → unquote_json (quote_json text) ≡ some text
unfolding unquote_json quote_json
unquote_json-quote_json text h = read_body-concat_map text h

-- If package json reads a text literal into a target of string kind as the text that it stands for,
-- then a text of plain characters that is not JSON itself is taken as it is.
pub to_json-plain_text :
    {GoType Value : Type 0} (json : Json GoType Value) (string_of : Bytes → Value) (text : Bytes)
    (type : GoType) (v : Value)
    → ((literal read : Bytes) (w : Value)
        → unquote_json literal ≡ some read
        → json.unmarshal literal type w ≡ (string_of read, true))
    → json.is_string_kind type ≡ true
    → (json.unmarshal text type v).1 ≡ false
    → All IsPlain text
    → to_json json text type v ≡ (string_of text, true)
unfolding to_json
to_json-plain_text json string_of text type v reads string_kind not_json plain = ground (
  arith,
  reads (quote_json text) text (json.unmarshal text type v).0,
  unquote_json-quote_json text plain,
)
