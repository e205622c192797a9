-- ===== src/Parse/Literal/RoundTrip.antt =====
-- Texts that survive quoting and unescapeSqlString.
use dist_storage.Prelude.{
  ℕ, ◌≡◌, refl, ◌∙◌, [], ◌∷◌, Bytes, if◌then◌else◌, ◌==◌, arith, ok, Bool-cases, inl, inr, false,
}
use dist_storage.Parse.Literal.{
  escape_at, quote_escape, backslash_escape, standard_escape, unescape_from, unescape_sql_string,
}

-- The way to write any text in a literal: quotes and backslashes are doubled.
abbrev pub quoted : Bytes → Bytes
quoted [] = []
quoted (c ∷ text) =
    if c == 39
    then 39 ∷ 39 ∷ quoted text
    else if c == 92
    then 92 ∷ 92 ∷ quoted text
    else c ∷ quoted text

unescape_quote :
    (text rest : Bytes)
    → unescape_from 0 text ≡ ok rest
    → unescape_from 0 (39 ∷ 39 ∷ text) ≡ ok (39 ∷ rest)
unfolding unescape_from escape_at quote_escape
unescape_quote text rest e = rw e

unescape_backslash :
    (text rest : Bytes)
    → unescape_from 0 text ≡ ok rest
    → unescape_from 0 (92 ∷ 92 ∷ text) ≡ ok (92 ∷ rest)
unfolding unescape_from escape_at backslash_escape standard_escape
unescape_backslash text rest e = rw e

unescape_plain :
    (c : ℕ) (text rest : Bytes)
    → (c == 39) ≡ false
    → (c == 92) ≡ false
    → unescape_from 0 text ≡ ok rest
    → unescape_from 0 (c ∷ text) ≡ ok (c ∷ rest)
unfolding unescape_from escape_at
unescape_plain c text rest a b e = rw (a, b, e)

unescape-quoted : (text : Bytes) → unescape_from 0 (quoted text) ≡ ok text
unescape-quoted [] = unfold unescape_from in refl
unescape-quoted (c ∷ text) = elim (Bool-cases (c == 39)) [
  | inl q ↦ rw q (unescape_quote (quoted text) text (unescape-quoted text) ∙ ground arith)
  | inr q ↦ elim (Bool-cases (c == 92)) [
    | inl b ↦
        rw (q, b) (unescape_backslash (quoted text) text (unescape-quoted text) ∙ ground arith)
    | inr b ↦ rw (q, b) (unescape_plain c (quoted text) text q b (unescape-quoted text))
  ]
]

-- unescapeSqlString gives back every text whose quotes and backslashes have been doubled.
pub unescape_sql_string-quoted : (text : Bytes) → unescape_sql_string (quoted text) ≡ ok text
unfolding unescape_sql_string
unescape_sql_string-quoted text = unescape-quoted text
