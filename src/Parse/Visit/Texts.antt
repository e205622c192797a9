-- ===== src/Parse/Visit/Texts.antt =====
-- Texts in which no hexadecimal escape is looked for in a byte that is a negative char.
use dist_storage.Prelude.{
  ℕ, zero, suc, ◌≡◌, refl, Bool, true, false, ◌&&◌, ◌||◌, [], ◌∷◌, take, length, ok, Ensures,
  returns, raises, Ensures-bind, Bytes, if◌then◌else◌, ◌==◌, arith, Bool-cases, inl, inr,
}
use dist_storage.Parse.Literal.{
  unquoted, unescape_sql_string, unescape_from, escape_at, backslash_escape, hex_escape, is_xdigit,
  is_wide, is_hex_mark, is_octal, standard_escape, quote_escape, octal_escape,
}
use dist_storage.Parse.Visit.Limited.{wide_hex, wide_escape}

wide_hex-take : (n : ℕ) (text : Bytes) → wide_hex text ≡ false → wide_hex (take n text) ≡ false
wide_hex-take zero text h = refl
wide_hex-take (suc n) [] h = refl
wide_hex-take (suc zero) (x ∷ text) h = refl
wide_hex-take (suc (suc n)) (x ∷ []) h = refl
wide_hex-take (suc (suc zero)) (x ∷ y ∷ text) h = refl
wide_hex-take (suc (suc (suc n))) (x ∷ y ∷ []) h = refl
wide_hex-take (suc (suc (suc n))) (x ∷ y ∷ z ∷ text) h = h

wide_escape-take :
    (n : ℕ) (text : Bytes) → wide_escape text ≡ false → wide_escape (take n text) ≡ false
wide_escape-take zero text h = refl
wide_escape-take (suc n) [] h = refl
wide_escape-take (suc n) (c ∷ text) h =
    joined (c == 92) (wide_hex text) h (wide_hex-take n text) (wide_escape-take n text)
  where
    joined :
        (slash hex : Bool)
        → (slash && hex) || wide_escape text ≡ false
        → (hex ≡ false → wide_hex (take n text) ≡ false)
        → (wide_escape text ≡ false → wide_escape (take n text) ≡ false)
        → (slash && wide_hex (take n text)) || wide_escape (take n text) ≡ false
    joined true false h f g = ground (arith, f refl, g h)
    joined true true h f g = absurd (ground (arith, h))
    joined false hex h f g = g h

-- str.substr(1, str.size() - 2) throws, or gives such a text again.
pub unquoted-Ensures :
    (str : Bytes)
    → wide_escape str ≡ false
    → Ensures (λ inner. wide_escape inner ≡ false) (unquoted str)
unfolding unquoted
unquoted-Ensures [] h = raises
unquoted-Ensures (c ∷ []) h = returns refl
unquoted-Ensures (c ∷ d ∷ str) h =
    returns (wide_escape-take (length str) (d ∷ str) (rest_lem ((c == 92) && wide_hex (d ∷ str)) h))
  where
    rest_lem : (b : Bool) → b || wide_escape (d ∷ str) ≡ false → wide_escape (d ∷ str) ≡ false
    rest_lem false e = e
    rest_lem true e = absurd (ground (arith, e))

is_xdigit-Ensures : (c : ℕ) → is_wide c ≡ false → Ensures (λ _. Unit) (is_xdigit c)
unfolding is_xdigit
is_xdigit-Ensures c h = rw h (returns tt)

hex_escape-Ensures :
    (next : ℕ) (rest : Bytes)
    → is_hex_mark next ≡ true
    → wide_hex (next ∷ rest) ≡ false
    → Ensures (λ _. Unit) (hex_escape next rest)
unfolding hex_escape
hex_escape-Ensures next [] m h = returns tt
hex_escape-Ensures next (a ∷ []) m h = returns tt
hex_escape-Ensures next (a ∷ b ∷ rest) m h =
    Ensures-bind (is_xdigit-Ensures a (ground (arith, m, h)))
      (λ high _. Ensures-bind (second high (ground (arith, m, h))) (λ both _. returns tt))
  where
    second :
        (high : Bool)
        → is_wide b ≡ false
        → Ensures (λ _. Unit) (if high then is_xdigit b else ok false)
    second true w = is_xdigit-Ensures b w
    second false w = returns tt

backslash_escape-Ensures :
    (rest : Bytes) → wide_hex rest ≡ false → Ensures (λ _. Unit) (backslash_escape rest)
unfolding backslash_escape
backslash_escape-Ensures [] h = returns tt
backslash_escape-Ensures (next ∷ rest) h = elim (Bool-cases (is_hex_mark next)) [
  | inl m ↦ rw m (hex_escape-Ensures next rest m h)
  | inr m ↦ rw m (either (is_octal next))
]
  where
    either :
        (octal : Bool)
        → Ensures
            (λ _. Unit)
            (if octal then ok (octal_escape (next ∷ rest)) else ok (standard_escape next))
    either true = returns tt
    either false = returns tt

escape_at-Ensures :
    (c : ℕ) (rest : Bytes)
    → (c == 92) && wide_hex rest ≡ false
    → Ensures (λ _. Unit) (escape_at c rest)
unfolding escape_at
escape_at-Ensures c rest h = cases (c == 39) (c == 92) h
  where
    cases :
        (quote slash : Bool)
        → slash && wide_hex rest ≡ false
        → Ensures
            (λ _. Unit)
            (if quote
              then ok (quote_escape rest)
              else if slash
              then backslash_escape rest
              else ok (c ∷ [], 0))
    cases true slash h = returns tt
    cases false true h = backslash_escape-Ensures rest h
    cases false false h = returns tt

unescape_from-Ensures :
    (skip : ℕ) (text : Bytes)
    → wide_escape text ≡ false
    → Ensures (λ _. Unit) (unescape_from skip text)
unfolding unescape_from
unescape_from-Ensures skip [] h = returns tt
unescape_from-Ensures (suc skip) (c ∷ text) h = unescape_from-Ensures skip text (ground (arith, h))
unescape_from-Ensures zero (c ∷ text) h =
    Ensures-bind (escape_at-Ensures c text (ground (arith, h))) (λ (out, skip) _.
      Ensures-bind (unescape_from-Ensures skip text (ground (arith, h))) (λ rest _. returns tt))

-- unescapeSqlString on such a text is defined.
pub unescape-Ensures :
    (text : Bytes) → wide_escape text ≡ false → Ensures (λ _. Unit) (unescape_sql_string text)
unfolding unescape_sql_string
unescape-Ensures text h = unescape_from-Ensures 0 text h
