-- ===== src/Parse/Words.antt =====
-- The words of SQL's operators, by what they mean: the description against which opMap and normalizeOp
-- of minion/planner/parse/parse_query.cc are checked.
use dist_storage.Prelude.{
  ◌-◌, ◌≡◌, refl, sym, ap, ◌∙◌, some, List, [], ◌∷◌, ◌++◌, map, All, Result, throws, compile_error,
  out_of_range, Error, Bytes, Bytes-discrete, codes, if◌then◌else◌, ltb, leb, ◌==◌, ◌&&◌, arith,
  inl, inr, Option-cases, if_pos, if_neg,
}
use mathlib.Core.Path.{subst}
use mathlib.Core.Option.{some-injective}
use dist_storage.Prelude.Maps.{lookup}
use dist_storage.Query.Ops.{ColumnOperation}
use dist_storage.Parse.Literal.{normalize_op, without_blanks}
use dist_storage.Parse.Visitor.{op_map, known_op, op_at, or_else}

-- Every operation with its words.
unfoldable pub operators : List (ColumnOperation × List Bytes)
operators =
    (ColumnOperation.lt, codes "<" ∷ [])
    ∷ (ColumnOperation.lte, codes "<=" ∷ [])
    ∷ (ColumnOperation.gt, codes ">" ∷ [])
    ∷ (ColumnOperation.gte, codes ">=" ∷ [])
    ∷ (ColumnOperation.eq, codes "=" ∷ codes "==" ∷ [])
    ∷ (ColumnOperation.neq, codes "<>" ∷ codes "!=" ∷ [])
    ∷ (ColumnOperation.and, codes "AND" ∷ codes "&&" ∷ codes "&" ∷ [])
    ∷ (ColumnOperation.or, codes "OR" ∷ codes "||" ∷ codes "|" ∷ [])
    ∷ (ColumnOperation.xor, codes "XOR" ∷ codes "^" ∷ [])
    ∷ (ColumnOperation.not, codes "NOT" ∷ codes "!" ∷ codes "~" ∷ [])
    ∷ (ColumnOperation.add, codes "+" ∷ [])
    ∷ (ColumnOperation.sub, codes "-" ∷ [])
    ∷ (ColumnOperation.mul, codes "*" ∷ [])
    ∷ (ColumnOperation.div, codes "/" ∷ [])
    ∷ (ColumnOperation.like, codes "LIKE" ∷ [])
    ∷ (ColumnOperation.not_like, codes "NOTLIKE" ∷ [])
    ∷ (ColumnOperation.ilike, codes "ILIKE" ∷ [])
    ∷ (ColumnOperation.not_ilike, codes "NOTILIKE" ∷ [])
    ∷ (ColumnOperation.in_, codes "IN" ∷ [])
    ∷ (ColumnOperation.not_in, codes "NOTIN" ∷ [])
    ∷ (ColumnOperation.is_null, codes "ISNULL" ∷ [])
    ∷ (ColumnOperation.is_not_null, codes "ISNOTNULL" ∷ [])
    ∷ (ColumnOperation.null, codes "NULL" ∷ [])
    ∷ (ColumnOperation.true_, codes "TRUE" ∷ [])
    ∷ (ColumnOperation.false_, codes "FALSE" ∷ [])
    ∷ []

-- A word for its operation, one by one.
unfoldable pub spread : List (ColumnOperation × List Bytes) → List (Bytes × ColumnOperation)
spread [] = []
spread ((op, words) ∷ rest) = map (λ word. (word, op)) words ++ spread rest

-- The operation that a word stands for.
unfoldable pub meant : Bytes → Error → Result ColumnOperation
meant word error = or_else (lookup Bytes-discrete word (spread operators)) (throws error)

-- A word in upper case and without its blanks.
unfoldable pub canonical : Bytes → Bytes
canonical [] = []
canonical (c ∷ word) =
    let rest = canonical word in
    if c == 32 then rest else if leb 97 c && ltb c 123 then (c - 32) ∷ rest else c ∷ rest

canonical_lem : (word : Bytes) → normalize_op word ≡ canonical word
unfolding canonical normalize_op without_blanks
canonical_lem [] = refl
canonical_lem (c ∷ word) = ground (arith, canonical_lem word)

abbrev Entries : (Bytes → ColumnOperation → Type 0) → List (Bytes × ColumnOperation) → Type 0
Entries P m = All (λ e. P e.0 e.1) m

lookup-Entries :
    (P : Bytes → ColumnOperation → Type 0) (word : Bytes) (m : List (Bytes × ColumnOperation))
    (op : ColumnOperation)
    → Entries P m
    → lookup Bytes-discrete word m ≡ some op
    → P word op
unfolding lookup
lookup-Entries P word [] op h e = absurd (ground (arith, e))
lookup-Entries P word ((key, first) ∷ m) op (h, hs) e = elim (Bytes-discrete key word) [
  | yes same ↦
      let e1 = some-injective _ _ (sym (if_pos (Bytes-discrete key word) same _ _) ∙ e) in
      subst (P word) e1 (subst (λ k. P k first) same h)
  | no other ↦ lookup-Entries P word m op hs (sym (if_neg (Bytes-discrete key word) other _ _) ∙ e)
]

abbrev Finds : List (Bytes × ColumnOperation) → Bytes → ColumnOperation → Type 0
Finds m word op = lookup Bytes-discrete word m ≡ some op

op_map-Entries : Entries (Finds (spread operators)) op_map
unfolding op_map operators spread lookup Bytes-discrete
op_map-Entries = (
  refl,
  (
    refl,
    (
      refl,
      (
        refl,
        (
          refl,
          (
            refl,
            (
              refl,
              (
                refl,
                (
                  refl,
                  (
                    refl,
                    (
                      refl,
                      (
                        refl,
                        (
                          refl,
                          (
                            refl,
                            (
                              refl,
                              (
                                refl,
                                (
                                  refl,
                                  (
                                    refl,
                                    (
                                      refl,
                                      (
                                        refl,
                                        (
                                          refl,
                                          (
                                            refl,
                                            (
                                              refl,
                                              (
                                                refl,
                                                (
                                                  refl,
                                                  (
                                                    refl,
                                                    (
                                                      refl,
                                                      (
                                                        refl,
                                                        (
                                                          refl,
                                                          (
                                                            refl,
                                                            (refl, (refl, (refl, (refl, tt)))),
                                                          ),
                                                        ),
                                                      ),
                                                    ),
                                                  ),
                                                ),
                                              ),
                                            ),
                                          ),
                                        ),
                                      ),
                                    ),
                                  ),
                                ),
                              ),
                            ),
                          ),
                        ),
                      ),
                    ),
                  ),
                ),
              ),
            ),
          ),
        ),
      ),
    ),
  ),
)

operators-Entries : Entries (Finds op_map) (spread operators)
unfolding op_map operators spread lookup Bytes-discrete
operators-Entries = (
  refl,
  (
    refl,
    (
      refl,
      (
        refl,
        (
          refl,
          (
            refl,
            (
              refl,
              (
                refl,
                (
                  refl,
                  (
                    refl,
                    (
                      refl,
                      (
                        refl,
                        (
                          refl,
                          (
                            refl,
                            (
                              refl,
                              (
                                refl,
                                (
                                  refl,
                                  (
                                    refl,
                                    (
                                      refl,
                                      (
                                        refl,
                                        (
                                          refl,
                                          (
                                            refl,
                                            (
                                              refl,
                                              (
                                                refl,
                                                (
                                                  refl,
                                                  (
                                                    refl,
                                                    (
                                                      refl,
                                                      (
                                                        refl,
                                                        (
                                                          refl,
                                                          (
                                                            refl,
                                                            (refl, (refl, (refl, (refl, tt)))),
                                                          ),
                                                        ),
                                                      ),
                                                    ),
                                                  ),
                                                ),
                                              ),
                                            ),
                                          ),
                                        ),
                                      ),
                                    ),
                                  ),
                                ),
                              ),
                            ),
                          ),
                        ),
                      ),
                    ),
                  ),
                ),
              ),
            ),
          ),
        ),
      ),
    ),
  ),
)

pub op_map-words :
    (word : Bytes)
    → lookup Bytes-discrete word op_map ≡ lookup Bytes-discrete word (spread operators)
op_map-words word = elim (Option-cases (lookup Bytes-discrete word op_map)) [
  | inr (op, e) ↦ e ∙ sym (lookup-Entries _ word op_map op op_map-Entries e)
  | inl e ↦ elim (Option-cases (lookup Bytes-discrete word (spread operators))) [
    | inl f ↦ e ∙ sym f
    | inr (op, f) ↦ lookup-Entries _ word (spread operators) op operators-Entries f ∙ sym f
  ]
]

pub op_at-meant : (word : Bytes) → op_at word ≡ meant word out_of_range
unfolding op_at meant
op_at-meant word = ap (λ o. or_else o (throws out_of_range)) (op_map-words word)

pub known_op-meant : (word : Bytes) → known_op word ≡ meant (canonical word) compile_error
unfolding known_op meant
known_op-meant word =
    ap (λ w. or_else (lookup Bytes-discrete w op_map) (throws compile_error)) (canonical_lem word)
    ∙ ap (λ o. or_else o (throws compile_error)) (op_map-words (canonical word))
