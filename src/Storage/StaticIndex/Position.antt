-- ===== src/Storage/StaticIndex/Position.antt =====
-- get_idx_position places every array index inside the tree, and no two at one position.
use dist_storage.Prelude.{
  ℕ, zero, suc, ◌+◌, ◌-◌, ◌/◌, ◌%◌, ◌≤◌, ◌<◌, ◌≡◌, ◌≢◌, refl, sym, ap, ◌∙◌, some, List, [], ◌∷◌,
  get_elem?, get_elem?-append_of_some, arith, Bool-cases, inl, inr, ok, ok-injective, ◌==◌,
  ℕ_discrete, ==_iff,
}
use dist_storage.Storage.StaticIndex.{stage_position, get_idx_position, compute_stage_ends}
use dist_storage.Storage.StaticIndex.Ends.{compute_stage_ends-suc, last_end, div-le}

-- How many of the numbers up to `x` are no multiples of d + 1.
abbrev rest : ℕ → ℕ → ℕ
rest x d = x - x / (d + 1)

rest-pos : (x d : ℕ) → x % (d + 1) ≢ 0 → 0 < rest x d
rest-pos x d h = grind arith

rest_mono : (x y d : ℕ) → x ≤ y → rest x d ≤ rest y d
rest_mono x y d h = grind arith

rest-injective : (x y d : ℕ) → x % (d + 1) ≢ 0 → y % (d + 1) ≢ 0 → rest x d ≡ rest y d → x ≡ y
rest-injective x y d hx hy h = grind arith

-- `ends` starts with the ends of the stages up to `top`.
abbrev HasEnds : (ℕ → ℕ) → List ℕ → ℕ → ℕ → Type 0
HasEnds steps ends top n =
    (i x : ℕ) → get_elem? (compute_stage_ends steps top n) i ≡ some x → get_elem? ends i ≡ some x

upper_ends :
    (steps : ℕ → ℕ) (ends : List ℕ) (top n : ℕ)
    → HasEnds steps ends (suc top) n
    → HasEnds steps ends top (n / (steps top + 1))
upper_ends steps ends top n h i x e = h i x (
    ap (λ l. get_elem? l i) (compute_stage_ends-suc steps top n)
    ∙ get_elem?-append_of_some (compute_stage_ends steps top (n / (steps top + 1))) (n ∷ []) i x e)

upper_end :
    (steps : ℕ → ℕ) (ends : List ℕ) (top n : ℕ)
    → HasEnds steps ends (suc top) n
    → get_elem? ends top ≡ some (n / (steps top + 1))
upper_end steps ends top n h =
    upper_ends steps ends top n h top _ (last_end steps top (n / (steps top + 1)))

quotient-pos : (m d : ℕ) → 0 < m → m % (d + 1) ≡ 0 → 0 < m / (d + 1)
quotient-pos m d h e = grind arith

quotient_mono : (m n d : ℕ) → m ≤ n → m / (d + 1) ≤ n / (d + 1)
quotient_mono m n d h = grind arith

quotient-injective :
    (x y d : ℕ) → x % (d + 1) ≡ 0 → y % (d + 1) ≡ 0 → x / (d + 1) ≡ y / (d + 1) → x ≡ y
quotient-injective x y d hx hy h = grind arith

-- The two ways out of a round of the loop.
position-divisible :
    (steps : ℕ → ℕ) (ends : List ℕ) (top m : ℕ)
    → m % (steps top + 1) ≡ 0
    → stage_position steps ends (suc top) m ≡ stage_position steps ends top (m / (steps top + 1))
unfolding stage_position
position-divisible steps ends top m e = rw ((==_iff (m % (steps top + 1)) 0).1 e)

position-here :
    (steps : ℕ → ℕ) (ends : List ℕ) (top n m : ℕ)
    → HasEnds steps ends (suc top) n
    → m % (steps top + 1) ≢ 0
    → stage_position steps ends (suc top) m ≡ ok (n / (steps top + 1) + rest m (steps top) - 1)
unfolding stage_position
position-here steps ends top n m h ne = elim (Bool-cases (m % (steps top + 1) == 0)) [
  | inl t ↦ absurd (ne ((==_iff (m % (steps top + 1)) 0).0 t))
  | inr f ↦ rw (f, upper_end steps ends top n h)
]

stage_position-lt :
    (steps : ℕ → ℕ) (ends : List ℕ) (top n m : ℕ)
    → HasEnds steps ends top n
    → 0 < m
    → m ≤ n
    → (p : ℕ) × (stage_position steps ends top m ≡ ok p) × (p < n)
stage_position-lt steps ends zero n m h pos le = (m - 1, unfold stage_position in refl, omega arith)
stage_position-lt steps ends (suc top) n m h pos le =
    let d = steps top in
    elim (ℕ_discrete (m % (d + 1)) 0) [
      | yes e ↦
          let (p, found, lt) =
            stage_position-lt steps ends top (n / (d + 1)) (m / (d + 1))
              (upper_ends steps ends top n h) (quotient-pos m d pos e) (quotient_mono m n d le) in
          (p, position-divisible steps ends top m e ∙ found, omega (arith, div-le n d))
      | no ne ↦ (
        n / (d + 1) + rest m d - 1,
        position-here steps ends top n m h ne,
        omega (arith, rest_mono m n d le, rest-pos m d ne, div-le n d),
      )
    ]

-- A position above the quotient is not one of the upper stages.
apart :
    (steps : ℕ → ℕ) (ends : List ℕ) (top n x y p : ℕ)
    → HasEnds steps ends (suc top) n
    → 0 < x
    → x ≤ n
    → x % (steps top + 1) ≡ 0
    → y % (steps top + 1) ≢ 0
    → stage_position steps ends (suc top) x ≡ ok p
    → stage_position steps ends (suc top) y ≡ ok p
    → ⊥
apart steps ends top n x y p h pos le ex ey hx hy =
    let d = steps top in
    let (q, found, lt) =
      stage_position-lt steps ends top (n / (d + 1)) (x / (d + 1)) (upper_ends steps ends top n h)
        (quotient-pos x d pos ex) (quotient_mono x n d le) in
    let e : p ≡ q = ok-injective (sym hx ∙ position-divisible steps ends top x ex ∙ found) in
    let e' : p ≡ n / (d + 1) + rest y d - 1 =
      ok-injective (sym hy ∙ position-here steps ends top n y h ey) in
    omega (arith, rest-pos y d ey)

stage_position-injective :
    (steps : ℕ → ℕ) (ends : List ℕ) (top n x y p : ℕ)
    → HasEnds steps ends top n
    → 0 < x
    → x ≤ n
    → 0 < y
    → y ≤ n
    → stage_position steps ends top x ≡ ok p
    → stage_position steps ends top y ≡ ok p
    → x ≡ y
stage_position-injective steps ends zero n x y p h px lx py ly hx hy =
    let e : x - 1 ≡ y - 1 = unfold stage_position in ok-injective (hx ∙ sym hy) in omega arith
stage_position-injective steps ends (suc top) n x y p h px lx py ly hx hy =
    let d = steps top in
    elim (ℕ_discrete (x % (d + 1)) 0) [
      | yes ex ↦ elim (ℕ_discrete (y % (d + 1)) 0) [
        | yes ey ↦ quotient-injective x y d ex ey (
            stage_position-injective steps ends top (n / (d + 1)) (x / (d + 1)) (y / (d + 1)) p
              (upper_ends steps ends top n h) (quotient-pos x d px ex) (quotient_mono x n d lx)
              (quotient-pos y d py ey) (quotient_mono y n d ly)
              (sym (position-divisible steps ends top x ex) ∙ hx)
              (sym (position-divisible steps ends top y ey) ∙ hy))
        | no ey ↦ absurd (apart steps ends top n x y p h px lx ex ey hx hy)
      ]
      | no ex ↦ elim (ℕ_discrete (y % (d + 1)) 0) [
        | yes ey ↦ absurd (apart steps ends top n y x p h py ly ey ex hy hx)
        | no ey ↦
            let e : n / (d + 1) + rest x d - 1 ≡ n / (d + 1) + rest y d - 1 = ok-injective (
              sym (position-here steps ends top n x h ex)
              ∙ hx
              ∙ sym hy
              ∙ position-here steps ends top n y h ey) in
            rest-injective x y d ex ey (omega (arith, rest-pos x d ex, rest-pos y d ey))
      ]
    ]

-- With the ends that compute_stage_ends gives for n elements, get_idx_position finds a position
-- below n for every array index below n, whatever the number of stages and their steps.
pub get_idx_position-lt :
    (steps : ℕ → ℕ) (top n array_idx : ℕ)
    → array_idx < n
    → (p : ℕ) × (get_idx_position steps (compute_stage_ends steps top n) top array_idx ≡ ok p)
      × (p < n)
unfolding get_idx_position
get_idx_position-lt steps top n array_idx h =
    stage_position-lt steps (compute_stage_ends steps top n) top n (array_idx + 1) (λ i x e. e)
      (omega arith) (omega arith)

-- No two array indices below n are placed at the same position.
pub get_idx_position-injective :
    (steps : ℕ → ℕ) (top n i j p : ℕ)
    → i < n
    → j < n
    → get_idx_position steps (compute_stage_ends steps top n) top i ≡ ok p
    → get_idx_position steps (compute_stage_ends steps top n) top j ≡ ok p
    → i ≡ j
unfolding get_idx_position
get_idx_position-injective steps top n i j p hi hj ei ej =
    let e =
      stage_position-injective steps (compute_stage_ends steps top n) top n (i + 1) (j + 1) p
        (λ i x e. e) (omega arith) (omega arith) (omega arith) (omega arith) ei ej in
    omega arith
