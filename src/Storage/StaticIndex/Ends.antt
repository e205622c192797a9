-- ===== src/Storage/StaticIndex/Ends.antt =====
-- The ends of the stages are the repeated quotients of the element count.
use dist_storage.Prelude.{
  ℕ, zero, suc, ◌+◌, ◌-◌, ◌/◌, ◌≤◌, ◌≡◌, refl, ap, ◌∙◌, some, List, [], ◌∷◌, ◌++◌, length,
  get_elem?, get_elem?-push, get_elem?-append_of_some, length-append, arith,
}
use mathlib.Core.Path.{subst}
use native.Mathlib.Nat.{add-zero}
use dist_storage.Storage.StaticIndex.{stage_counts, counts_to_ends, compute_stage_ends}

abbrev sum : List ℕ → ℕ
sum [] = 0
sum (x ∷ xs) = x + sum xs

sum-append : (xs : List ℕ) (y : ℕ) → sum (xs ++ y ∷ []) ≡ sum xs + y
sum-append [] y = omega arith
sum-append (x ∷ xs) y = omega (arith, sum-append xs y)

pub div-le : (n d : ℕ) → n / (d + 1) ≤ n
div-le n d = grind arith

sum-stage_counts : (steps : ℕ → ℕ) (stage n : ℕ) → sum (stage_counts steps stage n) ≡ n
unfolding stage_counts
sum-stage_counts steps zero n = omega arith
sum-stage_counts steps (suc stage) n =
    let m = n / (steps stage + 1) in
    omega (
      arith,
      sum-append (stage_counts steps stage m) (n - m),
      sum-stage_counts steps stage m,
      div-le n (steps stage),
    )

counts_to_ends-append :
    (pos : ℕ) (cs : List ℕ) (c : ℕ)
    → counts_to_ends pos (cs ++ c ∷ []) ≡ counts_to_ends pos cs ++ (c + (pos + sum cs)) ∷ []
unfolding counts_to_ends
counts_to_ends-append pos [] c = let e : pos + 0 ≡ pos = omega arith in rw e
counts_to_ends-append pos (x ∷ cs) c =
    let e : x + pos + sum cs ≡ pos + (x + sum cs) = omega arith in
    rw (← e) (ap (◌∷◌ (x + pos)) (counts_to_ends-append (x + pos) cs c))

-- One more stage below: the upper stages hold the quotient, and the new stage ends at `n`.
pub compute_stage_ends-suc :
    (steps : ℕ → ℕ) (stage n : ℕ)
    → compute_stage_ends steps (suc stage) n
      ≡ compute_stage_ends steps stage (n / (steps stage + 1)) ++ n ∷ []
unfolding compute_stage_ends stage_counts
compute_stage_ends-suc steps stage n =
    let m = n / (steps stage + 1) in
    let e : n - m + (0 + sum (stage_counts steps stage m)) ≡ n =
      omega (arith, sum-stage_counts steps stage m, div-le n (steps stage)) in
    counts_to_ends-append 0 (stage_counts steps stage m) (n - m)
    ∙ ap (λ k. counts_to_ends 0 (stage_counts steps stage m) ++ k ∷ []) e

-- The number of elements in the stages up to `top - k`, counted by repeated division.
abbrev pub quotient : (ℕ → ℕ) → ℕ → ℕ → ℕ → ℕ
quotient steps top zero n = n
quotient steps zero (suc k) n = 0
quotient steps (suc top) (suc k) n = quotient steps top k (n / (steps top + 1))

length-compute_stage_ends :
    (steps : ℕ → ℕ) (top n : ℕ) → length (compute_stage_ends steps top n) ≡ suc top
length-compute_stage_ends steps zero n =
    unfold compute_stage_ends stage_counts counts_to_ends in refl
length-compute_stage_ends steps (suc top) n =
    let m = n / (steps top + 1) in
    ap length (compute_stage_ends-suc steps top n)
    ∙ omega (
      arith,
      length-append (compute_stage_ends steps top m) (n ∷ []),
      length-compute_stage_ends steps top m,
    )

pub last_end : (steps : ℕ → ℕ) (top n : ℕ) → get_elem? (compute_stage_ends steps top n) top ≡ some n
last_end steps zero n =
    unfold compute_stage_ends stage_counts counts_to_ends in ap some (add-zero n)
last_end steps (suc top) n =
    let m = n / (steps top + 1) in
    ap (λ l. get_elem? l (suc top)) (compute_stage_ends-suc steps top n)
    ∙ subst (λ k. get_elem? (compute_stage_ends steps top m ++ n ∷ []) k ≡ some n)
        (length-compute_stage_ends steps top m) (get_elem?-push (compute_stage_ends steps top m) n)

end_of_quotient :
    (steps : ℕ → ℕ) (top n k : ℕ)
    → k ≤ top
    → get_elem? (compute_stage_ends steps top n) (top - k) ≡ some (quotient steps top k n)
end_of_quotient steps top n zero h =
    let e : top - 0 ≡ top = omega arith in rw e (last_end steps top n)
end_of_quotient steps zero n (suc k) h = absurd (omega arith)
end_of_quotient steps (suc top) n (suc k) h =
    let m = n / (steps top + 1) in
    let e : suc top - suc k ≡ top - k = omega arith in
    rw (e, compute_stage_ends-suc steps top n)
      (get_elem?-append_of_some (compute_stage_ends steps top m) (n ∷ []) (top - k) _
        (end_of_quotient steps top m k (omega arith)))

-- compute_stage_ends: with nstages = top + 1 there are nstages ends, the last is the element count,
-- and going up one stage divides it by the step of that stage plus one.
pub compute_stage_ends-quotient :
    (steps : ℕ → ℕ) (top n k : ℕ)
    → k ≤ top
    → (length (compute_stage_ends steps top n) ≡ suc top)
      × (get_elem? (compute_stage_ends steps top n) (top - k) ≡ some (quotient steps top k n))
compute_stage_ends-quotient steps top n k h =
    (length-compute_stage_ends steps top n, end_of_quotient steps top n k h)
