-- ===== src/Query/Visited/Run.antt =====
-- Runs of fillVisited: what they keep, and what they mark.
use dist_storage.Prelude.{
  ℕ, zero, suc, ◌≤◌, ◌≡◌, refl, ap, ◌∙◌, some, List, [], ◌∷◌, length, get_elem?, set, ok, All,
  All-map_imp, arith, inl, inr, ◌⊎◌,
}
use dist_storage.Query.Graph.{Node, Mapping, at}

-- The edges lead from one node to the other.
pub data Reach (gm : Mapping) (i : ℕ) : ℕ → Type 0 where
  self : Reach gm i i
  step :
      {j k : ℕ} (cs : List Node) (n : ℕ)
      → Reach gm i j
      → at gm (some j) ≡ ok cs
      → get_elem? cs n ≡ some (some k)
      → Reach gm i k

-- A node with a mark.
pub record Seen (vs : List ℕ) (i : ℕ) : Type 0 where
  pub mark : ℕ
  pub marked : at vs (some i) ≡ ok (suc mark)

abbrev pub SeenNode : List ℕ → Node → Type 0
SeenNode vs c = (i : ℕ) × (c ≡ some i) × Seen vs i

-- The nodes without a mark.
abbrev pub unseen : List ℕ → ℕ
unseen [] = 0
unseen (zero ∷ vs) = suc (unseen vs)
unseen (suc m ∷ vs) = unseen vs

pub unseen-set :
    (vs : List ℕ) (i m : ℕ) → get_elem? vs i ≡ some 0 → suc (unseen (set vs i (suc m))) ≡ unseen vs
unseen-set [] i m e = absurd (ground arith)
unseen-set (zero ∷ vs) zero m e = refl
unseen-set (suc k ∷ vs) zero m e = absurd (ground arith)
unseen-set (zero ∷ vs) (suc i) m e = ap suc (unseen-set vs i m e)
unseen-set (suc k ∷ vs) (suc i) m e = unseen-set vs i m e

-- What a run from `vs` to `ws` does, for which the nodes that `From` names are started: it keeps the
-- marks, whatever it marks is below one of them, and the children of whatever it marks are marked.
pub record Run (gm : Mapping) (From : ℕ → Type 0) (vs ws : List ℕ) : Type 0 where
  pub size : length ws ≡ length vs
  pub fewer : unseen ws ≤ unseen vs
  pub kept : (j : ℕ) → Seen vs j → Seen ws j
  pub below : (j : ℕ) → Seen ws j → Seen vs j ⊎ From j
  pub closed :
      (j : ℕ) (cs : List Node)
      → Seen ws j
      → at gm (some j) ≡ ok cs
      → Seen vs j ⊎ All (SeenNode ws) cs

SeenNode-mono :
    (vs ws : List ℕ) (cs : List Node)
    → ((j : ℕ) → Seen vs j → Seen ws j)
    → All (SeenNode vs) cs
    → All (SeenNode ws) cs
SeenNode-mono vs ws cs kept = All-map_imp _ _ cs (λ c (i, e, s). (i, e, kept i s))

module _ (gm : Mapping) where
  pub Run-self : (From : ℕ → Type 0) (vs : List ℕ) → Run gm From vs vs
  Run-self From vs = record {
    size = refl;
    fewer = omega arith;
    kept = λ j s. s;
    below = λ j s. inl s;
    closed = λ j cs s e. inl s;
  }

  pub Run-trans :
      (From : ℕ → Type 0) (us vs ws : List ℕ)
      → Run gm From us vs
      → Run gm From vs ws
      → Run gm From us ws
  Run-trans From us vs ws a b = record {
    size = b.size ∙ a.size;
    fewer = omega (arith, a.fewer, b.fewer);
    kept = λ j s. b.kept j (a.kept j s);
    below = λ j s. elim (b.below j s) [ inl t ↦ a.below j t | inr r ↦ inr r ];
    closed = λ j cs s e. elim (b.closed j cs s e) [
      | inl t ↦ elim (a.closed j cs t e) [
        | inl u ↦ inl u
        | inr all ↦ inr (SeenNode-mono vs ws cs b.kept all)
      ]
      | inr all ↦ inr all
    ];
  }

  pub Run-imp :
      (From To : ℕ → Type 0) (vs ws : List ℕ)
      → ((j : ℕ) → From j → To j)
      → Run gm From vs ws
      → Run gm To vs ws
  Run-imp From To vs ws f a = record {
    size = a.size;
    fewer = a.fewer;
    kept = a.kept;
    below = λ j s. elim (a.below j s) [ inl t ↦ inl t | inr r ↦ inr (f j r) ];
    closed = a.closed;
  }
