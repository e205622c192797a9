-- ===== src/Storage/StaticIndex.antt =====
-- The static sorted index of common/storage/idx_sort_static.cc: array positions laid out by stages.
-- `steps` is the array stage_size_steps as a function of its index, and `top` is nstages - 1. The
-- element count and every step are below 2^64 - 1, so that no size_t wraps.
pub mod Ends
pub mod Position
use dist_storage.Prelude.{
  ℕ, zero, suc, ◌+◌, ◌-◌, ◌*◌, ◌/◌, ◌%◌, List, [], ◌∷◌, ◌++◌, get_elem?, Result, ok, ◌>>=◌,
  or_undefined, if◌then◌else◌, ◌==◌,
}

-- The first loop of compute_stage_ends: the item counts of the stages from 0 to `stage`.
unfoldable pub stage_counts : (ℕ → ℕ) → ℕ → ℕ → List ℕ
stage_counts steps zero n = n ∷ []
stage_counts steps (suc stage) n =
    let upper_items = n / (steps stage + 1) in
    stage_counts steps stage upper_items ++ (n - upper_items) ∷ []

-- The second loop: counts into ends.
unfoldable pub counts_to_ends : ℕ → List ℕ → List ℕ
counts_to_ends pos [] = []
counts_to_ends pos (count ∷ counts) = (count + pos) ∷ counts_to_ends (count + pos) counts

unfoldable pub compute_stage_ends : (ℕ → ℕ) → ℕ → ℕ → List ℕ
compute_stage_ends steps top n = counts_to_ends 0 (stage_counts steps top n)

-- The loop of get_idx_position and what follows it, at a stage and with the remaining number.
unfoldable pub stage_position : (ℕ → ℕ) → List ℕ → ℕ → ℕ → Result ℕ
stage_position steps stage_ends zero n = ok (n - 1)
stage_position steps stage_ends (suc stage) n =
    let upper = stage_position steps stage_ends stage (n / (steps stage + 1)) in
    if n % (steps stage + 1) == 0 then upper else (do
      end ← or_undefined (get_elem? stage_ends stage)
      ok (end + (n - n / (steps stage + 1)) - 1))

unfoldable pub get_idx_position : (ℕ → ℕ) → List ℕ → ℕ → ℕ → Result ℕ
get_idx_position steps stage_ends top array_idx =
    stage_position steps stage_ends top (array_idx + 1)

unfoldable pub get_stage_pos_items_count : (ℕ → ℕ) → ℕ → ℕ → ℕ
get_stage_pos_items_count steps stage_pos zero = stage_pos + 1
get_stage_pos_items_count steps stage_pos (suc stage) =
    stage_pos + 1 + (stage_pos + 1) / (steps stage + 1)

unfoldable pub get_next_stage_pos : (ℕ → ℕ) → ℕ → ℕ → ℕ
get_next_stage_pos steps stage_pos stage =
    get_stage_pos_items_count steps stage_pos stage * steps stage
