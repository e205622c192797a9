-- ===== src/Storage/Tests.antt =====
-- The storage theorems on a small file and a small index.
use dist_storage.Prelude.{
  ℕ, ◌-◌, ◌*◌, ◌+◌, ◌<◌, ◌≡◌, ◌^◌, refl, some, List, [], ◌∷◌, ◌++◌, get_elem?, length, take, drop,
  ok, undefined, arith,
}
use dist_storage.Storage.Rotation.{IndexNodeHeader, rotate_left, rotate_right}
use dist_storage.Storage.Rotation.Counts.{rotate_left-elem_count, rotate_right-rotate_left}
use dist_storage.Storage.Block.{read_data}
use dist_storage.Storage.Block.Access.{available, read_data-available, read_data-overflow}
use dist_storage.Storage.StaticIndex.{
  compute_stage_ends, get_idx_position, counts_to_ends, stage_counts, stage_position,
}
use dist_storage.Storage.StaticIndex.Ends.{compute_stage_ends-quotient, quotient}
use dist_storage.Storage.StaticIndex.Position.{get_idx_position-lt, get_idx_position-injective}

-- Four elements of two bytes.
abbrev content : List ℕ
content = 1 ∷ 2 ∷ 3 ∷ 4 ∷ 5 ∷ 6 ∷ 7 ∷ 8 ∷ []

abbrev buffer : List ℕ
buffer = 0 ∷ 0 ∷ 0 ∷ 0 ∷ 0 ∷ 0 ∷ []

-- Three elements are asked for at offset 2, where two are left.
available_runs : available 4 2 3 ≡ 2
unfolding available
available_runs = refl

read_data-available_example :
    read_data content 2 4 buffer 2 3
    ≡ ok (
      available 4 2 3,
      take (available 4 2 3 * 2) (drop (2 * 2) content) ++ drop (available 4 2 3 * 2) buffer,
    )
read_data-available_example =
    read_data-available content 2 4 buffer 2 3 refl (omega arith) (omega arith) (omega arith)
      (omega arith)

read_data-overflow_example : read_data content 2 4 buffer 1 (2 ^ 64 - 1) ≡ undefined
read_data-overflow_example =
    read_data-overflow content 2 4 buffer 1 (2 ^ 64 - 1) refl (omega arith) (omega arith)
      (omega arith) (omega arith) (omega arith)

-- Every stage keeps every third element, then every second.
abbrev steps : ℕ → ℕ
steps stage = stage + 1

compute_stage_ends_runs : compute_stage_ends steps 2 10 ≡ 1 ∷ 3 ∷ 10 ∷ []
unfolding compute_stage_ends stage_counts counts_to_ends
compute_stage_ends_runs = refl

compute_stage_ends-quotient_example :
    (length (compute_stage_ends steps 2 10) ≡ 3)
    × (get_elem? (compute_stage_ends steps 2 10) (2 - 1) ≡ some (quotient steps 2 1 10))
compute_stage_ends-quotient_example = compute_stage_ends-quotient steps 2 10 1 (omega arith)

get_idx_position-lt_example :
    (p : ℕ) × (get_idx_position steps (compute_stage_ends steps 2 10) 2 5 ≡ ok p) × (p < 10)
get_idx_position-lt_example = get_idx_position-lt steps 2 10 5 (omega arith)

get_idx_position_runs : get_idx_position steps (compute_stage_ends steps 2 10) 2 5 ≡ ok 0
unfolding get_idx_position stage_position compute_stage_ends stage_counts counts_to_ends
get_idx_position_runs = refl

get_idx_position-injective_example : ◌≡◌ {A = ℕ} 5 5
get_idx_position-injective_example =
    get_idx_position-injective steps 2 10 5 5 0 (omega arith) (omega arith) get_idx_position_runs
      get_idx_position_runs

-- A node with three elements on its left and five on its right, two of them left of that node.
abbrev upper : IndexNodeHeader
upper = record { left = 1; right = 2; elem_count = 9 }

abbrev lower : IndexNodeHeader
lower = record { left = 3; right = 4; elem_count = 5 }

rotate_left-elem_count_example :
    let (up', right', _) = rotate_left upper 0 lower 2 in
    (up'.elem_count ≡ 6) × (right'.elem_count ≡ up'.elem_count + 2 + 1) × (right'.elem_count ≡ 9)
rotate_left-elem_count_example = rotate_left-elem_count upper lower 0 3 2 2 refl refl (omega arith)

rotate_right-rotate_left_example :
    let (up', right', pos) = rotate_left upper 0 lower 2 in
    rotate_right right' pos up' 3 ≡ (lower, upper, 0)
rotate_right-rotate_left_example = rotate_right-rotate_left upper lower 0 3 2 refl (omega arith)
