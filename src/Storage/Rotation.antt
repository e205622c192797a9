-- ===== src/Storage/Rotation.antt =====
-- The tree rotations of common/storage/idx_sort_dynamic.cc. A position is a uint32_t.
pub mod Counts
use dist_storage.Prelude.{ℕ, ◌+◌, ◌-◌, ◌*◌, ◌%◌, ◌^◌}

-- IndexNodeHeader, without the bytes behind it.
pub record IndexNodeHeader : Type 0 where
  pub left : ℕ
  pub right : ℕ
  pub elem_count : ℕ

-- `all_cnt - side_count - 1` on uint32_t.
unfoldable pub without_side : ℕ → ℕ → ℕ
without_side all_cnt side_count = (all_cnt + 2 * 2 ^ 32 - side_count - 1) % 2 ^ 32

-- The upper node, the node that takes its place, and the position that the call returns.
unfoldable pub rotate_left :
    IndexNodeHeader → ℕ → IndexNodeHeader → ℕ → IndexNodeHeader × IndexNodeHeader × ℕ
rotate_left up_node up_node_pos right_node right_node_right_count =
    let all_cnt = up_node.elem_count in
    (
      record up_node {
        right = right_node.left;
        elem_count = without_side all_cnt right_node_right_count;
      },
      record right_node { left = up_node_pos; elem_count = all_cnt },
      up_node.right,
    )

unfoldable pub rotate_right :
    IndexNodeHeader → ℕ → IndexNodeHeader → ℕ → IndexNodeHeader × IndexNodeHeader × ℕ
rotate_right up_node up_node_pos left_node left_node_left_count =
    let all_cnt = up_node.elem_count in
    (
      record up_node {
        left = left_node.right;
        elem_count = without_side all_cnt left_node_left_count;
      },
      record left_node { right = up_node_pos; elem_count = all_cnt },
      up_node.left,
    )
