-- ===== src/Storage/Rotation/Counts.antt =====
-- A rotation keeps the element counts right, and the opposite rotation undoes it.
use dist_storage.Prelude.{ℕ, ◌+◌, ◌<◌, ◌^◌, ◌≡◌, refl, ap, arith}
use dist_storage.Storage.Rotation.{IndexNodeHeader, rotate_left, rotate_right, without_side}

without_side-add :
    (all_cnt a b : ℕ) → all_cnt ≡ a + b + 1 → all_cnt < 2 ^ 32 → without_side all_cnt a ≡ b
unfolding without_side
without_side-add all_cnt a b e lt = omega arith

-- Let the counts of the two nodes be one more than those of their two sides together: `l` is the
-- count on the left of the upper node, `m` and `r` are those of the node on its right. After
-- rotate_left the same holds of the two nodes in their new places, and the whole count stays.
pub rotate_left-elem_count :
    (up_node right_node : IndexNodeHeader) (up_node_pos l m r : ℕ)
    → up_node.elem_count ≡ l + right_node.elem_count + 1
    → right_node.elem_count ≡ m + r + 1
    → up_node.elem_count < 2 ^ 32
    → let (up', right', _) = rotate_left up_node up_node_pos right_node r in
      (up'.elem_count ≡ l + m + 1)
      × (right'.elem_count ≡ up'.elem_count + r + 1)
      × (right'.elem_count ≡ up_node.elem_count)
unfolding rotate_left
rotate_left-elem_count up_node right_node up_node_pos l m r e f lt =
    let counted = without_side-add up_node.elem_count r (l + m + 1) (omega arith) lt in
    (counted, omega (arith, counted), refl)

-- When the count of the upper node is one more than the counts of its two sides together,
-- rotate_right undoes rotate_left: both nodes and the upper position are as before.
pub rotate_right-rotate_left :
    (up_node right_node : IndexNodeHeader) (up_node_pos l r : ℕ)
    → up_node.elem_count ≡ l + right_node.elem_count + 1
    → up_node.elem_count < 2 ^ 32
    → let (up', right', pos) = rotate_left up_node up_node_pos right_node r in
      rotate_right right' pos up' l ≡ (right_node, up_node, up_node_pos)
unfolding rotate_left rotate_right
rotate_right-rotate_left up_node right_node up_node_pos l r e lt =
    ap (λ n. (record right_node { elem_count = n }, up_node, up_node_pos))
      (without_side-add up_node.elem_count l right_node.elem_count e lt)
