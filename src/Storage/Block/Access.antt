-- ===== src/Storage/Block/Access.antt =====
-- Which elements a read gets, and what an overflow of offset + data_count does.
use dist_storage.Prelude.{
  ℕ, ◌+◌, ◌-◌, ◌*◌, ◌^◌, ◌≤◌, ◌<◌, ◌≡◌, none, some, List, ◌++◌, length, take, drop, ok, undefined,
  if◌then◌else◌, leb, arith, le→leb, ℕ_discrete,
}
use native.Mathlib.Nat.{zero-add}
use dist_storage.Storage.Block.{size_wrap, copy, clip_count, read_clipped, read_data}

-- The elements that a request gets.
unfoldable pub available : ℕ → ℕ → ℕ → ℕ
available n offset data_count = if leb data_count (n - offset) then data_count else n - offset

clip_count-none :
    (n offset data_count : ℕ)
    → offset + data_count < 2 ^ 64
    → available n offset data_count ≡ 0
    → clip_count n offset data_count ≡ none
unfolding clip_count available
clip_count-none n offset data_count h e = ground arith

clip_count-some :
    (n offset data_count : ℕ)
    → offset + data_count < 2 ^ 64
    → 0 < available n offset data_count
    → clip_count n offset data_count ≡ some (available n offset data_count)
unfolding clip_count available
clip_count-some n offset data_count h e = ground arith

copy_lem :
    (src : List ℕ) (first len : ℕ) (dst : List ℕ) (pos : ℕ)
    → first + len ≤ length src
    → pos + len ≤ length dst
    → copy src first (first + len) dst pos
      ≡ ok (take pos dst ++ (take len (drop first src) ++ drop (pos + len) dst))
unfolding copy
copy_lem src first len dst pos h k =
    let e : first + len - first ≡ len = omega arith in
    rw (e, le→leb first (first + len) (omega arith), le→leb _ _ h, le→leb _ _ k)

copy_from_start :
    (src : List ℕ) (len : ℕ) (dst : List ℕ) (pos : ℕ)
    → len ≤ length src
    → pos + len ≤ length dst
    → copy src 0 len dst pos ≡ ok (take pos dst ++ (take len src ++ drop (pos + len) dst))
unfolding copy
copy_from_start src len dst pos h k =
    let e : len - 0 ≡ len = omega arith in
    rw (e, le→leb 0 len (omega arith), le→leb _ _ h, le→leb _ _ k)

copy_backwards :
    (src : List ℕ) (first last : ℕ) (dst : List ℕ) (pos : ℕ)
    → last < first
    → copy src first last dst pos ≡ undefined
unfolding copy
copy_backwards src first last dst pos h = ground arith

-- Products with an element count stay below the size of the data.
scaled : (a n elem_size : ℕ) → a ≤ n → a * elem_size ≤ n * elem_size
scaled a n elem_size h = grind arith

available-le : (n offset data_count : ℕ) → offset ≤ n → offset + available n offset data_count ≤ n
unfolding available
available-le n offset data_count h = ground arith

available-le_count : (n offset data_count : ℕ) → available n offset data_count ≤ data_count
unfolding available
available-le_count n offset data_count = ground arith

available-pos : (n offset data_count : ℕ) → 0 < available n offset data_count → offset ≤ n
unfolding available
available-pos n offset data_count h = ground arith

wrap_small : (x : ℕ) → x < 2 ^ 64 → size_wrap x ≡ x
wrap_small x h = omega arith

-- A read that does not overflow gets the available elements: they go to the front of the output
-- buffer, whose rest is left, and nothing is accessed outside the data or the buffer.
pub read_data-available :
    (content : List ℕ) (elem_size n : ℕ) (out : List ℕ) (offset data_count : ℕ)
    → n * elem_size ≡ length content
    → length content < 2 ^ 64
    → n < 2 ^ 64
    → offset + data_count < 2 ^ 64
    → data_count * elem_size ≤ length out
    → let k = available n offset data_count in
      read_data content elem_size n out offset data_count
      ≡ ok (k, take (k * elem_size) (drop (offset * elem_size) content) ++ drop (k * elem_size) out)
unfolding read_data read_clipped
read_data-available content elem_size n out offset data_count size small small_n sum room =
    let k = available n offset data_count in
    elim (ℕ_discrete k 0) [
      | yes e ↦
          let z : 0 * elem_size ≡ 0 = omega arith in
          rw (clip_count-none n offset data_count sum e, e, z)
      | no ne ↦
          let within = available-pos n offset data_count (omega arith) in
          let end = available-le n offset data_count within in
          let last = scaled (offset + k) n elem_size end in
          let split : (offset + k) * elem_size ≡ offset * elem_size + k * elem_size = omega arith in
          let fits = scaled k data_count elem_size (available-le_count n offset data_count) in
          rw (
            clip_count-some n offset data_count sum (omega arith),
            wrap_small (offset * elem_size) (omega arith),
            wrap_small (offset + k) (omega arith),
            wrap_small ((offset + k) * elem_size) (omega arith),
            split,
            copy_lem content (offset * elem_size) (k * elem_size) out 0 (omega arith) (omega arith),
            zero-add (k * elem_size),
          )
    ]

scaled_lt : (a b elem_size : ℕ) → a < b → 0 < elem_size → a * elem_size < b * elem_size
scaled_lt a b elem_size h pos = grind arith

le_size :
    (n elem_size : ℕ) {size : ℕ} → 0 < elem_size → n * elem_size ≡ size → size < 2 ^ 64 → n < 2 ^ 64
le_size n elem_size pos e small = grind arith

clip_count-wrapped :
    (n offset data_count : ℕ)
    → offset ≤ n
    → n < 2 ^ 64
    → data_count < 2 ^ 64
    → 2 ^ 64 ≤ offset + data_count
    → clip_count n offset data_count ≡ some data_count
unfolding clip_count
clip_count-wrapped n offset data_count within small count over = ground arith

-- When offset + data_count overflows size_t, for an offset inside the data, the request is not cut
-- off and the copy runs from a higher address to a lower one: it is undefined.
pub read_data-overflow :
    (content : List ℕ) (elem_size n : ℕ) (out : List ℕ) (offset data_count : ℕ)
    → n * elem_size ≡ length content
    → length content < 2 ^ 64
    → 0 < elem_size
    → offset ≤ n
    → data_count < 2 ^ 64
    → 2 ^ 64 ≤ offset + data_count
    → read_data content elem_size n out offset data_count ≡ undefined
unfolding read_data read_clipped
read_data-overflow content elem_size n out offset data_count size small pos within count over =
    let small_n = le_size n elem_size pos size small in
    let w = offset + data_count - 2 ^ 64 in
    let e : size_wrap (offset + data_count) ≡ w = omega arith in
    let first = scaled offset n elem_size within in
    let ahead = scaled_lt w offset elem_size (omega arith) pos in
    rw (
      clip_count-wrapped n offset data_count within small_n count over,
      wrap_small (offset * elem_size) (omega arith),
      e,
      wrap_small (w * elem_size) (omega arith),
      copy_backwards content (offset * elem_size) (w * elem_size) out 0 ahead,
    )
