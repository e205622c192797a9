-- ===== src/Storage/Block.antt =====
-- Element reads of common/storage/block.cc, on the bytes of the mapped file. write_data copies to a
-- void pointer, which C++ does not allow, so that it has no behaviour to model.
pub mod Access
use dist_storage.Prelude.{
  ℕ, ◌+◌, ◌-◌, ◌*◌, ◌%◌, ◌^◌, Bool, true, false, ◌&&◌, Option, none, some, List, [], ◌∷◌, ◌++◌,
  length, take, drop, Result, ok, throws, undefined, runtime_error, ◌>>=◌, if◌then◌else◌, ltb, leb,
  ◌==◌,
}

-- The wrap-around of size_t.
abbrev pub size_wrap : ℕ → ℕ
size_wrap n = n % 2 ^ 64

-- std::copy from `src[first, last)` to `dst` at `pos`: undefined outside either array.
unfoldable pub copy : List ℕ → ℕ → ℕ → List ℕ → ℕ → Result (List ℕ)
copy src first last dst pos =
    if leb first last && leb last (length src) && leb (pos + (last - first)) (length dst)
    then ok
        (take pos dst ++ (take (last - first) (drop first src) ++ drop (pos + (last - first)) dst))
    else undefined

-- The first lines of read_data: `none` is the early return of 0, and else the count
-- of elements is cut off at the end of the data.
unfoldable pub clip_count : ℕ → ℕ → ℕ → Option ℕ
clip_count n offset data_count =
    if ltb n offset
    then none
    else (let count = if ltb n (size_wrap (offset + data_count)) then n - offset else data_count in
        if count == 0 then none else some count)

-- The rest of read_data.
unfoldable pub read_clipped : List ℕ → ℕ → List ℕ → ℕ → Option ℕ → Result (ℕ × List ℕ)
read_clipped content elem_size out offset none = ok (0, out)
read_clipped content elem_size out offset (some count) = do
  out' ←
      copy content (size_wrap (offset * elem_size))
        (size_wrap (size_wrap (offset + count) * elem_size)) out 0
  ok (count, out')

-- read_data: the number of elements read, and the output buffer.
unfoldable pub read_data : List ℕ → ℕ → ℕ → List ℕ → ℕ → ℕ → Result (ℕ × List ℕ)
read_data content elem_size n out offset data_count =
    read_clipped content elem_size out offset (clip_count n offset data_count)
