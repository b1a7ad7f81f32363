-- ===== src/Slice/Defs.antt =====
-- Slices of bytes. The capacity of a slice is taken to be its length, as `make([]byte, n)` leaves it.
use dreddit.Base.{
  ℕ, ◌+◌, ◌-◌, ◌^◌, ◌&&◌, ◌++◌, Bytes, leb, if◌then◌else◌, length, min, take, drop, replicate,
  Result, ok, panic, slice_bounds,
}

-- `make([]byte, n)`
abbrev pub make_bytes : ℕ → Bytes
make_bytes n = replicate n 0

-- `data[lo:hi]`
unfoldable pub slice : Bytes → ℕ → ℕ → Result Bytes
slice d lo hi =
    if leb lo hi && leb hi (length d) then ok (take (hi - lo) (drop lo d)) else panic slice_bounds

-- `copy(data[lo:hi], src)` copies the shorter of the two lengths.
unfoldable pub copy_slice : ℕ → ℕ → Bytes → Bytes → Result Bytes
copy_slice lo hi src d =
    if leb lo hi && leb hi (length d)
    then ok (take lo d ++ (take (hi - lo) src ++ drop (lo + min (hi - lo) (length src)) d))
    else panic slice_bounds

abbrev pub u32_mod : ℕ
u32_mod = 2 ^ 32
