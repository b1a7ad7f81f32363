-- ===== src/Slice.antt =====
-- Go's byte slices as the packing code uses them: `make([]byte, n)`, `copy(data[lo:hi], src)`,
-- and encoding/binary's little-endian uint32.
pub mod Defs
pub mod Fill
pub use Fill.{fit, fit_exact, copy_slice-fill, length-fit}
unfoldable pub use Defs.{make_bytes, copy_slice, slice, u32_mod}
