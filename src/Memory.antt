-- ===== src/Memory.antt =====
-- Physical memory as bytes at addresses, and the accesses that the C code makes through `u8 *`
-- and `u64 *` (RV64 is little-endian). Pointer arithmetic is that of ℕ.
mod Store
mod Set
unfoldable pub use Store.*
unfoldable pub use Set.*
