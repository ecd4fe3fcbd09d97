-- ===== src/Examples.antt =====
-- The theorems at concrete inputs, and runs of the model on inputs of the repository's tests.
mod Paging
mod Boot
mod Text
mod Entries
mod Format
mod Blob
mod Harness
mod Strings
mod TestKernel
mod Refusing
mod Paged
mod Dumped
mod Mapped
mod Booted
mod Alone
