-- ===== src/Dtb/Words.antt =====
-- The words of the blob: `be_to_le` reads what `load32` brings as a big-endian number.
use lab.Dtb.{load32, be_to_le}
use lab.Memory.{Mem, byte_of}
use lab.Prelude.{ℕ, ◌+◌, ◌*◌, ◌^◌, ◌<◌, ◌≡◌, arith}

-- The word that the kernel reads from four bytes of the blob is their big-endian number.
pub be_to_le-load32 :
    (m : Mem) (a : ℕ)
    → m a < 256
    → m (a + 1) < 256
    → m (a + 2) < 256
    → m (a + 3) < 256
    → be_to_le (load32 m a) ≡ m a * 2 ^ 24 + m (a + 1) * 2 ^ 16 + m (a + 2) * 2 ^ 8 + m (a + 3)
unfolding be_to_le load32 byte_of
be_to_le-load32 m a b0 b1 b2 b3 = omega arith

-- On a u32, `be_to_le` is its own inverse.
pub be_to_le_involutive : (be : ℕ) → be < 2 ^ 32 → be_to_le (be_to_le be) ≡ be
unfolding be_to_le byte_of
be_to_le_involutive be small = omega arith
