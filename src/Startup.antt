-- ===== src/Startup.antt =====
-- The machine-mode start of src/startup.c: the control and status registers that `mmode_startup`
-- writes before `mret`. The masks are the macros of include/arch/csr.h, as the preprocessor puts
-- them in. The address of `kmain` is an argument; the log messages are left out.
pub mod Privilege
use lab.Prelude.{ℕ, ◌+◌, ◌-◌, ◌*◌, ◌^◌, bit_and, bit_or}

pub record Csrs : Type 0 where
  pub mstatus : ℕ
  pub mepc : ℕ
  pub satp : ℕ
  pub medeleg : ℕ
  pub mideleg : ℕ
  pub pmpaddr0 : ℕ
  pub pmpcfg0 : ℕ

-- `~(1ULL << 12) | (1ULL << 11)`: what `~CSR_MSTATUS_MPP` becomes, since the macro has no
-- parentheses around it.
abbrev pub not_csr_mstatus_mpp : ℕ
not_csr_mstatus_mpp = bit_or (2 ^ 64 - 1 - 2 ^ 12) (2 ^ 11)

abbrev pub csr_mstatus_mpp_s : ℕ
csr_mstatus_mpp_s = 2 ^ 11

unfoldable pub startup_mstatus : ℕ → ℕ
startup_mstatus mstatus = bit_or (bit_and mstatus not_csr_mstatus_mpp) csr_mstatus_mpp_s

-- Up to `mret`, after which the endless loop is not reached.
unfoldable pub mmode_startup : ℕ → Csrs → Csrs
unfolding startup_mstatus
mmode_startup kmain c = record c {
  mstatus = startup_mstatus c.mstatus;
  satp = 0;
  medeleg = 0xffffffffffffffff;
  mideleg = 0xffffffffffffffff;
  pmpaddr0 = 0x3fffffffffffffff;
  pmpcfg0 = 0xf;
  mepc = kmain;
}
