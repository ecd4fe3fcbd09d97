-- ===== src/Ktest/Switch.antt =====
-- `trap_enable` and `trap_disable` of src/ktest/kmain.c, and the registers they change. `csr_set`
-- and `csr_clear` of include/arch/csr.h are the instructions csrs and csrc, which set and clear the
-- bits of a mask. The address of `trap_entry` is an argument.
use lab.Bits.{bit_and_split, bit_or_split, bit_and_low, bit_or-zero, bit_or-one}
use lab.Prelude.{ℕ, ◌+◌, ◌-◌, ◌*◌, ◌/◌, ◌%◌, ◌^◌, ◌<◌, ◌≡◌, refl, bit_and, bit_or, ap, arith, ◌∙◌}

pub record TrapCsrs : Type 0 where
  pub stvec : ℕ
  pub sie : ℕ
  pub sstatus : ℕ

abbrev pub csr_sie_seie : ℕ
csr_sie_seie = 2 ^ 9

abbrev pub csr_sstatus_sie : ℕ
csr_sstatus_sie = 2 ^ 1

abbrev pub csr_set : ℕ → ℕ → ℕ
csr_set csr mask = bit_or csr mask

abbrev pub csr_clear : ℕ → ℕ → ℕ
csr_clear csr mask = bit_and csr (2 ^ 64 - 1 - mask)

unfoldable pub trap_enable : ℕ → TrapCsrs → TrapCsrs
trap_enable trap_entry c = record c {
  stvec = trap_entry;
  sie = csr_set c.sie csr_sie_seie;
  sstatus = csr_set c.sstatus csr_sstatus_sie;
}

unfoldable pub trap_disable : TrapCsrs → TrapCsrs
trap_disable c = record c {
  sstatus = csr_clear c.sstatus csr_sstatus_sie;
  sie = csr_clear c.sie csr_sie_seie;
  stvec = 0;
}

clear_nine : (v : ℕ) → v < 2 ^ 64 → csr_clear v csr_sie_seie ≡ v / 2 ^ 10 * 2 ^ 10 + v % 2 ^ 9
clear_nine v small =
    let e : v ≡ v / 2 ^ 10 * 2 ^ 10 + v % 2 ^ 10 = omega arith in
    ap (λ (t : ℕ). csr_clear t csr_sie_seie) e
    ∙ omega (
      arith,
      bit_and_split 10 (v / 2 ^ 10) (v % 2 ^ 10) (2 ^ 54 - 1) (2 ^ 9 - 1) (omega arith)
          (omega arith),
      bit_and_low 54 (v / 2 ^ 10),
      bit_and_low 9 (v % 2 ^ 10),
    )

clear_one : (v : ℕ) → v < 2 ^ 64 → csr_clear v csr_sstatus_sie ≡ v / 2 ^ 2 * 2 ^ 2 + v % 2 ^ 1
clear_one v small =
    let e : v ≡ v / 2 ^ 2 * 2 ^ 2 + v % 2 ^ 2 = omega arith in
    ap (λ (t : ℕ). csr_clear t csr_sstatus_sie) e
    ∙ omega (
      arith,
      bit_and_split 2 (v / 2 ^ 2) (v % 2 ^ 2) (2 ^ 62 - 1) (2 ^ 1 - 1) (omega arith) (omega arith),
      bit_and_low 62 (v / 2 ^ 2),
      bit_and_low 1 (v % 2 ^ 2),
    )

set_nine : (v : ℕ) → csr_set v csr_sie_seie ≡ v / 2 ^ 10 * 2 ^ 10 + 2 ^ 9 + v % 2 ^ 9
set_nine v =
    let e : v ≡ v / 2 ^ 9 * 2 ^ 9 + v % 2 ^ 9 = omega arith in
    ap (λ (t : ℕ). csr_set t csr_sie_seie) e
    ∙ omega (
      arith,
      bit_or_split 9 (v / 2 ^ 9) (v % 2 ^ 9) 1 0 (omega arith) (omega arith),
      bit_or-one (v / 2 ^ 9),
      bit_or-zero (v % 2 ^ 9),
    )

set_one : (v : ℕ) → csr_set v csr_sstatus_sie ≡ v / 2 ^ 2 * 2 ^ 2 + 2 ^ 1 + v % 2 ^ 1
set_one v =
    let e : v ≡ v / 2 ^ 1 * 2 ^ 1 + v % 2 ^ 1 = omega arith in
    ap (λ (t : ℕ). csr_set t csr_sstatus_sie) e
    ∙ omega (
      arith,
      bit_or_split 1 (v / 2 ^ 1) (v % 2 ^ 1) 1 0 (omega arith) (omega arith),
      bit_or-one (v / 2 ^ 1),
      bit_or-zero (v % 2 ^ 1),
    )

-- On registers of 64 bits, `trap_disable` undoes `trap_enable`: where external interrupts and the
-- supervisor's interrupts were off, all registers are as before, but for stvec, which is 0.
pub trap_disable-trap_enable :
    (trap_entry : ℕ) (c : TrapCsrs)
    → c.sie < 2 ^ 64
    → c.sstatus < 2 ^ 64
    → c.sie / 2 ^ 9 % 2 ≡ 0
    → c.sstatus / 2 % 2 ≡ 0
    → trap_disable (trap_enable trap_entry c) ≡ record c { stvec = 0 }
unfolding trap_disable trap_enable
trap_disable-trap_enable trap_entry c small small' off off' =
    let e = set_nine c.sie in
    let e' = set_one c.sstatus in
    let back : csr_clear (csr_set c.sie csr_sie_seie) csr_sie_seie ≡ c.sie =
      clear_nine (csr_set c.sie csr_sie_seie) (omega arith) ∙ omega arith in
    let back' : csr_clear (csr_set c.sstatus csr_sstatus_sie) csr_sstatus_sie ≡ c.sstatus =
      clear_one (csr_set c.sstatus csr_sstatus_sie) (omega arith) ∙ omega arith in
    rw (back, back') refl
