-- ===== src/Startup/Privilege.antt =====
-- What `mmode_startup` makes of the register mstatus: `mret` enters S-mode.
use lab.Bits.{bit_and_split, bit_or_split, bit_and_low, bit_or-zero, bit_or-one}
use lab.Prelude.{ℕ, ◌+◌, ◌-◌, ◌*◌, ◌/◌, ◌%◌, ◌^◌, ◌<◌, ◌≡◌, bit_and, bit_or, ap, arith, ◌∙◌}
use lab.Startup.{Csrs, not_csr_mstatus_mpp, csr_mstatus_mpp_s, startup_mstatus, mmode_startup}

-- The mask has every bit but bit 12.
cleared : (v : ℕ) → v < 2 ^ 64 → bit_and v not_csr_mstatus_mpp ≡ v / 2 ^ 13 * 2 ^ 13 + v % 2 ^ 12
cleared v small =
    let e : v ≡ v / 2 ^ 13 * 2 ^ 13 + v % 2 ^ 13 = omega arith in
    ap (λ (t : ℕ). bit_and t not_csr_mstatus_mpp) e
    ∙ omega (
      arith,
      bit_and_split 13 (v / 2 ^ 13) (v % 2 ^ 13) (2 ^ 51 - 1) (2 ^ 12 - 1) (omega arith)
          (omega arith),
      bit_and_low 51 (v / 2 ^ 13),
      bit_and_low 12 (v % 2 ^ 13),
    )

-- Setting bit 11 where bit 12 is clear.
raised :
    (high low : ℕ)
    → low < 2 ^ 12
    → bit_or (high * 2 ^ 13 + low) csr_mstatus_mpp_s ≡ high * 2 ^ 13 + 2 ^ 11 + low % 2 ^ 11
raised high low small =
    let x = high * 4 + low / 2 ^ 11 in
    let e : high * 2 ^ 13 + low ≡ x * 2 ^ 11 + low % 2 ^ 11 = omega arith in
    ap (λ (t : ℕ). bit_or t csr_mstatus_mpp_s) e
    ∙ omega (
      arith,
      bit_or_split 11 x (low % 2 ^ 11) 1 0 (omega arith) (omega arith),
      bit_or-one x,
      bit_or-zero (low % 2 ^ 11),
    )

-- For every value of the register, `mmode_startup` leaves the field MPP, bits 12 and 11, at 1, the
-- mode S that `mret` enters, and keeps all other bits of mstatus.
pub mmode_startup-mstatus :
    (kmain : ℕ) (c : Csrs)
    → c.mstatus < 2 ^ 64
    → ((mmode_startup kmain c).mstatus / 2 ^ 11 % 4 ≡ 1)
      × ((mmode_startup kmain c).mstatus / 2 ^ 13 ≡ c.mstatus / 2 ^ 13)
      × ((mmode_startup kmain c).mstatus % 2 ^ 11 ≡ c.mstatus % 2 ^ 11)
unfolding mmode_startup startup_mstatus
mmode_startup-mstatus kmain c small =
    let v = c.mstatus in
    rw (cleared v small, raised (v / 2 ^ 13) (v % 2 ^ 12) (omega arith))
      (omega arith, omega arith, omega arith)
