-- ===== src/Dev/Pci/Config.antt =====
-- The addresses of the configuration space, and the parts of its registers.
use otrix.Prelude.{ℕ, zero, suc, ◌-◌, ◌/◌, ◌%◌, ◌^◌, ◌<◌, ◌≡◌, ◌≢◌, refl, arith}
use otrix.Dev.Pci.{
  Space, pci_cfg_reg, pci_config_read32, pci_config_read16, pci_config_read8, Write,
  pci_config_write32, pci_config_write8, replace_part,
}

-- Registers of different devices, or functions below 4, have different addresses.
pub pci_cfg_reg-injective :
    (bus dev fun reg bus' dev' fun' reg' : ℕ)
    → bus < 256
    → dev < 32
    → fun < 4
    → reg < 256
    → reg % 4 ≡ 0
    → bus' < 256
    → dev' < 32
    → fun' < 4
    → reg' < 256
    → reg' % 4 ≡ 0
    → pci_cfg_reg bus dev fun reg ≡ pci_cfg_reg bus' dev' fun' reg'
    → (bus ≡ bus') × (dev ≡ dev') × (fun ≡ fun') × (reg ≡ reg')
pci_cfg_reg-injective bus dev fun reg bus' dev' fun' reg' b d f r r4 b' d' f' r' r4' e =
    (omega arith, omega arith, omega arith, omega arith)

part_of :
    (i j old val : ℕ)
    → i < 4
    → j < 4
    → i ≢ j
    → old < 4294967296
    → val < 256
    → (replace_part 256 i old val / 256 ^ i % 256 ≡ val)
      × (replace_part 256 i old val / 256 ^ j % 256 ≡ old / 256 ^ j % 256)
part_of zero zero old val hi hj ne ho hv = absurd (ne refl)
part_of zero (suc zero) old val hi hj ne ho hv = (omega arith, omega arith)
part_of zero (suc (suc zero)) old val hi hj ne ho hv = (omega arith, omega arith)
part_of zero (suc (suc (suc zero))) old val hi hj ne ho hv = (omega arith, omega arith)
part_of zero (suc (suc (suc (suc j)))) old val hi hj ne ho hv = absurd (omega arith)
part_of (suc zero) zero old val hi hj ne ho hv = (omega arith, omega arith)
part_of (suc zero) (suc zero) old val hi hj ne ho hv = absurd (ne refl)
part_of (suc zero) (suc (suc zero)) old val hi hj ne ho hv = (omega arith, omega arith)
part_of (suc zero) (suc (suc (suc zero))) old val hi hj ne ho hv = (omega arith, omega arith)
part_of (suc zero) (suc (suc (suc (suc j)))) old val hi hj ne ho hv = absurd (omega arith)
part_of (suc (suc zero)) zero old val hi hj ne ho hv = (omega arith, omega arith)
part_of (suc (suc zero)) (suc zero) old val hi hj ne ho hv = (omega arith, omega arith)
part_of (suc (suc zero)) (suc (suc zero)) old val hi hj ne ho hv = absurd (ne refl)
part_of (suc (suc zero)) (suc (suc (suc zero))) old val hi hj ne ho hv = (omega arith, omega arith)
part_of (suc (suc zero)) (suc (suc (suc (suc j)))) old val hi hj ne ho hv = absurd (omega arith)
part_of (suc (suc (suc zero))) zero old val hi hj ne ho hv = (omega arith, omega arith)
part_of (suc (suc (suc zero))) (suc zero) old val hi hj ne ho hv = (omega arith, omega arith)
part_of (suc (suc (suc zero))) (suc (suc zero)) old val hi hj ne ho hv = (omega arith, omega arith)
part_of (suc (suc (suc zero))) (suc (suc (suc zero))) old val hi hj ne ho hv = absurd (ne refl)
part_of (suc (suc (suc zero))) (suc (suc (suc (suc j)))) old val hi hj ne ho hv =
    absurd (omega arith)
part_of (suc (suc (suc (suc i)))) j old val hi hj ne ho hv = absurd (omega arith)

module _ (space : Space) (bus dev fun addr val : ℕ) where
  abbrev pub written : Write
  written = pci_config_write8 space bus dev fun addr val

  abbrev pub old : ℕ
  old = pci_config_read32 space bus dev fun (addr - addr % 4)

  -- Writing a byte writes to the register that has it, in which a read of that byte then gives what was
  -- written, and a read of any of the other three what it gave before.
  pub pci_config_write8-read8 :
      (j : ℕ)
      → old < 4294967296
      → val < 256
      → j < 4
      → addr % 4 ≢ j
      → (written.address ≡ pci_cfg_reg bus dev fun (addr - addr % 4))
        × (pci_config_read8 (λ a. written.value) bus dev fun addr ≡ val)
        × (written.value / 256 ^ j % 256 ≡ old / 256 ^ j % 256)
  unfolding pci_config_write8 pci_config_write32 pci_config_read8 pci_config_read32
  pci_config_write8-read8 j word byte small other =
      let parts = part_of (addr % 4) j old val (omega arith) small other word byte in
      (refl, parts.0, parts.1)

-- A read of 16 bits at an address 2 behind a multiple of 4 gives the lower half of the register, which is what
-- stands at that multiple.
pub pci_config_read16-half :
    (space : Space) (bus dev fun addr : ℕ)
    → addr % 4 ≡ 2
    → pci_config_read16 space bus dev fun addr ≡ pci_config_read16 space bus dev fun (addr - 2)
unfolding pci_config_read16
pci_config_read16-half space bus dev fun addr half =
    let even : addr % 2 ≡ 0 = omega arith in
    let even' : (addr - 2) % 2 ≡ 0 = omega arith in
    let register : (addr - 2) - (addr - 2) % 4 ≡ addr - addr % 4 = omega arith in
    rw (pci_config_read16, register, even, even') refl
