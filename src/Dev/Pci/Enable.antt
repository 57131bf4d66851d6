-- ===== src/Dev/Pci/Enable.antt =====
-- `pci_dev::enable_bus_mastering` and `pci_dev::enable_msix`: the registers that they read and write. What
-- the device makes of a write, the configuration space that is read after it, is a parameter, `apply`.
use otrix.Prelude.{
  ℕ, ◌+◌, ◌-◌, ◌/◌, ◌%◌, ◌^◌, ◌≤◌, ◌<◌, ◌≡◌, ◌≢◌, refl, sym, ap, ◌∙◌, List, [], ◌∷◌, arith, Bool,
  true, false, not, ◌==◌, ==_iff, ne→==, if◌then◌else◌,
}
use otrix.Error.{Kerror, ok, nodev}
use otrix.IntrusiveList.{Ptr, null}
use otrix.Dev.Pci.{
  Space, Write, Capability, MsixEntry, pci_cfg_reg, pci_config_read32, pci_config_write32, get_cap,
  table_size, reset_table,
}
pub mod Registers

abbrev pub Apply : Type 0
Apply = Space → Write → Space

-- `v | (1 << k)` and `v & ~(1 << k)`
abbrev pub set_bit : ℕ → ℕ → ℕ
set_bit k v = if v / 2 ^ k % 2 == 1 then v else v + 2 ^ k

abbrev pub clear_bit : ℕ → ℕ → ℕ
clear_bit k v = if v / 2 ^ k % 2 == 1 then v - 2 ^ k else v

abbrev pub reg_status_command : ℕ
reg_status_command = 4

abbrev pub cap_id_msix : ℕ
cap_id_msix = 0x11

unfoldable pub enable_bus_mastering : Apply → Space → (bus dev fun : ℕ) → Bool → Kerror × Space
unfolding pci_config_read32 pci_config_write32
enable_bus_mastering apply space bus dev fun enable =
    let command_status = pci_config_read32 space bus dev fun reg_status_command in
    let value = if enable then set_bit 2 command_status else clear_bit 2 command_status in
    (ok, apply space (pci_config_write32 bus dev fun reg_status_command value))

-- `msix_table_`, `msix_table_size_`, and the entries at that address.
pub record MsixTable : Type 0 where
  pub address : Ptr
  pub size : ℕ
  pub entries : List MsixEntry

-- `base_addr + (table_addr & ~0x7)`, in 32 bits
abbrev pub table_address : (bar : ℕ → ℕ) → ℕ → Ptr
table_address bar table_addr =
    let base = bar (table_addr % 8) in (base - base % 16 + (table_addr - table_addr % 8)) % 2 ^ 32

-- `bar` is the method, and `memory` gives the entries behind an address, by their index.
unfoldable pub enable_msix :
    Apply
    → Space
    → (bus dev fun : ℕ) → List Capability
    → (bar : ℕ → ℕ) → (memory : Ptr → ℕ → MsixEntry) → MsixTable
    → Bool
    → Kerror × Space × MsixTable
enable_msix apply space bus dev fun caps bar memory t enable =
    let cap = get_cap caps cap_id_msix in
    let read = λ (s : Space) (reg : ℕ). pci_config_read32 s bus dev fun reg in
    let put = λ (s : Space) (reg v : ℕ). apply s (pci_config_write32 bus dev fun reg v) in
    let message_control = read space cap in
    let s1 = put space cap (set_bit 31 message_control) in
    let s2 = put s1 reg_status_command (set_bit 10 (read s1 reg_status_command)) in
    let size = table_size message_control in
    let address = table_address bar (read s2 (cap + 4)) in
    let s3 = put s2 cap (clear_bit 30 (read s2 cap)) in
    if not (t.address == null)
    then (ok, space, t)
    else (if cap == 0
        then (nodev, space, t)
        else (if enable
            then (
              ok,
              s3,
              record {
                address = address;
                size = size;
                entries = reset_table size 0 (memory address);
              },
            )
            else (ok, put space cap (clear_bit 31 message_control), t)))
