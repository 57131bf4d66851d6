-- ===== src/Dev/Pci.antt =====
-- dev/pci.cpp and dev/include/dev/pci.hpp: the configuration space, the search for devices, the list of
-- capabilities and the MSI-X table. What the port of the configuration data gives for an address is a
-- parameter, `space`, of 32-bit numbers; a write is its address and value.
use otrix.Prelude.{
  ℕ, zero, suc, ◌+◌, ◌-◌, ◌*◌, ◌/◌, ◌%◌, ◌^◌, List, [], ◌∷◌, ◌++◌, length, Bool, true, false, not,
  ◌&&◌, ◌==◌, ltb, leb, if◌then◌else◌, Option, none, some, Outcome, returns, out_of_fuel,
}
use otrix.Error.{Kerror, ok, nodev, nomem, inval}
use otrix.IntrusiveList.{Ptr, null, update}
use otrix.Arch.IrqManager.{IrqManager, Routines, request_irq}
pub mod Config
pub mod Search
pub mod Capabilities
pub mod Msix
pub mod Enable
mod Tests

abbrev pub Space : Type 0
Space = ℕ → ℕ

-- `PCI_CFG_REG`: the bits of the parts do not overlap.
abbrev pub pci_cfg_reg : (bus dev fun reg : ℕ) → ℕ
pci_cfg_reg bus dev fun reg =
    2147483648 + bus % 256 * 65536 + dev % 32 * 2048 + fun % 4 * 256 + (reg % 256 - reg % 4)

unfoldable pub pci_config_read32 : Space → (bus dev fun reg : ℕ) → ℕ
pci_config_read32 space bus dev fun reg = space (pci_cfg_reg bus dev fun reg)

unfoldable pub pci_config_read16 : Space → (bus dev fun addr : ℕ) → ℕ
unfolding pci_config_read32
pci_config_read16 space bus dev fun addr =
    let data32 = pci_config_read32 space bus dev fun (addr - addr % 4) in
    data32 / 65536 ^ (addr % 2) % 65536

unfoldable pub pci_config_read8 : Space → (bus dev fun addr : ℕ) → ℕ
unfolding pci_config_read32
pci_config_read8 space bus dev fun addr =
    let data32 = pci_config_read32 space bus dev fun (addr - addr % 4) in
    data32 / 256 ^ (addr % 4) % 256

-- A write to the configuration space.
pub record Write : Type 0 where
  pub address : ℕ
  pub value : ℕ

unfoldable pub pci_config_write32 : (bus dev fun reg val : ℕ) → Write
pci_config_write32 bus dev fun reg val = record {
  address = pci_cfg_reg bus dev fun reg;
  value = val;
}

-- `(data & ~(mask << shift)) | val << shift` for the part of the size `base` at the place `i`.
abbrev pub replace_part : (base i old val : ℕ) → ℕ
replace_part base i old val = old - old / base ^ i % base * base ^ i + val * base ^ i

unfoldable pub pci_config_write16 : Space → (bus dev fun addr val : ℕ) → Write
unfolding pci_config_read32 pci_config_write32
pci_config_write16 space bus dev fun addr val =
    let data32 = pci_config_read32 space bus dev fun (addr - addr % 4) in
    pci_config_write32 bus dev fun (addr - addr % 4) (replace_part 65536 (addr % 2) data32 val)

unfoldable pub pci_config_write8 : Space → (bus dev fun addr val : ℕ) → Write
unfolding pci_config_read32 pci_config_write32
pci_config_write8 space bus dev fun addr val =
    let data32 = pci_config_read32 space bus dev fun (addr - addr % 4) in
    pci_config_write32 bus dev fun (addr - addr % 4) (replace_part 256 (addr % 4) data32 val)

-- `PCI_REG_DEVICE_ID`, `PCI_REG_VENDOR_ID` and `PCI_REG_STATUS`
abbrev pub high16 : ℕ → ℕ
high16 reg = reg / 65536 % 65536

abbrev pub low16 : ℕ → ℕ
low16 reg = reg % 65536

-- A BAR as the constructor keeps it.
abbrev pub bar_of : ℕ → ℕ
bar_of reg = if reg % 2 == 1 then reg % 65536 - reg % 4 else reg

-- An entry of `capabilities_`: the identifier and the place; `{0, 0}` for none.
pub record Capability : Type 0 where
  pub cap_id : ℕ
  pub place : ℕ

abbrev pub max_capabilities : ℕ
max_capabilities = 16

-- The loop of `read_capabilities`; `read8` is `cfg_read8`. The list is the part of the array in front
-- of `cap`, which the writes stay behind of.
unfoldable pub read_loop : ℕ → (read8 : ℕ → ℕ) → ℕ → List Capability → Outcome (List Capability)
read_loop zero read8 next caps = out_of_fuel
read_loop (suc fuel) read8 next caps =
    let found : Capability = record { cap_id = read8 next; place = next } in
    let caps' = if read8 next == 0 then caps else caps ++ (found ∷ []) in
    let next' = read8 ((next + 1) % 256) in
    let again = read_loop fuel read8 next' caps' in
    if not (next' == 0) && ltb (length caps') max_capabilities then again else returns caps'

unfoldable pub read_capabilities : ℕ → Space → (bus dev fun : ℕ) → Outcome (List Capability)
unfolding read_loop pci_config_read8 pci_config_read32
read_capabilities fuel space bus dev fun =
    let ptr = pci_config_read32 space bus dev fun 52 in
    read_loop fuel (pci_config_read8 space bus dev fun) (ptr % 256 - ptr % 4) []

-- `get_cap` of an identifier other than 0.
unfoldable pub get_cap : List Capability → ℕ → ℕ
get_cap [] cap_id = 0
get_cap (c ∷ cs) cap_id =
    let rest = get_cap cs cap_id in if c.cap_id == cap_id then c.place else rest

-- `pci_dev`, less the capabilities and the MSI-X table.
pub record PciDev : Type 0 where
  pub bus : ℕ
  pub dev : ℕ
  pub device_id : ℕ
  pub vendor_id : ℕ

-- `descriptor_t`; `p_dev` is `none` for NULL.
pub record Descriptor : Type 0 where
  pub device_id : ℕ
  pub vendor_id : ℕ
  pub p_dev : Option PciDev

abbrev pub matches : Descriptor → PciDev → Bool
matches t d = (d.device_id == t.device_id) && (d.vendor_id == t.vendor_id)

abbrev pub found_or : Option PciDev → PciDev → Option PciDev
found_or none d = some d
found_or (some other) d = some other

-- The loop over the targets for a device that is there: the first that matches, and `break`.
unfoldable pub offer : List Descriptor → PciDev → List Descriptor
offer [] d = []
offer (t ∷ ts) d =
    let rest = offer ts d in
    if matches t d then record t { p_dev = found_or t.p_dev d } ∷ ts else t ∷ rest

-- What is at a place of the bus.
abbrev pub device_at : Space → (bus dev : ℕ) → PciDev
device_at space bus dev =
    let dev_vend = pci_config_read32 space bus dev 0 0 in
    record { bus = bus; dev = dev; device_id = high16 dev_vend; vendor_id = low16 dev_vend }

unfoldable pub probe : Space → (bus dev : ℕ) → List Descriptor → List Descriptor
unfolding pci_config_read32 offer
probe space bus dev targets =
    let d = device_at space bus dev in if d.vendor_id == 65535 then targets else offer targets d

-- The inner loop, for `n` devices from `dev` on, and the outer one, for `n` buses from `bus` on.
unfoldable pub scan_bus : ℕ → Space → (bus dev : ℕ) → List Descriptor → List Descriptor
unfolding probe
scan_bus zero space bus dev targets = targets
scan_bus (suc n) space bus dev targets =
    scan_bus n space bus (suc dev) (probe space bus dev targets)

unfoldable pub scan : ℕ → Space → (bus : ℕ) → List Descriptor → List Descriptor
unfolding scan_bus
scan zero space bus targets = targets
scan (suc n) space bus targets = scan n space (suc bus) (scan_bus 30 space bus 0 targets)

unfoldable pub find_devices : Space → List Descriptor → Kerror × List Descriptor
unfolding scan
find_devices space [] = (inval, [])
find_devices space (t ∷ ts) = (ok, scan 254 space 0 (t ∷ ts))

-- `msix_entry_t`
pub record MsixEntry : Type 0 where
  pub message_address_low : ℕ
  pub message_address_high : ℕ
  pub message_data : ℕ
  pub vector_control : ℕ

-- `msix_table_size_` of a message control register, and the table that `enable_msix` writes.
abbrev pub table_size : ℕ → ℕ
table_size message_control = message_control / 65536 % 1024 + 1

-- The loop, for `n` entries of the memory from the entry `i` on.
unfoldable pub reset_table : (n i : ℕ) → (ℕ → MsixEntry) → List MsixEntry
reset_table zero i memory = []
reset_table (suc n) i memory =
    record (memory i) { message_address_low = 0; vector_control = 1 } ∷ reset_table n (suc i) memory

-- `0xFEE00000 | (id << 12)` in 32 bits: of the bits that `id` has behind the lowest eight, the constant
-- leaves two open, those with the numbers 20 and 24.
abbrev pub message_address : (id : ℕ) → ℕ
message_address id =
    4276092928 + id % 256 * 4096 + id / 256 % 2 * 1048576 + id / 4096 % 2 * 16777216

-- The entry that `request_msix` writes; `lapic_id` is what `local_apic::id` reads, all of its 32 bits.
abbrev pub msix_entry : (lapic_id irq : ℕ) → MsixEntry
msix_entry lapic_id irq = record {
  message_address_low = message_address lapic_id;
  message_address_high = 0;
  message_data = irq;
  vector_control = 0;
}

-- The vector as a `uint8_t`: 255 for -1.
abbrev pub as_byte : Option ℕ → ℕ
as_byte none = 255
as_byte (some irq) = irq % 256

-- The search for an entry that is not used, and the write to it: its place and the table.
unfoldable pub put_msix : List MsixEntry → MsixEntry → Option (ℕ × List MsixEntry)
put_msix [] new = none
put_msix (e ∷ es) new =
    let rest = put_msix es new in
    if 0 == e.message_address_low
    then some (0, new ∷ es)
    else elim rest [ none ↦ none | some r ↦ some (suc r.0, e ∷ r.1) ]

-- The end of `request_msix`, with what `request_irq` gave; it is not called when the table is full.
unfoldable pub with_vector :
    (lapic_id : ℕ)
    → IrqManager
    → List MsixEntry
    → Option ℕ × IrqManager
    → (Kerror × ℕ) × List MsixEntry × IrqManager
unfolding put_msix
with_vector lapic_id irqs table requested =
    elim (put_msix table (msix_entry lapic_id (as_byte requested.0))) [
      | none ↦ ((nomem, 65535), table, irqs)
      | some put ↦ ((ok, put.0), put.1, requested.1)
    ]

unfoldable pub request_msix :
    Routines
    → (lapic_id : ℕ) → IrqManager
    → List MsixEntry
    → (handler owner context : Ptr) → (Kerror × ℕ) × List MsixEntry × IrqManager
unfolding request_irq with_vector
request_msix r lapic_id irqs table handler owner context =
    if handler == null
    then ((inval, 65535), table, irqs)
    else with_vector lapic_id irqs table (request_irq r irqs handler owner context)

unfoldable pub free_msix : List MsixEntry → ℕ → List MsixEntry
free_msix [] vector = []
free_msix (e ∷ es) zero =
    record e { message_address_low = 0; message_data = 0; vector_control = 1 } ∷ es
free_msix (e ∷ es) (suc vector) = e ∷ free_msix es vector
