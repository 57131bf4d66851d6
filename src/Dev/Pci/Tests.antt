-- ===== src/Dev/Pci/Tests.antt =====
-- A bus with one device, its capabilities and its table of messages, and the theorems at them.
use otrix.Prelude.{
  ℕ, ◌+◌, ◌*◌, ◌%◌, ◌-◌, ◌≡◌, refl, [], ◌∷◌, ◌==◌, ==_iff, ne→==, if◌then◌else◌, none, true, false,
  arith,
}
use otrix.Arch.IrqManager.{IrqEntry, IrqManager, Routines, idt_entry}
use otrix.Dev.Pci.{
  Space, Capability, get_cap, pci_config_read32, pci_cfg_reg, Descriptor, MsixEntry, msix_entry,
}
use otrix.Dev.Pci.Capabilities.{NonNull}
use otrix.Dev.Pci.Enable.{Apply, MsixTable, enable_msix}
use otrix.Dev.Pci.Enable.Registers.{Keeps, Enabled, enable_msix-Enabled}

-- The device 1af4:1000 at 0:3; elsewhere nothing answers.
abbrev one_device : Space
one_device a = if a == pci_cfg_reg 0 3 0 0 then 268442356 else 4294967295

-- A list that is a ring: each capability leads to itself.
abbrev ring : ℕ → ℕ
ring p = if p % 4 == 0 then 9 else (if p % 4 == 1 then p - 1 else 0)

ring-NonNull : NonNull ring
ring-NonNull = record {
  ids = λ p at. rw at (omega arith);
  links = λ p at. let one : ((p + 1) % 256) % 4 ≡ 1 = omega arith in rw one (omega arith);
}

-- The null capability at 64 leads to itself.
abbrev null_ring : ℕ → ℕ
null_ring p = if p == 65 then 64 else 0

abbrev target : Descriptor
target = record { device_id = 4096; vendor_id = 6900; p_dev = none }

abbrev routines : Routines
routines = record { used = 1048576; unused = 1048592; exception = 1048608 }

abbrev irq_entry : IrqEntry
irq_entry = record { allocated = false; counter = 0; p_owner = 0; handler = 0; p_context = 0 }

abbrev all_free : IrqManager
all_free = record { irq_table = λ i. irq_entry; idt_table = λ i. idt_entry 1048592 }

abbrev all_taken : IrqManager
all_taken = record all_free { irq_table = λ i. record irq_entry { allocated = true } }

abbrev free_entry : MsixEntry
free_entry = record {
  message_address_low = 0;
  message_address_high = 0;
  message_data = 0;
  vector_control = 1;
}

-- A device that keeps what is written to a register.
abbrev keep : Apply
keep space w a = if a == w.address then w.value else space a

keep-Keeps : Keeps keep
keep-Keeps = record {
  same = λ space a v. let test : (a == a) ≡ true = (==_iff a a).1 refl in rw test refl;
  other = λ space a b v ne. let test : (b == a) ≡ false = ne→== ne in rw test refl;
}

abbrev no_table : MsixTable
no_table = record { address = 0; size = 0; entries = [] }

abbrev msix_cap : Capability
msix_cap = record { cap_id = 17; place = 80 }

abbrev masked_memory : ℕ → ℕ → MsixEntry
masked_memory address i = msix_entry 0 40

-- The device has a table of four entries, and the capability at 80.
abbrev with_msix : Space
with_msix a =
    if a == pci_cfg_reg 0 3 0 80
    then 17 + 3 * 65536
    else (if a == pci_cfg_reg 0 3 0 84 then 8192 else 0)

enable_msix-Enabled_example :
    Enabled with_msix 0 3 0 80
      (λ i. 65536)
      (enable_msix keep with_msix 0 3 0 (msix_cap ∷ []) (λ i. 65536) masked_memory no_table true)
unfolding get_cap pci_config_read32
enable_msix-Enabled_example =
    enable_msix-Enabled keep with_msix 0 3 0 (msix_cap ∷ []) (λ i. 65536) masked_memory no_table
      keep-Keeps refl (omega arith) (omega arith) refl (omega arith)
