-- ===== src/Dev/Pci/Enable/Registers.antt =====
-- What `enable_msix` leaves in the registers of the device and in the table.
use otrix.Prelude.{
  ℕ, zero, suc, length, ◌+◌, ◌*◌, ◌/◌, ◌%◌, ◌^◌, ◌≤◌, ◌<◌, ◌≡◌, ◌≢◌, refl, sym, ap, ◌∙◌, List, [],
  ◌∷◌, arith, Bool, true, false, ◌==◌, ==_iff, ne→==,
}
use otrix.Error.{Kerror, ok}
use otrix.IntrusiveList.{Ptr, null}
use otrix.Dev.Pci.{
  Space, Capability, MsixEntry, pci_cfg_reg, pci_config_read32, pci_config_write32, get_cap,
  table_size, reset_table,
}
use otrix.Dev.Pci.Enable.{
  Apply, MsixTable, set_bit, clear_bit, reg_status_command, cap_id_msix, table_address, enable_msix,
}

-- The device keeps what is written to a register, and its other registers stay.
pub record Keeps (apply : Apply) : Type 0 where
  pub same : (space : Space) (a v : ℕ) → apply space (record { address = a; value = v }) a ≡ v
  pub other :
      (space : Space) (a b v : ℕ)
      → b ≢ a
      → apply space (record { address = a; value = v }) b ≡ space b

-- A bit of a register.
abbrev pub bit : ℕ → ℕ → ℕ
bit k v = v / 2 ^ k % 2

-- An entry of the table that no interrupt comes from, and that `request_msix` finds free.
abbrev pub AllFree : List MsixEntry → Type 0
AllFree [] = Unit {0}
AllFree (e ∷ es) = (e.message_address_low ≡ 0) × (e.vector_control ≡ 1) × AllFree es

reset_table-AllFree : (n i : ℕ) (memory : ℕ → MsixEntry) → AllFree (reset_table n i memory)
unfolding reset_table
reset_table-AllFree zero i memory = tt
reset_table-AllFree (suc n) i memory = (refl, refl, reset_table-AllFree n (suc i) memory)

length-reset_table : (n i : ℕ) (memory : ℕ → MsixEntry) → length (reset_table n i memory) ≡ n
unfolding reset_table
length-reset_table zero i memory = refl
length-reset_table (suc n) i memory = ap suc (length-reset_table n (suc i) memory)

-- The number of the table's entries by the eleven bits of the message control, which hold one less.
abbrev pub entries_of : (message_control : ℕ) → ℕ
entries_of message_control = message_control / 65536 % 2048 + 1

-- A capability lies in a register of its own, behind the header of 64 bytes.
cfg_reg-ne :
    (bus dev fun cap : ℕ)
    → 64 ≤ cap
    → cap < 256
    → pci_cfg_reg bus dev fun 4 ≢ pci_cfg_reg bus dev fun cap
cfg_reg-ne bus dev fun cap low high e = absurd (omega arith)

-- The register behind it is another one, and not that of the command either.
cfg_reg-ne_next :
    (bus dev fun cap : ℕ)
    → 64 ≤ cap
    → cap < 252
    → cap % 4 ≡ 0
    → (pci_cfg_reg bus dev fun (cap + 4) ≢ pci_cfg_reg bus dev fun cap)
      × (pci_cfg_reg bus dev fun (cap + 4) ≢ pci_cfg_reg bus dev fun 4)
cfg_reg-ne_next bus dev fun cap low high aligned =
    (λ e. absurd (omega arith), λ e. absurd (omega arith))

bit-set_bit10 : (v : ℕ) → bit 10 (set_bit 10 v) ≡ 1
bit-set_bit10 v = ground arith

bit31-unmask : (v : ℕ) → bit 31 (clear_bit 30 (set_bit 31 v)) ≡ 1
bit31-unmask v = ground arith

bit30-unmask : (v : ℕ) → bit 30 (clear_bit 30 (set_bit 31 v)) ≡ 0
bit30-unmask v = ground arith

rest-unmask : (v : ℕ) → clear_bit 30 (set_bit 31 v) % 2 ^ 30 ≡ v % 2 ^ 30
rest-unmask v = ground arith

-- Where a register of the table says that it is: its lowest three bits name a BAR, whose lowest four bits
-- are no address, and the others are a place behind it.
abbrev pub place_of : (bar : ℕ → ℕ) → ℕ → Ptr
place_of bar reg = (bar (reg % 8) / 16 * 16 + reg / 8 * 8) % 4294967296

table_address-place : (bar : ℕ → ℕ) (reg : ℕ) → table_address bar reg ≡ place_of bar reg
table_address-place bar reg = ap (λ n. n % 4294967296) (omega arith)

-- What `enable_msix` leaves of the registers `space` for a capability at `cap`: interrupts by pins are
-- disabled, MSI-X is enabled and its function not masked, the other bits of the message control are
-- kept; the table is where the register behind the capability says, it has the number of entries that
-- the message control says, and each of them is masked and free for `request_msix`.
abbrev pub Enabled :
    Space → (bus dev fun cap : ℕ) → (bar : ℕ → ℕ) → Kerror × Space × MsixTable → Type 0
Enabled space bus dev fun cap bar result =
    let command = pci_config_read32 result.1 bus dev fun reg_status_command in
    let control = pci_config_read32 result.1 bus dev fun cap in
    let before = pci_config_read32 space bus dev fun cap in
    (result.0 ≡ ok)
    × (bit 10 command ≡ 1)
    × (bit 31 control ≡ 1)
    × (bit 30 control ≡ 0)
    × (control % 2 ^ 30 ≡ before % 2 ^ 30)
    × (result.2.address ≡ place_of bar (pci_config_read32 space bus dev fun (cap + 4)))
    × (result.2.size ≡ entries_of before)
    × (length result.2.entries ≡ entries_of before)
    × AllFree result.2.entries

module _ (apply : Apply) (keeps : Keeps apply) (space : Space) (bus dev fun cap : ℕ) where
  abbrev at : ℕ → ℕ
  at reg = pci_cfg_reg bus dev fun reg

  abbrev s1 : Space
  s1 = apply space (pci_config_write32 bus dev fun cap (set_bit 31 (space (at cap))))

  abbrev s2 : Space
  s2 =
      apply s1 (
        pci_config_write32 bus dev fun reg_status_command (set_bit 10 (s1 (at reg_status_command))))

  abbrev s3 : Space
  s3 = apply s2 (pci_config_write32 bus dev fun cap (clear_bit 30 (s2 (at cap))))

  command-s3 :
      64 ≤ cap → cap < 256 → s3 (at reg_status_command) ≡ set_bit 10 (s1 (at reg_status_command))
  unfolding pci_config_write32
  command-s3 low high =
      keeps.other s2 (at cap) (at reg_status_command) _ (cfg_reg-ne bus dev fun cap low high)
      ∙ keeps.same s1 (at reg_status_command) _

  control-s3 : 64 ≤ cap → cap < 256 → s3 (at cap) ≡ clear_bit 30 (set_bit 31 (space (at cap)))
  unfolding pci_config_write32
  control-s3 low high =
      let other : at cap ≢ at reg_status_command =
        λ e. cfg_reg-ne bus dev fun cap low high (sym e) in
      keeps.same s2 (at cap) _
      ∙ ap (clear_bit 30)
          (keeps.other s1 (at reg_status_command) (at cap) _ other ∙ keeps.same space (at cap) _)

  next-s2 : 64 ≤ cap → cap < 252 → cap % 4 ≡ 0 → s2 (at (cap + 4)) ≡ space (at (cap + 4))
  unfolding pci_config_write32
  next-s2 low high aligned =
      let (not_cap, not_command) = cfg_reg-ne_next bus dev fun cap low high aligned in
      keeps.other s1 (at reg_status_command) (at (cap + 4)) _ not_command
      ∙ keeps.other space (at cap) (at (cap + 4)) _ not_cap

  -- The table that the call makes.
  abbrev table : (bar : ℕ → ℕ) → (Ptr → ℕ → MsixEntry) → MsixTable
  table bar memory =
      let address = table_address bar (s2 (at (cap + 4))) in
      let size = table_size (space (at cap)) in
      record { address = address; size = size; entries = reset_table size 0 (memory address) }

  Enabled-s3 :
      (bar : ℕ → ℕ) (memory : Ptr → ℕ → MsixEntry)
      → 64 ≤ cap
      → cap < 252
      → cap % 4 ≡ 0
      → entries_of (space (at cap)) ≤ 1024
      → Enabled space bus dev fun cap bar (ok, s3, table bar memory)
  unfolding pci_config_read32
  Enabled-s3 bar memory low high aligned fits =
      let inside : cap < 256 = omega arith in
      let control = control-s3 low inside in
      let size : table_size (space (at cap)) ≡ entries_of (space (at cap)) = omega arith in
      (
        refl,
        ap (bit 10) (command-s3 low inside) ∙ bit-set_bit10 (s1 (at reg_status_command)),
        ap (bit 31) control ∙ bit31-unmask (space (at cap)),
        ap (bit 30) control ∙ bit30-unmask (space (at cap)),
        ap (λ v. v % 2 ^ 30) control ∙ rest-unmask (space (at cap)),
        ap (table_address bar) (next-s2 low high aligned)
            ∙ table_address-place bar (space (at (cap + 4))),
        size,
        length-reset_table (table_size (space (at cap))) 0 _ ∙ size,
        reset_table-AllFree (table_size (space (at cap))) 0 _,
      )

module _ (apply : Apply) (space : Space) (bus dev fun : ℕ) (caps : List Capability) (bar : ℕ → ℕ)
    (memory : Ptr → ℕ → MsixEntry) (t : MsixTable) where
  -- On a device that keeps what is written, with the capability in an aligned register behind the header
  -- and a table of at most 1024 entries, whose MSI-X this driver has not enabled yet, the call succeeds:
  -- interrupts by pins are disabled, MSI-X is enabled and its function not masked, the other bits of the
  -- message control are kept; the table is where the register behind the capability says, and each of its
  -- entries, as many as the message control says, is masked and free for `request_msix`.
  pub enable_msix-Enabled :
      Keeps apply
      → t.address ≡ null
      → 64 ≤ get_cap caps cap_id_msix
      → get_cap caps cap_id_msix < 252
      → get_cap caps cap_id_msix % 4 ≡ 0
      → entries_of (pci_config_read32 space bus dev fun (get_cap caps cap_id_msix)) ≤ 1024
      → Enabled space bus dev fun
          (get_cap caps cap_id_msix)
          bar
          (enable_msix apply space bus dev fun caps bar memory t true)
  unfolding enable_msix pci_config_read32
  enable_msix-Enabled keeps fresh low high aligned fits =
      let fresh_test : (t.address == null) ≡ true = (==_iff _ _).1 fresh in
      let found : (get_cap caps cap_id_msix == 0) ≡ false = ne→== (omega arith) in
      rw (fresh_test, found)
        (Enabled-s3 apply keeps space bus dev fun (get_cap caps cap_id_msix) bar memory low high
          aligned fits)

  -- Once the table is there the call does nothing, also when it is asked to disable MSI-X.
  enable_msix-again :
      (enable : Bool)
      → t.address ≢ null
      → enable_msix apply space bus dev fun caps bar memory t enable ≡ (ok, space, t)
  unfolding enable_msix
  enable_msix-again enable there =
      let test : (t.address == null) ≡ false = ne→== there in rw test refl
