-- ===== src/Dev/Pci/Msix.antt =====
-- `request_msix`: the entry of the table, the vector behind it, and the handler.
use otrix.Prelude.{
  ℕ, ◌/◌, ◌%◌, ◌≡◌, ◌≢◌, refl, sym, ap, ◌∙◌, List, [], ◌∷◌, ◌++◌, length, true, ◌==◌, ==_iff, ne→==,
  none, some,
}
use otrix.Error.{ok}
use otrix.IntrusiveList.{Ptr, null}
use otrix.Arch.IrqManager.{IrqManager, Routines}
use otrix.Arch.IrqManager.Vectors.{Busy, request_irq-none}
use otrix.Dev.Pci.{MsixEntry, msix_entry, put_msix, with_vector, request_msix}

-- The entries in front of the first that is not used.
abbrev pub Used : List MsixEntry → Type 0
Used [] = Unit
Used (e ∷ es) = (0 ≢ e.message_address_low) × Used es

put_msix-some :
    (front : List MsixEntry) (free : MsixEntry) (behind : List MsixEntry) (new : MsixEntry)
    → Used front
    → free.message_address_low ≡ 0
    → put_msix (front ++ free ∷ behind) new ≡ some (length front, front ++ new ∷ behind)
unfolding put_msix
put_msix-some [] free behind new used at =
    let unused : (0 == free.message_address_low) ≡ true = (==_iff _ _).1 (sym at) in
    rw (put_msix, unused) refl
put_msix-some (e ∷ es) free behind new used at =
    rw (put_msix, ne→== used.0, put_msix-some es free behind new used.1 at) refl

-- An entry that is not masked, of an interrupt with the vector `vector`, fixed and by edge, for the one
-- processor `id`: the address is 0xFEE, the identifier, and twelve bits that are 0.
pub record Sends (e : MsixEntry) (id vector : ℕ) : Type 0 where
  pub region : e.message_address_low / 1048576 ≡ 0xFEE
  pub destination : e.message_address_low / 4096 % 256 ≡ id
  pub physical : e.message_address_low % 4096 ≡ 0
  pub high : e.message_address_high ≡ 0
  pub data_vector : e.message_data % 256 ≡ vector
  pub fixed : e.message_data / 256 ≡ 0
  pub unmasked : e.vector_control % 2 ≡ 0

module _ (r : Routines) (lapic_id : ℕ) (irqs : IrqManager) (front behind : List MsixEntry)
    (free : MsixEntry) (handler owner context : Ptr) where
  abbrev table : List MsixEntry
  table = front ++ free ∷ behind

  with_vector-none :
      Used front
      → free.message_address_low ≡ 0
      → with_vector lapic_id irqs table (none, irqs)
        ≡ ((ok, length front), front ++ msix_entry lapic_id 255 ∷ behind, irqs)
  unfolding with_vector
  with_vector-none used at =
      rw (with_vector, put_msix-some front free behind (msix_entry lapic_id 255) used at) refl

  -- When no vector is free the call succeeds all the same: the entry gets the vector 255, which is
  -- another's, and no handler is registered.
  pub request_msix-exhausted :
      Used front
      → free.message_address_low ≡ 0
      → Busy irqs 32 256
      → handler ≢ null
      → request_msix r lapic_id irqs (front ++ free ∷ behind) handler owner context
        ≡ ((ok, length front), front ++ msix_entry lapic_id 255 ∷ behind, irqs)
  unfolding request_msix
  request_msix-exhausted used at busy live =
      rw (request_msix, ne→== live)
        (ap (with_vector lapic_id irqs table) (request_irq-none r irqs handler owner context busy))
      ∙ with_vector-none used at
