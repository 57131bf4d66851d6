-- ===== src/Dev/Pci/Search.antt =====
-- `find_devices`: the devices that it finds.
use otrix.Prelude.{
  ℕ, zero, suc, ◌+◌, ◌≤◌, ◌<◌, ◌≡◌, ◌≢◌, refl, sym, subst, ◌∙◌, List, [], ◌∷◌, Bool, true, false,
  ◌==◌, ==_iff, ne→==, if◌then◌else◌, Bool-cases, inl, inr, Option, none, some, arith,
}
use otrix.Error.{ok}
use otrix.Dev.Pci.{
  Space, PciDev, Descriptor, matches, found_or, offer, device_at, probe, scan_bus, scan,
  find_devices,
}

abbrev is_some : Option PciDev → Bool
is_some none = false
is_some (some d) = true

found_or-is_some : (o : Option PciDev) (d : PciDev) → is_some (found_or o d) ≡ true
found_or-is_some none d = refl
found_or-is_some (some x) d = refl

-- Some target wants the device; the first that does has a device.
abbrev pub wanted : List Descriptor → PciDev → Bool
wanted [] d = false
wanted (t ∷ ts) d = if matches t d then true else wanted ts d

abbrev pub served : List Descriptor → PciDev → Bool
served [] d = false
served (t ∷ ts) d = if matches t d then is_some t.p_dev else served ts d

offer-wanted : (ts : List Descriptor) (d e : PciDev) → wanted (offer ts e) d ≡ wanted ts d
unfolding offer
offer-wanted [] d e = refl
offer-wanted (t ∷ ts) d e = elim (Bool-cases (matches t e)) [
  | inl m ↦ rw (offer, m) refl
  | inr m ↦ rw (offer, m, offer-wanted ts d e) refl
]

offer-served :
    (ts : List Descriptor) (d : PciDev) → wanted ts d ≡ true → served (offer ts d) d ≡ true
unfolding offer
offer-served [] d w = w
offer-served (t ∷ ts) d w = elim (Bool-cases (matches t d)) [
  | inl m ↦ rw (offer, m, m) (found_or-is_some t.p_dev d)
  | inr m ↦ rw (offer, m, m) (offer-served ts d (rw m at w))
]

offer-keeps :
    (ts : List Descriptor) (d e : PciDev) → served ts d ≡ true → served (offer ts e) d ≡ true
unfolding offer
offer-keeps [] d e s = s
offer-keeps (t ∷ ts) d e s = elim (Bool-cases (matches t e)) [
  | inl m ↦ elim (Bool-cases (matches t d)) [
    | inl k ↦ rw (offer, m, k) (found_or-is_some t.p_dev e)
    | inr k ↦ rw (offer, m, k) (rw k at s)
  ]
  | inr m ↦ elim (Bool-cases (matches t d)) [
    | inl k ↦ rw (offer, m, k) (rw k at s)
    | inr k ↦ rw (offer, m, k) (offer-keeps ts d e (rw k at s))
  ]
]

module _ (space : Space) (d : PciDev) where
  -- A target waits for the device `d`, or has one.
  probe-wanted :
      (bus dev : ℕ) (ts : List Descriptor) → wanted (probe space bus dev ts) d ≡ wanted ts d
  unfolding probe
  probe-wanted bus dev ts = elim (Bool-cases ((device_at space bus dev).vendor_id == 65535)) [
    | inl e ↦ rw (probe, e) refl
    | inr e ↦ rw (probe, e) (offer-wanted ts d (device_at space bus dev))
  ]

  probe-keeps :
      (bus dev : ℕ) (ts : List Descriptor)
      → served ts d ≡ true
      → served (probe space bus dev ts) d ≡ true
  unfolding probe
  probe-keeps bus dev ts s = elim (Bool-cases ((device_at space bus dev).vendor_id == 65535)) [
    | inl e ↦ rw (probe, e) s
    | inr e ↦ rw (probe, e) (offer-keeps ts d (device_at space bus dev) s)
  ]

  scan_bus-wanted :
      (n bus dev : ℕ) (ts : List Descriptor) → wanted (scan_bus n space bus dev ts) d ≡ wanted ts d
  unfolding scan_bus
  scan_bus-wanted zero bus dev ts = refl
  scan_bus-wanted (suc n) bus dev ts =
      scan_bus-wanted n bus (suc dev) (probe space bus dev ts) ∙ probe-wanted bus dev ts

  scan_bus-keeps :
      (n bus dev : ℕ) (ts : List Descriptor)
      → served ts d ≡ true
      → served (scan_bus n space bus dev ts) d ≡ true
  unfolding scan_bus
  scan_bus-keeps zero bus dev ts s = s
  scan_bus-keeps (suc n) bus dev ts s =
      scan_bus-keeps n bus (suc dev) (probe space bus dev ts) (probe-keeps bus dev ts s)

  scan-keeps :
      (n bus : ℕ) (ts : List Descriptor)
      → served ts d ≡ true
      → served (scan n space bus ts) d ≡ true
  unfolding scan
  scan-keeps zero bus ts s = s
  scan-keeps (suc n) bus ts s = scan-keeps n (suc bus) _ (scan_bus-keeps 30 bus 0 ts s)

  probe-serves :
      (bus dev : ℕ) (ts : List Descriptor)
      → device_at space bus dev ≡ d
      → d.vendor_id ≢ 65535
      → wanted ts d ≡ true
      → served (probe space bus dev ts) d ≡ true
  unfolding probe
  probe-serves bus dev ts at real w =
      let there : (d.vendor_id == 65535) ≡ false = ne→== real in
      subst (λ x. served (if x.vendor_id == 65535 then ts else offer ts x) d ≡ true) (sym at)
        (rw there (offer-served ts d w))

  scan_bus-serves :
      (n bus dev k : ℕ) (ts : List Descriptor)
      → device_at space bus k ≡ d
      → d.vendor_id ≢ 65535
      → wanted ts d ≡ true
      → dev ≤ k
      → k < dev + n
      → served (scan_bus n space bus dev ts) d ≡ true
  unfolding scan_bus
  scan_bus-serves zero bus dev k ts at real w le lt = absurd (omega arith)
  scan_bus-serves (suc n) bus dev k ts at real w le lt = elim (Bool-cases (dev == k)) [
    | inl e ↦ scan_bus-keeps n bus (suc dev) (probe space bus dev ts) (
        probe-serves bus dev ts
          (subst (λ x. device_at space bus x ≡ d) (sym ((==_iff dev k).0 e)) at) real w)
    | inr e ↦
        scan_bus-serves n bus (suc dev) k (probe space bus dev ts) at real
          (probe-wanted bus dev ts ∙ w) (ground arith) (omega arith)
  ]

  scan-serves :
      (n bus b k : ℕ) (ts : List Descriptor)
      → device_at space b k ≡ d
      → d.vendor_id ≢ 65535
      → wanted ts d ≡ true
      → bus ≤ b
      → b < bus + n
      → k < 30
      → served (scan n space bus ts) d ≡ true
  unfolding scan
  scan-serves zero bus b k ts at real w le lt small = absurd (omega arith)
  scan-serves (suc n) bus b k ts at real w le lt small = elim (Bool-cases (bus == b)) [
    | inl e ↦ scan-keeps n (suc bus) _ (
        scan_bus-serves 30 bus 0 k ts
          (subst (λ x. device_at space x k ≡ d) (sym ((==_iff bus b).0 e)) at) real w (omega arith)
          (omega arith))
    | inr e ↦
        scan-serves n (suc bus) b k _ at real (scan_bus-wanted 30 bus 0 ts ∙ w) (ground arith)
          (omega arith) small
  ]

-- A device in one of the first 254 buses and the first 30 places that a target asks for is not missed:
-- after the search the first target that asks for such a device has one.
pub find_devices-served :
    (space : Space) (bus dev : ℕ) (t : Descriptor) (ts : List Descriptor)
    → bus < 254
    → dev < 30
    → (device_at space bus dev).vendor_id ≢ 65535
    → wanted (t ∷ ts) (device_at space bus dev) ≡ true
    → ((find_devices space (t ∷ ts)).0 ≡ ok)
      × (served (find_devices space (t ∷ ts)).1 (device_at space bus dev) ≡ true)
unfolding find_devices
find_devices-served space bus dev t ts b k real w = (
  refl,
  scan-serves space (device_at space bus dev) 254 0 bus dev (t ∷ ts) refl real w (omega arith)
      (omega arith) k,
)
