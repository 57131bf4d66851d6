-- ===== src/Dev.antt =====
-- The device drivers of dev/, and the ACPI tables.
pub mod Acpi
pub mod Virtio
pub mod VirtioNet
pub mod Pci
