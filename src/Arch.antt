-- ===== src/Arch.antt =====
-- arch/x86_64: the interrupts. The rest of the architecture is assembly and device registers.
pub mod IrqManager
