-- ===== src/Arch/IrqManager/Tests.antt =====
-- A table of handlers with the vector 32 allocated, and the theorem at it.
use otrix.Prelude.{◌≡◌, refl, ◌==◌, if◌then◌else◌, some, true, false, arith}
use otrix.Arch.IrqManager.{IrqEntry, IrqManager, Routines, idt_entry, request_irq}
use otrix.Arch.IrqManager.Vectors.{Busy, Dispatches, request_irq-Dispatches}

abbrev routines : Routines
routines = record { used = 1048576; unused = 1048592; exception = 1048608 }

abbrev entry : IrqEntry
entry = record { allocated = false; counter = 0; p_owner = 0; handler = 0; p_context = 0 }

abbrev one_taken : IrqManager
one_taken = record {
  irq_table = λ i. if i == 32 then record entry { allocated = true } else entry;
  idt_table = λ i. idt_entry 1048592;
}

one_taken-Busy : Busy one_taken 32 33
one_taken-Busy j le lt = let same : (j == 32) ≡ true = ground arith in rw same refl

request_irq-Dispatches_example :
    (m' : IrqManager) × (request_irq routines one_taken 5000 6000 7000 ≡ (some 33, m'))
    × Dispatches routines one_taken 5000 6000 7000 33 m'
    × (m'.irq_table 40 ≡ one_taken.irq_table 40)
    × (m'.idt_table 40 ≡ one_taken.idt_table 40)
request_irq-Dispatches_example =
    request_irq-Dispatches routines one_taken 5000 6000 7000 33 40 (omega arith) (omega arith)
      one_taken-Busy refl (omega arith) (omega arith) (omega arith)
