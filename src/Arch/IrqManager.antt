-- ===== src/Arch/IrqManager.antt =====
-- arch/x86_64/irq_manager.cpp and arch/irq_manager.hpp: the table of handlers, the vectors that are handed
-- out, and the entries of the interrupt descriptor table. What the int -1 means is `none`.
use otrix.Prelude.{
  ℕ, zero, suc, ◌+◌, ◌/◌, ◌%◌, List, [], ◌∷◌, Bool, true, false, not, ◌&&◌, ◌==◌, ltb, leb,
  if◌then◌else◌, Option, none, some,
}
use otrix.IntrusiveList.{Ptr, null, update}
pub mod Vectors
mod Tests

-- `irq_manager::irq_entry`, with the addresses of the owner's name, the handler and its argument.
pub record IrqEntry : Type 0 where
  pub allocated : Bool
  pub counter : ℕ
  pub p_owner : Ptr
  pub handler : Ptr
  pub p_context : Ptr

-- `irq_manager::idt`
pub record Idt : Type 0 where
  pub offset_low : ℕ
  pub cs : ℕ
  pub ist : ℕ
  pub type_dpl : ℕ
  pub offset_mid : ℕ
  pub offset_high : ℕ
  pub reserved : ℕ

-- `irq_table` and `idt_table`
pub record IrqManager : Type 0 where
  pub irq_table : ℕ → IrqEntry
  pub idt_table : ℕ → Idt

abbrev pub num_irq : ℕ
num_irq = 256

abbrev pub first_user_irq_num : ℕ
first_user_irq_num = 32

-- The addresses of the three routines in assembly that an entry can lead to.
pub record Routines : Type 0 where
  pub used : Ptr
  pub unused : Ptr
  pub exception : Ptr

abbrev pub idt_entry : Ptr → Idt
idt_entry handler_addr = record {
  offset_low = handler_addr % 65536;
  cs = 8;
  ist = 0;
  type_dpl = 142;
  offset_mid = handler_addr / 65536 % 65536;
  offset_high = handler_addr / 4294967296 % 4294967296;
  reserved = 0;
}

unfoldable pub set_entry : IrqManager → Ptr → ℕ → IrqManager
set_entry m handler entry_num = record m {
  idt_table = update m.idt_table entry_num (idt_entry handler);
}

-- `n` entries from `i` on that lead to `handler`.
unfoldable pub set_entries : ℕ → IrqManager → Ptr → ℕ → IrqManager
unfolding set_entry
set_entries zero m handler i = m
set_entries (suc n) m handler i = set_entries n (set_entry m handler i) handler (suc i)

-- The two loops of `generate_idt`.
unfoldable pub generate_idt : Routines → IrqManager → IrqManager
unfolding set_entries
generate_idt r m = set_entries 224 (set_entries 32 m r.exception 0) r.unused first_user_irq_num

-- `init`: no vector is allocated. The descriptor table is loaded by an instruction.
unfoldable pub init : Routines → IrqManager → IrqManager
unfolding generate_idt
init r m = generate_idt r (record m {
  irq_table =
      λ i. if ltb i num_irq then record (m.irq_table i) { allocated = false } else m.irq_table i;
})

-- The search of `request_irq`: the first of `n` vectors from `i` on that is not allocated.
unfoldable pub first_free : ℕ → IrqManager → ℕ → Option ℕ
first_free zero m i = none
first_free (suc n) m i =
    let further = first_free n m (suc i) in if (m.irq_table i).allocated then further else some i

-- What `request_irq` writes for the vector that it found.
unfoldable pub allocate : Routines → IrqManager → (handler owner context : Ptr) → ℕ → IrqManager
unfolding set_entry
allocate r m handler owner context i =
    set_entry
      (record m {
        irq_table = update m.irq_table i (record {
          allocated = true;
          counter = 0;
          p_owner = owner;
          handler = handler;
          p_context = context;
        });
      })
      r.used i

abbrev pub allocated_at :
    Routines → IrqManager → (handler owner context : Ptr) → Option ℕ → Option ℕ × IrqManager
allocated_at r m handler owner context none = (none, m)
allocated_at r m handler owner context (some i) = (some i, allocate r m handler owner context i)

unfoldable pub request_irq :
    Routines → IrqManager → (handler owner context : Ptr) → Option ℕ × IrqManager
unfolding first_free allocate
request_irq r m handler owner context =
    allocated_at r m handler owner context (first_free 224 m first_user_irq_num)

unfoldable pub free_irq : IrqManager → ℕ → IrqManager
free_irq m irq =
    if leb first_user_irq_num irq && ltb irq num_irq
    then record m {
      irq_table = update m.irq_table irq (record (m.irq_table irq) { allocated = false });
    }
    else m

-- A call of a handler with its argument.
pub record Call : Type 0 where
  pub function : Ptr
  pub argument : Ptr

-- `irq_handler`; `active` is what the local APIC gives, `none` for a negative number. Between the calls
-- to the scheduler that hold preemption off.
unfoldable pub irq_handler : IrqManager → Option ℕ → IrqManager × List Call
irq_handler m none = (m, [])
irq_handler m (some irq_n) =
    let e = m.irq_table irq_n in
    if e.allocated
    then (
      record m {
        irq_table = update m.irq_table irq_n (record e { counter = (e.counter + 1) % 4294967296 });
      },
      if e.handler == null
          then []
          else record { function = e.handler; argument = e.p_context } ∷ [],
    )
    else (m, [])
