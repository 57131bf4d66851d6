-- ===== src/Dev/Virtio.antt =====
-- dev/virtio.cpp and dev/include/dev/virtio.hpp: the virtqueues that every virtio driver exchanges
-- buffers through. The rings are shared with the device: `device_idx`, `used_flags` and `used_ring`
-- are what it wrote. An int is its 32-bit pattern, so that -1 is `minus_one`.
use otrix.Prelude.{
  ℕ, zero, suc, ◌+◌, ◌*◌, ◌-◌, ◌/◌, ◌%◌, Bool, true, false, not, ◌&&◌, ◌||◌, ◌==◌, ltb,
  if◌then◌else◌, List, [], ◌∷◌, Option, none, some, Outcome, returns, out_of_fuel, ◌>>=◌,
}
use otrix.Error.{Kerror, ok, nomem, inval}
use otrix.IntrusiveList.{Ptr, null, update}
pub mod Chain
pub mod Send
pub mod Irq
pub mod Create
mod Tests

abbrev pub minus_one : ℕ
minus_one = 4294967295

-- `virtq`, with the members of its descriptors by index and the two rings.
pub record Virtq : Type 0 where
  pub index : ℕ
  pub size : ℕ
  pub allocated_mem : Ptr
  pub desc_table : Ptr
  pub avail_ring_hdr : Ptr
  pub avail_ring_at : Ptr
  pub used_ring_hdr : Ptr
  pub used_ring_at : Ptr
  pub desc_ctx_at : Ptr
  pub desc_addr : ℕ → Ptr
  pub desc_len : ℕ → ℕ
  pub desc_flags : ℕ → ℕ
  pub desc_next : ℕ → ℕ
  pub desc_ctx : ℕ → Ptr
  pub avail_idx : ℕ
  pub avail_ring : ℕ → ℕ
  pub used_flags : ℕ
  pub device_idx : ℕ
  pub used_ring : ℕ → ℕ
  pub used_idx : ℕ
  pub num_free_descriptors : ℕ
  pub free_list : ℕ
  pub irq_handler : Ptr
  pub irq_handler_ctx : Ptr

-- A write to a register of the device.
pub record RegWrite : Type 0 where
  pub reg : ℕ
  pub value : ℕ

abbrev pub queue_address : ℕ
queue_address = 8

abbrev pub queue_select : ℕ
queue_select = 14

abbrev pub queue_notify : ℕ
queue_notify = 16

abbrev pub queue_msix_vector : ℕ
queue_msix_vector = 22

-- `VIRTQ_DESC_F_WRITE`; bit 0 of `used_flags` is `VIRTQ_USED_F_NO_NOTIFY`.
abbrev pub desc_f_write : ℕ
desc_f_write = 2

abbrev pub no_notify : ℕ → Bool
no_notify flags = flags % 2 == 1

-- The writes of `virtq_send_buffer` up to the notification: the head of the free list is taken,
-- filled and made available.
unfoldable pub put_available : Virtq → Ptr → ℕ → Bool → Ptr → Virtq
put_available q buffer buffer_size device_writable buf_ctx =
    let idx = q.free_list in
    record q {
      free_list = q.desc_next idx;
      desc_ctx = update q.desc_ctx idx buf_ctx;
      num_free_descriptors = q.num_free_descriptors - 1;
      desc_addr = update q.desc_addr idx buffer;
      desc_len = update q.desc_len idx buffer_size;
      desc_flags = update q.desc_flags idx (if device_writable then desc_f_write else 0);
      desc_next = update q.desc_next idx 0;
      avail_ring = update q.avail_ring (q.avail_idx % q.size) idx;
      avail_idx = (q.avail_idx + 1) % 65536;
    }

unfoldable pub virtq_send_buffer : Virtq → Ptr → ℕ → Bool → Ptr → Kerror × Virtq × List RegWrite
unfolding put_available
virtq_send_buffer q buffer buffer_size device_writable buf_ctx =
    if (buffer == null) || (buffer_size == 0)
    then (inval, q, [])
    else (if (q.free_list == minus_one) || (q.num_free_descriptors == 0)
        then (nomem, q, [])
        else (let sent = put_available q buffer buffer_size device_writable buf_ctx in
            (
              ok,
              sent,
              if no_notify q.used_flags
                  then []
                  else record { reg = queue_notify; value = q.index } ∷ [],
            )))

-- A call of the queue's handler.
pub record Completion : Type 0 where
  pub data_ctx : Ptr
  pub addr : Ptr
  pub len : ℕ

-- One round of the loop of `handle_vq_irq`, behind the call of the handler.
unfoldable pub reclaim : Virtq → ℕ → Virtq
reclaim q desc_id = record q {
  desc_next = update q.desc_next desc_id (q.free_list % 65536);
  free_list = desc_id;
  used_idx = (q.used_idx + 1) % 65536;
  num_free_descriptors = q.num_free_descriptors + 1;
}

abbrev pub completion : Virtq → ℕ → Completion
completion q desc_id = record {
  data_ctx = q.desc_ctx desc_id;
  addr = q.desc_addr desc_id;
  len = q.desc_len desc_id;
}

-- The loop of `handle_vq_irq`: the queue it leaves and the calls of the handler, which leaves the
-- queue alone. `done` are the calls so far, the last one first.
unfoldable pub handle_vq_irq : ℕ → Virtq → List Completion → Outcome (Virtq × List Completion)
unfolding reclaim
handle_vq_irq zero q done = out_of_fuel
handle_vq_irq (suc fuel) q done =
    let desc_id = q.used_ring (q.used_idx % q.size) in
    let calls = if q.irq_handler == null then done else completion q desc_id ∷ done in
    let again = handle_vq_irq fuel (reclaim q desc_id) calls in
    if q.used_idx == q.device_idx then returns (q, done) else again

-- `(in + 4095) & ~4095`
abbrev pub vq_align : ℕ → ℕ
vq_align n = (n + 4095) / 4096 * 4096

-- `sizeof` of a descriptor, a ring's header and a used element.
abbrev pub descriptor_table_size : ℕ → ℕ
descriptor_table_size queue_len = 16 * queue_len

abbrev pub available_ring_size : ℕ → ℕ
available_ring_size queue_len = 4 + 2 * queue_len

abbrev pub used_ring_size : ℕ → ℕ
used_ring_size queue_len = 4 + 8 * queue_len

abbrev pub virtq_size : ℕ → ℕ
virtq_size queue_len =
    vq_align (descriptor_table_size queue_len + available_ring_size queue_len)
    + vq_align (used_ring_size queue_len)
    + 8 * queue_len

abbrev pub alloc_size : ℕ → ℕ
alloc_size queue_len = virtq_size queue_len + 4095

-- The queue that `virtq_create` makes in the memory `mem`, before the device knows of it.
unfoldable pub new_virtq : ℕ → ℕ → Ptr → Ptr → Ptr → Virtq
new_virtq index queue_len mem handler handler_ctx =
    let table = vq_align mem in
    let used = table + vq_align (descriptor_table_size queue_len + available_ring_size queue_len) in
    record {
      index = index;
      size = queue_len;
      allocated_mem = mem;
      desc_table = table;
      avail_ring_hdr = table + descriptor_table_size queue_len;
      avail_ring_at = table + descriptor_table_size queue_len + 4;
      used_ring_hdr = used;
      used_ring_at = used + 4;
      desc_ctx_at = used + vq_align (used_ring_size queue_len);
      desc_addr = λ i. 0;
      desc_len = λ i. 0;
      desc_flags = λ i. 0;
      desc_next = λ i. if i + 1 == queue_len then 65535 else if ltb i queue_len then i + 1 else 0;
      desc_ctx = λ i. null;
      avail_idx = 0;
      avail_ring = λ i. 0;
      used_flags = 0;
      device_idx = 0;
      used_ring = λ i. 0;
      used_idx = 0;
      num_free_descriptors = queue_len;
      free_list = 0;
      irq_handler = handler;
      irq_handler_ctx = handler_ctx;
    }

-- `virtq_create`: `queue_len` is what the size register reads, `vq` and `mem` are what the two
-- allocations return, and `vector` is what `request_msix` does.
unfoldable pub virtq_create :
    (index queue_len : ℕ) (vq mem : Ptr) (vector : Kerror × ℕ) (handler handler_ctx : Ptr)
    → Kerror × Option Virtq × List RegWrite
unfolding new_virtq
virtq_create index queue_len vq mem vector handler handler_ctx =
    let select : RegWrite = record { reg = queue_select; value = index } in
    if vq == null
    then (nomem, none, select ∷ [])
    else (if mem == null
        then (nomem, none, select ∷ [])
        else (let q = new_virtq index queue_len mem handler handler_ctx in
            let address : RegWrite = record { reg = queue_address; value = q.desc_table / 4096 } in
            let msix : List RegWrite = elim vector.0 [
              | ok ↦ record { reg = queue_msix_vector; value = vector.1 } ∷ []
              | _ ↦ []
            ] in
            (ok, some q, select ∷ address ∷ msix)))

-- `virtio_dev::negotiate_features`: all that the device offers but event indices, bit 29.
unfoldable pub negotiate_features : ℕ → ℕ
negotiate_features device_features =
    if device_features / 536870912 % 2 == 1 then device_features - 536870912 else device_features
