-- ===== src/Lib.antt =====
-- Verification of otrix, a small x86_64 unikernel in C++: its core data structures, the scheduler
-- of its threads, its network stack up to TCP sockets, and the parts of its drivers that carry
-- logic, translated from the source and proved against mathematical descriptions of what they do.
-- Paths are from the root of the repository.
--
-- The parts and how they interact. Every queue of the kernel is an intrusive list
-- (common/include/common/list.h): a ring of nodes inside the objects that it lists. The hash map
-- (common/include/common/hash_map.hpp) is an array of such lists. The heap (kernel/kmem.cpp)
-- threads one through its free blocks, in address order. The scheduler (kernel/kthread.cpp) has
-- one for the runnable and one for the blocked threads of each priority. Its callers block and
-- wake threads, from wait queues (kernel/waitq.cpp) that semaphores, mutexes and message queues
-- share; the timer interrupt wakes those whose deadline has passed. The timer service
-- (kernel/timer_service.cpp) keeps its pending and its free task descriptors in two such lists,
-- and a thread of its own runs the tasks. A network packet is a socket buffer
-- (net/include/net/sockbuf.hpp) with room for headers in front; the network layer (net/ipv4.cpp)
-- checks what it receives and gives it to the handlers that are subscribed for its protocol; ARP
-- (net/arp.cpp) keeps the table of link addresses, and ICMP (net/icmp.cpp) answers pings and
-- waits for the answers to its own on a semaphore. The TCP layer (net/tcp.cpp) is one such
-- handler: it has a hash map of the listening and one of the connected sockets
-- (net/tcp_socket.cpp), gives each segment to one of them, and answers those of no socket.
-- Packets come and go through the network driver (dev/virtio_net.cpp), which frames them and
-- hands them over the queues of a virtio device (dev/virtio.cpp), which is found on the PCI bus
-- (dev/pci.cpp) and whose interrupts reach the driver by a vector of the interrupt manager
-- (arch/x86_64/irq_manager.cpp). Where the interrupt controllers are is read from the ACPI tables
-- (dev/acpi.cpp).
--
-- Which file models which part:
--
--   Prelude.antt          the libraries' names, Boolean tests, lists, and Outcome: how a call ends
--   Error.antt            common/error.h, `kerror_t`
--   IntrusiveList.antt    common/list.h; `intrusive_list_push_back` is `push_back`, and so on
--   HashMap.antt          `hash_map` of common/hash_map.hpp
--   HashMap/Pooled.antt   `pooled_hash_map` of common/hash_map.hpp, with its pool of entries
--   Scheduler.antt        class `scheduler` of kernel/kthread.cpp, its operations by their names
--   Scheduler/TimerIrq.antt  `scheduler::handle_timer_irq`
--   TimerService.antt     class `timer_service` of kernel/timer_service.cpp
--   Kmem.antt             kernel/kmem.cpp: the heap, its operations by their names
--   Sync.antt             kernel/waitq.cpp, semaphore.cpp, mutex.cpp and msgq.cpp
--   Net.antt              the byte swaps of common/utils.h
--   Net/Checksum.antt     `ip_checksum` of net/ipv4.hpp
--   Net/SockBuf.antt      class `sockbuf` of net/sockbuf.hpp
--   Net/Ipv4.antt         `ipv4::subscribe_to_rx` and `ipv4::process_packet`
--   Net/Arp.antt          class `arp` of net/arp.cpp
--   Net/Tcp.antt          class `tcp` of net/tcp.cpp and net/tcp.hpp
--   Net/TcpSocket.antt    class `tcp_socket` of net/tcp_socket.cpp: the segments of a connection
--   Net/TcpSocket/Listen.antt  the same class: listening, the handshake, and the dispatch by state
--   Net/TcpSocket/Stream.antt  the same class: `send` and `recv`
--   Net/Icmp.antt         class `icmp` of net/icmp.cpp
--   Dev/Virtio.antt       the queues of class `virtio_dev` of dev/virtio.cpp
--   Dev/VirtioNet.antt    dev/virtio_net.cpp: class `virtio_net`
--   Dev/Pci.antt          dev/pci.cpp: the configuration space and class `pci_dev`
--   Dev/Acpi.antt         dev/acpi.cpp: the tables, read from a memory of bytes
--   Arch/IrqManager.antt  class `irq_manager` of arch/x86_64/irq_manager.cpp
--
-- The other files prove: the children of a file are named for what they prove, and a file
-- Tests.antt has concrete states and the theorems at them.
--
-- State. A pointer is a natural number, an address, and NULL is 0. The memory of the `next` and
-- `prev` members is a pair of functions on addresses; an operation returns the new memory, with
-- its writes in the order of the source, so that aliasing is as in the source. An object is
-- identified with the address of its list node, and so `container_of` is the identity, but in the
-- heap, where a node lies 8 bytes into its block and the size of a used block is the word that is
-- `next` in a free one. An access to a list node through NULL is an access at address 0, since
-- the kernel maps page 0; only a call through a NULL function pointer, the use of a thread that
-- does not exist, and a listening socket without its cache, are faults of the model. Arrays of
-- queues are functions on indices; theorems assume indices in range where it matters. The link's
-- addresses are numbers of 48 bits, and what ARP sends is a result, with the address that it goes
-- to. A record has the members of the class it models and, for the scheduler, the members of the
-- threads and the deadline that the local APIC was armed with last.
--
-- The central predicates: `IsList m h xs` says that in the memory `m` the list with head `h` has
-- the nodes `xs`, in order; `Owns` says this of a table of lists that share no node.
-- `Scheduler.Queues.IsValid` says that each queue is such a list, that its threads have its
-- priority and a state that fits it, and that the running thread is in its run queue.
--
-- Bounds and fuel. `kASSERT` loops for ever when it fails: the outcome `spins`. A loop over links
-- has fuel, with `out_of_fuel` when it is used up; theorems state how much is enough: one round
-- for each node, and one more where the loop looks at the end. For the timer interrupt the fuel
-- is that of each run of its inner loop. The loops of `send` and `recv` have as much fuel as
-- there are bytes and segments, the loop over used buffers one round for each, and that over
-- capabilities the size of the array. The searches of the heap have one round for each free
-- block, the refill of the network driver one for each missing buffer and one more, and the loop
-- over the entries of the MADT one for each entry and one more. Deadlines and clock readings are
-- 64-bit numbers; the pointers and sizes of a socket buffer wrap around at 2 ^ 64, the sum of a
-- checksum, sequence numbers and counters of interrupts at 2 ^ 32, the indices of a virtio queue
-- at 2 ^ 16. `preempt_disable_` is an int that is not bounded here.
--
-- Not modelled: the context switch itself, so a call of `schedule` ends with the state in which
-- the next thread runs; the construction of threads and their stacks; what handlers do with a
-- packet, of which they leave the table of handlers and the IP header alone; the interrupt flag:
-- the scheduler's calls run with interrupts off, and elsewhere a call that another may come
-- between has parts of its own; the block and console drivers above the virtio queues and the
-- construction of the network driver, the sleep of the timer service's thread between its tasks
-- and of a wait queue's threads in the scheduler, what the network layer sends, what becomes of
-- the hash map's links when a socket is bound while it is in a table, and assembly. What the
-- other contexts do while a call of a socket waits is a list of the states it finds; what a
-- device answers to a read of its registers is a parameter. What `arch_tsc` and the conversion to
-- clock ticks return are parameters.
pub mod Arch
pub mod Dev
pub mod Error
pub mod HashMap
pub mod IntrusiveList
pub mod Kmem
pub mod Net
pub mod Prelude
pub mod Scheduler
pub mod Sync
pub mod TimerService
