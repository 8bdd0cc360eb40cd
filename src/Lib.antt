-- ===== src/Lib.antt =====
-- ndiswrapper runs Windows network drivers in the Linux kernel: it loads the driver's image and
-- implements the functions of the Windows kernel that the driver imports. This library models parts
-- of the module's C code as functions on explicit states, and proves what they promise.
--
-- Base holds the shared helpers: tests and lists on the native numbers, signed integers with LONG's
-- wrap-around, stores, and the NTSTATUS values. The other modules follow the code:
--   * Dispatcher (ndiswrapper/driver/ntoskernel.c): grab_object, object_signaled and the Ke
--     functions of events, mutexes and semaphores, each one step on a Kernel of objects and wait
--     blocks, since the code holds dispatcher_lock (KeClearEvent and KeResetEvent do not, and fall
--     between those steps). Counting, Events and Mutex hold the theorems. Wait is
--     KeWaitForMultipleObjects, split into the code up to the first sleep and one pass of the loop
--     behind it; the signalling functions and the waits meet in the wait blocks and in `done`.
--   * Kdpc (ndiswrapper/driver/ntoskernel.c): the list of deferred procedure calls and its worker.
--     The worker has fuel, one unit for each call and one more; Drain shows that this is enough
--     where the called functions leave the list alone.
--   * Irp (ndiswrapper/driver/ntoskernel_io.c, macros in ndiswrapper/driver/winnt_types.h): stack
--     locations, IofCallDriver, IofCompleteRequest, IoCancelIrp and the functions that build
--     requests. The completion has fuel, which is enough above the number of locations that are
--     left.
--   * Rtl (ndiswrapper/driver/rtl.c): Strings, Convert and Numbers. A function returns `none`
--     where the code would access memory outside of a buffer.
--   * Wrapmem (ndiswrapper/driver/wrapmem.c, with ALLOC_DEBUG at 2): the accounting of
--     allocations.
--   * PeLinker (ndiswrapper/driver/pe_linker.c on x86_64): Headers, Expand, Reloc and Symbols on
--     an image that is a function from addresses to bytes. The loops that follow data of the image
--     have fuel.
--   * NtList (ndiswrapper/driver/winnt_types.h): the circular lists of the Windows drivers on a
--     heap of links. Ring says when links represent a list, Insert and Remove treat the
--     operations, Refine their sequences, and Walk the loop over a list, whose fuel is one more
--     than its length.
--   * Interlocked (ndiswrapper/driver/ntoskernel.h, ndiswrapper/driver/ntoskernel.c): singly
--     linked lists with a depth of 16 bits, the interlocked functions over both kinds of lists,
--     and the levels that raise_irql and lower_irql keep.
--   * Timer (ndiswrapper/driver/ntoskernel.c, ndiswrapper/driver/ntoskernel.h): the timers, which
--     signal a Dispatcher object and queue a kdpc of Kdpc. The timers of Linux are a parameter,
--     Linux, with their documented laws; Clock is the conversion of times, and Ndis the timers of
--     network drivers (ndiswrapper/driver/ndis.c).
--   * Workqueue (ndiswrapper/driver/workqueue.c): the worker threads, with one step for each part
--     of the code that runs under a lock, so that the steps of several threads interleave.
--   * NdisConfig (ndiswrapper/driver/ndis.c): the settings that drivers read and write. The
--     functions of Linux that read, print and compare strings are a parameter.
--   * NdisPool (ndiswrapper/driver/ndis.c): the pools of packets.
--   * TxRing (ndiswrapper/driver/wrapndis.c): the ring of packets to send, which gives its packets
--     back to a pool of NdisPool. The miniport driver is a parameter.
--   * Usb (ndiswrapper/driver/usb.c): Transfer is the life of a wrap_urb, from wrap_alloc_urb to
--     the worker; Schedule has the steps of the driver, of Linux and of the worker in any order,
--     without kill_all_urbs, and Invariant what they keep. Submit holds the transfers, Pipes and
--     Control the other requests, and Kill the removal of a device. The worker has fuel, one more
--     than the length of its list; the loop of an interval has ten rounds, since a bInterval has
--     eight bits.
--   * Power (ndiswrapper/driver/wrapndis.c): mp_init, mp_halt, mp_set_power_state and ndis_reinit
--     with the mutexes that they leave locked, and the packet filter (Filter), whose loop has
--     seven rounds, one for each flag that may be dropped, two for one that is replaced, and a
--     last. `none` is a thread that waits for a mutex that nobody gives back.
--   * Wireless (ndiswrapper/driver/iw_ndis.c): Auth has the authentication and encryption modes,
--     Keys the WEP keys, and Scan the rates and information elements of a scan. The loop over the
--     elements has fuel, which is enough above the number of bytes.
--   * Examples: the code and the theorems at concrete states.
-- The code of drivers and of the kernel is a parameter where the modelled code calls it: the dispatch,
-- completion and cancel routines, the functions of kdpcs, the allocators and the ctype tests.
-- A pointer is a number and NULL is 0. Not modelled: locks that only protect a step, debug output
-- and assertions, the timeouts of waits, the other NDIS functions, the rest of the wireless
-- extensions and of the dispatch of USB requests, plug and play, loading from user space and the
-- assembly stubs: they are planned, or only glue between interfaces of Linux and of the driver.
pub mod Base
pub mod Dispatcher
pub mod Examples
pub mod Interlocked
pub mod Irp
pub mod Kdpc
pub mod NdisConfig
pub mod NdisPool
pub mod NtList
pub mod PeLinker
pub mod Power
pub mod Rtl
pub mod Timer
pub mod TxRing
pub mod Usb
pub mod Wireless
pub mod Workqueue
pub mod Wrapmem
