-- ===== src/Examples.antt =====
-- Runs of the modelled code on concrete states, and the theorems at such states.
pub mod Dispatcher
pub mod Wait
pub mod Kdpc
pub mod Rtl
pub mod Irp
pub mod Interlocked
pub mod Wrapmem
pub mod PeLinker
pub mod NtList
pub mod Timer
pub mod Usb
pub mod Power
pub mod Wireless
pub mod NdisConfig
pub mod NdisPool
pub mod TxRing
pub mod Workqueue
