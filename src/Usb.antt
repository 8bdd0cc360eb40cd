-- ===== src/Usb.antt =====
-- driver/usb.c, driver/usb.h: the requests of USB drivers. The names of states, the statuses, and the
-- memory that a request works on. Requests (IRPs), wrap_urbs and their urbs are named by numbers, NULL
-- is 0, and an error number of Linux is a negative integer.
mod Transfer
pub mod Invariant
pub mod Steps
pub mod Schedule
pub mod Flight
pub mod Conserve
pub mod Worker
pub mod Kill
pub mod Pipes
pub mod Control
pub mod Submit
unfoldable pub use Transfer.*
