-- ===== src/Rtl.antt =====
-- driver/rtl.c: counted strings, their comparison, copies and conversions to and from numbers.
-- Memory past what was allocated is not readable: a function whose code reads or writes there
-- returns `none`.
pub mod Strings
pub mod Convert
pub mod Numbers
