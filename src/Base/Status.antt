-- ===== src/Base/Status.antt =====
-- driver/winnt_types.h: the NTSTATUS values that the modelled code returns.
use Prim.Native.Nat.{ℕ}

abbrev pub status_success : ℕ
status_success = 0

abbrev pub status_alerted : ℕ
status_alerted = 0x101

abbrev pub status_timeout : ℕ
status_timeout = 0x102

abbrev pub status_pending : ℕ
status_pending = 0x103

abbrev pub status_buffer_overflow : ℕ
status_buffer_overflow = 0x80000005

abbrev pub status_invalid_parameter : ℕ
status_invalid_parameter = 0xC000000D

abbrev pub status_no_memory : ℕ
status_no_memory = 0xC0000017

abbrev pub status_buffer_too_small : ℕ
status_buffer_too_small = 0xC0000023

abbrev pub status_not_supported : ℕ
status_not_supported = 0xC00000BB

abbrev pub status_invalid_device_request : ℕ
status_invalid_device_request = 0xC0000010
