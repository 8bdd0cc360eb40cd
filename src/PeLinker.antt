-- ===== src/PeLinker.antt =====
-- driver/pe_linker.c on x86_64: the check of a driver image, its expansion to the layout of its
-- sections, its relocation and the resolution of its imports. A loaded image is a function from the
-- relative virtual address to the byte there, so RVA2VA is the address itself for an access and
-- `image + rva` for a value; `image` is the address at which the image is loaded.
pub mod Bytes
pub mod Headers
pub mod Expand
pub mod Reloc
pub mod Symbols
