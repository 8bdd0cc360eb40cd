-- ===== src/PeLinker/Symbols.antt =====
-- driver/pe_linker.c: read_exports, get_export, get_dll_init, import and fixup_imports.
pub mod Lookup
use ndiswrapper.Base.{
  ℕ, zero, suc, ◌+◌, ◌-◌, ◌*◌, ◌%◌, ◌^◌, ◌≡◌, Bool, true, false, ◌&&◌, Option, none, some, List, [],
  ◌∷◌, ◌++◌, ◌==◌, leb, if◌then◌else◌, ℤ, pos, negsuc, ◌+ℤ◌, map_some, is_some, ◌>>=◌,
}
use ndiswrapper.PeLinker.Bytes.{read_le, write_le}

-- A C string as its bytes in front of the zero; `max` bounds its length.
pub c_string : ℕ → (ℕ → ℕ) → ℕ → List ℕ
c_string zero mem a = []
c_string (suc max) mem a =
    let rest = c_string max mem (suc a) in if mem a == 0 then [] else mem a ∷ rest

-- `strcmp(s, t) == 0`.
pub same_name : List ℕ → List ℕ → Bool
same_name [] [] = true
same_name [] (c ∷ t) = false
same_name (b ∷ s) [] = false
same_name (b ∷ s) (c ∷ t) = b == c && same_name s t

-- `struct wrap_export` and `struct pe_exports`; the exports of ndiswrapper itself have no dll.
pub record Export : Type 0 where
  pub dll : List ℕ
  pub name : List ℕ
  pub addr : ℕ

-- The first export of that name.
pub find_export : List Export → List ℕ → Option ℕ
find_export [] name = none
find_export (e ∷ es) name =
    let rest = find_export es name in if same_name e.name name then some e.addr else rest

-- The loop over the tables.
pub find_in_tables : List (List Export) → List ℕ → Option ℕ
find_in_tables [] name = none
find_in_tables (t ∷ ts) name =
    let rest = find_in_tables ts name in elim (find_export t name) [ none ↦ rest | some f ↦ some f ]

pub get_export : List (List Export) → List Export → List ℕ → Option ℕ
get_export exports pe_exports name = elim (find_in_tables exports name) [
  | some f ↦ some f
  | none ↦ find_export pe_exports name
]

-- "DllInitialize".
abbrev dll_initialize : List ℕ
dll_initialize = 68 ∷ 108 ∷ 108 ∷ 73 ∷ 110 ∷ 105 ∷ 116 ∷ 105 ∷ 97 ∷ 108 ∷ 105 ∷ 122 ∷ 101 ∷ []

-- 0 is NULL.
pub get_dll_init : List Export → List ℕ → ℕ
get_dll_init [] name = 0
get_dll_init (e ∷ es) name =
    let rest = get_dll_init es name in
    if same_name e.dll name && same_name e.name dll_initialize then e.addr else rest

-- The loop of read_exports: `n` names from the tables at `name_table` and `addr_table` on, put behind
-- the exports that are known.
pub read_names : ℕ → List ℕ → (ℕ → ℕ) → ℕ → ℕ → ℕ → ℕ → List Export → List Export
read_names max dll mem image zero name_table addr_table pe_exports = pe_exports
read_names max dll mem image (suc n) name_table addr_table pe_exports =
    let e : Export = record {
      dll = dll;
      name = c_string max mem (read_le 4 mem name_table);
      addr = image + read_le 4 mem addr_table;
    } in
    read_names max dll mem image n (name_table + 4) (addr_table + 4) (pe_exports ++ e ∷ [])

-- `directory` and `size` are the entry of the exports in the data directory.
pub read_exports : ℕ → List ℕ → (ℕ → ℕ) → ℕ → ℕ → ℕ → List Export → List Export
read_exports max dll mem image directory size pe_exports =
    if size == 0
    then pe_exports
    else read_names max dll mem image (read_le 4 mem (directory + 24))
        (read_le 4 mem (directory + 32)) (read_le 4 mem (directory + 28)) pe_exports

-- The loop of import over the thunks at `lookup_tbl`, from the index `i` on. `resolve` is get_export
-- on the string at an address of the image. The result holds the image and what the code returns;
-- `none` means that the fuel ran out.
unfoldable pub import_loop :
    ((ℕ → ℕ) → ℕ → Option ℕ) → ℕ → ℕ → ℕ → ℕ → ℤ → (ℕ → ℕ) → Option ((ℕ → ℕ) × ℤ)
import_loop resolve zero lookup_tbl address_tbl i ret mem = none
import_loop resolve (suc fuel) lookup_tbl address_tbl i ret mem =
    let thunk = read_le 8 mem (lookup_tbl + 8 * i) in
    let found = resolve mem (thunk + 2) in
    let ret' = if is_some found then ret else negsuc 0 in
    let mem' : ℕ → ℕ = elim found [
      | none ↦ mem
      | some adr ↦ write_le 8 mem (address_tbl + 8 * i) adr
    ] in
    let rest = import_loop resolve fuel lookup_tbl address_tbl (suc i) ret' mem' in
    if thunk == 0
    then some (mem, ret)
    else if leb (2 ^ 63) thunk
    then some (mem, negsuc 0)
    else rest

-- `dirent` is the address of the import descriptor.
pub import : ((ℕ → ℕ) → ℕ → Option ℕ) → ℕ → ℕ → (ℕ → ℕ) → Option ((ℕ → ℕ) × ℤ)
import resolve fuel dirent mem =
    import_loop resolve fuel (read_le 4 mem dirent) (read_le 4 mem (dirent + 16)) 0 (pos 0) mem

-- The loop of fixup_imports over the descriptors.
pub import_all : ((ℕ → ℕ) → ℕ → Option ℕ) → ℕ → ℕ → ℕ → ℤ → (ℕ → ℕ) → Option ((ℕ → ℕ) × ℤ)
import_all resolve zero bound dirent ret mem = none
import_all resolve (suc fuel) bound dirent ret mem = elim (read_le 4 mem (dirent + 12) == 0) [
  | true ↦ some (mem, ret)
  | false ↦ do
    (mem', r) ← import resolve bound dirent mem
    import_all resolve fuel bound (dirent + 20) (ret +ℤ r) mem'
]

pub fixup_imports :
    List (List Export) → List Export → ℕ → ℕ → ℕ → ℕ → (ℕ → ℕ) → Option ((ℕ → ℕ) × ℤ)
fixup_imports exports pe_exports max fuel bound directory mem =
    import_all (λ m a. get_export exports pe_exports (c_string max m a)) fuel bound directory
      (pos 0) mem
