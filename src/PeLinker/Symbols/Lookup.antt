-- ===== src/PeLinker/Symbols/Lookup.antt =====
-- driver/pe_linker.c: which function an imported name gets.
use ndiswrapper.Base.{
  ℕ, zero, suc, ◌+◌, ◌*◌, ◌≡◌, ◌≢◌, ◌↔◌, refl, sym, ap, ◌∙◌, true, Option, none, some, List, [],
  ◌∷◌, ◌++◌, arith, ℤ, negsuc, Bool-cases, Option-cases, inl, inr,
}
use ndiswrapper.PeLinker.Bytes.{read_le, write_le}
use ndiswrapper.PeLinker.Symbols.{
  Export, same_name, find_export, find_in_tables, get_export, import_loop,
}

pub same_name_iff : (s t : List ℕ) → (same_name s t ≡ true) ↔ (s ≡ t)
unfolding same_name
same_name_iff [] [] = (λ _. refl, λ _. refl)
same_name_iff [] (c ∷ t) = (λ e. absurd (cc), λ e. absurd (cc))
same_name_iff (b ∷ s) [] = (λ e. absurd (cc), λ e. absurd (cc))
same_name_iff (b ∷ s) (c ∷ t) =
    let rest = same_name_iff s t in
    (
      λ e.
          let h : b ≡ c = ground arith in
          let k : same_name s t ≡ true = ground arith in let q : s ≡ t = rest.0 k in rw (h, q),
      λ e.
          let h : b ≡ c = cc in
          let q : s ≡ t = cc in let k : same_name s t ≡ true = rest.1 q in ground arith,
    )

find_export-append :
    (xs ys : List Export) (name : List ℕ)
    → find_export (xs ++ ys) name
      ≡ (elim (find_export xs name) [ none ↦ find_export ys name | some f ↦ some f ])
unfolding find_export
find_export-append [] ys name = refl
find_export-append (e ∷ xs) ys name = elim (Bool-cases (same_name e.name name)) [
  | inl here ↦ rw here
  | inr there ↦ rw there (find_export-append xs ys name)
]

abbrev pub concat : List (List Export) → List Export
concat [] = []
concat (t ∷ ts) = t ++ concat ts

tables_concat :
    (ts : List (List Export)) (name : List ℕ)
    → find_in_tables ts name ≡ find_export (concat ts) name
unfolding find_in_tables find_export
tables_concat [] name = refl
tables_concat (t ∷ ts) name =
    ap (λ o. elim (find_export t name) [ none ↦ o | some f ↦ some f ]) (tables_concat ts name)
    ∙ sym (find_export-append t (concat ts) name)

-- get_export is a search for the first export of that name in ndiswrapper's tables, one after the
-- other, and then in the exports of the loaded images: ndiswrapper's own functions come first.
pub get_export_order :
    (exports : List (List Export)) (pe_exports : List Export) (name : List ℕ)
    → get_export exports pe_exports name ≡ find_export (concat exports ++ pe_exports) name
unfolding get_export
get_export_order exports pe_exports name =
    ap (λ o. elim o [ none ↦ find_export pe_exports name | some f ↦ some f ])
      (tables_concat exports name)
    ∙ sym (find_export-append (concat exports) pe_exports name)

module _ (resolve : (ℕ → ℕ) → ℕ → Option ℕ) (lookup_tbl address_tbl : ℕ) where
  -- Once the return value is -1 it stays so.
  import_keeps_error :
      (fuel i : ℕ) (mem mem' : ℕ → ℕ) (r : ℤ)
      → import_loop resolve fuel lookup_tbl address_tbl i (negsuc 0) mem ≡ some (mem', r)
      → r ≡ negsuc 0
  unfolding import_loop
  import_keeps_error zero i mem mem' r h = absurd (ground arith)
  import_keeps_error (suc fuel) i mem mem' r h =
      let thunk : ℕ = read_le 8 mem (lookup_tbl + 8 * i) in
      elim (Option-cases (resolve mem (thunk + 2))) [
        | inl lost ↦
            let ih = import_keeps_error fuel (suc i) mem mem' r in
            let h' = rw lost at h in ground (arith, h', ih)
        | inr (adr, found) ↦
            let ih =
              import_keeps_error fuel (suc i) (write_le 8 mem (address_tbl + 8 * i) adr) mem' r in
            let h' = rw found at h in ground (arith, h', ih)
      ]

  -- If import meets a name that no export has, it returns -1, whatever follows.
  pub import_reports_unknown :
      (fuel i : ℕ) (ret : ℤ) (mem mem' : ℕ → ℕ) (r : ℤ)
      → read_le 8 mem (lookup_tbl + 8 * i) ≢ 0
      → resolve mem (read_le 8 mem (lookup_tbl + 8 * i) + 2) ≡ none
      → import_loop resolve (suc fuel) lookup_tbl address_tbl i ret mem ≡ some (mem', r)
      → r ≡ negsuc 0
  unfolding import_loop
  import_reports_unknown fuel i ret mem mem' r nz lost h =
      let ih = import_keeps_error fuel (suc i) mem mem' r in
      let h' = rw lost at h in ground (arith, h', ih)
