-- ===== src/Config/Load/Regions.antt =====
-- What the region filters hold.
use mesh_monday.Base.{
  ◌≡◌, inl, inr, false, not, ◌&&◌, List, [], ◌∷◌, ◌++◌, Bool-cases, Bytes, same, same_iff, All,
  All-snoc, Distinct, Distinct-snoc,
}
use mesh_monday.Platform.{Platform}
use mesh_monday.Go.Text.{to_upper}
use mesh_monday.Go.Trim.{trim_space}
use mesh_monday.Config.{one_of, is_all_iata_value, filter_parts, or_nil, parse_iata_filters}

abbrev region_itself : Bytes → Bytes
region_itself r = r

-- No region is listed twice, and none is blank or stands for all.
abbrev pub IsRegionList : Platform → List Bytes → Type 0
IsRegionList p out =
    Distinct region_itself out
    × All (λ r. (same r [] ≡ false) × (is_all_iata_value p r ≡ false)) out

module _ (p : Platform) where
  filter_parts-IsRegionList :
      (parts out : List Bytes)
      → IsRegionList p out
      → IsRegionList p (or_nil (filter_parts p parts out))
  unfolding filter_parts or_nil
  filter_parts-IsRegionList [] out v = v
  filter_parts-IsRegionList (part ∷ parts) out v =
      let iata = to_upper p (trim_space part) in
      let skip = filter_parts-IsRegionList parts out v in
      elim (Bool-cases (same iata [])) [
        | inl e ↦ rw e skip
        | inr e ↦ elim (Bool-cases (is_all_iata_value p iata)) [
          | inl f ↦ rw (e, f) (tt, tt)
          | inr f ↦ elim (Bool-cases (one_of out iata)) [
            | inl g ↦ rw (e, f, g) skip
            | inr g ↦
                rw (e, f, g)
                  (filter_parts-IsRegionList parts (out ++ iata ∷ []) (
                    Distinct-snoc region_itself same same_iff out iata v.0 g,
                    All-snoc (λ r. (same r [] ≡ false) × (is_all_iata_value p r ≡ false)) out iata
                        v.1 (e, f),
                  ))
          ]
        ]
      ]

  pub parse_iata_filters-IsRegionList :
      (raw fallback : Bytes) → IsRegionList p (parse_iata_filters p raw fallback)
  unfolding parse_iata_filters
  parse_iata_filters-IsRegionList raw fallback =
      let value = trim_space raw in
      elim (Bool-cases (not (same value []) && is_all_iata_value p value)) [
        | inl e ↦ rw e (tt, tt)
        | inr e ↦ elim (Bool-cases (same value [] && is_all_iata_value p fallback)) [
          | inl f ↦ rw (e, f) (tt, tt)
          | inr f ↦ rw (e, f) (filter_parts-IsRegionList _ [] (tt, tt))
        ]
      ]
