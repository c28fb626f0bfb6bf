-- ===== src/Section/Entries.antt =====
-- Sorted entries as a map from positions to values: `setMeta`, `setMultiblock`, `getMeta`,
-- `getMultiblock`.
use gtnh_platform.Base.{
  ℕ, suc, ◌≤◌, ◌<◌, ◌≡◌, refl, inl, inr, ◌∙◌, List, [], ◌∷◌, arith, Bool-cases, ◌==◌, ltb,
  if◌then◌else◌, length, length-set, set, replicate,
}
use gtnh_platform.Section.{at_index, sec_vol}
use gtnh_platform.Section.Packed.{at_index-set}
use gtnh_platform.Section.Reads.{length-replicate, replicate-read}
use gtnh_platform.Section.Sparse.{
  Entry, Sparse, entries, dense, value_at, has_entry, put_entry, remove_entry, flatten_onto,
  flatten, sparse_get, sparse_remove, sparse_set,
}

-- The positions rise from `lo` on, and all are in the section.
unfoldable pub IsSorted : ℕ → List Entry → Type 0
IsSorted lo [] = Unit
IsSorted lo (e ∷ es) = (lo ≤ e.li) × (e.li < 4096) × IsSorted (suc e.li) es

put_entry-IsSorted :
    (lo : ℕ) (es : List Entry) (li v : ℕ)
    → IsSorted lo es
    → lo ≤ li
    → li < 4096
    → IsSorted lo (put_entry es li v)
unfolding IsSorted put_entry
put_entry-IsSorted lo [] li v s l h = (l, h, tt)
put_entry-IsSorted lo (e ∷ es) li v s l h =
    ground (arith, λ (k : e.li < li). put_entry-IsSorted (suc e.li) es li v s.2 k h)

pub IsSorted-weaken : (lo hi : ℕ) (es : List Entry) → lo ≤ hi → IsSorted hi es → IsSorted lo es
unfolding IsSorted
IsSorted-weaken lo hi [] h s = tt
IsSorted-weaken lo hi (e ∷ es) h s = (omega (arith, s.0), s.1, s.2)

remove_entry-IsSorted :
    (lo : ℕ) (es : List Entry) (li : ℕ) → IsSorted lo es → IsSorted lo (remove_entry es li)
unfolding IsSorted remove_entry
remove_entry-IsSorted lo [] li s = tt
remove_entry-IsSorted lo (e ∷ es) li s =
    ground (arith, IsSorted-weaken lo (suc e.li) es, remove_entry-IsSorted (suc e.li) es li s.2)

below : (lo : ℕ) (es : List Entry) (li : ℕ) → IsSorted lo es → li < lo → value_at es li ≡ 0
unfolding IsSorted value_at
below lo [] li s h = refl
below lo (e ∷ es) li s h = ground arith

value_at-put_entry :
    (lo : ℕ) (es : List Entry) (li lj v : ℕ)
    → IsSorted lo es
    → value_at (put_entry es li v) lj ≡ (if li == lj then v else value_at es lj)
unfolding IsSorted value_at put_entry
value_at-put_entry lo [] li lj v s = ground arith
value_at-put_entry lo (e ∷ es) li lj v s =
    ground (arith, value_at-put_entry (suc e.li) es li lj v s.2, below (suc e.li) es lj s.2)

value_at-remove_entry :
    (lo : ℕ) (es : List Entry) (li lj : ℕ)
    → IsSorted lo es
    → value_at (remove_entry es li) lj ≡ (if li == lj then 0 else value_at es lj)
unfolding IsSorted value_at remove_entry
value_at-remove_entry lo [] li lj s = ground arith
value_at-remove_entry lo (e ∷ es) li lj s = ground (
  arith,
  value_at-remove_entry (suc e.li) es li lj s.2,
  below (suc e.li) es lj s.2,
  below (suc e.li) es li s.2,
)

length-flatten_onto :
    (es : List Entry) (values : List ℕ) → length (flatten_onto es values) ≡ length values
unfolding flatten_onto
length-flatten_onto [] values = refl
length-flatten_onto (e ∷ es) values =
    length-flatten_onto es (set values e.li e.value) ∙ length-set values e.li e.value

-- The array has the values of the entries, and below them what it had.
flatten_onto-read :
    (lo : ℕ) (es : List Entry) (values : List ℕ) (lj : ℕ)
    → IsSorted lo es
    → length values ≡ 4096
    → (lo ≤ lj → at_index values lj ≡ 0)
    → at_index (flatten_onto es values) lj
      ≡ (if ltb lj lo then at_index values lj else value_at es lj)
unfolding flatten_onto IsSorted value_at
flatten_onto-read lo [] values lj s n z = ground arith
flatten_onto-read lo (e ∷ es) values lj s n z =
    let values' = set values e.li e.value in
    let here = at_index-set values e.li lj e.value (omega arith) in
    flatten_onto-read (suc e.li) es values' lj s.2 (length-set values e.li e.value ∙ n)
      (λ k. ground arith)
    ∙ ground (arith, here, below (suc e.li) es lj s.2)

length-put_entry :
    (es : List Entry) (li v : ℕ)
    → length (put_entry es li v) ≡ (if has_entry es li then length es else suc (length es))
unfolding put_entry has_entry
length-put_entry [] li v = refl
length-put_entry (e ∷ es) li v = ground (arith, length-put_entry es li v)

length-remove_entry : (es : List Entry) (li : ℕ) → length (remove_entry es li) ≤ length es
unfolding remove_entry
length-remove_entry [] li = omega arith
length-remove_entry (e ∷ es) li = ground (arith, length-remove_entry es li)

-- The entries are sorted and at most 256; the array has 4096 values.
unfoldable pub IsWfSparse : Sparse → Type 0
IsWfSparse (entries es) = IsSorted 0 es × (length es ≤ 256)
IsWfSparse (dense values) = length values ≡ 4096

-- `s'` is well-formed, and has the values of `s` but for `v` at `li`.
abbrev pub IsSparseWrite : Sparse → ℕ → ℕ → Sparse → Type 0
IsSparseWrite s li v s' =
    IsWfSparse s'
    × ((lj : ℕ) → lj < 4096 → sparse_get s' lj ≡ (if li == lj then v else sparse_get s lj))

nothing_below : (lj a b : ℕ) → (if ltb lj 0 then a else b) ≡ b
nothing_below lj a b = ground arith

flatten_lem :
    (es : List Entry)
    → IsSorted 0 es
    → IsWfSparse (flatten es) × ((lj : ℕ) → sparse_get (flatten es) lj ≡ value_at es lj)
unfolding flatten IsWfSparse sparse_get
flatten_lem es s =
    let long = length-replicate 4096 0 in
    (
      length-flatten_onto es (replicate sec_vol 0) ∙ long,
      λ lj.
          flatten_onto-read 0 es (replicate sec_vol 0) lj s long (λ h. replicate-read sec_vol lj)
          ∙ nothing_below lj (at_index (replicate sec_vol 0) lj) (value_at es lj),
    )

sparse_remove_lem :
    (s : Sparse) (li : ℕ) → IsWfSparse s → li < 4096 → IsSparseWrite s li 0 (sparse_remove s li)
unfolding sparse_remove IsWfSparse sparse_get
sparse_remove_lem (entries es) li (s, l) h = (
  (remove_entry-IsSorted 0 es li s, omega (arith, length-remove_entry es li)),
  λ lj k. value_at-remove_entry 0 es li lj s,
)
sparse_remove_lem (dense values) li n h =
    (length-set values li 0 ∙ n, λ lj k. at_index-set values li lj 0 (omega arith))

put_lem :
    (es : List Entry) (li v : ℕ)
    → IsWfSparse (entries es)
    → li < 4096
    → IsSparseWrite (entries es) li v (
        if has_entry es li
        then entries (put_entry es li v)
        else (if ltb 256 (length (put_entry es li v))
            then flatten (put_entry es li v)
            else entries (put_entry es li v)))
unfolding IsWfSparse sparse_get
put_lem es li v (s, l) h =
    let es' = put_entry es li v in
    let s' = put_entry-IsSorted 0 es li v s (omega arith) h in
    let law = λ (lj : ℕ). value_at-put_entry 0 es li lj v s in
    let long = length-put_entry es li v in
    elim (Bool-cases (has_entry es li)) [
      | inl y ↦ rw y ((s', ground arith), λ lj k. law lj)
      | inr y ↦ elim (Bool-cases (ltb 256 (length es'))) [
        | inl z ↦ let (ok, same) = flatten_lem es' s' in rw (y, z) (ok, λ lj k. same lj ∙ law lj)
        | inr z ↦ rw (y, z) ((s', ground arith), λ lj k. law lj)
      ]
    ]

-- `setMeta` and `setMultiblock` at a position below 4096 change the value of that position only,
-- and keep the entries sorted, below 4096 and at most 256, or the array at 4096 values.
pub sparse_set_lem :
    (s : Sparse) (li v : ℕ) → IsWfSparse s → li < 4096 → IsSparseWrite s li v (sparse_set s li v)
unfolding sparse_set IsWfSparse sparse_get
sparse_set_lem (entries es) li v w h = elim (Bool-cases (v == 0)) [
  | inl y ↦ let z : v ≡ 0 = ground arith in rw (y, z) (sparse_remove_lem (entries es) li w h)
  | inr y ↦ rw y (put_lem es li v w h)
]
sparse_set_lem (dense values) li v n h = elim (Bool-cases (v == 0)) [
  | inl y ↦ let z : v ≡ 0 = ground arith in rw (y, z) (sparse_remove_lem (dense values) li n h)
  | inr y ↦ rw y (length-set values li v ∙ n, λ lj k. at_index-set values li lj v (omega arith))
]
