-- ===== src/Section/Sparse.antt =====
-- The metadata and the multiblock ids of a section, which MutableSection.cpp keeps in the same way: a
-- vector of entries in the order of their positions, and an array of 4096 values once there are more
-- than 256 entries. `std::lower_bound` gives the first entry whose position is not less.
use gtnh_platform.Base.{
  ℕ, Bool, false, List, [], ◌∷◌, ◌==◌, ltb, if◌then◌else◌, length, set, replicate,
}
use gtnh_platform.Section.{at_index, sec_vol}

-- An entry `{li, value}`.
pub record Entry : Type 0 where
  pub li : ℕ
  pub value : ℕ

pub data Sparse : Type 0 where
  entries : List Entry → Sparse
  dense : List ℕ → Sparse

abbrev pub sparse_threshold : ℕ
sparse_threshold = 256

unfoldable pub value_at : List Entry → ℕ → ℕ
value_at [] li = 0
value_at (e ∷ es) li =
    let rest = value_at es li in if ltb e.li li then rest else (if e.li == li then e.value else 0)

-- Whether the entry at the lower bound is the position's.
unfoldable pub has_entry : List Entry → ℕ → Bool
has_entry [] li = false
has_entry (e ∷ es) li = let rest = has_entry es li in if ltb e.li li then rest else e.li == li

-- The entries with one assigned or inserted at its lower bound.
unfoldable pub put_entry : List Entry → ℕ → ℕ → List Entry
put_entry [] li value = record { li = li; value = value } ∷ []
put_entry (e ∷ es) li value =
    let rest = put_entry es li value in
    if ltb e.li li
    then e ∷ rest
    else (if e.li == li
        then record e { value = value } ∷ es
        else record { li = li; value = value } ∷ e ∷ es)

unfoldable pub remove_entry : List Entry → ℕ → List Entry
remove_entry [] li = []
remove_entry (e ∷ es) li =
    let rest = remove_entry es li in
    if ltb e.li li then e ∷ rest else (if e.li == li then es else e ∷ es)

-- The loop of `flattenMeta` and `flattenMb`.
unfoldable pub flatten_onto : List Entry → List ℕ → List ℕ
flatten_onto [] values = values
flatten_onto (e ∷ es) values = flatten_onto es (set values e.li e.value)

unfoldable pub flatten : List Entry → Sparse
unfolding flatten_onto
flatten es = dense (flatten_onto es (replicate sec_vol 0))

-- `getMeta`, `getMultiblock`
unfoldable pub sparse_get : Sparse → ℕ → ℕ
unfolding value_at
sparse_get (entries es) li = value_at es li
sparse_get (dense values) li = at_index values li

-- `removeMetaEntry`, `removeMbEntry`
unfoldable pub sparse_remove : Sparse → ℕ → Sparse
unfolding remove_entry
sparse_remove (entries es) li = entries (remove_entry es li)
sparse_remove (dense values) li = dense (set values li 0)

-- `setMeta`, `setMultiblock`
unfoldable pub sparse_set : Sparse → ℕ → ℕ → Sparse
unfolding sparse_remove has_entry put_entry flatten
sparse_set (dense values) li value =
    if value == 0 then sparse_remove (dense values) li else dense (set values li value)
sparse_set (entries es) li value =
    let es' = put_entry es li value in
    if value == 0
    then sparse_remove (entries es) li
    else (if has_entry es li
        then entries es'
        else (if ltb sparse_threshold (length es') then flatten es' else entries es'))
