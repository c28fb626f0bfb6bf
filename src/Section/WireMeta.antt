-- ===== src/Section/WireMeta.antt =====
-- The entries of the metadata and of the multiblocks on the wire and back.
use gtnh_platform.Base.{
  ℕ, suc, ◌+◌, ◌-◌, ◌≤◌, ◌<◌, ◌≡◌, refl, inl, inr, ap, ◌∙◌, false, Option, some, List, [], ◌∷◌,
  ◌++◌, append_assoc, arith, Bool-cases, ltb, lt→ltb, if◌then◌else◌, length, All,
}
use gtnh_platform.Section.{at_index, sec_vol}
use gtnh_platform.Section.Bytes.{◌>>=◌, write_u16, read_u16, bind_some, read-write_u16}
use gtnh_platform.Section.Sparse.{
  Entry, Sparse, entries, dense, value_at, has_entry, sparse_get, sparse_set,
}
use gtnh_platform.Section.Entries.{IsSorted, IsSorted-weaken, IsWfSparse, sparse_set_lem}
use gtnh_platform.Section.Wire.{
  dense_entries, wire_entries, write_entries, read_entries, set_entries,
}

-- A reader that gets back what a writer wrote, for values below a bound.
abbrev pub IsCodec : ℕ → (ℕ → List ℕ) → (List ℕ → Option (ℕ × List ℕ)) → Type 0
IsCodec bound write_value read_value =
    (v : ℕ) (rest : List ℕ) → v < bound → read_value (write_value v ++ rest) ≡ some (v, rest)

abbrev pub IsEntry : ℕ → Entry → Type 0
IsEntry bound e = (e.li < 4096) × (e.value < bound)

read_entries_step :
    (read_value : List ℕ → Option (ℕ × List ℕ)) (n : ℕ) (e : Entry) (es : List Entry)
    (bytes r s t : List ℕ)
    → e.li < 4096
    → read_u16 bytes ≡ some (e.li, r)
    → read_value r ≡ some (e.value, s)
    → read_entries read_value n s ≡ some (es, t)
    → read_entries read_value (suc n) bytes ≡ some (e ∷ es, t)
unfolding read_entries
read_entries_step read_value n e es bytes r s t h a b c =
    bind_some
      (λ ((li, rest) : ℕ × List ℕ). read_value rest >>= λ (value, rest).
        read_entries read_value n rest >>= λ (es, rest).
        some (if ltb li sec_vol then record { li = li; value = value } ∷ es else es, rest))
      a
      (bind_some
        (λ ((value, rest) : ℕ × List ℕ). read_entries read_value n rest >>= λ (es, rest).
          some (if ltb e.li sec_vol then record { li = e.li; value = value } ∷ es else es, rest))
        b
        (bind_some
          (λ ((es, rest) : List Entry × List ℕ).
            some
              (if ltb e.li sec_vol then record { li = e.li; value = e.value } ∷ es else es, rest))
          c (ap (λ b. some (if b then e ∷ es else es, t)) (lt→ltb e.li 4096 h))))

read_entries_none :
    (read_value : List ℕ → Option (ℕ × List ℕ)) (rest : List ℕ)
    → read_entries read_value 0 rest ≡ some ([], rest)
unfolding read_entries
read_entries_none read_value rest = refl

pub read_entries-write_entries :
    (bound : ℕ) (write_value : ℕ → List ℕ) (read_value : List ℕ → Option (ℕ × List ℕ))
    (es : List Entry) (rest : List ℕ)
    → IsCodec bound write_value read_value
    → All (IsEntry bound) es
    → read_entries read_value (length es) (write_entries write_value es ++ rest) ≡ some (es, rest)
unfolding write_entries
read_entries-write_entries bound w r [] rest law a = read_entries_none r rest
read_entries-write_entries bound w r (e ∷ es) rest law a =
    let tail = write_entries w es ++ rest in
    let split : ((write_u16 e.li ++ w e.value) ++ write_entries w es) ++ rest
        ≡ write_u16 e.li ++ (w e.value ++ (write_entries w es ++ rest)) =
      append_assoc (write_u16 e.li ++ w e.value) (write_entries w es) rest
      ∙ append_assoc (write_u16 e.li) (w e.value) (write_entries w es ++ rest) in
    ap (read_entries r (suc (length es))) split
    ∙ read_entries_step r (length es) e es
        (write_u16 e.li ++ (w e.value ++ (write_entries w es ++ rest)))
        (w e.value ++ (write_entries w es ++ rest)) (write_entries w es ++ rest) rest a.0.0
        (read-write_u16 e.li (w e.value ++ (write_entries w es ++ rest)) (omega arith))
        (law e.value (write_entries w es ++ rest) a.0.1)
        (read_entries-write_entries bound w r es rest law a.1)

no_entry : (lo : ℕ) (es : List Entry) (lj : ℕ) → IsSorted lo es → lj < lo → has_entry es lj ≡ false
unfolding IsSorted has_entry
no_entry lo [] lj o h = refl
no_entry lo (e ∷ es) lj o h = ground arith

-- Setting sorted entries one after another.
set_entries-get :
    (lo : ℕ) (s : Sparse) (es : List Entry)
    → IsWfSparse s
    → IsSorted lo es
    → IsWfSparse (set_entries s es)
      × ((lj : ℕ)
          → lj < 4096
          → sparse_get (set_entries s es) lj
            ≡ (if has_entry es lj then value_at es lj else sparse_get s lj))
unfolding set_entries IsSorted has_entry value_at
set_entries-get lo s [] w o = (w, λ lj k. refl)
set_entries-get lo s (e ∷ es) w o =
    let (ok, law) = sparse_set_lem s e.li e.value w o.1 in
    let (ok', law') = set_entries-get (suc e.li) (sparse_set s e.li e.value) es ok o.2 in
    (ok', λ lj k. law' lj k ∙ ground (arith, law lj k, no_entry (suc e.li) es lj o.2))

no_value : (es : List Entry) (lj : ℕ) → has_entry es lj ≡ false → value_at es lj ≡ 0
unfolding has_entry value_at
no_value [] lj h = refl
no_value (e ∷ es) lj h = ground (arith, no_value es lj)

only_entries :
    (es : List Entry) (lj : ℕ)
    → (if has_entry es lj then value_at es lj else sparse_get (entries []) lj) ≡ value_at es lj
unfolding sparse_get value_at
only_entries es lj = elim (Bool-cases (has_entry es lj)) [
  | inl y ↦ rw y refl
  | inr y ↦ rw (y, no_value es lj y) refl
]

dense_entries-IsSorted :
    (vs : List ℕ) (li : ℕ) → li + length vs ≤ 4096 → IsSorted li (dense_entries vs li)
unfolding dense_entries IsSorted
dense_entries-IsSorted [] li h = tt
dense_entries-IsSorted (v ∷ vs) li h = ground (
  arith,
  dense_entries-IsSorted vs (suc li),
  IsSorted-weaken li (suc li) (dense_entries vs (suc li)),
)

dense_entries-value :
    (vs : List ℕ) (li lj : ℕ)
    → value_at (dense_entries vs li) lj ≡ (if ltb lj li then 0 else at_index vs (lj - li))
unfolding dense_entries value_at
dense_entries-value [] li lj = ground arith
dense_entries-value (v ∷ vs) li lj = ground (arith, dense_entries-value vs (suc li) lj)

-- The values fit their type.
unfoldable pub IsValued : ℕ → Sparse → Type 0
IsValued bound (entries es) = All (λ e. e.value < bound) es
IsValued bound (dense values) = All (λ v. v < bound) values

sorted_entries :
    (bound lo : ℕ) (es : List Entry)
    → IsSorted lo es
    → All (λ e. e.value < bound) es
    → All (IsEntry bound) es
unfolding IsSorted
sorted_entries bound lo [] o a = tt
sorted_entries bound lo (e ∷ es) o a = ((o.1, a.0), sorted_entries bound (suc e.li) es o.2 a.1)

dense_entries-values :
    (bound : ℕ) (vs : List ℕ) (li : ℕ)
    → All (λ v. v < bound) vs
    → All (λ e. e.value < bound) (dense_entries vs li)
unfolding dense_entries
dense_entries-values bound [] li a = tt
dense_entries-values bound (v ∷ vs) li a =
    ground (arith, dense_entries-values bound vs (suc li) a.1)

length-dense_entries : (vs : List ℕ) (li : ℕ) → length (dense_entries vs li) ≤ length vs
unfolding dense_entries
length-dense_entries [] li = omega arith
length-dense_entries (v ∷ vs) li = ground (arith, length-dense_entries vs (suc li))

from_first :
    (vs : List ℕ) (lj : ℕ) → (if ltb lj 0 then 0 else at_index vs (lj - 0)) ≡ at_index vs lj
from_first vs lj = let e : lj - 0 ≡ lj = omega arith in rw e (ground arith)

-- What is written of a well-formed map: sorted entries that fit, with its values.
pub wire_entries_lem :
    (bound : ℕ) (s : Sparse)
    → IsWfSparse s
    → IsValued bound s
    → IsSorted 0 (wire_entries s)
      × All (IsEntry bound) (wire_entries s)
      × (length (wire_entries s) < 65536)
      × ((lj : ℕ) → value_at (wire_entries s) lj ≡ sparse_get s lj)
unfolding wire_entries IsWfSparse IsValued sparse_get
wire_entries_lem bound (entries es) (o, l) a =
    (o, sorted_entries bound 0 es o a, omega arith, λ lj. refl)
wire_entries_lem bound (dense values) n a =
    let o = dense_entries-IsSorted values 0 (omega arith) in
    (
      o,
      sorted_entries bound 0 (dense_entries values 0) o (dense_entries-values bound values 0 a),
      omega (arith, length-dense_entries values 0),
      λ lj. dense_entries-value values 0 lj ∙ from_first values lj,
    )

-- The entries of a map, set one after another in an empty one, give its values back.
pub set_entries-wire_entries :
    (bound : ℕ) (s : Sparse)
    → IsWfSparse s
    → IsValued bound s
    → (lj : ℕ) → lj < 4096
    → sparse_get (set_entries (entries []) (wire_entries s)) lj ≡ sparse_get s lj
unfolding IsWfSparse IsSorted
set_entries-wire_entries bound s w a lj k =
    let (o, fit, few, same) = wire_entries_lem bound s w a in
    let (ok, law) = set_entries-get 0 (entries []) (wire_entries s) (tt, omega arith) o in
    law lj k ∙ only_entries (wire_entries s) lj ∙ same lj
