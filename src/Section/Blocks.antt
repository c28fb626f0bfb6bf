-- ===== src/Section/Blocks.antt =====
-- A palette and its packed indices together: what a write does to the blocks.
use gtnh_platform.Base.{
  ℕ, zero, suc, ◌%◌, ◌^◌, ◌≤◌, ◌<◌, ◌≡◌, refl, ◌⊎◌, inl, inr, ap, ◌∙◌, true, false, none, some,
  List, [], ◌∷◌, ◌++◌, arith, Bool-cases, Option-cases, leb→le, ◌==◌, leb, if◌then◌else◌, length,
  length-append, All,
}
use gtnh_platform.Section.{
  at_index, FlatData, read_bitpacked, write_bitpacked, find_id, set_in_palette,
}
use gtnh_platform.Section.Packed.{IsByte, read-write_narrow, read-write_wide}
use gtnh_platform.Section.Palette.{find_id-at}

-- What a section of `bpi` bits keeps: `n` bytes, at most `2 ^ bpi` ids, and no index outside the palette.
unfoldable pub IsPaletted : ℕ → ℕ → FlatData → Type 0
IsPaletted bpi n f =
    (length f.indices ≡ n)
    × All IsByte f.indices
    × (length f.palette ≤ 2 ^ bpi)
    × ((i : ℕ) → i < 4096 → read_bitpacked f.indices i bpi < length f.palette)

-- A write of a field changes that field only.
abbrev pub WriteLaw : ℕ → ℕ → Type 0
WriteLaw bpi n =
    (bytes : List ℕ) (li lj idx : ℕ)
    → All IsByte bytes
    → length bytes ≡ n
    → li < 4096
    → idx < 2 ^ bpi
    → (read_bitpacked (write_bitpacked bytes li idx bpi) lj bpi
        ≡ (if li == lj then idx else read_bitpacked bytes lj bpi))
      × All IsByte (write_bitpacked bytes li idx bpi)
      × (length (write_bitpacked bytes li idx bpi) ≡ length bytes)

pub nibble_law : WriteLaw 4 2049
nibble_law bytes li lj idx a l h k =
    let (r, ok, same) = read-write_narrow bytes li lj idx a (omega arith) in
    let small : idx % 16 ≡ idx = omega arith in
    (r ∙ ap (λ v. if li == lj then v else read_bitpacked bytes lj 4) small, ok, same)

pub byte_law : WriteLaw 8 4097
byte_law bytes li lj idx a l h k =
    let (r, ok, same) = read-write_wide bytes li lj idx a (omega arith) in
    let small : idx % 256 ≡ idx = omega arith in
    (r ∙ ap (λ v. if li == lj then v else read_bitpacked bytes lj 8) small, ok, same)

at_index-append_left :
    (ps : List ℕ) (id i : ℕ) → i < length ps → at_index (ps ++ (id ∷ [])) i ≡ at_index ps i
at_index-append_left [] id i h = absurd (omega arith)
at_index-append_left (p ∷ ps) id zero h = refl
at_index-append_left (p ∷ ps) id (suc i) h = at_index-append_left ps id i (omega arith)

at_index-append_last : (ps : List ℕ) (id : ℕ) → at_index (ps ++ (id ∷ [])) (length ps) ≡ id
at_index-append_last [] id = refl
at_index-append_last (p ∷ ps) id = at_index-append_last ps id

-- The block that a palette section reads.
abbrev pub block_at : ℕ → FlatData → ℕ → ℕ
block_at bpi f li = at_index f.palette (read_bitpacked f.indices li bpi)

-- A write of an index under a palette that keeps the ids it had.
pub written :
    (bpi n : ℕ) (f : FlatData) (ps : List ℕ) (li idx id : ℕ)
    → WriteLaw bpi n
    → IsPaletted bpi n f
    → li < 4096
    → idx < length ps
    → length ps ≤ 2 ^ bpi
    → at_index ps idx ≡ id
    → length f.palette ≤ length ps
    → ((i : ℕ) → i < length f.palette → at_index ps i ≡ at_index f.palette i)
    → IsPaletted bpi n (record { palette = ps; indices = write_bitpacked f.indices li idx bpi })
      × ((lj : ℕ)
          → lj < 4096
          → block_at bpi
              (record { palette = ps; indices = write_bitpacked f.indices li idx bpi })
              lj
            ≡ (if li == lj then id else block_at bpi f lj))
unfolding IsPaletted
written bpi n f ps li idx id law (n_eq, bytes, small, inside) h ih pl e le keep =
    let fits : idx < 2 ^ bpi = omega arith in
    let w = λ (lj : ℕ). law f.indices li lj idx bytes n_eq h fits in
    let is_byte = (w li).1 in
    let same = (w li).2 in
    (
      (same ∙ n_eq, is_byte, pl, λ i k. ground (arith, (w i).0, inside i k)),
      λ lj k.
          ap (at_index ps) (w lj).0
          ∙ ground (arith, keep (read_bitpacked f.indices lj bpi) (inside lj k)),
    )

set_in_palette-found :
    (f : FlatData) (li id bpi i : ℕ)
    → find_id id f.palette ≡ some i
    → set_in_palette f li id bpi
      ≡ some (record { palette = f.palette; indices = write_bitpacked f.indices li i bpi })
unfolding set_in_palette
set_in_palette-found f li id bpi i e = rw (set_in_palette, e) refl

set_in_palette-added :
    (f : FlatData) (li id bpi : ℕ)
    → find_id id f.palette ≡ none
    → leb (2 ^ bpi) (length f.palette) ≡ false
    → set_in_palette f li id bpi
      ≡ some (record {
        palette = f.palette ++ (id ∷ []);
        indices = write_bitpacked f.indices li (length f.palette) bpi;
      })
unfolding set_in_palette
set_in_palette-added f li id bpi e l = rw (set_in_palette, e, l) refl

set_in_palette-none :
    (f : FlatData) (li id bpi : ℕ)
    → find_id id f.palette ≡ none
    → leb (2 ^ bpi) (length f.palette) ≡ true
    → set_in_palette f li id bpi ≡ none
unfolding set_in_palette
set_in_palette-none f li id bpi e l = rw (set_in_palette, e, l) refl

-- `f'` is `f` with the block `li` changed to `id`.
abbrev pub IsWritten : ℕ → ℕ → FlatData → ℕ → ℕ → FlatData → Type 0
IsWritten bpi n f li id f' =
    IsPaletted bpi n f'
    × ((lj : ℕ) → lj < 4096 → block_at bpi f' lj ≡ (if li == lj then id else block_at bpi f lj))

-- A write succeeds, or the palette is full and has not the id.
pub set_in_palette_cases :
    (bpi n : ℕ) (f : FlatData) (li id : ℕ)
    → WriteLaw bpi n
    → IsPaletted bpi n f
    → li < 4096
    → ((f' : FlatData) × (set_in_palette f li id bpi ≡ some f') × IsWritten bpi n f li id f')
      ⊎ ((set_in_palette f li id bpi ≡ none)
          × (find_id id f.palette ≡ none)
          × (2 ^ bpi ≤ length f.palette))
unfolding IsPaletted
set_in_palette_cases bpi n f li id law w h = elim (Option-cases (find_id id f.palette)) [
  | inr (i, e) ↦
      let (at, lt) = find_id-at id f.palette i e in
      inl (
        record { palette = f.palette; indices = write_bitpacked f.indices li i bpi },
        set_in_palette-found f li id bpi i e,
        written bpi n f f.palette li i id law w h lt w.2 at (omega arith) (λ i k. refl),
      )
  | inl e ↦ elim (Bool-cases (leb (2 ^ bpi) (length f.palette))) [
    | inl y ↦ inr (set_in_palette-none f li id bpi e y, e, leb→le (2 ^ bpi) (length f.palette) y)
    | inr y ↦
        let long = length-append f.palette (id ∷ []) in
        inl (
          record {
            palette = f.palette ++ (id ∷ []);
            indices = write_bitpacked f.indices li (length f.palette) bpi;
          },
          set_in_palette-added f li id bpi e y,
          written bpi n f (f.palette ++ (id ∷ [])) li (length f.palette) id law w h
              (omega (arith, long)) (ground (arith, long)) (at_index-append_last f.palette id)
              (omega (arith, long)) (at_index-append_left f.palette id),
        )
  ]
]
