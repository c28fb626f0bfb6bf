-- ===== src/Section/WireSection.antt =====
-- A section on the wire and back.
use gtnh_platform.Base.{
  ℕ, ◌*◌, ◌<◌, ◌≡◌, refl, ap, subst, ◌∙◌, Bool, false, Option, none, some, List, [], ◌∷◌, ◌++◌,
  append_assoc, arith, ◌==◌, if◌then◌else◌, length, All, ◌&&◌,
}
use gtnh_platform.Section.{at_index, BlockData, air}
use gtnh_platform.Section.Bytes.{
  ◌>>=◌, write_u8, write_u16, write_u32, write_u16s, read_u8, read_u16, read_u32, read_bytes,
  bind_some, read-write_u8, read-write_u16, read-write_u32, read-write_u16s, read_bytes-append,
}
use gtnh_platform.Section.Sparse.{Entry, Sparse, entries}
use gtnh_platform.Section.Entries.{IsWfSparse}
use gtnh_platform.Section.Wire.{
  Section, wire_entries, write_entries, write_sparse, write_meta_mb_to_wire, read_entries,
  set_entries, read_meta_mb, skip_meta_mb, read_indices, read_section, from_wire,
}
use gtnh_platform.Section.WireMeta.{IsCodec, IsValued, wire_entries_lem, read_entries-write_entries}

-- Reading the entries of one map.
read_sparse :
    (B : Type 0) (bound : ℕ) (w : ℕ → List ℕ) (r : List ℕ → Option (ℕ × List ℕ)) (s : Sparse)
    (rest : List ℕ) (k : List Entry → List ℕ → Option B)
    → IsCodec bound w r
    → IsWfSparse s
    → IsValued bound s
    → (read_u16 (write_sparse w s ++ rest) >>= λ (n, rest).
        read_entries r n rest >>= λ (es, rest). k es rest)
      ≡ k (wire_entries s) rest
unfolding write_sparse
read_sparse B bound w r s rest k law wf fits =
    let (o, fit, few, same) = wire_entries_lem bound s wf fits in
    let es = wire_entries s in
    ap (λ bytes. read_u16 bytes >>= λ (n, rest). read_entries r n rest >>= λ (es, rest). k es rest)
      (append_assoc (write_u16 (length (wire_entries s))) (write_entries w (wire_entries s)) rest)
    ∙ bind_some (λ ((n, rest) : ℕ × List ℕ). read_entries r n rest >>= λ (es, rest). k es rest)
        (read-write_u16 (length (wire_entries s)) (write_entries w (wire_entries s) ++ rest) few)
        (bind_some (λ ((es, rest) : List Entry × List ℕ). k es rest)
          (read_entries-write_entries bound w r (wire_entries s) rest law fit) refl)

u8_inverse : IsCodec 256 write_u8 read_u8
u8_inverse v rest h = read-write_u8 v rest h

u32_inverse : IsCodec 4294967296 write_u32 read_u32
u32_inverse v rest h = read-write_u32 v rest h

-- The metadata as it is read back, over given blocks.
abbrev pub decoded_over : BlockData → Section → Section
decoded_over blocks s = record {
  blocks = blocks;
  meta = set_entries (entries []) (wire_entries s.meta);
  mb = set_entries (entries []) (wire_entries s.mb);
}

-- The metadata is well-formed and fits its types.
abbrev pub IsWfMeta : Section → Type 0
IsWfMeta s = IsWfSparse s.meta × IsValued 256 s.meta × IsWfSparse s.mb × IsValued 4294967296 s.mb

pub read_meta_mb_lem :
    (blocks : BlockData) (s : Section) (rest : List ℕ)
    → IsWfMeta s
    → read_meta_mb blocks (write_meta_mb_to_wire s ++ rest) ≡ some (decoded_over blocks s, rest)
unfolding read_meta_mb write_meta_mb_to_wire
read_meta_mb_lem blocks s rest (wm, vm, wb, vb) =
    ap (read_meta_mb blocks)
      (append_assoc (write_sparse write_u8 s.meta) (write_sparse write_u32 s.mb) rest)
    ∙ read_sparse (Section × List ℕ) 256 write_u8 read_u8 s.meta
        (write_sparse write_u32 s.mb ++ rest)
        (λ metas rest. read_u16 rest >>= λ (mbc, rest).
          read_entries read_u32 mbc rest >>= λ (mbs, rest). some (
            record {
              blocks = blocks;
              meta = set_entries (entries []) metas;
              mb = set_entries (entries []) mbs;
            },
            rest,
          ))
        u8_inverse wm vm
    ∙ read_sparse (Section × List ℕ) 4294967296 write_u32 read_u32 s.mb rest
        (λ mbs rest. some (
          record {
            blocks = blocks;
            meta = set_entries (entries []) (wire_entries s.meta);
            mb = set_entries (entries []) mbs;
          },
          rest,
        ))
        u32_inverse wb vb

-- A section of air: what follows is skipped.
length-write_entries_u8 : (es : List Entry) → length (write_entries write_u8 es) ≡ length es * 3
unfolding write_entries write_u8 write_u16
length-write_entries_u8 [] = refl
length-write_entries_u8 (e ∷ es) = omega (arith, length-write_entries_u8 es)

length-write_entries_u32 : (es : List Entry) → length (write_entries write_u32 es) ≡ length es * 6
unfolding write_entries write_u32 write_u16
length-write_entries_u32 [] = refl
length-write_entries_u32 (e ∷ es) = omega (arith, length-write_entries_u32 es)

-- Skipping the entries of one map.
skip_sparse :
    (B : Type 0) (bound width : ℕ) (w : ℕ → List ℕ) (s : Sparse) (rest : List ℕ)
    (k : List ℕ → Option B)
    → IsWfSparse s
    → IsValued bound s
    → length (write_entries w (wire_entries s)) ≡ length (wire_entries s) * width
    → (read_u16 (write_sparse w s ++ rest) >>= λ (n, rest).
        read_bytes (n * width) rest >>= λ (skipped, rest). k rest)
      ≡ k rest
unfolding write_sparse
skip_sparse B bound width w s rest k wf fits size =
    let (o, fit, few, same) = wire_entries_lem bound s wf fits in
    ap
      (λ bytes.
        read_u16 bytes >>= λ (n, rest). read_bytes (n * width) rest >>= λ (skipped, rest). k rest)
      (append_assoc (write_u16 (length (wire_entries s))) (write_entries w (wire_entries s)) rest)
    ∙ bind_some
        (λ ((n, rest) : ℕ × List ℕ). read_bytes (n * width) rest >>= λ (skipped, rest). k rest)
        (read-write_u16 (length (wire_entries s)) (write_entries w (wire_entries s) ++ rest) few)
        (bind_some (λ ((skipped, rest) : List ℕ × List ℕ). k rest)
          (subst
            (λ n.
              read_bytes n (write_entries w (wire_entries s) ++ rest)
              ≡ some (write_entries w (wire_entries s), rest))
            size (read_bytes-append (write_entries w (wire_entries s)) rest))
          refl)

abbrev pub blank_section : Section
blank_section = record { blocks = air; meta = entries []; mb = entries [] }

pub skip_meta_mb_lem :
    (s : Section) (rest : List ℕ)
    → IsWfMeta s
    → skip_meta_mb (write_meta_mb_to_wire s ++ rest) ≡ some (blank_section, rest)
unfolding skip_meta_mb write_meta_mb_to_wire
skip_meta_mb_lem s rest (wm, vm, wb, vb) =
    ap skip_meta_mb (append_assoc (write_sparse write_u8 s.meta) (write_sparse write_u32 s.mb) rest)
    ∙ skip_sparse (Section × List ℕ) 256 3 write_u8 s.meta (write_sparse write_u32 s.mb ++ rest)
        (λ rest. read_u16 rest >>= λ (mbc, rest).
          read_bytes (mbc * 6) rest >>= λ (skipped, rest). some (blank_section, rest))
        wm vm (length-write_entries_u8 (wire_entries s.meta))
    ∙ skip_sparse (Section × List ℕ) 4294967296 6 write_u32 s.mb rest
        (λ rest. some (blank_section, rest)) wb vb (length-write_entries_u32 (wire_entries s.mb))

pub if_false {ℓ} : {A : Type ℓ} (b : Bool) (x y : A) → b ≡ false → (if b then x else y) ≡ y
if_false b x y e = rw e refl

not_air : (a b : Bool) (bpi : ℕ) → 0 < bpi → (a && b && (bpi == 0)) ≡ false
not_air a b bpi h = ground arith

read_section_lem :
    (pal : List ℕ) (bpi : ℕ) (bytes tail : List ℕ)
    → All (λ v. v < 65536) pal
    → 0 < bpi
    → bpi < 256
    → read_section (length pal) (write_u16s pal ++ ((write_u8 bpi ++ bytes) ++ tail))
      ≡ (read_indices pal bpi (bytes ++ tail) >>= λ (blocks, rest). read_meta_mb blocks rest)
unfolding read_section
read_section_lem pal bpi bytes tail ids pos small =
    ap (λ rest. read_section (length pal) (write_u16s pal ++ rest))
      (append_assoc (write_u8 bpi) bytes tail)
    ∙ bind_some
        (λ ((palette, rest) : List ℕ × List ℕ). read_u8 rest >>= λ (bpi, rest).
          (if (length pal == 1) && (at_index palette 0 == 0) && (bpi == 0)
            then skip_meta_mb rest
            else (read_indices palette bpi rest >>= λ (blocks, rest). read_meta_mb blocks rest)))
        (read-write_u16s pal (write_u8 bpi ++ (bytes ++ tail)) ids)
        (bind_some
          (λ ((bpi, rest) : ℕ × List ℕ).
            if (length pal == 1) && (at_index pal 0 == 0) && (bpi == 0)
            then skip_meta_mb rest
            else (read_indices pal bpi rest >>= λ (blocks, rest). read_meta_mb blocks rest))
          (read-write_u8 bpi (bytes ++ tail) small)
          (if_false ((length pal == 1) && (at_index pal 0 == 0) && (bpi == 0))
            (skip_meta_mb (bytes ++ tail))
            (read_indices pal bpi (bytes ++ tail) >>= λ (blocks, rest). read_meta_mb blocks rest)
            (not_air (length pal == 1) (at_index pal 0 == 0) bpi pos)))

-- What `fromWire` does with the palette, the bits of an index and the indices.
pub from_wire_palette :
    (pal : List ℕ) (bpi : ℕ) (bytes tail : List ℕ)
    → All (λ v. v < 65536) pal
    → 0 < length pal
    → length pal < 65536
    → 0 < bpi
    → bpi < 256
    → from_wire (((write_u16 (length pal) ++ write_u16s pal) ++ (write_u8 bpi ++ bytes)) ++ tail)
      ≡ (read_indices pal bpi (bytes ++ tail) >>= λ (blocks, rest). read_meta_mb blocks rest)
unfolding from_wire
from_wire_palette pal bpi bytes tail ids some_ids few pos small =
    ap from_wire (
      append_assoc (write_u16 (length pal) ++ write_u16s pal) (write_u8 bpi ++ bytes) tail
      ∙ append_assoc (write_u16 (length pal)) (write_u16s pal) ((write_u8 bpi ++ bytes) ++ tail))
    ∙ bind_some (λ ((psz, rest) : ℕ × List ℕ). if psz == 0 then none else read_section psz rest)
        (read-write_u16 (length pal) (write_u16s pal ++ ((write_u8 bpi ++ bytes) ++ tail)) few)
        (if_false (length pal == 0) none
            (read_section (length pal) (write_u16s pal ++ ((write_u8 bpi ++ bytes) ++ tail)))
            (ground arith)
          ∙ read_section_lem pal bpi bytes tail ids pos small)
