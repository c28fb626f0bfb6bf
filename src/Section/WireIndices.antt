-- ===== src/Section/WireIndices.antt =====
-- The indices of a section on the wire and back.
use gtnh_platform.Base.{
  ℕ, zero, suc, ◌≤◌, ◌<◌, ◌≡◌, refl, subst, ◌∙◌, Bool, true, false, some, List, [], ◌∷◌, ◌++◌,
  arith, ◌==◌, leb, if◌then◌else◌, length, All, All-append, ◌&&◌,
}
use gtnh_platform.Section.{at_index, bitpack4, flat}
use gtnh_platform.Section.Bytes.{read_bytes, bind_some, read_bytes-append}
use gtnh_platform.Section.Packed.{IsByte}
use gtnh_platform.Section.Wire.{read_packed, read_flat, read_overflow, read_indices, take_bytes}
use gtnh_platform.Section.WireSection.{if_false}

length-take_bytes : (n : ℕ) (bs : List ℕ) → n ≤ length bs → length (take_bytes n bs) ≡ n
length-take_bytes zero bs h = refl
length-take_bytes (suc n) [] h = absurd (omega arith)
length-take_bytes (suc n) (b ∷ bs) h = omega (arith, length-take_bytes n bs (omega arith))

take_bytes-IsByte : (n : ℕ) (bs : List ℕ) → All IsByte bs → All IsByte (take_bytes n bs)
take_bytes-IsByte zero bs a = tt
take_bytes-IsByte (suc n) [] a = tt
take_bytes-IsByte (suc n) (b ∷ bs) a = (a.0, take_bytes-IsByte n bs a.1)

-- The bytes on the wire, and the 0 that the reader puts after them.
abbrev pub padded : ℕ → List ℕ → List ℕ
padded n bs = take_bytes n bs ++ (0 ∷ [])

pub padded-read :
    (n : ℕ) (bs : List ℕ) (i : ℕ) → i < n → n ≤ length bs → at_index (padded n bs) i ≡ at_index bs i
padded-read zero bs i h l = absurd (omega arith)
padded-read (suc n) [] i h l = absurd (omega arith)
padded-read (suc n) (b ∷ bs) zero h l = refl
padded-read (suc n) (b ∷ bs) (suc i) h l = padded-read n bs i (omega arith) (omega arith)

pub padded-IsByte : (n : ℕ) (bs : List ℕ) → All IsByte bs → All IsByte (padded n bs)
padded-IsByte n bs a =
    All-append IsByte (take_bytes n bs) (0 ∷ []) (take_bytes-IsByte n bs a) (omega arith, tt)

-- The bytes copied from the wire.
copied :
    (n : ℕ) (bs tail : List ℕ)
    → n ≤ length bs
    → read_bytes n (take_bytes n bs ++ tail) ≡ some (take_bytes n bs, tail)
copied n bs tail l =
    subst (λ m. read_bytes m (take_bytes n bs ++ tail) ≡ some (take_bytes n bs, tail))
      (length-take_bytes n bs l) (read_bytes-append (take_bytes n bs) tail)

pub if_true {ℓ} : {A : Type ℓ} (b : Bool) (x y : A) → b ≡ true → (if b then x else y) ≡ x
if_true b x y e = rw e refl

pub read_packed_lem :
    (pal bs tail : List ℕ)
    → 2048 ≤ length bs
    → read_packed pal (take_bytes 2048 bs ++ tail)
      ≡ some (bitpack4 (record { palette = pal; indices = padded 2048 bs }), tail)
unfolding read_packed
read_packed_lem pal bs tail l =
    bind_some
      (λ ((bytes, rest) : List ℕ × List ℕ).
        some (bitpack4 (record { palette = pal; indices = bytes ++ (0 ∷ []) }), rest))
      (copied 2048 bs tail l) refl

pub read_flat_lem :
    (pal bs tail : List ℕ)
    → 4096 ≤ length bs
    → read_flat pal (take_bytes 4096 bs ++ tail)
      ≡ some (flat (record { palette = pal; indices = padded 4096 bs }), tail)
unfolding read_flat
read_flat_lem pal bs tail l =
    bind_some
      (λ ((bytes, rest) : List ℕ × List ℕ).
        some (flat (record { palette = pal; indices = bytes ++ (0 ∷ []) }), rest))
      (copied 4096 bs tail l) refl

pub read_indices-4 :
    (pal rest : List ℕ) → length pal ≤ 16 → read_indices pal 4 rest ≡ read_packed pal rest
unfolding read_indices
read_indices-4 pal rest few =
    if_true (leb (length pal) 16 && (4 == 4)) (read_packed pal rest)
      (if leb (length pal) 256 && false then read_flat pal rest else read_overflow pal 4 rest)
      (ground arith)

pub read_indices-8 :
    (pal rest : List ℕ) → length pal ≤ 256 → read_indices pal 8 rest ≡ read_flat pal rest
unfolding read_indices
read_indices-8 pal rest few =
    if_false (leb (length pal) 16 && (8 == 4)) (read_packed pal rest)
      (if leb (length pal) 256 && (8 == 8) then read_flat pal rest else read_overflow pal 8 rest)
      (ground arith)
    ∙ if_true (leb (length pal) 256 && (8 == 8)) (read_flat pal rest) (read_overflow pal 8 rest)
        (ground arith)
