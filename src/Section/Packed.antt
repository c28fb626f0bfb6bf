-- ===== src/Section/Packed.antt =====
-- Packed indices read back: fields of 4 and of 8 bits in an array of bytes.
use gtnh_platform.Base.{
  ℕ, zero, suc, ◌+◌, ◌*◌, ◌/◌, ◌%◌, ◌<◌, ◌≡◌, refl, ◌⊎◌, inl, inr, ap, ◌∙◌, List, [], ◌∷◌, arith,
  Bool-cases, ◌==◌, if◌then◌else◌, length, set, All, All-set, length-set,
}
use gtnh_platform.Section.{at_index, read_bitpacked, masked_write, write_bitpacked}

abbrev pub IsByte : ℕ → Type 0
IsByte b = b < 256

pub at_index-set :
    (xs : List ℕ) (i j v : ℕ)
    → i < length xs
    → at_index (set xs i v) j ≡ (if i == j then v else at_index xs j)
at_index-set [] i j v h = absurd (omega arith)
at_index-set (x ∷ xs) zero zero v h = ground arith
at_index-set (x ∷ xs) zero (suc j) v h = ground arith
at_index-set (x ∷ xs) (suc i) zero v h = ground arith
at_index-set (x ∷ xs) (suc i) (suc j) v h = ground (arith, at_index-set xs i j v)

pub at_index-IsByte : (xs : List ℕ) (i : ℕ) → All IsByte xs → at_index xs i < 256
at_index-IsByte [] i a = omega arith
at_index-IsByte (x ∷ xs) zero a = a.0
at_index-IsByte (x ∷ xs) (suc i) a = at_index-IsByte xs i a.1

pub read_even : (bytes : List ℕ) (k : ℕ) → read_bitpacked bytes (k * 2) 4 ≡ at_index bytes k % 16
unfolding read_bitpacked
read_even bytes k =
    let byte : (k * 2 * 4) / 8 ≡ k = omega arith in
    let bit : (k * 2 * 4) % 8 ≡ 0 = omega arith in rw (byte, bit) (omega arith)

pub read_odd :
    (bytes : List ℕ) (k : ℕ)
    → All IsByte bytes
    → read_bitpacked bytes (k * 2 + 1) 4 ≡ at_index bytes k / 16
unfolding read_bitpacked
read_odd bytes k a =
    let byte : ((k * 2 + 1) * 4) / 8 ≡ k = omega arith in
    let bit : ((k * 2 + 1) * 4) % 8 ≡ 4 = omega arith in
    rw (byte, bit) (omega (arith, at_index-IsByte bytes k a))

pub read_byte :
    (bytes : List ℕ) (k : ℕ) → All IsByte bytes → read_bitpacked bytes k 8 ≡ at_index bytes k
unfolding read_bitpacked
read_byte bytes k a =
    let byte : (k * 8) / 8 ≡ k = omega arith in
    let bit : (k * 8) % 8 ≡ 0 = omega arith in
    rw (byte, bit) (omega (arith, at_index-IsByte bytes k a))

write_even :
    (bytes : List ℕ) (k idx : ℕ)
    → write_bitpacked bytes (k * 2) idx 4 ≡ set bytes k (masked_write (at_index bytes k) 0 4 idx)
unfolding write_bitpacked
write_even bytes k idx =
    let byte : (k * 2 * 4) / 8 ≡ k = omega arith in
    let bit : (k * 2 * 4) % 8 ≡ 0 = omega arith in rw (byte, bit) refl

write_odd :
    (bytes : List ℕ) (k idx : ℕ)
    → write_bitpacked bytes (k * 2 + 1) idx 4
      ≡ set bytes k (masked_write (at_index bytes k) 4 4 idx)
unfolding write_bitpacked
write_odd bytes k idx =
    let byte : ((k * 2 + 1) * 4) / 8 ≡ k = omega arith in
    let bit : ((k * 2 + 1) * 4) % 8 ≡ 4 = omega arith in rw (byte, bit) refl

pub write_byte :
    (bytes : List ℕ) (k idx : ℕ)
    → write_bitpacked bytes k idx 8 ≡ set bytes k (masked_write (at_index bytes k) 0 8 idx)
unfolding write_bitpacked
write_byte bytes k idx =
    let byte : (k * 8) / 8 ≡ k = omega arith in
    let bit : (k * 8) % 8 ≡ 0 = omega arith in rw (byte, bit) refl

-- The half of a byte.
pub half_cases : (li : ℕ) → (li ≡ li / 2 * 2) ⊎ (li ≡ li / 2 * 2 + 1)
half_cases li = elim (Bool-cases (li % 2 == 0)) [
  | inl e ↦ inl (ground arith)
  | inr e ↦ inr (ground arith)
]

low_nibble :
    (b idx : ℕ)
    → b < 256
    → (masked_write b 0 4 idx % 16 ≡ idx % 16)
      × (masked_write b 0 4 idx / 16 ≡ b / 16)
      × (masked_write b 0 4 idx < 256)
low_nibble b idx h = (omega arith, omega arith, omega arith)

high_nibble :
    (b idx : ℕ)
    → b < 256
    → (masked_write b 4 4 idx % 16 ≡ b % 16)
      × (masked_write b 4 4 idx / 16 ≡ idx % 16)
      × (masked_write b 4 4 idx < 256)
high_nibble b idx h = (omega arith, omega arith, omega arith)

-- A write of a half: which byte it sets, to what.
pub write_nibble :
    (bytes : List ℕ) (li idx : ℕ)
    → All IsByte bytes
    → (v : ℕ) × (write_bitpacked bytes li idx 4 ≡ set bytes (li / 2) v)
      × (v < 256)
      × (v % 16 ≡ (if li % 2 == 0 then idx % 16 else at_index bytes (li / 2) % 16))
      × (v / 16 ≡ (if li % 2 == 0 then at_index bytes (li / 2) / 16 else idx % 16))
write_nibble bytes li idx a = elim (half_cases li) [
  | inl e ↦
      let b = at_index bytes (li / 2) in
      let n = low_nibble b idx (at_index-IsByte bytes (li / 2) a) in
      (
        masked_write b 0 4 idx,
        ap (λ l. write_bitpacked bytes l idx 4) e ∙ write_even bytes (li / 2) idx,
        n.2,
        ground (arith, n),
        ground (arith, n),
      )
  | inr e ↦
      let b = at_index bytes (li / 2) in
      let n = high_nibble b idx (at_index-IsByte bytes (li / 2) a) in
      (
        masked_write b 4 4 idx,
        ap (λ l. write_bitpacked bytes l idx 4) e ∙ write_odd bytes (li / 2) idx,
        n.2,
        ground (arith, n),
        ground (arith, n),
      )
]

-- A read of a half.
pub read_nibble :
    (bytes : List ℕ) (li : ℕ)
    → All IsByte bytes
    → read_bitpacked bytes li 4
      ≡ (if li % 2 == 0 then at_index bytes (li / 2) % 16 else at_index bytes (li / 2) / 16)
read_nibble bytes li a = elim (half_cases li) [
  | inl e ↦ ap (λ l. read_bitpacked bytes l 4) e ∙ read_even bytes (li / 2) ∙ ground arith
  | inr e ↦ ap (λ l. read_bitpacked bytes l 4) e ∙ read_odd bytes (li / 2) a ∙ ground arith
]

-- Writing a field of 4 bits changes that field only.
pub read-write_narrow :
    (bytes : List ℕ) (li lj idx : ℕ)
    → All IsByte bytes
    → li / 2 < length bytes
    → (read_bitpacked (write_bitpacked bytes li idx 4) lj 4
        ≡ (if li == lj then idx % 16 else read_bitpacked bytes lj 4))
      × All IsByte (write_bitpacked bytes li idx 4)
      × (length (write_bitpacked bytes li idx 4) ≡ length bytes)
read-write_narrow bytes li lj idx a h =
    let (v, e, small, vm, vd) = write_nibble bytes li idx a in
    let bytes' = set bytes (li / 2) v in
    let ok = All-set IsByte bytes (li / 2) v a small in
    rw e (
      read_nibble bytes' lj ok
          ∙ ground (arith, at_index-set bytes (li / 2) (lj / 2) v h, read_nibble bytes lj a),
      ok,
      length-set bytes (li / 2) v,
    )

pub read-write_wide :
    (bytes : List ℕ) (li lj idx : ℕ)
    → All IsByte bytes
    → li < length bytes
    → (read_bitpacked (write_bitpacked bytes li idx 8) lj 8
        ≡ (if li == lj then idx % 256 else read_bitpacked bytes lj 8))
      × All IsByte (write_bitpacked bytes li idx 8)
      × (length (write_bitpacked bytes li idx 8) ≡ length bytes)
read-write_wide bytes li lj idx a h =
    let v = masked_write (at_index bytes li) 0 8 idx in
    let b = at_index-IsByte bytes li a in
    let small : v < 256 = omega arith in
    let value : v ≡ idx % 256 = omega arith in
    let ok = All-set IsByte bytes li v a small in
    rw (write_byte bytes li idx) (
      read_byte (set bytes li v) lj ok
          ∙ at_index-set bytes li lj v h
          ∙ ground (arith, value, read_byte bytes lj a),
      ok,
      length-set bytes li v,
    )
