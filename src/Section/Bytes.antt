-- ===== src/Section/Bytes.antt =====
-- The readers and writers of SectionCodec.cpp. A `Reader` is the bytes that it has left; a read past
-- the end gives `none`.
use gtnh_platform.Base.{
  ℕ, zero, suc, ◌+◌, ◌*◌, ◌/◌, ◌%◌, ◌<◌, ◌≡◌, refl, ap, ◌∙◌, Option, none, some, List, [], ◌∷◌,
  ◌++◌, append_assoc, arith, length, All,
}

infixl 5 ◌>>=◌
abbrev pub ◌>>=◌ {ℓ κ} : {A : Type ℓ} {B : Type κ} → Option A → (A → Option B) → Option B
none >>= f = none
some a >>= f = f a

unfoldable pub write_u8 : ℕ → List ℕ
write_u8 v = v % 256 ∷ []

-- The low byte first.
unfoldable pub write_u16 : ℕ → List ℕ
write_u16 v = v % 256 ∷ (v / 256) % 256 ∷ []

unfoldable pub write_u32 : ℕ → List ℕ
write_u32 v = v % 256 ∷ (v / 256) % 256 ∷ (v / 65536) % 256 ∷ (v / 16777216) % 256 ∷ []

unfoldable pub read_u8 : List ℕ → Option (ℕ × List ℕ)
read_u8 [] = none
read_u8 (a ∷ rest) = some (a, rest)

unfoldable pub read_u16 : List ℕ → Option (ℕ × List ℕ)
read_u16 (a ∷ b ∷ rest) = some (a + b * 256, rest)
read_u16 rest = none

unfoldable pub read_u32 : List ℕ → Option (ℕ × List ℕ)
read_u32 (a ∷ b ∷ c ∷ d ∷ rest) = some (a + b * 256 + c * 65536 + d * 16777216, rest)
read_u32 rest = none

-- `n` bytes, and the rest: the copy of the indices, and `skip` when the bytes are not used.
unfoldable pub read_bytes : ℕ → List ℕ → Option (List ℕ × List ℕ)
read_bytes zero rest = some ([], rest)
read_bytes (suc n) [] = none
read_bytes (suc n) (b ∷ rest) = do (bs, rest') ← read_bytes n rest; some (b ∷ bs, rest')

-- `n` 16-bit numbers.
unfoldable pub read_u16s : ℕ → List ℕ → Option (List ℕ × List ℕ)
unfolding read_u16
read_u16s zero rest = some ([], rest)
read_u16s (suc n) rest = do
  (v, rest) ← read_u16 rest
  (vs, rest) ← read_u16s n rest
  some (v ∷ vs, rest)

unfoldable pub write_u16s : List ℕ → List ℕ
unfolding write_u16
write_u16s [] = []
write_u16s (v ∷ vs) = write_u16 v ++ write_u16s vs

pub read-write_u8 :
    (v : ℕ) (rest : List ℕ) → v < 256 → read_u8 (write_u8 v ++ rest) ≡ some (v, rest)
unfolding write_u8 read_u8
read-write_u8 v rest h = let e : v % 256 ≡ v = omega arith in ap (λ u. some (u, rest)) e

pub read-write_u16 :
    (v : ℕ) (rest : List ℕ) → v < 65536 → read_u16 (write_u16 v ++ rest) ≡ some (v, rest)
unfolding write_u16 read_u16
read-write_u16 v rest h =
    let e : v % 256 + (v / 256) % 256 * 256 ≡ v = omega arith in ap (λ u. some (u, rest)) e

pub read-write_u32 :
    (v : ℕ) (rest : List ℕ) → v < 4294967296 → read_u32 (write_u32 v ++ rest) ≡ some (v, rest)
unfolding write_u32 read_u32
read-write_u32 v rest h =
    let e : v % 256
          + (v / 256) % 256 * 256
          + (v / 65536) % 256 * 65536
          + (v / 16777216) % 256 * 16777216
        ≡ v =
      omega arith in
    ap (λ u. some (u, rest)) e

-- A step of a reader that succeeds.
pub bind_some {ℓ κ} :
    {A : Type ℓ} {B : Type κ} {m : Option A} {a : A} {o : Option B} (f : A → Option B)
    → m ≡ some a
    → f a ≡ o
    → (m >>= f) ≡ o
bind_some f e g = ap (λ m. m >>= f) e ∙ g

read_u16s_step :
    (n v : ℕ) (vs bytes r s : List ℕ)
    → read_u16 bytes ≡ some (v, r)
    → read_u16s n r ≡ some (vs, s)
    → read_u16s (suc n) bytes ≡ some (v ∷ vs, s)
unfolding read_u16s
read_u16s_step n v vs bytes r s e f =
    bind_some (λ ((v, rest) : ℕ × List ℕ). read_u16s n rest >>= λ (vs, rest). some (v ∷ vs, rest)) e
      (bind_some (λ ((vs, rest) : List ℕ × List ℕ). some (v ∷ vs, rest)) f refl)

read_u16s_none : (rest : List ℕ) → read_u16s 0 rest ≡ some ([], rest)
unfolding read_u16s
read_u16s_none rest = refl

pub read-write_u16s :
    (vs rest : List ℕ)
    → All (λ v. v < 65536) vs
    → read_u16s (length vs) (write_u16s vs ++ rest) ≡ some (vs, rest)
unfolding write_u16s
read-write_u16s [] rest a = read_u16s_none rest
read-write_u16s (v ∷ vs) rest a =
    ap (read_u16s (suc (length vs))) (append_assoc (write_u16 v) (write_u16s vs) rest)
    ∙ read_u16s_step (length vs) v vs (write_u16 v ++ (write_u16s vs ++ rest))
        (write_u16s vs ++ rest) rest (read-write_u16 v (write_u16s vs ++ rest) a.0)
        (read-write_u16s vs rest a.1)

pub read_bytes-append : (bs rest : List ℕ) → read_bytes (length bs) (bs ++ rest) ≡ some (bs, rest)
unfolding read_bytes
read_bytes-append [] rest = refl
read_bytes-append (b ∷ bs) rest = rw (read_bytes-append bs rest) refl
