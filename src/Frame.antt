-- ===== src/Frame.antt =====
-- Frames of the network layer, engine/net/src/frame.cpp. A buffer is a list of bytes. A payload of
-- 2^32 - 5 bytes or more, for which the 32-bit sizes wrap, gives `none`: the source then writes past
-- the end of its buffer.
mod Tests
use gtnh_platform.Base.{
  sym, ap, subst, ◌∙◌, ℕ, zero, suc, ◌+◌, ◌*◌, ◌/◌, ◌%◌, ◌<◌, ◌≡◌, refl, inl, inr, Bool, true,
  false, Option, none, some, List, [], ◌∷◌, ◌++◌, ltb, if◌then◌else◌, length, arith, Bool-cases,
}

-- Four bytes, the highest first.
pub write_be32 : ℕ → List ℕ
write_be32 v = (v / 16777216) % 256 ∷ (v / 65536) % 256 ∷ (v / 256) % 256 ∷ v % 256 ∷ []

unfoldable pub write_be16 : ℕ → List ℕ
write_be16 v = (v / 256) % 256 ∷ v % 256 ∷ []

-- The number in the first four bytes, and 0 for a buffer that has fewer.
pub read_be32 : List ℕ → ℕ
read_be32 (a ∷ b ∷ c ∷ d ∷ rest) = a * 16777216 + b * 65536 + c * 256 + d
read_be32 rest = 0

-- `pack`, and `pack_router`, which has the same body.
pub pack : ℕ → List ℕ → Option (List ℕ)
unfolding write_be32
pack type payload =
    if ltb (length payload) 4294967291
    then some (write_be32 (1 + length payload) ++ (type ∷ payload))
    else none

-- The bytes after the length field.
abbrev pub body : List ℕ → List ℕ
body (a ∷ b ∷ c ∷ d ∷ rest) = rest
body rest = []

read_be32-write_be32 :
    (v : ℕ) (rest : List ℕ) → v < 4294967296 → read_be32 (write_be32 v ++ rest) ≡ v
unfolding read_be32 write_be32
read_be32-write_be32 v rest h = omega arith

body-write_be32 : (v : ℕ) (rest : List ℕ) → body (write_be32 v ++ rest) ≡ rest
unfolding write_be32
body-write_be32 v rest = refl

of_some : {f g : List ℕ} → some f ≡ some g → f ≡ g
of_some e = cc

of_none : {A : Type 0} {f : List ℕ} → none ≡ some f → A
of_none e = cc

one_more : (n : ℕ) → 1 + n ≡ suc n
one_more n = omega arith

fits : (payload : List ℕ) → ltb (length payload) 4294967291 ≡ true → 1 + length payload < 4294967296
fits payload h = ground arith

packed :
    (type : ℕ) (payload : List ℕ) (b : Bool)
    → ltb (length payload) 4294967291 ≡ b
    → pack type payload
      ≡ (if b then some (write_be32 (1 + length payload) ++ (type ∷ payload)) else none)
unfolding pack
packed type payload b y = rw y refl

-- A payload that is short enough is packed into a frame whose length field is the number of bytes
-- that follow it, and what follows is the type and the payload.
pub pack-read_be32 :
    (type : ℕ) (payload frame : List ℕ)
    → pack type payload ≡ some frame
    → (read_be32 frame ≡ length (body frame)) × (body frame ≡ type ∷ payload)
pack-read_be32 type payload frame e = elim (Bool-cases (ltb (length payload) 4294967291)) [
  | inl y ↦
      let same : write_be32 (1 + length payload) ++ (type ∷ payload) ≡ frame =
        of_some (sym (packed type payload true y) ∙ e) in
      let short = read_be32-write_be32 (1 + length payload) (type ∷ payload) (fits payload y) in
      subst (λ f. (read_be32 f ≡ length (body f)) × (body f ≡ type ∷ payload)) same
        (
          short
              ∙ one_more (length payload)
              ∙ sym (ap length (body-write_be32 (1 + length payload) (type ∷ payload))),
          body-write_be32 (1 + length payload) (type ∷ payload),
        )
  | inr y ↦ of_none (sym (packed type payload false y) ∙ e)
]
