-- ===== src/Frame/Tests.antt =====
-- Tests and examples for frames.
use gtnh_platform.Base.{ℕ, ◌≡◌, refl, some, List, [], ◌∷◌}
use gtnh_platform.Frame.{write_be32, pack}

high_byte_first : write_be32 66051 ≡ 0 ∷ 1 ∷ 2 ∷ 3 ∷ []
unfolding write_be32
high_byte_first = refl

abbrev two_bytes : List ℕ
two_bytes = 0 ∷ 0 ∷ 0 ∷ 3 ∷ 9 ∷ 8 ∷ 7 ∷ []

is_packed : pack 9 (8 ∷ 7 ∷ []) ≡ some two_bytes
unfolding pack write_be32
is_packed = refl
