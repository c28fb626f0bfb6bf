-- ===== src/Energy.antt =====
-- The energy buffer of a machine, engine/sim/components/EnergyStorage.h, less its tier and energy type.
-- Amounts, `int32_t` in the source, are integers that do not overflow.
pub mod Bounds
pub mod Transformer
mod Tests
use gtnh_platform.Base.{ℕ, Bool, true, false, if◌then◌else◌}
use gtnh_platform.Base.Int.{ℤ, pos, ◌+ℤ◌, ◌-ℤ◌, ltb_ℤ, leb_ℤ, min_ℤ}

pub record EnergyStorage : Type 0 where
  pub capacity : ℤ
  pub current : ℤ
  pub max_input : ℤ
  pub max_output : ℤ

-- `if (accepted < 0) accepted = 0;` after the amount has been held to the space.
unfoldable pub fitting : EnergyStorage → ℤ → ℤ
fitting e amount =
    let accepted = min_ℤ (e.capacity -ℤ e.current) amount in
    if ltb_ℤ accepted (pos 0) then pos 0 else accepted

-- The amount accepted or taken, and the storage after it.
pub add_energy : EnergyStorage → ℤ → ℤ × EnergyStorage
unfolding fitting
add_energy e amount =
    let accepted = min_ℤ (fitting e amount) e.max_input in
    (accepted, record e { current = e.current +ℤ accepted })

unfoldable pub produce_energy : EnergyStorage → ℤ → ℤ × EnergyStorage
unfolding fitting
produce_energy e amount = (fitting e amount, record e { current = e.current +ℤ fitting e amount })

pub consume_energy : EnergyStorage → ℤ → ℤ × EnergyStorage
consume_energy e amount =
    let available = min_ℤ (min_ℤ amount e.current) e.max_output in
    (available, record e { current = e.current -ℤ available })

unfoldable pub is_full : EnergyStorage → Bool
is_full e = leb_ℤ e.capacity e.current

unfoldable pub is_empty_storage : EnergyStorage → Bool
is_empty_storage e = leb_ℤ e.current (pos 0)
