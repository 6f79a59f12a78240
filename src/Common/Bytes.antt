-- ===== src/Common/Bytes.antt =====
-- Facts about all bytes, checked value by value.
use Prim.Native.Nat.{ℕ, zero, suc, ◌<◌, bit_and, bit_or}
use mathlib.Core.Path.{◌≡◌, refl}
use mathlib.Core.Bool.{Bool, true, not, ◌&&◌}
use native.Mathlib.Omega.{arith}
use async_tcp.Common.Tests.{◌==◌}

-- The test `p` passes on every number below a bound.
holds_below : ℕ → (ℕ → Bool) → Bool
holds_below zero p = true
holds_below (suc n) p = p n && holds_below n p

holds_below_sound : (n : ℕ) (p : ℕ → Bool) (x : ℕ) → holds_below n p ≡ true → x < n → p x ≡ true
unfolding holds_below
holds_below_sound zero p x h lt = absurd (omega arith)
holds_below_sound (suc n) p x h lt = ground (arith, holds_below_sound n p x)

set_table : holds_below 256 (λ x. not (bit_and (bit_or x 8) 8 == 0)) ≡ true
unfolding holds_below
set_table = refl

clear_table : holds_below 256 (λ x. bit_and (bit_and x 247) 8 == 0) ≡ true
unfolding holds_below
clear_table = refl

-- Bit 3 of a byte, set and cleared.
pub bit_set : (x : ℕ) → x < 256 → not (bit_and (bit_or x 8) 8 == 0) ≡ true
bit_set x h = holds_below_sound 256 _ x set_table h

pub bit_clear : (x : ℕ) → x < 256 → (bit_and (bit_and x 247) 8 == 0) ≡ true
bit_clear x h = holds_below_sound 256 _ x clear_table h
