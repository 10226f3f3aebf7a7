-- ===== src/MemDb/BitMap.antt =====
-- mem_db/common/inc/data_structs.h: `BitMap`, the set of the occupied slots in a 32-bit word.
pub mod Members
use Prim.Native.Nat.{bit_and, bit_or}
use lab.Prelude.{ℕ, ◌-◌, ◌%◌, ◌^◌, ◌==◌, ltb, leb, if◌then◌else◌, Bool, not, ◌&&◌}
use lab.MemDb.Outcome.{Outcome, ok, ◌>>=◌, ◌>>◌, assert}

abbrev pub min_bit : ℕ
min_bit = 0x1

abbrev pub max_bit : ℕ
max_bit = 0x31

-- The range of `Uint32`.
abbrev pub u32_mod : ℕ
u32_mod = 2 ^ 32

pub record BitMap : Type 0 where
  pub bits : ℕ

unfoldable pub init : BitMap → BitMap
init b = record { bits = 0 }

-- The `assert` of the three operations.
abbrev pub in_range : ℕ → Bool
in_range bit_num = leb min_bit bit_num && leb bit_num max_bit

-- `over k` is what the machine makes of `1 << k` for `k` of 32 and more, where the language leaves
-- it undefined.
module _ (over : ℕ → ℕ) where
  -- `1 << (bitNum-1)`
  unfoldable pub mask : ℕ → ℕ
  mask bit_num = if ltb (bit_num - 1) 32 then 2 ^ (bit_num - 1) else over (bit_num - 1) % u32_mod

  unfoldable pub bit_on : BitMap → ℕ → Outcome BitMap
  bit_on b bit_num = do
    assert (in_range bit_num)
    ok (record { bits = bit_or b.bits (mask bit_num) })

  unfoldable pub bit_off : BitMap → ℕ → Outcome BitMap
  bit_off b bit_num = do
    assert (in_range bit_num)
    ok (record { bits = bit_and b.bits (u32_mod - 1 - mask bit_num) })

  unfoldable pub is_on : BitMap → ℕ → Outcome Bool
  is_on b bit_num = do assert (in_range bit_num); ok (not (bit_and b.bits (mask bit_num) == 0))
