-- ===== src/Crc.antt =====
-- nginx/misc/ngx_c_crc32.cxx: the class CCRC32, its lookup table and the checksum of a buffer.
-- `unsigned int` is 32 bits wide, so each shift to the left is cut at 2 ^ 32.
pub mod Reference
pub mod Detection
use Prim.Native.Nat.{bit_and, bit_or, bit_xor}
use cnginx.Common.{
  ℕ, zero, suc, ◌+◌, ◌-◌, ◌*◌, ◌/◌, ◌%◌, ◌^◌, List, [], ◌∷◌, ◌==◌, if◌then◌else◌, get_or, ◌++◌,
}
use cnginx.Common.Memory.{Bytes}

-- `rounds` counts what is left of `for(int i = 1; i < (ch + 1); i++)`, so `ch - i` is `rounds - 1`.
pub reflect_loop : ℕ → ℕ → ℕ → ℕ
reflect_loop zero ref value = value
reflect_loop (suc rounds) ref value =
    reflect_loop rounds (ref / 2)
      (if bit_and ref 1 == 0 then value else bit_or value (2 ^ rounds % 2 ^ 32))

pub reflect : ℕ → ℕ → ℕ
unfolding reflect_loop
reflect ref ch = reflect_loop ch ref 0

abbrev pub polynomial : ℕ
polynomial = 0x04c11db7

-- The body of the loop over `j`.
pub shift_entry : ℕ → ℕ
shift_entry e = bit_xor (e * 2 % 2 ^ 32) (if bit_and e (2 ^ 31) == 0 then 0 else polynomial)

pub shift_loop : ℕ → ℕ → ℕ
unfolding shift_entry
shift_loop zero e = e
shift_loop (suc rounds) e = shift_loop rounds (shift_entry e)

-- crc32_table[i]
unfoldable pub table_entry : ℕ → ℕ
unfolding reflect shift_loop
table_entry i = reflect (shift_loop 8 (reflect i 8 * 2 ^ 24 % 2 ^ 32)) 32

pub table_from : ℕ → ℕ → List ℕ
unfolding table_entry
table_from zero i = []
table_from (suc n) i = table_entry i ∷ table_from n (i + 1)

-- `for(int i = 0; i <= 0xFF; i++)`
unfoldable pub init_crc32_table : List ℕ
unfolding table_from
init_crc32_table = table_from 256 0

-- `crc = (crc >> 8) ^ crc32_table[(crc & 0xFF) ^ *buffer++]`
pub crc_step : List ℕ → ℕ → ℕ → ℕ
crc_step table crc b = bit_xor (crc / 2 ^ 8) (get_or table (bit_xor (bit_and crc 0xff) b) 0)

pub crc_loop : List ℕ → ℕ → Bytes → ℕ
unfolding crc_step
crc_loop table crc [] = crc
crc_loop table crc (b ∷ buffer) = crc_loop table (crc_step table crc b) buffer

-- The result's bit pattern; the function returns it as an `int`.
unfoldable pub get_crc : Bytes → ℕ
unfolding crc_loop init_crc32_table
get_crc buffer = bit_xor (crc_loop init_crc32_table 0xffffffff buffer) 0xffffffff
