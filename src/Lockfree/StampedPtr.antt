-- ===== src/Lockfree/StampedPtr.antt =====
-- src/magic/concurrency/lockfree/stamped_ptr.h: a 48-bit pointer and a 16-bit stamp in one word.
-- A pointer is its address.
pub mod Packing
mod Examples
use Prim.Native.Nat.{bit_and, bit_or}
use magic_core.Prelude.{
  ℕ, ◌+◌, ◌-◌, ◌*◌, ◌/◌, ◌%◌, ◌^◌, Bool, true, false, Option, none, some, leb, ◌==◌, if◌then◌else◌,
}

pub record StampedPtr : Type 0 where
  pub raw_ptr : ℕ
  pub stamp : ℕ  -- uint64_t

-- operator bool and IsNull
abbrev pub is_null : StampedPtr → Bool
is_null p = p.raw_ptr == 0

pub increment_stamp : StampedPtr → StampedPtr
increment_stamp p = record p { stamp = (p.stamp + 1) % 2 ^ 64 }

-- `none`: the assertion `stamp - value >= 0` fails.
pub decrement_stamp : ℕ → StampedPtr → Option StampedPtr
decrement_stamp value p =
    if leb 0 ((p.stamp + 2 ^ 64 - value) % 2 ^ 64)
    then some (record p { stamp = (p.stamp + 2 ^ 64 - value) % 2 ^ 64 })
    else none

-- kFreeBits, kFreeBitsShift, kMaxStamp, kFreeBitsMask
abbrev pub free_bits : ℕ
free_bits = 16

abbrev pub free_bits_shift : ℕ
free_bits_shift = 64 - free_bits

abbrev pub max_stamp : ℕ
max_stamp = 2 ^ free_bits - 1

abbrev pub free_bits_mask : ℕ
free_bits_mask = max_stamp * 2 ^ free_bits_shift % 2 ^ 64

-- `~` on uintptr_t
abbrev complement : ℕ → ℕ
complement w = 2 ^ 64 - 1 - w

get_bit : ℕ → ℕ → ℕ
get_bit mask index = bit_and (mask / 2 ^ index) 1

set_free_bits : ℕ → ℕ
set_free_bits mask = bit_or mask free_bits_mask

clear_free_bits : ℕ → ℕ
clear_free_bits mask = bit_and mask (complement free_bits_mask)

pub to_canonical_form : ℕ → ℕ
to_canonical_form ptr = if get_bit ptr 47 == 0 then clear_free_bits ptr else set_free_bits ptr

pub get_stamp : ℕ → ℕ
get_stamp packed_ptr = packed_ptr / 2 ^ free_bits_shift

pub pack : StampedPtr → ℕ
pack p = bit_or (clear_free_bits p.raw_ptr) (p.stamp * 2 ^ free_bits_shift % 2 ^ 64)

pub unpack : ℕ → StampedPtr
unpack packed_ptr = record { raw_ptr = to_canonical_form packed_ptr; stamp = get_stamp packed_ptr }

-- AtomicStampedPtr: the atomic is the word packed_ptr_.
pub load : ℕ → StampedPtr
load packed_ptr = unpack packed_ptr

pub store : StampedPtr → ℕ
store p = pack p

-- The new word and what Exchange returns.
pub exchange : StampedPtr → ℕ → ℕ × StampedPtr
exchange target packed_ptr = (pack target, unpack packed_ptr)

pub record Exchanged : Type 0 where
  pub succeeded : Bool
  pub packed_ptr : ℕ
  pub expected : StampedPtr

-- CompareExchangeWeak. `spurious`: the weak operation fails although the words agree.
pub compare_exchange_weak : Bool → StampedPtr → StampedPtr → ℕ → Exchanged
compare_exchange_weak spurious expected desired packed_ptr =
    if pack expected == packed_ptr
    then if spurious
      then record { succeeded = false; packed_ptr = packed_ptr; expected = unpack packed_ptr }
      else record { succeeded = true; packed_ptr = pack desired; expected = expected }
    else record { succeeded = false; packed_ptr = packed_ptr; expected = unpack packed_ptr }
