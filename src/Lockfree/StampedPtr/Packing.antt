-- ===== src/Lockfree/StampedPtr/Packing.antt =====
-- Packing and unpacking are inverse, up to the 16 bits of the stamp.
use Prim.Native.Nat.{bit_and, bit_or}
use magic_core.Prelude.{
  ℕ, ◌+◌, ◌-◌, ◌*◌, ◌/◌, ◌%◌, ◌^◌, ◌≤◌, ◌<◌, ◌≡◌, refl, ◌⊎◌, Bool, true, false, some, ◌==◌,
  if◌then◌else◌, arith, ap,
}
use magic_core.Lockfree.Bits.{
  bit_or_split, bit_and_split, bit_or-zero_below, bit_and-zero_below, bit_or_ones, bit_and_ones,
  zero-bit_or, bit_and_step,
}
use magic_core.Lockfree.StampedPtr.{
  StampedPtr, decrement_stamp, free_bits_mask, get_bit, set_free_bits, clear_free_bits,
  to_canonical_form, get_stamp, pack, unpack, compare_exchange_weak,
}

fields : (w : ℕ) → w / 2 ^ 48 * 2 ^ 48 + w % 2 ^ 48 ≡ w
fields w = omega arith

no_high : (l : ℕ) → 0 * 2 ^ 48 + l ≡ l
no_high l = omega arith

clear_free_bits_lem : (w : ℕ) → w < 2 ^ 64 → clear_free_bits w ≡ w % 2 ^ 48
unfolding clear_free_bits
clear_free_bits_lem w h = omega (
  arith,
  ap (λ t. bit_and t (2 ^ 48 - 1)) (fields w),
  bit_and_split 48 (w / 2 ^ 48) (w % 2 ^ 48) 0 (2 ^ 48 - 1) (omega arith) (omega arith),
  bit_and-zero_below 16 (w / 2 ^ 48) (omega arith),
  bit_and_ones 48 (w % 2 ^ 48) (omega arith),
)

set_free_bits_lem : (w : ℕ) → w < 2 ^ 64 → set_free_bits w ≡ (2 ^ 16 - 1) * 2 ^ 48 + w % 2 ^ 48
unfolding set_free_bits
set_free_bits_lem w h = omega (
  arith,
  ap (λ t. bit_or t free_bits_mask) (fields w),
  bit_or_split 48 (w / 2 ^ 48) (w % 2 ^ 48) (2 ^ 16 - 1) 0 (omega arith) (omega arith),
  bit_or_ones 16 (w / 2 ^ 48) (omega arith),
  bit_or-zero_below 48 (w % 2 ^ 48) (omega arith),
)

get_bit_lem : (w : ℕ) → w < 2 ^ 64 → get_bit w 47 ≡ w / 2 ^ 47 % 2
unfolding get_bit
get_bit_lem w h =
    omega (arith, bit_and_step (w / 2 ^ 47) 1, bit_and-zero_below 64 (w / 2 ^ 47 / 2) (omega arith))

pack_lem :
    (p : StampedPtr) → p.raw_ptr < 2 ^ 64 → pack p ≡ p.stamp % 2 ^ 16 * 2 ^ 48 + p.raw_ptr % 2 ^ 48
unfolding pack
pack_lem p h =
    let shifted : p.stamp * 2 ^ 48 % 2 ^ 64 ≡ p.stamp % 2 ^ 16 * 2 ^ 48 + 0 = omega arith in
    rw (clear_free_bits_lem p.raw_ptr h, shifted)
      (omega (
        arith,
        ap (λ t. bit_or t (p.stamp % 2 ^ 16 * 2 ^ 48 + 0)) (no_high (p.raw_ptr % 2 ^ 48)),
        bit_or_split 48 0 (p.raw_ptr % 2 ^ 48) (p.stamp % 2 ^ 16) 0 (omega arith) (omega arith),
        zero-bit_or (p.stamp % 2 ^ 16),
        bit_or-zero_below 48 (p.raw_ptr % 2 ^ 48) (omega arith),
      ))

-- An address as the hardware uses it: the 17 high bits are all equal.
abbrev pub IsCanonical : ℕ → Type 0
IsCanonical ptr = (ptr < 2 ^ 47) ⊎ ((2 ^ 64 - 2 ^ 47 ≤ ptr) × (ptr < 2 ^ 64))

to_canonical_form_lem :
    (w : ℕ)
    → w < 2 ^ 64
    → to_canonical_form w
      ≡ (if w / 2 ^ 47 % 2 == 0 then w % 2 ^ 48 else (2 ^ 16 - 1) * 2 ^ 48 + w % 2 ^ 48)
unfolding to_canonical_form
to_canonical_form_lem w h =
    rw (get_bit_lem w h, clear_free_bits_lem w h, set_free_bits_lem w h) refl

-- Packing a canonical address with any stamp and unpacking it gives the address back, and the low
-- 16 bits of the stamp: a stamp of at most kMaxStamp comes back whole.
pub unpack-pack :
    (p : StampedPtr)
    → IsCanonical p.raw_ptr
    → unpack (pack p) ≡ record { raw_ptr = p.raw_ptr; stamp = p.stamp % 2 ^ 16 }
unfolding unpack get_stamp
unpack-pack p c =
    let packed = pack_lem p (omega arith) in
    let small : pack p < 2 ^ 64 = omega (arith, packed) in
    rw (to_canonical_form_lem (pack p) small) (ground (arith, packed))

-- Unpacking any 64-bit word and packing the result gives the word back, and what is unpacked is a
-- canonical address with a stamp of at most kMaxStamp.
pub pack-unpack :
    (w : ℕ)
    → w < 2 ^ 64
    → (pack (unpack w) ≡ w) × IsCanonical (unpack w).raw_ptr × ((unpack w).stamp < 2 ^ 16)
unfolding unpack get_stamp
pack-unpack w h =
    let canonical = to_canonical_form_lem w h in
    let good : IsCanonical (to_canonical_form w) = ground (arith, canonical) in
    (ground (arith, canonical, pack_lem (unpack w) (omega arith)), good, omega arith)

-- CompareExchangeWeak on a word that holds `current`, for canonical addresses and stamps of at most
-- kMaxStamp: it stores the desired pointer exactly when the expected one is the current one and it
-- does not fail spuriously; otherwise the word stays as it is, and the caller gets the current one.
pub compare_exchange_weak_lem :
    (spurious : Bool) (expected desired current : StampedPtr)
    → IsCanonical expected.raw_ptr
    → expected.stamp < 2 ^ 16
    → IsCanonical current.raw_ptr
    → current.stamp < 2 ^ 16
    → let r = compare_exchange_weak spurious expected desired (pack current) in
      ((r.succeeded ≡ true)
        × (spurious ≡ false)
        × (expected ≡ current)
        × (r.packed_ptr ≡ pack desired))
      ⊎ ((r.succeeded ≡ false)
          × ((spurious ≡ true) ⊎ (¬ (expected ≡ current)))
          × (r.packed_ptr ≡ pack current)
          × (r.expected ≡ current))
unfolding compare_exchange_weak
compare_exchange_weak_lem spurious expected desired current ce se cc' sc =
    ground (arith, unpack-pack expected ce, unpack-pack current cc')

-- The assertion of DecrementStamp never fails: a value above the stamp wraps it round instead.
pub decrement_stamp_wraps :
    (value : ℕ) (p : StampedPtr)
    → p.stamp < value
    → value < 2 ^ 64
    → decrement_stamp value p ≡ some (record p { stamp = p.stamp + 2 ^ 64 - value })
unfolding decrement_stamp
decrement_stamp_wraps value p h k = ground arith
