-- ===== src/Lockfree/StampedPtr/Examples.antt =====
-- Stamped pointers at concrete words.
use magic_core.Prelude.{◌≡◌, refl, inr, arith}
use magic_core.Lockfree.StampedPtr.{StampedPtr, clear_free_bits, pack, unpack}
use magic_core.Lockfree.StampedPtr.Packing.{unpack-pack}

abbrev user : StampedPtr
user = record { raw_ptr = 0x7f12_3456_7890; stamp = 42 }

abbrev kernel : StampedPtr
kernel = record { raw_ptr = 0xffff_8000_0000_1000; stamp = 65_539 }

pack-kernel : pack kernel ≡ 0x0003_8000_0000_1000
unfolding pack clear_free_bits
pack-kernel = refl

unpack-pack_example : unpack (pack kernel) ≡ record { raw_ptr = 0xffff_8000_0000_1000; stamp = 3 }
unpack-pack_example = unpack-pack kernel (inr (omega arith))
