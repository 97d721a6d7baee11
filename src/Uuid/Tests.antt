-- ===== src/Uuid/Tests.antt =====
-- Runs of the identifiers, and the two masks as the code writes them.
use kubemq_cpp.Base.{ℕ, ◌≡◌, refl}
use kubemq_cpp.Uuid.{set_version, set_variant, generate_uuid}
use kubemq_cpp.Uuid.Format.{IsUuid, generate_uuid-IsUuid}
use Prim.Native.Nat.{bit_and, bit_or}

-- 0x0123456789ABCDEF and 0xFEDCBA9876543210
abbrev first_draw : ℕ
first_draw = 81985529216486895

abbrev second_draw : ℕ
second_draw = 18364758544493064720

version_mask : set_version first_draw ≡ bit_or (bit_and first_draw 18446744073709490175) 16384
unfolding set_version
version_mask = refl

version_mask_full :
    set_version second_draw ≡ bit_or (bit_and second_draw 18446744073709490175) 16384
unfolding set_version
version_mask_full = refl

variant_mask :
    set_variant second_draw ≡ bit_or (bit_and second_draw 4611686018427387903) 9223372036854775808
unfolding set_variant
variant_mask = refl

generate_uuid-IsUuid_example : IsUuid (generate_uuid first_draw second_draw)
generate_uuid-IsUuid_example = generate_uuid-IsUuid first_draw second_draw
