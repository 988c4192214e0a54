-- ===== src/Tests/Boolsets.antt =====
-- A set of small numbers at concrete inputs.
use cloudreve_desktop.Boolset.{bit, expand, set_byte, set_bit, sets, or_bytes, enabled, and_bytes}
use cloudreve_desktop.Prelude.{◌==◌, if◌then◌else◌, ◌≡◌, refl, true, false, [], ◌∷◌, arith}
use cloudreve_desktop.Boolset.Bits.{enabled-set_bit}

-- The bit 11 is beyond the one byte that is there.
enabled-set_bit_example :
    enabled (set_bit (5 ∷ []) 11 true) 11 ≡ (if 11 == 11 then true else enabled (5 ∷ []) 11)
enabled-set_bit_example = enabled-set_bit (5 ∷ []) 11 true 11 (omega arith, tt)

two_bytes : sets ((11, true) ∷ (0, false) ∷ []) (5 ∷ []) ≡ 4 ∷ 8 ∷ []
unfolding sets set_bit set_byte expand bit
two_bytes = refl

conjunction : and_bytes (5 ∷ 3 ∷ []) (4 ∷ []) ≡ 4 ∷ 0 ∷ []
unfolding and_bytes
conjunction = refl

disjunction : or_bytes (5 ∷ 3 ∷ []) (10 ∷ []) ≡ 15 ∷ 3 ∷ []
unfolding or_bytes
disjunction = refl
