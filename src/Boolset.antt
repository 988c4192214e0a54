-- ===== src/Boolset.antt =====
-- crates/cloudreve-api/src/boolset/mod.rs: a set of small numbers as the bits of a sequence of bytes.
-- The base64 engine is left out.
pub mod Bits
use Prim.Native.Nat.{bit_and, bit_or}
use cloudreve_desktop.Prelude.{
  ℕ, List, ltb, leb, ◌==◌, if◌then◌else◌, length, get_elem?, set, replicate, ◌+◌, ◌-◌, ◌*◌, ◌/◌,
  ◌%◌, ◌^◌, Bool, true, false, not, Option, none, some, [], ◌∷◌, ◌++◌,
}

unfoldable pub bit : ℕ → ℕ
bit index = 2 ^ (index % 8)

-- `byte & (1 << index % 8) != 0`.
unfoldable pub byte_enabled : ℕ → ℕ → Bool
byte_enabled byte index = not (bit_and byte (bit index) == 0)

-- `|=` and `&= !` of a u8.
unfoldable pub set_byte : ℕ → Bool → ℕ → ℕ
set_byte index true byte = bit_or byte (bit index)
set_byte index false byte = bit_and byte (255 - bit index)

abbrev pub or_zero : Option ℕ → ℕ
or_zero none = 0
or_zero (some byte) = byte

unfoldable pub enabled : List ℕ → ℕ → Bool
enabled bytes index =
    if leb (length bytes * 8) index
    then false
    else byte_enabled (or_zero (get_elem? bytes (index / 8))) index

-- `resize(n, 0)` where the sequence is shorter.
unfoldable pub expand : List ℕ → ℕ → List ℕ
expand bytes n = if ltb (length bytes) n then bytes ++ replicate (n - length bytes) 0 else bytes

unfoldable pub set_bit : List ℕ → ℕ → Bool → List ℕ
set_bit bytes index on =
    let grown = expand bytes (index / 8 + 1) in
    set grown (index / 8) (set_byte index on (or_zero (get_elem? grown (index / 8))))

unfoldable pub sets : List (ℕ × Bool) → List ℕ → List ℕ
sets [] bytes = bytes
sets ((index, on) ∷ values) bytes = sets values (set_bit bytes index on)

-- The bytes of `and` and `or`, of which a missing one is 0.
unfoldable pub and_bytes : List ℕ → List ℕ → List ℕ
and_bytes [] ys = replicate (length ys) 0
and_bytes (x ∷ xs) [] = 0 ∷ and_bytes xs []
and_bytes (x ∷ xs) (y ∷ ys) = bit_and x y ∷ and_bytes xs ys

unfoldable pub or_bytes : List ℕ → List ℕ → List ℕ
or_bytes [] ys = ys
or_bytes (x ∷ xs) [] = x ∷ or_bytes xs []
or_bytes (x ∷ xs) (y ∷ ys) = bit_or x y ∷ or_bytes xs ys
