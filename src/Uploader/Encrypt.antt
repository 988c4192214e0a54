-- ===== src/Uploader/Encrypt.antt =====
-- uploader/encrypt.rs: AES-256-CTR from a byte offset. Bytes are numbers below 256, arrays are
-- lists. The ctr and aes crates are a parameter: `Cipher` gives the keystream byte at a position
-- for a key and an initial counter block.
pub mod Counter
pub mod Offset
use cloudreve_desktop.Prelude.{
  ltb, ◌==◌, if◌then◌else◌, length, set, take, drop, replicate, ℕ, zero, suc, ◌+◌, ◌-◌, ◌/◌, ◌%◌,
  min, bit_xor, List, [], ◌∷◌, ◌++◌,
}

abbrev pub Bytes : Type 0
Bytes = List ℕ

abbrev pub byte_at : Bytes → ℕ → ℕ
byte_at [] i = 0
byte_at (b ∷ bs) zero = b
byte_at (b ∷ bs) (suc i) = byte_at bs i

-- The rounds of `for i in (0..16).rev()` from index `n - 1` down; `carry & 0xFF` is `carry % 256`
-- and `>> 8` is `/ 256`. The u64 sums stay below 2 ^ 57.
pub increment_from : ℕ → Bytes → ℕ → Bytes
increment_from zero counter carry = counter
increment_from (suc i) counter carry =
    let sum = byte_at counter i + carry % 256 in
    let rest = increment_from i (set counter i (sum % 256)) (carry / 256 + sum / 256) in
    if carry == 0 then counter else rest

pub increment_counter : Bytes → ℕ → Bytes
unfolding increment_from
increment_counter counter blocks = increment_from 16 counter blocks

pub record EncryptionConfig : Type 0 where
  pub key : Bytes
  pub iv : Bytes

-- What the crates give: `keystream key counter i` is byte `i` of the stream of
-- `Aes256Ctr::new(key, counter)`.
abbrev pub Cipher : Type 0
Cipher = Bytes → Bytes → ℕ → ℕ

-- A stream cipher in use, with the position that `apply_keystream` advances.
pub record StreamCipher : Type 0 where
  pub stream : ℕ → ℕ
  pub position : ℕ

-- `data` XORed with the stream from a position on.
abbrev pub xor_from : (ℕ → ℕ) → ℕ → Bytes → Bytes
xor_from stream i [] = []
xor_from stream i (b ∷ bs) = bit_xor b (stream i) ∷ xor_from stream (suc i) bs

abbrev apply_keystream : StreamCipher → Bytes → Bytes × StreamCipher
apply_keystream c bytes =
    (xor_from c.stream c.position bytes, record c { position = c.position + length bytes })

create_cipher_at_offset : Cipher → EncryptionConfig → ℕ → StreamCipher
create_cipher_at_offset keystream config byte_offset =
    let block_offset = byte_offset / 16 in
    record {
      stream = keystream config.key (increment_counter config.iv block_offset);
      position = 0;
    }

-- The head of unaligned data goes through a zero-padded block; `offset` is `byte_offset % 16`.
unaligned : StreamCipher → ℕ → Bytes → Bytes
unaligned cipher offset bytes =
    let first_block_remaining = min (16 - offset) (length bytes) in
    let temp_block =
      replicate offset 0
      ++ (take first_block_remaining bytes ++ replicate (16 - offset - first_block_remaining) 0) in
    let (out, cipher') = apply_keystream cipher temp_block in
    take first_block_remaining (drop offset out)
    ++ (if ltb first_block_remaining (length bytes)
        then (apply_keystream cipher' (drop first_block_remaining bytes)).0
        else [])

pub encrypt_at_offset : Cipher → EncryptionConfig → Bytes → ℕ → Bytes
unfolding unaligned create_cipher_at_offset
encrypt_at_offset keystream config bytes byte_offset =
    let cipher = create_cipher_at_offset keystream config byte_offset in
    if byte_offset % 16 == 0
    then (apply_keystream cipher bytes).0
    else unaligned cipher (byte_offset % 16) bytes
