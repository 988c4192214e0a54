-- ===== src/Uploader/Encrypt/Counter.antt =====
-- The 128-bit big-endian counter: incrementing adds modulo 2 ^ 128.
use cloudreve_desktop.Prelude.{
  ◌==◌, Bool-cases, length, set, ℕ, zero, suc, ◌+◌, ◌*◌, ◌%◌, ◌^◌, ◌≤◌, ◌<◌, ◌≡◌, refl, ap, ◌∙◌,
  ◌≢◌, inl, inr, [], ◌∷◌, arith, ◌/◌, sym, pow-suc, ==_iff, All, length-set, add-zero,
}
use native.Mathlib.Nat.{mod-lt, mod-eq_of_lt, mul-add-mod_self_right, div-add-mod'}
use cloudreve_desktop.Uploader.Encrypt.{Bytes, byte_at, increment_from, increment_counter}

-- The number that the first `n` bytes stand for, the first being the highest.
pub big_endian : ℕ → Bytes → ℕ
big_endian zero counter = 0
big_endian (suc i) counter = big_endian i counter * 256 + byte_at counter i

byte_at-set_self : (bs : Bytes) (i v : ℕ) → i < length bs → byte_at (set bs i v) i ≡ v
byte_at-set_self [] i v h = elim h [ ]
byte_at-set_self (b ∷ bs) zero v h = refl
byte_at-set_self (b ∷ bs) (suc i) v h = byte_at-set_self bs i v (omega arith)

byte_at-set_ne : (bs : Bytes) (i j v : ℕ) → i ≢ j → byte_at (set bs i v) j ≡ byte_at bs j
byte_at-set_ne [] i j v h = refl
byte_at-set_ne (b ∷ bs) zero zero v h = absurd (h refl)
byte_at-set_ne (b ∷ bs) zero (suc j) v h = refl
byte_at-set_ne (b ∷ bs) (suc i) zero v h = refl
byte_at-set_ne (b ∷ bs) (suc i) (suc j) v h = byte_at-set_ne bs i j v (λ e. h (ap suc e))

-- A write at or above `n` leaves the first `n` bytes.
big_endian-set :
    (n : ℕ) (bs : Bytes) (i v : ℕ) → n ≤ i → big_endian n (set bs i v) ≡ big_endian n bs
unfolding big_endian
big_endian-set zero bs i v h = refl
big_endian-set (suc n) bs i v h =
    cc (big_endian-set n bs i v (omega arith), byte_at-set_ne bs i n v (λ e. omega arith))

-- The rounds below `n` leave the bytes from `n` on.
byte_at-increment_from :
    (n : ℕ) (bs : Bytes) (carry i : ℕ)
    → n ≤ i
    → byte_at (increment_from n bs carry) i ≡ byte_at bs i
unfolding increment_from
byte_at-increment_from zero bs carry i h = refl
byte_at-increment_from (suc n) bs carry i h = elim (Bool-cases (carry == 0)) [
  | inl done ↦ rw done
  | inr more ↦
      rw more
        (byte_at-increment_from n _ _ i (omega arith) ∙ byte_at-set_ne bs n i _ (λ e. omega arith))
]

byte_at-lt : (bs : Bytes) (i : ℕ) → All (λ b. b < 256) bs → byte_at bs i < 256
byte_at-lt [] i h = omega arith
byte_at-lt (b ∷ bs) zero h = h.0
byte_at-lt (b ∷ bs) (suc i) h = byte_at-lt bs i h.1

mod_scaled : (x r m : ℕ) → 0 < m → r < 256 → (x % m) * 256 + r ≡ (x * 256 + r) % (m * 256)
mod_scaled x r m p h = sym (
    ap (λ t. t % (m * 256)) split
    ∙ mul-add-mod_self_right (x / m) (m * 256) (x % m * 256 + r)
    ∙ mod-eq_of_lt (omega (arith, mod-lt x p)))
  where
    split : x * 256 + r ≡ x / m * (m * 256) + (x % m * 256 + r)
    split = omega (arith, div-add-mod' x m)

pow_pos : (n : ℕ) → 0 < 256 ^ n
pow_pos zero = omega arith
pow_pos (suc n) = rw pow-suc (omega (arith, pow_pos n))

-- One round's digit and the rounds below it make up the sum.
round_lem :
    (p b carry m : ℕ)
    → 0 < m
    → ((p + (carry / 256 + (b + carry % 256) / 256)) % m) * 256 + (b + carry % 256) % 256
      ≡ (p * 256 + b + carry) % (m * 256)
round_lem p b carry m h =
    mod_scaled (p + (carry / 256 + (b + carry % 256) / 256)) ((b + carry % 256) % 256) m h
      (omega arith)
    ∙ ap (λ t. t % (m * 256)) (omega arith)

no_carry : (v m carry : ℕ) → carry ≡ 0 → v < m → v ≡ (v + carry) % m
no_carry v m carry e h = rw (e, add-zero) (sym (mod-eq_of_lt h))

increment_from_lem :
    (n : ℕ) (bs : Bytes) (carry : ℕ)
    → n ≤ length bs
    → big_endian n bs < 256 ^ n
    → big_endian n (increment_from n bs carry) ≡ (big_endian n bs + carry) % 256 ^ n
unfolding big_endian increment_from
increment_from_lem zero bs carry h b = omega arith
increment_from_lem (suc n) bs carry h b =
    let b' : big_endian n bs * 256 + byte_at bs n < 256 ^ n * 256 = rw (pow-suc 256 n) at b in
    elim (Bool-cases (carry == 0)) [
      | inl done ↦
          rw (done, pow-suc)
            (no_carry (big_endian n bs * 256 + byte_at bs n) (256 ^ n * 256) carry
              ((==_iff carry 0).0 done) b')
      | inr more ↦
          let sum = byte_at bs n + carry % 256 in
          let unchanged : big_endian n (set bs n (sum % 256)) ≡ big_endian n bs =
            big_endian-set n bs n (sum % 256) (omega arith) in
          rw
            (
              more,
              pow-suc,
              increment_from_lem n (set bs n (sum % 256)) (carry / 256 + sum / 256)
                  (rw (length-set bs n (sum % 256)) (omega arith)) (rw unchanged (omega arith)),
              unchanged,
              byte_at-increment_from n (set bs n (sum % 256)) (carry / 256 + sum / 256) n
                  (omega arith),
              byte_at-set_self bs n (sum % 256) (omega arith),
            )
            (round_lem (big_endian n bs) (byte_at bs n) carry (256 ^ n) (pow_pos n))
    ]

big_endian-lt : (n : ℕ) (bs : Bytes) → All (λ b. b < 256) bs → big_endian n bs < 256 ^ n
unfolding big_endian
big_endian-lt zero bs h = omega arith
big_endian-lt (suc n) bs h = rw pow-suc (omega (arith, big_endian-lt n bs h, byte_at-lt bs n h))

-- Incrementing a counter of 16 bytes by any number of blocks adds that number modulo 2 ^ 128.
pub increment_counter-add :
    (counter : Bytes) (blocks : ℕ)
    → length counter ≡ 16
    → All (λ b. b < 256) counter
    → big_endian 16 (increment_counter counter blocks) ≡ (big_endian 16 counter + blocks) % 2 ^ 128
unfolding increment_counter
increment_counter-add counter blocks len bytes =
    increment_from_lem 16 counter blocks (omega arith) (big_endian-lt 16 counter bytes)

All-set : (bs : Bytes) (i v : ℕ) → v < 256 → All (λ b. b < 256) bs → All (λ b. b < 256) (set bs i v)
All-set [] i v h a = tt
All-set (b ∷ bs) zero v h a = (h, a.1)
All-set (b ∷ bs) (suc i) v h a = (a.0, All-set bs i v h a.1)

increment_from-IsBytes :
    (n : ℕ) (bs : Bytes) (carry : ℕ)
    → All (λ b. b < 256) bs
    → (length (increment_from n bs carry) ≡ length bs)
      × All (λ b. b < 256) (increment_from n bs carry)
unfolding increment_from
increment_from-IsBytes zero bs carry a = (refl, a)
increment_from-IsBytes (suc n) bs carry a = elim (Bool-cases (carry == 0)) [
  | inl done ↦ rw done (refl, a)
  | inr more ↦
      let sum = byte_at bs n + carry % 256 in
      let (len, bytes) =
        increment_from-IsBytes n (set bs n (sum % 256)) (carry / 256 + sum / 256)
          (All-set bs n (sum % 256) (omega arith) a) in
      rw more (len ∙ length-set bs n (sum % 256), bytes)
]

-- A counter of 16 bytes that is incremented is again one of 16 bytes.
pub increment_counter-IsBytes :
    (counter : Bytes) (blocks : ℕ)
    → length counter ≡ 16
    → All (λ b. b < 256) counter
    → (length (increment_counter counter blocks) ≡ 16)
      × All (λ b. b < 256) (increment_counter counter blocks)
unfolding increment_counter
increment_counter-IsBytes counter blocks len bytes =
    let (l, a) = increment_from-IsBytes 16 counter blocks bytes in (l ∙ len, a)
