-- ===== src/Boolset/Bits.antt =====
-- crates/cloudreve-api/src/boolset/mod.rs: what is set is enabled, and nothing else changes.
use cloudreve_desktop.Boolset.{set_bit, or_zero, expand, enabled, bit, set_byte, byte_enabled}
use cloudreve_desktop.Prelude.{
  ℕ, ◌==◌, if◌then◌else◌, zero, suc, ◌<◌, ◌≡◌, refl, sym, Bool, true, false, not, ◌&&◌, arith, ltb,
  leb, ltb→lt, if-rule, length, get_elem?, replicate, length-append, All, length-replicate, ◌-◌,
  ◌*◌, ◌/◌, ◌%◌, ◌^◌, ◌≤◌, ap, ◌∙◌, List, [], ◌∷◌, ◌++◌, ==_iff, Bool-cases, get_elem?-set_self,
  get_elem?-set_ne, ◌+◌, inl, inr, and_right, subst,
}
use Prim.Native.Nat.{bit_and, bit_or}

-- A test on every number below a bound.
every : (ℕ → Bool) → ℕ → Bool
every test zero = true
every test (suc bound) = every test bound && test bound

every-at :
    (test : ℕ → Bool) {bound : ℕ} (k : ℕ) → every test bound ≡ true → k < bound → test k ≡ true
unfolding every
every-at test {bound = zero} k checked below = absurd (omega arith)
every-at test {bound = suc bound} k checked below = elim (Bool-cases (k == bound)) [
  | inl last ↦
      subst (λ m. test m ≡ true) (sym ((==_iff k bound).0 last))
        (and_right (every test bound) (test bound) checked)
  | inr earlier ↦
      every-at test {bound = bound} k (ground (arith, checked)) (ground (arith, earlier))
]

same_bool : Bool → Bool → Bool
same_bool true b = b
same_bool false b = not b

same_bool-eq : (a b : Bool) → same_bool a b ≡ true → a ≡ b
unfolding same_bool
same_bool-eq true b e = sym e
same_bool-eq false true e = absurd cc
same_bool-eq false false e = refl

byte_law : Bool → ℕ → ℕ → ℕ → Bool
byte_law on i j byte =
    same_bool (byte_enabled (set_byte i on byte) j) (if i == j then on else byte_enabled byte j)

-- Every byte, and every pair of bits.
byte_table : Bool → Bool
byte_table on = every (λ i. every (λ j. every (byte_law on i j) 256) 8) 8

byte_table-true : (on : Bool) → byte_table on ≡ true
unfolding byte_table every byte_law same_bool byte_enabled set_byte bit
byte_table-true true = refl
byte_table-true false = refl

bit-mod : (i : ℕ) → bit (i % 8) ≡ bit i
unfolding bit
bit-mod i = ap (λ n. 2 ^ n) (omega arith)

byte_enabled-mod : (byte j : ℕ) → byte_enabled byte (j % 8) ≡ byte_enabled byte j
unfolding byte_enabled
byte_enabled-mod byte j = ap (λ m. not (bit_and byte m == 0)) (bit-mod j)

set_byte-mod : (i : ℕ) (on : Bool) (byte : ℕ) → set_byte (i % 8) on byte ≡ set_byte i on byte
unfolding set_byte
set_byte-mod i true byte = ap (bit_or byte) (bit-mod i)
set_byte-mod i false byte = ap (λ m. bit_and byte (255 - m)) (bit-mod i)

byte_law-holds :
    (on : Bool) (i j byte : ℕ) → i < 8 → j < 8 → byte < 256 → byte_law on i j byte ≡ true
unfolding byte_table
byte_law-holds on i j byte hi hj hb =
    every-at (byte_law on i j) byte
      (every-at (λ k. every (byte_law on i k) 256) j
        (every-at (λ l. every (λ k. every (byte_law on l k) 256) 8) i (byte_table-true on) hi) hj)
      hb

byte_enabled-set_byte :
    (on : Bool) (i j byte : ℕ)
    → byte < 256
    → byte_enabled (set_byte i on byte) j ≡ (if i % 8 == j % 8 then on else byte_enabled byte j)
unfolding byte_law
byte_enabled-set_byte on i j byte h =
    sym (ap (λ b. byte_enabled b j) (set_byte-mod i on byte))
    ∙ sym (byte_enabled-mod (set_byte (i % 8) on byte) j)
    ∙ same_bool-eq _ _ (byte_law-holds on (i % 8) (j % 8) byte (omega arith) (omega arith) h)
    ∙ ap (λ b. if i % 8 == j % 8 then on else b) (byte_enabled-mod byte j)

byte_at : List ℕ → ℕ → ℕ
byte_at bytes k = or_zero (get_elem? bytes k)

zero_disabled : (j : ℕ) → byte_enabled 0 j ≡ false
unfolding every same_bool byte_enabled bit
zero_disabled j =
    sym (byte_enabled-mod 0 j)
    ∙ same_bool-eq _ _
        (every-at (λ k. same_bool (byte_enabled 0 k) false) {bound = 8} (j % 8) refl (omega arith))

byte_at-beyond : (bytes : List ℕ) (k : ℕ) → length bytes ≤ k → byte_at bytes k ≡ 0
unfolding byte_at
byte_at-beyond [] k h = refl
byte_at-beyond (x ∷ xs) zero h = absurd (omega arith)
byte_at-beyond (x ∷ xs) (suc k) h = byte_at-beyond xs k (omega arith)

enabled-byte_at :
    (bytes : List ℕ) (j : ℕ) → enabled bytes j ≡ byte_enabled (byte_at bytes (j / 8)) j
unfolding enabled byte_at
enabled-byte_at bytes j =
    if-rule (λ b. b ≡ byte_enabled (byte_at bytes (j / 8)) j) (leb (length bytes * 8) j)
      (λ beyond. sym (
        ap (λ b. byte_enabled b j) (byte_at-beyond bytes (j / 8) (ground arith)) ∙ zero_disabled j))
      (λ inside. refl)

byte_at-zeros : (n k : ℕ) → byte_at (replicate n 0) k ≡ 0
unfolding byte_at
byte_at-zeros zero k = refl
byte_at-zeros (suc n) zero = refl
byte_at-zeros (suc n) (suc k) = byte_at-zeros n k

byte_at-append_zeros :
    (bytes : List ℕ) (n k : ℕ) → byte_at (bytes ++ replicate n 0) k ≡ byte_at bytes k
unfolding byte_at
byte_at-append_zeros [] n k = byte_at-zeros n k
byte_at-append_zeros (x ∷ xs) n zero = refl
byte_at-append_zeros (x ∷ xs) n (suc k) = byte_at-append_zeros xs n k

byte_at-expand : (bytes : List ℕ) (n k : ℕ) → byte_at (expand bytes n) k ≡ byte_at bytes k
unfolding expand
byte_at-expand bytes n k =
    if-rule (λ r. byte_at r k ≡ byte_at bytes k) (ltb (length bytes) n)
      (λ short. byte_at-append_zeros bytes _ k) (λ long. refl)

length-expand : (bytes : List ℕ) (n : ℕ) → n ≤ length (expand bytes n)
unfolding expand
length-expand bytes n =
    if-rule (λ (r : List ℕ). n ≤ length r) (ltb (length bytes) n)
      (λ short. grown (ltb→lt (length bytes) n short)) kept
  where
    grown : length bytes < n → n ≤ length (bytes ++ replicate (n - length bytes) 0)
    grown short = omega (
      arith,
      length-append bytes (replicate (n - length bytes) 0),
      length-replicate {A = ℕ} (n - length bytes) 0,
    )

    kept : ltb (length bytes) n ≡ false → n ≤ length bytes
    kept long = ground (arith, long)

byte_at-bound : (bytes : List ℕ) (k : ℕ) → All (λ x. x < 256) bytes → byte_at bytes k < 256
unfolding byte_at
byte_at-bound [] k h = omega arith
byte_at-bound (x ∷ xs) zero (h, rest) = h
byte_at-bound (x ∷ xs) (suc k) (h, rest) = byte_at-bound xs k rest

different : (a b : ℕ) → (a == b) ≡ false → a ≡ b → ⊥
different a b e same = let t = (==_iff a b).1 same in cc

same_mod : (i j : ℕ) → (i / 8 == j / 8) ≡ true → (i % 8 == j % 8) ≡ (i == j)
same_mod i j e = ground arith

different_byte : (i j : ℕ) → (i / 8 == j / 8) ≡ false → (i == j) ≡ false
different_byte i j e = ground arith

byte_at-set_bit :
    (bytes : List ℕ) (i : ℕ) (on : Bool) (k : ℕ)
    → byte_at (set_bit bytes i on) k
      ≡ (if i / 8 == k then set_byte i on (byte_at bytes k) else byte_at bytes k)
unfolding set_bit byte_at
byte_at-set_bit bytes i on k =
    let grown = expand bytes (i / 8 + 1) in
    let long = length-expand bytes (i / 8 + 1) in
    elim (Bool-cases (i / 8 == k)) [
      | inl e ↦ rw e (
          ap (λ n. byte_at (set_bit bytes i on) n) (sym ((==_iff (i / 8) k).0 e))
          ∙ ap or_zero (get_elem?-set_self grown (i / 8) _ (omega (arith, long)))
          ∙ ap (set_byte i on) (
              byte_at-expand bytes (i / 8 + 1) (i / 8)
              ∙ ap (byte_at bytes) ((==_iff (i / 8) k).0 e)))
      | inr e ↦ rw e (
          ap or_zero (get_elem?-set_ne grown _ (λ same. different (i / 8) k e same))
          ∙ byte_at-expand bytes (i / 8 + 1) k)
    ]

-- Of a set of bytes, setting or clearing a number makes just that number enabled or not, whether or not
-- the bytes reach to it, and leaves every other number as it was.
pub enabled-set_bit :
    (bytes : List ℕ) (i : ℕ) (on : Bool) (j : ℕ)
    → All (λ x. x < 256) bytes
    → enabled (set_bit bytes i on) j ≡ (if i == j then on else enabled bytes j)
enabled-set_bit bytes i on j h =
    let byte = byte_at bytes (j / 8) in
    enabled-byte_at (set_bit bytes i on) j
    ∙ ap (λ b. byte_enabled b j) (byte_at-set_bit bytes i on (j / 8))
    ∙ elim (Bool-cases (i / 8 == j / 8)) [
      | inl e ↦ rw e (
          byte_enabled-set_byte on i j byte (byte_at-bound bytes (j / 8) h)
          ∙ ap (λ b. if b then on else byte_enabled byte j) (same_mod i j e)
          ∙ ap (λ b. if i == j then on else b) (sym (enabled-byte_at bytes j)))
      | inr e ↦ rw (e, different_byte i j e) (sym (enabled-byte_at bytes j))
    ]
