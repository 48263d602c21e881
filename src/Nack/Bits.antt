-- ===== src/Nack/Bits.antt =====
-- A number of the binary digits below a power of two, and that power.
use Prim.Native.Nat.{digits, bit_and-bitwise, bit_or-bitwise}
use gstreamer_web_rtc.Prelude.{
  ℕ, zero, suc, ◌+◌, ◌/◌, ◌%◌, ◌^◌, ◌≤◌, ◌<◌, min, max, bit_and, bit_or, ◌≡◌, refl, arith,
}

pub pow_suc : (k : ℕ) → 2 ^ suc k ≡ 2 ^ k + 2 ^ k
pow_suc k = omega arith

digits_disjoint : (k n a : ℕ) → a ≤ n → a < 2 ^ k → digits (λ y. y) max n a (2 ^ k) ≡ a + 2 ^ k
digits_disjoint k zero a h lt = omega (arith, h)
digits_disjoint k (suc n) zero h lt = omega arith
digits_disjoint zero (suc n) (suc a) h lt = absurd (omega (arith, lt))
digits_disjoint (suc k) (suc n) (suc a) h lt =
    let half : 2 ^ suc k / 2 ≡ 2 ^ k = omega (arith, pow_suc k) in
    let rest : digits (λ y. y) max n (suc a / 2) (2 ^ k) ≡ suc a / 2 + 2 ^ k =
      digits_disjoint k n (suc a / 2) (omega (arith, h)) (omega (arith, lt, pow_suc k)) in
    rw (half, rest) (omega (arith, pow_suc k))

-- A bit above all the digits of a number.
pub bit_or-pow : (k a : ℕ) → a < 2 ^ k → bit_or a (2 ^ k) ≡ a + 2 ^ k
bit_or-pow k a lt = simp bit_or-bitwise (digits_disjoint k a a (omega arith) lt)

digits_none : (n a : ℕ) → digits (λ y. 0) min n a 0 ≡ 0
digits_none zero a = refl
digits_none (suc n) zero = refl
digits_none (suc n) (suc a) = rw (digits_none n (suc a / 2)) (omega arith)

pub bit_and-one : (a : ℕ) → bit_and a 1 ≡ a % 2
bit_and-one zero = refl
bit_and-one (suc a) = simp bit_and-bitwise (rw (digits_none a (suc a / 2)) (omega arith))
