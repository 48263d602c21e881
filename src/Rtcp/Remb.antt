-- ===== src/Rtcp/Remb.antt =====
-- The bitrate of a REMB packet (src/rtp.cpp): exponent, mantissa and the number of sources.
use Prim.Native.Nat.{digits, bit_or-bitwise}
use native.Mathlib.Decide.{dec_le}
use gstreamer_web_rtc.Prelude.{
  ℕ, zero, suc, ◌+◌, ◌-◌, ◌*◌, ◌/◌, ◌%◌, ◌≤◌, ◌<◌, max, ◌≡◌, refl, subst, ◌∙◌, Bool-cases, ◌⊎◌, inl,
  inr, ltb, bit_or, arith,
}
use gstreamer_web_rtc.Prelude.Word.{u32, htonl, htonl-htonl}
use gstreamer_web_rtc.Rtcp.{RtcpRemb, scale_bitrate, bitrate_field, set_bitrate}

-- A number shifted left by a number of bits.
unfoldable pub shifted : ℕ → ℕ → ℕ
shifted zero x = x
shifted (suc k) x = shifted k x * 2

shifted_le : (k x y : ℕ) → x ≤ y → shifted k x ≤ shifted k y
unfolding shifted
shifted_le zero x y h = h
shifted_le (suc k) x y h = omega (arith, shifted_le k x y h)

digits_zero : (n a : ℕ) → a ≤ n → digits (λ y. y) max n a 0 ≡ a
digits_zero zero a h = omega (arith, h)
digits_zero (suc n) zero h = refl
digits_zero (suc n) (suc a) h = rw (digits_zero n (suc a / 2) (omega (arith, h))) (omega arith)

digits_disjoint :
    (k n c a b : ℕ) → a ≡ shifted k c → a ≤ n → b < shifted k 1 → digits (λ y. y) max n a b ≡ a + b
unfolding shifted
digits_disjoint zero n c a zero e h lt = digits_zero n a h ∙ omega arith
digits_disjoint zero n c a (suc b) e h lt = absurd (omega (arith, lt))
digits_disjoint (suc k) zero c a b e h lt = omega (arith, h)
digits_disjoint (suc k) (suc n) c zero b e h lt = omega arith
digits_disjoint (suc k) (suc n) c (suc a) b e h lt =
    let half : suc a / 2 ≡ shifted k c = omega (arith, e) in
    let even : suc a % 2 ≡ 0 = omega (arith, e) in
    let rest : digits (λ y. y) max n (suc a / 2) (b / 2) ≡ suc a / 2 + b / 2 =
      digits_disjoint k n c (suc a / 2) (b / 2) half (omega (arith, h)) (omega (arith, lt)) in
    rw rest (omega (arith, even))

-- Bits below the lowest bit of a number.
bit_or-shifted : (k c b : ℕ) → b < shifted k 1 → bit_or (shifted k c) b ≡ shifted k c + b
bit_or-shifted k c b lt =
    simp bit_or-bitwise (digits_disjoint k (shifted k c) c (shifted k c) b refl (omega arith) lt)

-- The three parts of the field do not overlap.
bitrate_field-sum :
    (count exponent mantissa : ℕ)
    → count < 256
    → exponent < 64
    → mantissa < 262144
    → bitrate_field count (exponent, mantissa) ≡ count * 16777216 + exponent * 262144 + mantissa
unfolding bitrate_field
bitrate_field-sum count exponent mantissa hc he hm =
    let high : u32 (count * 16777216) ≡ shifted 24 count = unfold shifted in omega (arith, hc) in
    let middle : u32 (exponent * 262144) ≡ exponent * 262144 = omega (arith, he) in
    let below : exponent * 262144 < shifted 24 1 = unfold shifted in omega (arith, he) in
    let both : shifted 24 count + exponent * 262144 ≡ shifted 18 (count * 64 + exponent) =
      unfold shifted in omega arith in
    let low : mantissa < shifted 18 1 = unfold shifted in omega (arith, hm) in
    let total : shifted 18 (count * 64 + exponent) + mantissa
        ≡ count * 16777216 + exponent * 262144 + mantissa =
      unfold shifted in omega arith in
    rw
      (
        high,
        middle,
        bit_or-shifted 24 count (exponent * 262144) below,
        both,
        bit_or-shifted 18 (count * 64 + exponent) mantissa low,
      )
      total

-- What the loop makes of a bitrate.
record Scaled (exponent bitrate : ℕ) (r : ℕ × ℕ) : Type 0 where
  shift : ℕ
  exponent-shift : r.0 ≡ exponent + shift
  mantissa-fits : r.1 < 262144
  at_most : shifted shift r.1 ≤ bitrate
  less : bitrate < shifted shift (r.1 + 1)
  large : (shift ≡ 0) ⊎ (shifted shift 131072 ≤ bitrate)

large_step :
    (k b : ℕ) → (k ≡ 0) ⊎ (shifted k 131072 ≤ b / 2) → 262143 < b → shifted (suc k) 131072 ≤ b
unfolding shifted
large_step zero b (inl e) h = omega (arith, h)
large_step (suc k) b (inl e) h = absurd (omega (arith, e))
large_step k b (inr le) h = omega (arith, le)

shifted_more : (d k x : ℕ) → shifted k x ≤ shifted (d + k) x
shifted_more zero k x =
    let same : k ≡ 0 + k = omega arith in subst (λ n. shifted k x ≤ shifted n x) same (omega arith)
shifted_more (suc d) k x =
    let more : d + suc k ≡ suc d + k = omega arith in
    subst (λ n. shifted k x ≤ shifted n x) more
      (le_trans (shifted k x) (shifted (suc k) x) (shifted (d + suc k) x)
        (unfold shifted in omega arith) (shifted_more d (suc k) x))
  where
    le_trans : (a b c : ℕ) → a ≤ b → b ≤ c → a ≤ c
    le_trans a b c h k = omega (arith, h, k)

shift_small : (k b : ℕ) → (k ≡ 0) ⊎ (shifted k 131072 ≤ b) → b < 4294967296 → k ≤ 14
shift_small k b (inl e) h = omega (arith, e)
shift_small k b (inr le) h = elim (dec_le k 14) [
  | yes small ↦ small
  | no large ↦
      let d = k - 15 in
      let e : d + 15 ≡ k = omega (arith, large) in
      let top : shifted 15 131072 ≡ 4294967296 = unfold shifted in refl in
      absurd (
        omega (
          arith,
          subst (λ n. shifted 15 131072 ≤ shifted n 131072) e (shifted_more d 15 131072),
          top,
          le,
          h,
        ))
]

scale_bitrate-Scaled :
    (fuel exponent bitrate : ℕ)
    → bitrate < shifted fuel 262144
    → Scaled exponent bitrate (scale_bitrate fuel exponent bitrate)
unfolding scale_bitrate shifted
scale_bitrate-Scaled zero exponent bitrate h = record {
  shift = 0;
  exponent-shift = omega arith;
  mantissa-fits = h;
  at_most = omega arith;
  less = omega arith;
  large = inl refl;
}
scale_bitrate-Scaled (suc fuel) exponent bitrate h =
    let s = scale_bitrate-Scaled fuel (exponent + 1) (bitrate / 2) (omega (arith, h)) in
    elim (Bool-cases (ltb 262143 bitrate)) [
      | inl more ↦ rw more (record {
        shift = suc s.shift;
        exponent-shift = omega (arith, s.exponent-shift);
        mantissa-fits = s.mantissa-fits;
        at_most = omega (arith, s.at_most);
        less = omega (arith, s.less);
        large = inr (large_step s.shift bitrate s.large (ground (arith, more)));
      })
      | inr done ↦ rw done (record {
        shift = 0;
        exponent-shift = omega arith;
        mantissa-fits = ground (arith, done);
        at_most = omega arith;
        less = omega arith;
        large = inl refl;
      })
    ]

fuel_enough : (b : ℕ) → b < 4294967296 → b < shifted 32 262144
unfolding shifted
fuel_enough b h = omega (arith, h)

raw-bitrate_field :
    (count bitrate : ℕ) (r : RtcpRemb)
    → count < 256
    → (scale_bitrate 32 0 bitrate).0 < 64
    → (scale_bitrate 32 0 bitrate).1 < 262144
    → htonl (set_bitrate count bitrate r).raw_bitrate
      ≡ count * 16777216 + (scale_bitrate 32 0 bitrate).0 * 262144 + (scale_bitrate 32 0 bitrate).1
unfolding set_bitrate
raw-bitrate_field count bitrate r hc he hm =
    let scaled = scale_bitrate 32 0 bitrate in
    let sum = bitrate_field-sum count scaled.0 scaled.1 hc he hm in
    let fits : bitrate_field count scaled < 4294967296 = omega (arith, sum, hc, he, hm) in
    htonl-htonl (bitrate_field count scaled) fits ∙ sum

parts :
    (f count e m : ℕ)
    → e < 64
    → m < 262144
    → f ≡ count * 16777216 + e * 262144 + m
    → (f / 16777216 ≡ count) × (f / 262144 % 64 ≡ e) × (f % 262144 ≡ m)
parts f count e m he hm sum =
    (omega (arith, he, hm, sum), omega (arith, he, hm, sum), omega (arith, he, hm, sum))

-- A mantissa has its highest bit, if it was shifted.
normal :
    (k m b : ℕ) → (k ≡ 0) ⊎ (shifted k 131072 ≤ b) → b < shifted k (m + 1) → (k ≡ 0) ⊎ (131072 ≤ m)
normal k m b (inl e) h = inl e
normal k m b (inr le) h = elim (dec_le 131072 m) [
  | yes large ↦ inr large
  | no small ↦ absurd (omega (arith, shifted_le k (m + 1) 131072 (omega (arith, small)), le, h))
]

-- The field of a REMB packet that stands for a bitrate of 32 bits, with fewer than 256 sources, as
-- a receiver reads it: the number of sources, an exponent of at most 14, and a mantissa, which
-- shifted by the exponent is the bitrate but for the bits that are cut off.
pub set_bitrate_read :
    (count bitrate : ℕ) (r : RtcpRemb)
    → count < 256
    → bitrate < 4294967296
    → (let field = htonl (set_bitrate count bitrate r).raw_bitrate in
        let exponent = field / 262144 % 64 in
        let mantissa = field % 262144 in
        (field / 16777216 ≡ count)
        × (exponent ≤ 14)
        × (shifted exponent mantissa ≤ bitrate)
        × (bitrate < shifted exponent (mantissa + 1))
        × ((exponent ≡ 0) ⊎ (131072 ≤ mantissa)))
set_bitrate_read count bitrate r hc hb =
    let s = scale_bitrate-Scaled 32 0 bitrate (fuel_enough bitrate hb) in
    let scaled = scale_bitrate 32 0 bitrate in
    let fourteen = shift_small s.shift bitrate s.large hb in
    let e : scaled.0 ≡ s.shift = omega (arith, s.exponent-shift) in
    let small : scaled.0 < 64 = omega (arith, e, fourteen) in
    let (n, x, m) =
      parts (htonl (set_bitrate count bitrate r).raw_bitrate) count scaled.0 scaled.1 small
        s.mantissa-fits (raw-bitrate_field count bitrate r hc small s.mantissa-fits) in
    rw (x, m)
      (rw e (n, fourteen, s.at_most, s.less, normal s.shift scaled.1 bitrate s.large s.less))
