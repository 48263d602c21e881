-- ===== src/Prelude/Word.antt =====
-- Words of fixed width on natural numbers: byte order, and masks on one byte as arithmetic.
-- `htons`, `htonl` and `htonll` are those of a little-endian host.
use Prim.Native.Nat.{ℕ, zero, suc, ◌+◌, ◌*◌, ◌/◌, ◌%◌, ◌<◌, bit_and}
use mathlib.Core.Path.{◌≡◌, refl}
use mathlib.Core.Bool.{Bool, true, false, ◌&&◌}
use mathlib.Core.List.{List, [], ◌∷◌}
use native.Mathlib.Omega.{arith}
use gstreamer_web_rtc.Prelude.Tests.{◌==◌, ==_iff}

abbrev pub IsByte : ℕ → Type 0
IsByte b = b < 256

abbrev pub u8 : ℕ → ℕ
u8 x = x % 256

abbrev pub u16 : ℕ → ℕ
u16 x = x % 65536

abbrev pub u32 : ℕ → ℕ
u32 x = x % 4294967296

abbrev pub u64 : ℕ → ℕ
u64 x = x % 18446744073709551616

-- A flag as the number that C++ converts it to.
abbrev pub to_ℕ : Bool → ℕ
to_ℕ true = 1
to_ℕ false = 0

-- The most significant byte first.
abbrev pub be16 : ℕ → List ℕ
be16 x = (x / 256 % 256) ∷ (x % 256) ∷ []

abbrev pub be32 : ℕ → List ℕ
be32 x = (x / 16777216 % 256) ∷ (x / 65536 % 256) ∷ (x / 256 % 256) ∷ (x % 256) ∷ []

-- The least significant byte first, as the host keeps its numbers in memory.
abbrev pub le16 : ℕ → List ℕ
le16 x = (x % 256) ∷ (x / 256 % 256) ∷ []

abbrev pub le32 : ℕ → List ℕ
le32 x = (x % 256) ∷ (x / 256 % 256) ∷ (x / 65536 % 256) ∷ (x / 16777216 % 256) ∷ []

abbrev pub from_le16 : ℕ → ℕ → ℕ
from_le16 a b = a + b * 256

abbrev pub from_le32 : ℕ → ℕ → ℕ → ℕ → ℕ
from_le32 a b c d = a + b * 256 + c * 65536 + d * 16777216

abbrev pub from_be16 : ℕ → ℕ → ℕ
from_be16 a b = a * 256 + b

abbrev pub from_be32 : ℕ → ℕ → ℕ → ℕ → ℕ
from_be32 a b c d = a * 16777216 + b * 65536 + c * 256 + d

unfoldable pub htons : ℕ → ℕ
htons x = x % 256 * 256 + x / 256 % 256

unfoldable pub htonl : ℕ → ℕ
htonl x = x % 256 * 16777216 + x / 256 % 256 * 65536 + x / 65536 % 256 * 256 + x / 16777216 % 256

-- `((uint64_t)htonl((uint32_t)x) << 32) | (uint64_t)htonl((uint32_t)(x >> 32))`
unfoldable pub htonll : ℕ → ℕ
htonll x = htonl (u32 x) * 4294967296 + htonl (u32 (x / 4294967296))

pub htons-htons : (x : ℕ) → x < 65536 → htons (htons x) ≡ x
unfolding htons
htons-htons x h = omega arith

pub htons-lt : (x : ℕ) → htons x < 65536
unfolding htons
htons-lt x = omega arith

pub htonl-lt : (x : ℕ) → htonl x < 4294967296
unfolding htonl
htonl-lt x = omega arith

pub htonl-htonl : (x : ℕ) → x < 4294967296 → htonl (htonl x) ≡ x
unfolding htonl
htonl-htonl x h = omega arith

low_word : (a b : ℕ) → b < 4294967296 → u32 (a * 4294967296 + b) ≡ b
low_word a b h = omega arith

high_word :
    (a b : ℕ) → a < 4294967296 → b < 4294967296 → u32 ((a * 4294967296 + b) / 4294967296) ≡ a
high_word a b h k = omega arith

pub htonll-htonll : (x : ℕ) → x < 18446744073709551616 → htonll (htonll x) ≡ x
unfolding htonll
htonll-htonll x h =
    let lo = u32 x in
    let hi = u32 (x / 4294967296) in
    rw
      (
        low_word (htonl lo) (htonl hi) (htonl-lt hi),
        high_word (htonl lo) (htonl hi) (htonl-lt lo) (htonl-lt hi),
        htonl-htonl hi (omega arith),
        htonl-htonl lo (omega arith),
      )
      (omega arith)

-- Over a small range, a property is checked at every value.
unfoldable pub all_below : ℕ → (ℕ → Bool) → Bool
all_below zero p = true
all_below (suc n) p = p n && all_below n p

pub all_below-true : (n : ℕ) (p : ℕ → Bool) (x : ℕ) → all_below n p ≡ true → x < n → p x ≡ true
unfolding all_below
all_below-true zero p x h lt = absurd (omega arith)
all_below-true (suc n) p x h lt = ground (arith, all_below-true n p x)

-- What masking a byte by `m` leaves, and what setting bits in one gives, as a table over bytes.
module _ (f g : ℕ → ℕ) where
  pub agree_on_bytes : all_below 256 (λ x. f x == g x) ≡ true → (x : ℕ) → x < 256 → f x ≡ g x
  agree_on_bytes t x h = (==_iff (f x) (g x)).0 (all_below-true 256 (λ x. f x == g x) x t h)

pub agree_below :
    (n : ℕ) (f g : ℕ → ℕ) → all_below n (λ x. f x == g x) ≡ true → (x : ℕ) → x < n → f x ≡ g x
agree_below n f g t x h = (==_iff (f x) (g x)).0 (all_below-true n (λ x. f x == g x) x t h)

-- The masks that the headers use. `~m` of a mask is the complement on a byte.
pub bit_and-0x7f : (x : ℕ) → x < 256 → bit_and x 0x7f ≡ x % 128
unfolding all_below
bit_and-0x7f = agree_on_bytes _ _ refl

pub bit_and-0x80 : (x : ℕ) → x < 256 → bit_and x 0x80 ≡ x / 128 * 128
unfolding all_below
bit_and-0x80 = agree_on_bytes _ _ refl

pub bit_and-0x0f : (x : ℕ) → x < 256 → bit_and x 0x0f ≡ x % 16
unfolding all_below
bit_and-0x0f = agree_on_bytes _ _ refl

pub bit_and-0x1f : (x : ℕ) → x < 256 → bit_and x 0x1f ≡ x % 32
unfolding all_below
bit_and-0x1f = agree_on_bytes _ _ refl

pub bit_and-0xe0 : (x : ℕ) → x < 256 → bit_and x 0xe0 ≡ x / 32 * 32
unfolding all_below
bit_and-0xe0 = agree_on_bytes _ _ refl
