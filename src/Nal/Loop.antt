-- ===== src/Nal/Loop.antt =====
-- The rounds of the loop of `fragmentsFrom` (src/nalunit.cpp) and the sizes that it works with.
use native.Mathlib.Nat.{le-div_iff_mul-le, div-lt_iff_lt-mul}
use gstreamer_web_rtc.Prelude.{
  drop-drop, ℕ, zero, suc, ◌+◌, ◌-◌, ◌*◌, ◌≤◌, ◌<◌, ◌≡◌, refl, sym, ap, ◌∙◌, true, some, List, [],
  ◌∷◌, ◌++◌, ltb, length, take, drop, bit_and, ◌>>=◌, arith, take-append-drop,
}
use gstreamer_web_rtc.Prelude.Word.{u16}
use gstreamer_web_rtc.Nal.{
  forbidden_bit, nri, unit_type, FragmentType, start_fragment, middle_fragment, end_fragment,
  fragment, slice, type_at, size_at, ceil_div, fragment_loop, fragments_from,
}

pub joined {ℓ} :
    {A : Type ℓ} (m n : ℕ) (xs : List A) → take n (drop m xs) ++ drop (m + n) xs ≡ drop m xs
joined m n xs =
    ap (λ l. take n (drop m xs) ++ l) (sym (drop-drop m n (m + n) xs refl))
    ∙ take-append-drop n (drop m xs)

pub slice_in :
    (offset n : ℕ) (payload : List ℕ)
    → offset + n ≤ length payload
    → slice offset n payload ≡ some (take n (drop offset payload))
unfolding slice
slice_in offset n payload h = ground arith

-- The fragment at an offset after the first one.
pub type_at_middle :
    (offset max size : ℕ)
    → 0 < offset
    → offset + max < size
    → type_at offset max size ≡ middle_fragment
unfolding type_at
type_at_middle offset max size h lt = ground arith

pub type_at_end :
    (offset max size : ℕ)
    → 0 < offset
    → size ≤ offset + max
    → type_at offset max size ≡ end_fragment
unfolding type_at
type_at_end offset max size h le = ground arith

pub size_at_middle :
    (offset max size : ℕ) → 0 < offset → offset + max < size → size_at offset max size ≡ max
unfolding size_at
size_at_middle offset max size h lt = ground arith

pub size_at_end :
    (offset max size : ℕ)
    → 0 < offset
    → offset < size
    → size ≤ offset + max
    → max < 65536
    → size_at offset max size ≡ size - offset
unfolding size_at
size_at_end offset max size h lt le small = ground arith

pub loop_done :
    (fuel h : ℕ) (payload : List ℕ) (offset max : ℕ)
    → length payload ≤ offset
    → fragment_loop fuel h payload offset max ≡ some []
unfolding fragment_loop
loop_done zero h payload offset max le = ground arith
loop_done (suc fuel) h payload offset max le = ground arith

-- One round of the loop, for a fragment that lies in the payload.
pub loop_round :
    (fuel h : ℕ) (payload : List ℕ) (offset max n : ℕ) (t : FragmentType)
    → offset < length payload
    → type_at offset max (length payload) ≡ t
    → size_at offset max (length payload) ≡ n
    → offset + n ≤ length payload
    → fragment_loop (suc fuel) h payload offset max ≡ (
        fragment_loop fuel h payload (offset + n) n >>= λ rest. some (
          fragment t
            (forbidden_bit h)
            (bit_and (nri h) 0x03)
            (bit_and (unit_type h) 0x1f)
            (take n (drop offset payload))
          ∷ rest))
unfolding fragment_loop
loop_round fuel h payload offset max n t lt et en le =
    let inside : ltb offset (length payload) ≡ true = ground arith in
    rw (fragment_loop, inside, et, en, slice_in offset n payload le)

pub ceil_above : (a b : ℕ) → 0 < b → a ≤ b * ceil_div a b
ceil_above a b h = grind arith

pub ceil_below : (a b : ℕ) → 0 < b → b * ceil_div a b ≤ a + b - 1
ceil_below a b h = grind arith

-- The bound that `fragmentsFrom` takes in place of the maximum, and that it leaves room for a
-- payload.
pub even_size :
    (m size count : ℕ)
    → 4 ≤ m
    → m < size
    → count ≡ ceil_div size m
    → (3 ≤ ceil_div size count) × (ceil_div size count ≤ m)
even_size m size count h lt e =
    let above : size ≤ m * count = rw e (ceil_above size m (omega (arith, h))) in
    let below : m * count ≤ size + m - 1 = rw e (ceil_below size m (omega (arith, h))) in
    let some_fragment : 0 < count = grind arith in
    let few : 2 * count < size = grind arith in
    (
      (le-div_iff_mul-le some_fragment).1 (omega (arith, few)),
      omega (
        arith,
        (div-lt_iff_lt-mul {x = size + count - 1} {y = suc m} some_fragment).1 (grind arith),
      ),
    )

pub type_at_start : (max size : ℕ) → type_at 0 max size ≡ start_fragment
unfolding type_at
type_at_start max size = refl

pub size_at_start : (max size : ℕ) → size_at 0 max size ≡ max
unfolding size_at
size_at_start max size = refl

pub fragments_from-loop :
    (m h : ℕ) (payload : List ℕ) (n : ℕ)
    → u16 (u16 (ceil_div (suc (length payload)) (ceil_div (suc (length payload)) m)) + 65536 - 2)
      ≡ n
    → fragments_from m (h ∷ payload) ≡ fragment_loop (suc (length payload)) h payload 0 n
unfolding fragments_from
fragments_from-loop m h payload n e = ap (λ k. fragment_loop (suc (length payload)) h payload 0 k) e
