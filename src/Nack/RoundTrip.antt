-- ===== src/Nack/RoundTrip.antt =====
-- The parts that `addMissingPacket` fills, read by `getSequenceNumbers` (src/rtp.cpp).
use native.Mathlib.Nat.{pow-le-pow_right}
use gstreamer_web_rtc.Prelude.{
  ℕ, zero, suc, ◌+◌, ◌-◌, ◌^◌, ◌≤◌, ◌<◌, ◌≡◌, refl, sym, ap, ◌∙◌, ◌⊎◌, inl, inr, Bool, true, false,
  Option, none, some, List, [], ◌∷◌, ◌++◌, append-nil, append_assoc, ltb, ◌==◌, ◌>>=◌, arith,
  Bool-cases,
}
use gstreamer_web_rtc.Prelude.Word.{u16}
use gstreamer_web_rtc.Nack.{
  NackPart, get_sequence_numbers, Fci, set_part, new_part, mark_bit, add_missing_packet,
}
use gstreamer_web_rtc.Nack.Bits.{pow_suc}
use gstreamer_web_rtc.Nack.Masks.{masked_none, bit_or-new, marked, marked_numbers}

-- All the numbers of the first parts of a packet.
unfoldable pub all_numbers : (ℕ → NackPart) → ℕ → List ℕ
unfolding get_sequence_numbers
all_numbers parts zero = []
all_numbers parts (suc count) = all_numbers parts count ++ get_sequence_numbers (parts count)

-- The missing packets handed to `addMissingPacket` one after the other.
unfoldable pub add_all : Fci → List ℕ → Option Fci
unfolding add_missing_packet
add_all f [] = some f
add_all f (missing ∷ rest) = add_missing_packet f missing >>= λ (grown, next). add_all next rest

-- An increasing list of 16-bit numbers, all above `low` (not yet one of them).
abbrev pub Increasing : ℕ → List ℕ → Type 0
Increasing low [] = Unit {0}
Increasing low (x ∷ xs) = (low ≤ x) × (x < 65536) × Increasing (suc x) xs

-- The last part holds numbers below `next` only.
abbrev Fills : Fci → ℕ → Type 0
Fills f next =
    (f.fci_count ≡ 0)
    ⊎ ((count : ℕ) × (f.fci_count ≡ suc count)
        × ((f.parts count).pid ≡ f.fci_pid)
        × (f.fci_pid < next)
        × (f.fci_pid < 65536)
        × ((f.parts count).blp < 2 ^ (next - (1 + f.fci_pid))))

-- A part that is written is not one of those before.
all_numbers-set_part :
    (parts : ℕ → NackPart) (part : NackPart) (n count : ℕ)
    → count ≤ n
    → all_numbers (set_part parts n part) count ≡ all_numbers parts count
unfolding all_numbers set_part
all_numbers-set_part parts part n zero h = refl
all_numbers-set_part parts part n (suc count) h =
    let other : (count == n) ≡ false = ground (arith, h) in
    rw (all_numbers-set_part parts part n count (omega (arith, h)), other)

set_part_same : (parts : ℕ → NackPart) (n : ℕ) (part : NackPart) → set_part parts n part n ≡ part
unfolding set_part
set_part_same parts n part = let same : (n == n) ≡ true = ground arith in rw same

-- What one more missing packet does to the parts.
abbrev Added : Fci → ℕ → Type 0
Added f missing =
    (grown : Bool) × (next : Fci) × (add_missing_packet f missing ≡ some (grown, next))
    × Fills next (suc missing)
    × (all_numbers next.parts next.fci_count ≡ all_numbers f.parts f.fci_count ++ missing ∷ [])

new_part-Fills :
    (f : Fci) (missing : ℕ) → missing < 65536 → Fills (new_part f missing) (suc missing)
unfolding new_part
new_part-Fills f missing lt =
    let same = set_part_same f.parts f.fci_count (record { pid = missing; blp = 0 }) in
    let none_set : (set_part f.parts f.fci_count (record { pid = missing; blp = 0 })
          f.fci_count).blp
        ≡ 0 =
      ap (λ p. p.blp) same in
    let first : suc missing - (1 + missing) ≡ 0 = omega arith in
    inr (
      f.fci_count,
      omega arith,
      ap (λ p. p.pid) same,
      omega arith,
      lt,
      rw (none_set, first) (omega arith),
    )

new_part-numbers :
    (f : Fci) (missing : ℕ)
    → all_numbers (new_part f missing).parts (new_part f missing).fci_count
      ≡ all_numbers f.parts f.fci_count ++ missing ∷ []
unfolding new_part all_numbers get_sequence_numbers
new_part-numbers f missing =
    let part : NackPart = record { pid = missing; blp = 0 } in
    let grown : f.fci_count + 1 ≡ suc f.fci_count = omega arith in
    rw (
      grown,
      all_numbers-set_part f.parts part f.fci_count f.fci_count (omega arith),
      set_part_same f.parts f.fci_count part,
      masked_none 16 (u16 (missing + 1)),
    )

mark_bit-numbers :
    (f : Fci) (missing count : ℕ)
    → f.fci_count ≡ suc count
    → (f.parts count).pid ≡ f.fci_pid
    → f.fci_pid < missing
    → missing ≤ f.fci_pid + 16
    → missing < 65536
    → (f.parts count).blp < 2 ^ (missing - (1 + f.fci_pid))
    → all_numbers (mark_bit f missing).parts (mark_bit f missing).fci_count
      ≡ all_numbers f.parts f.fci_count ++ missing ∷ []
unfolding mark_bit all_numbers
mark_bit-numbers f missing count e p above near word small =
    let k = missing - (1 + f.fci_pid) in
    let last : f.fci_count - 1 ≡ count = omega (arith, e) in
    let number : u16 (u16 ((f.parts count).pid + 1) + k) ≡ missing =
      omega (arith, p, above, word) in
    rw
      (
        last,
        e,
        all_numbers-set_part f.parts (marked (f.parts count) k) count count (omega arith),
        set_part_same f.parts count (marked (f.parts count) k),
        marked_numbers (f.parts count) k (omega (arith, near, above)) small,
        number,
      )
      (sym (
        append_assoc (all_numbers f.parts count) (get_sequence_numbers (f.parts count))
          (missing ∷ [])))

mark_bit-Fills :
    (f : Fci) (missing count : ℕ)
    → f.fci_count ≡ suc count
    → (f.parts count).pid ≡ f.fci_pid
    → f.fci_pid < missing
    → missing ≤ f.fci_pid + 16
    → missing < 65536
    → (f.parts count).blp < 2 ^ (missing - (1 + f.fci_pid))
    → Fills (mark_bit f missing) (suc missing)
unfolding mark_bit
mark_bit-Fills f missing count e p above near word small =
    let k = missing - (1 + f.fci_pid) in
    let last : f.fci_count - 1 ≡ count = omega (arith, e) in
    let same = set_part_same f.parts count (marked (f.parts count) k) in
    let more : suc missing - (1 + f.fci_pid) ≡ suc k = omega (arith, above) in
    let joined = bit_or-new k (f.parts count).blp (omega (arith, near, above)) small in
    inr (
      count,
      e,
      rw (last, same) p,
      omega (arith, above),
      omega (arith, above, word),
      rw (last, same, more, joined) (omega (arith, small, pow_suc k)),
    )

adds_part :
    (f : Fci) (missing : ℕ)
    → (f.fci_count ≡ 0) ⊎ (f.fci_pid + 16 < missing)
    → add_missing_packet f missing ≡ some (true, new_part f missing)
unfolding add_missing_packet
adds_part f missing (inl e) = rw e refl
adds_part f missing (inr lt) = ground (arith, lt)

adds_bit :
    (f : Fci) (missing count : ℕ)
    → f.fci_count ≡ suc count
    → f.fci_pid < missing
    → missing ≤ f.fci_pid + 16
    → add_missing_packet f missing ≡ some (false, mark_bit f missing)
unfolding add_missing_packet
adds_bit f missing count e above near = ground (arith, e, above, near)

-- A new part is begun for the first packet and for one out of the last part's reach.
add_part :
    (f : Fci) (missing : ℕ)
    → missing < 65536
    → (f.fci_count ≡ 0) ⊎ (f.fci_pid + 16 < missing)
    → Added f missing
add_part f missing word far = (
  true,
  new_part f missing,
  adds_part f missing far,
  new_part-Fills f missing word,
  new_part-numbers f missing,
)

add_one :
    (f : Fci) (low missing : ℕ) → Fills f low → low ≤ missing → missing < 65536 → Added f missing
add_one f low missing (inl none_yet) le word = add_part f missing word (inl none_yet)
add_one f low missing (inr (count, e, p, below, small, blp)) le word =
    elim (Bool-cases (ltb (f.fci_pid + 16) missing)) [
      | inl far ↦ add_part f missing word (inr (ground (arith, far)))
      | inr near ↦
          let above : f.fci_pid < missing = omega (arith, below, le) in
          let reach : missing ≤ f.fci_pid + 16 = ground (arith, near) in
          let longer : 2 ^ (low - (1 + f.fci_pid)) ≤ 2 ^ (missing - (1 + f.fci_pid)) =
            pow-le-pow_right {n = 2} (omega arith) {i = low - (1 + f.fci_pid)}
              {j = missing - (1 + f.fci_pid)} (omega (arith, le)) in
          let free : (f.parts count).blp < 2 ^ (missing - (1 + f.fci_pid)) =
            omega (arith, blp, longer) in
          (
            false,
            mark_bit f missing,
            adds_bit f missing count e above reach,
            mark_bit-Fills f missing count e p above reach word free,
            mark_bit-numbers f missing count e p above reach word free,
          )
    ]

adds_all :
    (f : Fci) (low : ℕ) (missing : List ℕ)
    → Fills f low
    → Increasing low missing
    → (filled : Fci) × (add_all f missing ≡ some filled)
      × (all_numbers filled.parts filled.fci_count ≡ all_numbers f.parts f.fci_count ++ missing)
unfolding add_all
adds_all f low [] h inc = (f, refl, sym (append-nil (all_numbers f.parts f.fci_count)))
adds_all f low (m ∷ rest) h (le, word, inc) =
    let (grown, next, added, fills, numbers) = add_one f low m h le word in
    let (filled, run, all) = adds_all next (suc m) rest fills inc in
    (
      filled,
      rw added run,
      all ∙ rw numbers (append_assoc (all_numbers f.parts f.fci_count) (m ∷ []) rest),
    )

-- The missing packets of an increasing list of 16-bit numbers, added one after the other to a
-- packet without parts, are all taken, and the parts hold exactly these numbers, in their order.
pub add_all-numbers :
    (parts : ℕ → NackPart) (pid : ℕ) (missing : List ℕ)
    → Increasing 0 missing
    → (filled : Fci) × (add_all (record { parts = parts; fci_count = 0; fci_pid = pid }) missing
        ≡ some filled)
      × (all_numbers filled.parts filled.fci_count ≡ missing)
unfolding all_numbers
add_all-numbers parts pid missing inc =
    adds_all (record { parts = parts; fci_count = 0; fci_pid = pid }) 0 missing (inl refl) inc

-- A missing packet for which a part is begun cannot be added once more: the second time the code
-- finds the part, and shifts by a negative amount.
pub add_all-repeated :
    (f g : Fci) (missing : ℕ)
    → add_missing_packet f missing ≡ some (true, g)
    → add_all f (missing ∷ missing ∷ []) ≡ none
unfolding add_all new_part add_missing_packet
add_all-repeated f g missing e =
    rw e (let begun : new_part f missing ≡ g = ground (arith, e) in rw (← begun) (ground arith))
