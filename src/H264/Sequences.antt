-- ===== src/H264/Sequences.antt =====
-- The split at start sequences of src/h264rtppacketizer.cpp undoes their join.
use gstreamer_web_rtc.Prelude.{
  ℕ, ◌-◌, ◌≡◌, refl, ap, ◌∙◌, Bool, true, false, ◌&&◌, List, [], ◌∷◌, ◌++◌, ltb, ◌==◌,
  if◌then◌else◌, length, take, append-nil, map, append_assoc, length-append, take-append_length,
  All, Bool-cases, inl, inr, arith,
}
use gstreamer_web_rtc.H264.{
  Separator, long_start_sequence, short_start_sequence, start_sequence, Match, no_match, first_zero,
  second_zero, third_zero, short_match, long_match, start_sequence_match_succ, skip_start,
  split_units, split_message,
}

-- What emulation prevention makes sure of (H.264, 7.4.1), for the bytes of a unit after so many
-- zeros: no two zeros stand before a byte of 0 or 1, and the last byte is not a zero.
pub data Zeros : Type 0 where
  none_yet one_zero two_zeros : Zeros

unfoldable pub prevented : Zeros → List ℕ → Bool
prevented none_yet [] = true
prevented _ [] = false
prevented none_yet (b ∷ bytes) = prevented (if b == 0 then one_zero else none_yet) bytes
prevented one_zero (b ∷ bytes) = prevented (if b == 0 then two_zeros else none_yet) bytes
prevented two_zeros (b ∷ bytes) = ltb 1 b && prevented none_yet bytes

-- The start sequences that a separator stands for.
pub data Sequence : Separator → List ℕ → Type 0 where
  short_of_short : Sequence short_start_sequence (0 ∷ 0 ∷ 1 ∷ [])
  long_of_long : Sequence long_start_sequence (0 ∷ 0 ∷ 0 ∷ 1 ∷ [])
  short_of_any : Sequence start_sequence (0 ∷ 0 ∷ 1 ∷ [])
  long_of_any : Sequence start_sequence (0 ∷ 0 ∷ 0 ∷ 1 ∷ [])

abbrev state_of : Zeros → Match
state_of none_yet = no_match
state_of one_zero = first_zero
state_of two_zeros = second_zero

and-split : (a b : Bool) → (a && b) ≡ true → (a ≡ true) × (b ≡ true)
and-split true b h = (refl, h)
and-split false b h = cc h

-- One byte of the loop, by the match after it.
branch : Separator → List ℕ → List ℕ → Match → List (List ℕ)
branch s read message no_match = split_units s no_match read message
branch s read message first_zero = split_units s first_zero read message
branch s read message second_zero = split_units s second_zero read message
branch s read message third_zero = split_units s third_zero read message
branch s read message short_match = take (length read - 3) read ∷ split_units s no_match [] message
branch s read message long_match = take (length read - 4) read ∷ split_units s no_match [] message

step :
    (s : Separator) (state : Match) (unit message : List ℕ) (byte : ℕ)
    → split_units s state unit (byte ∷ message)
      ≡ branch s (unit ++ byte ∷ []) message (start_sequence_match_succ state byte s)
unfolding split_units branch
step s state unit message byte =
    elim (start_sequence_match_succ state byte s)
      as (λ m.
        (elim m as (λ x. List (List ℕ)) [
          | short_match ↦
              take (length (unit ++ byte ∷ []) - 3) (unit ++ byte ∷ [])
              ∷ split_units s no_match [] message
          | long_match ↦
              take (length (unit ++ byte ∷ []) - 4) (unit ++ byte ∷ [])
              ∷ split_units s no_match [] message
          | _ ↦ split_units s m (unit ++ byte ∷ []) message
        ])
        ≡ branch s (unit ++ byte ∷ []) message m) [
          | no_match ↦ refl
          | first_zero ↦ refl
          | second_zero ↦ refl
          | third_zero ↦ refl
          | short_match ↦ refl
          | long_match ↦ refl
        ]

step_to :
    (s : Separator) (state next : Match) (unit message : List ℕ) (byte : ℕ)
    → start_sequence_match_succ state byte s ≡ next
    → split_units s state unit (byte ∷ message) ≡ branch s (unit ++ byte ∷ []) message next
step_to s state next unit message byte e =
    step s state unit message byte ∙ ap (branch s (unit ++ byte ∷ []) message) e

-- The match after a byte of a unit.
after_byte : Zeros → ℕ → Zeros
after_byte none_yet b = if b == 0 then one_zero else none_yet
after_byte one_zero b = if b == 0 then two_zeros else none_yet
after_byte two_zeros b = none_yet

unit_byte :
    (s : Separator) (z : Zeros) (b : ℕ) (bytes : List ℕ)
    → prevented z (b ∷ bytes) ≡ true
    → (start_sequence_match_succ (state_of z) b s ≡ state_of (after_byte z b))
      × (prevented (after_byte z b) bytes ≡ true)
unfolding prevented after_byte start_sequence_match_succ
unit_byte s none_yet b bytes h = elim (Bool-cases (b == 0)) [
  | inl e ↦ rw e (refl, rw e at h)
  | inr e ↦ rw e (refl, rw e at h)
]
unit_byte s one_zero b bytes h = elim (Bool-cases (b == 0)) [
  | inl e ↦ rw e (refl, rw e at h)
  | inr e ↦ rw e (refl, rw e at h)
]
unit_byte s two_zeros b bytes h =
    let (large, more) = and-split (ltb 1 b) (prevented none_yet bytes) h in
    let not_zero : (b == 0) ≡ false = ground (arith, large) in
    let not_one : (b == 1) ≡ false = ground (arith, large) in (rw (not_zero, not_one) refl, more)

branch_zeros :
    (s : Separator) (z : Zeros) (read message : List ℕ)
    → branch s read message (state_of z) ≡ split_units s (state_of z) read message
unfolding branch
branch_zeros s none_yet read message = refl
branch_zeros s one_zero read message = refl
branch_zeros s two_zeros read message = refl

-- The bytes of a unit are gathered.
gather_unit :
    (s : Separator) (z : Zeros) (bytes unit rest : List ℕ)
    → prevented z bytes ≡ true
    → split_units s (state_of z) unit (bytes ++ rest) ≡ split_units s no_match (unit ++ bytes) rest
gather_unit s none_yet [] unit rest h = rw (append-nil unit) refl
gather_unit s one_zero [] unit rest h = absurd (impossible (unfold prevented in h))
  where
    impossible : false ≡ true → ⊥
    impossible e = cc e
gather_unit s two_zeros [] unit rest h = absurd (impossible (unfold prevented in h))
  where
    impossible : false ≡ true → ⊥
    impossible e = cc e
gather_unit s z (b ∷ bytes) unit rest h =
    let (e, more) = unit_byte s z b bytes h in
    step_to s (state_of z) (state_of (after_byte z b)) unit (bytes ++ rest) b e
    ∙ branch_zeros s (after_byte z b) (unit ++ b ∷ []) (bytes ++ rest)
    ∙ gather_unit s (after_byte z b) bytes (unit ++ b ∷ []) rest more
    ∙ ap (λ u. split_units s no_match u rest) (append_assoc unit (b ∷ []) bytes)

-- A start sequence after a unit ends it.
cut_sequence :
    (unit code : List ℕ) (n : ℕ)
    → length code ≡ n
    → take (length (unit ++ code) - n) (unit ++ code) ≡ unit
cut_sequence unit code n e =
    let left : length (unit ++ code) - n ≡ length unit =
      omega (arith, e, length-append unit code) in
    rw (left, take-append_length unit code) refl

cut_short :
    (unit : List ℕ)
    → take (length (unit ++ 0 ∷ [] ++ 0 ∷ [] ++ 1 ∷ []) - 3) (unit ++ 0 ∷ [] ++ 0 ∷ [] ++ 1 ∷ [])
      ≡ unit
cut_short unit =
    let whole : unit ++ 0 ∷ [] ++ 0 ∷ [] ++ 1 ∷ [] ≡ unit ++ (0 ∷ 0 ∷ 1 ∷ []) =
      simp append_assoc refl in
    ap (λ l. take (length l - 3) l) whole ∙ cut_sequence unit (0 ∷ 0 ∷ 1 ∷ []) 3 refl

cut_long :
    (unit : List ℕ)
    → take
        (length (unit ++ 0 ∷ [] ++ 0 ∷ [] ++ 0 ∷ [] ++ 1 ∷ []) - 4)
        (unit ++ 0 ∷ [] ++ 0 ∷ [] ++ 0 ∷ [] ++ 1 ∷ [])
      ≡ unit
cut_long unit =
    let whole : unit ++ 0 ∷ [] ++ 0 ∷ [] ++ 0 ∷ [] ++ 1 ∷ [] ≡ unit ++ (0 ∷ 0 ∷ 0 ∷ 1 ∷ []) =
      simp append_assoc refl in
    ap (λ l. take (length l - 4) l) whole ∙ cut_sequence unit (0 ∷ 0 ∷ 0 ∷ 1 ∷ []) 4 refl

end_unit :
    (s : Separator) (code unit rest : List ℕ)
    → Sequence s code
    → split_units s no_match unit (code ++ rest) ≡ unit ∷ split_units s no_match [] rest
unfolding split_units start_sequence_match_succ
end_unit _ _ unit rest short_of_short =
    ap (λ u. u ∷ split_units short_start_sequence no_match [] rest) (cut_short unit)
end_unit _ _ unit rest long_of_long =
    ap (λ u. u ∷ split_units long_start_sequence no_match [] rest) (cut_long unit)
end_unit _ _ unit rest short_of_any =
    ap (λ u. u ∷ split_units start_sequence no_match [] rest) (cut_short unit)
end_unit _ _ unit rest long_of_any =
    ap (λ u. u ∷ split_units start_sequence no_match [] rest) (cut_long unit)

skip_code :
    (s : Separator) (code rest : List ℕ)
    → Sequence s code
    → skip_start s no_match (code ++ rest) ≡ rest
unfolding skip_start start_sequence_match_succ
skip_code _ _ rest short_of_short = refl
skip_code _ _ rest long_of_long = refl
skip_code _ _ rest short_of_any = refl
skip_code _ _ rest long_of_any = refl

split_code :
    (s : Separator) (code rest : List ℕ)
    → Sequence s code
    → split_message s (code ++ rest) ≡ split_units s no_match [] rest
unfolding split_message
split_code _ _ rest short_of_short =
    ap (split_units short_start_sequence no_match [])
      (skip_code short_start_sequence _ rest short_of_short)
split_code _ _ rest long_of_long =
    ap (split_units long_start_sequence no_match [])
      (skip_code long_start_sequence _ rest long_of_long)
split_code _ _ rest short_of_any =
    ap (split_units start_sequence no_match []) (skip_code start_sequence _ rest short_of_any)
split_code _ _ rest long_of_any =
    ap (split_units start_sequence no_match []) (skip_code start_sequence _ rest long_of_any)

-- Each unit after its start sequence.
unfoldable pub with_sequences : List (List ℕ × List ℕ) → List ℕ
with_sequences [] = []
with_sequences ((code, unit) ∷ units) = code ++ (unit ++ with_sequences units)

abbrev pub Marked : Separator → List ℕ × List ℕ → Type 0
Marked s unit = Sequence s unit.0 × (prevented none_yet unit.1 ≡ true)

units_after :
    (s : Separator) (unit : List ℕ) (units : List (List ℕ × List ℕ))
    → prevented none_yet unit ≡ true
    → All (Marked s) units
    → split_units s no_match [] (unit ++ with_sequences units)
      ≡ unit ∷ map (λ (u : List ℕ × List ℕ). u.1) units
unfolding with_sequences
units_after s unit [] h all =
    gather_unit s none_yet unit [] (with_sequences []) h ∙ (unfold split_units in refl)
units_after s unit ((code, next) ∷ units) h ((c, p), all) =
    gather_unit s none_yet unit [] (with_sequences ((code, next) ∷ units)) h
    ∙ end_unit s code unit (next ++ with_sequences units) c
    ∙ ap (λ us. unit ∷ us) (units_after s next units p all)

-- Units that stand after start sequences of the separator, one unit at least, are split into the
-- same units, if emulation prevention was applied to each.
pub split_message-with_sequences :
    (s : Separator) (unit : List ℕ × List ℕ) (units : List (List ℕ × List ℕ))
    → All (Marked s) (unit ∷ units)
    → split_message s (with_sequences (unit ∷ units))
      ≡ map (λ (u : List ℕ × List ℕ). u.1) (unit ∷ units)
unfolding with_sequences
split_message-with_sequences s (code, unit) units ((c, p), all) =
    split_code s code (unit ++ with_sequences units) c ∙ units_after s unit units p all
