-- ===== src/Nal/Carried.antt =====
-- The fragments of several units (src/nalunit.cpp), one after the other.
use gstreamer_web_rtc.Prelude.{
  ℕ, ◌≤◌, ◌<◌, ◌≡◌, refl, Bool-cases, inl, inr, Option, some, List, [], ◌∷◌, ◌++◌, ltb, length, All,
  All-append, arith,
}
use gstreamer_web_rtc.Prelude.Word.{IsByte}
use gstreamer_web_rtc.Nal.{generate_fragments}
use gstreamer_web_rtc.Nal.Reassembly.{reassemble, reassemble-fragments_from}

-- A sequence of payloads carries units in order: each unit is a payload, or a receiver puts it
-- together from payloads that follow each other.
pub data Carries : List (List ℕ) → List (List ℕ) → Type 0 where
  nothing : Carries [] []
  whole :
      {units fragments : List (List ℕ)}
      → (unit : List ℕ) → Carries units fragments
      → Carries (unit ∷ units) (unit ∷ fragments)
  cut :
      {units fragments : List (List ℕ)}
      → (unit : List ℕ) (pieces : List (List ℕ)) → reassemble pieces ≡ some unit
      → Carries units fragments
      → Carries (unit ∷ units) (pieces ++ fragments)

-- A unit: a header byte and a payload.
abbrev pub IsUnit : List ℕ → Type 0
IsUnit [] = ⊥
IsUnit (h ∷ payload) = IsByte h

-- What a list of fragments may do for units.
abbrev Delivers : ℕ → List (List ℕ) → Option (List (List ℕ)) → Type 0
Delivers max units o =
    (fragments : List (List ℕ)) × (o ≡ some fragments)
    × Carries units fragments
    × All (λ f. length f ≤ max) fragments

generate_one :
    (max : ℕ) (unit : List ℕ) (units : List (List ℕ))
    → IsUnit unit
    → 4 ≤ max
    → max < 65536
    → Delivers max units (generate_fragments max units)
    → Delivers max (unit ∷ units) (generate_fragments max (unit ∷ units))
unfolding generate_fragments
generate_one max [] units u four small d = absurd u
generate_one max (h ∷ payload) units b four small (frs, run, carried, sizes) =
    elim (Bool-cases (ltb max (length (h ∷ payload)))) [
      | inl large ↦
          let (pieces, made, joined, limits) =
            reassemble-fragments_from max h payload b four small (ground (arith, large)) in
          (
            pieces ++ frs,
            rw (large, made, run) refl,
            cut (h ∷ payload) pieces joined carried,
            All-append (λ f. length f ≤ max) pieces frs limits sizes,
          )
      | inr fits ↦ (
        (h ∷ payload) ∷ frs,
        rw (fits, run) refl,
        whole (h ∷ payload) carried,
        (ground (arith, fits), sizes),
      )
    ]

-- generateFragments ends for any units if the maximum is four or more: its fragments carry the
-- units in order, and none of them is larger than the maximum.
pub generate_fragments-Carries :
    (max : ℕ) (units : List (List ℕ))
    → 4 ≤ max
    → max < 65536
    → All IsUnit units
    → (fragments : List (List ℕ)) × (generate_fragments max units ≡ some fragments)
      × Carries units fragments
      × All (λ f. length f ≤ max) fragments
generate_fragments-Carries max [] four small u =
    ([], unfold generate_fragments in refl, nothing, tt)
generate_fragments-Carries max (unit ∷ units) four small (u, us) =
    generate_one max unit units u four small (generate_fragments-Carries max units four small us)
