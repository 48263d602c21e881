-- ===== src/PeerChannels/Assignment.antt =====
-- The streams that src/impl/peerconnection.cpp assigns to data channels.
use native.Mathlib.Decide.{dec_le}
use gstreamer_web_rtc.Prelude.{
  ℕ, zero, suc, ◌+◌, ◌*◌, ◌%◌, ◌≤◌, ◌<◌, ◌≡◌, ◌≢◌, refl, sym, ap, ◌∙◌, Bool, true, false, Option,
  none, some, List, ◌∷◌, ltb, if◌then◌else◌, ◌==◌, Bool-cases, Option-cases, inl, inr, subst, arith,
}
use gstreamer_web_rtc.Prelude.Word.{u16}
use gstreamer_web_rtc.PeerChannels.{
  Methods, PeerChannels, lock, find_data_channel, is_taken, search, first_stream,
  max_data_channel_stream, emplace, emplace_if, update, assign_found, assign_loop,
}

impossible : {b : Bool} → b ≡ true → b ≡ false → ⊥
impossible h k = cc (h, k)

module _ {C : Type 0} (p : PeerChannels C) where
  abbrev Taken : ℕ → Type 0
  Taken stream = is_taken (find_data_channel stream p) ≡ true

  -- What the search from a stream on finds.
  abbrev Lowest : ℕ → ℕ → Option ℕ → Type 0
  Lowest start max none = (t : ℕ) → start ≤ t → t ≤ max → t % 2 ≡ start % 2 → Taken t
  Lowest start max (some s) =
      (start ≤ s)
      × (s ≤ max)
      × (s % 2 ≡ start % 2)
      × (is_taken (find_data_channel s p) ≡ false)
      × ((t : ℕ) → start ≤ t → t < s → t % 2 ≡ start % 2 → Taken t)

  Lowest-next :
      (start max : ℕ) (o : Option ℕ) → Taken start → Lowest (start + 2) max o → Lowest start max o
  Lowest-next start max none taken l = λ t h le par. elim (Bool-cases (t == start)) [
    | inl here ↦ let same : start ≡ t = ground (arith, here) in subst (λ n. Taken n) same taken
    | inr other ↦
        let above : start + 2 ≤ t = ground (arith, h, par, other) in
        l t above le (omega (arith, par))
  ]
  Lowest-next start max (some s) taken (h0, le, par, free, before) = (
    omega (arith, h0),
    le,
    omega (arith, par),
    free,
    λ t h lt same. elim (Bool-cases (t == start)) [
      | inl here ↦ let equal : start ≡ t = ground (arith, here) in subst (λ n. Taken n) equal taken
      | inr other ↦
          let above : start + 2 ≤ t = ground (arith, h, same, other) in
          before t above lt (omega (arith, same))
    ],
  )

  -- No stream wraps around below 2 ^ 16 - 2.
  search-Lowest :
      (rounds start max : ℕ)
      → max < 65534
      → max < start + 2 * rounds
      → Lowest start max (search rounds start max p)
  unfolding search
  search-Lowest zero start max small enough = λ t h le par. absurd (omega (arith, enough, h, le))
  search-Lowest (suc rounds) start max small enough = elim (Bool-cases (ltb max start)) [
    | inl past ↦ rw past (λ t h le par. absurd (ground (arith, past, h, le)))
    | inr inside ↦ elim (Bool-cases (is_taken (find_data_channel start p))) [
      | inl taken ↦
          let wrapped : u16 (start + 2) ≡ start + 2 = ground (arith, inside, small) in
          let rest = search-Lowest rounds (start + 2) max small (omega (arith, enough)) in
          rw (inside, taken, wrapped)
            (Lowest-next start max (search rounds (start + 2) max p) taken rest)
      | inr free ↦
          rw (inside, free)
            (
              omega arith,
              ground (arith, inside),
              refl,
              free,
              λ t h lt par. absurd (omega (arith, h, lt)),
            )
    ]
  ]

  Lowest-below :
      (start max t : ℕ) (o : Option ℕ)
      → Lowest start max o
      → start ≤ t
      → t ≤ max
      → t % 2 ≡ start % 2
      → is_taken (find_data_channel t p) ≡ false
      → (s : ℕ) × (o ≡ some s) × (s ≤ t) × Lowest start max (some s)
  Lowest-below start max t none l h le par free = absurd (impossible (l t h le par) free)
  Lowest-below start max t (some s) (h0, top, same, is_free, before) h le par free =
      elim (dec_le s t) [
        | yes below ↦ (s, refl, below, (h0, top, same, is_free, before))
        | no above ↦ absurd (impossible (before t h (omega (arith, above)) par) free)
      ]

  -- No entry of the map is a pointer that cannot be locked.
  abbrev pub NoneExpired : Type 0
  NoneExpired = (stream ref : ℕ) → p.channels stream ≡ some ref → p.alive ref ≡ true

  absent :
      (stream : ℕ)
      → NoneExpired
      → is_taken (find_data_channel stream p) ≡ false
      → p.channels stream ≡ none
  unfolding find_data_channel lock is_taken
  absent stream live free = elim (Option-cases (p.channels stream)) [
    | inl e ↦ e
    | inr (ref, e) ↦
        let locked = live stream ref e in absurd (impossible refl (rw (e, locked) at free))
  ]

-- RFC 8832: the DTLS client takes the even streams and the server the odd ones.
abbrev pub parity_of : Bool → ℕ
parity_of active = if active then 0 else 1

starts : (active : Bool) → (first_stream active ≡ parity_of active)
unfolding first_stream
starts true = refl
starts false = refl

module _ {C : Type 0} (methods : Methods C) (p : PeerChannels C) where
  -- The connection after a channel was given a stream that no entry of the map has.
  abbrev given : ℕ → ℕ → C → PeerChannels C
  given stream ref c = record p {
    channels = λ i. if i == stream then some ref else p.channels i;
    store = λ r. if r == ref then c else p.store r;
  }

  assign_found_free :
      (stream ref : ℕ) (c : C)
      → methods.assign_stream stream (p.store ref) ≡ some c
      → p.channels stream ≡ none
      → assign_found methods (some stream) ref p ≡ some (given stream ref c)
  unfolding assign_found emplace emplace_if update
  assign_found_free stream ref c e none_there = rw (assign_found, e, none_there) refl

  assign_round :
      (active : Bool) (ref stream : ℕ) (refs : List ℕ) (p1 : PeerChannels C)
      → p.alive ref ≡ true
      → search (suc (max_data_channel_stream p)) (first_stream active) (max_data_channel_stream p) p
        ≡ some stream
      → assign_found methods (some stream) ref p ≡ some p1
      → assign_loop methods active (ref ∷ refs) p ≡ assign_loop methods active refs p1
  unfolding assign_loop
  assign_round active ref stream refs p1 live found done = rw (assign_loop, live, found, done) refl

  given-find :
      (stream ref : ℕ) (c : C)
      → p.alive ref ≡ true
      → (find_data_channel stream (given stream ref c) ≡ some ref)
        × ((i : ℕ) → i ≢ stream → find_data_channel i (given stream ref c) ≡ find_data_channel i p)
  unfolding find_data_channel lock
  given-find stream ref c live =
      let here : (stream == stream) ≡ true = ground arith in
      (
        rw (here, live) refl,
        λ i other.
            (let elsewhere : (i == stream) ≡ false = ground (arith, other) in rw elsewhere refl),
      )

  -- A round of the loop of `assignDataChannels`, for a channel that is alive and takes any stream,
  -- in a connection without expired entries and with a greatest stream below 2 ^ 16 - 2: if there is
  -- a free stream of the role's parity (even for the client, odd for the server) up to the greatest
  -- one, the channel is given the lowest such stream, it is found there, what is found at the other
  -- streams does not change, and the loop goes on with the channels after it.
  pub assign_loop_lowest :
      (active : Bool) (ref t : ℕ) (refs : List ℕ) (assigned : ℕ → C)
      → p.alive ref ≡ true
      → ((stream : ℕ) → methods.assign_stream stream (p.store ref) ≡ some (assigned stream))
      → NoneExpired p
      → max_data_channel_stream p < 65534
      → t ≤ max_data_channel_stream p
      → t % 2 ≡ parity_of active
      → is_taken (find_data_channel t p) ≡ false
      → (s : ℕ) × (p1 : PeerChannels C) × (assign_loop methods active (ref ∷ refs) p
          ≡ assign_loop methods active refs p1)
        × (s ≤ t)
        × (s % 2 ≡ parity_of active)
        × (is_taken (find_data_channel s p) ≡ false)
        × ((i : ℕ) → i < s → i % 2 ≡ parity_of active → Taken p i)
        × (find_data_channel s p1 ≡ some ref)
        × (p1.store ref ≡ assigned s)
        × ((i : ℕ) → i ≢ s → find_data_channel i p1 ≡ find_data_channel i p)
  assign_loop_lowest active ref t refs assigned live able fresh small le par free =
      let max = max_data_channel_stream p in
      let start = starts active in
      let low : parity_of active % 2 ≡ parity_of active = parity_below active in
      let from : parity_of active ≤ t = omega (arith, par) in
      let all : Lowest p (parity_of active) max (search (suc max) (parity_of active) max p) =
        search-Lowest p (suc max) (parity_of active) max small (omega arith) in
      let (s, found, below, (above, top, same, is_free, before)) =
        Lowest-below p (parity_of active) max t (search (suc max) (parity_of active) max p) all from
          le (par ∙ sym low) free in
      let entry = absent p s fresh is_free in
      let run = assign_found_free s ref (assigned s) (able s) entry in
      let (there, elsewhere) = given-find s ref (assigned s) live in
      let here : (ref == ref) ≡ true = ground arith in
      (
        s,
        given s ref (assigned s),
        assign_round active ref s refs (given s ref (assigned s)) live
            (ap (λ k. search (suc max) k max p) start ∙ found) run,
        below,
        same ∙ low,
        is_free,
        λ i lt even. before i (omega (arith, even)) lt (even ∙ sym low),
        there,
        rw here refl,
        elsewhere,
      )
    where
      parity_below : (active : Bool) → parity_of active % 2 ≡ parity_of active
      parity_below true = refl
      parity_below false = refl
