-- ===== src/NackResponder/Window.antt =====
-- The storage of the NACK responder is a window over the packets that were sent.
use gstreamer_web_rtc.Prelude.{
  ℕ, suc, ◌-◌, ◌≤◌, ◌≡◌, refl, sym, ap, ◌∙◌, inl, inr, true, false, none, some, List, [], ◌∷◌, ◌++◌,
  map, append-nil, append_assoc, ltb, ◌==◌, length, last, length-append, length-last, last-append,
  ◌>>=◌, arith, Bool-cases,
}
use gstreamer_web_rtc.NackResponder.{
  Element, Storage, new, find, emplace, erase, get, seq_number, drop_oldest, trim, link, store,
  store_all,
}

abbrev pub element : List ℕ → Element
element packet = record { packet = packet; sequence_number = seq_number packet }

-- Each packet can hold an RTP header, and its sequence number is not one of the `maximum` packets
-- before it.
abbrev pub Spaced : ℕ → List Element → List (List ℕ) → Type 0
Spaced maximum past [] = Unit {0}
Spaced maximum past (packet ∷ packets) =
    (12 ≤ length packet)
    × (find (last maximum past) (seq_number packet) ≡ none)
    × Spaced maximum (past ++ element packet ∷ []) packets

-- Both views of the storage hold these elements.
abbrev pub holding : ℕ → List Element → Storage
holding maximum es = record { elements = es; storage = es; maximum_size = maximum }

emplace_new :
    (es : List Element) (e : Element)
    → find es e.sequence_number ≡ none
    → emplace es e ≡ es ++ e ∷ []
unfolding emplace
emplace_new es e h = rw (emplace, h)

erase_first : (e : Element) (es : List Element) → erase (e ∷ es) e.sequence_number ≡ es
unfolding erase
erase_first e es =
    let same : (e.sequence_number == e.sequence_number) ≡ true = ground arith in rw same

link_all :
    (maximum : ℕ) (es : List Element) (e : Element) → link (holding maximum es) e ≡ es ++ e ∷ []
unfolding link
link_all maximum [] e = refl
link_all maximum (x ∷ es) e =
    let some_element : (suc (length es) == 0) ≡ false = ground arith in rw some_element

last_all : (maximum : ℕ) (es : List Element) → length es ≤ maximum → last maximum es ≡ es
last_all maximum es le = let none_over : length es - maximum ≡ 0 = omega (arith, le) in rw none_over

trim_room :
    (maximum : ℕ) (es : List Element)
    → length es ≤ maximum
    → trim (holding maximum es) ≡ holding maximum es
unfolding trim
trim_room maximum es le = let room : ltb maximum (length es) ≡ false = ground (arith, le) in rw room

trim_over :
    (maximum : ℕ) (es : List Element)
    → length es ≡ suc maximum
    → trim (holding maximum es) ≡ holding maximum (last maximum es)
unfolding trim drop_oldest
trim_over maximum [] e = absurd (omega (arith, e))
trim_over maximum (x ∷ es) e =
    let over : ltb maximum (suc (length es)) ≡ true = ground (arith, e) in
    let one : suc (length es) - maximum ≡ 1 = omega (arith, e) in rw (over, one, erase_first x es)

-- Room for one more element is made by the oldest.
trim-holding :
    (maximum : ℕ) (es : List Element)
    → length es ≤ suc maximum
    → trim (holding maximum es) ≡ holding maximum (last maximum es)
trim-holding maximum es le = elim (Bool-cases (ltb maximum (length es))) [
  | inl over ↦ trim_over maximum es (ground (arith, over, le))
  | inr room ↦
      let fits : length es ≤ maximum = ground (arith, room) in
      trim_room maximum es fits ∙ ap (holding maximum) (sym (last_all maximum es fits))
]

store-holding :
    (maximum : ℕ) (es : List Element) (packet : List ℕ)
    → length es ≤ maximum
    → 12 ≤ length packet
    → find es (seq_number packet) ≡ none
    → store (holding maximum es) packet ≡ holding maximum (last maximum (es ++ element packet ∷ []))
unfolding store
store-holding maximum es packet le long fresh =
    let header : ltb (length packet) 12 ≡ false = ground (arith, long) in
    rw (header, link_all maximum es (element packet), emplace_new es (element packet) fresh)
      (trim-holding maximum (es ++ element packet ∷ [])
        (omega (arith, length-append es (element packet ∷ []), le)))

store_all-holding :
    (maximum : ℕ) (past : List Element) (packets : List (List ℕ))
    → Spaced maximum past packets
    → store_all (holding maximum (last maximum past)) packets
      ≡ holding maximum (last maximum (past ++ map element packets))
unfolding store_all
store_all-holding maximum past [] spaced =
    ap (λ l. holding maximum (last maximum l)) (sym (append-nil past))
store_all-holding maximum past (packet ∷ packets) (long, fresh, spaced) =
    let stored =
      store-holding maximum (last maximum past) packet (omega (arith, length-last maximum past))
        long fresh in
    rw (stored, last-append maximum past (element packet ∷ []))
      (store_all-holding maximum (past ++ element packet ∷ []) packets spaced
        ∙ ap (λ l. holding maximum (last maximum l))
            (append_assoc past (element packet ∷ []) (map element packets)))

-- The storage is a window over the packets that were sent: when each packet can hold an RTP header
-- and differs in its sequence number from the `maximum` packets before it, exactly the last
-- `maximum` packets can be read back, each by its sequence number.
pub store_all-window :
    (maximum : ℕ) (packets : List (List ℕ))
    → Spaced maximum [] packets
    → (n : ℕ)
    → get (store_all (new maximum) packets) n
      ≡ (find (last maximum (map element packets)) n >>= λ e. some e.packet)
unfolding get new
store_all-window maximum packets spaced n =
    let start : holding maximum (last maximum []) ≡ new maximum =
      ap (holding maximum) (last_all maximum [] (omega arith)) in
    ap (λ s. get s n)
      (ap (λ s. store_all s packets) (sym start) ∙ store_all-holding maximum [] packets spaced)
