-- ===== src/Sctp/Reassembly.antt =====
-- What the receiving side of the SCTP transport makes of what the sending side hands to usrsctp
-- (src/impl/sctptransport.cpp).
use gstreamer_web_rtc.Prelude.{
  ℕ, ◌<◌, ◌≡◌, ◌≢◌, refl, sym, ap, ◌∙◌, Bool, true, false, Option, none, some, ◌-◌, List, [], ◌∷◌,
  ◌++◌, append-nil, append_assoc, map, if◌then◌else◌, arith,
}
use gstreamer_web_rtc.Prelude.Word.{u16}
use gstreamer_web_rtc.Transport.{MessageType, binary, string, control, reset}
use gstreamer_web_rtc.DataChannel.{Message}
use gstreamer_web_rtc.Sctp.{
  Usrsctp, Sctp, Event, message_event, Policy, packet_of, ppid_of, payload,
}
use gstreamer_web_rtc.Sctp.Receive.{
  Received, chunk, nothing_yet, payload_kind, process_kind, process_data, recv, count_received,
  is_down, receive_one, received_chunk, recv_loop, do_recv,
}

-- A message whose bytes a packet can carry: a control message is not empty.
abbrev pub Carried : MessageType → List ℕ → Type 0
Carried reset bytes = ⊥
Carried control bytes = bytes ≢ []
Carried string bytes = Unit {0}
Carried binary bytes = Unit {0}

abbrev pub delivery : MessageType → ℕ → List ℕ → Event
delivery type stream bytes =
    message_event (record { type = type; bytes = bytes; stream = stream; reliability = none })

abbrev pub concat : List (List ℕ) → List ℕ
concat [] = []
concat (x ∷ xs) = x ++ concat xs

module _ {S : Type 0} where
  -- The transport after one more message was handed to the application.
  pub record Delivered (type : MessageType) (bytes : List ℕ) (stream : ℕ) (s s' : Sctp S)
      : Type 0 where
    pub events : s'.events ≡ s.events ++ delivery type stream bytes ∷ []
    pub no_string : s'.partial_string ≡ []
    pub no_binary : s'.partial_binary ≡ []

  process_data-payload :
      (type : MessageType) (bytes : List ℕ) (sid : ℕ) (s : Sctp S)
      → Carried type bytes
      → s.partial_string ≡ []
      → s.partial_binary ≡ []
      → Delivered type bytes sid s (process_data (payload bytes) sid (ppid_of type bytes) s)
  unfolding process_data process_kind payload_kind payload ppid_of recv count_received
  process_data-payload reset bytes sid s c hs hb = absurd c
  process_data-payload control [] sid s c hs hb = absurd (c refl)
  process_data-payload control (b ∷ bytes) sid s c hs hb = record {
    events = refl;
    no_string = hs;
    no_binary = hb;
  }
  process_data-payload string [] sid s c hs hb = record {
    events = ap (λ l. s.events ++ delivery string sid l ∷ []) hs;
    no_string = refl;
    no_binary = hb;
  }
  process_data-payload string (b ∷ bytes) sid s c hs hb = record {
    events = ap (λ l. s.events ++ delivery string sid (l ++ b ∷ bytes) ∷ []) hs;
    no_string = refl;
    no_binary = hb;
  }
  process_data-payload binary [] sid s c hs hb = record {
    events = ap (λ l. s.events ++ delivery binary sid l ∷ []) hb;
    no_binary = refl;
    no_string = hs;
  }
  process_data-payload binary (b ∷ bytes) sid s c hs hb = record {
    events = ap (λ l. s.events ++ delivery binary sid (l ++ b ∷ bytes) ∷ []) hb;
    no_binary = refl;
    no_string = hs;
  }

if_same {ℓ} : {A : Type ℓ} (b : Bool) (x : A) → (if b then x else x) ≡ x
if_same true x = refl
if_same false x = refl

module _ {S : Type 0} (u : Usrsctp S) where
  recv_pieces :
      (info : Option (ℕ × ℕ)) (pieces : List (List ℕ)) (answers : List Received) (s : Sctp S)
      → is_down s.state ≡ false
      → recv_loop u (map (chunk false info) pieces ++ answers) s
        ≡ recv_loop u answers (record s { partial_message = s.partial_message ++ concat pieces })
  unfolding recv_loop receive_one received_chunk
  recv_pieces info [] answers s up =
      ap (λ l. recv_loop u answers (record s { partial_message = l }))
        (sym (append-nil s.partial_message))
  recv_pieces info (piece ∷ pieces) answers s up =
      let s' = record s { partial_message = s.partial_message ++ piece } in
      rw (recv_loop, up)
        (recv_pieces info pieces answers s' up
          ∙ ap (λ l. recv_loop u answers (record s { partial_message = l }))
              (append_assoc s.partial_message piece (concat pieces)))

  recv_last :
      (sid ppid : ℕ) (piece : List ℕ) (s : Sctp S)
      → is_down s.state ≡ false
      → recv_loop u (chunk true (some (sid, ppid)) piece ∷ nothing_yet ∷ []) s
        ≡ record (process_data (s.partial_message ++ piece) sid ppid s) { partial_message = [] }
  unfolding recv_loop receive_one received_chunk
  recv_last sid ppid piece s up = rw up (if_same _ _)

  -- A message that one side hands to usrsctp as a packet is handed to the application of the other
  -- side once, with its type, its stream and its bytes, however usrsctp cuts the packet into the
  -- pieces that it gives to `doRecv`. The receiver is not down and holds no part of a message, the
  -- stream fits 16 bits, and a control message is not empty.
  pub do_recv-packet :
      (m : Message) (policy : Policy) (value : ℕ) (info : Option (ℕ × ℕ)) (pieces : List (List ℕ))
      (piece : List ℕ) (s : Sctp S)
      → Carried m.type m.bytes
      → m.stream < 65536
      → concat pieces ++ piece ≡ (packet_of m policy value).bytes
      → is_down s.state ≡ false
      → s.partial_message ≡ []
      → s.partial_string ≡ []
      → s.partial_binary ≡ []
      → Delivered m.type m.bytes m.stream s (
          do_recv u
            (map (chunk false info) pieces
              ++ chunk true
                  (some ((packet_of m policy value).sid, (packet_of m policy value).ppid))
                  piece
                ∷ nothing_yet
                ∷ [])
            s)
  unfolding do_recv packet_of
  do_recv-packet m p value info pieces piece s c fits whole up hm hs hb =
      let s0 = record s { pending_recv = s.pending_recv - 1 } in
      let s1 = record s0 { partial_message = s.partial_message ++ concat pieces } in
      let sid : u16 m.stream ≡ m.stream = omega (arith, fits) in
      let bytes : (s.partial_message ++ concat pieces) ++ piece ≡ payload m.bytes =
        ap (λ l. (l ++ concat pieces) ++ piece) hm ∙ whole in
      let ppid = ppid_of m.type m.bytes in
      let d = process_data-payload m.type m.bytes m.stream s1 c hs hb in
      let run =
        recv_pieces info pieces (chunk true (some (u16 m.stream, ppid)) piece ∷ nothing_yet ∷ []) s0
          up
        ∙ recv_last (u16 m.stream) ppid piece s1 up
        ∙ ap (λ b. record (process_data b (u16 m.stream) ppid s1) { partial_message = [] }) bytes
        ∙ ap (λ i. record (process_data (payload m.bytes) i ppid s1) { partial_message = [] })
            sid in
      rw run (record { events = d.events; no_string = d.no_string; no_binary = d.no_binary })
