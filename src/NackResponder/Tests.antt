-- ===== src/NackResponder/Tests.antt =====
-- Three packets in a storage of two.
use gstreamer_web_rtc.Prelude.{ℕ, ◌≡◌, refl, none, some, List, [], ◌∷◌, map, last, ◌>>=◌, arith}
use gstreamer_web_rtc.NackResponder.{
  new, find, get, seq_number, store_all, process_incoming_control,
}
use gstreamer_web_rtc.NackResponder.Window.{element, Spaced, store_all-window}

abbrev packet_of : ℕ → List ℕ
packet_of n = 0x80 ∷ 96 ∷ 0xff ∷ n ∷ 0 ∷ 0 ∷ 0 ∷ 0 ∷ 0 ∷ 0 ∷ 0 ∷ 1 ∷ 0x55 ∷ []

abbrev three : List (List ℕ)
three = packet_of 1 ∷ packet_of 2 ∷ packet_of 3 ∷ []

three-Spaced : Spaced 2 [] three
unfolding find seq_number
three-Spaced = (omega arith, refl, (omega arith, refl, (omega arith, refl, tt)))

store_all-window_example :
    get (store_all (new 2) three) 0xff03
    ≡ (find (last 2 (map element three)) 0xff03 >>= λ e. some e.packet)
store_all-window_example = store_all-window 2 three three-Spaced 0xff03

-- The first is gone, and the others are sent again on a NACK for all three.
sent_again :
    process_incoming_control
      (store_all (new 2) three)
      (0x81 ∷ 205 ∷ 0 ∷ 3 ∷ 0 ∷ 0 ∷ 0 ∷ 1 ∷ 0 ∷ 0 ∷ 0 ∷ 1 ∷ 0xff ∷ 0x01 ∷ 0 ∷ 0x03 ∷ [])
    ≡ some (packet_of 2 ∷ packet_of 3 ∷ [])
unfolding new store_all process_incoming_control
sent_again = refl

-- A NACK that gives its length as 1 is read past its end.
short_nack : process_incoming_control (new 2) (0x81 ∷ 205 ∷ 0 ∷ 1 ∷ 0 ∷ 0 ∷ 0 ∷ 1 ∷ []) ≡ none
unfolding new process_incoming_control
short_nack = refl
