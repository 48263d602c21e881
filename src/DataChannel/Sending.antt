-- ===== src/DataChannel/Sending.antt =====
-- What a data channel sends, and what it refuses to send.
use gstreamer_web_rtc.Prelude.{ℕ, [], ◌∷◌, ◌++◌, if◌then◌else◌, none, some, List}
use gstreamer_web_rtc.Transport.{MessageType}
use gstreamer_web_rtc.DataChannel.{DataChannel}

-- The channel after it handed a message to the transport.
abbrev pub handed_over : ℕ → DataChannel → MessageType → List ℕ → DataChannel
handed_over stream d type bytes = record d {
  sent =
      d.sent
      ++ record {
        type = type;
        bytes = bytes;
        stream = stream;
        reliability = if d.is_open then some d.reliability else none;
      }
        ∷ [];
}
