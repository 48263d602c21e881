-- ===== src/Transport.antt =====
-- src/impl/transport.hpp and include/rtc/message.hpp: what the layers of the stack hand to one
-- another.

-- `Transport::State`.
pub data State : Type 0 where
  disconnected connecting connected completed failed : State

-- `Message::Type`.
pub data MessageType : Type 0 where
  binary string control reset : MessageType
