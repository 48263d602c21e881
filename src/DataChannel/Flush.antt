-- ===== src/DataChannel/Flush.antt =====
-- `flushPendingMessages`: what it takes from the receive queue and hands to the callback.
use gstreamer_web_rtc.Prelude.{
  ℕ, zero, suc, ◌≤◌, ◌≡◌, refl, sym, ap, ◌∙◌, true, false, ◌&&◌, ◌⊎◌, inl, inr, List, [], ◌∷◌, ◌++◌,
  map, length, append-nil, append_assoc, Bool-cases, arith,
}
use gstreamer_web_rtc.Queue.{Queue, pop_empty, pop_nonempty}
use gstreamer_web_rtc.DataChannel.{
  DataChannel, Message, Event, variant_of, flush_pending, flush_loop, flush_next,
}

-- `flushed d q ms`: the channel after the messages `ms` were handed out, with queue `q`.
abbrev pub flushed : DataChannel → Queue Message → List Message → DataChannel
flushed d q ms = record d { recv_queue = q; events = d.events ++ map variant_of ms }

pub record Flushes (d e : DataChannel) : Type 0 where
  pub queue : Queue Message
  pub messages : List Message
  pub after : e ≡ flushed d queue messages
  pub split : d.recv_queue.queue ≡ messages ++ queue.queue
  pub limit : queue.limit ≡ d.recv_queue.limit

nothing_flushed : (d : DataChannel) → Flushes d d
nothing_flushed d = record {
  queue = d.recv_queue;
  messages = [];
  after = ap (λ (es : List Event). record d { events = es }) (sym (append-nil d.events));
  split = refl;
  limit = refl;
}

one_more :
    (d e : DataChannel) (m : Message) (q : Queue Message)
    → d.recv_queue.queue ≡ m ∷ q.queue
    → q.limit ≡ d.recv_queue.limit
    → Flushes (flushed d q (m ∷ [])) e
    → Flushes d e
one_more d e m q h l f = record {
  queue = f.queue;
  messages = m ∷ f.messages;
  after = f.after ∙ rw (append_assoc d.events (variant_of m ∷ []) (map variant_of f.messages));
  split = h ∙ ap (◌∷◌ m) f.split;
  limit = f.limit ∙ l;
}

flush_loop-Flushes :
    (n : ℕ) (d : DataChannel) (xs : List Message)
    → d.recv_queue.queue ≡ xs
    → length xs ≤ n
    → (f : Flushes d (flush_loop n d)) × (f.queue.queue ≡ [])
unfolding flush_loop nothing_flushed one_more
flush_loop-Flushes zero d [] e h = (nothing_flushed d, e)
flush_loop-Flushes zero d (x ∷ xs) e h = absurd (omega arith)
flush_loop-Flushes (suc n) d [] e h =
    rw (pop_empty d.recv_queue e, flush_next) (nothing_flushed d, e)
flush_loop-Flushes (suc n) d (x ∷ xs) e h =
    let (q, popped, items, l, _) = pop_nonempty d.recv_queue x xs e in
    let (f, done) = flush_loop-Flushes n (flushed d q (x ∷ [])) xs items (omega arith) in
    rw (popped, flush_next) (one_more d _ x q (rw items e) l f, done)

-- With a callback and after the opening, the whole queue is handed to the callback in order;
-- otherwise nothing is.
pub flush_pending-Flushes :
    (d : DataChannel)
    → (f : Flushes d (flush_pending d)) × (((d.open_triggered && d.message_callback) ≡ true)
          × (f.queue.queue ≡ [])
        ⊎ ((d.open_triggered && d.message_callback) ≡ false) × (f.messages ≡ []))
unfolding flush_pending nothing_flushed
flush_pending-Flushes d = elim (Bool-cases (d.open_triggered && d.message_callback)) [
  | inl e ↦
      let (f, done) =
        flush_loop-Flushes (length d.recv_queue.queue) d d.recv_queue.queue refl (omega arith) in
      rw e (f, inl (refl, done))
  | inr e ↦ rw e (nothing_flushed d, inr (refl, refl))
]
