-- ===== src/Signaling/Tests.antt =====
-- Two peer connections whose other parts count what they are asked to do.
use gstreamer_web_rtc.Prelude.{ℕ, ◌+◌, ◌≡◌, refl, true, false, not, some, ◌==◌, List, [], ◌∷◌}
use gstreamer_web_rtc.Signaling.{stable, offer, pranswer, Machinery, Peer}
use gstreamer_web_rtc.Signaling.Machine.{
  is_negotiation, Negotiates, Call, local, remote, calls, calls-Negotiates,
}

-- Bodies are numbers; a description with the body 0 is refused, and so is a remote description that
-- is the number of calls so far.
abbrev counting : Machinery ℕ ℕ
counting = record {
  rollback_local = λ n. n + 1;
  init_ice = λ n. (n + 1, some true);
  get_local = λ type n. some n;
  process_local = λ d n. (n + 1, false);
  gather = λ n. (n + 10, false);
  valid = λ d n. not (d.body == 0);
  set_remote = λ d n. (n + 1, d.body == n);
  process_remote = λ d n. (n + 1, false);
  add_candidates = λ b n. (n, false);
}

abbrev new_peer : Peer ℕ ℕ
new_peer = record {
  signaling_state = stable;
  negotiation_needed = true;
  disable_auto_negotiation = false;
  described = [];
  changes = [];
  rest = 0;
}

new_peer-Negotiates : Negotiates new_peer
unfolding is_negotiation
new_peer-Negotiates = refl

-- A local offer that is answered with a provisional answer, twice.
abbrev provisional : List (Call ℕ)
provisional =
    local offer
    ∷ remote (record { type = pranswer; body = 1 })
    ∷ remote (record { type = pranswer; body = 2 })
    ∷ []

calls-Negotiates_example :
    is_negotiation (calls counting new_peer provisional).signaling_state ≡ true
calls-Negotiates_example = calls-Negotiates counting new_peer provisional new_peer-Negotiates

-- The second provisional answer is refused: the first has made the connection stable.
after_pranswer : (calls counting new_peer provisional).signaling_state ≡ stable
unfolding calls
after_pranswer = refl
