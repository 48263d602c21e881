-- ===== src/Signaling/Exchange.antt =====
-- An offer and its answer between two peer connections (src/peerconnection.cpp).
use gstreamer_web_rtc.Prelude.{◌≡◌, Bool, true, false, some, [], ◌∷◌, ◌++◌, if◌then◌else◌}
use gstreamer_web_rtc.Signaling.{
  SignalingState, stable, have_local_offer, have_remote_offer, DescriptionType, offer, answer,
  Description, Machinery, Peer, change_signaling_state,
}

abbrev pub offer_of : {B : Type 0} → B → Description B
offer_of body = record { type = offer; body = body }

abbrev pub answer_of : {B : Type 0} → B → Description B
answer_of body = record { type = answer; body = body }

module _ {S B : Type 0} (m : Machinery S B) where
  -- In the state `r` of the parts, a local description is made and processed without an exception:
  -- its body is `body`, and the parts are in the state `r3` when the candidates are gathered.
  abbrev pub Describes : DescriptionType → S → B → S → Type 0
  Describes type r body r3 =
      (r1 : S) × (r2 : S) × (m.init_ice r ≡ (r1, some true))
      × (m.get_local type r1 ≡ some body)
      × (m.process_local (record { type = type; body = body }) r1 ≡ (r2, false))
      × (m.gather r2 ≡ (r3, false))

  -- In the state `r` the remote description `d` is processed without an exception.
  abbrev pub Accepts : Description B → S → S → Type 0
  Accepts d r r3 =
      (r1 : S) × (r2 : S) × (m.init_ice r ≡ (r1, some true))
      × (m.set_remote d r1 ≡ (r2, false))
      × (m.process_remote d r2 ≡ (r3, false))

  abbrev announced : DescriptionType → B → S → SignalingState → Peer S B → Peer S B
  announced type body r s p =
      change_signaling_state s
        (record p { rest = r; described = p.described ++ record { type = type; body = body } ∷ [] })

  -- The peer after a remote description was processed.
  abbrev taken : SignalingState → S → Peer S B → Peer S B
  taken s r p = change_signaling_state s (record p { rest = r })

  -- An offer that is taken in the stable state is answered at once.
  abbrev idle_peer : Peer S B → Peer S B
  idle_peer p = record p { signaling_state = stable; disable_auto_negotiation = false }

  abbrev answered_peer : B → S → Peer S B → Peer S B
  answered_peer body r p = announced answer body r stable (taken have_remote_offer r (idle_peer p))

  -- The offering side.
  abbrev offered : B → S → Peer S B → Peer S B
  offered body r p =
      announced offer body r have_local_offer
        (record p { signaling_state = stable; negotiation_needed = false })

  abbrev waiting : Peer S B → Peer S B
  waiting p = record p { signaling_state = have_local_offer }

  -- The answering side, which may have an offer of its own out.
  abbrev answering : Bool → Peer S B → Peer S B
  answering glare p = record p {
    signaling_state = if glare then have_local_offer else stable;
    disable_auto_negotiation = false;
  }
