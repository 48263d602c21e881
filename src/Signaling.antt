-- ===== src/Signaling.antt =====
-- src/peerconnection.cpp: the signaling state machine, setLocalDescription and
-- setRemoteDescription. What these functions call of the peer connection's implementation and of
-- its ICE transport is a record of functions on the rest of the peer connection's state. A function
-- that may throw gives a Boolean beside the state that it leaves, which says whether it threw.
pub mod Machine
pub mod Exchange
pub mod Tests
use gstreamer_web_rtc.Prelude.{
  ℕ, Bool, true, false, not, ◌&&◌, Option, none, some, List, [], ◌∷◌, ◌++◌, if◌then◌else◌,
}

pub data SignalingState : Type 0 where
  stable have_local_offer have_remote_offer : SignalingState
  have_local_pranswer have_remote_pranswer : SignalingState

pub data DescriptionType : Type 0 where
  unspec offer answer pranswer rollback : DescriptionType

pub data Error : Type 0 where
  unexpected_local unexpected_remote invalid_remote rejected : Error

pub record Description (B : Type 0) : Type 0 where
  pub type : DescriptionType
  pub body : B

-- `init_ice` has no Boolean when it throws, and `false` when the connection is closed; `get_local` has
-- no description when it throws. `gather` does
-- nothing when the candidates have been gathered before.
pub record Machinery (S B : Type 0) : Type 0 where
  pub rollback_local : S → S
  pub init_ice : S → S × Option Bool
  pub get_local : DescriptionType → S → Option B
  pub process_local : Description B → S → S × Bool
  pub gather : S → S × Bool
  pub valid : Description B → S → Bool
  pub set_remote : Description B → S → S × Bool
  pub process_remote : Description B → S → S × Bool
  pub add_candidates : B → S → S × Bool

-- `described` are the local descriptions that were processed, `changes` the signaling states that
-- the callback was told.
pub record Peer (S B : Type 0) : Type 0 where
  pub signaling_state : SignalingState
  pub negotiation_needed : Bool
  pub disable_auto_negotiation : Bool
  pub described : List (Description B)
  pub changes : List SignalingState
  pub rest : S

unfoldable pub is_offer : DescriptionType → Bool
is_offer offer = true
is_offer _ = false

unfoldable pub is_answer : DescriptionType → Bool
is_answer answer = true
is_answer pranswer = true
is_answer _ = false

unfoldable pub same_state : SignalingState → SignalingState → Bool
same_state stable stable = true
same_state have_local_offer have_local_offer = true
same_state have_remote_offer have_remote_offer = true
same_state have_local_pranswer have_local_pranswer = true
same_state have_remote_pranswer have_remote_pranswer = true
same_state _ _ = false

-- The type that is meant when none is given.
unfoldable pub guess_type : SignalingState → DescriptionType → DescriptionType
guess_type have_remote_offer unspec = answer
guess_type _ unspec = offer
guess_type _ type = type

unfoldable pub hint_type : DescriptionType → DescriptionType → DescriptionType
hint_type hint unspec = hint
hint_type hint type = type

-- What the switch over the signaling state comes to: a new state, after a rollback or not, an
-- exception, or a warning.
pub data Next : Type 0 where
  to : SignalingState → Next
  rollback_to : SignalingState → Next
  refuse : Next
  ignore : Next

unfoldable pub next_local : SignalingState → DescriptionType → Next
unfolding is_offer is_answer
next_local stable type = if is_offer type then to have_local_offer else refuse
next_local have_remote_offer type = if is_answer type then to stable else refuse
next_local have_local_pranswer type = if is_answer type then to stable else refuse
next_local have_local_offer type = ignore
next_local have_remote_pranswer type = ignore

unfoldable pub next_remote : SignalingState → DescriptionType → Next
unfolding is_offer is_answer
next_remote stable type = if is_offer type then to have_remote_offer else refuse
next_remote have_local_offer type =
    if is_offer type
    then rollback_to have_remote_offer
    else if is_answer type
    then to stable
    else refuse
next_remote have_remote_pranswer type = if is_answer type then to stable else refuse
next_remote have_remote_offer type = refuse
next_remote have_local_pranswer type = refuse

-- The hint that the switch over the signaling state gives.
unfoldable pub hint_of : SignalingState → DescriptionType
hint_of stable = offer
hint_of _ = answer

module _ {S B : Type 0} where
  unfoldable pub change_signaling_state : SignalingState → Peer S B → Peer S B
  unfolding same_state
  change_signaling_state s p =
      if same_state p.signaling_state s
      then p
      else (record p { signaling_state = s; changes = p.changes ++ s ∷ [] })

module _ {S B : Type 0} (m : Machinery S B) where
  -- The candidates are gathered after the change of state.
  unfoldable pub finish_local : Peer S B → Peer S B × Option Error
  finish_local p =
      let (r, threw) = m.gather p.rest in
      (record p { rest = r }, if threw then some rejected else none)

  unfoldable pub announce :
      Option B → DescriptionType → SignalingState → Peer S B → Peer S B × Option Error
  unfolding finish_local change_signaling_state
  announce none type s p = (p, some rejected)
  announce (some body) type s p =
      let local : Description B = record { type = type; body = body } in
      let (r, threw) = m.process_local local p.rest in
      if threw
      then (record p { rest = r }, some rejected)
      else finish_local
          (change_signaling_state s (record p { rest = r; described = p.described ++ local ∷ [] }))

  unfoldable pub describe_with :
      Option Bool → DescriptionType → SignalingState → Peer S B → Peer S B × Option Error
  unfolding announce
  describe_with none type s p = (p, some rejected)
  describe_with (some false) type s p = (p, none)
  describe_with (some true) type s p = announce (m.get_local type p.rest) type s p

  unfoldable pub describe : DescriptionType → SignalingState → Peer S B → Peer S B × Option Error
  unfolding describe_with
  describe type s p =
      let (r, ice) = m.init_ice p.rest in describe_with ice type s (record p { rest = r })

  unfoldable pub rollback_local_description : Peer S B → Peer S B
  unfolding change_signaling_state
  rollback_local_description p =
      change_signaling_state stable (record p { rest = m.rollback_local p.rest })

  unfoldable pub roll_back : SignalingState → Peer S B → Peer S B
  unfolding rollback_local_description
  roll_back have_local_offer p = rollback_local_description p
  roll_back have_local_pranswer p = rollback_local_description p
  roll_back _ p = p

  unfoldable pub local_step : Next → DescriptionType → Peer S B → Peer S B × Option Error
  unfolding describe
  local_step (to s) type p = describe type s p
  local_step (rollback_to s) type p = (p, none)
  local_step refuse type p = (p, some unexpected_local)
  local_step ignore type p = (p, none)

  -- Only a local offer resets the negotiation needed flag.
  unfoldable pub set_local_typed : DescriptionType → Peer S B → Peer S B × Option Error
  unfolding local_step next_local is_offer
  set_local_typed type p =
      if is_offer type && not p.negotiation_needed
      then (p, none)
      else (local_step (next_local p.signaling_state type) type
          (if is_offer type then record p { negotiation_needed = false } else p))

  unfoldable pub set_local_description : DescriptionType → Peer S B → Peer S B × Option Error
  unfolding set_local_typed roll_back guess_type
  set_local_description rollback p = (roll_back p.signaling_state p, none)
  set_local_description type p = set_local_typed (guess_type p.signaling_state type) p

  -- The candidates are added last, unless the answer threw.
  unfoldable pub finish_candidates :
      Description B → Peer S B × Option Error → Peer S B × Option Error
  finish_candidates d (p, some error) = (p, some error)
  finish_candidates d (p, none) =
      let (r, threw) = m.add_candidates d.body p.rest in
      (record p { rest = r }, if threw then some rejected else none)

  -- After the change of state, an offer is answered.
  unfoldable pub finish_remote : Description B → Peer S B → Peer S B × Option Error
  unfolding finish_candidates set_local_description is_offer
  finish_remote d p = finish_candidates d (
      if is_offer d.type && not p.disable_auto_negotiation
      then set_local_description answer p
      else (p, none))

  unfoldable pub accept_with :
      Option Bool → SignalingState → Description B → Peer S B → Peer S B × Option Error
  unfolding finish_remote change_signaling_state
  accept_with none s d p = (p, some rejected)
  accept_with (some false) s d p = (p, none)
  accept_with (some true) s d p =
      let (r1, rejects) = m.set_remote d p.rest in
      let (r2, threw) = m.process_remote d r1 in
      if rejects
      then (record p { rest = r1 }, some rejected)
      else if threw
      then (record p { rest = r2 }, some rejected)
      else finish_remote d (change_signaling_state s (record p { rest = r2 }))

  unfoldable pub accept_remote : SignalingState → Description B → Peer S B → Peer S B × Option Error
  unfolding accept_with
  accept_remote s d p =
      let (r, ice) = m.init_ice p.rest in accept_with ice s d (record p { rest = r })

  unfoldable pub remote_step : Next → Description B → Peer S B → Peer S B × Option Error
  unfolding accept_remote rollback_local_description
  remote_step (to s) d p = accept_remote s d p
  remote_step (rollback_to s) d p = accept_remote s d (rollback_local_description p)
  remote_step refuse d p = (p, some unexpected_remote)
  remote_step ignore d p = (p, none)

  unfoldable pub set_remote_typed : Description B → Peer S B → Peer S B × Option Error
  unfolding remote_step next_remote hint_of hint_type
  set_remote_typed d p =
      if not (m.valid d p.rest)
      then (p, some invalid_remote)
      else (let type = hint_type (hint_of p.signaling_state) d.type in
          remote_step (next_remote p.signaling_state type) (record d { type = type }) p)

  unfoldable pub set_remote_description : Description B → Peer S B → Peer S B × Option Error
  unfolding set_remote_typed change_signaling_state
  set_remote_description d p = elim d.type [
    | rollback ↦ (change_signaling_state stable p, none)
    | _ ↦ set_remote_typed d p
  ]
