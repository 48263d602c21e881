-- ===== src/Signaling/Machine.antt =====
-- The signaling states that a peer connection goes through (src/peerconnection.cpp).
use gstreamer_web_rtc.Prelude.{
  ◌≡◌, refl, ap, ◌∙◌, inl, inr, Bool, true, false, not, ◌&&◌, Option, none, some, List, [], ◌∷◌,
  ◌++◌, if◌then◌else◌, arith, Bool-cases,
}
use gstreamer_web_rtc.Signaling.{
  SignalingState, stable, have_local_offer, have_remote_offer, have_local_pranswer,
  have_remote_pranswer, DescriptionType, unspec, offer, answer, pranswer, rollback, Error,
  Description, Machinery, Peer, is_offer, is_answer, same_state, hint_type, hint_of, Next, to,
  rollback_to, refuse, ignore, next_local, next_remote, change_signaling_state, finish_local,
  announce, describe_with, describe, roll_back, rollback_local_description, local_step,
  set_local_typed, set_local_description, finish_candidates, finish_remote, accept_with,
  accept_remote, remote_step, set_remote_typed, set_remote_description,
}

same_state-eq : (s t : SignalingState) → same_state s t ≡ true → s ≡ t
unfolding same_state
same_state-eq stable stable h = refl
same_state-eq have_local_offer have_local_offer h = refl
same_state-eq have_remote_offer have_remote_offer h = refl
same_state-eq have_local_pranswer have_local_pranswer h = refl
same_state-eq have_remote_pranswer have_remote_pranswer h = refl
same_state-eq _ _ h = ground (arith, h)

-- What a change of the signaling state leaves alone.
module _ {S B : Type 0} (s : SignalingState) (p : Peer S B) where
  abbrev Changed : Peer S B → Type 0
  Changed q =
      (q.signaling_state ≡ s)
      × (q.described ≡ p.described)
      × (q.negotiation_needed ≡ p.negotiation_needed)
      × (q.disable_auto_negotiation ≡ p.disable_auto_negotiation)

  pub change_signaling_state-Changed : Changed (change_signaling_state s p)
  unfolding change_signaling_state
  change_signaling_state-Changed = elim (Bool-cases (same_state p.signaling_state s)) [
    | inl same ↦ rw same (same_state-eq p.signaling_state s same, refl, refl, refl)
    | inr other ↦ rw other (refl, refl, refl, refl)
  ]

-- The states without a provisional answer.
unfoldable pub is_negotiation : SignalingState → Bool
is_negotiation stable = true
is_negotiation have_local_offer = true
is_negotiation have_remote_offer = true
is_negotiation _ = false

module _ {S B : Type 0} where
  abbrev pub Negotiates : Peer S B → Type 0
  Negotiates p = is_negotiation p.signaling_state ≡ true

  change-Negotiates :
      (s : SignalingState) (p : Peer S B)
      → is_negotiation s ≡ true
      → Negotiates (change_signaling_state s p)
  change-Negotiates s p h = ap is_negotiation (change_signaling_state-Changed s p).0 ∙ h

module _ {S B : Type 0} (m : Machinery S B) where
  announce-Negotiates :
      (o : Option B) (type : DescriptionType) (s : SignalingState) (p : Peer S B)
      → is_negotiation s ≡ true
      → Negotiates p
      → Negotiates (announce m o type s p).0
  unfolding announce finish_local
  announce-Negotiates none type s p h inv = inv
  announce-Negotiates (some body) type s p h inv =
      let local : Description B = record { type = type; body = body } in
      let r = m.process_local local p.rest in
      elim (Bool-cases r.1) [
        | inl threw ↦ rw threw inv
        | inr fine ↦
            rw fine (
              change-Negotiates s (record p { rest = r.0; described = p.described ++ local ∷ [] })
                h)
      ]

  describe_with-Negotiates :
      (ice : Option Bool) (type : DescriptionType) (s : SignalingState) (p : Peer S B)
      → is_negotiation s ≡ true
      → Negotiates p
      → Negotiates (describe_with m ice type s p).0
  unfolding describe_with
  describe_with-Negotiates none type s p h inv = inv
  describe_with-Negotiates (some false) type s p h inv = inv
  describe_with-Negotiates (some true) type s p h inv =
      announce-Negotiates (m.get_local type p.rest) type s p h inv

  describe-Negotiates :
      (type : DescriptionType) (s : SignalingState) (p : Peer S B)
      → is_negotiation s ≡ true
      → Negotiates p
      → Negotiates (describe m type s p).0
  unfolding describe
  describe-Negotiates type s p h inv =
      let r = m.init_ice p.rest in
      describe_with-Negotiates r.1 type s (record p { rest = r.0 }) h inv

  abbrev NextNegotiates : Next → Type 0
  NextNegotiates (to s) = is_negotiation s ≡ true
  NextNegotiates (rollback_to s) = is_negotiation s ≡ true
  NextNegotiates refuse = Unit {0}
  NextNegotiates ignore = Unit {0}

  next_local-Negotiates :
      (s : SignalingState) (type : DescriptionType) → NextNegotiates (next_local s type)
  unfolding next_local is_offer is_answer is_negotiation
  next_local-Negotiates s type = grind arith

  next_remote-Negotiates :
      (s : SignalingState) (type : DescriptionType) → NextNegotiates (next_remote s type)
  unfolding next_remote is_offer is_answer is_negotiation
  next_remote-Negotiates s type = grind arith

  local_step-Negotiates :
      (n : Next) (type : DescriptionType) (p : Peer S B)
      → NextNegotiates n
      → Negotiates p
      → Negotiates (local_step m n type p).0
  unfolding local_step
  local_step-Negotiates (to s) type p h inv = describe-Negotiates type s p h inv
  local_step-Negotiates (rollback_to s) type p h inv = inv
  local_step-Negotiates refuse type p h inv = inv
  local_step-Negotiates ignore type p h inv = inv

  rollback-Negotiates : (p : Peer S B) → Negotiates (rollback_local_description m p)
  unfolding rollback_local_description is_negotiation
  rollback-Negotiates p = change-Negotiates stable _ refl

  set_local_typed-Negotiates :
      (type : DescriptionType) (p : Peer S B)
      → Negotiates p
      → Negotiates (set_local_typed m type p).0
  unfolding set_local_typed
  set_local_typed-Negotiates type p inv =
      let step = λ (q : Peer S B).
        local_step-Negotiates (next_local q.signaling_state type) type q
          (next_local-Negotiates q.signaling_state type) in
      elim (Bool-cases (is_offer type)) [
        | inl offers ↦ elim (Bool-cases p.negotiation_needed) [
          | inl needed ↦ rw (offers, needed) (step (record p { negotiation_needed = false }) inv)
          | inr idle ↦ rw (offers, idle) inv
        ]
        | inr other ↦ rw other (step p inv)
      ]

  roll_back-Negotiates :
      (s : SignalingState) (p : Peer S B) → Negotiates p → Negotiates (roll_back m s p)
  unfolding roll_back
  roll_back-Negotiates have_local_offer p inv = rollback-Negotiates p
  roll_back-Negotiates have_local_pranswer p inv = rollback-Negotiates p
  roll_back-Negotiates stable p inv = inv
  roll_back-Negotiates have_remote_offer p inv = inv
  roll_back-Negotiates have_remote_pranswer p inv = inv

  set_local_description-Negotiates :
      (type : DescriptionType) (p : Peer S B)
      → Negotiates p
      → Negotiates (set_local_description m type p).0
  unfolding set_local_description
  set_local_description-Negotiates rollback p inv = roll_back-Negotiates p.signaling_state p inv
  set_local_description-Negotiates unspec p inv = set_local_typed-Negotiates _ p inv
  set_local_description-Negotiates offer p inv = set_local_typed-Negotiates _ p inv
  set_local_description-Negotiates answer p inv = set_local_typed-Negotiates _ p inv
  set_local_description-Negotiates pranswer p inv = set_local_typed-Negotiates _ p inv

  finish_candidates-Negotiates :
      (d : Description B) (x : Peer S B × Option Error)
      → Negotiates x.0
      → Negotiates (finish_candidates m d x).0
  unfolding finish_candidates
  finish_candidates-Negotiates d (p, some e) inv = inv
  finish_candidates-Negotiates d (p, none) inv = inv

  answered-Negotiates :
      (answers : Bool) (d : Description B) (p : Peer S B)
      → Negotiates p
      → Negotiates
          (finish_candidates m d
            (if answers then set_local_description m answer p else (p, none))).0
  answered-Negotiates true d p inv =
      finish_candidates-Negotiates d (set_local_description m answer p)
        (set_local_description-Negotiates answer p inv)
  answered-Negotiates false d p inv = finish_candidates-Negotiates d (p, none) inv

  finish_remote-Negotiates :
      (d : Description B) (p : Peer S B) → Negotiates p → Negotiates (finish_remote m d p).0
  unfolding finish_remote
  finish_remote-Negotiates d p inv =
      answered-Negotiates (is_offer d.type && not p.disable_auto_negotiation) d p inv

  accept_with-Negotiates :
      (ice : Option Bool) (s : SignalingState) (d : Description B) (p : Peer S B)
      → is_negotiation s ≡ true
      → Negotiates p
      → Negotiates (accept_with m ice s d p).0
  unfolding accept_with
  accept_with-Negotiates none s d p h inv = inv
  accept_with-Negotiates (some false) s d p h inv = inv
  accept_with-Negotiates (some true) s d p h inv =
      let r1 = m.set_remote d p.rest in
      let r2 = m.process_remote d r1.0 in
      elim (Bool-cases r1.1) [
        | inl rejects ↦ rw rejects inv
        | inr taken ↦ elim (Bool-cases r2.1) [
          | inl threw ↦ rw (taken, threw) inv
          | inr fine ↦
              rw (taken, fine)
                (finish_remote-Negotiates d (change_signaling_state s (record p { rest = r2.0 }))
                  (change-Negotiates s (record p { rest = r2.0 }) h))
        ]
      ]

  accept_remote-Negotiates :
      (s : SignalingState) (d : Description B) (p : Peer S B)
      → is_negotiation s ≡ true
      → Negotiates p
      → Negotiates (accept_remote m s d p).0
  unfolding accept_remote
  accept_remote-Negotiates s d p h inv =
      let r = m.init_ice p.rest in accept_with-Negotiates r.1 s d (record p { rest = r.0 }) h inv

  remote_step-Negotiates :
      (n : Next) (d : Description B) (p : Peer S B)
      → NextNegotiates n
      → Negotiates p
      → Negotiates (remote_step m n d p).0
  unfolding remote_step
  remote_step-Negotiates (to s) d p h inv = accept_remote-Negotiates s d p h inv
  remote_step-Negotiates (rollback_to s) d p h inv =
      accept_remote-Negotiates s d (rollback_local_description m p) h (rollback-Negotiates p)
  remote_step-Negotiates refuse d p h inv = inv
  remote_step-Negotiates ignore d p h inv = inv

  set_remote_typed-Negotiates :
      (d : Description B) (p : Peer S B) → Negotiates p → Negotiates (set_remote_typed m d p).0
  unfolding set_remote_typed
  set_remote_typed-Negotiates d p inv =
      let type = hint_type (hint_of p.signaling_state) d.type in
      elim (Bool-cases (m.valid d p.rest)) [
        | inr invalid ↦ rw invalid inv
        | inl fine ↦ rw fine (
            remote_step-Negotiates (next_remote p.signaling_state type) (record d { type = type }) p
              (next_remote-Negotiates p.signaling_state type) inv)
      ]

  remote_type-Negotiates :
      (type : DescriptionType) (body : B) (p : Peer S B)
      → Negotiates p
      → Negotiates (set_remote_description m (record { type = type; body = body }) p).0
  unfolding set_remote_description is_negotiation
  remote_type-Negotiates rollback body p inv = change-Negotiates stable p refl
  remote_type-Negotiates unspec body p inv = set_remote_typed-Negotiates _ p inv
  remote_type-Negotiates offer body p inv = set_remote_typed-Negotiates _ p inv
  remote_type-Negotiates answer body p inv = set_remote_typed-Negotiates _ p inv
  remote_type-Negotiates pranswer body p inv = set_remote_typed-Negotiates _ p inv

-- The calls of the application.
pub data Call (B : Type 0) : Type 0 where
  local : DescriptionType → Call B
  remote : Description B → Call B

unfoldable pub call : {S B : Type 0} → Machinery S B → Peer S B → Call B → Peer S B × Option Error
unfolding set_local_description set_remote_description
call m p (local type) = set_local_description m type p
call m p (remote d) = set_remote_description m d p

-- One call after the other, whether they throw or not.
unfoldable pub calls : {S B : Type 0} → Machinery S B → Peer S B → List (Call B) → Peer S B
unfolding call
calls m p [] = p
calls m p (c ∷ cs) = calls m (call m p c).0 cs

-- A peer connection that starts in a state without a provisional answer never leaves these three
-- states (stable, a local offer, a remote offer), whatever descriptions are set, also provisional
-- answers, and whatever of the calls of the implementation and of the ICE transport that may throw
-- do so.
pub calls-Negotiates :
    {S B : Type 0} (m : Machinery S B) (p : Peer S B) (cs : List (Call B))
    → Negotiates p
    → Negotiates (calls m p cs)
unfolding calls
calls-Negotiates m p [] inv = inv
calls-Negotiates m p (local type ∷ cs) inv =
    calls-Negotiates m _ cs (set_local_description-Negotiates m type p inv)
calls-Negotiates m p (remote d ∷ cs) inv =
    calls-Negotiates m _ cs (remote_type-Negotiates m d.type d.body p inv)
