-- ===== src/Platform/Outbox/Bus.antt =====
-- The event bus of platform/events/index.ts. A handler says whether it returned or threw, and changes the world beside the
-- outbox; the handlers of an event run one after another.
use modula_backend.Common.{
  ℕ, Bool, true, ◌&&◌, Option, List, [], ◌∷◌, ◌++◌, Text, ◌==◌, if◌then◌else◌,
}
use modula_backend.Platform.Outbox.Rows.{ActorType, Outcome}

-- V0CommandOutboxEvent of platform/outbox/dispatcher.ts.
pub record OutboxEvent (P : Type 0) : Type 0 where
  pub event_type : Text
  pub outbox_id : ℕ
  pub tenant_id : Text
  pub branch_id : Option Text
  pub action_key : Text
  pub actor_type : ActorType
  pub actor_id : Option Text
  pub entity_type : Text
  pub entity_id : Text
  pub outcome : Outcome
  pub reason_code : Option Text
  pub dedupe_key : Option Text
  pub occurred_at : ℕ
  pub payload : P

pub record Subscription (P W : Type 0) : Type 0 where
  pub event_type : Text
  pub handler : OutboxEvent P → W → Bool × W

abbrev pub Bus : Type 0 → Type 0 → Type 0
Bus P W = List (Subscription P W)

-- Every handler runs, and the event fails if one of them does.
abbrev pub also : {W : Type 0} → (W → Bool × W) → Bool × W → Bool × W
also rest (done, w) = (done && (rest w).0, (rest w).1)

module _ {P W : Type 0} where
  unfoldable pub subscribe : Text → (OutboxEvent P → W → Bool × W) → Bus P W → Bus P W
  subscribe event_type handler bus =
      bus ++ (record { event_type = event_type; handler = handler } ∷ [])

  unfoldable pub publish : Bus P W → OutboxEvent P → W → Bool × W
  publish [] event w = (true, w)
  publish (s ∷ bus) event w =
      also (λ v. publish bus event v)
        (if s.event_type == event.event_type then s.handler event w else (true, w))
