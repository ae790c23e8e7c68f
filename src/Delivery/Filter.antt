-- ===== src/Delivery/Filter.antt =====
-- Which events of the node reach the queue of the ingest thread.
use chat_store.Common.{
  String, ◌≡◌, refl, ap, ◌↔◌, inl, inr, ◌==◌, eq_iff, Option, none, some, some-injective,
  Bool-cases,
}
use chat_store.Rust.Bytes.{Bytes}
use chat_store.Delivery.{
  Event, message, other_event, Received, key_package, account, keypackage_submit_topic,
  account_submit_topic, apply_wrap, filter_event,
}

-- The event that carries a bundle.
abbrev pub event_of : Received → Event
event_of (key_package bytes) = message keypackage_submit_topic (some bytes)
event_of (account bytes) = message account_submit_topic (some bytes)

carried_keypackage :
    (topic : String) (payload : Option Bytes) (r : Received)
    → topic ≡ keypackage_submit_topic
    → apply_wrap (some key_package) payload ≡ some r
    → message topic payload ≡ event_of r
carried_keypackage topic none r e h = cc
carried_keypackage topic (some bytes) r e h = cc (ap event_of (some-injective _ _ h))

carried_account :
    (topic : String) (payload : Option Bytes) (r : Received)
    → topic ≡ account_submit_topic
    → apply_wrap (some account) payload ≡ some r
    → message topic payload ≡ event_of r
carried_account topic none r e h = cc
carried_account topic (some bytes) r e h = cc (ap event_of (some-injective _ _ h))

passed :
    (topic : String) (payload : Option Bytes) (r : Received)
    → filter_event (message topic payload) ≡ some r
    → message topic payload ≡ event_of r
unfolding filter_event
passed topic payload r h = elim (Bool-cases (topic == keypackage_submit_topic)) [
  | inl k ↦ carried_keypackage topic payload r ((eq_iff _ _).0 k) (rw k at h)
  | inr k ↦ elim (Bool-cases (topic == account_submit_topic)) [
    | inl a ↦ carried_account topic payload r ((eq_iff _ _).0 a) (rw (k, a) at h)
    | inr a ↦ cc (rw (k, a) at h)
  ]
]

queued : (e : Event) (r : Received) → filter_event e ≡ some r → e ≡ event_of r
unfolding filter_event
queued (message topic payload) r h = passed topic payload r h
queued other_event r h = cc

passes : (r : Received) → filter_event (event_of r) ≡ some r
unfolding filter_event
passes (key_package bytes) = refl
passes (account bytes) = refl

-- A message is queued exactly when it was published on one of the two topics and has a payload: as
-- a keypackage on the first topic, and as an account bundle on the second, with that payload.
filter_event_iff : (e : Event) (r : Received) → (filter_event e ≡ some r) ↔ (e ≡ event_of r)
filter_event_iff e r = (queued e r, λ h. rw h (passes r))
