-- ===== src/EventDispatcher.antt =====
-- firmware/components/event_dispatcher. A handler is a `std::function`: `none` if it is empty, else
-- a value of the parameter `H`. What calling it does is the parameter `call` of `publish`, over a
-- state `S` that holds the dispatcher too, since a handler may subscribe, unsubscribe and publish.
-- The call of an empty handler throws `std::bad_function_call`.
pub mod Subscriptions
pub mod Publishing
pub mod History
use esp32_dust_extraction.Common.{
  ℕ, ◌+◌, ◌%◌, ◌^◌, Bool, true, false, Option, none, some, List, [], ◌∷◌, ◌++◌, Text, text_eq,
  find_if, erase_first, ◌==◌, if◌then◌else◌,
}
use esp32_dust_extraction.Event.{Event, event_type}
use esp32_dust_extraction.Event.EventType

-- `std::uint32_t`.
abbrev pub SubscriptionId : Type 0
SubscriptionId = ℕ

pub record Subscription (H : Type 0) : Type 0 where
  pub id : SubscriptionId
  pub event_type : Text
  pub handler : Option H

pub record EventDispatcher (H : Type 0) : Type 0 where
  pub next_subscription_id : SubscriptionId
  pub subscriptions : List (Subscription H)

unfoldable pub new : {H : Type 0} → EventDispatcher H
new = record { next_subscription_id = 1; subscriptions = [] }

-- `next_subscription_id_++` wraps around.
unfoldable pub subscribe :
    {H : Type 0}
    → EventType.EventType
    → Option H
    → EventDispatcher H
    → SubscriptionId × EventDispatcher H
subscribe type handler d = (
  d.next_subscription_id,
  record {
    next_subscription_id = (d.next_subscription_id + 1) % 2 ^ 32;
    subscriptions =
        d.subscriptions
        ++ record { id = d.next_subscription_id; event_type = type.value; handler = handler } ∷ [];
  },
)

abbrev pub has_id : {H : Type 0} → SubscriptionId → Subscription H → Bool
has_id subscription_id candidate = candidate.id == subscription_id

unfoldable pub unsubscribe :
    {H : Type 0} → SubscriptionId → EventDispatcher H → Bool × EventDispatcher H
unsubscribe subscription_id d = elim (find_if (has_id subscription_id) d.subscriptions) [
  | none ↦ (false, d)
  | some subscription ↦
      (true, record d { subscriptions = erase_first (has_id subscription_id) d.subscriptions })
]

-- The first loop of `publish`: a copy of the handlers to be called.
unfoldable pub subscribers_of : {H : Type 0} → Text → List (Subscription H) → List (Option H)
subscribers_of type [] = []
subscribers_of type (x ∷ xs) =
    let rest = subscribers_of type xs in
    if text_eq x.event_type type then x.handler ∷ rest else rest

-- The second loop. The result says whether it came to its end and no exception broke it off.
unfoldable pub call_all :
    {H S : Type 0} → (H → Event → S → S) → Event → List (Option H) → S → Bool × S
call_all call event [] s = (true, s)
call_all call event (none ∷ rest) s = (false, s)
call_all call event (some subscriber ∷ rest) s = call_all call event rest (call subscriber event s)

unfoldable pub publish :
    {H S : Type 0} → (S → EventDispatcher H) → (H → Event → S → S) → Event → S → Bool × S
publish dispatcher call event s =
    call_all call event (subscribers_of (event_type event) (dispatcher s).subscriptions) s
