-- ===== src/Tests/Dispatchers.antt =====
-- The two dispatchers, with handlers that are numbers.
use esp32_dust_extraction.Common.{
  ◌<◌, ◌^◌, ℕ, ◌+◌, ◌≡◌, refl, Bool, true, false, none, some, List, [], ◌∷◌, ◌++◌, codes, text_eq,
  arith, find_if, is_some, ◌==◌, if◌then◌else◌,
}
use esp32_dust_extraction.Common.Int.{pos}
use esp32_dust_extraction.Event.{Event, event_type}
use esp32_dust_extraction.Event.EventType.{EventType}
use esp32_dust_extraction.Event.DeviceUid.{DeviceUid}
use esp32_dust_extraction.Command.{Command, target}
use esp32_dust_extraction.CollectorCommands.{start_collector}
use esp32_dust_extraction.CollectorEvents.{collector_fault, fault_event_type}
use esp32_dust_extraction.CommandDispatcher.{
  dispatch, CommandDispatcher, register_recipient, unregister_recipient,
}
use esp32_dust_extraction.CommandDispatcher.Refinement.{
  Op, register, unregister, run, run_map, no_recipients, routed, dispatch-run,
}
use esp32_dust_extraction.EventDispatcher
use esp32_dust_extraction.EventDispatcher.{
  EventDispatcher, subscribe, unsubscribe, has_id, publish, subscribers_of,
}
use esp32_dust_extraction.EventDispatcher.Subscriptions.{
  IsValid, subscribe-IsValid, unsubscribe-IsValid,
}
use esp32_dust_extraction.EventDispatcher.History as History
use esp32_dust_extraction.EventDispatcher.History.{
  subscribes, unsubscribes, subscriptions_in, handlers_left, publish-run,
}
use esp32_dust_extraction.EventDispatcher.Publishing.{calls_of, none_empty}
use esp32_dust_extraction.Tests.Fixtures.{uid, uid_text, id_text}

abbrev other : DeviceUid
other = record { value = codes "COLLECTOR-000000000001" }

abbrev ops : List (Op ℕ)
ops =
    register uid none
    ∷ register uid (some 7)
    ∷ register uid (some 8)
    ∷ register other (some 9)
    ∷ unregister other
    ∷ unregister other
    ∷ []

run_results : (run ops no_recipients).0 ≡ false ∷ true ∷ false ∷ true ∷ true ∷ false ∷ []
unfolding run register_recipient unregister_recipient text_eq
run_results = refl

abbrev start_now : Command
start_now = start_collector (record { id = record { value = id_text } }) uid (pos 0)

-- A handler that refuses and counts, over a state that is the dispatcher and a number.
abbrev refuse : ℕ → Command → CommandDispatcher ℕ × ℕ → Bool × (CommandDispatcher ℕ × ℕ)
refuse h c (d, n) = (false, (d, n + h))

dispatch-run_example :
    let (results, handlers) = run_map ops (λ _. none) in
    ((run ops no_recipients).0 ≡ results)
    × (dispatch (λ s. s.0) refuse start_now ((run ops no_recipients).1, 1)
        ≡ routed refuse start_now ((run ops no_recipients).1, 1) (handlers uid_text))
unfolding start_collector target
dispatch-run_example =
    dispatch-run (λ s. s.0) refuse ops start_now ((run ops no_recipients).1, 1) refl

abbrev fault_type : EventType
fault_type = record { value = fault_event_type }

abbrev fault_event : Event
fault_event = collector_fault (record { value = id_text }) (pos 5) uid (codes "jam")

-- The first subscriber takes itself off when it is called; every call is recorded.
abbrev State : Type 0
State = EventDispatcher ℕ × List (ℕ × Event)

abbrev leave : ℕ → Event → State → State
leave h e (d, seen) = ((unsubscribe 1 d).1, seen ++ (h, e) ∷ [])

abbrev two_subscribers : EventDispatcher ℕ
two_subscribers = record {
  next_subscription_id = 3;
  subscriptions =
      record { id = 1; event_type = fault_event_type; handler = some 10 }
      ∷ record { id = 2; event_type = fault_event_type; handler = some 20 }
      ∷ [];
}

two_subscribers-IsValid : IsValid two_subscribers
two_subscribers-IsValid = record { unwrapped = omega arith; rising = omega arith }

subscribe-IsValid_example :
    (find_if
        (has_id (subscribe fault_type (some 30) two_subscribers).0)
        two_subscribers.subscriptions
      ≡ none)
    × IsValid (subscribe fault_type (some 30) two_subscribers).1
subscribe-IsValid_example =
    subscribe-IsValid fault_type (some 30) two_subscribers two_subscribers-IsValid (omega arith)

unsubscribe-IsValid_example :
    IsValid (unsubscribe 1 two_subscribers).1
    × ((unsubscribe 1 two_subscribers).0
        ≡ is_some (find_if (has_id 1) two_subscribers.subscriptions))
    × (find_if (has_id 2) (unsubscribe 1 two_subscribers).1.subscriptions
        ≡ (if 1 == 2 then none else find_if (has_id 2) two_subscribers.subscriptions))
unsubscribe-IsValid_example = unsubscribe-IsValid 1 2 two_subscribers two_subscribers-IsValid

-- The first removal comes too early, the other one takes the second subscription away, and the
-- third handler is empty: ids are counted from 1.
abbrev history : List (History.Op ℕ)
history =
    unsubscribes 1
    ∷ subscribes fault_type (some 10)
    ∷ subscribes fault_type (some 20)
    ∷ unsubscribes 2
    ∷ subscribes fault_type none
    ∷ subscribes fault_type (some 30)
    ∷ []

few : subscriptions_in history + 1 < 2 ^ 32
unfolding subscriptions_in
few = omega arith

publish-run_example :
    let (finished, s') =
      publish (λ s. s.0) leave fault_event (History.run history EventDispatcher.new, []) in
    (s'.1
      ≡ calls_of
          (λ s. s.0)
          leave
          (λ s. s.1)
          (λ h e s. refl)
          (handlers_left (event_type fault_event) 1 history)
          fault_event)
    × (finished ≡ none_empty (handlers_left (event_type fault_event) 1 history))
publish-run_example =
    publish-run (λ s. s.0) leave (λ s. s.1) (λ h e s. refl) history fault_event
      (History.run history EventDispatcher.new, []) refl few
