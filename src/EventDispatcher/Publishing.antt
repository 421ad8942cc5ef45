-- ===== src/EventDispatcher/Publishing.antt =====
-- Who is called when an event is published.
use esp32_dust_extraction.Common.{
  ◌≡◌, refl, Bool, true, false, Option, none, some, List, [], ◌∷◌, ◌++◌, append_assoc, append-nil,
  Text, text_eq, ap, ◌∙◌, arith, if◌then◌else◌,
}
use esp32_dust_extraction.Event.{Event, event_type}
use esp32_dust_extraction.Event.EventType
use esp32_dust_extraction.EventDispatcher.{
  Subscription, EventDispatcher, subscribe, subscribers_of, call_all, publish,
}

module _ {H : Type 0} where
  subscribers_of-append :
      (type : Text) (xs : List (Subscription H)) (x : Subscription H)
      → subscribers_of type (xs ++ x ∷ [])
        ≡ subscribers_of type xs ++ (if text_eq x.event_type type then x.handler ∷ [] else [])
  unfolding subscribers_of
  subscribers_of-append type [] x = ground arith
  subscribers_of-append type (y ∷ xs) x = ground (arith, subscribers_of-append type xs x)

  -- A new subscriber is called last, and only for events of its own type.
  subscribers_of-subscribe :
      (type : EventType.EventType) (handler : Option H) (d : EventDispatcher H) (t : Text)
      → subscribers_of t (subscribe type handler d).1.subscriptions
        ≡ subscribers_of t d.subscriptions ++ (if text_eq type.value t then handler ∷ [] else [])
  unfolding subscribe
  subscribers_of-subscribe type handler d t = subscribers_of-append t d.subscriptions _

  abbrev pub none_empty : List (Option H) → Bool
  none_empty [] = true
  none_empty (none ∷ hs) = false
  none_empty (some h ∷ hs) = none_empty hs

module _ {H S : Type 0} (dispatcher : S → EventDispatcher H) (call : H → Event → S → S)
    (trace : S → List (H × Event))
    (calls : (h : H) (e : Event) (s : S) → trace (call h e s) ≡ trace s ++ (h, e) ∷ []) where
  -- The calls up to the first empty handler.
  abbrev pub calls_of : List (Option H) → Event → List (H × Event)
  calls_of [] e = []
  calls_of (none ∷ hs) e = []
  calls_of (some h ∷ hs) e = (h, e) ∷ calls_of hs e

  call_all-none_empty :
      (e : Event) (hs : List (Option H)) (s : S) → (call_all call e hs s).0 ≡ none_empty hs
  unfolding call_all
  call_all-none_empty e [] s = refl
  call_all-none_empty e (none ∷ hs) s = refl
  call_all-none_empty e (some h ∷ hs) s = call_all-none_empty e hs (call h e s)

  call_all-trace :
      (e : Event) (hs : List (Option H)) (s : S)
      → trace (call_all call e hs s).1 ≡ trace s ++ calls_of hs e
  unfolding call_all
  call_all-trace e [] s = simp append-nil
  call_all-trace e (none ∷ hs) s = simp append-nil
  call_all-trace e (some h ∷ hs) s =
      call_all-trace e hs (call h e s)
      ∙ (rw (calls h e s) (append_assoc (trace s) ((h, e) ∷ []) (calls_of hs e)))

  -- The subscriptions count as they are when `publish` begins, whatever the handlers do to them.
  pub publish-trace :
      (e : Event) (s : S)
      → trace (publish dispatcher call e s).1
        ≡ trace s ++ calls_of (subscribers_of (event_type e) (dispatcher s).subscriptions) e
  unfolding publish
  publish-trace e s = call_all-trace e _ s

  pub publish-none_empty :
      (e : Event) (s : S)
      → (publish dispatcher call e s).0
        ≡ none_empty (subscribers_of (event_type e) (dispatcher s).subscriptions)
  unfolding publish
  publish-none_empty e s = call_all-none_empty e _ s

  -- After a subscription the same event reaches the same handlers as before, and then the new one
  -- if the event is of its type and not otherwise.
  pub publish-subscribe :
      (type : EventType.EventType) (handler : Option H) (e : Event) (d : EventDispatcher H) (s : S)
      → dispatcher s ≡ (subscribe type handler d).1
      → trace (publish dispatcher call e s).1
        ≡ trace s
          ++ calls_of
              (subscribers_of (event_type e) d.subscriptions
                ++ (if text_eq type.value (event_type e) then handler ∷ [] else []))
              e
  publish-subscribe type handler e d s subscribed =
      publish-trace e s
      ∙ ap (λ hs. trace s ++ calls_of hs e)
          (ap (λ (x : EventDispatcher H). subscribers_of (event_type e) x.subscriptions) subscribed
            ∙ subscribers_of-subscribe type handler d (event_type e))
