-- ===== src/EventDispatcher/History.antt =====
-- Who is called after a history of subscriptions and removals.
use esp32_dust_extraction.Common.{
  ℕ, suc, ◌+◌, ◌^◌, ◌<◌, Option, ◌≡◌, refl, sym, ap, ◌∙◌, Bool, true, false, not, ◌||◌, List, [],
  ◌∷◌, ◌++◌, append_assoc, append-nil, Text, text_eq, ◌&&◌, arith, ◌==◌, if◌then◌else◌, erase_first,
}
use esp32_dust_extraction.Event.{Event, event_type}
use esp32_dust_extraction.Event.EventType
use esp32_dust_extraction.EventDispatcher.{
  SubscriptionId, Subscription, EventDispatcher, new, subscribe, unsubscribe, has_id,
  subscribers_of, publish,
}
use esp32_dust_extraction.EventDispatcher.Publishing.{
  calls_of, none_empty, publish-trace, publish-none_empty,
}
use esp32_dust_extraction.EventDispatcher.Subscriptions.{
  Rising, IsValid, new-IsValid, subscribe-IsValid, unsubscribe-IsValid, erase_first_missing,
}

pub data Op (H : Type 0) : Type 0 where
  subscribes : EventType.EventType → Option H → Op H
  unsubscribes : SubscriptionId → Op H

module _ {H : Type 0} where
  unfoldable pub run : List (Op H) → EventDispatcher H → EventDispatcher H
  run [] d = d
  run (subscribes type handler ∷ ops) d = run ops (subscribe type handler d).1
  run (unsubscribes i ∷ ops) d = run ops (unsubscribe i d).1

  -- How many subscriptions a history makes.
  unfoldable pub subscriptions_in : List (Op H) → ℕ
  subscriptions_in [] = 0
  subscriptions_in (subscribes type handler ∷ ops) = suc (subscriptions_in ops)
  subscriptions_in (unsubscribes i ∷ ops) = subscriptions_in ops

  -- Whether a history takes a subscription away.
  unfoldable pub cancelled : SubscriptionId → List (Op H) → Bool
  cancelled i [] = false
  cancelled i (subscribes type handler ∷ ops) = cancelled i ops
  cancelled i (unsubscribes j ∷ ops) = (i == j) || cancelled i ops

  -- What a history subscribes and does not take away later, in order; its subscriptions are numbered
  -- from `n` on.
  live : ℕ → List (Op H) → List (Subscription H)
  live n [] = []
  live n (subscribes type handler ∷ ops) =
      let rest = live (n + 1) ops in
      if cancelled n ops
      then rest
      else record { id = n; event_type = type.value; handler = handler } ∷ rest
  live n (unsubscribes i ∷ ops) = live n ops

  -- The handlers that a history leaves subscribed to a type.
  unfoldable pub handlers_left : Text → ℕ → List (Op H) → List (Option H)
  handlers_left type n [] = []
  handlers_left type n (subscribes t handler ∷ ops) =
      let rest = handlers_left type (n + 1) ops in
      if text_eq t.value type && not (cancelled n ops) then handler ∷ rest else rest
  handlers_left type n (unsubscribes i ∷ ops) = handlers_left type n ops

  subscribers_of-live :
      (type : Text) (n : ℕ) (ops : List (Op H))
      → subscribers_of type (live n ops) ≡ handlers_left type n ops
  unfolding subscribers_of live handlers_left
  subscribers_of-live type n [] = refl
  subscribers_of-live type n (subscribes t handler ∷ ops) =
      ground (arith, subscribers_of-live type (n + 1) ops)
  subscribers_of-live type n (unsubscribes i ∷ ops) = subscribers_of-live type n ops

  -- What a history leaves of earlier subscriptions.
  survivors : List (Op H) → List (Subscription H) → List (Subscription H)
  survivors ops [] = []
  survivors ops (x ∷ xs) =
      let rest = survivors ops xs in if cancelled x.id ops then rest else x ∷ rest

  survivors_all : (xs : List (Subscription H)) → survivors [] xs ≡ xs
  unfolding survivors cancelled
  survivors_all [] = refl
  survivors_all (x ∷ xs) = rw (survivors_all xs)

  survivors-append :
      (ops : List (Op H)) (xs : List (Subscription H)) (x : Subscription H)
      → survivors ops (xs ++ x ∷ [])
        ≡ survivors ops xs ++ (if cancelled x.id ops then [] else x ∷ [])
  unfolding survivors
  survivors-append ops [] x = ground arith
  survivors-append ops (y ∷ xs) x = ground (arith, survivors-append ops xs x)

  survivors-subscribes :
      (type : EventType.EventType) (handler : Option H) (ops : List (Op H))
      (xs : List (Subscription H))
      → survivors (subscribes type handler ∷ ops) xs ≡ survivors ops xs
  unfolding survivors cancelled
  survivors-subscribes type handler ops [] = refl
  survivors-subscribes type handler ops (x ∷ xs) =
      ground (arith, survivors-subscribes type handler ops xs)

  survivors-above :
      (i low high : ℕ) (ops : List (Op H)) (xs : List (Subscription H))
      → Rising low high xs
      → i < low
      → survivors (unsubscribes i ∷ ops) xs ≡ survivors ops xs
  unfolding survivors cancelled
  survivors-above i low high ops [] r h = refl
  survivors-above i low high ops (x ∷ xs) r h =
      ground (arith, r.0, survivors-above i (suc x.id) high ops xs r.1)

  survivors-erase_first :
      (i low high : ℕ) (ops : List (Op H)) (xs : List (Subscription H))
      → Rising low high xs
      → survivors ops (erase_first (has_id i) xs) ≡ survivors (unsubscribes i ∷ ops) xs
  unfolding survivors cancelled
  survivors-erase_first i low high ops [] r = refl
  survivors-erase_first i low high ops (x ∷ xs) r = ground (
    arith,
    r.0,
    survivors-above x.id (suc x.id) high ops xs r.1,
    survivors-erase_first i (suc x.id) high ops xs r.1,
  )

  subscriptions-unsubscribe :
      (i : SubscriptionId) (d : EventDispatcher H)
      → ((unsubscribe i d).1.subscriptions ≡ erase_first (has_id i) d.subscriptions)
        × ((unsubscribe i d).1.next_subscription_id ≡ d.next_subscription_id)
  unfolding unsubscribe
  subscriptions-unsubscribe i d = ground (arith, erase_first_missing i d.subscriptions)

  subscribed :
      (type : EventType.EventType) (handler : Option H) (d : EventDispatcher H)
      → d.next_subscription_id + 1 < 2 ^ 32
      → let d' = (subscribe type handler d).1 in
        (d'.next_subscription_id ≡ d.next_subscription_id + 1)
        × (d'.subscriptions
            ≡ d.subscriptions
              ++ record { id = d.next_subscription_id; event_type = type.value; handler = handler }
                ∷ [])
  unfolding subscribe
  subscribed type handler d room = (omega arith, refl)

  put_last :
      (c : Bool) (xs : List (Subscription H)) (x : Subscription H) (ys : List (Subscription H))
      → (xs ++ (if c then [] else x ∷ [])) ++ ys ≡ xs ++ (if c then ys else x ∷ ys)
  put_last true xs x ys = rw (append-nil xs) refl
  put_last false xs x ys = append_assoc xs (x ∷ []) ys

  subscriptions-run :
      (ops : List (Op H)) (d : EventDispatcher H)
      → IsValid d
      → d.next_subscription_id + subscriptions_in ops < 2 ^ 32
      → (run ops d).subscriptions ≡ survivors ops d.subscriptions ++ live d.next_subscription_id ops
  unfolding run live subscriptions_in
  subscriptions-run [] d v room =
      rw (survivors_all d.subscriptions) (sym (append-nil d.subscriptions))
  subscriptions-run (subscribes type handler ∷ ops) d v room =
      let n = d.next_subscription_id in
      let x : Subscription H = record { id = n; event_type = type.value; handler = handler } in
      let (fresh, valid) = subscribe-IsValid type handler d v (omega arith) in
      let (counted, appended) = subscribed type handler d (omega arith) in
      subscriptions-run ops (subscribe type handler d).1 valid (omega (arith, counted))
      ∙ rw
          (
            counted,
            appended,
            survivors-append ops d.subscriptions x,
            survivors-subscribes type handler ops d.subscriptions,
          )
          (put_last (cancelled n ops) (survivors ops d.subscriptions) x (live (n + 1) ops))
  subscriptions-run (unsubscribes i ∷ ops) d v room =
      let (valid, result, others) = unsubscribe-IsValid i i d v in
      let (erased, counted) = subscriptions-unsubscribe i d in
      subscriptions-run ops (unsubscribe i d).1 valid (omega (arith, counted))
      ∙ rw
          (
            counted,
            erased,
            survivors-erase_first i 1 d.next_subscription_id ops d.subscriptions v.rising,
          )
          refl

module _ {H S : Type 0} (dispatcher : S → EventDispatcher H) (call : H → Event → S → S)
    (trace : S → List (H × Event))
    (calls : (h : H) (e : Event) (s : S) → trace (call h e s) ≡ trace s ++ (h, e) ∷ []) where
  -- Where every call of a handler is recorded in a trace, an event published after a history of
  -- subscriptions and removals of a new dispatcher calls the handlers that were subscribed to its
  -- type by the history and not taken away later in it, each once for each such subscription and
  -- in the order of subscription, the subscriptions being numbered from 1. An empty handler among
  -- them, and nothing else, ends it with an exception, after the calls of the handlers before. The
  -- history makes fewer than 2 ^ 32 - 1 subscriptions.
  pub publish-run :
      (ops : List (Op H)) (e : Event) (s : S)
      → dispatcher s ≡ run ops new
      → subscriptions_in ops + 1 < 2 ^ 32
      → let (finished, s') = publish dispatcher call e s in
        (trace s'
          ≡ trace s ++ calls_of dispatcher call trace calls (handlers_left (event_type e) 1 ops) e)
        × (finished ≡ none_empty (handlers_left (event_type e) 1 ops))
  publish-run ops e s reached room =
      let left = subscriptions-run ops new new-IsValid (unfold new in omega arith) in
      let same : (dispatcher s).subscriptions ≡ live 1 ops =
        ap (λ (d : EventDispatcher H). d.subscriptions) reached ∙ (unfold new survivors in left) in
      rw (← subscribers_of-live (event_type e) 1 ops, ← same)
        (
          publish-trace dispatcher call trace calls e s,
          publish-none_empty dispatcher call trace calls e s,
        )
