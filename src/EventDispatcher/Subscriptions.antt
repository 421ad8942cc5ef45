-- ===== src/EventDispatcher/Subscriptions.antt =====
-- Subscription ids: fresh while the counter has not wrapped, and each names one subscription.
use esp32_dust_extraction.Common.{
  ℕ, suc, ◌+◌, ◌%◌, ◌^◌, ◌≤◌, ◌<◌, Option, ◌≡◌, refl, true, false, none, some, List, [], ◌∷◌, ◌++◌,
  find_if, erase_first, is_some, ◌==◌, if◌then◌else◌, arith, subst,
}
use esp32_dust_extraction.Event.EventType
use esp32_dust_extraction.EventDispatcher.{
  SubscriptionId, Subscription, EventDispatcher, new, subscribe, has_id, unsubscribe,
}

module _ {H : Type 0} where
  -- The ids rise along the list, from `low` on and below `high`.
  abbrev pub Rising : ℕ → ℕ → List (Subscription H) → Type 0
  Rising low high [] = low ≤ high
  Rising low high (x ∷ xs) = (low ≤ x.id) × Rising (suc x.id) high xs

  -- The counter has not wrapped, and every id was taken from it.
  pub record IsValid (d : EventDispatcher H) : Type 0 where
    pub unwrapped : d.next_subscription_id < 2 ^ 32
    pub rising : Rising 1 d.next_subscription_id d.subscriptions

  Rising-le : (low high : ℕ) (xs : List (Subscription H)) → Rising low high xs → low ≤ high
  Rising-le low high [] r = r
  Rising-le low high (x ∷ xs) r = omega (arith, r.0, Rising-le (suc x.id) high xs r.1)

  Rising-append :
      (low high : ℕ) (xs : List (Subscription H)) (x : Subscription H)
      → Rising low high xs
      → x.id ≡ high
      → Rising low (suc high) (xs ++ x ∷ [])
  Rising-append low high [] x r e = (omega arith, omega arith)
  Rising-append low high (y ∷ xs) x r e = (r.0, Rising-append (suc y.id) high xs x r.1 e)

  Rising-lower :
      (low low' high : ℕ) (xs : List (Subscription H))
      → low ≤ low'
      → Rising low' high xs
      → Rising low high xs
  Rising-lower low low' high [] h r = omega arith
  Rising-lower low low' high (x ∷ xs) h r = (omega (arith, r.0), r.1)

  Rising-erase_first :
      (i low high : ℕ) (xs : List (Subscription H))
      → Rising low high xs
      → Rising low high (erase_first (has_id i) xs)
  Rising-erase_first i low high [] r = r
  Rising-erase_first i low high (x ∷ xs) r = ground (
    arith,
    r.0,
    Rising-erase_first i (suc x.id) high xs r.1,
    Rising-lower low (suc x.id) high xs (omega (arith, r.0)) r.1,
  )

  pub find_if_below :
      (i low high : ℕ) (xs : List (Subscription H))
      → Rising low high xs
      → i < low
      → find_if (has_id i) xs ≡ none
  find_if_below i low high [] r h = refl
  find_if_below i low high (x ∷ xs) r h =
      ground (arith, r.0, find_if_below i (suc x.id) high xs r.1)

  find_if_above :
      (i low high : ℕ) (xs : List (Subscription H))
      → Rising low high xs
      → high ≤ i
      → find_if (has_id i) xs ≡ none
  find_if_above i low high [] r h = refl
  find_if_above i low high (x ∷ xs) r h =
      ground (arith, Rising-le (suc x.id) high xs r.1, find_if_above i (suc x.id) high xs r.1)

  pub erase_first_missing :
      (i : ℕ) (xs : List (Subscription H))
      → find_if (has_id i) xs ≡ none
      → erase_first (has_id i) xs ≡ xs
  erase_first_missing i [] h = refl
  erase_first_missing i (x ∷ xs) h = ground (arith, erase_first_missing i xs)

  erase_first_last :
      (i : ℕ) (xs : List (Subscription H)) (x : Subscription H)
      → find_if (has_id i) xs ≡ none
      → x.id ≡ i
      → (erase_first (has_id i) (xs ++ x ∷ []) ≡ xs) × (find_if (has_id i) (xs ++ x ∷ []) ≡ some x)
  erase_first_last i [] x h e = ground arith
  erase_first_last i (y ∷ xs) x h e = ground (arith, erase_first_last i xs x)

  find_if-erase_first :
      (i j low high : ℕ) (xs : List (Subscription H))
      → Rising low high xs
      → find_if (has_id j) (erase_first (has_id i) xs)
        ≡ (if i == j then none else find_if (has_id j) xs)
  find_if-erase_first i j low high [] r = ground arith
  find_if-erase_first i j low high (x ∷ xs) r = ground (
    arith,
    find_if_below x.id (suc x.id) high xs r.1,
    find_if-erase_first i j (suc x.id) high xs r.1,
  )

  pub new-IsValid : IsValid (new {H = H})
  unfolding new
  new-IsValid = record { unwrapped = omega arith; rising = omega arith }

  -- A subscription gets an id that no live subscription has, and the dispatcher stays valid, as
  -- long as the counter is below the largest 32-bit value.
  pub subscribe-IsValid :
      (type : EventType.EventType) (handler : Option H) (d : EventDispatcher H)
      → IsValid d
      → d.next_subscription_id + 1 < 2 ^ 32
      → (find_if (has_id (subscribe type handler d).0) d.subscriptions ≡ none)
        × IsValid (subscribe type handler d).1
  unfolding subscribe
  subscribe-IsValid type handler d v room =
      let n = d.next_subscription_id in
      (
        find_if_above n 1 n d.subscriptions v.rising (omega arith),
        record {
          unwrapped = omega arith;
          rising =
              subst
                (λ m. Rising 1 m (
                  d.subscriptions
                  ++ record { id = n; event_type = type.value; handler = handler } ∷ []))
                counted (Rising-append 1 n d.subscriptions _ v.rising refl);
        },
      )
    where
      counted : suc d.next_subscription_id ≡ (d.next_subscription_id + 1) % 2 ^ 32
      counted = omega arith

  -- `unsubscribe` takes away the subscription with the id and no other, says whether there was
  -- one, and keeps the dispatcher valid.
  pub unsubscribe-IsValid :
      (i j : SubscriptionId) (d : EventDispatcher H)
      → IsValid d
      → IsValid (unsubscribe i d).1
        × ((unsubscribe i d).0 ≡ is_some (find_if (has_id i) d.subscriptions))
        × (find_if (has_id j) (unsubscribe i d).1.subscriptions
            ≡ (if i == j then none else find_if (has_id j) d.subscriptions))
  unfolding unsubscribe
  unsubscribe-IsValid i j d v =
      let n = d.next_subscription_id in
      ground (
        arith,
        Rising-erase_first i 1 n d.subscriptions v.rising,
        find_if-erase_first i j 1 n d.subscriptions v.rising,
      )

  -- To subscribe and unsubscribe again leaves the other subscriptions, in their order, and uses
  -- up one id; a second removal is refused.
  pub unsubscribe-subscribe :
      (type : EventType.EventType) (handler : Option H) (d : EventDispatcher H)
      → IsValid d
      → d.next_subscription_id + 1 < 2 ^ 32
      → let (id, d') = subscribe type handler d in
        let left = record d { next_subscription_id = d.next_subscription_id + 1 } in
        (unsubscribe id d' ≡ (true, left)) × (unsubscribe id left ≡ (false, left))
  unfolding subscribe unsubscribe
  unsubscribe-subscribe type handler d v room =
      let n = d.next_subscription_id in
      ground (
        arith,
        find_if_above n 1 n d.subscriptions v.rising (omega arith),
        erase_first_last n d.subscriptions
            (record { id = n; event_type = type.value; handler = handler }),
      )
