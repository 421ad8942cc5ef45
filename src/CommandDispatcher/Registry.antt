-- ===== src/CommandDispatcher/Registry.antt =====
-- The registered recipients as a map from Device UIDs to handlers: the operations refine it.
use esp32_dust_extraction.Common.{
  ◌≡◌, refl, false, Option, none, some, List, [], ◌∷◌, ◌++◌, Text, text_eq, text_eq_iff, find_if,
  erase_first, if◌then◌else◌, is_some, arith,
}
use esp32_dust_extraction.CommandDispatcher.{Recipient, has_uid}

module _ {H : Type 0} where
  -- No two recipients share a Device UID.
  abbrev pub Distinct : List (Recipient H) → Type 0
  Distinct [] = Unit {0}
  Distinct (r ∷ rs) = (find_if (has_uid r.uid) rs ≡ none) × Distinct rs

  -- The abstract view of the registry.
  abbrev pub handler_of : List (Recipient H) → Text → Option H
  handler_of [] t = none
  handler_of (r ∷ rs) t = if text_eq r.uid t then some r.handler else handler_of rs t

  abbrev pub or_else : Option H → Option H → Option H
  or_else none o = o
  or_else (some h) o = some h

  pub find_if-handler_of :
      (rs : List (Recipient H)) (t : Text)
      → is_some (find_if (has_uid t) rs) ≡ is_some (handler_of rs t)
  find_if-handler_of [] t = refl
  find_if-handler_of (r ∷ rs) t = ground (arith, find_if-handler_of rs t)

  pub handler_of-append :
      (rs : List (Recipient H)) (r : Recipient H) (t : Text)
      → handler_of (rs ++ r ∷ []) t
        ≡ or_else (handler_of rs t) (if text_eq r.uid t then some r.handler else none)
  handler_of-append [] r t = refl
  handler_of-append (x ∷ rs) r t = ground (arith, handler_of-append rs r t)

  handler_of-missing :
      (rs : List (Recipient H)) (t : Text) → find_if (has_uid t) rs ≡ none → handler_of rs t ≡ none
  handler_of-missing rs t h = ground (arith, find_if-handler_of rs t)

  pub handler_of-erase_first :
      (rs : List (Recipient H)) (u t : Text)
      → Distinct rs
      → handler_of (erase_first (has_uid u) rs) t ≡ (if text_eq u t then none else handler_of rs t)
  handler_of-erase_first [] u t d = ground arith
  handler_of-erase_first (r ∷ rs) u t d = ground (
    arith,
    text_eq_iff r.uid u,
    text_eq_iff r.uid t,
    text_eq_iff u t,
    handler_of-missing rs r.uid d.0,
    handler_of-erase_first rs u t d.1,
  )

  find_if-append :
      (rs : List (Recipient H)) (r : Recipient H) (t : Text)
      → find_if (has_uid t) rs ≡ none
      → text_eq r.uid t ≡ false
      → find_if (has_uid t) (rs ++ r ∷ []) ≡ none
  find_if-append [] r t h k = ground arith
  find_if-append (x ∷ rs) r t h k = ground (arith, find_if-append rs r t)

  pub append-Distinct :
      (rs : List (Recipient H)) (r : Recipient H)
      → Distinct rs
      → find_if (has_uid r.uid) rs ≡ none
      → Distinct (rs ++ r ∷ [])
  append-Distinct [] r d h = (refl, tt)
  append-Distinct (x ∷ rs) r d h = ground (
    arith,
    text_eq_iff r.uid x.uid,
    text_eq_iff x.uid r.uid,
    find_if-append rs r x.uid d.0,
    append-Distinct rs r d.1,
  )

  find_if-erase_first :
      (rs : List (Recipient H)) (u t : Text)
      → find_if (has_uid t) rs ≡ none
      → find_if (has_uid t) (erase_first (has_uid u) rs) ≡ none
  find_if-erase_first [] u t h = refl
  find_if-erase_first (x ∷ rs) u t h = ground (arith, find_if-erase_first rs u t)

  pub erase_first-Distinct :
      (rs : List (Recipient H)) (u : Text) → Distinct rs → Distinct (erase_first (has_uid u) rs)
  erase_first-Distinct [] u d = tt
  erase_first-Distinct (x ∷ rs) u d =
      ground (arith, find_if-erase_first rs u x.uid d.0, erase_first-Distinct rs u d.1)
