-- ===== src/EventJson/Memory.antt =====
-- The text that `serialize` returns, and the memory that it leaves.
use esp32_dust_extraction.Common.{
  ◌≡◌, ◌⊎◌, Bool, true, false, Option, none, some, List, [], ◌∷◌, ◌++◌, Text, codes, c_str,
  append_assoc, append-nil, arith,
}
use esp32_dust_extraction.Event.{Event, event_id, event_type, occurred_at, originating_device}
use esp32_dust_extraction.EventJson.{
  CJson, Pointer, add_metadata, add_reason, print, fill_and_print, serialize,
}
use esp32_dust_extraction.EventJson.Documented.{
  Member, string, number, Contract, metadata_members, reason_members, members_of,
}

append_four :
    {A : Type 0} (r : List A) (a b c d : A)
    → (((r ++ a ∷ []) ++ b ∷ []) ++ c ∷ []) ++ d ∷ [] ≡ r ++ a ∷ b ∷ c ∷ d ∷ []
append_four r a b c d = simp append_assoc

module _ {D X : Type 0} (cjson : CJson D X) (live : X → List Pointer)
    (members : Pointer → X → List (Member D)) (text : List (Member D) → Text)
    (contract : Contract cjson live members text) where
  -- What a step that adds members does.
  abbrev Adds : Pointer → List (Member D) → X → Bool × X → Type 0
  Adds json ms x (ok, x') =
      (live x' ≡ live x) × ((ok ≡ false) ⊎ ((ok ≡ true) × (members json x' ≡ members json x ++ ms)))

  add_metadata-Adds :
      (e : Event) (json : Pointer) (x : X)
      → Adds json (metadata_members cjson e) x (add_metadata cjson e json x)
  unfolding add_metadata metadata_members
  add_metadata-Adds e json x =
      let id = c_str (event_id e) in
      let type = c_str (event_type e) in
      let at = cjson.to_double (occurred_at e) in
      let device = c_str (originating_device e) in
      let x₁ = (cjson.add_string_to_object json (codes "event_id") id x).1 in
      let x₂ = (cjson.add_string_to_object json (codes "event_type") type x₁).1 in
      let x₃ = (cjson.add_number_to_object json (codes "occurred_at_unix_ms") at x₂).1 in
      ground (
        arith,
        contract.string_live json (codes "event_id") id x,
        contract.string_ok json (codes "event_id") id x,
        contract.string_live json (codes "event_type") type x₁,
        contract.string_ok json (codes "event_type") type x₁,
        contract.number_live json (codes "occurred_at_unix_ms") at x₂,
        contract.number_ok json (codes "occurred_at_unix_ms") at x₂,
        contract.string_live json (codes "originating_device") device x₃,
        contract.string_ok json (codes "originating_device") device x₃,
        append_four (members json x) (string (codes "event_id") id)
            (string (codes "event_type") type) (number (codes "occurred_at_unix_ms") at)
            (string (codes "originating_device") device),
      )

  add_reason-Adds :
      (reason : Option Text) (json : Pointer) (x : X)
      → Adds json (reason_members cjson reason) x (add_reason cjson reason json x)
  unfolding add_reason reason_members
  add_reason-Adds none json x = ground (arith, append-nil (members json x))
  add_reason-Adds (some reason) json x = ground (
    arith,
    contract.string_live json (codes "reason") (c_str reason) x,
    contract.string_ok json (codes "reason") (c_str reason) x,
  )

  abbrev Prints : List (Member D) → X → Option Text × X → Type 0
  Prints ms x (result, x') = (live x' ≡ live x) × ((result ≡ none) ⊎ (result ≡ some (text ms)))

  print-Prints : (json : Pointer) (x : X) → Prints (members json x) x (print cjson json x)
  unfolding print
  print-Prints json x =
      let (serialized, x₁) = cjson.print_unformatted json x in
      ground (
        arith,
        contract.print_null json x,
        contract.print_ok json x,
        contract.free_live serialized (live x) x₁,
      )

  fill_and_print-Prints :
      (e : Event) (json : Pointer) (x : X)
      → members json x ≡ []
      → Prints (members_of cjson e) x (fill_and_print cjson e json x)
  unfolding fill_and_print members_of
  fill_and_print-Prints e json x empty =
      let (filled, x₁) = add_metadata cjson e json x in
      let (reasoned, x₂) = add_reason cjson e.fault_reason json x₁ in
      ground (
        arith,
        add_metadata-Adds e json x,
        add_reason-Adds e.fault_reason json x₁,
        print-Prints json x₂,
      )

  -- Whatever calls fail, everything that `serialize` allocates is released when it returns, and the
  -- result, if there is one, is the JSON text of an object with the event's id, type, time, device
  -- and, for a fault, reason, in this order, each text up to its first zero byte. The functions do
  -- what `Contract` says.
  pub serialize-Prints :
      (e : Event) (x : X)
      → let (result, x') = serialize cjson e x in
        (live x' ≡ live x) × ((result ≡ none) ⊎ (result ≡ some (text (members_of cjson e))))
  unfolding serialize
  serialize-Prints e x =
      let (json, x₁) = cjson.create_object x in
      let (result, x₂) = fill_and_print cjson e json x₁ in
      ground (
        arith,
        contract.create_null x,
        contract.create_ok x,
        fill_and_print-Prints e json x₁,
        contract.delete_live json (live x) x₂,
      )
