-- ===== src/EventJson/Documented.antt =====
-- What cJSON documents of the functions, and the members of the object of an event.
use esp32_dust_extraction.Common.{
  ◌≡◌, ◌≢◌, Option, none, some, List, [], ◌∷◌, ◌++◌, Text, codes, c_str,
}
use esp32_dust_extraction.Event.{Event, event_id, event_type, occurred_at, originating_device}
use esp32_dust_extraction.EventJson.{CJson, Pointer, nullptr}

pub data Member (D : Type 0) : Type 0 where
  string : Text → Text → Member D
  number : Text → D → Member D

-- What cJSON documents, by the objects and texts that the caller has to release (`live`, the latest
-- first), by the members of an object, and by the text of an object with given members. A call that
-- fails returns null and changes neither.
pub record Contract {D X : Type 0} (cjson : CJson D X) (live : X → List Pointer)
    (members : Pointer → X → List (Member D)) (text : List (Member D) → Text) : Type 0 where
  pub create_null :
      (x : X) → (cjson.create_object x).0 ≡ nullptr → live (cjson.create_object x).1 ≡ live x
  pub create_ok :
      (x : X)
      → (cjson.create_object x).0 ≢ nullptr
      → let (json, x') = cjson.create_object x in (live x' ≡ json ∷ live x) × (members json x' ≡ [])
  pub string_live :
      (json : Pointer) (key value : Text) (x : X)
      → live (cjson.add_string_to_object json key value x).1 ≡ live x
  pub string_ok :
      (json : Pointer) (key value : Text) (x : X)
      → (cjson.add_string_to_object json key value x).0 ≢ nullptr
      → members json (cjson.add_string_to_object json key value x).1
        ≡ members json x ++ string key value ∷ []
  pub number_live :
      (json : Pointer) (key : Text) (value : D) (x : X)
      → live (cjson.add_number_to_object json key value x).1 ≡ live x
  pub number_ok :
      (json : Pointer) (key : Text) (value : D) (x : X)
      → (cjson.add_number_to_object json key value x).0 ≢ nullptr
      → members json (cjson.add_number_to_object json key value x).1
        ≡ members json x ++ number key value ∷ []
  pub print_null :
      (json : Pointer) (x : X)
      → (cjson.print_unformatted json x).0 ≡ nullptr
      → live (cjson.print_unformatted json x).1 ≡ live x
  pub print_ok :
      (json : Pointer) (x : X)
      → (cjson.print_unformatted json x).0 ≢ nullptr
      → let (printed, x') = cjson.print_unformatted json x in
        (live x' ≡ printed ∷ live x) × (cjson.string_at printed x' ≡ text (members json x))
  pub free_live :
      (p : Pointer) (others : List Pointer) (x : X)
      → live x ≡ p ∷ others
      → live (cjson.free p x) ≡ others
  pub delete_live :
      (p : Pointer) (others : List Pointer) (x : X)
      → live x ≡ p ∷ others
      → live (cjson.delete p x) ≡ others

module _ {D X : Type 0} (cjson : CJson D X) where
  unfoldable pub metadata_members : Event → List (Member D)
  metadata_members e =
      string (codes "event_id") (c_str (event_id e))
      ∷ string (codes "event_type") (c_str (event_type e))
      ∷ number (codes "occurred_at_unix_ms") (cjson.to_double (occurred_at e))
      ∷ string (codes "originating_device") (c_str (originating_device e))
      ∷ []

  unfoldable pub reason_members : Option Text → List (Member D)
  reason_members none = []
  reason_members (some reason) = string (codes "reason") (c_str reason) ∷ []

  -- The members of an event's object, in their order.
  unfoldable pub members_of : Event → List (Member D)
  unfolding metadata_members reason_members
  members_of e = metadata_members e ++ reason_members e.fault_reason

-- No call fails.
pub record IsAmple {D X : Type 0} (cjson : CJson D X) : Type 0 where
  pub creates : (x : X) → (cjson.create_object x).0 ≢ nullptr
  pub adds_string :
      (json : Pointer) (key value : Text) (x : X)
      → (cjson.add_string_to_object json key value x).0 ≢ nullptr
  pub adds_number :
      (json : Pointer) (key : Text) (value : D) (x : X)
      → (cjson.add_number_to_object json key value x).0 ≢ nullptr
  pub prints : (json : Pointer) (x : X) → (cjson.print_unformatted json x).0 ≢ nullptr
