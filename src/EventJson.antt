-- ===== src/EventJson.antt =====
-- firmware/components/event_json. The functions of cJSON are the parameter `CJson` over the state
-- `X` of the memory, with a type `D` for `double`.
pub mod Documented
pub mod Memory
pub mod Totality
use esp32_dust_extraction.Common.{
  ℕ, Bool, true, false, not, Option, none, some, Text, codes, c_str, ◌==◌, if◌then◌else◌,
}
use esp32_dust_extraction.Common.Int.{ℤ}
use esp32_dust_extraction.Event.{Event, event_id, event_type, occurred_at, originating_device}

-- An address; 0 is `nullptr`.
abbrev pub Pointer : Type 0
Pointer = ℕ

abbrev pub nullptr : Pointer
nullptr = 0

pub record CJson (D X : Type 0) : Type 0 where
  pub to_double : ℤ → D
  pub create_object : X → Pointer × X
  pub add_string_to_object : Pointer → Text → Text → X → Pointer × X
  pub add_number_to_object : Pointer → Text → D → X → Pointer × X
  pub print_unformatted : Pointer → X → Pointer × X
  pub string_at : Pointer → X → Text
  pub delete : Pointer → X → X
  pub free : Pointer → X → X

module _ {D X : Type 0} (cjson : CJson D X) where
  open cjson use {
    to_double, create_object, add_string_to_object, add_number_to_object, print_unformatted,
    string_at, delete, free,
  }

  -- A call that adds a member, as a step that fails on a null pointer.
  abbrev pub added : Pointer × X → Bool × X
  added (item, x) = (not (item == nullptr), x)

  -- `||` between two such steps, with the results negated.
  abbrev pub then_add : Bool × X → (X → Bool × X) → Bool × X
  then_add (ok, x) next = if ok then next x else (false, x)

  unfoldable pub add_metadata : Event → Pointer → X → Bool × X
  add_metadata event json x =
      then_add
        (then_add
          (then_add
            (added (add_string_to_object json (codes "event_id") (c_str (event_id event)) x))
            (λ x₁.
              added (add_string_to_object json (codes "event_type") (c_str (event_type event)) x₁)))
          (λ x₂. added (
            add_number_to_object json (codes "occurred_at_unix_ms") (to_double (occurred_at event))
              x₂)))
        (λ x₃. added (
          add_string_to_object json (codes "originating_device") (c_str (originating_device event))
            x₃))

  unfoldable pub add_reason : Option Text → Pointer → X → Bool × X
  add_reason none json x = (true, x)
  add_reason (some reason) json x =
      added (add_string_to_object json (codes "reason") (c_str reason) x)

  -- Printing, and what the destructor of `serialized` frees.
  unfoldable pub print : Pointer → X → Option Text × X
  print json x =
      let (serialized, x₁) = print_unformatted json x in
      if serialized == nullptr
      then (none, x₁)
      else (some (string_at serialized x₁), free serialized x₁)

  -- The part that runs while `json` owns the object; its destructor deletes it on every exit.
  unfoldable pub fill_and_print : Event → Pointer → X → Option Text × X
  unfolding add_metadata add_reason print
  fill_and_print event json x =
      let (filled, x₁) = add_metadata event json x in
      if not filled
      then (none, x₁)
      else (let (reasoned, x₂) = add_reason event.fault_reason json x₁ in
          if not reasoned then (none, x₂) else print json x₂)

  unfoldable pub serialize : Event → X → Option Text × X
  unfolding fill_and_print
  serialize event x =
      let (json, x₁) = create_object x in
      if json == nullptr
      then (none, x₁)
      else (let (result, x₂) = fill_and_print event json x₁ in (result, delete json x₂))
