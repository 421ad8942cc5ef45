-- ===== src/EventJson/Totality.antt =====
-- `serialize` where no call fails.
use esp32_dust_extraction.Common.{
  ◌≡◌, ◌≢◌, refl, true, Option, none, some, List, Text, codes, c_str, arith,
}
use esp32_dust_extraction.Event.{Event}
use esp32_dust_extraction.EventJson.{
  CJson, Pointer, add_metadata, add_reason, print, fill_and_print, serialize,
}
use esp32_dust_extraction.EventJson.Documented.{Member, Contract, IsAmple, members_of}
use esp32_dust_extraction.EventJson.Memory.{serialize-Prints}

module _ {D X : Type 0} (cjson : CJson D X) (ample : IsAmple cjson) where
  add_metadata-ample : (e : Event) (json : Pointer) (x : X) → (add_metadata cjson e json x).0 ≡ true
  unfolding add_metadata
  add_metadata-ample e json x = grind (arith, ample.adds_string, ample.adds_number)

  add_reason-ample :
      (reason : Option Text) (json : Pointer) (x : X) → (add_reason cjson reason json x).0 ≡ true
  unfolding add_reason
  add_reason-ample none json x = refl
  add_reason-ample (some reason) json x =
      ground (arith, ample.adds_string json (codes "reason") (c_str reason) x)

  print-ample : (json : Pointer) (x : X) → (print cjson json x).0 ≢ none
  unfolding print
  print-ample json x = ground (arith, ample.prints json x)

  fill_and_print-ample :
      (e : Event) (json : Pointer) (x : X) → (fill_and_print cjson e json x).0 ≢ none
  unfolding fill_and_print
  fill_and_print-ample e json x =
      let x₁ = (add_metadata cjson e json x).1 in
      ground (
        arith,
        add_metadata-ample e json x,
        add_reason-ample e.fault_reason json x₁,
        print-ample json (add_reason cjson e.fault_reason json x₁).1,
      )

  serialize-ample : (e : Event) (x : X) → (serialize cjson e x).0 ≢ none
  unfolding serialize
  serialize-ample e x = ground (
    arith,
    ample.creates x,
    fill_and_print-ample e (cjson.create_object x).0 (cjson.create_object x).1,
  )

-- If no call of cJSON fails, `serialize` returns a text, and it is that of the object with the
-- event's members in their order. The functions do what `Contract` says.
pub serialize_total :
    {D X : Type 0} (cjson : CJson D X) (live : X → List Pointer)
    (members : Pointer → X → List (Member D)) (text : List (Member D) → Text)
    → Contract cjson live members text
    → IsAmple cjson
    → (e : Event) (x : X) → (serialize cjson e x).0 ≡ some (text (members_of cjson e))
serialize_total cjson live members text contract ample e x =
    ground (
      arith,
      serialize-Prints cjson live members text contract e x,
      serialize-ample cjson ample e x,
    )
