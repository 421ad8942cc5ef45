-- ===== src/Tests/EventText.antt =====
-- A memory that a counter stands for: every call takes a fresh address, and none fails.
use esp32_dust_extraction.Common.{
  ℕ, ◌≡◌, ◌⊎◌, refl, ap, none, some, List, [], ◌∷◌, ◌++◌, Text, codes, arith,
}
use esp32_dust_extraction.Common.Int.{ℤ, pos}
use esp32_dust_extraction.Event.{Event}
use esp32_dust_extraction.EventJson.{CJson, Pointer, serialize}
use esp32_dust_extraction.EventJson.Documented.{
  Member, string, number, Contract, IsAmple, members_of,
}
use esp32_dust_extraction.EventJson.Memory.{serialize-Prints}
use esp32_dust_extraction.EventJson.Totality.{serialize_total}
use esp32_dust_extraction.CollectorEvents.{collector_fault}
use esp32_dust_extraction.Tests.Fixtures.{uid, id_text}

-- One object at a time, at the address 1; the printed text is at the address 2.
record Memory : Type 0 where
  live : List Pointer
  object : List (Member ℤ)

-- The keys stand for the text of an object.
abbrev keys : List (Member ℤ) → Text
keys [] = []
keys (string key value ∷ ms) = key ++ keys ms
keys (number key value ∷ ms) = key ++ keys ms

abbrev tail : List ℕ → List ℕ
tail [] = []
tail (x ∷ xs) = xs

abbrev toy_cjson : CJson ℤ Memory
toy_cjson = record {
  to_double = λ z. z;
  create_object = λ x. (1, record { live = 1 ∷ x.live; object = [] });
  add_string_to_object =
      λ json key value x. (1, record x { object = x.object ++ string key value ∷ [] });
  add_number_to_object =
      λ json key value x. (1, record x { object = x.object ++ number key value ∷ [] });
  print_unformatted = λ json x. (2, record x { live = 2 ∷ x.live });
  string_at = λ p x. keys x.object;
  delete = λ p x. record x { live = tail x.live };
  free = λ p x. record x { live = tail x.live };
}

toy-Contract : Contract toy_cjson (λ x. x.live) (λ json x. x.object) keys
toy-Contract = record {
  create_null = λ x null. absurd (omega arith);
  create_ok = λ x nonnull. (refl, refl);
  string_live = λ json key value x. refl;
  string_ok = λ json key value x nonnull. refl;
  number_live = λ json key value x. refl;
  number_ok = λ json key value x nonnull. refl;
  print_null = λ json x null. absurd (omega arith);
  print_ok = λ json x nonnull. (refl, refl);
  free_live = λ p others x up. ap tail up;
  delete_live = λ p others x up. ap tail up;
}

toy-IsAmple : IsAmple toy_cjson
toy-IsAmple = record {
  creates = λ x. omega arith;
  adds_string = λ json key value x. omega arith;
  adds_number = λ json key value x. omega arith;
  prints = λ json x. omega arith;
}

abbrev fault : Event
fault = collector_fault (record { value = id_text }) (pos 1000) uid (codes "no \"air\"")

abbrev memory : Memory
memory = record { live = 9 ∷ []; object = [] }

serialize-Prints_example :
    let (result, x') = serialize toy_cjson fault memory in
    (x'.live ≡ 9 ∷ []) × ((result ≡ none) ⊎ (result ≡ some (keys (members_of toy_cjson fault))))
serialize-Prints_example =
    serialize-Prints toy_cjson (λ x. x.live) (λ json x. x.object) keys toy-Contract fault memory

serialize_total_example :
    (serialize toy_cjson fault memory).0 ≡ some (keys (members_of toy_cjson fault))
serialize_total_example =
    serialize_total toy_cjson (λ x. x.live) (λ json x. x.object) keys toy-Contract toy-IsAmple fault
      memory
