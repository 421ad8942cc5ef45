-- ===== src/CommandDispatcher.antt =====
-- firmware/components/command_dispatcher. A handler is a value of the parameter `H` that stands
-- for the `std::function`; `none` is an empty one. What calling it does is the parameter `call`
-- of `dispatch`, over a state `S` that holds the dispatcher too, since a handler may register and
-- unregister recipients.
pub mod Registry
pub mod Refinement
use esp32_dust_extraction.Common.{
  Bool, true, false, Option, none, some, List, [], ◌∷◌, ◌++◌, Text, text_eq, find_if, erase_first,
  if◌then◌else◌,
}
use esp32_dust_extraction.Event.DeviceUid
use esp32_dust_extraction.Command.{Command, target}

pub data DispatchResult : Type 0 where
  delivered unknown_recipient delivery_failed : DispatchResult

pub record Recipient (H : Type 0) : Type 0 where
  pub uid : Text
  pub handler : H

pub record CommandDispatcher (H : Type 0) : Type 0 where
  pub recipients : List (Recipient H)

abbrev pub has_uid : {H : Type 0} → Text → Recipient H → Bool
has_uid uid candidate = text_eq candidate.uid uid

unfoldable pub register_recipient :
    {H : Type 0} → DeviceUid.DeviceUid → Option H → CommandDispatcher H → Bool × CommandDispatcher H
register_recipient recipient none d = (false, d)
register_recipient recipient (some handler) d =
    elim (find_if (has_uid recipient.value) d.recipients) [
      | some existing ↦ (false, d)
      | none ↦ (
        true,
        record {
          recipients = d.recipients ++ record { uid = recipient.value; handler = handler } ∷ [];
        },
      )
    ]

unfoldable pub unregister_recipient :
    {H : Type 0} → DeviceUid.DeviceUid → CommandDispatcher H → Bool × CommandDispatcher H
unregister_recipient recipient d = elim (find_if (has_uid recipient.value) d.recipients) [
  | none ↦ (false, d)
  | some existing ↦
      (true, record { recipients = erase_first (has_uid recipient.value) d.recipients })
]

-- `handler(command) ? delivered : delivery_failed`.
abbrev pub result_of : Bool → DispatchResult
result_of true = delivered
result_of false = delivery_failed

unfoldable pub dispatch :
    {H S : Type 0}
    → (S → CommandDispatcher H)
    → (H → Command → S → Bool × S)
    → Command
    → S
    → DispatchResult × S
dispatch dispatcher call command s =
    elim (find_if (has_uid (target command)) (dispatcher s).recipients) [
      | none ↦ (unknown_recipient, s)
      | some recipient ↦
          let (accepted, s') = call recipient.handler command s in (result_of accepted, s')
    ]
