-- ===== src/App.antt =====
-- firmware/main/main.cpp: the objects that `app_main` builds and how they are wired. The board's
-- clock and random numbers are the parameter `Platform` over a state `E`; the relay is any
-- `RelayDriver`. Nothing subscribes to events in `app_main`.
pub mod DeviceName
pub mod Wiring
pub mod Effects
pub mod Modes
pub mod Automatic
pub mod History
pub mod Calls
pub mod Grants
pub mod Demand
pub mod Boot
pub mod Server
pub mod Board
use esp32_dust_extraction.Common.{
  ℕ, Bool, true, false, Option, none, some, List, [], ◌∷◌, ◌++◌, Text, codes, text_eq, ltb, ◌+◌,
  ◌-◌, ◌/◌, ◌%◌, if◌then◌else◌,
}
use esp32_dust_extraction.Common.Int.{ℤ}
use esp32_dust_extraction.Event.{Timestamp}
use esp32_dust_extraction.Event.DeviceUid
use esp32_dust_extraction.Command.{Command, command_type}
use esp32_dust_extraction.CommandDispatcher
use esp32_dust_extraction.CommandDispatcher.{CommandDispatcher}
use esp32_dust_extraction.EventDispatcher
use esp32_dust_extraction.EventDispatcher.{EventDispatcher}
use esp32_dust_extraction.CollectorCommands.{start_command_type, stop_command_type}
use esp32_dust_extraction.Relay.{RelayDriver}
use esp32_dust_extraction.RelayBackedCollectorUnit
use esp32_dust_extraction.RelayBackedCollectorUnit.{RelayBackedCollectorUnit}
use esp32_dust_extraction.EventIdGenerator
use esp32_dust_extraction.CollectorService
use esp32_dust_extraction.CollectorService.{CollectorService, Ports}

pub record Platform (E : Type 0) : Type 0 where
  pub now : E → Timestamp × E
  pub fill_random : ℕ → E → List ℕ × E

-- A digit of `%X`.
unfoldable pub upper_digit : ℕ → ℕ
upper_digit d = if ltb d 10 then b'0' + d else b'A' + (d - 10)

-- `%02X` of each byte.
unfoldable pub upper_bytes : List ℕ → Text
unfolding upper_digit
upper_bytes [] = []
upper_bytes (b ∷ bs) = upper_digit (b / 16) ∷ upper_digit (b % 16) ∷ upper_bytes bs

-- `mac` is what `esp_read_mac` stores, six bytes; the text is shorter than the buffer.
unfoldable pub device_uid_string : List ℕ → Text
unfolding upper_bytes
device_uid_string mac = codes "COLLECTOR-" ++ upper_bytes mac

-- The lambda that `app_main` registers is the one command handler.
pub data Recipient : Type 0 where
  collector : Recipient

-- Nothing subscribes to events, so there is no handler that could break `publish` off.
pub record World (R E : Type 0) : Type 0 where
  pub unit : RelayBackedCollectorUnit R
  pub dispatcher : CommandDispatcher Recipient
  pub event_dispatcher : EventDispatcher ⊥
  pub platform : E

module _ {R E : Type 0} (driver : RelayDriver R) (platform : Platform E) where
  unfoldable pub receive : Recipient → Command → World R E → Bool × World R E
  receive collector command w =
      if text_eq (command_type command) start_command_type
      then (let (done, u) = RelayBackedCollectorUnit.start driver w.unit in
          (done, record w { unit = u }))
      else if text_eq (command_type command) stop_command_type
      then (let (done, u) = RelayBackedCollectorUnit.stop driver w.unit in
          (done, record w { unit = u }))
      else (false, w)

  unfoldable pub ports : Ports (World R E)
  ports = record {
    dispatch = CommandDispatcher.dispatch (λ w. w.dispatcher) receive;
    publish = λ event w.
        (EventDispatcher.publish (λ v. v.event_dispatcher) (λ h e v. absurd h) event w).1;
    unit_state = λ w. RelayBackedCollectorUnit.state driver w.unit;
    generate = λ w.
        let (id, e) = EventIdGenerator.generate platform.fill_random w.platform in
        (id, record w { platform = e });
    clock = λ w. let (now, e) = platform.now w.platform in (now, record w { platform = e });
  }

  -- `app_main` up to the construction of the service. `none` is one of its two early returns.
  unfoldable pub register :
      DeviceUid.DeviceUid → ℤ → World R E → Option (CollectorService × World R E)
  register uid start_delay w =
      let (registered, d) =
        CommandDispatcher.register_recipient uid (some collector) w.dispatcher in
      if registered
      then some (CollectorService.new uid start_delay, record w { dispatcher = d })
      else none

  unfoldable pub app_main : List ℕ → ℤ → R → E → Option (CollectorService × World R E)
  unfolding register
  app_main mac start_delay relay e =
      let w : World R E = record {
        unit = RelayBackedCollectorUnit.new driver relay;
        dispatcher = record { recipients = [] };
        event_dispatcher = EventDispatcher.new;
        platform = e;
      } in
      elim (DeviceUid.from_string (device_uid_string mac)) [
        | none ↦ none
        | some uid ↦ register uid start_delay w
      ]
