-- ===== src/Lib.antt =====
-- OpenExtraction: the firmware of the dust collector node (firmware/).
--
-- The program. A collector is switched by a relay. `CollectorService` decides when: it holds the
-- mode (automatic, forced on, forced off), the demand and a start delay, and it acts only by
-- sending `StartCollector` and `StopCollector` through the `CommandDispatcher`. The one recipient,
-- registered in firmware/main/main.cpp, drives the `RelayBackedCollectorUnit`, whose
-- `CollectorStateMachine` admits or refuses the change and whose `RelayDriver` sets the pin.
-- Faults go out as events through the `EventDispatcher`. Ids are random UUIDs. Over HTTP,
-- `HttpServer` hands a request to the routes, these to `CollectorApi`, and that to the service.
-- `DemandAggregator` collects the demand of the machine units; nothing calls it yet.
--
-- Where it is modelled. A component firmware/components/<name> is the file that bears its name:
--   Event, Event/EventId, Event/EventType, Event/DeviceUid   event
--   Command, Command/CommandId, Command/CommandType          command
--   CollectorCommands, CollectorEvents                       collector_commands, collector_events
--   CommandDispatcher, EventDispatcher                       command_dispatcher, event_dispatcher
--   CollectorUnit, CollectorStateMachine                     collector_unit, collector_state_machine
--   Relay, EspRelayDriver                                    relay, esp_relay_driver
--   RelayBackedCollectorUnit                                 relay_backed_collector_unit
--   CollectorService                                         collector_service
--   CollectorApi                                             collector_api
--   HttpServer, HttpServer/Esp, HttpServer/Host              http_server
--   HttpRoutes                                               http_routes
--   DemandAggregator                                         demand_aggregator
--   EventIdGenerator                                         event_id_generator
--   Adc, EspAdcDriver                                        adc, esp_adc_driver
--   EventJson                                                event_json
--   MachineDemandSource                                      machine_demand_source
--   App, App/Server, App/Board                               firmware/main/main.cpp
-- The modules below a file hold its proofs, Common the shared helpers, and Tests the theorems at
-- concrete inputs. A function keeps its name; a constructor of a class is `new`. A method that
-- changes its object returns the new record, behind its result if it has one.
--
-- How it is modelled. Texts are lists of bytes. Times are signed counts of milliseconds with no
-- bound. Counters and subscription ids wrap around at 2 ^ 32. A `std::function` with effects is a
-- value of a parameter type, or `none` if it is empty, and a parameter says what calling it does to
-- a state that holds the dispatcher too, so that a handler may change the dispatcher that calls it.
-- An exception that breaks `EventDispatcher::publish` off is a part of its result. What the service
-- holds by reference is the interface `Ports`, which App fills with the real parts. Code outside
-- the repository is a parameter, with what its documentation says of it as a record of laws where
-- a theorem needs them: the GPIO, httpd, ADC, timer and delay functions, `esp_fill_random`, the
-- system clock and cJSON. Pointers are numbers, 0 for null. A `const char *` reads a text up to
-- its first zero byte. A buffer is a list, which its loop writes in place. An `ESP_ERROR_CHECK`
-- that fails ends the program, which is `none` in EspRelayDriver; `Alive` of a `RelayDriver` says
-- that this has not happened. A loop runs over a list or over the rounds that its counter leaves,
-- so there is no fuel; `std::to_string` gets more rounds than its number has digits. The JSON that
-- a client reads is said by a reader of its own, CollectorApi/Json/Reader, which takes as many
-- rounds as the text has bytes, one for each member.
--
-- Where documents and code disagree the model follows the code. docs/specification asks for a run-on
-- period after the last demand, for a service that latches faults until an operator resets it, for
-- fault events of failed commands and for events that wait in a queue; the code has none of these.
-- The unit's state machine has a faulted state of its own; nothing in the firmware resets it.
--
-- Not modelled: enumeration values outside the enumerators, threads but as orders of whole
-- operations, the static page, logging, and the end of the 64-bit counts of time. What ESP-IDF and
-- cJSON do inside, and `float` and `double`, are parameters.
pub mod Common
pub mod Event
pub mod Command
pub mod CollectorCommands
pub mod CollectorEvents
pub mod CommandDispatcher
pub mod EventDispatcher
pub mod CollectorUnit
pub mod CollectorStateMachine
pub mod Relay
pub mod EspRelayDriver
pub mod RelayBackedCollectorUnit
pub mod CollectorService
pub mod CollectorApi
pub mod HttpServer
pub mod HttpRoutes
pub mod DemandAggregator
pub mod EventJson
pub mod MachineDemandSource
pub mod Adc
pub mod EspAdcDriver
pub mod EventIdGenerator
pub mod App
mod Tests
