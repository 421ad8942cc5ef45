-- ===== src/Tests/Reports.antt =====
-- What a client reads, and what the program does with its inputs.
use esp32_dust_extraction.Common.{
  ℕ, ◌≡◌, refl, ◌⊎◌, true, some, [], ◌∷◌, arith, text_eq, text_eq_refl, c_str, ◌||◌, if◌then◌else◌,
}
use esp32_dust_extraction.Common.Int.{pos, ◌-ℤ◌}
use esp32_dust_extraction.Command.{Command, command_type}
use esp32_dust_extraction.CollectorCommands.{start_command_type, stop_command_type}
use esp32_dust_extraction.CommandDispatcher.{DispatchResult, delivery_failed}
use esp32_dust_extraction.CollectorUnit.{running}
use esp32_dust_extraction.CollectorApi.{get, handle, collector_path, stop_path}
use esp32_dust_extraction.CollectorApi.Json.Bodies.{read_report, Reports, Refuses, handle-Reports}
use esp32_dust_extraction.CollectorService
use esp32_dust_extraction.CollectorService.{
  CollectorService, Ports, Call, processes, starts, stops, demands, selects, serve,
}
use esp32_dust_extraction.CollectorService.Messages.{IsOrder, other_ports, serve-IsOrder}
use esp32_dust_extraction.HttpServer.{json_type}
use esp32_dust_extraction.HttpServer.Esp.{HttpdRequest, method_of}
use esp32_dust_extraction.Relay.{RelayState, on}
use esp32_dust_extraction.App.{World, ports, device_uid_string}
use esp32_dust_extraction.App.Effects.{state_of}
use esp32_dust_extraction.App.Demand.{run-demand}
use esp32_dust_extraction.App.History as History
use esp32_dust_extraction.App.Server.{requests, take_request, run, step}
use esp32_dust_extraction.App.Server.Inputs.{Outcome, call_at, run-inputs-Outcome}
use esp32_dust_extraction.App.Calls.{Carried}
use esp32_dust_extraction.App.Grants.{granted}
use esp32_dust_extraction.App.Server.Answers.{run-inputs-answer}
use esp32_dust_extraction.HttpRoutes.{strip_query, starts_with}
use esp32_dust_extraction.HttpRoutes.Calls.{route_call}
use esp32_dust_extraction.CollectorApi.Calls.{call_of}
use esp32_dust_extraction.App.Server.Reports.{run-inputs-report}
use esp32_dust_extraction.App.Server.Selection.{response_to}
use esp32_dust_extraction.Tests.Fixtures.{toy_relay, toy_platform, toy_fills, mac}
use esp32_dust_extraction.Tests.Network.{
  toy_httpd, net, page, program, inputs, listening, selection, program_up,
}
use esp32_dust_extraction.Tests.Program.{service, world, boots}
use esp32_dust_extraction.Tests.Service.{Bench, bench_ports, bench, waiting, bench_control}

handle-Reports_example :
    Reports bench_control (handle bench_control get collector_path (waiting, bench))
    ⊎ Refuses (handle bench_control get collector_path (waiting, bench)).0
handle-Reports_example = handle-Reports bench_control get collector_path (waiting, bench)

-- The collector is running by the time that it is asked for.
abbrev question : HttpdRequest
question = record { address = 9; method = 1; uri = collector_path }

run-inputs-report_example :
    let p = run toy_relay toy_platform toy_httpd page inputs program in
    let response = response_to toy_httpd question p in
    let p' = take_request toy_relay toy_platform toy_httpd page question p in
    (response.status ≡ 200)
    × (response.content_type ≡ json_type)
    × (read_report response.body
        ≡ some (record {
          state = state_of p.world;
          mode = p.service.current_mode;
          device_uid = device_uid_string mac;
          demand_active = p.service.has_demand;
          demand_suppressed = CollectorService.demand_suppressed p.service;
        }))
    × (p'.service ≡ p.service)
    × (p'.world ≡ p.world)
run-inputs-report_example =
    run-inputs-report toy_relay toy_platform toy_fills toy_httpd page mac (pos 1000) 80 5 on 0 net
      inputs program question listening refl refl

run-inputs-Outcome_example :
    let p = run toy_relay toy_platform toy_httpd page inputs program in
    let p' = step toy_relay toy_platform toy_httpd page (requests selection) p in
    Outcome toy_relay toy_platform toy_fills toy_httpd page
      (call_at toy_relay toy_platform toy_fills toy_httpd page (requests selection) p)
      (p.service, p.world)
      (p'.service, p'.world)
run-inputs-Outcome_example =
    run-inputs-Outcome toy_relay toy_platform toy_fills toy_httpd page mac (pos 1000) 80 5 on 0 net
      inputs (requests selection) program listening

-- POST /api/v1/collector/stop, which is refused to a collector that is forced on.
abbrev stop_request : HttpdRequest
stop_request = record { address = 9; method = 3; uri = stop_path }

asks_stop : route_call (method_of toy_httpd stop_request) (c_str stop_request.uri) ≡ some stops
unfolding route_call method_of c_str strip_query starts_with call_of text_eq
asks_stop = refl

run-inputs-answer_example :
    let p = run toy_relay toy_platform toy_httpd page inputs program in
    let p' = take_request toy_relay toy_platform toy_httpd page stop_request p in
    ((response_to toy_httpd stop_request p).status
      ≡ (if granted stops p.service p.world then 202 else 409))
    × Carried toy_relay toy_platform toy_fills stops p.service p'.service p.world p'.world
run-inputs-answer_example =
    run-inputs-answer toy_relay toy_platform toy_fills toy_httpd page mac (pos 1000) 80 5 on 0 net
      inputs program stop_request stops listening program_up asks_stop

-- Dispatching that knows the two orders only.
abbrev picky : Command → Bench → DispatchResult × Bench
picky c w =
    if text_eq (command_type c) start_command_type || text_eq (command_type c) stop_command_type
    then bench_ports.dispatch c w
    else (delivery_failed, w)

picky-IsOrder :
    (x : Command) (w : Bench) → IsOrder waiting.uid x → picky x w ≡ bench_ports.dispatch x w
picky-IsOrder x w h =
    ground (arith, h.typed, text_eq_refl start_command_type, text_eq_refl stop_command_type)

serve-IsOrder_example :
    serve (other_ports bench_ports picky (λ e w. w)) (demands true) waiting bench
    ≡ serve bench_ports (demands true) waiting bench
serve-IsOrder_example =
    serve-IsOrder bench_ports picky (λ e w. w) (demands true) waiting bench picky-IsOrder
      (λ x v h. refl)

-- Demand comes at 0 ms; the call and one of `process` read 400 and 800 ms, the last reads 1200 ms.
abbrev demanded : CollectorService
demanded = record service { has_demand = true; pending_demand_since = some (pos 0) }

abbrev later : World RelayState ℕ
later = record world { platform = 1200 }

waited :
    History.run toy_relay toy_platform (demands true ∷ processes ∷ []) service world
    ≡ (demanded, later)
unfolding History.run serve CollectorService.update_demand CollectorService.note_demand
    CollectorService.process CollectorService.reconcile CollectorService.reconcile_pending ports
    ◌-ℤ◌
waited = refl

untouched : History.run toy_relay toy_platform [] service world ≡ (service, world)
unfolding History.run
untouched = refl

run-demand_example :
    state_of (serve (ports toy_relay toy_platform) processes demanded later).2 ≡ running
unfolding ◌-ℤ◌
run-demand_example =
    run-demand toy_relay toy_platform toy_fills mac (pos 1000) on 0 [] (processes ∷ []) service
      service demanded world world later boots untouched waited refl refl refl (omega arith)
