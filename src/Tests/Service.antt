-- ===== src/Tests/Service.antt =====
-- The service over ports that record what is sent.
use esp32_dust_extraction.Common.{
  ℕ, zero, suc, ◌+◌, ◌<◌, ◌≡◌, refl, ◌⊎◌, Bool, true, false, not, ◌||◌, none, some, List, [], ◌∷◌,
  ◌++◌, Text, arith, codes, text_eq, if◌then◌else◌,
}
use esp32_dust_extraction.Common.Int.{pos, ◌-ℤ◌, ◌<ℤ◌, ◌≤ℤ◌}
use esp32_dust_extraction.Event.EventId
use esp32_dust_extraction.Command.{command_type}
use esp32_dust_extraction.Command.CommandId
use esp32_dust_extraction.CommandDispatcher.{delivered, delivery_failed}
use esp32_dust_extraction.CollectorUnit.{CollectorState, stopped, automatic, forced_on, mode_eq}
use esp32_dust_extraction.CollectorService
use esp32_dust_extraction.CollectorService.{
  CollectorService, Ports, demands, serve, request_start, request_mode, reconcile, update_demand,
  process,
}
use esp32_dust_extraction.CollectorService.Invariant.{IsValid, serve-IsValid, request_mode_atomic}
use esp32_dust_extraction.CollectorService.Policy.{
  Recorder, wanted, is_due, types_of, reconcile-wanted, request_mode-wanted,
}
use esp32_dust_extraction.CollectorService.Delay.{
  ticks, reading, process_times, update_demand_waits,
}
use esp32_dust_extraction.CollectorService.Retries.{
  service_after, world_after, now_after, starts_wanted, Keeps, sent-process_times,
}
use esp32_dust_extraction.CollectorApi.{
  ICollectorControl, post, handle, answer, error, service_control, mode_of,
}
use esp32_dust_extraction.CollectorApi.Routes.{mode_path, handle_unaccepted}
use esp32_dust_extraction.Tests.Fixtures.{uid, id_text}

-- A stopped collector, the time, whether commands get through, and the commands sent.
pub record Bench : Type 0 where
  pub unit : CollectorState
  pub time : ℕ
  pub delivers : Bool
  pub sent : List Text

abbrev pub bench : Bench
bench = record { unit = stopped; time = 1000; delivers = true; sent = [] }

-- Every reading of the clock takes 400 ms.
abbrev pub bench_ports : Ports Bench
bench_ports = record {
  dispatch = λ c w. (
    if w.delivers then delivered else delivery_failed,
    record w { sent = w.sent ++ command_type c ∷ [] },
  );
  publish = λ e w. w;
  unit_state = λ w. w.unit;
  generate = λ w. (record { value = id_text }, w);
  clock = λ w. (pos w.time, record w { time = w.time + 400 });
}

bench_recorder : Recorder bench_ports
unfolding CommandId.from_string EventId.from_string
bench_recorder = record {
  sent = λ w. w.sent;
  sent-dispatch = λ c w. refl;
  sent-generate = λ w. refl;
  sent-clock = λ w. refl;
  state-clock = λ w. refl;
  valid_id = λ w. refl;
}

abbrev pub idle : CollectorService
idle = record {
  uid = uid;
  start_delay = pos 1000;
  current_mode = automatic;
  has_demand = false;
  pending_demand_since = none;
}

abbrev pub waiting : CollectorService
waiting = record idle { has_demand = true; pending_demand_since = some (pos 0) }

waiting-IsValid : IsValid waiting
waiting-IsValid = ground arith

reconcile-wanted_example :
    bench_recorder.sent (reconcile bench_ports false waiting bench).2
    ≡ bench_recorder.sent bench
      ++ types_of (wanted automatic true (false || is_due waiting (pos 1000)) stopped)
reconcile-wanted_example = reconcile-wanted bench_ports bench_recorder false waiting bench

request_mode-wanted_example :
    bench_recorder.sent (request_mode bench_ports forced_on waiting bench).2
    ≡ bench_recorder.sent bench
      ++ types_of (
          wanted forced_on true
            (not (mode_eq automatic forced_on) || is_due waiting (pos 1000))
            stopped)
request_mode-wanted_example = request_mode-wanted bench_ports bench_recorder forced_on waiting bench

-- A mode that cannot be put into effect.
request_mode_atomic_example :
    let (done, s', w') =
      request_mode bench_ports forced_on waiting (record bench { delivers = false }) in
    ((done ≡ true) × (s'.current_mode ≡ forced_on) × (s'.has_demand ≡ true))
    ⊎ ((done ≡ false) × (s' ≡ waiting))
request_mode_atomic_example =
    request_mode_atomic bench_ports forced_on waiting (record bench { delivers = false })
      waiting-IsValid

serve-IsValid_example : IsValid (serve bench_ports (demands true) idle bench).1
serve-IsValid_example = serve-IsValid bench_ports (demands true) idle bench (ground arith)

early : (k : ℕ) → k < 2 → reading bench_ports (suc k) bench -ℤ pos 1000 <ℤ pos 1000
unfolding ticks ◌-ℤ◌
early zero h = omega arith
early (suc zero) h = omega arith
early (suc (suc k)) h = absurd (omega arith)

-- One reading by the call and one by each `process`: at 1400 and 1800 ms, less than 1000 ms after
-- the demand at 1000 ms.
update_demand_waits_example :
    let (done, s', w') = update_demand bench_ports true idle bench in
    (done ≡ true)
    × (process_times bench_ports 1 s' w' ≡ (
      record idle { has_demand = true; pending_demand_since = some (pos 1000) },
      ticks bench_ports 3 bench,
    ))
update_demand_waits_example = update_demand_waits bench_ports 1 idle bench refl refl early

-- Ports that lose the first command.
abbrev flaky_ports : Ports Bench
flaky_ports = record bench_ports {
  dispatch = λ c w. (
    if is_empty w.sent then delivery_failed else delivered,
    record w { sent = w.sent ++ command_type c ∷ [] },
  );
}
  where
    is_empty : List Text → Bool
    is_empty [] = true
    is_empty (t ∷ ts) = false

flaky_recorder : Recorder flaky_ports
unfolding CommandId.from_string EventId.from_string
flaky_recorder = record {
  sent = λ w. w.sent;
  sent-dispatch = λ c w. refl;
  sent-generate = λ w. refl;
  sent-clock = λ w. refl;
  state-clock = λ w. refl;
  valid_id = λ w. refl;
}

-- The first command is lost at 1000 ms, and the second gets through at 1800 ms.
delay_over : (k : ℕ) → k < 2 → waiting.start_delay ≤ℤ now_after flaky_ports k waiting bench -ℤ pos 0
unfolding process_times process reconcile CollectorService.reconcile_pending ◌-ℤ◌ request_start
    CollectorService.dispatch_command CollectorService.send CommandId.from_string
    EventId.from_string
delay_over zero h = omega arith
delay_over (suc zero) h = omega arith
delay_over (suc (suc k)) h = absurd (omega arith)

sent-process_times_example :
    (flaky_recorder.sent (world_after flaky_ports 2 waiting bench)
      ≡ flaky_recorder.sent bench ++ starts_wanted flaky_ports 2 waiting bench)
    × Keeps flaky_ports waiting (service_after flaky_ports 2 waiting bench)
sent-process_times_example =
    sent-process_times flaky_ports flaky_recorder 2 waiting bench (pos 0) refl refl refl delay_over

abbrev pub bench_control : ICollectorControl (CollectorService × Bench)
bench_control = service_control bench_ports

abbrev page : Text
page = codes "<html></html>"

-- The start command gets lost.
abbrev pub lossy : Bench
lossy = record bench { delivers = false }

refused : (handle bench_control post (mode_path forced_on) (waiting, lossy)).0.status ≡ 409
unfolding handle answer error service_control mode_path mode_of text_eq request_mode reconcile
    CollectorService.start_if_stopped CollectorService.request_start
    CollectorService.dispatch_command CollectorService.send CommandId.from_string
    EventId.from_string
refused = refl

handle_unaccepted_example :
    (handle bench_control post (mode_path forced_on) (waiting, lossy)).1.0 ≡ waiting
handle_unaccepted_example =
    handle_unaccepted bench_ports post (mode_path forced_on) waiting lossy waiting-IsValid
      (λ accepted. ground (arith, refused))
