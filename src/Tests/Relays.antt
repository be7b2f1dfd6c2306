-- ===== src/Tests/Relays.antt =====
-- internal/relay/client.go on samples.
use mac_agent.Base.{◌≤◌, true, false, some, List, [], ◌∷◌, All, codes, ◌-◌, arith}
use mac_agent.Relay.{Config, Input, publishes, takes, ticks, new, write_loop, run}
use mac_agent.Relay.Delays.{run-le}
use mac_agent.Relay.Delivery.{accepted, IsDelivered, write_loop-IsDelivered}
use mac_agent.Tests.Protocol.{status_message}

abbrev config : Config
config = record {
  url = codes "wss://relay";
  max_message_bytes = 0;
  queue_size = 1;
  ping_interval = 0;
  min_backoff = 0;
  max_backoff = 0;
}

abbrev usual : Config
usual = record config { min_backoff = 1000000000; max_backoff = 30000000000 }

run-le_example : All (λ delay. delay ≤ 30000000000) (run (λ n. n - 1) usual 0 (false ∷ false ∷ []))
run-le_example =
    run-le (λ n. n - 1) usual 0 (false ∷ false ∷ []) (λ n h. omega arith) (omega arith)
      (omega arith) (omega arith)

abbrev inputs : List (Input (λ m. some (codes "{}")))
inputs =
    publishes status_message ∷ publishes status_message ∷ takes true ∷ ticks true ∷ takes false ∷ []

write_loop-IsDelivered_example :
    IsDelivered
      (λ m. some (codes "{}"))
      (accepted (λ m. some (codes "{}")) inputs (new config))
      (new config)
      (write_loop (λ m. some (codes "{}")) inputs (new config))
write_loop-IsDelivered_example = write_loop-IsDelivered (λ m. some (codes "{}")) inputs (new config)
