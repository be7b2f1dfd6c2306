-- ===== src/Agent/Commands.antt =====
-- internal/agent/service.go: the cases of `Handle` for runs.
use mac_agent.Base.{
  String, Option, none, some, List, [], ◌∷◌, ◌++◌, codes, lt64, is_empty, not, ◌||◌, if◌then◌else◌,
}
use mac_agent.Durable.{prepare_run, durable_ack, cancel}
use mac_agent.Durable
use mac_agent.Durable.Schema.{Tables}
use mac_agent.Protocol.Commands.{TurnStartPayload, BootstrapStartPayload}
use mac_agent.Protocol.MessageType
use mac_agent.Protocol.Payloads.{run_accepted}
use mac_agent.Protocol.Types.{Message}
use mac_agent.Turn.{Execution, Started, StartError, busy, start, interrupt}
use mac_agent.Turn
use mac_agent.Agent.{
  ok, err, Service, Chances, State, message, rejection, reject, is_terminal_status, reject_run,
  replay,
}
use mac_agent.Agent.Queries.{refuse}

-- What `Handle` leaves: the state, what it published, the turn and the bootstrap that it started.
pub record Handled : Type 0 where
  pub state : State
  pub published : List Message
  pub turn : Option Execution
  pub bootstrap : Option BootstrapStartPayload

abbrev pub answers : State → List Message → Handled
answers state published = record {
  state = state;
  published = published;
  turn = none;
  bootstrap = none;
}

module _ (s : Service) (chances : Chances) where
  -- The run of a start: the id of the payload, or the trace of the message; and its command.
  abbrev pub run_of : Message → TurnStartPayload → String
  run_of m p = if is_empty p.run_id then m.trace_id else p.run_id

  abbrev pub commanded : Message → TurnStartPayload → TurnStartPayload
  commanded m p = record p {
    command_id = if is_empty p.command_id then m.message_id else p.command_id;
  }

  abbrev start_code : StartError → String
  start_code busy = "AGENT_BUSY"
  start_code e = "TURN_START_FAILED"

  -- The answer to what the controller's `Start` returned.
  unfoldable pub conclude_start : String → State → Started → Handled
  conclude_start run_id state (Turn.ok execution) = record {
    state = state;
    published = [];
    turn = some execution;
    bootstrap = none;
  }
  conclude_start run_id state (Turn.err e) =
      let (durable, published) =
        reject_run (chances.faults 3) (chances.now 3)
          (rejection s (chances.stamp 2) run_id (start_code e) (s.start_text e)) run_id
          state.durable in
      answers (record state { durable = durable }) published

  abbrev after : List Message → Handled → Handled
  after published h = record h { published = published ++ h.published }

  -- The running status, which the controller passes to the sink, is no durable event.
  unfoldable pub start_controller : String → TurnStartPayload → State → Handled
  start_controller run_id p state =
      let (c, started, sent) =
        start s.marshal s.sender (chances.stamp 1) (chances.now 2) (s.resolve p.project_id) run_id p
          state.controller in
      after sent (conclude_start run_id (record state { controller = c }) started)

  -- A run that the store did not know: it is accepted first.
  unfoldable pub accept_run : Message → TurnStartPayload → Tables → State → Handled
  accept_run m p t state =
      let run_id = run_of m p in
      let accepted =
        message s (chances.stamp 0) MessageType.run_accepted run_id
          (run_accepted record { command_id = p.command_id; run_id = run_id }) in
      let (t', appended, error) =
        Durable.append_event (chances.faults 1) (chances.now 1) run_id accepted t in
      let stored = record state { durable = some t' } in
      elim error [
        | some e ↦
            answers stored
              (reject s (chances.stamp 1) m.trace_id "DURABLE_STORE_FAILED" (s.store_text e))
        | none ↦ after (appended ∷ []) (start_controller run_id p stored)
      ]

  unfoldable pub start_run : Message → TurnStartPayload → State → Handled
  start_run m p state =
      let run_id = run_of m p in
      elim state.durable [
        | none ↦ start_controller run_id p state
        | some t ↦
            let (t', prepared) =
              prepare_run (chances.faults 0) (chances.now 0) run_id p.command_id (s.command_json p)
                t in
            let stored = record state { durable = some t' } in
            elim prepared [
              | Durable.err e ↦
                  answers stored (refuse s chances m "DURABLE_STORE_FAILED" (s.store_text e))
              | Durable.ok created ↦
                  if created
                  then accept_run m p t' stored
                  else answers stored (replay (chances.faults 1) chances.ids t')
            ]
      ]

  unfoldable pub start_turn : Message → State → Handled
  start_turn m state = elim (s.decoders.turn_start m.payload) [
    | err text ↦ answers state (refuse s chances m "MESSAGE_INVALID" text)
    | ok p ↦ start_run m (commanded m p) state
  ]

  -- What `Cancel` leaves, where there is a store.
  abbrev pub cancelled : String → Option Tables → Option Tables
  cancelled run_id none = none
  cancelled run_id (some t) = some (cancel (chances.faults 0) (chances.now 0) run_id t).0

  unfoldable pub interrupt_turn : Message → State → Handled
  interrupt_turn m state = elim (s.decoders.turn_interrupt m.payload) [
    | err text ↦ answers state (refuse s chances m "MESSAGE_INVALID" text)
    | ok p ↦
        let (c, done) = interrupt p.thread_id p.turn_id state.controller in
        answers (record state { controller = c; durable = cancelled m.trace_id state.durable })
          (if done then [] else refuse s chances m "TURN_NOT_FOUND" (codes "turn not found"))
  ]

  unfoldable pub acknowledge_turn : Message → List Message
  acknowledge_turn m = elim (s.decoders.turn_acknowledged m.payload) [
    | err text ↦ refuse s chances m "MESSAGE_INVALID" text
    | ok p ↦
        if is_empty p.turn_id || not (is_terminal_status p.status)
        then refuse s chances m "MESSAGE_INVALID"
            (codes "turn_id and a terminal status are required")
        else []
  ]

  abbrev invalid_ack : Message → List Message
  invalid_ack m =
      refuse s chances m "MESSAGE_INVALID" (codes "run_id and agent_sequence are required")

  unfoldable pub acknowledge_run : Message → State → Handled
  acknowledge_run m state = elim (s.decoders.runtime_ack m.payload) [
    | err text ↦ answers state (invalid_ack m)
    | ok p ↦
        if is_empty p.run_id || lt64 p.agent_sequence 1
        then answers state (invalid_ack m)
        else elim state.durable [
          | none ↦ answers state []
          | some t ↦
              let (t', error) =
                durable_ack (chances.faults 0) (chances.now 0) p.run_id p.agent_sequence t in
              answers (record state { durable = some t' })
                (elim error [
                  | none ↦ []
                  | some e ↦ refuse s chances m "DURABLE_ACK_FAILED" (s.store_text e)
                ])
        ]
  ]
