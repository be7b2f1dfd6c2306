-- ===== src/Agent/Handle.antt =====
-- internal/agent/service.go: `Handle`, and its cases for bootstraps.
use mac_agent.Base.{
  String, Option, none, some, List, [], ◌∷◌, codes, is_empty, str_eq, ◌||◌, if◌then◌else◌,
}
use mac_agent.Protocol.Commands.{BootstrapAckPayload}
use mac_agent.Protocol.MessageType
use mac_agent.Protocol.Types.{Message}
use mac_agent.Agent.{ok, err, Service, Chances, State}
use mac_agent.Agent.Queries.{
  refuse, list_profiles, list_projects, list_threads, read_thread, read_source,
}
use mac_agent.Agent.Commands.{
  Handled, answers, start_turn, interrupt_turn, acknowledge_turn, acknowledge_run,
}

module _ (s : Service) (chances : Chances) where
  unfoldable pub start_bootstrap : Message → State → Handled
  start_bootstrap m state =
      let invalid =
        answers state
          (refuse s chances m "MESSAGE_INVALID" (codes "sync_id and command_id are required")) in
      elim (s.decoders.bootstrap_start m.payload) [
        | err text ↦ invalid
        | ok p ↦
            if is_empty p.sync_id || is_empty p.command_id
            then invalid
            else record { state = state; published = []; turn = none; bootstrap = some p }
      ]

  -- The send to a channel that holds one value: a full one, and a sync without one, drop it.
  abbrev pub offer : BootstrapAckPayload → Option BootstrapAckPayload → Option BootstrapAckPayload
  offer ack none = some ack
  offer ack (some waiting) = some waiting

  unfoldable pub offer_to :
      BootstrapAckPayload
      → List (String × Option BootstrapAckPayload)
      → List (String × Option BootstrapAckPayload)
  offer_to ack [] = []
  offer_to ack ((sync_id, waiting) ∷ rest) =
      let others = offer_to ack rest in
      if str_eq sync_id ack.sync_id
      then (sync_id, offer ack waiting) ∷ rest
      else (sync_id, waiting) ∷ others

  unfoldable pub acknowledge_batch : Message → State → Handled
  acknowledge_batch m state = elim (s.decoders.bootstrap_ack m.payload) [
    | err text ↦ answers state []
    | ok ack ↦ answers (record state { bootstrap_acks = offer_to ack state.bootstrap_acks }) []
  ]

  unfoldable pub handle : Message → State → Handled
  handle m state =
      if str_eq m.type MessageType.execution_profile_list
      then answers state (list_profiles s chances m)
      else if str_eq m.type MessageType.project_list
      then answers state (list_projects s chances m)
      else if str_eq m.type MessageType.thread_list
      then answers state (list_threads s chances m)
      else if str_eq m.type MessageType.thread_read
      then answers state (read_thread s chances m)
      else if str_eq m.type MessageType.source_read
      then answers state (read_source s chances m)
      else if str_eq m.type MessageType.turn_start
      then start_turn s chances m state
      else if str_eq m.type MessageType.turn_interrupt
      then interrupt_turn s chances m state
      else if str_eq m.type MessageType.turn_acknowledged
      then answers state (acknowledge_turn s chances m)
      else if str_eq m.type MessageType.runtime_received_ack
      then answers state []
      else if str_eq m.type MessageType.runtime_durable_ack
      then acknowledge_run s chances m state
      else if str_eq m.type MessageType.bootstrap_start
      then start_bootstrap m state
      else if str_eq m.type MessageType.bootstrap_durable_ack
      then acknowledge_batch m state
      else answers state (refuse s chances m "MESSAGE_INVALID" (s.unsupported_text m.type))
