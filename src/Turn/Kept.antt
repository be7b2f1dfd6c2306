-- ===== src/Turn/Kept.antt =====
-- What the steps of a turn keep of the controller.
use mac_agent.Base.{
  if_both, ◌≡◌, refl, inl, inr, String, Option, List, Bytes, Int64, str_eq, Option-cases,
}
use mac_agent.Protocol.Types.{Sender, Message, ThreadHistoryItem}
use mac_agent.Protocol.Payloads.{Payload}
use mac_agent.Protocol.Messages.{Stamp}
use mac_agent.Runner.{
  Event, event_started, event_output, event_item_started, event_item_delta, event_item_completed,
}
use mac_agent.Turn.{Execution, note_started, handle_event}
use mac_agent.Turn.Items.{
  Controller, store_started_item, store_completed_item, store_item_delta, put_item, put_delta,
  find_index, count,
}
use mac_agent.Turn.Indexed.{IsIndexed, put_item-IsIndexed, put_delta-IsIndexed}

abbrev pub Keeps : Controller → Controller → Type 0
Keeps c c' = (c'.trace_id ≡ c.trace_id) × (c'.cancel ≡ c.cancel) × (IsIndexed c → IsIndexed c')

unchanged : (c : Controller) → Keeps c c
unchanged c = (refl, refl, λ h. h)

note_started-Keeps :
    (trace_id : String) (event : Event) (c : Controller) → Keeps c (note_started trace_id event c)
unfolding note_started
note_started-Keeps trace_id event c =
    if_both (Keeps c) (str_eq c.trace_id trace_id)
      (record c { thread_id = event.thread_id; turn_id = event.turn_id }) c (unchanged c)
      (unchanged c)

abbrev Fixed : Controller → Controller → Type 0
Fixed c c' = (c'.trace_id ≡ c.trace_id) × (c'.cancel ≡ c.cancel)

put_item-Fixed : (item : ThreadHistoryItem) (c : Controller) → Fixed c (put_item item c)
unfolding put_item
put_item-Fixed item c = elim (Option-cases (find_index item.id c.live_item_index)) [
  | inl e ↦ rw (e, put_item) (refl, refl)
  | inr (i, e) ↦ rw (e, put_item) (refl, refl)
]

put_delta-Fixed : (event : Event) (c : Controller) → Fixed c (put_delta event c)
unfolding put_delta
put_delta-Fixed event c = elim (Option-cases (find_index event.item_id c.live_item_index)) [
  | inl e ↦ rw (e, put_delta) (refl, refl)
  | inr (i, e) ↦ rw (e, put_delta) (refl, refl)
]

put_item-Keeps : (item : ThreadHistoryItem) (c : Controller) → Keeps c (put_item item c)
put_item-Keeps item c = let (t, k) = put_item-Fixed item c in (t, k, put_item-IsIndexed item c)

put_delta-Keeps : (event : Event) (c : Controller) → Keeps c (put_delta event c)
put_delta-Keeps event c =
    let (t, k) = put_delta-Fixed event c in (t, k, put_delta-IsIndexed event c)

store_started_item-Keeps :
    (trace_id : String) (item : ThreadHistoryItem) (c : Controller)
    → Keeps c (store_started_item trace_id item c).0
unfolding store_started_item
store_started_item-Keeps trace_id item c =
    if_both {A = Controller × Int64} (λ r. Keeps c r.0) _ (c, 0)
      (put_item item (count c), (count c).last_sequence) (unchanged c)
      (put_item-Keeps item (count c))

store_completed_item-Keeps :
    (trace_id : String) (item : ThreadHistoryItem) (c : Controller)
    → Keeps c (store_completed_item trace_id item c).0
unfolding store_completed_item
store_completed_item-Keeps trace_id item c =
    if_both {A = Controller × Int64} (λ r. Keeps c r.0) _ (c, 0)
      (put_item item (count c), (count c).last_sequence) (unchanged c)
      (put_item-Keeps item (count c))

store_item_delta-Keeps :
    (trace_id : String) (event : Event) (c : Controller)
    → Keeps c (store_item_delta trace_id event c).0
unfolding store_item_delta
store_item_delta-Keeps trace_id event c =
    if_both {A = Controller × Int64} (λ r. Keeps c r.0) _ (c, 0)
      (count (put_delta event c), (count c).last_sequence) (unchanged c) (put_delta-Keeps event c)

pub handle_event-Keeps :
    (marshal : Payload → Option Bytes) (sender : Sender) (stamp : Stamp) (e : Execution)
    (event : Event) (c : Controller)
    → Keeps c (handle_event marshal sender stamp e event c).0
unfolding handle_event
handle_event-Keeps marshal sender stamp e event c =
    let Kept : Controller × List Message → Type 0 = λ r. Keeps c r.0 in
    if_both Kept (str_eq event.kind event_started) _ _ (note_started-Keeps e.trace_id event c) (
      if_both Kept (str_eq event.kind event_output) _ _ (unchanged c) (
        if_both Kept (str_eq event.kind event_item_started) _ _
          (store_started_item-Keeps e.trace_id event.item c)
          (if_both Kept (str_eq event.kind event_item_delta) _ _
            (store_item_delta-Keeps e.trace_id event c)
            (if_both Kept (str_eq event.kind event_item_completed) _ _
              (store_completed_item-Keeps e.trace_id event.item c) (unchanged c)))))
