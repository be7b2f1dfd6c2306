-- ===== src/Relay.antt =====
-- internal/relay/client.go: the connection to the relay.
--
-- The WebSocket, JSON and the random delay are parameters. What the goroutines of a session do is the
-- sequence of what their `select` and `Read` take; the channel of outbound messages is a list, oldest
-- first. Durations are nanoseconds.
pub mod Delivery
pub mod Delays
use mac_agent.Base.{
  ℕ, ◌+◌, ◌*◌, ◌%◌, ◌^◌, Bool, true, false, Option, none, some, List, [], ◌∷◌, ◌++◌, Bytes, Int64,
  add64, lt64, le64, length, ltb, if◌then◌else◌,
}
use mac_agent.Protocol.Messages.{decode}
use mac_agent.Protocol.Messages
use mac_agent.Protocol.Types.{Message}

-- `Config`, less the client of HTTP.
pub record Config : Type 0 where
  pub url : Bytes
  pub max_message_bytes : Int64
  pub queue_size : Int64
  pub ping_interval : Int64
  pub min_backoff : Int64
  pub max_backoff : Int64

abbrev pub second : Int64
second = 1000000000

abbrev pub default_max_message_bytes : Int64
default_max_message_bytes = 256 * 1024

abbrev pub at_least_one : Int64 → Int64 → Int64
at_least_one value default = if lt64 value 1 then default else value

-- The configuration that `New` keeps.
unfoldable pub with_defaults : Config → Config
with_defaults c =
    let min_backoff = at_least_one c.min_backoff second in
    record {
      url = c.url;
      max_message_bytes = at_least_one c.max_message_bytes default_max_message_bytes;
      queue_size = at_least_one c.queue_size 128;
      ping_interval = at_least_one c.ping_interval (20 * second);
      min_backoff = min_backoff;
      max_backoff = if lt64 c.max_backoff min_backoff then 30 * second else c.max_backoff;
    }

pub record Client : Type 0 where
  pub config : Config
  pub outbound : List Message

-- `New`
abbrev pub new : Config → Client
new c = record { config = with_defaults c; outbound = [] }

-- `Publish`: `true` is no error, `false` is `ErrOutboundQueueFull`.
unfoldable pub publish : Message → Client → Client × Bool
publish m c =
    if ltb (length c.outbound) c.config.queue_size
    then (record c { outbound = c.outbound ++ m ∷ [] }, true)
    else (c, false)

-- `drainOutbound`
abbrev pub drain_outbound : Client → Client
drain_outbound c = record c { outbound = [] }

-- `a * b` of 64-bit words.
abbrev pub mul64 : Int64 → Int64 → Int64
mul64 a b = a * b % 2 ^ 64

-- `backoff`: `random n` is `rand.Int63n(n)`.
unfoldable pub backoff : (Int64 → Int64) → Config → Int64 → Int64
backoff random c attempt =
    let capped = if lt64 10 attempt then 10 else attempt in
    let delay = mul64 c.min_backoff (2 ^ capped) in
    let bounded = if lt64 c.max_backoff delay then c.max_backoff else delay in
    if le64 bounded 1 then bounded else random bounded

pub data SessionError : Type 0 where
  encoding too_long writing reading ping_failed ended dialing : SessionError

module _ (marshal : Message → Option Bytes) where
  -- `write`: the text that is sent, or the error; `accepted` is the connection's answer.
  unfoldable pub write : Config → Bool → Message → Option SessionError
  write c accepted m = elim (marshal m) [
    | none ↦ some encoding
    | some text ↦
        if lt64 c.max_message_bytes (length text)
        then some too_long
        else if accepted
        then none
        else some writing
  ]

  -- What the write loop's `select` takes, and what other goroutines publish in between.
  pub data Input : Type 0 where
    takes : (accepted : Bool) → Input
    publishes : Message → Input
    ticks : (answered : Bool) → Input
    ends : Input

  -- What the write loop leaves: the client, the messages sent, the message whose write failed, and
  -- the error, where it returned.
  pub record Written : Type 0 where
    pub client : Client
    pub sent : List Message
    pub lost : List Message
    pub error : Option SessionError

  abbrev pub stopped : Client → List Message → Option SessionError → Written
  stopped c lost error = record { client = c; sent = []; lost = lost; error = error }

  abbrev pub behind : Message → Written → Written
  behind m w = record w { sent = m ∷ w.sent }

  -- `writeLoop`: a take of an empty channel does not happen.
  unfoldable pub write_loop : List Input → Client → Written
  write_loop [] c = stopped c [] none
  write_loop (ends ∷ rest) c = stopped c [] (some ended)
  write_loop (ticks true ∷ rest) c = write_loop rest c
  write_loop (ticks false ∷ rest) c = stopped c [] (some ping_failed)
  write_loop (publishes m ∷ rest) c = write_loop rest (publish m c).0
  write_loop (takes accepted ∷ rest) c = elim c.outbound [
    | [] ↦ write_loop rest c
    | m ∷ queue ↦
        let later = write_loop rest (record c { outbound = queue }) in
        elim (write c.config accepted m) [
          | none ↦ behind m later
          | some e ↦ stopped (record c { outbound = queue }) (m ∷ []) (some e)
        ]
  ]

  -- The loop over the initial messages, with the connection's answers.
  unfoldable pub write_initial : Config → (ℕ → Bool) → ℕ → List Message → Option SessionError
  write_initial c accepted n [] = none
  write_initial c accepted n (m ∷ messages) =
      let rest = write_initial c accepted (n + 1) messages in
      elim (write c (accepted n) m) [ none ↦ rest | some e ↦ some e ]

-- A frame that `Read` returns.
pub record Frame : Type 0 where
  pub is_text : Bool
  pub text : Bytes

-- `readLoop`: the messages that it hands to the handler, until `Read` fails.
unfoldable pub read_loop : (Bytes → Option Message) → List Frame → List Message
read_loop unmarshal [] = []
read_loop unmarshal (frame ∷ frames) =
    let rest = read_loop unmarshal frames in
    if frame.is_text
    then elim (decode unmarshal frame.text) [ Messages.err e ↦ rest | Messages.ok m ↦ m ∷ rest ]
    else rest

-- `runSession`: what the read loop's end does to the write loop is an `ends` of its inputs.
unfoldable pub run_session :
    (marshal : Message → Option Bytes)
    → Bool
    → (ℕ → Bool)
    → List Message
    → List (Input marshal)
    → Client
    → Written marshal
run_session marshal false accepted initial inputs c = stopped marshal c [] (some dialing)
run_session marshal true accepted initial inputs c =
    let drained = drain_outbound c in
    elim (write_initial marshal c.config accepted 0 initial) [
      | some e ↦ stopped marshal drained [] (some e)
      | none ↦ write_loop marshal inputs drained
    ]

-- The delays of `Run`: one behind each session, until the context ends, which a session says.
unfoldable pub run : (Int64 → Int64) → Config → Int64 → List Bool → List Int64
run random c attempt [] = []
run random c attempt (true ∷ sessions) = []
run random c attempt (false ∷ sessions) =
    backoff random c attempt ∷ run random c (add64 attempt 1) sessions
