-- ===== src/Tests/Connections.antt =====
-- internal/codexapp/client.go on samples.
use mac_agent.Base.{none, codes}
use mac_agent.CodexApp.Connection.{Response, Connection, closed, connected, begin, receive, finish}
use mac_agent.CodexApp.Replies.{
  begins, receives, finishes, IsReached, initial, step, IsSound, reached-IsSound,
}

abbrev response : Response
response = record { id = 1; error = none; result = codes "{}" }

-- Two calls, the response of the first, and the end of the connection.
abbrev asked : Connection
asked = begin (begin connected)

abbrev ended : Connection
ended = finish closed (receive response asked)

ended-IsReached : IsReached ended
ended-IsReached =
    step (receive response asked) ended
      (step asked (receive response asked)
        (step (begin connected) asked (step connected (begin connected) initial (begins connected))
          (begins (begin connected)))
        (receives response asked))
      (finishes closed (receive response asked))

reached-IsSound_example : IsSound ended
reached-IsSound_example = reached-IsSound ended ended-IsReached
