-- ===== src/Stream/State.antt =====
-- stream.go: the states of a stream and `StreamState.transition`.
use http.Prelude.{Bool, true, false, Option, none, some}
use http.Frame.Types.{
  FrameType, data_type, headers_type, priority_type, rst_stream_type, push_promise_type,
  window_update_type,
}
use mathlib.Core.Option

pub data StreamState : Type 0 where
  idle reserved_local reserved_remote opened : StreamState
  half_closed_local half_closed_remote closed : StreamState

unfoldable pub active : StreamState → Bool
active opened = true
active half_closed_local = true
active half_closed_remote = true
active _ = false

unfoldable pub readable : StreamState → Bool
readable opened = true
readable half_closed_local = true
readable _ = false

unfoldable pub writable : StreamState → Bool
writable opened = true
writable half_closed_remote = true
writable _ = false

-- The outer `switch` where `recv` is true; `none` is the return with `ok == false`.
unfoldable pub receive : StreamState → FrameType → Option StreamState
receive idle headers_type = some opened
receive idle priority_type = some idle
receive idle push_promise_type = some reserved_remote
receive idle _ = none
receive reserved_local priority_type = some reserved_local
receive reserved_local window_update_type = some reserved_local
receive reserved_local rst_stream_type = some closed
receive reserved_local _ = none
receive half_closed_remote priority_type = some half_closed_remote
receive half_closed_remote window_update_type = some half_closed_remote
receive half_closed_remote rst_stream_type = some closed
receive half_closed_remote _ = none
receive reserved_remote headers_type = some half_closed_local
receive reserved_remote priority_type = some reserved_remote
receive reserved_remote rst_stream_type = some closed
receive reserved_remote _ = none
receive opened rst_stream_type = some closed
receive opened _ = some opened
receive half_closed_local rst_stream_type = some closed
receive half_closed_local _ = some half_closed_local
receive closed priority_type = some closed
receive closed _ = none

-- The same where `recv` is false.
unfoldable pub send : StreamState → FrameType → Option StreamState
send idle headers_type = some opened
send idle priority_type = some idle
send idle push_promise_type = some reserved_local
send idle _ = none
send reserved_local headers_type = some half_closed_remote
send reserved_local priority_type = some reserved_local
send reserved_local rst_stream_type = some closed
send reserved_local _ = none
send reserved_remote priority_type = some reserved_remote
send reserved_remote window_update_type = some reserved_remote
send reserved_remote rst_stream_type = some closed
send reserved_remote _ = none
send half_closed_local priority_type = some half_closed_local
send half_closed_local window_update_type = some half_closed_local
send half_closed_local rst_stream_type = some closed
send half_closed_local _ = none
send opened rst_stream_type = some closed
send opened _ = some opened
send half_closed_remote data_type = some half_closed_remote
send half_closed_remote headers_type = some half_closed_remote
send half_closed_remote priority_type = some half_closed_remote
send half_closed_remote rst_stream_type = some closed
send half_closed_remote _ = none
send closed priority_type = some closed
send closed _ = none

-- `if endStream { switch to { ... } }`.
unfoldable pub end_stream : Bool → StreamState → StreamState
end_stream true opened = half_closed_remote
end_stream false opened = half_closed_local
end_stream _ half_closed_local = closed
end_stream _ half_closed_remote = closed
end_stream _ s = s

abbrev finish : Bool → Bool → StreamState → StreamState
finish recv true s = end_stream recv s
finish recv false s = s

-- `from.transition(recv, frameType, endStream)`.
unfoldable pub transition : Bool → StreamState → FrameType → Bool → Option StreamState
unfolding receive send end_stream
transition true s f es = Option.map (finish true es) (receive s f)
transition false s f es = Option.map (finish false es) (send s f)
