-- ===== src/Stream/Swap.antt =====
-- stream.go: `compareAndSwapState` and `transition` of a stream, with what they change of the
-- connection. The state is read and swapped in one step, which is what the loop of `transition`
-- comes to. `none` is a panic, a nil `sendFlow`; a blocked writer that `cancel` wakes up is left out.
use http.Prelude.{ℕ, ◌+◌, ◌-◌, ◌%◌, ◌^◌, Bool, true, false, not, ◌==◌, if◌then◌else◌, bit_and}
use http.Prelude.{List, [], ◌∷◌, ◌++◌, Option, none, some}
use http.Prelude.Int.{pos, ◌-ℤ◌}
use http.Prelude.Results.{Result, ok, err}
use http.Error.{Error, conn_error, stream_error, already_closed, bad_stream_state}
use http.Frame.Types.{FrameType, rst_stream_type, err_code_protocol, err_code_stream_closed}
use http.Settings.{Setting, value_of, initial_window_size_id}
use http.Flow.Recv.{RecvFlow, new_recv_flow, Grant, return_bytes, consumed_bytes}
use http.Flow.Send.{SendFlow, new_send_flow, increment_initial_window, increment_window, cancel}
use http.Stream.State.{
  StreamState, idle, reserved_local, reserved_remote, opened, half_closed_local, half_closed_remote,
  closed, transition,
}

pub record Stream : Type 0 where
  pub id : ℕ
  pub state : StreamState
  pub recv_flow : Option RecvFlow
  pub send_flow : Option SendFlow
  pub reset_sent : Bool
  pub reset_received : Bool
  pub close_ch : Bool

-- What a stream reads and changes of its connection: the settings of both sides, the streams by
-- their identifiers, `connStream.recvFlow`, and the frames added to the control queue.
pub record Conn : Type 0 where
  pub server : Bool
  pub num_streams : ℕ
  pub remote_num_streams : ℕ
  pub settings : List Setting
  pub remote_settings : List Setting
  pub recv_flow : RecvFlow
  pub streams : List ℕ
  pub queue : List Grant

-- The method `local`.
unfoldable pub local : Bool → ℕ → Bool
local true id = bit_and id 1 == 0
local false id = not (bit_and id 1 == 0)

-- The map entry is deleted, and set.
unfoldable pub without : ℕ → List ℕ → List ℕ
without id [] = []
without id (x ∷ xs) = let rest = without id xs in if x == id then rest else x ∷ rest

abbrev pub add_stream : ℕ → Conn → Conn
add_stream id c = record c { streams = id ∷ without id c.streams }

-- The flush that may follow is I/O.
abbrev pub remove_stream : ℕ → Conn → Conn
remove_stream id c = record c { streams = without id c.streams }

-- `atomic.AddUint32` of `n` to the counter of the side that opened the stream.
unfoldable pub count : ℕ → ℕ → Conn → Conn
unfolding local
count n id c =
    if local c.server id
    then record c { num_streams = (c.num_streams + n) % 2 ^ 32 }
    else record c { remote_num_streams = (c.remote_num_streams + n) % 2 ^ 32 }

-- `sendFlow` of a new stream with the window `w`.
abbrev started_flow : ℕ → ℕ → Option SendFlow
started_flow id w = some ((increment_initial_window id (pos w) new_send_flow).0)

unfoldable pub send_flow_for : StreamState → ℕ → Conn → Option SendFlow → Option SendFlow
send_flow_for half_closed_local id c flow = flow
send_flow_for to id c flow = started_flow id (value_of initial_window_size_id c.remote_settings)

-- The stream becomes active: it is counted, and has its windows.
unfoldable pub activated : StreamState → Stream → Conn → Stream × Conn
unfolding count send_flow_for
activated to s c =
    let w = value_of initial_window_size_id c.settings in
    let s' = record s {
      recv_flow = some (new_recv_flow w);
      send_flow = send_flow_for to s.id c s.send_flow;
    } in
    (s', count 1 s.id c)

abbrev pub then_added : Stream × Conn → Stream × Conn
then_added (s, c) = (s, add_stream s.id c)

-- `s.sendFlow.cancel(); s.sendFlow.incrementWindow(-s.sendFlow.window())`.
unfoldable pub stopped : ℕ → SendFlow → SendFlow
stopped id flow = let d = cancel flow in (increment_window id (pos 0 -ℤ d.win) d).0

abbrev pub stop_sending : Stream → Conn → Option SendFlow → Option (Stream × Conn)
stop_sending s c none = none
stop_sending s c (some flow) = some (record s { send_flow = some (stopped s.id flow) }, c)

abbrev stopped_if : ℕ → Option SendFlow → Option SendFlow
stopped_if id none = none
stopped_if id (some flow) = some (stopped id flow)

abbrev pub return_all : Stream → Conn → Option RecvFlow → Stream × Conn
return_all s c none = (s, c)
return_all s c (some flow) =
    let (p, e, out) =
      return_bytes s.id (consumed_bytes flow) (record { conn = c.recv_flow; own = flow }) in
    (record s { recv_flow = some p.own }, record c { recv_flow = p.conn; queue = c.queue ++ out })

abbrev then_removed : Stream × Conn → Stream × Conn
then_removed (s, c) = (s, remove_stream s.id c)

-- The stream is closed, from another state.
unfoldable pub shut : Stream → Conn → Stream × Conn
unfolding stopped
shut s c =
    let s' = record s { close_ch = true; send_flow = stopped_if s.id s.send_flow } in
    then_removed (return_all s' c s.recv_flow)

-- The `switch` over `to`, by what it does for each `from`.
unfoldable pub reserved_from : StreamState → Stream → Conn → Option (Stream × Conn)
reserved_from idle s c = some (s, add_stream s.id c)
reserved_from _ s c = some (s, c)

unfoldable pub active_from : StreamState → StreamState → Stream → Conn → Option (Stream × Conn)
unfolding activated stopped
active_from to idle s c = some (then_added (activated to s c))
active_from to reserved_local s c = some (activated to s c)
active_from to reserved_remote s c = some (activated to s c)
active_from half_closed_local opened s c = stop_sending s c s.send_flow
active_from _ _ s c = some (s, c)

unfoldable pub closed_from : StreamState → Stream → Conn → Option (Stream × Conn)
unfolding count shut
closed_from closed s c = some (s, c)
closed_from idle s c = some (shut s c)
closed_from reserved_local s c = some (shut s c)
closed_from reserved_remote s c = some (shut s c)
closed_from _ s c = some (shut s (count (2 ^ 32 - 1) s.id c))

-- `compareAndSwapState(from, to)` where `from` is the stream's state.
unfoldable pub swap_state : StreamState → Stream → Conn → Option (Stream × Conn)
unfolding reserved_from active_from closed_from
swap_state idle s c = some (record s { state = idle }, c)
swap_state reserved_local s c = reserved_from s.state (record s { state = reserved_local }) c
swap_state reserved_remote s c = reserved_from s.state (record s { state = reserved_remote }) c
swap_state opened s c = active_from opened s.state (record s { state = opened }) c
swap_state half_closed_local s c =
    active_from half_closed_local s.state (record s { state = half_closed_local }) c
swap_state half_closed_remote s c =
    active_from half_closed_remote s.state (record s { state = half_closed_remote }) c
swap_state closed s c = closed_from s.state (record s { state = closed }) c

-- The errors of `transition`, by the state.
unfoldable pub send_error : StreamState → Error
send_error closed = already_closed
send_error _ = bad_stream_state

unfoldable pub receive_error : StreamState → FrameType → Error
receive_error half_closed_remote f = conn_error err_code_stream_closed
receive_error _ f = conn_error err_code_protocol

unfoldable pub refusal : Bool → FrameType → Stream → Error
unfolding send_error receive_error
refusal false f s = send_error s.state
refusal true f s =
    if s.reset_received
    then stream_error err_code_stream_closed s.id
    else (if s.reset_sent
        then stream_error err_code_stream_closed s.id
        else receive_error s.state f)

-- Where the new state is `closed` by a RST_STREAM frame.
unfoldable pub note_reset : Bool → StreamState → FrameType → Stream → Stream
note_reset true closed rst_stream_type s = record s { reset_received = true }
note_reset false closed rst_stream_type s = record s { reset_sent = true }
note_reset _ _ _ s = s

abbrev pub noted :
    Bool → StreamState → FrameType → Option (Stream × Conn) → Option (Result Error (Stream × Conn))
noted recv to f none = none
noted recv to f (some (s, c)) = some (ok (note_reset recv to f s, c))

abbrev pub swapped :
    Bool → FrameType → Stream → Conn → Option StreamState → Option (Result Error (Stream × Conn))
swapped recv f s c none = some (err (refusal recv f s))
swapped recv f s c (some to) = noted recv to f (swap_state to s c)

-- `stream.transition(recv, frameType, endStream)`.
unfoldable pub stream_transition :
    Bool → FrameType → Bool → Stream → Conn → Option (Result Error (Stream × Conn))
unfolding swap_state note_reset refusal
stream_transition recv f end_stream s c = swapped recv f s c (transition recv s.state f end_stream)

-- conn.go: `NumActiveStreams`.
unfoldable pub num_active_streams : Conn → ℕ
num_active_streams c = (c.num_streams + c.remote_num_streams) % 2 ^ 32
