-- ===== src/Conn/State.antt =====
-- conn.go: `connState`, the streams that one side of a connection opens. A connection has one for
-- itself and one for its peer.
use http.Prelude.{ℕ, ◌+◌, ◌%◌, ◌^◌, Bool, true, false, not, ◌&&◌, ltb, ◌==◌, bit_and, List}
use http.Prelude.{Option, none, some}
use http.Prelude.Results.{Result, ok, guard, ◌>>◌}
use http.Error.{Error, conn_error}
use http.Frame.Types.{err_code_protocol, err_code_refused_stream}
use http.Frame.Frames.{GoAwayFrame}
use http.Settings.{Setting, value_of, max_concurrent_streams_id}
use http.Stream.State.{StreamState, idle}

pub record ConnState : Type 0 where
  pub server : Bool
  pub num_streams : ℕ
  pub next_stream_id : ℕ
  pub last_stream_id : ℕ
  pub settings : List Setting
  pub go_away : Option GoAwayFrame

-- What `idleStream` sets of a new `stream`, without its channels.
pub record NewStream : Type 0 where
  pub id : ℕ
  pub state : StreamState
  pub weight : ℕ

abbrev pub default_weight : ℕ
default_weight = 16

abbrev same : Bool → Bool → Bool
same true b = b
same false b = not b

unfoldable pub valid_stream_id : ConnState → ℕ → Bool
valid_stream_id s stream_id = same s.server (bit_and stream_id 1 == 0) && ltb 0 stream_id

abbrev is_none : Option GoAwayFrame → Bool
is_none none = true
is_none (some f) = false

-- `go_away` is that of the connection itself, whichever side the streams are of.
unfoldable pub idle_stream :
    Option GoAwayFrame → ℕ → ConnState → Result Error (NewStream × ConnState)
unfolding valid_stream_id
idle_stream go_away stream_id s = do
  guard (is_none go_away) (conn_error err_code_protocol)
  guard (valid_stream_id s stream_id) (conn_error err_code_protocol)
  guard (not (ltb stream_id s.next_stream_id)) (conn_error err_code_protocol)
  guard (not (ltb (value_of max_concurrent_streams_id s.settings) ((s.num_streams + 1) % 2 ^ 32)))
      (conn_error err_code_refused_stream)
  ok (
    record { id = stream_id; state = idle; weight = default_weight },
    record s { next_stream_id = (stream_id + 2) % 2 ^ 32; last_stream_id = stream_id },
  )
