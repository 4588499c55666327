-- ===== src/Stream/Mirror.antt =====
-- stream.go: the states of a stream at the two ends of a connection.
use http.Prelude.{Bool, true, false, some, ◌≡◌, arith}
use http.Frame.Types.{FrameType}
use http.Stream.State.{
  StreamState, reserved_local, reserved_remote, half_closed_local, half_closed_remote, transition,
}

-- The state of the peer.
unfoldable pub mirror : StreamState → StreamState
mirror reserved_local = reserved_remote
mirror reserved_remote = reserved_local
mirror half_closed_local = half_closed_remote
mirror half_closed_remote = half_closed_local
mirror s = s

-- Whatever frame an end may send in its state, with or without END_STREAM, the other end accepts in
-- the mirrored state, and the two new states are mirrored again.
pub transition-mirror :
    (s t : StreamState) (f : FrameType) (es : Bool)
    → transition false s f es ≡ some t
    → transition true (mirror s) f es ≡ some (mirror t)
unfolding transition mirror
transition-mirror s t f true h = ground arith
transition-mirror s t f false h = ground arith
