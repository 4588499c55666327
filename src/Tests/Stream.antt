-- ===== src/Tests/Stream.antt =====
-- stream.go at concrete inputs.
use http.Prelude.{◌%◌, ◌^◌, ◌≡◌, refl, ◌≤◌, true, false, List, [], ◌∷◌, none, some, inl, inr}
use http.Prelude.Results.{ok}
use http.Flow.Recv.{new_recv_flow}
use http.Frame.Types.{headers_type, data_type, rst_stream_type}
use http.Stream.State.{
  idle, opened, half_closed_local, closed, transition, send, receive, end_stream, active,
}
use http.Stream.Mirror.{mirror, transition-mirror}
use http.Stream.Swap.{
  Stream, Conn, stream_transition, swap_state, closed_from, shut, count, local, without, note_reset,
  num_active_streams,
}
use http.Stream.Count.{on_side, share}
use http.Stream.Active.{Counted, all_active, stream_transition-Counted}
use http.Stream.Progress.{Event, run, changes, changes-le, no_content_after_end}

request_sent : transition false idle headers_type true ≡ some half_closed_local
unfolding transition send end_stream
request_sent = refl

transition-mirror_example :
    transition true (mirror idle) headers_type true ≡ some (mirror half_closed_local)
transition-mirror_example = transition-mirror idle half_closed_local headers_type true request_sent

abbrev response : List Event
response =
    record { recv = true; frame_type = headers_type; ends = false }
    ∷ record { recv = true; frame_type = data_type; ends = true }
    ∷ []

no_content_after_end_example :
    transition false (run half_closed_local response) data_type false ≡ none
no_content_after_end_example =
    no_content_after_end false idle headers_type data_type response false (inr refl) (inl refl)
      request_sent

changes-le_example : changes idle response ≤ 3
changes-le_example = changes-le idle response

-- A server with one open stream of its client, which sends RST_STREAM.
abbrev one_stream : Stream
one_stream = record {
  id = 1;
  state = opened;
  recv_flow = none;
  send_flow = none;
  reset_sent = false;
  reset_received = false;
  close_ch = false;
}

abbrev one_closed : Stream
one_closed = record one_stream { state = closed; reset_received = true; close_ch = true }

abbrev server_conn : Conn
server_conn = record {
  server = true;
  num_streams = 0;
  remote_num_streams = 1;
  settings = [];
  remote_settings = [];
  recv_flow = new_recv_flow 65535;
  streams = 1 ∷ [];
  queue = [];
}

abbrev server_after : Conn
server_after = record server_conn { remote_num_streams = 0; streams = [] }

was_reset :
    stream_transition true rst_stream_type false one_stream server_conn
    ≡ some (ok (one_closed, server_after))
unfolding stream_transition transition receive end_stream swap_state closed_from shut count local
    without note_reset
was_reset = refl

server_conn-Counted : Counted server_conn (one_stream ∷ [])
unfolding share on_side local active
server_conn-Counted = record { own = refl; peers = refl }

stream_transition-Counted_example :
    Counted server_after (one_closed ∷ [])
    × (num_active_streams server_after ≡ all_active (one_closed ∷ []) % 2 ^ 32)
stream_transition-Counted_example =
    stream_transition-Counted true rst_stream_type false [] [] one_stream one_closed server_conn
      server_after server_conn-Counted was_reset
