-- ===== src/Tests/Conn.antt =====
-- conn.go at concrete inputs: the streams that a side opens.
use http.Prelude.{◌≡◌, refl, false, arith}
use http.Prelude.{[], ◌∷◌, none}
use http.Prelude.Results.{ok}
use http.Settings.{value, value_of, default_value}
use http.Conn.State.{ConnState, idle_stream, valid_stream_id}
use http.Conn.Ids.{opens, stop, Ascending, Run-Ascending}
use http.Stream.State.{idle}

-- A client whose first stream is 1.
abbrev client : ConnState
client = record {
  server = false;
  num_streams = 0;
  next_stream_id = 1;
  last_stream_id = 0;
  settings = [];
  go_away = none;
}

abbrev client_after : ConnState
client_after = record client { next_stream_id = 7; last_stream_id = 5 }

opens_5 :
    idle_stream none 5 client ≡ ok (record { id = 5; state = idle; weight = 16 }, client_after)
unfolding idle_stream valid_stream_id value_of value default_value
opens_5 = refl

Run-Ascending_example : Ascending false 1 (5 ∷ [])
Run-Ascending_example =
    Run-Ascending client client_after (5 ∷ [])
      (opens none 5 (record { id = 5; state = idle; weight = 16 }) client client_after client_after
        [] opens_5 (stop client_after))
      (omega arith, tt)
