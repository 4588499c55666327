-- ===== src/Tests/Wire.antt =====
-- read.go and write.go at concrete inputs.
use http.Prelude.{ℕ, ◌+◌, length, ◌≡◌, refl, true, false, arith, List, [], ◌∷◌, ◌++◌, none, some}
use http.Prelude.Int.{pos}
use http.Settings.{setting, in_range}
use http.Settings.Laws.{IsValid}
use http.Frame.Frames.{DataFrame, SettingsFrame}
use http.Wire.Write.{FrameWriter, Written, valid_stream_id, write_settings, write_data}
use http.Wire.Write.Control.{IsHealthy, sends}
use http.Wire.Write.Chunks.{Chunk, payload_len, chunk_bytes, stream_bytes}
use http.Wire.Read.Data.{data_frame, read_data-chunk_bytes}
use http.Wire.Write.Split.{IsSplit, write_data-IsSplit}
use http.Wire.Write.Data.{write_data_returns}
use http.Wire.Read.{
  got, Stale, peeked, read_settings_loop, FrameHead, read_data, read_settings, read_control,
}
use http.Wire.Read.RoundTrip.{read_as}
use http.Wire.Read.Settings.{read_settings-write}
use http.Wire.Read.Framing.{TakesAll, read_control-Takes}
use http.Wire.Read.Cut.{left_over, read_settings-left_over}

abbrev new_writer : FrameWriter
new_writer = record { out = []; accepts = none; max_frame_size = 16384; err = none }

new_writer-IsHealthy : IsHealthy new_writer
new_writer-IsHealthy = record { unlimited = refl; no_error = refl }

valid_1 : valid_stream_id 1 ≡ true
unfolding valid_stream_id
valid_1 = refl

-- A buffer that is full.
abbrev no_stale : Stale
no_stale n = []

-- The start of another frame.
abbrev next_bytes : List ℕ
next_bytes = 0 ∷ 0 ∷ 4 ∷ []

abbrev two_settings : SettingsFrame
two_settings = record { ack = false; settings = setting 4 1000 ∷ setting 5 32768 ∷ [] }

two_settings-IsValid : IsValid two_settings.settings
unfolding in_range
two_settings-IsValid = ((refl, (refl, tt)), ((omega arith, tt), (tt, tt)))

read_settings-write_example :
    (sent : List ℕ) × (write_settings two_settings new_writer ≡ sends sent new_writer)
    × (read_as (read_settings no_stale) (sent ++ next_bytes) ≡ got (two_settings, next_bytes))
read_settings-write_example =
    read_settings-write no_stale two_settings new_writer next_bytes new_writer-IsHealthy
      (λ q. absurd cc) two_settings-IsValid
      ((omega arith, omega arith), ((omega arith, omega arith), tt)) (omega arith)

-- A payload of two settings, of which seven bytes come, and a buffer with an older setting.
abbrev settings_head : FrameHead
settings_head = record { payload_len = 12; frame_type = 4; flags = 0; stream_id = 0 }

abbrev seven_bytes : List ℕ
seven_bytes = 0 ∷ 4 ∷ 0 ∷ 0 ∷ 3 ∷ 232 ∷ 0 ∷ []

abbrev older : Stale
older n = 3 ∷ 0 ∷ 0 ∷ 0 ∷ 7 ∷ 0 ∷ []

read_settings-left_over_example :
    (7 + length (left_over older 2 seven_bytes) ≡ 12)
    × (read_settings older settings_head seven_bytes
        ≡ read_settings older settings_head (seven_bytes ++ left_over older 2 seven_bytes))
read_settings-left_over_example =
    read_settings-left_over older settings_head seven_bytes (λ n. omega arith) (omega arith) refl

-- The second setting is one that was not sent.
cut_settings_read :
    read_settings older settings_head seven_bytes
    ≡ got (record { ack = false; settings = setting 4 1000 ∷ setting 3 7 ∷ [] }, [])
unfolding read_settings read_settings_loop peeked in_range
cut_settings_read = refl

abbrev reset_head : FrameHead
reset_head = record { payload_len = 4; frame_type = 3; flags = 0; stream_id = 1 }

read_control-Takes_example :
    TakesAll 4 (0 ∷ 0 ∷ 0 ∷ 8 ∷ 9 ∷ []) (read_control no_stale reset_head (0 ∷ 0 ∷ 0 ∷ 8 ∷ 9 ∷ []))
read_control-Takes_example =
    read_control-Takes no_stale reset_head (0 ∷ 0 ∷ 0 ∷ 8 ∷ 9 ∷ []) (omega arith)

abbrev three_bytes : DataFrame
three_bytes = record {
  stream_id = 1;
  payload = some (1 ∷ 2 ∷ 3 ∷ []);
  data_len = pos 3;
  pad_len = 2;
  end_stream = true;
}

write_data_returns_example : (r : Written) × (write_data three_bytes new_writer ≡ some r)
write_data_returns_example = write_data_returns three_bytes new_writer (omega arith)

-- Three bytes of data and two of padding, in frames of at most two bytes.
abbrev small_writer : FrameWriter
small_writer = record { out = []; accepts = none; max_frame_size = 2; err = none }

write_data-IsSplit_example :
    (cs : List Chunk) × (write_data three_bytes small_writer
      ≡ some (sends (stream_bytes 1 true cs) small_writer))
    × IsSplit 2 (1 ∷ 2 ∷ 3 ∷ []) 2 cs
write_data-IsSplit_example =
    write_data-IsSplit three_bytes (1 ∷ 2 ∷ 3 ∷ []) 3 small_writer
      (record { unlimited = refl; no_error = refl }) (omega arith) valid_1 refl refl (omega arith)
      (omega arith)

abbrev last_chunk : Chunk
last_chunk = record { content = 3 ∷ []; pad = 1; final = true }

read_data-chunk_bytes_example :
    read_as read_data (chunk_bytes 1 true last_chunk ++ next_bytes)
    ≡ got (data_frame 1 true (3 ∷ []) 1, 3 ∷ 0 ∷ next_bytes)
unfolding payload_len
read_data-chunk_bytes_example =
    read_data-chunk_bytes 1 true last_chunk next_bytes (omega arith) (omega arith) (omega arith)
      (omega arith)
