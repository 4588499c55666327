-- ===== src/Frame/Frames.antt =====
-- http2.go: the frames; util.go: their methods `Type`, `Stream`, `EndOfStream` and `HasPriority`. An
-- `io.Reader` is the list of the bytes that it gives, and `none` where it is nil.
use http.Prelude.{ℕ, Bool, false, not, ◌&&◌, ◌==◌, List, Option}
use http.Prelude.Int.{ℤ}
use http.Settings.{Setting}
use http.Frame.Types.{
  FrameType, data_type, headers_type, priority_type, rst_stream_type, settings_type,
  push_promise_type, ping_type, go_away_type, window_update_type, frame_type_of, flag_end_stream,
  has,
}

-- A map from a key to its values.
abbrev pub Header : Type 0
Header = List (List ℕ × List (List ℕ))

pub record DataFrame : Type 0 where
  pub stream_id : ℕ
  pub payload : Option (List ℕ)
  pub data_len : ℤ
  pub pad_len : ℕ
  pub end_stream : Bool

pub record Priority : Type 0 where
  pub stream_dependency : ℕ
  pub weight : ℕ
  pub exclusive : Bool

pub record HeadersFrame : Type 0 where
  pub stream_id : ℕ
  pub header : Header
  pub priority : Priority
  pub pad_len : ℕ
  pub end_stream : Bool

pub record PriorityFrame : Type 0 where
  pub stream_id : ℕ
  pub priority : Priority

pub record RstStreamFrame : Type 0 where
  pub stream_id : ℕ
  pub err_code : ℕ

pub record SettingsFrame : Type 0 where
  pub ack : Bool
  pub settings : List Setting

pub record PushPromiseFrame : Type 0 where
  pub stream_id : ℕ
  pub promised_stream_id : ℕ
  pub header : Header
  pub pad_len : ℕ

-- The payload has eight bytes.
pub record PingFrame : Type 0 where
  pub ack : Bool
  pub payload : List ℕ

pub record GoAwayFrame : Type 0 where
  pub last_stream_id : ℕ
  pub err_code : ℕ
  pub debug_data : List ℕ

pub record WindowUpdateFrame : Type 0 where
  pub stream_id : ℕ
  pub window_size_increment : ℕ

pub record UnknownFrame : Type 0 where
  pub frame_type : ℕ
  pub stream_id : ℕ
  pub flags : ℕ
  pub payload : Option (List ℕ)
  pub payload_len : ℤ

pub data Frame : Type 0 where
  data_frame : DataFrame → Frame
  headers_frame : HeadersFrame → Frame
  priority_frame : PriorityFrame → Frame
  rst_stream_frame : RstStreamFrame → Frame
  settings_frame : SettingsFrame → Frame
  push_promise_frame : PushPromiseFrame → Frame
  ping_frame : PingFrame → Frame
  go_away_frame : GoAwayFrame → Frame
  window_update_frame : WindowUpdateFrame → Frame
  unknown_frame : UnknownFrame → Frame

-- The method `Type`.
unfoldable pub type_of : Frame → FrameType
unfolding frame_type_of
type_of (data_frame f) = data_type
type_of (headers_frame f) = headers_type
type_of (priority_frame f) = priority_type
type_of (rst_stream_frame f) = rst_stream_type
type_of (settings_frame f) = settings_type
type_of (push_promise_frame f) = push_promise_type
type_of (ping_frame f) = ping_type
type_of (go_away_frame f) = go_away_type
type_of (window_update_frame f) = window_update_type
type_of (unknown_frame f) = frame_type_of f.frame_type

-- The method `Stream`.
unfoldable pub stream_of : Frame → ℕ
stream_of (data_frame f) = f.stream_id
stream_of (headers_frame f) = f.stream_id
stream_of (priority_frame f) = f.stream_id
stream_of (rst_stream_frame f) = f.stream_id
stream_of (settings_frame f) = 0
stream_of (push_promise_frame f) = f.stream_id
stream_of (ping_frame f) = 0
stream_of (go_away_frame f) = 0
stream_of (window_update_frame f) = f.stream_id
stream_of (unknown_frame f) = f.stream_id

-- The method `EndOfStream`.
unfoldable pub end_of_stream : Frame → Bool
unfolding has
end_of_stream (data_frame f) = f.end_stream
end_of_stream (headers_frame f) = f.end_stream
end_of_stream (unknown_frame f) = has f.flags flag_end_stream
end_of_stream _ = false

-- `f.Priority != Priority{}`.
unfoldable pub has_priority : HeadersFrame → Bool
has_priority f =
    not (f.priority.stream_dependency == 0 && f.priority.weight == 0 && not f.priority.exclusive)
