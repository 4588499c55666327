-- ===== src/Settings.antt =====
-- util.go and http2.go: the settings of one side, a slice of (identifier, value) pairs.
pub mod Laws
use http.Prelude.{ℕ, ◌≤◌, ◌<◌, Bool, true, false, not, ◌&&◌, ◌==◌, leb, ltb, if◌then◌else◌}
use http.Prelude.{List, [], ◌∷◌, Option, none, some}
use http.Prelude.Results.{Result, ok, err}
use http.Frame.Types.{
  default_header_table_size, default_enable_push, max_concurrent_streams,
  default_initial_window_size, max_frame_size_lower_bound, max_frame_size_upper_bound,
  max_initial_window_size,
}

pub record Setting : Type 0 where
  pub id : ℕ
  pub value : ℕ

abbrev pub setting : ℕ → ℕ → Setting
setting i v = record { id = i; value = v }

abbrev pub header_table_size_id : ℕ
header_table_size_id = 0x1

abbrev pub enable_push_id : ℕ
enable_push_id = 0x2

abbrev pub max_concurrent_streams_id : ℕ
max_concurrent_streams_id = 0x3

abbrev pub initial_window_size_id : ℕ
initial_window_size_id = 0x4

abbrev pub max_frame_size_id : ℕ
max_frame_size_id = 0x5

abbrev pub max_header_list_size_id : ℕ
max_header_list_size_id = 0x6

-- The method `value`.
unfoldable pub value : ℕ → List Setting → Option ℕ
value id [] = none
value id (x ∷ xs) = if x.id == id then some x.value else value id xs

-- The `switch` at the end of `Value`.
unfoldable pub default_value : ℕ → ℕ
default_value id =
    if id == header_table_size_id
    then default_header_table_size
    else (if id == enable_push_id
        then default_enable_push
        else (if id == max_concurrent_streams_id
            then max_concurrent_streams
            else (if id == initial_window_size_id
                then default_initial_window_size
                else (if id == max_frame_size_id then max_frame_size_lower_bound else 0))))

abbrev or_default : ℕ → Option ℕ → ℕ
or_default d none = d
or_default d (some v) = v

-- The method `Value`.
unfoldable pub value_of : ℕ → List Setting → ℕ
value_of id s = or_default (default_value id) (value id s)

unfoldable pub push_enabled : List Setting → Bool
push_enabled s = not (value_of enable_push_id s == 0)

-- The `switch` at the head of `SetValue`.
unfoldable pub in_range : ℕ → ℕ → Bool
in_range id v =
    if id == enable_push_id
    then ltb v 2
    else (if id == initial_window_size_id
        then leb v max_initial_window_size
        else (if id == max_frame_size_id
            then leb max_frame_size_lower_bound v && leb v max_frame_size_upper_bound
            else true))

-- The loop of `SetValue` and the `append` behind it.
unfoldable pub put : ℕ → ℕ → List Setting → List Setting
put id v [] = setting id v ∷ []
put id v (x ∷ xs) = if x.id == id then setting id v ∷ xs else x ∷ put id v xs

-- The error of `SetValue`: "invalid %s specified; %v".
pub data SettingError : Type 0 where
  invalid : ℕ → ℕ → SettingError

unfoldable pub set_value : ℕ → ℕ → List Setting → Result SettingError (List Setting)
unfolding put
set_value id v s = if in_range id v then ok (put id v s) else err (invalid id v)
