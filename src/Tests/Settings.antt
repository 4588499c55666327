-- ===== src/Tests/Settings.antt =====
-- util.go: settings at concrete inputs.
use http.Prelude.{◌≡◌, refl, ◌≤◌, ◌<◌, ◌^◌, true, false, List, [], ◌∷◌, if◌then◌else◌, ◌==◌, ◌⊎◌}
use http.Prelude.Results.{ok, err}
use http.Settings.{
  Setting, setting, invalid, in_range, put, set_value, value_of, enable_push_id,
  initial_window_size_id, max_frame_size_id,
}
use http.Settings.Laws.{IsValid, value_of-set_value, value_of_bounds}

-- SETTINGS_MAX_FRAME_SIZE is 32768.
abbrev large_frames : List Setting
large_frames = setting 5 32768 ∷ []

large_frames-IsValid : IsValid large_frames
unfolding in_range
large_frames-IsValid = ((refl, tt), (tt, tt))

value_of-set_value_example :
    ((in_range 5 16 ≡ false) × (set_value 5 16 large_frames ≡ err (invalid 5 16)))
    ⊎ ((in_range 5 16 ≡ true)
        × (s' : List Setting) × (set_value 5 16 large_frames ≡ ok s')
        × (value_of 4 s' ≡ (if 5 == 4 then 16 else value_of 4 large_frames)))
value_of-set_value_example = value_of-set_value 5 16 4 large_frames

with_window : set_value 4 10 large_frames ≡ ok (setting 5 32768 ∷ setting 4 10 ∷ [])
unfolding set_value in_range put
with_window = refl

value_of_bounds_example :
    (value_of enable_push_id large_frames ≤ 1)
    × (value_of initial_window_size_id large_frames < 2 ^ 31)
    × (2 ^ 14 ≤ value_of max_frame_size_id large_frames)
    × (value_of max_frame_size_id large_frames < 2 ^ 24)
value_of_bounds_example = value_of_bounds large_frames large_frames-IsValid
