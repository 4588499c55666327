-- ===== src/Headers.antt =====
-- util.go: header maps, as `Header.add` builds them from a decoded header block.
pub mod Laws
pub mod Keys
pub mod Canonical
use http.Prelude.{
  ℕ, ◌+◌, Bool, true, false, not, ◌&&◌, ◌||◌, ◌==◌, ltb, leb, if◌then◌else◌, codes, str_eq,
}
use http.Prelude.{List, [], ◌∷◌, ◌++◌, length}
use http.Frame.Frames.{Header}

-- `Len`: the number of values.
unfoldable pub header_len : Header → ℕ
header_len [] = 0
header_len ((k, values) ∷ h) = length values + header_len h

-- The keys of `pseudoHeader`.
unfoldable pub is_pseudo : List ℕ → Bool
is_pseudo key =
    str_eq key (codes ":method")
    || str_eq key (codes ":scheme")
    || str_eq key (codes ":authority")
    || str_eq key (codes ":path")
    || str_eq key (codes ":status")

-- The loop of `validHeaderKey`.
unfoldable pub valid_bytes : List ℕ → Bool
valid_bytes [] = true
valid_bytes (c ∷ v) = not (leb 127 c || (leb 65 c && leb c 90)) && valid_bytes v

unfoldable pub valid_header_key : List ℕ → Bool
valid_header_key v = not (length v == 0) && valid_bytes v

-- `(*h)[key] = append((*h)[key], value)`.
unfoldable pub append_value : List ℕ → List ℕ → Header → Header
append_value key value [] = (key, value ∷ []) ∷ []
append_value key value ((k, values) ∷ h) =
    if str_eq k key then (k, values ++ (value ∷ [])) ∷ h else (k, values) ∷ append_value key value h

pub data Added : Type 0 where
  added : Header → Added
  -- `errMalformedHeader`.
  malformed : Added
  -- `key[0]` of an empty key.
  panics : Added

unfoldable pub starts_pseudo : List ℕ → Bool
starts_pseudo [] = false
starts_pseudo (c ∷ key) = c == 58

abbrev add_field : List ℕ → List ℕ → Header → Added
add_field key value h =
    if starts_pseudo key && (ltb 5 (header_len h) || not (is_pseudo key))
    then malformed
    else (if valid_header_key key then added (append_value key value h) else malformed)

-- `Header.add`.
unfoldable pub add_header : List ℕ → List ℕ → Header → Added
unfolding header_len is_pseudo valid_header_key append_value starts_pseudo
add_header [] value h = panics
add_header (c ∷ key) value h = add_field (c ∷ key) value h
