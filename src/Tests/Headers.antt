-- ===== src/Tests/Headers.antt =====
-- util.go: header maps at concrete inputs.
use http.Prelude.{◌+◌, ◌≡◌, refl, [], ◌∷◌, ◌++◌, if◌then◌else◌, str_eq, codes, inl}
use http.Frame.Frames.{Header}
use http.Headers.{
  header_len, valid_header_key, valid_bytes, append_value, added, starts_pseudo, add_header,
}
use http.Headers.Keys.{lower_byte, is_ascii, to_lower, common_key, canonical_key}
use http.Headers.Canonical.{canonical_key_lem}
use http.Headers.Laws.{IsAllowed, IsValid, values_of, add_header-added}

-- Two cookies, of which the map has the first.
abbrev cookies : Header
cookies = (codes "cookie", (1 ∷ []) ∷ []) ∷ []

abbrev two_cookies : Header
two_cookies = (codes "cookie", (1 ∷ []) ∷ (2 ∷ []) ∷ []) ∷ []

second_added : add_header (codes "cookie") (2 ∷ []) cookies ≡ added two_cookies
unfolding add_header valid_header_key valid_bytes append_value starts_pseudo str_eq
second_added = refl

cookies-IsValid : IsValid cookies
unfolding valid_header_key valid_bytes starts_pseudo
cookies-IsValid = ((refl, inl refl), tt)

add_header-added_example :
    IsAllowed (codes "cookie")
    × (header_len two_cookies ≡ header_len cookies + 1)
    × (values_of (codes "via") two_cookies ≡ (
        if str_eq (codes "cookie") (codes "via")
        then values_of (codes "via") cookies ++ ((2 ∷ []) ∷ [])
        else values_of (codes "via") cookies))
add_header-added_example =
    add_header-added (codes "cookie") (2 ∷ []) (codes "via") cookies second_added

-- `Via` is one of the common names, `X-A` is not.
canonical_key_lem_example :
    canonical_key (λ s. s) (codes "X-A")
    ≡ (if valid_header_key (codes "X-A") then codes "X-A" else to_lower (λ s. s) (codes "X-A"))
canonical_key_lem_example = canonical_key_lem (λ s. s) (codes "X-A")

via_lower : canonical_key (λ s. s) (codes "Via") ≡ codes "via"
unfolding canonical_key common_key to_lower is_ascii lower_byte str_eq
via_lower = refl
