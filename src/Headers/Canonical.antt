-- ===== src/Headers/Canonical.antt =====
-- util.go: what `CanonicalHTTP2HeaderKey` comes to.
use http.Prelude.{ℕ, ◌≡◌, refl, Bool, true, ◌&&◌, not, if◌then◌else◌}
use http.Prelude.{codes, str_eq, str_eq_iff, List, [], ◌∷◌, map, arith}
use http.Headers.{valid_header_key, valid_bytes}
use http.Headers.Keys.{lower_byte, is_ascii, to_lower, common_names, common_key, canonical_key}
use Prim.Native.String.{String}

-- A name with an upper case letter, whose lower case is a valid key.
is_fine : List ℕ → Bool
is_fine s = is_ascii s && (not (valid_header_key s) && valid_header_key (map lower_byte s))

all_fine : List String → Bool
all_fine [] = true
all_fine (name ∷ names) = is_fine (codes name) && all_fine names

names_fine : all_fine common_names ≡ true
unfolding all_fine is_fine is_ascii lower_byte valid_header_key valid_bytes
names_fine = refl

-- The key without the table.
abbrev pub plain_key : (List ℕ → List ℕ) → List ℕ → List ℕ
plain_key unicode s = if valid_header_key s then s else to_lower unicode s

fine_key :
    (unicode : List ℕ → List ℕ) (name s rest : List ℕ)
    → is_fine name ≡ true
    → rest ≡ plain_key unicode s
    → (if str_eq s name
        then to_lower unicode name
        else (if str_eq s (to_lower unicode name) then to_lower unicode name else rest))
      ≡ plain_key unicode s
unfolding is_fine to_lower
fine_key unicode name s rest fine same =
    ground (arith, str_eq_iff s name, str_eq_iff s (map lower_byte name))

common_key_lem :
    (unicode : List ℕ → List ℕ) (names : List String) (s : List ℕ)
    → all_fine names ≡ true
    → common_key unicode names s (plain_key unicode s) ≡ plain_key unicode s
unfolding all_fine common_key
common_key_lem unicode [] s fine = refl
common_key_lem unicode (name ∷ names) s fine =
    fine_key unicode (codes name) s (common_key unicode names s (plain_key unicode s))
      (ground arith) (common_key_lem unicode names s (ground arith))

-- The table of common names changes nothing: `CanonicalHTTP2HeaderKey` gives a valid key as it is,
-- and any other in lower case, whatever `strings.ToLower` does with names beyond ASCII.
pub canonical_key_lem :
    (unicode : List ℕ → List ℕ) (s : List ℕ)
    → canonical_key unicode s ≡ (if valid_header_key s then s else to_lower unicode s)
unfolding canonical_key
canonical_key_lem unicode s = common_key_lem unicode common_names s names_fine
