-- ===== src/Hpack/Static.antt =====
-- hpack/table.go: header fields, their size, the static table and the comparison of strings.
-- A Go string is the list of its bytes.
use http.Prelude.{ℕ, ◌+◌, ◌%◌, ◌^◌, Bool, false, List, [], ◌∷◌, length, ◌==◌}
use http.Prelude.{bit_or, bit_xor, if◌then◌else◌, codes}

pub record HeaderField : Type 0 where
  pub name : List ℕ
  pub value : List ℕ

abbrev pub header_entry_overhead : ℕ
header_entry_overhead = 32

-- The conversion to uint32 wraps.
unfoldable pub header_field_size : List ℕ → List ℕ → ℕ
header_field_size name value = (length name + length value + header_entry_overhead) % 2 ^ 32

-- The loop of `strcmp`: `c` collects the bits in which the two strings differ.
unfoldable pub strcmp_loop : ℕ → List ℕ → List ℕ → ℕ
strcmp_loop c [] b = c
strcmp_loop c (x ∷ a) [] = c
strcmp_loop c (x ∷ a) (y ∷ b) = strcmp_loop (bit_or c (bit_xor x y)) a b

unfoldable pub strcmp : List ℕ → List ℕ → Bool
unfolding strcmp_loop
strcmp a b = if length a == length b then strcmp_loop 0 a b == 0 else false

abbrev pub field : List ℕ → List ℕ → HeaderField
field n v = record { name = n; value = v }

-- `staticTable`; `staticTable[i-1]` is the entry of index `i`.
unfoldable pub static_table : List HeaderField
static_table =
    field (codes ":authority") (codes "")
    ∷ field (codes ":method") (codes "GET")
    ∷ field (codes ":method") (codes "POST")
    ∷ field (codes ":path") (codes "/")
    ∷ field (codes ":path") (codes "/index.html")
    ∷ field (codes ":scheme") (codes "http")
    ∷ field (codes ":scheme") (codes "https")
    ∷ field (codes ":status") (codes "200")
    ∷ field (codes ":status") (codes "204")
    ∷ field (codes ":status") (codes "206")
    ∷ field (codes ":status") (codes "304")
    ∷ field (codes ":status") (codes "400")
    ∷ field (codes ":status") (codes "404")
    ∷ field (codes ":status") (codes "500")
    ∷ field (codes "accept-charset") (codes "")
    ∷ field (codes "accept-encoding") (codes "gzip, deflate")
    ∷ field (codes "accept-language") (codes "")
    ∷ field (codes "accept-ranges") (codes "")
    ∷ field (codes "accept") (codes "")
    ∷ field (codes "access-control-allow-origin") (codes "")
    ∷ field (codes "age") (codes "")
    ∷ field (codes "allow") (codes "")
    ∷ field (codes "authorization") (codes "")
    ∷ field (codes "cache-control") (codes "")
    ∷ field (codes "content-disposition") (codes "")
    ∷ field (codes "content-encoding") (codes "")
    ∷ field (codes "content-language") (codes "")
    ∷ field (codes "content-length") (codes "")
    ∷ field (codes "content-location") (codes "")
    ∷ field (codes "content-range") (codes "")
    ∷ field (codes "content-type") (codes "")
    ∷ field (codes "cookie") (codes "")
    ∷ field (codes "date") (codes "")
    ∷ field (codes "etag") (codes "")
    ∷ field (codes "expect") (codes "")
    ∷ field (codes "expires") (codes "")
    ∷ field (codes "from") (codes "")
    ∷ field (codes "host") (codes "")
    ∷ field (codes "if-match") (codes "")
    ∷ field (codes "if-modified-since") (codes "")
    ∷ field (codes "if-none-match") (codes "")
    ∷ field (codes "if-range") (codes "")
    ∷ field (codes "if-unmodified-since") (codes "")
    ∷ field (codes "last-modified") (codes "")
    ∷ field (codes "link") (codes "")
    ∷ field (codes "location") (codes "")
    ∷ field (codes "max-forwards") (codes "")
    ∷ field (codes "proxy-authenticate") (codes "")
    ∷ field (codes "proxy-authorization") (codes "")
    ∷ field (codes "range") (codes "")
    ∷ field (codes "referer") (codes "")
    ∷ field (codes "refresh") (codes "")
    ∷ field (codes "retry-after") (codes "")
    ∷ field (codes "server") (codes "")
    ∷ field (codes "set-cookie") (codes "")
    ∷ field (codes "strict-transport-security") (codes "")
    ∷ field (codes "transfer-encoding") (codes "")
    ∷ field (codes "user-agent") (codes "")
    ∷ field (codes "vary") (codes "")
    ∷ field (codes "via") (codes "")
    ∷ field (codes "www-authenticate") (codes "")
    ∷ []

-- The loop of `init` runs from the last index down to 1, so the smallest index of a name stays.
unfoldable pub put_names : ℕ → List HeaderField → List (List ℕ × ℕ)
put_names i [] = []
put_names i (x ∷ xs) = (x.name, i) ∷ put_names (i + 1) xs
