-- ===== src/Headers/Keys.antt =====
-- util.go: `CanonicalHTTP2HeaderKey` and the table of common names that it looks keys up in.
use http.Prelude.{ℕ, ◌+◌, Bool, true, ◌&&◌, leb, ltb, if◌then◌else◌}
use http.Prelude.{codes, str_eq, List, [], ◌∷◌, map}
use http.Headers.{valid_header_key}
use Prim.Native.String.{String}

-- `strings.ToLower`, which gives a string with other bytes than ASCII to `unicode`.
unfoldable pub lower_byte : ℕ → ℕ
lower_byte c = if leb 65 c && leb c 90 then c + 32 else c

unfoldable pub is_ascii : List ℕ → Bool
is_ascii [] = true
is_ascii (c ∷ s) = ltb c 128 && is_ascii s

unfoldable pub to_lower : (List ℕ → List ℕ) → List ℕ → List ℕ
unfolding lower_byte is_ascii
to_lower unicode s = if is_ascii s then map lower_byte s else unicode s

-- The names of `init`.
abbrev pub common_names : List String
common_names =
    "Accept" ∷ "Accept-Charset" ∷ "Accept-Encoding" ∷ "Accept-Language" ∷ "Accept-Ranges" ∷ "Age"
    ∷ "Allow" ∷ "ALPN" ∷ "Authentication-Info" ∷ "Authorization" ∷ "Cache-Control" ∷ "Connection"
    ∷ "Content-Disposition" ∷ "Content-Encoding" ∷ "Content-Language" ∷ "Content-Length"
    ∷ "Content-Location" ∷ "Content-Range" ∷ "Content-Type" ∷ "Cookie" ∷ "DASL" ∷ "DAV" ∷ "Date"
    ∷ "Depth" ∷ "Destination" ∷ "ETag" ∷ "Expect" ∷ "Expires" ∷ "Forwarded" ∷ "From" ∷ "Host"
    ∷ "HTTP2-Settings" ∷ "If" ∷ "If-Match" ∷ "If-Modified-Since" ∷ "If-None-Match" ∷ "If-Range"
    ∷ "If-Schedule-Tag-Match" ∷ "If-Unmodified-Since" ∷ "Last-Modified" ∷ "Location" ∷ "Lock-Token"
    ∷ "Max-Forwards" ∷ "MIME-Version" ∷ "Ordering-Type" ∷ "Origin" ∷ "Overwrite" ∷ "Position"
    ∷ "Pragma" ∷ "Prefer" ∷ "Preference-Applied" ∷ "Proxy-Authenticate"
    ∷ "Proxy-Authentication-Info" ∷ "Proxy-Authorization" ∷ "Public-Key-Pins"
    ∷ "Public-Key-Pins-Report-Only" ∷ "Range" ∷ "Referer" ∷ "Retry-After" ∷ "Schedule-Reply"
    ∷ "Schedule-Tag" ∷ "Sec-WebSocket-Accept" ∷ "Sec-WebSocket-Extensions" ∷ "Sec-WebSocket-Key"
    ∷ "Sec-WebSocket-Protocol" ∷ "Sec-WebSocket-Version" ∷ "Server" ∷ "Set-Cookie" ∷ "SLUG"
    ∷ "Strict-Transport-Security" ∷ "TE" ∷ "Timeout" ∷ "Trailer" ∷ "Transfer-Encoding" ∷ "Upgrade"
    ∷ "User-Agent" ∷ "Vary" ∷ "Via" ∷ "WWW-Authenticate" ∷ "Warning"
    ∷ "Access-Control-Allow-Credentials" ∷ "Access-Control-Allow-Headers"
    ∷ "Access-Control-Allow-Methods" ∷ "Access-Control-Allow-Origin" ∷ "Access-Control-Max-Age"
    ∷ "Access-Control-Request-Method" ∷ "Access-Control-Request-Headers" ∷ "Compliance"
    ∷ "Content-Transfer-Encoding" ∷ "Cost" ∷ "EDIINT-Features" ∷ "Message-ID" ∷ "Non-Compliance"
    ∷ "Optional" ∷ "Resolution-Hint" ∷ "Resolver-Location" ∷ "SubOK" ∷ "Subst" ∷ "Title"
    ∷ "UA-Color" ∷ "UA-Media" ∷ "UA-Pixels" ∷ "UA-Resolution" ∷ "UA-Windowpixels" ∷ "Version"
    ∷ "X-Device-Accept" ∷ "X-Device-Accept-Charset" ∷ "X-Device-Accept-Encoding"
    ∷ "X-Device-Accept-Language" ∷ "X-Device-User-Agent" ∷ []

-- `commonHeader[s]`, where the table has the name itself or its lower case.
unfoldable pub common_key : (List ℕ → List ℕ) → List String → List ℕ → List ℕ → List ℕ
unfolding to_lower
common_key unicode [] s otherwise = otherwise
common_key unicode (name ∷ names) s otherwise =
    let lower = to_lower unicode (codes name) in
    let rest = common_key unicode names s otherwise in
    if str_eq s (codes name) then lower else (if str_eq s lower then lower else rest)

unfoldable pub canonical_key : (List ℕ → List ℕ) → List ℕ → List ℕ
unfolding common_key
canonical_key unicode s =
    common_key unicode common_names s (if valid_header_key s then s else to_lower unicode s)
