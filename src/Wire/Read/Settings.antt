-- ===== src/Wire/Read/Settings.antt =====
-- read.go and write.go: SETTINGS frames.
use http.Prelude.{
  ℕ, suc, ◌*◌, ◌/◌, ◌%◌, ◌^◌, ◌<◌, ◌≡◌, refl, sym, ◌∙◌, ◌≢◌, Bool, true, false, arith,
}
use http.Prelude.{List, [], ◌∷◌, ◌++◌, length, All, ◌==◌}
use http.Settings.{Setting, put}
use http.Settings.Laws.{InRange, Fresh, Distinct, IsValid}
use http.Frame.Types.{has, flag_ack}
use http.Frame.Frames.{SettingsFrame}
use http.Wire.Bytes.{put_u16, put_u32, u32_bytes, u16_bytes}
use http.Wire.Write.{FrameWriter, frame_header, write_settings, put_settings}
use http.Wire.Write.Control.{IsHealthy, sends, finish-write}
use http.Wire.Read.{got, Stale, peeked, read_settings, read_settings_loop}
use http.Wire.Read.RoundTrip.{read_as, read_head-frame_header}
use mathlib.Core.List.{append_assoc, append-nil}

-- The fields have 16 and 32 bits.
abbrev Fits : Setting → Type 0
Fits x = (x.id < 2 ^ 16) × (x.value < 2 ^ 32)

put-append :
    (acc : List Setting) (x : Setting) → Fresh x.id acc → put x.id x.value acc ≡ acc ++ (x ∷ [])
unfolding put
put-append [] x h = refl
put-append (y ∷ ys) x h = ground (arith, put-append ys x h.1)

Fresh-append :
    (id : ℕ) (acc : List Setting) (x : Setting)
    → Fresh id acc
    → x.id ≢ id
    → Fresh id (acc ++ (x ∷ []))
Fresh-append id [] x h ne = (ne, tt)
Fresh-append id (y ∷ ys) x h ne = (h.0, Fresh-append id ys x h.1 ne)

-- No identifier of the second list is in the first.
abbrev Apart : List Setting → List Setting → Type 0
Apart acc xs = All (λ x. Fresh x.id acc) xs

Apart-append :
    (acc : List Setting) (x : Setting) (xs : List Setting)
    → Apart acc xs
    → Fresh x.id xs
    → Apart (acc ++ (x ∷ [])) xs
Apart-append acc x [] a f = tt
Apart-append acc x (y ∷ ys) a f =
    (Fresh-append y.id acc x a.0 (λ e. f.0 (sym e)), Apart-append acc x ys a.1 f.1)

Apart-nil : (xs : List Setting) → Apart [] xs
Apart-nil [] = tt
Apart-nil (x ∷ xs) = (tt, Apart-nil xs)

step :
    (stale : Stale) (n : ℕ) (acc : List Setting) (x : Setting) (rest : List ℕ)
    → Fits x
    → InRange x
    → Fresh x.id acc
    → read_settings_loop stale (suc n) acc (put_u16 x.id ++ (put_u32 x.value ++ rest))
      ≡ read_settings_loop stale n (acc ++ (x ∷ [])) rest
unfolding read_settings_loop peeked
step stale n acc x rest (hi, hv) r f =
    rw (u16_bytes x.id hi, u32_bytes x.value hv, r, put-append acc x f)

loop-put_settings :
    (stale : Stale) (xs acc : List Setting) (rest : List ℕ)
    → All Fits xs
    → All InRange xs
    → Distinct xs
    → Apart acc xs
    → read_settings_loop stale (length xs) acc (put_settings xs ++ rest) ≡ got (acc ++ xs, rest)
unfolding put_settings
loop-put_settings stale [] acc rest fits r d a = rw append-nil (unfold read_settings_loop in refl)
loop-put_settings stale (x ∷ xs) acc rest fits r d a =
    step stale (length xs) acc x (put_settings xs ++ rest) fits.0 r.0 a.0
    ∙ loop-put_settings stale xs (acc ++ (x ∷ [])) rest fits.1 r.1 d.1
        (Apart-append acc x xs a.1 d.0)
    ∙ rw (append_assoc acc (x ∷ []) xs) refl

-- An acknowledgement is sent whole, and is read back.
ack_back :
    (stale : Stale) (w : FrameWriter) (rest : List ℕ)
    → IsHealthy w
    → let f : SettingsFrame = record { ack = true; settings = [] } in
      (sent : List ℕ) × (write_settings f w ≡ sends sent w)
      × (read_as (read_settings stale) (sent ++ rest) ≡ got (f, rest))
unfolding write_settings read_settings has
ack_back stale w rest h =
    let sent = frame_header 0 4 flag_ack 0 in
    let parsed =
      read_head-frame_header 0 4 flag_ack 0 rest (omega arith) (omega arith) (omega arith)
        (omega arith) in
    (sent, finish-write sent w h, rw parsed refl)

list_back :
    (stale : Stale) (xs : List Setting) (w : FrameWriter) (rest : List ℕ)
    → IsHealthy w
    → IsValid xs
    → All Fits xs
    → 6 * length xs < 2 ^ 24
    → let f : SettingsFrame = record { ack = false; settings = xs } in
      (sent : List ℕ) × (write_settings f w ≡ sends sent w)
      × (read_as (read_settings stale) (sent ++ rest) ≡ got (f, rest))
unfolding write_settings read_settings has
list_back stale xs w rest h v fits small =
    let n = 6 * length xs % 2 ^ 32 in
    let sent = frame_header n 4 0 0 ++ put_settings xs in
    let parsed =
      read_head-frame_header n 4 0 0 (put_settings xs ++ rest) (omega arith) (omega arith)
        (omega arith) (omega arith) in
    let count : n / 6 ≡ length xs = omega arith in
    let whole : (n % 6 == 0) ≡ true = ground arith in
    let read = loop-put_settings stale xs [] rest fits v.0 v.1 (Apart-nil xs) in
    (sent, finish-write sent w h, rw parsed (rw (whole, count, read) refl))

-- On a writer that takes every byte, a SETTINGS frame is sent whole and read back from what was
-- sent, whatever follows it, when its settings are in range, of distinct identifiers, of fields
-- that fit 16 and 32 bits, short enough for a 24-bit length, and none of them where it is an
-- acknowledgement.
pub read_settings-write :
    (stale : Stale) (f : SettingsFrame) (w : FrameWriter) (rest : List ℕ)
    → IsHealthy w
    → (f.ack ≡ true → f.settings ≡ [])
    → IsValid f.settings
    → All Fits f.settings
    → 6 * length f.settings < 2 ^ 24
    → (sent : List ℕ) × (write_settings f w ≡ sends sent w)
      × (read_as (read_settings stale) (sent ++ rest) ≡ got (f, rest))
read_settings-write stale f w rest h e v fits small = go f.ack f.settings e v fits small
  where
    go :
        (ack : Bool) (xs : List Setting)
        → (ack ≡ true → xs ≡ [])
        → IsValid xs
        → All Fits xs
        → 6 * length xs < 2 ^ 24
        → let f : SettingsFrame = record { ack = ack; settings = xs } in
          (sent : List ℕ) × (write_settings f w ≡ sends sent w)
          × (read_as (read_settings stale) (sent ++ rest) ≡ got (f, rest))
    go true xs e v fits small = rw (e refl) (ack_back stale w rest h)
    go false xs e v fits small = list_back stale xs w rest h v fits small
