-- ===== src/Wire/Read/Framing.antt =====
-- read.go: how many bytes of the input each `readFrom` takes.
use http.Prelude.{ℕ, zero, suc, ◌+◌, ◌-◌, ◌*◌, ◌/◌, ◌%◌, ◌≤◌, ◌≡◌, refl, sym, ap, ◌∙◌, false, arith}
use http.Prelude.{
  List, [], ◌∷◌, length, length-drop, take, drop, Option, none, some, ltb, ◌==◌, Bool-cases, inl,
  inr, bit_and,
}
use http.Prelude.Results.{ok, err}
use http.Settings.{Setting, set_value}
use http.Frame.Frames.{
  Frame, priority_frame, rst_stream_frame, settings_frame, ping_frame, go_away_frame,
  window_update_frame,
}
use http.Wire.Bytes.{u16, u32}
use http.Wire.Read.{
  Read, got, failed, fault, ◌>>=◌, Stale, peeked, FrameHead, read_u32, read_byte, read_full,
  read_priority, read_rst_stream, read_settings, read_settings_loop, read_ping, read_go_away,
  read_window_update, read_control, set_or_fail,
}

-- A read of `n` bytes: on success they are gone from the input, and there is no fault.
abbrev pub Takes {ℓ} : {A : Type ℓ} → ℕ → List ℕ → Read (A × List ℕ) → Type 0
Takes n src (got (a, rest)) = rest ≡ drop n src
Takes n src (failed e) = Unit
Takes n src fault = ⊥

drop_nil : (n : ℕ) → drop {A = ℕ} n [] ≡ []
drop_nil zero = refl
drop_nil (suc n) = refl

drop-drop : (m n : ℕ) (src : List ℕ) → drop n (drop m src) ≡ drop (m + n) src
drop-drop zero n src = ap (λ (k : ℕ). drop k src) (omega arith)
drop-drop (suc m) n [] = rw (drop_nil n, drop_nil (suc m + n))
drop-drop (suc m) n (x ∷ xs) =
    let e : suc m + n ≡ suc (m + n) = omega arith in rw e (drop-drop m n xs)

read_u32_enough : (src : List ℕ) → 4 ≤ length src → (v : ℕ) × (read_u32 src ≡ got (v, drop 4 src))
unfolding read_u32
read_u32_enough [] h = absurd (omega arith)
read_u32_enough (a ∷ []) h = absurd (omega arith)
read_u32_enough (a ∷ b ∷ []) h = absurd (omega arith)
read_u32_enough (a ∷ b ∷ c ∷ []) h = absurd (omega arith)
read_u32_enough (a ∷ b ∷ c ∷ d ∷ r) h = (u32 a b c d, refl)

read_byte-rest : (src : List ℕ) → (read_byte src).1 ≡ drop 1 src
unfolding read_byte
read_byte-rest [] = refl
read_byte-rest (b ∷ r) = refl

read_full_enough :
    (n : ℕ) (src : List ℕ) → n ≤ length src → read_full n src ≡ got (take n src, drop n src)
unfolding read_full
read_full_enough n src h = ground arith

rst_stream-Takes :
    (h : FrameHead) (src : List ℕ)
    → h.payload_len ≤ length src
    → Takes h.payload_len src (read_rst_stream h src)
unfolding read_rst_stream
rst_stream-Takes h src fits = elim (Bool-cases (h.stream_id == 0)) [
  | inl z ↦ rw z tt
  | inr z ↦ elim (Bool-cases (h.payload_len == 4)) [
    | inl q ↦
        let four : h.payload_len ≡ 4 = ground arith in
        let (v, e) = read_u32_enough src (omega arith) in
        rw (z, q, e) (ap (λ (k : ℕ). drop k src) (sym four))
    | inr q ↦ rw (z, q) tt
  ]
]

window_update-Takes :
    (h : FrameHead) (src : List ℕ)
    → h.payload_len ≤ length src
    → Takes h.payload_len src (read_window_update h src)
unfolding read_window_update
window_update-Takes h src fits = elim (Bool-cases (h.payload_len == 4)) [
  | inl q ↦
      let four : h.payload_len ≡ 4 = ground arith in
      let (v, e) = read_u32_enough src (omega arith) in
      rw (q, e)
        (elim (Bool-cases (bit_and v 0x7fff_ffff == 0)) [
          | inl z ↦ rw z tt
          | inr z ↦ rw z (ap (λ (k : ℕ). drop k src) (sym four))
        ])
  | inr q ↦ rw q tt
]

priority-Takes :
    (h : FrameHead) (src : List ℕ)
    → h.payload_len ≤ length src
    → Takes h.payload_len src (read_priority h src)
unfolding read_priority
priority-Takes h src fits = elim (Bool-cases (h.stream_id == 0)) [
  | inl z ↦ rw z tt
  | inr z ↦ elim (Bool-cases (h.payload_len == 5)) [
    | inl q ↦
        let five : h.payload_len ≡ 5 = ground arith in
        let (v, e) = read_u32_enough src (omega arith) in
        rw (z, q, e)
          (read_byte-rest (drop 4 src) ∙ drop-drop 4 1 src ∙ ap (λ (k : ℕ). drop k src) (sym five))
    | inr q ↦
        let enough : ltb (length src) h.payload_len ≡ false = ground arith in rw (z, q, enough) tt
  ]
]

ping-Takes :
    (h : FrameHead) (src : List ℕ)
    → h.payload_len ≤ length src
    → Takes h.payload_len src (read_ping h src)
unfolding read_ping
ping-Takes h src fits = elim (Bool-cases (h.stream_id == 0)) [
  | inr z ↦ rw z tt
  | inl z ↦ elim (Bool-cases (h.payload_len == 8)) [
    | inl q ↦
        let eight : h.payload_len ≡ 8 = ground arith in
        rw (z, q, read_full_enough 8 src (omega arith)) (ap (λ (k : ℕ). drop k src) (sym eight))
    | inr q ↦ rw (z, q) tt
  ]
]

go_away-Takes :
    (h : FrameHead) (src : List ℕ)
    → h.payload_len ≤ length src
    → Takes h.payload_len src (read_go_away h src)
unfolding read_go_away
go_away-Takes h src fits = elim (Bool-cases (h.stream_id == 0)) [
  | inr z ↦ rw z tt
  | inl z ↦ elim (Bool-cases (ltb h.payload_len 8)) [
    | inl q ↦ rw (z, q) tt
    | inr q ↦
        let n = h.payload_len in
        let eight : 8 ≤ n = ground arith in
        let (v, e) = read_u32_enough src (omega arith) in
        let (c, f) = read_u32_enough (drop 4 src) (omega (arith, length-drop 4 src)) in
        let last =
          read_full_enough (n - 8) (drop 4 (drop 4 src))
            (omega (arith, length-drop 4 (drop 4 src), length-drop 4 src)) in
        let sum : 8 + (n - 8) ≡ n = omega arith in
        rw (z, q, e, f, last)
          (ap (drop (n - 8)) (drop-drop 4 4 src)
            ∙ drop-drop 8 (n - 8) src
            ∙ ap (λ (k : ℕ). drop k src) sum)
  ]
]

-- The loop takes six bytes for each setting.
settings_loop-Takes :
    (stale : Stale) (n : ℕ) (s : List Setting) (src : List ℕ)
    → 6 * n ≤ length src
    → Takes (6 * n) src (read_settings_loop stale n s src)
unfolding read_settings_loop peeked
settings_loop-Takes stale zero s src h = refl
settings_loop-Takes stale (suc n) s [] h = absurd (omega arith)
settings_loop-Takes stale (suc n) s (a ∷ []) h = absurd (omega arith)
settings_loop-Takes stale (suc n) s (a ∷ b ∷ []) h = absurd (omega arith)
settings_loop-Takes stale (suc n) s (a ∷ b ∷ c ∷ []) h = absurd (omega arith)
settings_loop-Takes stale (suc n) s (a ∷ b ∷ c ∷ d ∷ []) h = absurd (omega arith)
settings_loop-Takes stale (suc n) s (a ∷ b ∷ c ∷ d ∷ e ∷ []) h = absurd (omega arith)
settings_loop-Takes stale (suc n) s (a ∷ b ∷ c ∷ d ∷ e ∷ f ∷ r) h =
    let six : 6 * suc n ≡ suc (suc (suc (suc (suc (suc (6 * n)))))) = omega arith in
    rw six
      (elim (set_value (u16 a b) (u32 c d e f) s)
        as (λ v.
          Takes (suc (suc (suc (suc (suc (suc (6 * n))))))) (a ∷ b ∷ c ∷ d ∷ e ∷ f ∷ r)
            (set_or_fail (u16 a b) v >>= λ s'. read_settings_loop stale n s' r)) [
              | err x ↦ tt
              | ok s' ↦ settings_loop-Takes stale n s' r (omega arith)
            ])

map-Takes {ℓ κ} :
    {A : Type ℓ} {B : Type κ} (f : A → B) (n : ℕ) (src : List ℕ) (m : Read (A × List ℕ))
    → Takes n src m
    → Takes n src (m >>= λ r. got (f r.0, r.1))
map-Takes f n src (got (a, rest)) h = h
map-Takes f n src (failed e) h = tt
map-Takes f n src fault h = h

settings-Takes :
    (stale : Stale) (h : FrameHead) (src : List ℕ)
    → h.payload_len ≤ length src
    → Takes h.payload_len src (read_settings stale h src)
unfolding read_settings
settings-Takes stale h src fits = elim (Bool-cases (h.stream_id == 0)) [
  | inr z ↦ rw z tt
  | inl z ↦ elim (Bool-cases (bit_and h.flags 1 == 1)) [
    | inl a ↦ elim (Bool-cases (ltb 0 h.payload_len)) [
      | inl q ↦ rw (z, a, q) tt
      | inr q ↦
          let empty : h.payload_len ≡ 0 = ground arith in
          rw (z, a, q) (ap (λ (k : ℕ). drop k src) (sym empty))
    ]
    | inr a ↦ elim (Bool-cases (h.payload_len % 6 == 0)) [
      | inr q ↦ rw (z, a, q) tt
      | inl q ↦
          let n = h.payload_len / 6 in
          let six : 6 * n ≡ h.payload_len = ground arith in
          let whole = settings_loop-Takes stale n [] src (omega arith) in
          rw (z, a, q)
            (map-Takes (λ (s : List Setting). record { ack = false; settings = s }) h.payload_len
              src (read_settings_loop stale n [] src) (rw six at whole))
    ]
  ]
]

-- The result of a control frame's `readFrom`, where there is one.
abbrev pub TakesAll : ℕ → List ℕ → Option (Read (Frame × List ℕ)) → Type 0
TakesAll n src none = Unit
TakesAll n src (some m) = Takes n src m

-- When the whole payload that the frame header announces is in the input, reading a PRIORITY,
-- RST_STREAM, SETTINGS, PING, GOAWAY or WINDOW_UPDATE frame never indexes past the bytes it has,
-- and where it succeeds the input that is left starts right after the payload.
pub read_control-Takes :
    (stale : Stale) (h : FrameHead) (src : List ℕ)
    → h.payload_len ≤ length src
    → TakesAll h.payload_len src (read_control stale h src)
unfolding read_control
read_control-Takes stale h src fits = elim (Bool-cases (h.frame_type == 2)) [
  | inl e ↦
      rw e (
        map-Takes priority_frame h.payload_len src (read_priority h src)
          (priority-Takes h src fits))
  | inr e2 ↦ elim (Bool-cases (h.frame_type == 3)) [
    | inl e ↦
        rw (e2, e)
          (map-Takes rst_stream_frame h.payload_len src (read_rst_stream h src)
            (rst_stream-Takes h src fits))
    | inr e3 ↦ elim (Bool-cases (h.frame_type == 4)) [
      | inl e ↦
          rw (e2, e3, e)
            (map-Takes settings_frame h.payload_len src (read_settings stale h src)
              (settings-Takes stale h src fits))
      | inr e4 ↦ elim (Bool-cases (h.frame_type == 6)) [
        | inl e ↦
            rw (e2, e3, e4, e)
              (map-Takes ping_frame h.payload_len src (read_ping h src) (ping-Takes h src fits))
        | inr e6 ↦ elim (Bool-cases (h.frame_type == 7)) [
          | inl e ↦
              rw (e2, e3, e4, e6, e)
                (map-Takes go_away_frame h.payload_len src (read_go_away h src)
                  (go_away-Takes h src fits))
          | inr e7 ↦ elim (Bool-cases (h.frame_type == 8)) [
            | inl e ↦
                rw (e2, e3, e4, e6, e7, e)
                  (map-Takes window_update_frame h.payload_len src (read_window_update h src)
                    (window_update-Takes h src fits))
            | inr e8 ↦ rw (e2, e3, e4, e6, e7, e8) tt
          ]
        ]
      ]
    ]
  ]
]
