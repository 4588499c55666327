-- ===== src/Wire/Block/Loop.antt =====
-- write.go: the loop over the keys of a header map, which encodes the fields and cuts the block.
use http.Prelude.{ℕ, ◌+◌, ◌-◌, ◌%◌, ◌^◌, ◌≤◌, ◌<◌, ◌≡◌, refl, ap, sym, ◌∙◌, arith, All, true, false}
use http.Prelude.{◌&&◌, ltb, ◌==◌, Bool-cases, inl, inr}
use http.Prelude.{List, [], ◌∷◌, ◌++◌, length, length-append, none, some}
use http.Frame.Frames.{Header}
use http.Headers.Keys.{canonical_key}
use http.Hpack.Encoder.{Encoder}
use http.Hpack.Sync.Blocks.{Encodes}
use http.Wire.Write.Control.{IsHealthy}
use http.Wire.Block.{Lead, BlockState, Sent, ◌>>=◌, send_loop, flush, keys_loop}
use http.Wire.Block.Frames.{Frames, Frames-at, HasRoom, sent_to, sent_to-IsHealthy, sent_to_twice}
use http.Wire.Block.Drain.{drained, due, send_loop-Drains, send_loop-Closes}
use http.Wire.Block.Keys.{
  regular_fields, regular_len, MaySend, encoded, values_loop-Encoded, no_fields, keys_loop_idle,
  keys_loop_next,
}
use mathlib.Core.List.{append_assoc, append-nil}

-- The state when the whole block was sent.
abbrev pub all_sent : BlockState → Encoder → List ℕ → ℕ → BlockState
all_sent s enc bytes written = record s {
  writer = sent_to s.writer bytes;
  encoder = enc;
  buf = [];
  written = written;
  remaining = 0;
  first_sent = true;
}

abbrev pub SendsAll : Lead → BlockState → Encoder → List ℕ → Sent → Type 0
SendsAll k s enc block r =
    (bytes : List ℕ) × (written : ℕ) × (r ≡ some (all_sent s enc bytes written, none))
    × Frames k s.writer.max_frame_size s.first_sent (s.buf ++ block) bytes

flush_waits :
    (k : Lead) (s : BlockState)
    → (ltb 0 s.remaining && ltb (length s.buf % 2 ^ 32) s.writer.max_frame_size) ≡ true
    → flush k s ≡ some (s, none)
unfolding flush
flush_waits k s e = rw e refl

flush_sends :
    (k : Lead) (s : BlockState)
    → (ltb 0 s.remaining && ltb (length s.buf % 2 ^ 32) s.writer.max_frame_size) ≡ false
    → flush k s ≡ send_loop (length s.buf + 2) k s
unfolding flush
flush_sends k s e = rw e refl

due_lem : (s : BlockState) → due s < length s.buf + 2
due_lem s = ground arith

-- What a key's values leave in the buffer, and the loop over the other keys.
module _ (unicode : List ℕ → List ℕ) (k : Lead) (h : Header) (may : All MaySend h) where
  -- The last key: all that is left is sent.
  last-SendsAll :
      (s : BlockState) (enc' : Encoder) (rest : List ℕ)
      → HasRoom k s.writer.max_frame_size
      → IsHealthy s.writer
      → length s.buf < 2 ^ 32
      → (s.remaining == 0) ≡ true
      → regular_len h ≡ 0
      → Encodes s.encoder (regular_fields unicode h) enc' rest
      → SendsAll k s enc' rest (flush k s >>= keys_loop unicode k 0 h)
  last-SendsAll s enc' rest fits healthy short none_left e codes =
      let (bytes, run, frames) =
        send_loop-Closes (length s.buf + 2) k s fits healthy short none_left (due_lem s) in
      let (same, empty) = rw (no_fields unicode h may e) at codes in
      let zero_left : s.remaining ≡ 0 = ground arith in
      (
        bytes,
        s.written,
        ap (λ r. r >>= keys_loop unicode k 0 h) (flush_sends k s (ground arith) ∙ run)
            ∙ keys_loop_idle unicode k h (drained s bytes []) may e
            ∙ ap (λ (n : ℕ). some (record (drained s bytes []) { remaining = n }, none)) zero_left
            ∙ ap (λ c. some (all_sent s c bytes s.written, none)) same,
        Frames-at (sym (append-nil s.buf) ∙ ap (◌++◌ s.buf) (sym empty)) frames,
      )

  -- Another key follows.
  more-SendsAll :
      (s : BlockState) (enc' : Encoder) (rest : List ℕ)
      → HasRoom k s.writer.max_frame_size
      → IsHealthy s.writer
      → length (s.buf ++ rest) < 2 ^ 32
      → (s.remaining == 0) ≡ false
      → ((t : BlockState)
          → t.writer.max_frame_size ≡ s.writer.max_frame_size
          → IsHealthy t.writer
          → t.encoder ≡ s.encoder
          → t.remaining ≡ s.remaining
          → length t.buf ≤ length s.buf
          → SendsAll k t enc' rest (keys_loop unicode k 0 h t))
      → SendsAll k s enc' rest (flush k s >>= keys_loop unicode k 0 h)
  more-SendsAll s enc' rest fits healthy short more next =
      let short' : length s.buf < 2 ^ 32 = omega (arith, length-append s.buf rest, short) in
      elim (Bool-cases (ltb 0 s.remaining && ltb (length s.buf % 2 ^ 32) s.writer.max_frame_size)) [
        | inl waits ↦
            let (bytes, written, run, frames) = next s refl healthy refl refl (omega arith) in
            (
              bytes,
              written,
              ap (λ r. r >>= keys_loop unicode k 0 h) (flush_waits k s waits) ∙ run,
              frames,
            )
        | inr now ↦
            let (bytes, left, run, le, join) =
              send_loop-Drains (length s.buf + 2) k s fits healthy short' more (due_lem s) in
            let (bytes', written, run', frames) =
              next (drained s bytes left) refl (sent_to-IsHealthy s.writer bytes healthy) refl refl
                le in
            (
              bytes ++ bytes',
              written,
              ap (λ r. r >>= keys_loop unicode k 0 h) (flush_sends k s now ∙ run)
                  ∙ run'
                  ∙ ap (λ w. some (record (all_sent s enc' [] written) { writer = w }, none))
                      (sent_to_twice s.writer bytes bytes'),
              join rest bytes' frames,
            )
      ]

-- A part of the block that was put into the buffer first.
pub encoded-SendsAll :
    (k : Lead) (s : BlockState) (enc1 enc' : Encoder) (code rest block : List ℕ) (written n : ℕ)
    (r r' : Sent)
    → r' ≡ r
    → block ≡ code ++ rest
    → SendsAll k (encoded s enc1 code written n) enc' rest r
    → SendsAll k s enc' block r'
encoded-SendsAll k s enc1 enc' code rest block written n r r' same parts
      (bytes, written', run, frames) =
    (
      bytes,
      written',
      same ∙ run,
      Frames-at (append_assoc s.buf code rest ∙ ap (◌++◌ s.buf) (sym parts)) frames,
    )

pub keys_loop-SendsAll :
    (unicode : List ℕ → List ℕ) (k : Lead) (h : Header) (s : BlockState) (enc' : Encoder)
    (block : List ℕ)
    → All MaySend h
    → HasRoom k s.writer.max_frame_size
    → IsHealthy s.writer
    → s.remaining ≡ regular_len h
    → 0 < regular_len h
    → Encodes s.encoder (regular_fields unicode h) enc' block
    → length (s.buf ++ block) < 2 ^ 32
    → SendsAll k s enc' block (keys_loop unicode k 0 h s)
unfolding keys_loop
keys_loop-SendsAll unicode k [] s enc' block may fits healthy count some_left codes short =
    absurd (omega arith)
keys_loop-SendsAll unicode k ((key, values) ∷ h) s enc' block (inl pseudo, may) fits healthy count
      some_left codes short =
    rw pseudo (
      keys_loop-SendsAll unicode k h s enc' block may fits healthy (ground (arith, count))
        (ground (arith, some_left)) (rw pseudo at codes) short)
keys_loop-SendsAll unicode k ((key, values) ∷ h) s enc' block
      (inr (regular, named, some_value), may) fits healthy count some_left codes short =
    let (enc1, code, rest, written, run, parts, later) =
      values_loop-Encoded (canonical_key unicode key) values (regular_fields unicode h) s enc' block
        (rw regular at codes) in
    let s1 = encoded s enc1 code written (s.remaining - length values) in
    let left : s.remaining - length values ≡ regular_len h = ground (arith, count) in
    let short1 : length ((s.buf ++ code) ++ rest) < 2 ^ 32 = omega (
      arith,
      ap (λ (b : List ℕ). length b) (append_assoc s.buf code rest ∙ ap (◌++◌ s.buf) (sym parts)),
      short,
    ) in
    let start =
      keys_loop_next unicode k key values h s regular named
      ∙ ap (λ r. r >>= flush k >>= keys_loop unicode k 0 h) run in
    encoded-SendsAll k s enc1 enc' code rest block written (s.remaining - length values)
      (flush k s1 >>= keys_loop unicode k 0 h) (keys_loop unicode k 0 ((key, values) ∷ h) s) start
      parts
      (elim (Bool-cases (s1.remaining == 0)) [
        | inl none_left ↦
            last-SendsAll unicode k h may s1 enc' rest fits healthy
              (omega (arith, length-append (s.buf ++ code) rest, short1)) none_left
              (ground (arith, left)) later
        | inr more ↦
            more-SendsAll unicode k h may s1 enc' rest fits healthy short1 more
              (λ t limit healthy' enc same le.
                keys_loop-SendsAll unicode k h t enc' rest may (rw limit fits) healthy'
                  (same ∙ left) (ground (arith, left)) (rw enc later)
                  (omega (
                    arith,
                    length-append t.buf rest,
                    length-append (s.buf ++ code) rest,
                    le,
                    short1,
                  )))
      ])
