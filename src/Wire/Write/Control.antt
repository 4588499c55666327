-- ===== src/Wire/Write/Control.antt =====
-- write.go: what a writer that does not fail has sent, and what the checks of the identifiers mean.
use http.Prelude.{ℕ, ◌+◌, ◌^◌, ◌<◌, ◌≡◌, ap, ◌∙◌, ◌≢◌, true, false, arith}
use http.Prelude.{List, ◌++◌, none, bit_and}
use http.Prelude.Bits.{bit_and_bit, bit_and_ones, bit_or_fields_swap}
use http.Frame.Frames.{Priority}
use http.Wire.Write.{FrameWriter, Written, write, finish, valid_stream_id, dependency_bits}
use mathlib.Core.List.{append_assoc}

-- The `io.Writer` takes every byte, and has taken all so far.
pub record IsHealthy (w : FrameWriter) : Type 0 where
  pub unlimited : w.accepts ≡ none
  pub no_error : w.err ≡ none

pub write-IsHealthy :
    (src : List ℕ) (w : FrameWriter) → IsHealthy w → write src w ≡ record w { out = w.out ++ src }
unfolding write
write-IsHealthy src w h = ground arith

-- The writer after the bytes `sent`.
abbrev pub sends : List ℕ → FrameWriter → Written
sends sent w = (record w { out = w.out ++ sent }, none)

pub valid_stream_id_bounds :
    (id : ℕ) → valid_stream_id id ≡ true → id < 2 ^ 32 → (0 < id) × (id < 2 ^ 31)
unfolding valid_stream_id
valid_stream_id_bounds id h b = ground (arith, bit_and_bit 31 id)

-- Reading the four bytes of a priority gives the dependency and the exclusive bit back.
pub dependency_bits_lem :
    (p : Priority)
    → p.stream_dependency < 2 ^ 31
    → (dependency_bits p < 2 ^ 32)
      × (bit_and (dependency_bits p) 0x7fff_ffff ≡ p.stream_dependency)
      × (p.exclusive ≡ true → dependency_bits p ≢ p.stream_dependency)
      × (p.exclusive ≡ false → dependency_bits p ≡ p.stream_dependency)
unfolding dependency_bits
dependency_bits_lem p h =
    let d = p.stream_dependency in
    (
      ground (arith, bit_or_fields_swap 31 1 d h),
      ground (arith, bit_or_fields_swap 31 1 d h, bit_and_ones 31 d, bit_and_ones 31 (2 ^ 31 + d)),
      λ e. ground (arith, bit_or_fields_swap 31 1 d h),
      λ e. ground arith,
    )

pub finish-write :
    (src : List ℕ) (w : FrameWriter) → IsHealthy w → finish (write src w) ≡ sends src w
finish-write src w h =
    rw (write-IsHealthy src w h) (ap (λ e. (record w { out = w.out ++ src }, e)) h.no_error)

-- Two writes send the two parts one after the other.
pub finish-write_both :
    (a b : List ℕ) (w : FrameWriter) → IsHealthy w → finish (write b (write a w)) ≡ sends (a ++ b) w
finish-write_both a b w h =
    let w' : FrameWriter = record w { out = w.out ++ a } in
    rw (write-IsHealthy a w h) (
      finish-write b w' (record { unlimited = h.unlimited; no_error = h.no_error })
      ∙ ap (λ (o : List ℕ). (record w { out = o }, none)) (append_assoc w.out a b))
