-- ===== src/Wire/Fragments/Order.antt =====
-- read.go: the order of frames that `ReadFrame` accepts while a header block is open.
use http.Prelude.{ℕ, ◌≡◌, ap, sym, ◌∙◌, arith, inl, inr, Bool-cases}
use mathlib.Core.Path.{subst}
use http.Prelude.{zero, suc, ◌+◌, ◌<◌, length, drop, ◌∷◌}
use http.Prelude.{List, [], Option, none}
use http.Frame.Frames.{Frame}
use http.Wire.Read.{got, discard, FrameHead, read_head}
use http.Wire.Fragments.{FrameReader, is_pending, read_body, read_again, read_frame}
use http.Wire.Fragments.Open.{
  open_block, Follows, left_open, bind_got, discard_got, none_pending, read_body-Follows,
}

-- The frames with these headers are read from the input one after the other.
pub data Reads : FrameReader → List ℕ → List FrameHead → FrameReader → List ℕ → Type 0 where
  done : (r : FrameReader) (src : List ℕ) → Reads r src [] r src
  next :
      (r r1 r2 : FrameReader) (src behind later rest : List ℕ) (head : FrameHead)
      (heads : List FrameHead) (f : Frame)
      → read_head src ≡ got (head, behind)
      → read_body r head behind ≡ got (f, r1, later)
      → Reads r1 later heads r2 rest
      → Reads r src (head ∷ heads) r2 rest

-- Each frame follows what the one before it left open, and nothing is open behind the last one.
abbrev pub InOrder : Option ℕ → List FrameHead → Type 0
InOrder o [] = o ≡ none
InOrder o (head ∷ heads) = Follows o head × InOrder (left_open head) heads

read_again-InOrder :
    (rounds : ℕ) (r r' : FrameReader) (src rest : List ℕ) (f : Frame)
    → read_again rounds r src ≡ got (f, r', rest)
    → (heads : List FrameHead) × Reads r src heads r' rest
      × InOrder (open_block r.pending) heads
      × (0 < length heads)
unfolding read_again
read_again-InOrder zero r r' src rest f e = absurd (cc)
read_again-InOrder (suc rounds) r r' src rest f e =
    let (x, head_read, e1) = bind_got (read_head src) _ (f, r', rest) e in
    let (y, body_read, e2) = bind_got (read_body r x.0 x.1) _ (f, r', rest) e1 in
    let (follows, left) = read_body-Follows r x.0 x.1 y body_read in
    elim (Bool-cases (is_pending y.1.pending)) [
      | inl more ↦
          let (heads, reads, order, some_head) =
            read_again-InOrder rounds y.1 r' y.2 rest f (rw more at e2) in
          (
            x.0 ∷ heads,
            next r y.1 r' src x.1 y.2 rest x.0 heads y.0 head_read body_read reads,
            (follows, subst (λ o. InOrder o heads) left order),
            omega arith,
          )
      | inr last ↦ (
        x.0 ∷ [],
        next r r' r' src x.1 rest rest x.0 [] f head_read (body_read ∙ rw last at e2)
            (done r' rest),
        (follows, sym left ∙ ap open_block (none_pending y.1.pending last)),
        omega arith,
      )
    ]

-- When `ReadFrame` returns a frame, it has read one or more frames from the input, one after the
-- other, in the order that a header block allows: a CONTINUATION frame only where the frame before
-- it, or the reader at the start, left a block open, and only of the stream of that block, where
-- nothing else is accepted. A HEADERS, PUSH_PROMISE or CONTINUATION frame leaves a block open
-- exactly when it has no END_HEADERS, and behind the last one none is open.
pub read_frame-InOrder :
    (r r' : FrameReader) (src rest : List ℕ) (f : Frame)
    → read_frame r src ≡ got (f, r', rest)
    → (heads : List FrameHead) × Reads
        (record r { last_payload = 0 })
        (drop r.last_payload src)
        heads
        r'
        rest
      × InOrder (open_block r.pending) heads
      × (0 < length heads)
unfolding read_frame
read_frame-InOrder r r' src rest f e =
    let r0 : FrameReader = record r { last_payload = 0 } in
    let (later, dropped, e1) =
      bind_got (discard r.last_payload src) (read_again (length src + 1) r0) (f, r', rest) e in
    let same : later ≡ drop r.last_payload src = discard_got r.last_payload src later dropped in
    read_again-InOrder (length src + 1) r0 r' (drop r.last_payload src) rest f
      (ap (read_again (length src + 1) r0) (sym same) ∙ e1)
