-- ===== src/Wire/Fragments/Open.antt =====
-- read.go: which block is open behind a frame, by its header, and which frames may follow.
use http.Prelude.{
  ℕ, ◌≡◌, refl, ap, sym, ◌∙◌, arith, inl, inr, Bool, true, false, not, ◌&&◌, ◌||◌, ◌==◌,
  if◌then◌else◌, Bool-cases, ltb,
}
use http.Prelude.{drop}
use http.Prelude.{List, Option, none, some}
use http.Error.{Error}
use http.Frame.Types.{flag_end_headers, has}
use http.Frame.Frames.{
  HeadersFrame, PushPromiseFrame, Frame, data_frame, headers_frame, push_promise_frame,
  unknown_frame,
}
use http.Hpack.Error.{DecodeError}
use http.Hpack.Decoder.{Decoder, reset}
use http.Wire.Read.{
  Read, got, failed, fault, ◌>>=◌, ◌>>◌, reject_if, discard, FrameHead, Lazy, read_data,
  read_unknown, read_control,
}
use http.Wire.Fragments.{
  Pending, nothing, headers, push_promise, FrameReader, FrameRead, is_pending, headers_start,
  push_promise_start, read_headers, continue_headers, read_push_promise, continue_push_promise,
  end_headers, unless_truncated, read_first, read_continuation, read_body, as_lazy, as_whole,
}

-- The stream of the block that is open.
abbrev pub open_block : Pending → Option ℕ
open_block nothing = none
open_block (headers f) = some f.stream_id
open_block (push_promise f) = some f.stream_id

-- What RFC 7540, section 6.10, lets follow: a CONTINUATION frame of the stream, or none of them.
abbrev pub Follows : Option ℕ → FrameHead → Type 0
Follows none head = (head.frame_type == 9) ≡ false
Follows (some id) head = ((head.frame_type == 9) ≡ true) × (head.stream_id ≡ id)

-- The stream whose block a frame leaves open.
abbrev pub left_open : FrameHead → Option ℕ
left_open head =
    if (head.frame_type == 1 || head.frame_type == 5 || head.frame_type == 9)
      && not (has head.flags flag_end_headers)
    then some head.stream_id
    else none

pub bind_got {ℓ κ} :
    {A : Type ℓ} {B : Type κ} (m : Read A) (f : A → Read B) (y : B)
    → (m >>= f) ≡ got y
    → (x : A) × (m ≡ got x) × (f x ≡ got y)
bind_got (got x) f y e = (x, refl, e)
bind_got (failed err) f y e = absurd (cc)
bind_got fault f y e = absurd (cc)

reject_got {ℓ} :
    {A : Type ℓ} (c : Bool) (err : Error) (m : Read A) (y : A)
    → (reject_if c err >> m) ≡ got y
    → (c ≡ false) × (m ≡ got y)
reject_got true err m y e = absurd (cc)
reject_got false err m y e = (refl, e)

unless_got :
    (r r' : FrameReader) (o : Option DecodeError)
    → unless_truncated r o ≡ got r'
    → r'.pending ≡ r.pending
unless_got r r' none e = cc
unless_got r r' (some err) e = absurd (cc)

end_headers_open :
    (r r' : FrameReader) (head : FrameHead) (dec : Decoder) (frame : Pending)
    → end_headers r head dec frame ≡ got r'
    → r'.pending ≡ (if has head.flags flag_end_headers then nothing else frame)
unfolding end_headers
end_headers_open r r' head dec frame e = elim (Bool-cases (has head.flags flag_end_headers)) [
  | inl last ↦ rw last (
      unless_got (record r { decoder = (reset dec).0; pending = nothing }) r' (reset dec).1
        (rw last at e))
  | inr more ↦ rw more (sym (ap (λ m. pending_of m) (rw more at e)))
]
  where
    pending_of : Read FrameReader → Pending
    pending_of (got x) = x.pending
    pending_of (failed err) = nothing
    pending_of fault = nothing

headers_start_stream :
    (head : FrameHead) (src : List ℕ) (y : HeadersFrame × ℕ × List ℕ)
    → headers_start head src ≡ got y
    → y.0.stream_id ≡ head.stream_id
unfolding headers_start
headers_start_stream head src y e = ground (arith, e)

push_promise_start_stream :
    (head : FrameHead) (src : List ℕ) (y : PushPromiseFrame × ℕ × List ℕ)
    → push_promise_start head src ≡ got y
    → y.0.stream_id ≡ head.stream_id
unfolding push_promise_start
push_promise_start_stream head src y e = ground (arith, e)

-- The open block after a method, for the stream of its frame.
abbrev closes : FrameHead → Option ℕ
closes head = if not (has head.flags flag_end_headers) then some head.stream_id else none

read_headers_open :
    (r : FrameReader) (head : FrameHead) (src : List ℕ) (y : HeadersFrame × FrameReader × List ℕ)
    → read_headers r head src ≡ got y
    → open_block y.1.pending ≡ closes head
unfolding read_headers
read_headers_open r head src y e =
    grind (arith, e, headers_start_stream head src, end_headers_open r)

continue_headers_open :
    (r : FrameReader) (head : FrameHead) (f : HeadersFrame) (src : List ℕ)
    (y : HeadersFrame × FrameReader × List ℕ)
    → continue_headers r head f src ≡ got y
    → (head.stream_id ≡ f.stream_id) × (open_block y.1.pending ≡ closes head)
unfolding continue_headers
continue_headers_open r head f src y e = grind (arith, e, end_headers_open r)

read_push_promise_open :
    (r : FrameReader) (head : FrameHead) (src : List ℕ)
    (y : PushPromiseFrame × FrameReader × List ℕ)
    → read_push_promise r head src ≡ got y
    → open_block y.1.pending ≡ closes head
unfolding read_push_promise
read_push_promise_open r head src y e =
    grind (arith, e, push_promise_start_stream head src, end_headers_open r)

continue_push_promise_open :
    (r : FrameReader) (head : FrameHead) (f : PushPromiseFrame) (src : List ℕ)
    (y : PushPromiseFrame × FrameReader × List ℕ)
    → continue_push_promise r head f src ≡ got y
    → (head.stream_id ≡ f.stream_id) × (open_block y.1.pending ≡ closes head)
unfolding continue_push_promise
continue_push_promise_open r head f src y e = grind (arith, e, end_headers_open r)

abbrev open_after : FrameRead → Option ℕ
open_after (got y) = open_block y.1.pending
open_after (failed err) = none
open_after fault = none

read_continuation_open :
    (r : FrameReader) (p : Pending) (head : FrameHead) (src : List ℕ)
    (y : Frame × FrameReader × List ℕ)
    → (head.frame_type == 9) ≡ true
    → read_continuation r p head src ≡ got y
    → Follows (open_block p) head × (open_block y.1.pending ≡ closes head)
unfolding read_continuation
read_continuation_open r nothing head src y type e = absurd (cc)
read_continuation_open r (headers f) head src y type e =
    let (x, run, same) =
      bind_got (continue_headers r head f src) (λ x. got (headers_frame x.0, x.1, x.2)) y e in
    let (stream, left) = continue_headers_open r head f src x run in
    ((type, stream), sym (ap open_after same) ∙ left)
read_continuation_open r (push_promise f) head src y type e =
    let (x, run, same) =
      bind_got (continue_push_promise r head f src) (λ x. got (push_promise_frame x.0, x.1, x.2)) y
        e in
    let (stream, left) = continue_push_promise_open r head f src x run in
    ((type, stream), sym (ap open_after same) ∙ left)

-- A frame whose payload stays in the input opens no block.
as_lazy_open :
    {A : Type 0} (make : A → Frame) (r : FrameReader) (m : Read (Lazy A × List ℕ))
    (y : Frame × FrameReader × List ℕ)
    → as_lazy make r m ≡ got y
    → open_block y.1.pending ≡ open_block r.pending
as_lazy_open make r (got x) y e = sym (ap open_after e)
as_lazy_open make r (failed err) y e = absurd (cc)
as_lazy_open make r fault y e = absurd (cc)

-- Nor does one that is read whole.
as_whole_open :
    {A : Type 0} (make : A → Frame) (r : FrameReader) (o : Option (Read (Frame × List ℕ)))
    (m : Read (Lazy A × List ℕ)) (y : Frame × FrameReader × List ℕ)
    → as_whole r o (as_lazy make r m) ≡ got y
    → open_block y.1.pending ≡ open_block r.pending
as_whole_open make r none m y e = as_lazy_open make r m y e
as_whole_open make r (some (got x)) m y e = sym (ap open_after e)
as_whole_open make r (some (failed err)) m y e = absurd (cc)
as_whole_open make r (some fault) m y e = absurd (cc)

read_first_open :
    (r : FrameReader) (head : FrameHead) (src : List ℕ) (y : Frame × FrameReader × List ℕ)
    → r.pending ≡ nothing
    → (head.frame_type == 9) ≡ false
    → read_first r head src ≡ got y
    → open_block y.1.pending ≡ left_open head
unfolding read_first
read_first_open r head src y none_open type e = elim (Bool-cases (head.frame_type == 0)) [
  | inl data_type ↦
      let other : left_open head ≡ none = ground arith in
      as_lazy_open data_frame r (read_data head src) y (rw data_type at e)
      ∙ ap open_block none_open
      ∙ sym other
  | inr not_data ↦ elim (Bool-cases (head.frame_type == 1)) [
    | inl headers_type ↦
        let (x, run, same) =
          bind_got (read_headers r head src) (λ x. got (headers_frame x.0, x.1, x.2)) y
            (rw (not_data, headers_type) at e) in
        sym (ap open_after same) ∙ read_headers_open r head src x run ∙ rw headers_type refl
    | inr not_headers ↦ elim (Bool-cases (head.frame_type == 5)) [
      | inl promise_type ↦
          let (x, run, same) =
            bind_got (read_push_promise r head src) (λ x. got (push_promise_frame x.0, x.1, x.2)) y
              (rw (not_data, not_headers, promise_type) at e) in
          sym (ap open_after same)
          ∙ read_push_promise_open r head src x run
          ∙ rw (not_headers, promise_type) refl
      | inr not_promise ↦
          as_whole_open unknown_frame r (read_control r.stale head src) (read_unknown head src) y
            (rw (not_data, not_headers, not_promise) at e)
          ∙ ap open_block none_open
          ∙ rw (not_headers, not_promise, type) refl
    ]
  ]
]

pub discard_got : (n : ℕ) (src rest : List ℕ) → discard n src ≡ got rest → rest ≡ drop n src
unfolding discard
discard_got n src rest e = grind (arith, e)

closes_last : (head : FrameHead) → (head.frame_type == 9) ≡ true → closes head ≡ left_open head
closes_last head type = ground (arith, type)

pub none_pending : (p : Pending) → is_pending p ≡ false → p ≡ nothing
none_pending nothing e = refl
none_pending (headers f) e = absurd (cc)
none_pending (push_promise f) e = absurd (cc)

-- A frame follows what is open, and leaves open what its flags say.
pub read_body-Follows :
    (r : FrameReader) (head : FrameHead) (src : List ℕ) (y : Frame × FrameReader × List ℕ)
    → read_body r head src ≡ got y
    → Follows (open_block r.pending) head × (open_block y.1.pending ≡ left_open head)
unfolding read_body
read_body-Follows r head src y e =
    let (fits, e1) = reject_got (ltb r.max_frame_size head.payload_len) _ _ y e in
    let (allowed, e2) = reject_got (is_pending r.pending && not (head.frame_type == 9)) _ _ y e1 in
    elim (Bool-cases (head.frame_type == 9)) [
      | inl more ↦
          let (follows, left) =
            read_continuation_open r r.pending head src y more (rw more at e2) in
          (follows, left ∙ closes_last head more)
      | inr first ↦
          let fresh : r.pending ≡ nothing =
            none_pending r.pending (ground (arith, allowed, first)) in
          (rw fresh first, read_first_open r head src y fresh first (rw first at e2))
    ]
