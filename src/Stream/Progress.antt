-- ===== src/Stream/Progress.antt =====
-- stream.go: a stream over a sequence of frames, sent and received.
use http.Prelude.{
  ℕ, ◌+◌, ◌≤◌, ◌<◌, Bool, true, false, Option, none, some, ◌≡◌, refl, ◌⊎◌, inl, inr, arith,
}
use http.Prelude.{List, [], ◌∷◌, ap, Option-cases}
use mathlib.Core.Logic.{ite, if_pos, if_neg}
use http.Frame.Types.{FrameType, data_type, headers_type}
use http.Stream.State.{
  StreamState, idle, reserved_local, reserved_remote, opened, half_closed_local, half_closed_remote,
  closed, transition,
}

-- A frame of a stream: received or sent, its type, and whether it ends the stream.
pub record Event : Type 0 where
  pub recv : Bool
  pub frame_type : FrameType
  pub ends : Bool

-- A refused frame leaves the state.
abbrev accept : StreamState → Option StreamState → StreamState
accept s none = s
accept s (some t) = t

unfoldable pub run : StreamState → List Event → StreamState
run s [] = s
run s (e ∷ es) = run (accept s (transition e.recv s e.frame_type e.ends)) es

StreamState-discrete : Discrete StreamState
StreamState-discrete = hlevel

rank : StreamState → ℕ
rank idle = 0
rank reserved_local = 1
rank reserved_remote = 1
rank opened = 1
rank half_closed_local = 2
rank half_closed_remote = 2
rank closed = 3

transition-rank :
    (recv : Bool) (s : StreamState) (f : FrameType) (es : Bool) {t : StreamState}
    → transition recv s f es ≡ some t
    → (t ≡ s) ⊎ (rank s < rank t)
unfolding transition rank
transition-rank true s f es h = ground arith
transition-rank false s f es h = ground arith

rank-le : (s : StreamState) → rank s ≤ 3
unfolding rank
rank-le idle = omega arith
rank-le _ = omega arith

accept-rank :
    (e : Event) (s : StreamState)
    → (accept s (transition e.recv s e.frame_type e.ends) ≡ s)
      ⊎ (rank s < rank (accept s (transition e.recv s e.frame_type e.ends)))
accept-rank e s = elim (Option-cases (transition e.recv s e.frame_type e.ends)) [
  | inl h ↦ inl (rw h)
  | inr (t, h) ↦ rw h (transition-rank e.recv s e.frame_type e.ends h)
]

-- How often the events change the state.
unfoldable pub changes : StreamState → List Event → ℕ
unfolding StreamState-discrete
changes s [] = 0
changes s (e ∷ es) =
    let t = accept s (transition e.recv s e.frame_type e.ends) in
    changes t es + ite (StreamState-discrete t s) 0 1

changes-rank : (s : StreamState) (es : List Event) → changes s es + rank s ≤ rank (run s es)
unfolding changes run
changes-rank s [] = omega arith
changes-rank s (e ∷ es) =
    let t = accept s (transition e.recv s e.frame_type e.ends) in
    elim (StreamState-discrete t s) [
      | yes p ↦ rw (if_pos _ p) (omega (arith, changes-rank t es, ap rank p))
      | no p ↦ rw (if_neg _ p) (elim (accept-rank e s) [
        | inl q ↦ absurd (p q)
        | inr q ↦ omega (arith, changes-rank t es)
      ])
    ]

-- Over any sequence of frames, sent and received, accepted or refused, a stream changes its state
-- at most three times.
pub changes-le : (s : StreamState) (es : List Event) → changes s es ≤ 3
changes-le s es = omega (arith, changes-rank s es, rank-le (run s es))

-- The states in which an end has received (`recv` true) or sent its last frame with content.
unfoldable pub ended : Bool → StreamState → Bool
ended true half_closed_remote = true
ended false half_closed_local = true
ended _ closed = true
ended _ _ = false

abbrev HasContent : FrameType → Type 0
HasContent f = (f ≡ data_type) ⊎ (f ≡ headers_type)

transition_ends :
    (recv : Bool) (s t : StreamState) (f : FrameType)
    → HasContent f
    → transition recv s f true ≡ some t
    → ended recv t ≡ true
unfolding transition ended
transition_ends true s t f (inl c) h = ground arith
transition_ends true s t f (inr c) h = ground arith
transition_ends false s t f (inl c) h = ground arith
transition_ends false s t f (inr c) h = ground arith

transition-ended :
    (recv side : Bool) (s t : StreamState) (f : FrameType) (es : Bool)
    → ended side s ≡ true
    → transition recv s f es ≡ some t
    → ended side t ≡ true
unfolding transition ended
transition-ended true true s t f es e h = ground arith
transition-ended true false s t f es e h = ground arith
transition-ended false true s t f es e h = ground arith
transition-ended false false s t f es e h = ground arith

run-ended :
    (side : Bool) (s : StreamState) (es : List Event)
    → ended side s ≡ true
    → ended side (run s es) ≡ true
unfolding run
run-ended side s [] e = e
run-ended side s (x ∷ xs) e =
    run-ended side (accept s (transition x.recv s x.frame_type x.ends)) xs
      (kept (transition x.recv s x.frame_type x.ends) refl)
  where
    kept :
        (o : Option StreamState)
        → transition x.recv s x.frame_type x.ends ≡ o
        → ended side (accept s o) ≡ true
    kept none h = e
    kept (some t) h = transition-ended x.recv side s t x.frame_type x.ends e h

ended_refuses :
    (recv : Bool) (s : StreamState) (f : FrameType) (es : Bool)
    → ended recv s ≡ true
    → HasContent f
    → transition recv s f es ≡ none
unfolding transition ended
ended_refuses true s f es e (inl c) = ground arith
ended_refuses true s f es e (inr c) = ground arith
ended_refuses false s f es e (inl c) = ground arith
ended_refuses false s f es e (inr c) = ground arith

-- Once a DATA or HEADERS frame with END_STREAM was accepted in one direction, then after any
-- sequence of frames in both directions no DATA or HEADERS frame is accepted in that direction.
pub no_content_after_end :
    (recv : Bool) (s : StreamState) {t : StreamState} (f g : FrameType) (es : List Event) (b : Bool)
    → HasContent f
    → HasContent g
    → transition recv s f true ≡ some t
    → transition recv (run t es) g b ≡ none
no_content_after_end recv s {t = t} f g es b hf hg h =
    ended_refuses recv (run t es) g b (run-ended recv t es (transition_ends recv s t f hf h)) hg
