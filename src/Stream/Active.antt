-- ===== src/Stream/Active.antt =====
-- stream.go and conn.go: the number of active streams, over the frames of all streams.
use http.Prelude.{ℕ, ◌+◌, ◌%◌, ◌^◌, ◌≤◌, ◌≡◌, refl, ap, sym, ◌∙◌, arith}
use http.Prelude.{Bool, true, false, if◌then◌else◌}
use http.Prelude.{List, [], ◌∷◌, ◌++◌, Option, none, some}
use http.Prelude.Results.{Result, ok, err}
use http.Error.{Error}
use http.Frame.Types.{FrameType}
use http.Stream.State.{
  StreamState, idle, reserved_local, reserved_remote, opened, half_closed_local, half_closed_remote,
  closed, transition, active,
}
use http.Stream.Swap.{
  Stream, Conn, reserved_from, swap_state, note_reset, noted, swapped, stream_transition,
  num_active_streams,
}
use http.Stream.Count.{
  phase, transition-phase, on_side, tally, share, Moves, MovesIf, closed_from-Moves,
  active_from-Moves, stays-Moves, added-Moves,
}

early_inactive : (s : StreamState) → phase s ≤ 0 → active s ≡ false
unfolding phase active
early_inactive s h = ground arith

reserved_from-Moves :
    (side : Bool) (to from : StreamState) (s : Stream) (c : Conn)
    → s.state ≡ to
    → active from ≡ active to
    → MovesIf side from to s.id c (reserved_from from s c)
unfolding reserved_from share
reserved_from-Moves side to idle s c at same =
    added-Moves side idle to s.id c (s, c) (stays-Moves side idle to s c at same)
reserved_from-Moves side to reserved_local s c at same =
    stays-Moves side reserved_local to s c at same
reserved_from-Moves side to reserved_remote s c at same =
    stays-Moves side reserved_remote to s c at same
reserved_from-Moves side to opened s c at same = stays-Moves side opened to s c at same
reserved_from-Moves side to half_closed_local s c at same =
    stays-Moves side half_closed_local to s c at same
reserved_from-Moves side to half_closed_remote s c at same =
    stays-Moves side half_closed_remote to s c at same
reserved_from-Moves side to closed s c at same = stays-Moves side closed to s c at same

swap_state-Moves :
    (side : Bool) (to : StreamState) (s : Stream) (c : Conn)
    → phase s.state ≤ phase to
    → MovesIf side s.state to s.id c (swap_state to s c)
unfolding swap_state phase active
swap_state-Moves side idle s c h =
    stays-Moves side s.state idle (record s { state = idle }) c refl (early_inactive s.state h)
swap_state-Moves side reserved_local s c h =
    reserved_from-Moves side reserved_local s.state (record s { state = reserved_local }) c refl
      (early_inactive s.state h)
swap_state-Moves side reserved_remote s c h =
    reserved_from-Moves side reserved_remote s.state (record s { state = reserved_remote }) c refl
      (early_inactive s.state h)
swap_state-Moves side opened s c h =
    active_from-Moves side opened s.state (record s { state = opened }) c refl refl h
swap_state-Moves side half_closed_local s c h =
    active_from-Moves side half_closed_local s.state (record s { state = half_closed_local }) c refl
      refl h
swap_state-Moves side half_closed_remote s c h =
    active_from-Moves side half_closed_remote s.state (record s { state = half_closed_remote }) c
      refl refl h
swap_state-Moves side closed s c h =
    closed_from-Moves side s.state (record s { state = closed }) c refl

note_reset_lem :
    (recv : Bool) (to : StreamState) (f : FrameType) (s : Stream)
    → ((note_reset recv to f s).id ≡ s.id) × ((note_reset recv to f s).state ≡ s.state)
unfolding note_reset
note_reset_lem true to f s = ground arith
note_reset_lem false to f s = ground arith

-- An accepted frame moves the counter with the state, and a refused one has no effect.
abbrev Accepted : Bool → Stream → Conn → Option (Result Error (Stream × Conn)) → Type 0
Accepted side s c none = Unit
Accepted side s c (some (err e)) = Unit
Accepted side s c (some (ok (s', c'))) = Moves side s.state s'.state s.id c (s', c')

noted-Accepted :
    (side recv : Bool) (to : StreamState) (f : FrameType) (s : Stream) (c : Conn)
    (o : Option (Stream × Conn))
    → MovesIf side s.state to s.id c o
    → Accepted side s c (noted recv to f o)
noted-Accepted side recv to f s c none m = tt
noted-Accepted side recv to f s c (some (s1, c1)) (server, id, state, same) =
    let (id', state') = note_reset_lem recv to f s1 in
    (server, id' ∙ id, refl, rw (state', state) same)

swapped-Accepted :
    (side recv : Bool) (f : FrameType) (s : Stream) (c : Conn) (o : Option StreamState)
    → ((to : StreamState) → o ≡ some to → phase s.state ≤ phase to)
    → Accepted side s c (swapped recv f s c o)
swapped-Accepted side recv f s c none later = tt
swapped-Accepted side recv f s c (some to) later =
    noted-Accepted side recv to f s c (swap_state to s c)
      (swap_state-Moves side to s c (later to refl))

stream_transition-Accepted :
    (side recv : Bool) (f : FrameType) (es : Bool) (s : Stream) (c : Conn)
    → Accepted side s c (stream_transition recv f es s c)
unfolding stream_transition
stream_transition-Accepted side recv f es s c =
    swapped-Accepted side recv f s c (transition recv s.state f es)
      (λ to e. transition-phase recv s.state f es e)

-- How many of the streams are active, on a side and in all.
abbrev pub on : Bool → Bool → List Stream → ℕ
on side server [] = 0
on side server (s ∷ ss) = share side server s.id s.state + on side server ss

abbrev pub all_active : List Stream → ℕ
all_active [] = 0
all_active (s ∷ ss) = (if active s.state then 1 else 0) + all_active ss

-- Both counters are right, as numbers of 32 bits.
pub record Counted (c : Conn) (ss : List Stream) : Type 0 where
  pub own : c.num_streams % 2 ^ 32 ≡ on true c.server ss % 2 ^ 32
  pub peers : c.remote_num_streams % 2 ^ 32 ≡ on false c.server ss % 2 ^ 32

on-append :
    (side server : Bool) (xs ys : List Stream)
    → on side server (xs ++ ys) ≡ on side server xs + on side server ys
on-append side server [] ys = omega arith
on-append side server (s ∷ xs) ys = omega (arith, on-append side server xs ys)

on_both :
    (server : Bool) (ss : List Stream) → on true server ss + on false server ss ≡ all_active ss
unfolding share on_side
on_both server [] = refl
on_both server (s ∷ ss) = ground (arith, on_both server ss)

-- One stream of many moves.
on-Moves :
    (side : Bool) (xs ys : List Stream) (s s' : Stream) (c c' : Conn)
    → Moves side s.state s'.state s.id c (s', c')
    → tally side c % 2 ^ 32 ≡ on side c.server (xs ++ (s ∷ ys)) % 2 ^ 32
    → tally side c' % 2 ^ 32 ≡ on side c'.server (xs ++ (s' ∷ ys)) % 2 ^ 32
on-Moves side xs ys s s' c c' (server, id, state, moved) counted =
    let before = on-append side c.server xs (s ∷ ys) in
    let after = on-append side c.server xs (s' ∷ ys) in
    let share' : share side c.server s'.id s'.state ≡ share side c.server s.id s'.state =
      ap (λ i. share side c.server i s'.state) id in
    let target : tally side c' % 2 ^ 32 ≡ on side c.server (xs ++ (s' ∷ ys)) % 2 ^ 32 =
      omega (arith, before, after, share', moved, counted) in
    target ∙ ap (λ v. on side v (xs ++ (s' ∷ ys)) % 2 ^ 32) (sym server)

-- When the two counters of active streams are right, as numbers of 32 bits, for all streams of a
-- connection, they are right again after a frame that a stream sends or receives is accepted, and
-- `NumActiveStreams` is the number of the active streams.
pub stream_transition-Counted :
    (recv : Bool) (f : FrameType) (es : Bool) (xs ys : List Stream) (s s' : Stream) (c c' : Conn)
    → Counted c (xs ++ (s ∷ ys))
    → stream_transition recv f es s c ≡ some (ok (s', c'))
    → Counted c' (xs ++ (s' ∷ ys)) × (num_active_streams c' ≡ all_active (xs ++ (s' ∷ ys)) % 2 ^ 32)
unfolding num_active_streams
stream_transition-Counted recv f es xs ys s s' c c' counted run =
    let own =
      on-Moves true xs ys s s' c c' (rw run at (stream_transition-Accepted true recv f es s c))
        counted.own in
    let peers =
      on-Moves false xs ys s s' c c' (rw run at (stream_transition-Accepted false recv f es s c))
        counted.peers in
    (
      record { own = own; peers = peers },
      omega (arith, own, peers, on_both c'.server (xs ++ (s' ∷ ys))),
    )
