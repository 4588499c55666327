-- ===== src/Stream/Count.antt =====
-- stream.go: the counters of active streams, over the transitions of the streams.
use http.Prelude.{ℕ, ◌+◌, ◌-◌, ◌%◌, ◌^◌, ◌≤◌, ◌≡◌, refl, ◌∙◌, arith}
use http.Prelude.{Bool, true, false, not, ◌&&◌, if◌then◌else◌, inl, inr, Bool-cases}
use http.Prelude.{Option, none, some}
use http.Frame.Types.{FrameType}
use http.Flow.Recv.{RecvFlow}
use http.Flow.Send.{SendFlow}
use http.Stream.State.{
  StreamState, idle, reserved_local, reserved_remote, opened, half_closed_local, half_closed_remote,
  closed, transition, active,
}
use http.Stream.Swap.{
  Stream, Conn, local, count, activated, shut, active_from, closed_from, return_all, stop_sending,
  then_added,
}

unfoldable pub phase : StreamState → ℕ
phase idle = 0
phase reserved_local = 0
phase reserved_remote = 0
phase opened = 1
phase half_closed_local = 1
phase half_closed_remote = 1
phase closed = 2

pub transition-phase :
    (recv : Bool) (s : StreamState) (f : FrameType) (es : Bool) {t : StreamState}
    → transition recv s f es ≡ some t
    → phase s ≤ phase t
unfolding transition phase
transition-phase true s f es h = ground arith
transition-phase false s f es h = ground arith

-- Whether a stream is on the side: `true` is the connection's own.
unfoldable pub on_side : Bool → Bool → ℕ → Bool
unfolding local
on_side true server id = local server id
on_side false server id = not (local server id)

-- The counter of the side.
abbrev pub tally : Bool → Conn → ℕ
tally true c = c.num_streams
tally false c = c.remote_num_streams

-- What a stream in the state given adds to it.
unfoldable pub share : Bool → Bool → ℕ → StreamState → ℕ
unfolding on_side active
share side server id st = if active st && on_side side server id then 1 else 0

count-tally :
    (side : Bool) (n id : ℕ) (c : Conn)
    → tally side (count n id c)
      ≡ (if on_side side c.server id then (tally side c + n) % 2 ^ 32 else tally side c)
unfolding count on_side
count-tally true n id c = ground arith
count-tally false n id c = ground arith

-- The new stream and connection: the same identity, the new state, and a counter that follows.
abbrev pub Moves : Bool → StreamState → StreamState → ℕ → Conn → Stream × Conn → Type 0
Moves side from to id c (s', c') =
    (c'.server ≡ c.server)
    × (s'.id ≡ id)
    × (s'.state ≡ to)
    × ((tally side c' + share side c.server id from) % 2 ^ 32
        ≡ (tally side c + share side c.server id to) % 2 ^ 32)

abbrev pub MovesIf : Bool → StreamState → StreamState → ℕ → Conn → Option (Stream × Conn) → Type 0
MovesIf side from to id c none = Unit
MovesIf side from to id c (some r) = Moves side from to id c r

return_all_lem :
    (side : Bool) (s : Stream) (c : Conn) (flow : Option RecvFlow)
    → let r = return_all s c flow in
      (r.1.server ≡ c.server)
      × (r.0.id ≡ s.id)
      × (r.0.state ≡ s.state)
      × (tally side r.1 ≡ tally side c)
return_all_lem true s c none = (refl, refl, refl, refl)
return_all_lem true s c (some flow) = (refl, refl, refl, refl)
return_all_lem false s c none = (refl, refl, refl, refl)
return_all_lem false s c (some flow) = (refl, refl, refl, refl)

shut_lem :
    (side : Bool) (s : Stream) (c : Conn)
    → let r = shut s c in
      (r.1.server ≡ c.server)
      × (r.0.id ≡ s.id)
      × (r.0.state ≡ s.state)
      × (tally side r.1 ≡ tally side c)
unfolding shut
shut_lem true s c = return_all_lem true _ c s.recv_flow
shut_lem false s c = return_all_lem false _ c s.recv_flow

-- A stream that is not counted leaves.
shut-Moves :
    (side : Bool) (from : StreamState) (s : Stream) (c : Conn)
    → s.state ≡ closed
    → active from ≡ false
    → Moves side from closed s.id c (shut s c)
unfolding share active
shut-Moves side from s c at new =
    let (server, id, state, same) = shut_lem side s c in
    (server, id, state ∙ at, rw (new, same) refl)

count_server : (n id : ℕ) (c : Conn) → (count n id c).server ≡ c.server
unfolding count
count_server n id c = elim (Bool-cases (local c.server id)) [
  | inl own ↦ rw own refl
  | inr other ↦ rw other refl
]

-- A counted stream leaves.
counted_shut-Moves :
    (side : Bool) (from : StreamState) (s : Stream) (c : Conn)
    → s.state ≡ closed
    → active from ≡ true
    → Moves side from closed s.id c (shut s (count (2 ^ 32 - 1) s.id c))
unfolding share active
counted_shut-Moves side from s c at counted =
    let (server, id, state, same) = shut_lem side s (count (2 ^ 32 - 1) s.id c) in
    (
      server ∙ count_server (2 ^ 32 - 1) s.id c,
      id,
      state ∙ at,
      ground (arith, same, count-tally side (2 ^ 32 - 1) s.id c),
    )

pub closed_from-Moves :
    (side : Bool) (from : StreamState) (s : Stream) (c : Conn)
    → s.state ≡ closed
    → MovesIf side from closed s.id c (closed_from from s c)
unfolding closed_from active
closed_from-Moves side closed s c at = (refl, refl, at, refl)
closed_from-Moves side idle s c at = shut-Moves side idle s c at refl
closed_from-Moves side reserved_local s c at = shut-Moves side reserved_local s c at refl
closed_from-Moves side reserved_remote s c at = shut-Moves side reserved_remote s c at refl
closed_from-Moves side opened s c at = counted_shut-Moves side opened s c at refl
closed_from-Moves side half_closed_local s c at =
    counted_shut-Moves side half_closed_local s c at refl
closed_from-Moves side half_closed_remote s c at =
    counted_shut-Moves side half_closed_remote s c at refl

-- A stream becomes active.
activated-Moves :
    (side : Bool) (from to : StreamState) (s : Stream) (c : Conn)
    → s.state ≡ to
    → active from ≡ false
    → active to ≡ true
    → Moves side from to s.id c (activated to s c)
unfolding activated share active
activated-Moves side from to s c at new counted =
    (count_server 1 s.id c, refl, at, ground (arith, count-tally side 1 s.id c))

pub added-Moves :
    (side : Bool) (from to : StreamState) (id : ℕ) (c : Conn) (r : Stream × Conn)
    → Moves side from to id c r
    → Moves side from to id c (then_added r)
added-Moves true from to id c (s, c') m = m
added-Moves false from to id c (s, c') m = m

pub stays-Moves :
    (side : Bool) (from to : StreamState) (s : Stream) (c : Conn)
    → s.state ≡ to
    → active from ≡ active to
    → Moves side from to s.id c (s, c)
unfolding share
stays-Moves side from to s c at same = (refl, refl, at, rw same refl)

stop_sending-Moves :
    (side : Bool) (from to : StreamState) (s : Stream) (c : Conn) (flow : Option SendFlow)
    → s.state ≡ to
    → active from ≡ active to
    → MovesIf side from to s.id c (stop_sending s c flow)
unfolding share
stop_sending-Moves side from to s c none at same = tt
stop_sending-Moves side from to s c (some flow) at same = (refl, refl, at, rw same refl)

pub active_from-Moves :
    (side : Bool) (to from : StreamState) (s : Stream) (c : Conn)
    → s.state ≡ to
    → active to ≡ true
    → phase from ≤ 1
    → MovesIf side from to s.id c (active_from to from s c)
unfolding active_from active phase
active_from-Moves side to idle s c at counted early =
    added-Moves side idle to s.id c (activated to s c)
      (activated-Moves side idle to s c at refl counted)
active_from-Moves side to reserved_local s c at counted early =
    activated-Moves side reserved_local to s c at refl counted
active_from-Moves side to reserved_remote s c at counted early =
    activated-Moves side reserved_remote to s c at refl counted
active_from-Moves side half_closed_local opened s c at counted early =
    stop_sending-Moves side opened half_closed_local s c s.send_flow at refl
active_from-Moves side opened opened s c at counted early =
    stays-Moves side opened opened s c at refl
active_from-Moves side half_closed_remote opened s c at counted early =
    stays-Moves side opened half_closed_remote s c at refl
active_from-Moves side opened half_closed_local s c at counted early =
    stays-Moves side half_closed_local opened s c at refl
active_from-Moves side half_closed_local half_closed_local s c at counted early =
    stays-Moves side half_closed_local half_closed_local s c at refl
active_from-Moves side half_closed_remote half_closed_local s c at counted early =
    stays-Moves side half_closed_local half_closed_remote s c at refl
active_from-Moves side opened half_closed_remote s c at counted early =
    stays-Moves side half_closed_remote opened s c at refl
active_from-Moves side half_closed_local half_closed_remote s c at counted early =
    stays-Moves side half_closed_remote half_closed_local s c at refl
active_from-Moves side half_closed_remote half_closed_remote s c at counted early =
    stays-Moves side half_closed_remote half_closed_remote s c at refl
active_from-Moves side to closed s c at counted early = absurd (omega arith)
active_from-Moves side idle from s c at counted early = cc
active_from-Moves side reserved_local from s c at counted early = cc
active_from-Moves side reserved_remote from s c at counted early = cc
active_from-Moves side closed from s c at counted early = cc
