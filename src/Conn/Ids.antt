-- ===== src/Conn/Ids.antt =====
-- conn.go: the identifiers of the streams that one side opens over time.
use http.Prelude.{ℕ, ◌+◌, ◌%◌, ◌^◌, ◌≤◌, ◌<◌, ◌≡◌, arith, Bool, ◌==◌, All}
use http.Prelude.{List, [], ◌∷◌, Option}
use http.Prelude.Results.{ok}
use http.Prelude.Bits.{bit_and_ones}
use http.Frame.Frames.{GoAwayFrame}
use http.Conn.State.{ConnState, NewStream, idle_stream, valid_stream_id}

-- The side's state over time, with the identifiers of the streams that it opens. In between all but
-- the next identifier and the role may change.
pub data Run : ConnState → List ℕ → ConnState → Type 0 where
  stop : (s : ConnState) → Run s [] s
  opens :
      (go_away : Option GoAwayFrame) (id : ℕ) (stream : NewStream) (s s' s'' : ConnState)
      (ids : List ℕ)
      → idle_stream go_away id s ≡ ok (stream, s')
      → Run s' ids s''
      → Run s (id ∷ ids) s''
  changes :
      (s s' s'' : ConnState) (ids : List ℕ)
      → s'.next_stream_id ≡ s.next_stream_id
      → s'.server ≡ s.server
      → Run s' ids s''
      → Run s ids s''

-- Every identifier is above the one before, and even for a server only.
abbrev pub Ascending : Bool → ℕ → List ℕ → Type 0
Ascending server low [] = Unit
Ascending server low (id ∷ ids) =
    (low ≤ id) × ((id % 2 == 0) ≡ server) × Ascending server (id + 2) ids

idle_stream-ok :
    (go_away : Option GoAwayFrame) (id : ℕ) (stream : NewStream) (s s' : ConnState)
    → idle_stream go_away id s ≡ ok (stream, s')
    → (s.next_stream_id ≤ id)
      × ((id % 2 == 0) ≡ s.server)
      × (s'.next_stream_id ≡ (id + 2) % 2 ^ 32)
      × (s'.server ≡ s.server)
unfolding idle_stream valid_stream_id
idle_stream-ok go_away id stream s s' h = ground (arith, bit_and_ones 1 id)

-- The identifiers below 2 ^ 31 of the streams that one side opens over time ascend from its next
-- one, and are even for a server and odd for a client; so none is used twice. What changes in
-- between of the settings, the number of streams and GOAWAY frames does not matter.
pub Run-Ascending :
    (s s' : ConnState) (ids : List ℕ)
    → Run s ids s'
    → All (λ id. id < 2 ^ 31) ids
    → Ascending s.server s.next_stream_id ids
Run-Ascending _ _ _ (stop s) small = tt
Run-Ascending _ _ _ (opens go_away id stream s s' s'' ids e run) (below, small) =
    let (low, parity, next, role) = idle_stream-ok go_away id stream s s' e in
    let next' : s'.next_stream_id ≡ id + 2 = omega (arith, next, below) in
    (low, parity, rw (role, next') at (Run-Ascending s' s'' ids run small))
Run-Ascending _ _ _ (changes s s' s'' ids next role run) small =
    rw (role, next) at (Run-Ascending s' s'' ids run small)
