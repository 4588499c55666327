-- ===== src/Wire/Block/Drain.antt =====
-- write.go: the loop from the label `write` on, which sends what the buffer holds.
use http.Prelude.{
  ℕ, zero, suc, ◌+◌, ◌-◌, ◌^◌, ◌≤◌, ◌<◌, ◌≡◌, refl, ap, ◌∙◌, arith, Bool, true, false, ◌&&◌,
}
use http.Prelude.{tests, ◌||◌, ltb, leb, ◌==◌, if◌then◌else◌, Bool-cases, inl, inr}
use http.Prelude.{
  List, [], ◌++◌, length, length-drop, length-take, take, drop, take-drop, take_all, drop_all, none,
  some,
}
use http.Wire.Write.{failed}
use http.Wire.Write.Control.{IsHealthy}
use http.Wire.Block.{Lead, BlockState, Sent, send_once, send_loop}
use http.Wire.Block.Frames.{
  frame_bytes, overhead, Frames, closing, then_more, sent_to, sent_to-IsHealthy, sent_to_twice,
  HasRoom, room, sent_frame, send_once_full, send_once_rest,
}
use mathlib.Core.List.{append_assoc}

-- The state after `bytes` with `left` in the buffer.
abbrev pub drained : BlockState → List ℕ → List ℕ → BlockState
drained s bytes left = record s { writer = sent_to s.writer bytes; buf = left; first_sent = true }

abbrev goes_on : BlockState → Bool
goes_on s = leb s.writer.max_frame_size (length s.buf) || (s.remaining == 0 && ltb 0 (length s.buf))

send_loop_step :
    (rounds : ℕ) (k : Lead) (s s' : BlockState)
    → IsHealthy s'.writer
    → send_once k s ≡ s'
    → send_loop (suc rounds) k s ≡ (if goes_on s' then send_loop rounds k s' else some (s', none))
unfolding send_loop
send_loop_step rounds k s s' h e =
    ap
      (λ t.
        if failed t.writer
        then some (t, t.writer.err)
        else (if goes_on t then send_loop rounds k t else some (t, none)))
      e
    ∙ rw (h.no_error) refl

-- A pass is due for each byte, and for the first frame.
abbrev pub due : BlockState → ℕ
due s = length s.buf + (if s.first_sent then 0 else 1)

-- The loop has sent a part of the block, whatever follows it.
abbrev pub Drains : Lead → BlockState → Sent → Type 0
Drains k s r =
    (bytes : List ℕ) × (left : List ℕ) × (r ≡ some (drained s bytes left, none))
    × (length left ≤ length s.buf)
    × ((block later : List ℕ)
        → Frames k s.writer.max_frame_size true (left ++ block) later
        → Frames k s.writer.max_frame_size s.first_sent (s.buf ++ block) (bytes ++ later))

-- The loop has sent the rest of the block.
abbrev pub Closes : Lead → BlockState → Sent → Type 0
Closes k s r =
    (bytes : List ℕ) × (r ≡ some (drained s bytes [], none))
    × Frames k s.writer.max_frame_size s.first_sent s.buf bytes

overhead_lem :
    (k : Lead) (started : Bool) (max : ℕ)
    → HasRoom k max
    → (overhead k started ≤ max) × (0 < max - overhead k started + (if started then 0 else 1))
overhead_lem k true max fits = omega (arith, fits.some_room)
overhead_lem k false max fits = omega (arith, fits.fields_fit)

module _ (k : Lead) (s : BlockState) (fits : HasRoom k s.writer.max_frame_size)
    (healthy : IsHealthy s.writer) (short : length s.buf < 2 ^ 32) where
  abbrev pub full_frame : List ℕ
  full_frame = frame_bytes k s.first_sent false (take (room k s) s.buf)

  abbrev pub after_full : BlockState
  after_full = sent_frame k s false (room k s)

  pub full_len :
      ltb (room k s) (length s.buf) ≡ true
      → (length (take (room k s) s.buf) + overhead k s.first_sent ≤ s.writer.max_frame_size)
        × (length (drop (room k s) s.buf) < due s)
        × (0 < length (drop (room k s) s.buf))
        × (length (drop (room k s) s.buf) ≤ length s.buf)
  full_len full = omega (
    tests,
    overhead_lem k s.first_sent s.writer.max_frame_size fits,
    length-take (room k s) s.buf,
    length-drop (room k s) s.buf,
  )

  -- A frame that is full, and what the loop sends behind it.
  pub full-then :
      (block later : List ℕ)
      → ltb (room k s) (length s.buf) ≡ true
      → Frames k s.writer.max_frame_size true (drop (room k s) s.buf ++ block) later
      → Frames k s.writer.max_frame_size s.first_sent (s.buf ++ block) (full_frame ++ later)
  full-then block later full more =
      then_more s.first_sent (take (room k s) s.buf) (drop (room k s) s.buf ++ block)
        (s.buf ++ block) later (full_frame ++ later) (full_len full).0
        (ap (λ b. b ++ block) (take-drop (room k s) s.buf)
          ∙ append_assoc (take (room k s) s.buf) (drop (room k s) s.buf) block)
        refl more

  pub rest_fits :
      ltb (room k s) (length s.buf) ≡ false
      → length s.buf + overhead k s.first_sent ≤ s.writer.max_frame_size
  rest_fits left = omega (tests, overhead_lem k s.first_sent s.writer.max_frame_size fits)

-- While more values follow, the loop stops as soon as the rest does not fill a frame.
pub send_loop-Drains :
    (rounds : ℕ) (k : Lead) (s : BlockState)
    → HasRoom k s.writer.max_frame_size
    → IsHealthy s.writer
    → length s.buf < 2 ^ 32
    → (s.remaining == 0) ≡ false
    → due s < rounds
    → Drains k s (send_loop rounds k s)
send_loop-Drains zero k s fits healthy short more enough = absurd (omega arith)
send_loop-Drains (suc rounds) k s fits healthy short more enough =
    elim (Bool-cases (ltb (room k s) (length s.buf))) [
      | inl full ↦
          let s' = after_full k s fits healthy short in
          let (fit, less, some_left, le) = full_len k s fits healthy short full in
          let frame = full_frame k s fits healthy short in
          let healthy' = sent_to-IsHealthy s.writer frame healthy in
          let step =
            send_loop_step rounds k s s' healthy' (send_once_full k s fits healthy short full) in
          elim (Bool-cases (goes_on s')) [
            | inl again ↦
                let (bytes, left, run, le', frames) =
                  send_loop-Drains rounds k s' fits healthy' (omega (arith, le, short)) more
                    (omega (arith, less, enough)) in
                (
                  frame ++ bytes,
                  left,
                  step
                      ∙ rw again run
                      ∙ ap
                          (λ w. some (record s { writer = w; buf = left; first_sent = true }, none))
                          (sent_to_twice s.writer frame bytes),
                  omega (arith, le, le'),
                  λ block later f. rw (append_assoc frame bytes later) (
                      full-then k s fits healthy short block (bytes ++ later) full
                        (frames block later f)),
                )
            | inr stops ↦ (
              frame,
              drop (room k s) s.buf,
              step ∙ rw stops refl,
              le,
              λ block later f. full-then k s fits healthy short block later full f,
            )
          ]
      | inr rest ↦
          let frame = frame_bytes k s.first_sent false (take (length s.buf) s.buf) in
          let s' = sent_frame k s false (length s.buf) in
          let sent : send_once k s ≡ s' =
            send_once_rest k s fits healthy short rest
            ∙ ap (λ last. sent_frame k s last (length s.buf)) more in
          let healthy' = sent_to-IsHealthy s.writer frame healthy in
          let e = drop_all s.buf in
          let stops : goes_on s' ≡ false =
            ground (arith, ap (λ (b : List ℕ). length b) e, fits.some_room) in
          (
            frame,
            [],
            send_loop_step rounds k s s' healthy' sent
                ∙ rw stops (ap (λ b. some (record s' { buf = b }, none)) e),
            omega arith,
            λ block later f.
                then_more s.first_sent s.buf block (s.buf ++ block) later (frame ++ later)
                  (rest_fits k s fits healthy short rest) refl
                  (ap (λ b. frame_bytes k s.first_sent false b ++ later) (take_all s.buf)) f,
          )
    ]

-- Behind the last value the loop sends all that is left, and closes the block.
pub send_loop-Closes :
    (rounds : ℕ) (k : Lead) (s : BlockState)
    → HasRoom k s.writer.max_frame_size
    → IsHealthy s.writer
    → length s.buf < 2 ^ 32
    → (s.remaining == 0) ≡ true
    → due s < rounds
    → Closes k s (send_loop rounds k s)
send_loop-Closes zero k s fits healthy short none_left enough = absurd (omega arith)
send_loop-Closes (suc rounds) k s fits healthy short none_left enough =
    elim (Bool-cases (ltb (room k s) (length s.buf))) [
      | inl full ↦
          let s' = after_full k s fits healthy short in
          let (fit, less, some_left, le) = full_len k s fits healthy short full in
          let frame = full_frame k s fits healthy short in
          let healthy' = sent_to-IsHealthy s.writer frame healthy in
          let again : goes_on s' ≡ true = ground (arith, some_left, none_left) in
          let (bytes, run, frames) =
            send_loop-Closes rounds k s' fits healthy' (omega (arith, le, short)) none_left
              (omega (arith, less, enough)) in
          (
            frame ++ bytes,
            send_loop_step rounds k s s' healthy' (send_once_full k s fits healthy short full)
                ∙ rw again run
                ∙ ap (λ w. some (record s { writer = w; buf = []; first_sent = true }, none))
                    (sent_to_twice s.writer frame bytes),
            then_more s.first_sent (take (room k s) s.buf) (drop (room k s) s.buf) s.buf bytes
                (frame ++ bytes) fit (take-drop (room k s) s.buf) refl frames,
          )
      | inr rest ↦
          let frame = frame_bytes k s.first_sent true (take (length s.buf) s.buf) in
          let s' = sent_frame k s true (length s.buf) in
          let sent : send_once k s ≡ s' =
            send_once_rest k s fits healthy short rest
            ∙ ap (λ last. sent_frame k s last (length s.buf)) none_left in
          let healthy' = sent_to-IsHealthy s.writer frame healthy in
          let e = drop_all s.buf in
          let stops : goes_on s' ≡ false =
            ground (arith, ap (λ (b : List ℕ). length b) e, fits.some_room) in
          (
            frame,
            send_loop_step rounds k s s' healthy' sent
                ∙ rw stops (ap (λ b. some (record s' { buf = b }, none)) e),
            closing s.first_sent s.buf frame (rest_fits k s fits healthy short rest)
                (ap (frame_bytes k s.first_sent true) (take_all s.buf)),
          )
    ]
