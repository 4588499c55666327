-- ===== src/Flow/Send.antt =====
-- flow_control.go: `remoteFlowController`, the window that the peer grants to this side, and
-- `allocateBytes`. The channel `winCh` has room for one number.
pub mod Credit
pub mod Allocate
use http.Prelude.{ℕ, ◌+◌, ◌-◌, ◌^◌, Bool, true, false, ◌&&◌, ltb, leb, ◌==◌, if◌then◌else◌}
use http.Prelude.{Option, none, some}
use http.Prelude.Int.{ℤ, pos, ◌+ℤ◌, ◌-ℤ◌, ltb_ℤ, leb_ℤ}
use http.Error.{Error, stream_closed, closed}
use http.Frame.Types.{max_initial_window_size, err_code_flow_control}
use http.Flow.Recv.{flow_error}

pub record SendFlow : Type 0 where
  pub win : ℤ
  pub win_ch : Option ℤ

abbrev pub new_send_flow : SendFlow
new_send_flow = record { win = pos 0; win_ch = none }

abbrev drained : SendFlow → Option ℤ → SendFlow
drained c none = c
drained c (some n) = record { win = c.win +ℤ n; win_ch = none }

-- `select { case n := <-c.winCh: c.win += n; default: }`.
unfoldable pub cancel : SendFlow → SendFlow
cancel c = drained c c.win_ch

abbrev offered : SendFlow → Option ℤ → SendFlow
offered c none = record { win = pos 0; win_ch = some c.win }
offered c (some n) = c

-- `select { case c.winCh <- c.win: c.win = 0; default: }` where the window is positive.
unfoldable pub offer : SendFlow → SendFlow
offer c = if leb_ℤ c.win (pos 0) then c else offered c c.win_ch

unfoldable pub update_window : ℕ → ℤ → Bool → SendFlow → SendFlow × Option Error
unfolding cancel offer
update_window id delta reset c =
    if ltb_ℤ (pos 0) delta && ltb_ℤ (pos max_initial_window_size -ℤ delta) c.win
    then (c, some (flow_error id err_code_flow_control))
    else (let d = if reset then cancel c else c in
        (offer (record d { win = d.win +ℤ delta }), none))

unfoldable pub increment_window : ℕ → ℤ → SendFlow → SendFlow × Option Error
increment_window id delta c = update_window id delta false c

unfoldable pub increment_initial_window : ℕ → ℤ → SendFlow → SendFlow × Option Error
increment_initial_window id delta c = update_window id delta true c

-- What a `select` of `allocateBytes` wakes up on.
pub data Wake : Type 0 where
  on_window on_stream_closed on_conn_closed : Wake

pub data Outcome : Type 0 where
  allocated : ℤ → Outcome
  failed : Error → Outcome
  -- The channel is empty: the goroutine stays in the `select`.
  waiting : Outcome

-- The controllers of a stream and of its connection.
pub record Pair : Type 0 where
  pub conn : SendFlow
  pub own : SendFlow

abbrev pub min_ℤ : ℤ → ℤ → ℤ
min_ℤ a b = if ltb_ℤ a b then a else b

-- Gives back what is left of `w`, of which `n` is used.
abbrev pub give_back : ℕ → ℤ → ℤ → SendFlow → SendFlow
give_back id n w c = if ltb_ℤ n w then (increment_window id (w -ℤ n) c).0 else c

abbrev pub settle : ℕ → ℤ → ℤ → ℤ → Pair → Pair × Outcome
settle id n sw cw p =
    let a = min_ℤ cw (min_ℤ sw n) in
    (record { own = give_back id a sw p.own; conn = give_back 0 a cw p.conn }, allocated a)

abbrev pub take_conn : ℕ → ℤ → ℤ → Wake → Pair → Option ℤ → Pair × Outcome
take_conn id n sw on_stream_closed p ch = (record p { conn = cancel p.conn }, failed stream_closed)
take_conn id n sw on_conn_closed p ch = (p, failed closed)
take_conn id n sw on_window p none = (p, waiting)
take_conn id n sw on_window p (some cw) =
    settle id n sw cw (record p { conn = record { win = p.conn.win; win_ch = none } })

abbrev pub take_own : ℕ → ℤ → Wake → Wake → Pair → Option ℤ → Pair × Outcome
take_own id n on_stream_closed w p ch = (p, failed stream_closed)
take_own id n on_conn_closed w p ch = (p, failed closed)
take_own id n on_window w p none = (p, waiting)
take_own id n on_window w p (some sw) =
    let conn = (increment_window 0 (pos 0) p.conn).0 in
    take_conn id n sw w (record { own = record { win = p.own.win; win_ch = none }; conn = conn })
      conn.win_ch

-- `allocateBytes(stream, n)`, with what its two `select`s wake up on.
unfoldable pub allocate_bytes : ℕ → ℤ → Wake → Wake → Pair → Pair × Outcome
unfolding increment_window cancel
allocate_bytes id n w w' p =
    if leb_ℤ n (pos 0)
    then (p, allocated (pos 0))
    else (let own = (increment_window id (pos 0) p.own).0 in
        take_own id n w w' (record p { own = own }) own.win_ch)
