-- ===== src/Flow/Recv.antt =====
-- flow_control.go: `flowController`, the window that this side grants to its peer. An `int` is an
-- unbounded integer. Each method is one critical section of the controller's lock, and takes the
-- controller's stream id where the source reads `c.s.id`.
pub mod Threshold
pub mod Credit
pub mod Both
use http.Prelude.{
  ℕ, ◌+◌, ◌-◌, ◌*◌, ◌/◌, ◌%◌, ◌^◌, Bool, true, false, ◌&&◌, ltb, leb, ◌==◌, if◌then◌else◌,
}
use http.Prelude.{List, [], ◌∷◌, ◌++◌, Option, none, some}
use http.Prelude.Int.{ℤ, pos, negsuc, pos_part, ◌+ℤ◌, ◌-ℤ◌, ltb_ℤ, leb_ℤ}
use http.Error.{Error, conn_error, stream_error}
use http.Frame.Types.{
  max_initial_window_size, default_initial_window_size, err_code_flow_control, err_code_internal,
}

pub record RecvFlow : Type 0 where
  pub win : ℤ
  pub win_lower_bound : ℤ
  pub win_upper_bound : ℤ
  pub processed_win : ℤ

-- `&flowController{win: w, winUpperBound: w, processedWin: w}`.
abbrev pub new_recv_flow : ℕ → RecvFlow
new_recv_flow w = record {
  win = pos w;
  win_lower_bound = pos 0;
  win_upper_bound = pos w;
  processed_win = pos w;
}

-- A WINDOW_UPDATE frame for the control queue: stream id and increment.
pub record Grant : Type 0 where
  pub stream_id : ℕ
  pub increment : ℕ

-- `none` is the error "window size overflow".
unfoldable pub update_window : ℤ → RecvFlow → Option RecvFlow
update_window delta c =
    if ltb_ℤ (pos 0) delta && ltb_ℤ (pos max_initial_window_size -ℤ delta) c.win
    then none
    else some (record c {
      win = c.win +ℤ delta;
      processed_win = c.processed_win +ℤ delta;
      win_lower_bound = if ltb_ℤ delta (pos 0) then delta else pos 0;
    })

-- Between `defaultInitialWindowSize` and `maxInitialWindowSize`.
unfoldable pub clamp : ℤ → ℤ
clamp n =
    let m =
      if ltb_ℤ n (pos default_initial_window_size) then pos default_initial_window_size else n in
    if ltb_ℤ (pos max_initial_window_size) m then pos max_initial_window_size else m

unfoldable pub update_initial_window : ℤ → RecvFlow → RecvFlow
update_initial_window delta c = record c {
  win_upper_bound = c.win_upper_bound +ℤ (clamp (c.win_upper_bound +ℤ delta) -ℤ c.win_upper_bound);
}

-- The nearest multiple of `m`, ties to the even one.
unfoldable pub round_even : ℕ → ℕ → ℕ
round_even n m =
    let q = n / m in
    let r = n % m in
    if ltb (2 * r) m then q * m else (if ltb m (2 * r) then (q + 1) * m else (q + q % 2) * m)

-- `float32(n)` for a number below 2 ^ 31: it has 24 significant bits.
unfoldable pub float32 : ℕ → ℕ
unfolding round_even
float32 n =
    if ltb n (2 ^ 24)
    then n
    else (if ltb n (2 ^ 25)
        then round_even n 2
        else (if ltb n (2 ^ 26)
            then round_even n 4
            else (if ltb n (2 ^ 27)
                then round_even n 8
                else (if ltb n (2 ^ 28)
                    then round_even n 16
                    else (if ltb n (2 ^ 29)
                        then round_even n 32
                        else (if ltb n (2 ^ 30) then round_even n 64 else round_even n 128))))))

-- `int(float32(c.winUpperBound) * windowUpdateRatio)`; the product with 0.5 is exact.
unfoldable pub threshold : ℕ → ℕ
unfolding float32
threshold upper = float32 upper / 2

-- `windowUpdate`: the new controller, the error and the frame for the queue. The bound is positive
-- behind the first test, and `uint32(delta)` wraps.
abbrev pub uint32_of : ℤ → ℕ
uint32_of (pos n) = n % 2 ^ 32
uint32_of (negsuc n) = 2 ^ 32 - (n % 2 ^ 32 + 1)

abbrev pub granted : ℕ → ℤ → RecvFlow → Option RecvFlow → RecvFlow × Option Error × List Grant
granted id delta c none = (c, some (conn_error err_code_internal), [])
granted id delta c (some c') =
    (c', none, record { stream_id = id; increment = uint32_of delta } ∷ [])

unfoldable pub window_update : ℕ → RecvFlow → RecvFlow × Option Error × List Grant
window_update id c =
    if leb_ℤ c.win_upper_bound (pos 0)
    then (c, none, [])
    else (if ltb_ℤ (pos (threshold (pos_part c.win_upper_bound))) c.processed_win
        then (c, none, [])
        else (let delta = c.win_upper_bound -ℤ c.processed_win in
            granted id delta c (update_window delta c)))

unfoldable pub increment_window : ℕ → ℤ → RecvFlow → RecvFlow × Option Error × List Grant
unfolding update_initial_window window_update
increment_window id delta c = window_update id (update_initial_window delta c)

abbrev incremented : ℤ → RecvFlow → Option RecvFlow → RecvFlow × Bool
incremented delta c none = (c, false)
incremented delta c (some c') = (update_initial_window delta c', true)

-- The second result is false where the source returns an error.
unfoldable pub increment_initial_window : ℕ → ℤ → RecvFlow → RecvFlow × Bool
unfolding update_window update_initial_window
increment_initial_window id delta c =
    if id == 0 then (c, true) else incremented delta c (update_window delta c)

unfoldable pub consumed_bytes : RecvFlow → ℤ
consumed_bytes c = c.processed_win -ℤ c.win

-- The error for a stream, or for the connection where the id is 0.
abbrev pub flow_error : ℕ → ℕ → Error
flow_error id code = if id == 0 then conn_error code else stream_error code id

-- The part of `consumeBytes` behind the connection's share. The window is charged also where the
-- result is an error.
unfoldable pub consume_own : ℕ → ℤ → RecvFlow → RecvFlow × Option Error
consume_own id n c =
    let c' = record c { win = c.win -ℤ n } in
    (
      c',
      if ltb_ℤ c'.win c'.win_lower_bound then some (flow_error id err_code_flow_control) else none,
    )

-- The part of `returnBytes` behind the connection's share.
unfoldable pub return_own : ℕ → ℤ → RecvFlow → RecvFlow × Option Error × List Grant
unfolding window_update
return_own id delta c =
    if ltb_ℤ (c.processed_win -ℤ delta) c.win
    then (c, some (flow_error id err_code_internal), [])
    else window_update id (record c { processed_win = c.processed_win -ℤ delta })

-- A stream's controller with that of its connection.
pub record Pair : Type 0 where
  pub conn : RecvFlow
  pub own : RecvFlow

abbrev consume_behind : ℕ → ℤ → Pair → RecvFlow × Option Error → Pair × Option Error
consume_behind id n p (conn, some e) = (record p { conn = conn }, some e)
consume_behind id n p (conn, none) =
    let (own, e) = consume_own id n p.own in (record { conn = conn; own = own }, e)

-- `consumeBytes` of a stream whose id is not 0.
unfoldable pub consume_bytes : ℕ → ℤ → Pair → Pair × Option Error
unfolding consume_own
consume_bytes id n p =
    if leb_ℤ n (pos 0) then (p, none) else consume_behind id n p (consume_own 0 n p.conn)

abbrev return_behind :
    ℕ → ℤ → Pair → RecvFlow × Option Error × List Grant → Pair × Option Error × List Grant
return_behind id delta p (conn, some e, out) = (record p { conn = conn }, some e, out)
return_behind id delta p (conn, none, out) =
    let (own, e, out') = return_own id delta p.own in
    (record { conn = conn; own = own }, e, out ++ out')

-- `returnBytes` of a stream whose id is not 0.
unfoldable pub return_bytes : ℕ → ℤ → Pair → Pair × Option Error × List Grant
unfolding return_own
return_bytes id delta p = return_behind id delta p (return_own 0 delta p.conn)
