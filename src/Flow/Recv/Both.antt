-- ===== src/Flow/Recv/Both.antt =====
-- flow_control.go: a stream's window together with that of its connection, and a change of the bound.
use http.Prelude.{ℕ, ◌-◌, ◌^◌, ◌≡◌, refl, false, arith}
use http.Prelude.{List, ◌++◌, Option, none, some, Bool-cases, inl, inr, ◌⊎◌, ◌↔◌}
use http.Prelude.Int.{ℤ, pos, ◌+ℤ◌, ◌-ℤ◌, ◌≤ℤ◌, ◌<ℤ◌, leb_ℤ, ltb_ℤ, -ℤ_parts, int_laws}
use http.Error.{Error, conn_error}
use http.Frame.Types.{err_code_flow_control}
use http.Flow.Recv.{
  RecvFlow, Grant, Pair, clamp, update_initial_window, increment_window, consume_own, consume_bytes,
  return_own, return_bytes, return_behind, flow_error,
}
use http.Flow.Recv.Credit.{
  IsSound, Grants, window_update-Grants, return_own-Grants, consume_own-refuses,
}

-- Both windows after a return: the frames of the connection come before those of the stream.
abbrev pub GrantsBoth : ℤ → Pair → Pair × Option Error × List Grant → Type 0
GrantsBoth delta p (p', e, out) =
    (a : List Grant) × (b : List Grant) × (e ≡ none)
    × (out ≡ a ++ b)
    × Grants delta p.conn (p'.conn, none, a)
    × Grants delta p.own (p'.own, none, b)

own_behind :
    (delta : ℤ) (p : Pair) (conn : RecvFlow) (a : List Grant)
    (r : RecvFlow × Option Error × List Grant)
    → Grants delta p.conn (conn, none, a)
    → Grants delta p.own r
    → GrantsBoth delta p (record { conn = conn; own = r.0 }, r.1, a ++ r.2)
own_behind delta p conn a (own, none, b) g h = (a, b, refl, refl, g, h)
own_behind delta p conn a (own, some e, b) g h = absurd (cc (h.succeeds))

conn_behind :
    (id : ℕ) (delta : ℤ) (p : Pair) (r : RecvFlow × Option Error × List Grant)
    → Grants delta p.conn r
    → Grants delta p.own (return_own id delta p.own)
    → GrantsBoth delta p (return_behind id delta p r)
conn_behind id delta p (conn, none, a) g h =
    own_behind delta p conn a (return_own id delta p.own) g h
conn_behind id delta p (conn, some e, a) g h = absurd (cc (g.succeeds))

-- Returning a non-negative number of bytes to a stream, no more than are consumed and not returned
-- in its window and in that of the connection, both sound, succeeds: each window grows by the
-- increments queued for it, those of the connection first, each increment from 1 to 2 ^ 31 - 1;
-- each stays sound with its bound and, where the bound is positive, leaves more than the threshold;
-- and the bytes to be returned of each fall by just that number.
pub return_bytes-Grants :
    (id : ℕ) (delta : ℤ) (p : Pair)
    → IsSound p.conn
    → IsSound p.own
    → pos 0 ≤ℤ delta
    → delta ≤ℤ p.conn.processed_win -ℤ p.conn.win
    → delta ≤ℤ p.own.processed_win -ℤ p.own.win
    → GrantsBoth delta p (return_bytes id delta p)
unfolding return_bytes
return_bytes-Grants id delta p sound_conn sound_own lo in_conn in_own =
    conn_behind id delta p (return_own 0 delta p.conn)
      (return_own-Grants 0 delta p.conn sound_conn lo in_conn)
      (return_own-Grants id delta p.own sound_own lo in_own)

clamp_bounds : (n : ℤ) → (pos 65535 ≤ℤ clamp n) × (clamp n ≤ℤ pos (2 ^ 31 - 1))
unfolding clamp
clamp_bounds n = ground arith

update_initial_window-IsSound :
    (delta : ℤ) (c : RecvFlow) → IsSound c → IsSound (update_initial_window delta c)
unfolding update_initial_window
update_initial_window-IsSound delta c s = record {
  granted = s.granted;
  ordered = s.ordered;
  bounded = omega (int_laws, clamp_bounds (c.win_upper_bound +ℤ delta));
}

-- Whatever the change of the bound of a sound window, the new bound is from 65535 to 2 ^ 31 - 1,
-- and the window stays sound and grows by just the increments queued for the peer, each from 1 to 2
-- ^ 31 - 1.
pub increment_window-Grants :
    (id : ℕ) (delta : ℤ) (c : RecvFlow)
    → IsSound c
    → let u = update_initial_window delta c in
      (pos 65535 ≤ℤ u.win_upper_bound)
      × (u.win_upper_bound ≤ℤ pos (2 ^ 31 - 1))
      × Grants (pos 0) u (increment_window id delta c)
unfolding increment_window update_initial_window
increment_window-Grants id delta c s =
    let (low, high) = clamp_bounds (c.win_upper_bound +ℤ delta) in
    let u : RecvFlow = update_initial_window delta c in
    (
      omega (int_laws, low),
      omega (int_laws, high),
      window_update-Grants id u (update_initial_window-IsSound delta c s),
    )

-- A frame of a positive number of bytes, on windows whose lower bound no lower setting has moved
-- from 0, is charged to the connection's window. Where that was too small, the error is a
-- connection error of code FLOW_CONTROL_ERROR and the stream's window stays. Otherwise the stream's
-- window is charged too, and the frame is refused with FLOW_CONTROL_ERROR exactly when it is larger
-- than that window was.
pub consume_bytes_lem :
    (id : ℕ) (n : ℤ) (p : Pair)
    → pos 0 <ℤ n
    → p.conn.win_lower_bound ≡ pos 0
    → p.own.win_lower_bound ≡ pos 0
    → let (p', e) = consume_bytes id n p in
      (p'.conn.win +ℤ n ≡ p.conn.win)
      × (((p.conn.win <ℤ n) × (p'.own ≡ p.own) × (e ≡ some (conn_error err_code_flow_control)))
          ⊎ ((n ≤ℤ p.conn.win)
              × (p'.own.win +ℤ n ≡ p.own.win)
              × ((p.own.win <ℤ n) ↔ (e ≡ some (flow_error id err_code_flow_control)))))
unfolding consume_bytes consume_own
consume_bytes_lem id n p some_bytes low_conn low_own =
    let sent : leb_ℤ n (pos 0) ≡ false = ground arith in
    elim (Bool-cases (ltb_ℤ (p.conn.win -ℤ n) p.conn.win_lower_bound)) [
      | inl low ↦
          rw (sent, low) (omega int_laws, inl (ground (arith, -ℤ_parts p.conn.win n), refl, refl))
      | inr high ↦
          let (charged, refuses) = consume_own-refuses id n p.own low_own in
          rw (sent, high)
            (omega int_laws, inr (ground (arith, -ℤ_parts p.conn.win n), charged, refuses))
    ]
