-- ===== src/Tests/Flow.antt =====
-- flow_control.go at concrete inputs.
use http.Prelude.{◌-◌, ◌^◌, ◌≡◌, refl, true, arith, none, some, ◌⊎◌, ◌↔◌}
use http.Prelude.Int.{ℤ, pos, ◌+ℤ◌, ◌≤ℤ◌, ◌<ℤ◌, int_laws}
use http.Frame.Types.{err_code_flow_control}
use http.Flow.Recv.{RecvFlow, return_own, consume_own, flow_error, threshold}
use http.Flow.Recv as Recv
use http.Flow.Recv.{update_initial_window, consume_bytes, return_bytes}
use http.Flow.Recv.Both.{
  GrantsBoth, return_bytes-Grants, increment_window-Grants, consume_bytes_lem,
}
use http.Error.{conn_error}
use http.Flow.Recv.Credit.{IsSound, Grants, return_own-Grants}
use http.Flow.Send.{SendFlow, update_window, Pair, allocated, on_window, allocate_bytes}
use http.Flow.Send.Credit.{credit, Offers, update_window-credit}
use http.Flow.Send.Allocate.{Usable, allocate_bytes-credit}

-- A window of 65535 bytes, of which 40000 are received and none is returned.
abbrev half_used : RecvFlow
half_used = record {
  win = pos 25535;
  win_lower_bound = pos 0;
  win_upper_bound = pos 65535;
  processed_win = pos 65535;
}

half_used-IsSound : IsSound half_used
half_used-IsSound = record { granted = omega arith; ordered = omega arith; bounded = omega arith }

return_own-Grants_example : Grants (pos 40000) half_used (return_own 3 (pos 40000) half_used)
return_own-Grants_example =
    return_own-Grants 3 (pos 40000) half_used half_used-IsSound (omega arith) (omega int_laws)

-- Ten bytes in the counter and five in the channel.
abbrev fifteen : SendFlow
fifteen = record { win = pos 10; win_ch = some (pos 5) }

update_window-credit_example :
    ((pos 0 <ℤ pos 7)
      × (pos (2 ^ 31 - 1) <ℤ fifteen.win +ℤ pos 7)
      × (update_window 1 (pos 7) true fifteen
          ≡ (fifteen, some (flow_error 1 err_code_flow_control))))
    ⊎ (((update_window 1 (pos 7) true fifteen).1 ≡ none)
        × (credit (update_window 1 (pos 7) true fifteen).0 ≡ credit fifteen +ℤ pos 7)
        × Offers (update_window 1 (pos 7) true fifteen).0.win_ch)
update_window-credit_example = update_window-credit 1 (pos 7) true fifteen (omega arith)

fifteen-Usable : Usable fifteen
unfolding ◌+ℤ◌
fifteen-Usable = record { offers = omega arith; positive = omega arith; bounded = omega arith }

abbrev both : Pair
both = record { conn = fifteen; own = fifteen }

allocate_bytes-credit_example :
    let (p', r) = allocate_bytes 1 (pos 9) on_window on_window both in
    (a : ℤ) × (r ≡ allocated a)
    × (pos 0 <ℤ a)
    × (a ≤ℤ pos 9)
    × (credit p'.own +ℤ a ≡ credit fifteen)
    × (credit p'.conn +ℤ a ≡ credit fifteen)
    × Offers p'.own.win_ch
    × Offers p'.conn.win_ch
allocate_bytes-credit_example =
    allocate_bytes-credit 1 (pos 9) both (omega arith) fifteen-Usable fifteen-Usable

abbrev both_half_used : Recv.Pair
both_half_used = record { conn = half_used; own = half_used }

return_bytes-Grants_example :
    GrantsBoth (pos 40000) both_half_used (return_bytes 3 (pos 40000) both_half_used)
return_bytes-Grants_example =
    return_bytes-Grants 3 (pos 40000) both_half_used half_used-IsSound half_used-IsSound
      (omega arith) (omega int_laws) (omega int_laws)

-- The bound is doubled.
increment_window-Grants_example :
    (pos 65535 ≤ℤ (update_initial_window (pos 65535) half_used).win_upper_bound)
    × ((update_initial_window (pos 65535) half_used).win_upper_bound ≤ℤ pos (2 ^ 31 - 1))
    × Grants
        (pos 0)
        (update_initial_window (pos 65535) half_used)
        (Recv.increment_window 3 (pos 65535) half_used)
increment_window-Grants_example = increment_window-Grants 3 (pos 65535) half_used half_used-IsSound

consume_bytes_lem_example :
    ((consume_bytes 3 (pos 30000) both_half_used).0.conn.win +ℤ pos 30000 ≡ half_used.win)
    × (((half_used.win <ℤ pos 30000)
          × ((consume_bytes 3 (pos 30000) both_half_used).0.own ≡ half_used)
          × ((consume_bytes 3 (pos 30000) both_half_used).1
              ≡ some (conn_error err_code_flow_control)))
        ⊎ ((pos 30000 ≤ℤ half_used.win)
            × ((consume_bytes 3 (pos 30000) both_half_used).0.own.win +ℤ pos 30000 ≡ half_used.win)
            × ((half_used.win <ℤ pos 30000) ↔ (
                (consume_bytes 3 (pos 30000) both_half_used).1
                ≡ some (flow_error 3 err_code_flow_control)))))
consume_bytes_lem_example = consume_bytes_lem 3 (pos 30000) both_half_used (omega arith) refl refl
