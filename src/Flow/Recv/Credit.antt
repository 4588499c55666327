-- ===== src/Flow/Recv/Credit.antt =====
-- flow_control.go: what the peer may still send, and the WINDOW_UPDATE frames that tell it so.
use http.Prelude.{ℕ, ◌+◌, ◌-◌, ◌^◌, ◌≤◌, ◌<◌, ◌≡◌, refl, ap, ◌∙◌, arith, All}
use http.Prelude.{List, [], ◌∷◌, Option, none, some, Bool-cases, inl, inr, ◌⊎◌, ◌↔◌}
use http.Prelude.Int.{ℤ, pos, negsuc, pos_part, ◌+ℤ◌, ◌-ℤ◌, ◌≤ℤ◌, ◌<ℤ◌, ltb_ℤ, leb_ℤ}
use http.Prelude.Int.{+ℤ_parts, -ℤ_parts, int_laws}
use http.Error.{Error}
use http.Frame.Types.{err_code_flow_control}
use http.Flow.Recv.{
  RecvFlow, Grant, granted, update_window, window_update, return_own, consume_own, flow_error,
  threshold, uint32_of,
}
use http.Flow.Recv.Threshold.{threshold_lem}

-- The sum of the increments that a method queues.
abbrev pub total : List Grant → ℕ
total [] = 0
total (g ∷ gs) = g.increment + total gs

-- No byte is granted beyond the bound, and what was returned was consumed before.
pub record IsSound (c : RecvFlow) : Type 0 where
  pub granted : pos 0 ≤ℤ c.win
  pub ordered : c.win ≤ℤ c.processed_win
  pub bounded : c.win_upper_bound ≤ℤ pos (2 ^ 31 - 1)

-- A frame that `WindowUpdateFrame.writeTo` accepts.
abbrev pub IsLegal : Grant → Type 0
IsLegal g = (1 ≤ g.increment) × (g.increment < 2 ^ 31)

update_window_fits :
    (delta : ℤ) (c : RecvFlow)
    → IsSound c
    → pos 0 ≤ℤ delta
    → c.processed_win +ℤ delta ≤ℤ pos (2 ^ 31 - 1)
    → update_window delta c
      ≡ some (record c {
        win = c.win +ℤ delta;
        processed_win = c.processed_win +ℤ delta;
        win_lower_bound = pos 0;
      })
unfolding update_window
update_window_fits delta c s h k =
    ground (
      arith,
      +ℤ_parts c.win delta,
      +ℤ_parts c.processed_win delta,
      -ℤ_parts (pos (2 ^ 31 - 1)) delta,
    )

-- What a method that returns `delta` bytes makes of the window of `c` and queues for the peer;
-- `refilled` is about the bytes left for the peer to use or the reader to return.
pub record Grants (delta : ℤ) (c : RecvFlow) (r : RecvFlow × Option Error × List Grant)
    : Type 0 where
  pub succeeds : r.1 ≡ none
  pub returned : r.0.processed_win -ℤ r.0.win ≡ c.processed_win -ℤ c.win -ℤ delta
  pub exact : r.0.win ≡ c.win +ℤ pos (total r.2)
  pub legal : All IsLegal r.2
  pub sound : IsSound r.0
  pub same_bound : r.0.win_upper_bound ≡ c.win_upper_bound
  pub refilled :
      (c.win_upper_bound ≤ℤ pos 0)
      ⊎ (pos (threshold (pos_part c.win_upper_bound)) <ℤ r.0.processed_win)

add_zero : (a : ℤ) → a ≡ a +ℤ pos 0
add_zero a = omega int_laws

threshold_below : (u : ℤ) → pos 0 <ℤ u → u ≤ℤ pos (2 ^ 31 - 1) → pos (threshold (pos_part u)) <ℤ u
threshold_below (pos n) lo hi = omega (arith, threshold_lem n (omega arith) (omega arith))
threshold_below (negsuc n) lo hi = absurd (omega arith)

refill :
    (c : RecvFlow)
    → IsSound c
    → pos 0 <ℤ c.win_upper_bound
    → c.processed_win ≤ℤ pos (threshold (pos_part c.win_upper_bound))
    → (c.processed_win +ℤ (c.win_upper_bound -ℤ c.processed_win) ≡ c.win_upper_bound)
      × (pos 1 ≤ℤ c.win_upper_bound -ℤ c.processed_win)
      × (c.win_upper_bound -ℤ c.processed_win ≤ℤ c.win_upper_bound)
refill c s up low = omega (int_laws, threshold_below c.win_upper_bound up s.bounded)

uint32_of_small : (d : ℤ) → pos 1 ≤ℤ d → d ≤ℤ pos (2 ^ 31 - 1) → d ≡ pos (uint32_of d)
uint32_of_small d lo hi = ground arith

uint32_of_legal :
    (d : ℤ) → pos 1 ≤ℤ d → d ≤ℤ pos (2 ^ 31 - 1) → (1 ≤ uint32_of d) × (uint32_of d < 2 ^ 31)
uint32_of_legal d lo hi = ground arith

pub window_update-Grants :
    (id : ℕ) (c : RecvFlow) → IsSound c → Grants (pos 0) c (window_update id c)
unfolding window_update
window_update-Grants id c s = elim (Bool-cases (leb_ℤ c.win_upper_bound (pos 0))) [
  | inl none_yet ↦ rw none_yet (record {
    succeeds = refl;
    returned = omega int_laws;
    exact = add_zero c.win;
    legal = tt;
    sound = s;
    same_bound = refl;
    refilled = inl (ground arith);
  })
  | inr up ↦
      elim (Bool-cases (ltb_ℤ (pos (threshold (pos_part c.win_upper_bound))) c.processed_win)) [
        | inl enough ↦
            rw (up, enough)
              (record {
                succeeds = refl;
                returned = omega int_laws;
                exact = add_zero c.win;
                legal = tt;
                sound = s;
                same_bound = refl;
                refilled = inr (ground arith);
              })
        | inr low ↦ rw (up, low) (sent (ground arith) (ground arith))
      ]
]
  where
    sent :
        pos 0 <ℤ c.win_upper_bound
        → c.processed_win ≤ℤ pos (threshold (pos_part c.win_upper_bound))
        → Grants (pos 0) c (
            granted id
              (c.win_upper_bound -ℤ c.processed_win)
              c
              (update_window (c.win_upper_bound -ℤ c.processed_win) c))
    sent up low =
        let delta = c.win_upper_bound -ℤ c.processed_win in
        let (top, one, most) = refill c s up low in
        let small = uint32_of_small delta one (omega arith) in
        rw (update_window_fits delta c s (omega arith) (omega int_laws)) (record {
          succeeds = refl;
          returned = omega int_laws;
          exact = ap (λ (x : ℤ). c.win +ℤ x) small ∙ ap (λ (n : ℕ). c.win +ℤ pos n) (omega arith);
          legal = (uint32_of_legal delta one (omega arith), tt);
          sound = record {
            granted = omega int_laws;
            ordered = omega int_laws;
            bounded = s.bounded;
          };
          same_bound = refl;
          refilled = inr (rw top (threshold_below c.win_upper_bound up s.bounded));
        })

-- Returning a non-negative number of bytes, no more than were consumed and not returned, to a sound
-- window succeeds: the window grows by just the increments queued for the peer, each from 1 to 2 ^
-- 31 - 1. The window that results is sound, has the same bound and, when that bound is positive,
-- leaves more than the threshold; the bytes to be returned fall by just that number.
pub return_own-Grants :
    (id : ℕ) (delta : ℤ) (c : RecvFlow)
    → IsSound c
    → pos 0 ≤ℤ delta
    → delta ≤ℤ c.processed_win -ℤ c.win
    → Grants delta c (return_own id delta c)
unfolding return_own
return_own-Grants id delta c s lo hi =
    let c' : RecvFlow = record c { processed_win = c.processed_win -ℤ delta } in
    let regroup : c.processed_win -ℤ delta -ℤ c.win -ℤ pos 0 ≡ c.processed_win -ℤ c.win -ℤ delta =
      omega int_laws in
    let s' : IsSound c' = record {
      granted = s.granted;
      ordered = omega int_laws;
      bounded = s.bounded;
    } in
    elim (Bool-cases (ltb_ℤ (c.processed_win -ℤ delta) c.win)) [
      | inl bad ↦ absurd (ground (arith, s'.ordered))
      | inr good ↦
          let g = window_update-Grants id c' s' in
          rw good (record {
            succeeds = g.succeeds;
            returned = g.returned ∙ regroup;
            exact = g.exact;
            legal = g.legal;
            sound = g.sound;
            same_bound = g.same_bound;
            refilled = g.refilled;
          })
    ]

-- A frame of `n` bytes is charged to the window; it is refused exactly when it exceeds the window
-- that the peer has (a window that no lower setting has made negative).
pub consume_own-refuses :
    (id : ℕ) (n : ℤ) (c : RecvFlow)
    → c.win_lower_bound ≡ pos 0
    → ((consume_own id n c).0.win +ℤ n ≡ c.win)
      × ((c.win <ℤ n) ↔ ((consume_own id n c).1 ≡ some (flow_error id err_code_flow_control)))
unfolding consume_own
consume_own-refuses id n c b = (
  omega int_laws,
  elim (Bool-cases (ltb_ℤ (c.win -ℤ n) c.win_lower_bound)) [
    | inl low ↦ (λ _. rw low, λ _. ground (arith, -ℤ_parts c.win n))
    | inr high ↦ (λ h. absurd (ground (arith, -ℤ_parts c.win n)), λ q. absurd (ground arith))
  ],
)
