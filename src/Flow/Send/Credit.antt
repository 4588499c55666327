-- ===== src/Flow/Send/Credit.antt =====
-- flow_control.go: the bytes that this side may still send.
use http.Prelude.{
  ℕ, ◌-◌, ◌^◌, ◌≡◌, refl, ap, ◌∙◌, ◌↔◌, Bool, true, false, ◌&&◌, arith, inl, inr, ◌⊎◌,
}
use http.Prelude.{Option, none, some, Bool-cases, if◌then◌else◌}
use http.Prelude.Int.{ℤ, pos, ◌+ℤ◌, ◌-ℤ◌, ◌<ℤ◌, ltb_ℤ, leb_ℤ}
use http.Prelude.Int.{+ℤ_parts, -ℤ_parts, int_laws}
use http.Frame.Types.{err_code_flow_control, max_initial_window_size}
use http.Flow.Recv.{flow_error}
use http.Flow.Send.{SendFlow, cancel, offer, offered, drained, update_window}

abbrev pub held : Option ℤ → ℤ
held none = pos 0
held (some n) = n

-- The credit of a window: what is in the counter and what waits in the channel.
abbrev pub credit : SendFlow → ℤ
credit c = c.win +ℤ held c.win_ch

-- The channel holds a positive number, if any.
abbrev pub Offers : Option ℤ → Type 0
Offers none = Unit {0}
Offers (some n) = pos 0 <ℤ n

credit-drained :
    (w : ℤ) (ch : Option ℤ) → credit (drained (record { win = w; win_ch = ch }) ch) ≡ w +ℤ held ch
credit-drained w none = refl
credit-drained w (some n) = omega int_laws

pub credit-cancel : (c : SendFlow) → credit (cancel c) ≡ credit c
unfolding cancel
credit-cancel c = credit-drained c.win c.win_ch

credit-offered :
    (w : ℤ) (ch : Option ℤ) → credit (offered (record { win = w; win_ch = ch }) ch) ≡ w +ℤ held ch
credit-offered w none = omega int_laws
credit-offered w (some n) = refl

pub credit-offer : (c : SendFlow) → credit (offer c) ≡ credit c
unfolding offer
credit-offer c = elim (Bool-cases (leb_ℤ c.win (pos 0))) [
  | inl e ↦ rw e
  | inr e ↦ rw e (credit-offered c.win c.win_ch)
]

offer_case :
    (w : ℤ) (ch : Option ℤ) → Offers ch → Offers (offer (record { win = w; win_ch = ch })).win_ch
unfolding offer
offer_case w none h = elim (Bool-cases (leb_ℤ w (pos 0))) [
  | inl e ↦ rw e tt
  | inr e ↦ rw e (ground arith)
]
offer_case w (some n) h = elim (Bool-cases (leb_ℤ w (pos 0))) [ inl e ↦ rw e h | inr e ↦ rw e h ]

pub offer-Offers : (c : SendFlow) → Offers c.win_ch → Offers (offer c).win_ch
offer-Offers c h = offer_case c.win c.win_ch h

offer_ready_case :
    (w : ℤ) (ch : Option ℤ)
    → pos 0 <ℤ w +ℤ held ch
    → (n : ℤ) × ((offer (record { win = w; win_ch = ch })).win_ch ≡ some n)
unfolding offer
offer_ready_case w none h = elim (Bool-cases (leb_ℤ w (pos 0))) [
  | inl e ↦ absurd (ground (arith, +ℤ_parts w (pos 0)))
  | inr e ↦ (w, rw e)
]
offer_ready_case w (some n) h = elim (Bool-cases (leb_ℤ w (pos 0))) [
  | inl e ↦ (n, rw e)
  | inr e ↦ (n, rw e)
]

-- Where there is credit, the channel holds a part of it after an offer.
pub offer_ready : (c : SendFlow) → pos 0 <ℤ credit c → (n : ℤ) × ((offer c).win_ch ≡ some n)
offer_ready c h = offer_ready_case c.win c.win_ch h

drained-Offers :
    (w : ℤ) (ch : Option ℤ)
    → Offers ch
    → Offers (drained (record { win = w; win_ch = ch }) ch).win_ch
drained-Offers w none h = tt
drained-Offers w (some n) h = tt

reset_first : Bool → SendFlow → SendFlow
reset_first reset c = if reset then cancel c else c

credit-reset_first : (reset : Bool) (c : SendFlow) → credit (reset_first reset c) ≡ credit c
unfolding reset_first
credit-reset_first true c = credit-cancel c
credit-reset_first false c = refl

reset_first-Offers :
    (reset : Bool) (c : SendFlow) → Offers c.win_ch → Offers (reset_first reset c).win_ch
unfolding reset_first cancel
reset_first-Offers true c h = drained-Offers c.win c.win_ch h
reset_first-Offers false c h = h

-- The overflow test of `updateWindow`.
abbrev overflows : ℤ → SendFlow → Bool
overflows delta c = ltb_ℤ (pos 0) delta && ltb_ℤ (pos max_initial_window_size -ℤ delta) c.win

overflows-eq :
    (delta : ℤ) (c : SendFlow)
    → (overflows delta c ≡ true) ↔ ((pos 0 <ℤ delta) × (pos (2 ^ 31 - 1) <ℤ c.win +ℤ delta))
overflows-eq delta c = (
  λ h. ground (arith, +ℤ_parts c.win delta, -ℤ_parts (pos (2 ^ 31 - 1)) delta),
  λ h. ground (arith, +ℤ_parts c.win delta, -ℤ_parts (pos (2 ^ 31 - 1)) delta),
)

move_credit : (a b d : ℤ) → (a +ℤ d) +ℤ b ≡ (a +ℤ b) +ℤ d
move_credit a b d = omega int_laws

-- Where a number that waits in the channel is positive, `updateWindow` of the send window either
-- refuses with FLOW_CONTROL_ERROR and changes nothing, and then the increment is positive and takes
-- the counter over 2 ^ 31 - 1; or it succeeds, changes the credit (counter and channel) by just the
-- increment, and leaves a positive number in the channel, if any.
pub update_window-credit :
    (id : ℕ) (delta : ℤ) (reset : Bool) (c : SendFlow)
    → Offers c.win_ch
    → ((pos 0 <ℤ delta)
        × (pos (2 ^ 31 - 1) <ℤ c.win +ℤ delta)
        × (update_window id delta reset c ≡ (c, some (flow_error id err_code_flow_control))))
      ⊎ (((update_window id delta reset c).1 ≡ none)
          × (credit (update_window id delta reset c).0 ≡ credit c +ℤ delta)
          × Offers (update_window id delta reset c).0.win_ch)
unfolding update_window reset_first
update_window-credit id delta reset c o = elim (Bool-cases (overflows delta c)) [
  | inl e ↦ let (lo, hi) = (overflows-eq delta c).0 e in inl (lo, hi, rw e)
  | inr e ↦
      let d : SendFlow = reset_first reset c in
      let d' : SendFlow = record d { win = d.win +ℤ delta } in
      inr (
        rw e (
          refl,
          credit-offer d'
              ∙ move_credit d.win (held d.win_ch) delta
              ∙ ap (λ (x : ℤ). x +ℤ delta) (credit-reset_first reset c),
          offer-Offers d' (reset_first-Offers reset c o),
        ))
]
