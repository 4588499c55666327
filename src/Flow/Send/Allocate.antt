-- ===== src/Flow/Send/Allocate.antt =====
-- flow_control.go: what `allocateBytes` hands to a writer.
use http.Prelude.{ℕ, ◌-◌, ◌^◌, ◌≡◌, refl, sym, ap, ◌∙◌, false, arith, inl, inr}
use http.Prelude.{Option, none, some, Bool-cases}
use http.Prelude.Int.{ℤ, pos, ◌+ℤ◌, ◌-ℤ◌, ◌≤ℤ◌, ◌<ℤ◌, ltb_ℤ, leb_ℤ}
use http.Prelude.Int.{int_laws}
use http.Flow.Send.{
  SendFlow, Pair, on_window, allocated, update_window, increment_window, give_back, min_ℤ,
  allocate_bytes, offer,
}
use http.Flow.Send.Credit.{
  held, credit, Offers, offer-Offers, offer_ready, credit-offer, update_window-credit,
}
use mathlib.Core.Path.{subst}

-- A window with credit that no overflow can touch.
pub record Usable (c : SendFlow) : Type 0 where
  pub offers : Offers c.win_ch
  pub positive : pos 0 <ℤ credit c
  pub bounded : credit c ≤ℤ pos (2 ^ 31 - 1)

-- An increment by zero moves credit into the channel.
ready :
    (id : ℕ) (c : SendFlow)
    → Usable c
    → let c' = (increment_window id (pos 0) c).0 in
      (w : ℤ) × (c'.win_ch ≡ some w) × (pos 0 <ℤ w) × (c'.win +ℤ w ≡ credit c)
unfolding increment_window update_window
ready id c u =
    let d : SendFlow = record c { win = c.win +ℤ pos 0 } in
    let same : credit d ≡ credit c = omega int_laws in
    let (w, e) = offer_ready d (subst (λ x. pos 0 <ℤ x) (sym same) u.positive) in
    (
      w,
      e,
      subst Offers e (offer-Offers d u.offers),
      sym (ap (λ (o : Option ℤ). (offer d).win +ℤ held o) e) ∙ (credit-offer d ∙ same),
    )

give_back_sum : (x w a k : ℤ) → k ≡ x +ℤ pos 0 +ℤ (w -ℤ a) → k +ℤ a ≡ x +ℤ w
give_back_sum x w a k e = rw e (omega int_laws)

given_back :
    (id : ℕ) (a w x : ℤ)
    → a ≤ℤ w
    → x +ℤ w ≤ℤ pos (2 ^ 31 - 1)
    → pos 0 <ℤ a
    → let c : SendFlow = record { win = x; win_ch = none } in
      (credit (give_back id a w c) +ℤ a ≡ x +ℤ w) × Offers (give_back id a w c).win_ch
unfolding increment_window
given_back id a w x hi fits lo = elim (Bool-cases (ltb_ℤ a w)) [
  | inl e ↦ elim (update_window-credit id (w -ℤ a) false (record { win = x; win_ch = none }) tt) [
    | inl (_, over, _) ↦ absurd (omega int_laws)
    | inr (_, sum, o) ↦ rw e (give_back_sum x w a _ sum, o)
  ]
  | inr e ↦
      let same : a ≡ w = ground arith in
      rw e (rw same (ap (λ (y : ℤ). y +ℤ w) (omega int_laws)), tt)
]

min_bounds :
    (a b n : ℤ)
    → pos 0 <ℤ a
    → pos 0 <ℤ b
    → pos 0 <ℤ n
    → let m = min_ℤ a (min_ℤ b n) in (pos 0 <ℤ m) × (m ≤ℤ a) × (m ≤ℤ b) × (m ≤ℤ n)
min_bounds a b n ha hb hn = ground arith

-- When a writer asks for a positive number of bytes, both windows have positive credit of at most 2
-- ^ 31 - 1 and both `select`s wake up on a window, `allocateBytes` returns a positive number of at
-- most that many bytes, each window's credit (counter and channel) falls by just that number, and
-- what is left in a channel is positive.
pub allocate_bytes-credit :
    (id : ℕ) (n : ℤ) (p : Pair)
    → pos 0 <ℤ n
    → Usable p.own
    → Usable p.conn
    → let (p', r) = allocate_bytes id n on_window on_window p in
      (a : ℤ) × (r ≡ allocated a)
      × (pos 0 <ℤ a)
      × (a ≤ℤ n)
      × (credit p'.own +ℤ a ≡ credit p.own)
      × (credit p'.conn +ℤ a ≡ credit p.conn)
      × Offers p'.own.win_ch
      × Offers p'.conn.win_ch
unfolding allocate_bytes
allocate_bytes-credit id n p hn u v =
    let (sw, se, sp, ss) = ready id p.own u in
    let (cw, ce, cp, cs) = ready 0 p.conn v in
    let (lo, le_cw, le_sw, le_n) = min_bounds cw sw n cp sp hn in
    let a = min_ℤ cw (min_ℤ sw n) in
    let s = (increment_window id (pos 0) p.own).0 in
    let c = (increment_window 0 (pos 0) p.conn).0 in
    let own = given_back id a sw s.win le_sw (rw ss u.bounded) lo in
    let conn = given_back 0 a cw c.win le_cw (rw cs v.bounded) lo in
    let test : leb_ℤ n (pos 0) ≡ false = ground arith in
    rw (test, se, ce) (a, refl, lo, le_n, own.0 ∙ ss, conn.0 ∙ cs, own.1, conn.1)
