-- ===== src/Wire/Read/Cut.antt =====
-- read.go: a connection that ends inside a SETTINGS frame.
use http.Prelude.{ℕ, zero, suc, ◌+◌, ◌-◌, ◌*◌, ◌/◌, ◌%◌, ◌≤◌, ◌<◌, ◌≡◌, refl, ap, sym, ◌∙◌, arith}
use http.Prelude.{List, [], ◌∷◌, ◌++◌, length, take, drop}
use http.Settings.{Setting, set_value}
use mathlib.Core.List.{append-nil}
use http.Frame.Types.{has}
use http.Wire.Read.{
  Read, got, failed, fault, ◌>>=◌, set_or_fail, Stale, peeked, FrameHead, read_settings,
  read_settings_loop,
}

-- What is read in place of the bytes that are missing of `n` settings.
abbrev pub left_over : Stale → ℕ → List ℕ → List ℕ
left_over stale zero src = []
left_over stale (suc n) (a ∷ b ∷ c ∷ d ∷ e ∷ f ∷ rest) = left_over stale n rest
left_over stale (suc n) src = take (6 - length src) (stale (suc n)) ++ left_over stale n []

six :
    (l : List ℕ)
    → 6 ≤ length l
    → (a : ℕ) × (b : ℕ) × (c : ℕ) × (d : ℕ) × (e : ℕ) × (f : ℕ) × (t : List ℕ) × (l
        ≡ a ∷ b ∷ c ∷ d ∷ e ∷ f ∷ t)
six [] h = absurd (omega arith)
six (a ∷ []) h = absurd (omega arith)
six (a ∷ b ∷ []) h = absurd (omega arith)
six (a ∷ b ∷ c ∷ []) h = absurd (omega arith)
six (a ∷ b ∷ c ∷ d ∷ []) h = absurd (omega arith)
six (a ∷ b ∷ c ∷ d ∷ e ∷ []) h = absurd (omega arith)
six (a ∷ b ∷ c ∷ d ∷ e ∷ f ∷ t) h = (a, b, c, d, e, f, t, refl)

bind_same {ℓ κ} :
    {A : Type ℓ} {B : Type κ} (m : Read A) (f g : A → Read B)
    → ((x : A) → f x ≡ g x)
    → (m >>= f) ≡ (m >>= g)
bind_same (got x) f g same = same x
bind_same (failed e) f g same = refl
bind_same fault f g same = refl

-- A round of the loop.
abbrev round :
    (List Setting → List ℕ → Read (List Setting × List ℕ))
    → List Setting
    → List ℕ
    → List ℕ
    → Read (List Setting × List ℕ)
round next s src behind =
    peeked (λ id v. set_or_fail id (set_value id v s) >>= λ s'. next s' (drop 6 src))
      (src ++ behind)

-- The round that finds the input at its end.
round_cut :
    (next : List Setting → List ℕ → Read (List Setting × List ℕ)) (s : List Setting)
    (src behind more : List ℕ)
    → length src < 6
    → 6 ≤ length behind
    → ((s' : List Setting) → next s' [] ≡ next s' more)
    → round next s src behind ≡ round next s (src ++ (take (6 - length src) behind ++ more)) behind
unfolding peeked
round_cut next s src [] more short enough same = absurd (omega arith)
round_cut next s src (a ∷ []) more short enough same = absurd (omega arith)
round_cut next s src (a ∷ b ∷ []) more short enough same = absurd (omega arith)
round_cut next s src (a ∷ b ∷ c ∷ []) more short enough same = absurd (omega arith)
round_cut next s src (a ∷ b ∷ c ∷ d ∷ []) more short enough same = absurd (omega arith)
round_cut next s src (a ∷ b ∷ c ∷ d ∷ e ∷ []) more short enough same = absurd (omega arith)
round_cut next s (u ∷ v ∷ w ∷ x ∷ y ∷ z ∷ src) (a ∷ b ∷ c ∷ d ∷ e ∷ f ∷ t) more short enough same =
    absurd (omega arith)
round_cut next s src (a ∷ b ∷ c ∷ d ∷ e ∷ f ∷ t) more short enough same = bind_same _ _ _ same

loop-left_over :
    (stale : Stale) (n : ℕ) (s : List Setting) (src : List ℕ)
    → ((k : ℕ) → 6 ≤ length (stale k))
    → read_settings_loop stale n s src ≡ read_settings_loop stale n s (src ++ left_over stale n src)
unfolding read_settings_loop peeked
loop-left_over stale zero s src enough = ap (λ (r : List ℕ). got (s, r)) (sym (append-nil src))
loop-left_over stale (suc n) s (a ∷ b ∷ c ∷ d ∷ e ∷ f ∷ rest) enough =
    bind_same _ _ _ (λ s'. loop-left_over stale n s' rest enough)
loop-left_over stale (suc n) s src enough =
    round_cut (read_settings_loop stale n) s src (stale (suc n)) (left_over stale n [])
      (omega arith) (enough (suc n)) (λ s'. loop-left_over stale n s' [] enough)

length-left_over :
    (stale : Stale) (n : ℕ) (src : List ℕ)
    → ((k : ℕ) → 6 ≤ length (stale k))
    → length src ≤ 6 * n
    → length src + length (left_over stale n src) ≡ 6 * n
length-left_over stale zero src enough short = omega (arith, short)
length-left_over stale (suc n) (a ∷ b ∷ c ∷ d ∷ e ∷ f ∷ rest) enough short =
    let later = length-left_over stale n rest enough (omega (arith, short)) in omega (arith, later)
length-left_over stale (suc n) src enough short =
    let (a, b, c, d, e, f, t, same) = six (stale (suc n)) (enough (suc n)) in
    let later = length-left_over stale n [] enough (omega arith) in rw same (omega (arith, later))

-- A SETTINGS frame whose payload is cut is read like one that is whole: where the length announced
-- is a number of whole settings and the input ends before it, and the buffer holds six bytes at
-- least behind what is left of the input, `readFrom` gives just what it gives for the input
-- followed by bytes of the buffer that make up the length.
pub read_settings-left_over :
    (stale : Stale) (h : FrameHead) (src : List ℕ)
    → ((n : ℕ) → 6 ≤ length (stale n))
    → length src < h.payload_len
    → h.payload_len % 6 ≡ 0
    → let more = left_over stale (h.payload_len / 6) src in
      (length src + length more ≡ h.payload_len)
      × (read_settings stale h src ≡ read_settings stale h (src ++ more))
unfolding read_settings has
read_settings-left_over stale h src enough cut whole =
    let n = h.payload_len / 6 in
    (
      length-left_over stale n src enough (omega (arith, cut)) ∙ omega (arith, whole),
      ground (arith, loop-left_over stale n [] src enough, cut),
    )
