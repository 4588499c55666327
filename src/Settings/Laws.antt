-- ===== src/Settings/Laws.antt =====
-- util.go: `SetValue` against `Value`, and the settings that it can produce.
use http.Prelude.{ℕ, ◌^◌, ◌≤◌, ◌<◌, ◌≡◌, refl, sym, ◌≢◌, ◌⊎◌, inl, inr, arith}
use http.Prelude.{true, false, ◌==◌, if◌then◌else◌, Bool-cases, Option-cases, ==_iff}
use mathlib.Core.Path.{subst}
use http.Prelude.{List, [], ◌∷◌, some, All}
use http.Prelude.Results.{ok, err}
use http.Settings.{Setting, value, value_of, default_value, in_range, put, set_value, invalid}
use http.Settings.{max_frame_size_id, initial_window_size_id, enable_push_id}

value-put :
    (id v j : ℕ) (s : List Setting) → value j (put id v s) ≡ (if id == j then some v else value j s)
unfolding value put
value-put id v j [] = refl
value-put id v j (x ∷ xs) = ground (arith, value-put id v j xs)

-- `SetValue` refuses exactly the values out of range, naming the identifier and the value;
-- otherwise `Value` afterwards is the new value for that identifier and the old one for every
-- other.
pub value_of-set_value :
    (id v j : ℕ) (s : List Setting)
    → ((in_range id v ≡ false) × (set_value id v s ≡ err (invalid id v)))
      ⊎ ((in_range id v ≡ true)
          × (s' : List Setting) × (set_value id v s ≡ ok s')
          × (value_of j s' ≡ (if id == j then v else value_of j s)))
unfolding set_value value_of
value_of-set_value id v j s = elim (Bool-cases (in_range id v)) [
  | inl r ↦ inr (r, put id v s, rw r, ground (arith, value-put id v j s))
  | inr r ↦ inl (r, rw r)
]

abbrev pub InRange : Setting → Type 0
InRange x = in_range x.id x.value ≡ true

abbrev pub Fresh : ℕ → List Setting → Type 0
Fresh id = All (λ x. x.id ≢ id)

abbrev pub Distinct : List Setting → Type 0
Distinct [] = Unit
Distinct (x ∷ xs) = Fresh x.id xs × Distinct xs

-- What `Settings` built by `SetValue` satisfy: each value in range, no identifier twice.
abbrev pub IsValid : List Setting → Type 0
IsValid s = All InRange s × Distinct s

put-InRange :
    (id v : ℕ) (s : List Setting) → in_range id v ≡ true → All InRange s → All InRange (put id v s)
unfolding put
put-InRange id v [] r h = (r, tt)
put-InRange id v (x ∷ xs) r h = ground (arith, put-InRange id v xs r)

put-Fresh : (id v j : ℕ) (s : List Setting) → id ≢ j → Fresh j s → Fresh j (put id v s)
unfolding put
put-Fresh id v j [] ne h = (ne, tt)
put-Fresh id v j (x ∷ xs) ne h = ground (arith, put-Fresh id v j xs ne)

put-Distinct : (id v : ℕ) (s : List Setting) → Distinct s → Distinct (put id v s)
unfolding put
put-Distinct id v [] h = (tt, tt)
put-Distinct id v (x ∷ xs) h = elim (Bool-cases (x.id == id)) [
  | inl e ↦ rw e (subst (λ j. Fresh j xs) ((==_iff x.id id).0 e) h.0, h.1)
  | inr e ↦ rw e (
    put-Fresh id v x.id xs (λ p. cc (e, (==_iff x.id id).1 (sym p))) h.0,
    put-Distinct id v xs h.1,
  )
]

-- A `SetValue` that succeeds keeps every value in range and every identifier single.
pub set_value-IsValid :
    (id v : ℕ) (s : List Setting) {s' : List Setting}
    → IsValid s
    → set_value id v s ≡ ok s'
    → IsValid s'
unfolding set_value
set_value-IsValid id v s {s' = s'} h e = elim (Bool-cases (in_range id v)) [
  | inl r ↦
      let done : put id v s ≡ s' = ground arith in
      subst IsValid done (put-InRange id v s r h.0, put-Distinct id v s h.1)
  | inr r ↦ absurd (ground arith)
]

value-in_range :
    (id : ℕ) (s : List Setting) {v : ℕ} → All InRange s → value id s ≡ some v → in_range id v ≡ true
unfolding value
value-in_range id [] h e = cc
value-in_range id (x ∷ xs) {v = v} h e = elim (Bool-cases (x.id == id)) [
  | inl q ↦
      let same : x.id ≡ id = (==_iff x.id id).0 q in
      let this : x.value ≡ v = ground arith in rw (← same, ← this) h.0
  | inr q ↦ value-in_range id xs h.1 (ground arith)
]

default-in_range : (id : ℕ) → in_range id (default_value id) ≡ true
unfolding in_range default_value
default-in_range id = ground arith

value_of-in_range : (id : ℕ) (s : List Setting) → All InRange s → in_range id (value_of id s) ≡ true
unfolding value_of
value_of-in_range id s h = elim (Option-cases (value id s)) [
  | inl e ↦ rw e (default-in_range id)
  | inr (v, e) ↦ rw e (value-in_range id s h e)
]

-- For settings in range and of distinct identifiers, `Value` of SETTINGS_ENABLE_PUSH is at most 1,
-- that of SETTINGS_INITIAL_WINDOW_SIZE is below 2 ^ 31, and that of SETTINGS_MAX_FRAME_SIZE is from
-- 2 ^ 14 to 2 ^ 24 - 1, whether they are set or not.
pub value_of_bounds :
    (s : List Setting)
    → IsValid s
    → (value_of enable_push_id s ≤ 1)
      × (value_of initial_window_size_id s < 2 ^ 31)
      × (2 ^ 14 ≤ value_of max_frame_size_id s)
      × (value_of max_frame_size_id s < 2 ^ 24)
unfolding in_range
value_of_bounds s h = ground (
  arith,
  value_of-in_range enable_push_id s h.0,
  value_of-in_range initial_window_size_id s h.0,
  value_of-in_range max_frame_size_id s h.0,
)
