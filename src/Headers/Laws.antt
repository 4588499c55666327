-- ===== src/Headers/Laws.antt =====
-- util.go: what `Header.add` accepts, and the map that it leaves.
use http.Prelude.{
  ℕ, ◌+◌, ◌≡◌, refl, sym, ap, ◌∙◌, Bool, true, false, not, ◌&&◌, ◌||◌, ltb, if◌then◌else◌, str_eq,
  str_eq_iff, All, Bool-cases, inl, inr, ◌⊎◌, arith,
}
use http.Prelude.{List, [], ◌∷◌, ◌++◌, length-append}
use http.Frame.Frames.{Header}
use http.Headers.{
  header_len, is_pseudo, valid_header_key, append_value, Added, added, malformed, panics,
  starts_pseudo, add_header,
}

-- The values of a key, in the order in which they came.
unfoldable pub values_of : List ℕ → Header → List (List ℕ)
values_of key [] = []
values_of key ((k, values) ∷ h) = if str_eq k key then values else values_of key h

-- A key that HTTP/2 allows in a header block.
abbrev pub IsAllowed : List ℕ → Type 0
IsAllowed key =
    (valid_header_key key ≡ true) × ((starts_pseudo key ≡ false) ⊎ (is_pseudo key ≡ true))

abbrev pub IsValid : Header → Type 0
IsValid h = All (λ e. IsAllowed e.0) h

pub values_of-append_value_same :
    (key value : List ℕ) (h : Header)
    → values_of key (append_value key value h) ≡ values_of key h ++ (value ∷ [])
unfolding values_of append_value
values_of-append_value_same key value [] = rw ((str_eq_iff key key).1 refl) refl
values_of-append_value_same key value ((k, values) ∷ h) = elim (Bool-cases (str_eq k key)) [
  | inl e ↦ rw (e, e) refl
  | inr e ↦ rw (e, e) (values_of-append_value_same key value h)
]

pub values_of-append_value_other :
    (key other value : List ℕ) (h : Header)
    → str_eq key other ≡ false
    → values_of other (append_value key value h) ≡ values_of other h
unfolding values_of append_value
values_of-append_value_other key other value [] d = rw d refl
values_of-append_value_other key other value ((k, values) ∷ h) d =
    elim (Bool-cases (str_eq k key)) [
      | inl e ↦
          let e' : str_eq k other ≡ false = ap (λ x. str_eq x other) ((str_eq_iff k key).0 e) ∙ d in
          rw (e, e') refl
      | inr e ↦ elim (Bool-cases (str_eq k other)) [
        | inl f ↦ rw (e, f) refl
        | inr f ↦ rw (e, f) (values_of-append_value_other key other value h d)
      ]
    ]

pub header_len-append_value :
    (key value : List ℕ) (h : Header) → header_len (append_value key value h) ≡ header_len h + 1
unfolding header_len append_value
header_len-append_value key value [] = refl
header_len-append_value key value ((k, values) ∷ h) = elim (Bool-cases (str_eq k key)) [
  | inl e ↦ rw e (omega (arith, length-append values (value ∷ [])))
  | inr e ↦ rw e (omega (arith, header_len-append_value key value h))
]

append_value-IsValid :
    (key value : List ℕ) (h : Header)
    → IsAllowed key
    → IsValid h
    → IsValid (append_value key value h)
unfolding append_value
append_value-IsValid key value [] k v = (k, tt)
append_value-IsValid key value ((j, values) ∷ h) k (this, others) =
    elim (Bool-cases (str_eq j key)) [
      | inl e ↦ rw e (this, others)
      | inr e ↦ rw e (this, append_value-IsValid key value h k others)
    ]

map_of : Added → Header
map_of (added h) = h
map_of malformed = []
map_of panics = []

added-injective : {h h' : Header} → added h ≡ added h' → h ≡ h'
unfolding map_of
added-injective e = ap map_of e

not_bad : (a b p : Bool) → (a && (b || not p)) ≡ false → (a ≡ false) ⊎ (p ≡ true)
not_bad false b p e = inl refl
not_bad true b true e = inr refl
not_bad true true false e = absurd cc
not_bad true false false e = absurd cc

-- `add` accepts an allowed key only, and then it appends.
accepted :
    (key value : List ℕ) (h : Header) {h' : Header}
    → add_header key value h ≡ added h'
    → IsAllowed key × (h' ≡ append_value key value h)
unfolding add_header
accepted [] value h e = absurd cc
accepted (c ∷ key) value h e =
    let word = c ∷ key in
    let bad = starts_pseudo word && (ltb 5 (header_len h) || not (is_pseudo word)) in
    elim (Bool-cases bad) [
      | inl b ↦ absurd (cc (rw b at e))
      | inr b ↦ elim (Bool-cases (valid_header_key word)) [
        | inl v ↦ (
          (v, not_bad (starts_pseudo word) (ltb 5 (header_len h)) (is_pseudo word) b),
          sym (added-injective (rw (b, v) at e)),
        )
        | inr v ↦ absurd (cc (rw (b, v) at e))
      ]
    ]

-- A field that `Header.add` accepts has an allowed key: not empty, ASCII without upper case, and
-- one of the five pseudo-header fields where it starts with a colon. The map has one value more,
-- the last one of that key; the values of every other key stay.
pub add_header-added :
    (key value j : List ℕ) (h : Header) {h' : Header}
    → add_header key value h ≡ added h'
    → IsAllowed key
      × (header_len h' ≡ header_len h + 1)
      × (values_of j h' ≡ (if str_eq key j then values_of j h ++ (value ∷ []) else values_of j h))
add_header-added key value j h {h' = h'} e =
    let (allowed, same) = accepted key value h e in
    (
      allowed,
      ap header_len same ∙ header_len-append_value key value h,
      ap (values_of j) same ∙ elim (Bool-cases (str_eq key j)) [
        | inl s ↦
            let k : key ≡ j = (str_eq_iff key j).0 s in
            rw (s, ← k) (values_of-append_value_same key value h)
        | inr d ↦ rw d (values_of-append_value_other key j value h d)
      ],
    )

-- `Header.add` keeps every key of a map allowed.
pub add_header-IsValid :
    (key value : List ℕ) (h : Header) {h' : Header}
    → IsValid h
    → add_header key value h ≡ added h'
    → IsValid h'
add_header-IsValid key value h v e =
    let (allowed, same) = accepted key value h e in
    rw same (append_value-IsValid key value h allowed v)
