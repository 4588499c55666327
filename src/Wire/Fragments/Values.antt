-- ===== src/Wire/Fragments/Values.antt =====
-- read.go and write.go: the values of each key of a header map, before it is sent and after.
use http.Prelude.{
  ℕ, ◌≤◌, ◌≡◌, refl, ap, sym, ◌∙◌, arith, All, true, false, if◌then◌else◌, Bool-cases, inl, inr,
  str_eq, str_eq_iff, ltb,
}
use http.Prelude.{List, [], ◌∷◌, ◌++◌, Option, none, some}
use http.Frame.Frames.{Header}
use http.Headers.{is_pseudo, valid_header_key, append_value}
use http.Headers.Laws.{values_of, values_of-append_value_same, values_of-append_value_other}
use http.Hpack.Sync.Blocks.{SentField}
use http.Wire.Block.{values_at}
use http.Wire.Block.Keys.{then_fields, regular_fields, MaySend}
use http.Wire.Block.Whole.{times, IsOrder, Distinct, IsSingle, then_field, then_pseudo}
use http.Wire.Fragments.Accepted.{added_all, canonical_valid}
use mathlib.Core.List.{append_assoc, append-nil}

-- The values of the fields of a name.
abbrev named : List ℕ → List SentField → List (List ℕ)
named k [] = []
named k (f ∷ fs) = (if str_eq f.name k then f.value ∷ [] else []) ++ named k fs

values_of-append_value :
    (k key value : List ℕ) (h : Header)
    → values_of k (append_value key value h)
      ≡ values_of k h ++ (if str_eq key k then value ∷ [] else [])
values_of-append_value k key value h = elim (Bool-cases (str_eq key k)) [
  | inl same ↦
      let e : key ≡ k = (str_eq_iff key k).0 same in
      rw (same, sym e) (values_of-append_value_same key value h)
  | inr other ↦ rw (other, append-nil) (values_of-append_value_other key k value h other)
]

values_of-added_all :
    (k : List ℕ) (h : Header) (fs : List SentField)
    → values_of k (added_all h fs) ≡ values_of k h ++ named k fs
values_of-added_all k h [] = sym (append-nil (values_of k h))
values_of-added_all k h (f ∷ fs) =
    values_of-added_all k (append_value f.name f.value h) fs
    ∙ ap (λ v. v ++ named k fs) (values_of-append_value k f.name f.value h)
    ∙ append_assoc (values_of k h) (if str_eq f.name k then f.value ∷ [] else []) (named k fs)

abbrev listed : Option (List (List ℕ)) → List (List ℕ)
listed none = []
listed (some values) = values

values_of-values_at : (k : List ℕ) (m : Header) → values_of k m ≡ listed (values_at k m)
unfolding values_of
values_of-values_at k [] = refl
values_of-values_at k ((key, values) ∷ m) = elim (Bool-cases (str_eq key k)) [
  | inl same ↦ rw same refl
  | inr other ↦ rw other (values_of-values_at k m)
]

named-then_fields :
    (k key : List ℕ) (values : List (List ℕ)) (fs : List SentField)
    → named k (then_fields key values fs) ≡ (if str_eq key k then values else []) ++ named k fs
named-then_fields k key [] fs = elim (Bool-cases (str_eq key k)) [
  | inl same ↦ rw same refl
  | inr other ↦ rw other refl
]
named-then_fields k key (v ∷ values) fs = elim (Bool-cases (str_eq key k)) [
  | inl same ↦ rw same (ap (◌∷◌ v) (named-then_fields k key values fs ∙ rw same refl))
  | inr other ↦ rw other (named-then_fields k key values fs ∙ rw other refl)
]

named-regular_fields :
    (unicode : List ℕ → List ℕ) (k : List ℕ) (m : Header)
    → All MaySend m
    → All (λ e. valid_header_key e.0 ≡ true) m
    → Distinct m
    → named k (regular_fields unicode m) ≡ (if is_pseudo k then [] else values_of k m)
unfolding values_of
named-regular_fields unicode k [] may valid distinct = elim (Bool-cases (is_pseudo k)) [
  | inl e ↦ rw e refl
  | inr e ↦ rw e refl
]
named-regular_fields unicode k ((key, values) ∷ m) (inl pseudo, may) (v, valid) (fresh, distinct) =
    let rest = named-regular_fields unicode k m may valid distinct in
    elim (Bool-cases (str_eq key k)) [
      | inl same ↦
          let e : is_pseudo k ≡ true = ap is_pseudo (sym ((str_eq_iff key k).0 same)) ∙ pseudo in
          rw (pseudo, e) (rest ∙ rw e refl)
      | inr other ↦ rw (pseudo, other) rest
    ]
named-regular_fields unicode k ((key, values) ∷ m) (inr (regular, starts, some_value), may)
      (v, valid) (fresh, distinct) =
    let rest = named-regular_fields unicode k m may valid distinct in
    rw (regular, canonical_valid unicode key v)
      (named-then_fields k key values (regular_fields unicode m)
        ∙ elim (Bool-cases (str_eq key k)) [
          | inl same ↦
              let e : is_pseudo k ≡ false =
                ap is_pseudo (sym ((str_eq_iff key k).0 same)) ∙ regular in
              let gone : values_of k m ≡ [] =
                values_of-values_at k m
                ∙ ap (λ i. listed (values_at i m)) (sym ((str_eq_iff key k).0 same))
                ∙ ap listed fresh in
              rw (same, e) (ap (◌++◌ values) (rest ∙ rw (e, gone) refl) ∙ append-nil values)
          | inr other ↦ rw other rest
        ])

named-then_field :
    (k key : List ℕ) (o : Option (List (List ℕ))) (fs : List SentField)
    → IsSingle o
    → named k (then_field key o fs) ≡ (if str_eq key k then listed o else []) ++ named k fs
named-then_field k key none fs single = elim (Bool-cases (str_eq key k)) [
  | inl same ↦ rw same refl
  | inr other ↦ rw other refl
]
named-then_field k key (some []) fs single = absurd single
named-then_field k key (some (v ∷ [])) fs single = refl
named-then_field k key (some (v ∷ v' ∷ values)) fs single = absurd single

named-then_pseudo :
    (k : List ℕ) (m : Header) (keys : List (List ℕ)) (fs : List SentField)
    → All (λ key. IsSingle (values_at key m)) keys
    → times k keys ≤ 1
    → named k (then_pseudo m keys fs)
      ≡ (if ltb 0 (times k keys) then values_of k m else []) ++ named k fs
named-then_pseudo k m [] fs single once = refl
named-then_pseudo k m (key ∷ keys) fs (first, single) once =
    named-then_field k key (values_at key m) (then_pseudo m keys fs) first
    ∙ elim (Bool-cases (str_eq k key)) [
      | inl same ↦
          let e : k ≡ key = (str_eq_iff k key).0 same in
          let same' : str_eq key k ≡ true = (str_eq_iff key k).1 (sym e) in
          let none_left : times k keys ≡ 0 = ground (arith, same, once) in
          let values : listed (values_at key m) ≡ values_of k m =
            ap (λ i. listed (values_at i m)) (sym e) ∙ sym (values_of-values_at k m) in
          let rest : named k (then_pseudo m keys fs) ≡ named k fs =
            named-then_pseudo k m keys fs single (omega (arith, none_left)) ∙ rw none_left refl in
          rw (same, same', none_left)
            (ap (λ v. v ++ named k (then_pseudo m keys fs)) values ∙ ap (◌++◌ (values_of k m)) rest)
      | inr other ↦
          let other' : str_eq key k ≡ false = ground (arith, str_eq_iff k key, str_eq_iff key k) in
          rw (other, other')
            (named-then_pseudo k m keys fs single (ground (arith, other, once))
              ∙ ap (λ (n : ℕ). (if ltb 0 n then values_of k m else []) ++ named k fs) (omega arith))
    ]

-- Every key has the values again that it had.
pub values_of-block_fields :
    (unicode : List ℕ → List ℕ) (pseudo : List (List ℕ)) (m : Header) (k : List ℕ)
    → IsOrder pseudo
    → All (λ key. IsSingle (values_at key m)) pseudo
    → All MaySend m
    → All (λ e. valid_header_key e.0 ≡ true) m
    → Distinct m
    → values_of k (added_all [] (then_pseudo m pseudo (regular_fields unicode m))) ≡ values_of k m
unfolding values_of
values_of-block_fields unicode pseudo m k order single may valid distinct =
    values_of-added_all k [] (then_pseudo m pseudo (regular_fields unicode m))
    ∙ named-then_pseudo k m pseudo (regular_fields unicode m) single (ground (arith, order k))
    ∙ ap (λ v. (if ltb 0 (times k pseudo) then values_of k m else []) ++ v)
        (named-regular_fields unicode k m may valid distinct)
    ∙ elim (Bool-cases (is_pseudo k)) [
      | inl yes_pseudo ↦
          let once : times k pseudo ≡ 1 = order k ∙ rw yes_pseudo refl in
          rw (once, yes_pseudo) (append-nil (values_of k m))
      | inr regular ↦
          let never : times k pseudo ≡ 0 = order k ∙ rw regular refl in rw (never, regular) refl
    ]
