-- ===== src/Hpack/Decode/Loop.antt =====
-- hpack/hpack.go: the loop of `Decode` on an input, and on the same input with more bytes behind it.
use http.Prelude.{ℕ, zero, suc, ◌+◌, ◌%◌, ◌^◌, ◌≤◌, ◌<◌, ◌≡◌, ◌≢◌, refl, ap, sym, ◌∙◌, arith}
use http.Prelude.{false, ltb, ◌==◌, if◌then◌else◌, inl, inr, Bool-cases}
use http.Prelude.{List, [], ◌∷◌, ◌++◌, length, length-append, Option, none, some}
use http.Prelude.Results.{ok, err}
use http.Hpack.Error.{
  DecodeError, header_fields_too_large, needs_more, header_table_size_update_required,
  header_table_size_update, truncated, bad_header_block, bad_header_table_size, bad_index_value,
  integer_overflow, handler_error,
}
use http.Hpack.Decoder.{Decoder}
use http.Hpack.Decode.{
  Handler, Step, after_error, after_field, decode_field, fields_loop, lacks_update,
}
use http.Hpack.Decode.After.{After}
use http.Hpack.Decode.Input.{decode_field-Branch}

pub lacks_nothing :
    (dec : Decoder) (input : List ℕ) → dec.size_changed ≡ false → lacks_update dec input ≡ false
lacks_nothing dec [] h = refl
lacks_nothing dec (b ∷ input) h = rw h refl

module _ {ℓ} {S : Type ℓ} (handle : Option (Handler S)) (limit : ℕ) where
  after_error_other :
      (input : List ℕ) (dec : Decoder) (s : S) (e : DecodeError)
      → e ≢ needs_more
      → after_error input dec s e ≡ some (dec, s, some e)
  after_error_other input dec s header_fields_too_large ne = refl
  after_error_other input dec s needs_more ne = absurd (ne refl)
  after_error_other input dec s header_table_size_update_required ne = refl
  after_error_other input dec s header_table_size_update ne = refl
  after_error_other input dec s truncated ne = refl
  after_error_other input dec s bad_header_block ne = refl
  after_error_other input dec s bad_header_table_size ne = refl
  after_error_other input dec s bad_index_value ne = refl
  after_error_other input dec s integer_overflow ne = refl
  after_error_other input dec s (handler_error m) ne = refl

  -- `after_field` goes on with a shorter rest only.
  after_field_lem :
      (f : List ℕ → Decoder → S → Option (Step S)) (input more : List ℕ) (dec : Decoder) (s : S)
      (k k' : List ℕ → Decoder → S → Option (Decoder × S × Option DecodeError))
      (o : Option (Step S))
      → After f input more dec s o
      → ((rest : List ℕ) (dec' : Decoder) (s' : S)
          → length rest < length input
          → k rest dec' s' ≡ k' rest dec' s')
      → after_field input limit k o ≡ after_field input limit k' o
  after_field_lem f input more dec s k k' none h same = refl
  after_field_lem f input more dec s k k' (some (dec', s', err e)) h same = refl
  after_field_lem f input more dec s k k' (some (dec', s', ok (n, rest))) h same =
      let sum = (dec'.n + n) % 2 ^ 32 in
      ap
        (λ x.
          if limit == 0
          then x
          else (if ltb limit sum
              then some (dec', s', some header_fields_too_large)
              else k rest (record dec' { n = sum }) s'))
        (same rest dec' s' h.1)
      ∙ ap
          (λ x.
            if limit == 0
            then k' rest dec' s'
            else (if ltb limit sum then some (dec', s', some header_fields_too_large) else x))
          (same rest (record dec' { n = sum }) s' h.1)

  fields_loop_step :
      (rounds b : ℕ) (input : List ℕ) (dec : Decoder) (s : S) (o : Option (Step S))
      → decode_field handle b (b ∷ input) dec s ≡ o
      → fields_loop (suc rounds) handle limit (b ∷ input) dec s
        ≡ after_field (b ∷ input) limit (fields_loop rounds handle limit) o
  unfolding fields_loop
  fields_loop_step rounds b input dec s o e =
      ap (after_field (b ∷ input) limit (fields_loop rounds handle limit)) e

  -- Enough rounds are as good as more.
  fields_loop_enough :
      (r r' : ℕ) (input : List ℕ) (dec : Decoder) (s : S)
      → length input ≤ r
      → length input ≤ r'
      → fields_loop r handle limit input dec s ≡ fields_loop r' handle limit input dec s
  unfolding fields_loop
  fields_loop_enough r r' [] dec s h h' = refl
  fields_loop_enough zero r' (b ∷ input) dec s h h' = absurd (omega arith)
  fields_loop_enough (suc r) zero (b ∷ input) dec s h h' = absurd (omega arith)
  fields_loop_enough (suc r) (suc r') (b ∷ input) dec s h h' =
      after_field_lem (decode_field handle b) (b ∷ input) [] dec s (fields_loop r handle limit)
        (fields_loop r' handle limit) (decode_field handle b (b ∷ input) dec s)
        (decode_field-Branch handle b b input [] dec s)
        (λ rest dec' s' less. fields_loop_enough r r' rest dec' s' (omega arith) (omega arith))

  -- The loop with as many rounds as there are bytes.
  abbrev pub whole_loop : List ℕ → Decoder → S → Option (Decoder × S × Option DecodeError)
  whole_loop input dec s = fields_loop (length input) handle limit input dec s

  -- What the loop's result on `input` says about the loop on a longer input: it goes on with what
  -- was kept.
  abbrev pub Later :
      List ℕ → List ℕ → Decoder → S → Option (Decoder × S × Option DecodeError) → Type ℓ
  Later input more dec s none = whole_loop (input ++ more) dec s ≡ none
  Later input more dec s (some (dec1, s1, some e)) =
      whole_loop (input ++ more) dec s ≡ some (dec1, s1, some e)
  Later input more dec s (some (dec1, s1, none)) =
      (whole_loop (input ++ more) dec s ≡ whole_loop (dec1.b ++ more) (record dec1 { b = [] }) s1)
      × (dec1.error ≡ dec.error)
      × (dec1.size_changed ≡ false)

  Later-step :
      (input rest more : List ℕ) (dec dec' : Decoder) (s s' : S)
      (o : Option (Decoder × S × Option DecodeError))
      → whole_loop (input ++ more) dec s ≡ whole_loop (rest ++ more) dec' s'
      → dec'.error ≡ dec.error
      → Later rest more dec' s' o
      → Later input more dec s o
  Later-step input rest more dec dec' s s' none same e h = same ∙ h
  Later-step input rest more dec dec' s s' (some (dec1, s1, some f)) same e h = same ∙ h
  Later-step input rest more dec dec' s s' (some (dec1, s1, none)) same e h =
      (same ∙ h.0, h.1 ∙ e, h.2)

  Later-at :
      (input more : List ℕ) (dec : Decoder) (s : S)
      (o o' : Option (Decoder × S × Option DecodeError))
      → o ≡ o'
      → Later input more dec s o'
      → Later input more dec s o
  Later-at input more dec s o o' e h = rw e h

  empty_b : (dec : Decoder) → dec.b ≡ [] → record dec { b = [] } ≡ dec
  empty_b dec h = ap (λ b. record dec { b = b }) (sym h)

  after_field-Later :
      (r b : ℕ) (input more : List ℕ) (dec : Decoder) (s : S) (o : Option (Step S))
      → length (b ∷ input) ≤ suc r
      → dec.b ≡ []
      → dec.size_changed ≡ false
      → decode_field handle b (b ∷ input) dec s ≡ o
      → After (decode_field handle b) (b ∷ input) more dec s o
      → ((rest : List ℕ) (dec' : Decoder) (s' : S)
          → length rest ≤ r
          → dec'.b ≡ []
          → dec'.size_changed ≡ false
          → Later rest more dec' s' (fields_loop r handle limit rest dec' s'))
      → Later (b ∷ input) more dec s (after_field (b ∷ input) limit (fields_loop r handle limit) o)
  after_field-Later r b input more dec s none enough no_rest still run after next =
      fields_loop_step (length (input ++ more)) b (input ++ more) dec s none after
  after_field-Later r b input more dec s (some (dec', s', err e)) enough no_rest still run
        (inl (cut, same, keeps, again)) next =
      let R = length (input ++ more) in
      Later-at (b ∷ input) more dec s _ _
        (ap (λ x. after_error (b ∷ input) dec' x e) same ∙ ap (after_error (b ∷ input) dec' s) cut)
        (
          fields_loop_step R b (input ++ more) dec s _ (sym (again (b ∷ (input ++ more))))
              ∙ sym (fields_loop_step R b (input ++ more) dec' s _ refl)
              ∙ ap (λ d. whole_loop ((b ∷ input) ++ more) d s)
                  (sym (empty_b dec' (keeps.same_b ∙ no_rest))),
          keeps.same_error,
          keeps.still still,
        )
  after_field-Later r b input more dec s (some (dec', s', err e)) enough no_rest still run
        (inr (other, same)) next =
      Later-at (b ∷ input) more dec s _ _ (after_error_other (b ∷ input) dec' s' e other) (
        fields_loop_step (length (input ++ more)) b (input ++ more) dec s _ same
        ∙ after_error_other (b ∷ (input ++ more)) dec' s' e other)
  after_field-Later r b input more dec s (some (dec', s', ok (n, rest))) enough no_rest still run
        (same, less, keeps) next =
      let sum = (dec'.n + n) % 2 ^ 32 in
      let dec2 = record dec' { n = sum } in
      let R = length (input ++ more) in
      let k = fields_loop r handle limit in
      let k' = fields_loop R handle limit in
      let enough' : length (rest ++ more) ≤ R =
        omega (arith, less, length-append rest more, length-append input more) in
      let whole = fields_loop_step R b (input ++ more) dec s _ same in
      elim (Bool-cases (limit == 0))
        as (λ x.
          Later (b ∷ input) more dec s
            (after_field (b ∷ input) limit k (some (dec', s', ok (n, rest))))) [
              | inl unlimited ↦ Later-at (b ∷ input) more dec s _ _ (rw unlimited refl) (
                  Later-step (b ∷ input) rest more dec dec' s s' (k rest dec' s')
                    (whole
                      ∙ rw unlimited (
                          fields_loop_enough R (length (rest ++ more)) (rest ++ more) dec' s'
                            enough' (omega arith)))
                    keeps.same_error
                    (next rest dec' s' (omega (arith, less)) (keeps.same_b ∙ no_rest)
                      (keeps.still still)))
              | inr limited ↦
                  elim (Bool-cases (ltb limit sum))
                    as (λ x.
                      Later (b ∷ input) more dec s
                        (after_field (b ∷ input) limit k (some (dec', s', ok (n, rest))))) [
                          | inl large ↦
                              Later-at (b ∷ input) more dec s _
                                (some (dec', s', some header_fields_too_large))
                                (rw (limited, large) refl) (whole ∙ rw (limited, large) refl)
                          | inr fits ↦
                              Later-at (b ∷ input) more dec s _ _ (rw (limited, fits) refl) (
                                Later-step (b ∷ input) rest more dec dec2 s s' (k rest dec2 s')
                                  (whole
                                    ∙ rw (limited, fits)
                                        (fields_loop_enough R (length (rest ++ more)) (rest ++ more)
                                          dec2 s' enough' (omega arith)))
                                  keeps.same_error
                                  (next rest dec2 s' (omega (arith, less)) (keeps.same_b ∙ no_rest)
                                    (keeps.still still)))
                        ]
            ]

  pub fields_loop-Later :
      (r : ℕ) (input more : List ℕ) (dec : Decoder) (s : S)
      → length input ≤ r
      → dec.b ≡ []
      → dec.size_changed ≡ false
      → Later input more dec s (fields_loop r handle limit input dec s)
  unfolding fields_loop
  fields_loop-Later r [] more dec s enough no_rest still = (
    ap (λ d. whole_loop more d s) (sym (empty_b dec no_rest))
        ∙ ap (λ b. whole_loop (b ++ more) (record dec { b = [] }) s) (sym no_rest),
    refl,
    still,
  )
  fields_loop-Later zero (b ∷ input) more dec s enough no_rest still = absurd (omega arith)
  fields_loop-Later (suc r) (b ∷ input) more dec s enough no_rest still =
      after_field-Later r b input more dec s (decode_field handle b (b ∷ input) dec s) enough
        no_rest still refl (decode_field-Branch handle b b input more dec s)
        (λ rest dec' s' short no_rest' still'.
          fields_loop-Later r rest more dec' s' short no_rest' still')
