-- ===== src/Hpack/Decode/Fragments.antt =====
-- hpack/hpack.go: `Decode` of a header block that arrives in parts.
use http.Prelude.{ℕ, ◌≡◌, refl, ap, sym, ◌∙◌, arith}
use http.Prelude.{false, if◌then◌else◌}
use http.Prelude.{List, [], ◌∷◌, ◌++◌, length, Option, none, some}
use http.Hpack.Error.{DecodeError, header_table_size_update_required}
use http.Hpack.Decoder.{Decoder}
use http.Hpack.Decode.{Handler, keep_error, refused, checked, unless, decode}
use mathlib.Core.List.{append_assoc, append-nil}
use http.Hpack.Decode.Loop.{lacks_nothing, whole_loop, Later, fields_loop-Later}

module _ {ℓ} {S : Type ℓ} (handle : Option (Handler S)) (limit : ℕ) where
  checked-whole_loop :
      (input : List ℕ) (dec : Decoder) (s : S)
      → dec.size_changed ≡ false
      → checked handle limit input dec s ≡ keep_error (whole_loop handle limit input dec s)
  unfolding checked
  checked-whole_loop input dec s h =
      ap
        (λ c.
          if c
          then refused header_table_size_update_required dec s
          else keep_error (whole_loop handle limit input dec s))
        (lacks_nothing dec input h)

  -- `Decode` of a part that is not empty, without an error before.
  pub decode-whole_loop :
      (x : ℕ) (block : List ℕ) (dec : Decoder) (s : S)
      → dec.error ≡ none
      → dec.size_changed ≡ false
      → decode handle limit (x ∷ block) dec s
        ≡ keep_error (whole_loop handle limit (dec.b ++ (x ∷ block)) (record dec { b = [] }) s)
  unfolding decode
  decode-whole_loop x block dec s e h =
      ap
        (λ o.
          unless o dec s (checked handle limit (dec.b ++ (x ∷ block)) (record dec { b = [] }) s))
        e
      ∙ checked-whole_loop (dec.b ++ (x ∷ block)) (record dec { b = [] }) s h

  -- The next call of `Decode`.
  abbrev pub resume :
      List ℕ → Option (Decoder × S × Option DecodeError) → Option (Decoder × S × Option DecodeError)
  resume more none = none
  resume more (some (dec, s, e)) = decode handle limit more dec s

  rest-decode :
      (input : List ℕ) (y : ℕ) (more : List ℕ) (dec : Decoder) (s : S)
      (o : Option (Decoder × S × Option DecodeError))
      → dec.error ≡ none
      → Later handle limit input (y ∷ more) dec s o
      → keep_error (whole_loop handle limit (input ++ (y ∷ more)) dec s)
        ≡ resume (y ∷ more) (keep_error o)
  unfolding decode
  rest-decode input y more dec s none no_error h = ap keep_error h
  rest-decode input y more dec s (some (dec2, s2, some f)) no_error h = ap keep_error h
  rest-decode input y more dec s (some (dec2, s2, none)) no_error h =
      ap keep_error h.0 ∙ sym (decode-whole_loop y more dec2 s2 (h.1 ∙ no_error) h.2)

  -- Without more bytes `Decode` returns the error that was kept.
  resume_nothing :
      (input : List ℕ) (dec : Decoder) (s : S) (o : Option (Decoder × S × Option DecodeError))
      → dec.error ≡ none
      → Later handle limit input [] dec s o
      → resume [] (keep_error o) ≡ keep_error o
  unfolding decode
  resume_nothing input dec s none no_error h = refl
  resume_nothing input dec s (some (dec2, s2, some f)) no_error h = refl
  resume_nothing input dec s (some (dec2, s2, none)) no_error h =
      ap (λ f. some (dec2, s2, f)) (h.1 ∙ no_error)

  -- A header block may be cut anywhere: with no earlier error and no update of the table due, a
  -- call of `Decode` on the first part and then one on the second part do just what a call on the
  -- whole does, panics included, to the decoder and to the handler, and return the same error.
  pub decode-append :
      (first second : List ℕ) (dec : Decoder) (s : S)
      → dec.error ≡ none
      → dec.size_changed ≡ false
      → decode handle limit (first ++ second) dec s
        ≡ resume second (decode handle limit first dec s)
  unfolding decode
  decode-append [] second dec s no_error still = refl
  decode-append (x ∷ first) [] dec s no_error still =
      let dec0 = record dec { b = [] } in
      let input = dec.b ++ (x ∷ first) in
      let loop = decode-whole_loop x first dec s no_error still in
      ap (λ i. decode handle limit (x ∷ i) dec s) (append-nil first)
      ∙ loop
      ∙ sym (
          resume_nothing input dec0 s (whole_loop handle limit input dec0 s) no_error (
            fields_loop-Later handle limit (length input) input [] dec0 s (omega arith) refl still))
      ∙ ap (resume []) (sym loop)
  decode-append (x ∷ first) (y ∷ second) dec s no_error still =
      let dec0 = record dec { b = [] } in
      let input = dec.b ++ (x ∷ first) in
      decode-whole_loop x (first ++ (y ∷ second)) dec s no_error still
      ∙ ap (λ i. keep_error (whole_loop handle limit i dec0 s))
          (sym (append_assoc dec.b (x ∷ first) (y ∷ second)))
      ∙ rest-decode input y second dec0 s (whole_loop handle limit input dec0 s) no_error (
          fields_loop-Later handle limit (length input) input (y ∷ second) dec0 s (omega arith) refl
            still)
      ∙ ap (resume (y ∷ second)) (sym (decode-whole_loop x first dec s no_error still))
