-- ===== src/Hpack/Decode/Parts.antt =====
-- hpack/hpack.go: a header block that is decoded without an error, in two parts.
use http.Prelude.{ℕ, ◌≡◌, refl, ap, sym, ◌∙◌, arith, Bool, false}
use http.Prelude.{List, [], ◌∷◌, ◌++◌, length, Option, none, some}
use http.Hpack.Error.{DecodeError}
use http.Hpack.Decoder.{Decoder}
use http.Hpack.Decode.{Handler, keep_error, decode}
use http.Hpack.Decode.Loop.{whole_loop, Later, fields_loop-Later}
use http.Hpack.Decode.Fragments.{resume, decode-append, decode-whole_loop}
use http.Hpack.Decode.State.{InResult, fields_loop-InResult}

module _ {ℓ} {S : Type ℓ} (handle : Handler S) (limit : ℕ) where
  abbrev Result : Type ℓ
  Result = Option (Decoder × S × Option DecodeError)

  -- An error that is returned is kept; without one, the decoder can go on.
  abbrev pub Settled : Result → Type 0
  Settled none = Unit
  Settled (some (dec, s, none)) = (dec.error ≡ none) × (dec.size_changed ≡ false)
  Settled (some (dec, s, some e)) = dec.error ≡ some e

  Later-Settled :
      (input : List ℕ) (dec : Decoder) (s : S) (o : Result)
      → dec.error ≡ none
      → Later (some handle) limit input [] dec s o
      → Settled (keep_error o)
  Later-Settled input dec s none no_error h = tt
  Later-Settled input dec s (some (dec1, s1, none)) no_error h = (h.1 ∙ no_error, h.2)
  Later-Settled input dec s (some (dec1, s1, some e)) no_error h = refl

  pub decode-Settled :
      (block : List ℕ) (dec : Decoder) (s : S)
      → dec.error ≡ none
      → dec.size_changed ≡ false
      → Settled (decode (some handle) limit block dec s)
  unfolding decode
  decode-Settled [] dec s no_error still = rw no_error (no_error, still)
  decode-Settled (x ∷ block) dec s no_error still =
      let dec0 = record dec { b = [] } in
      let input = dec.b ++ (x ∷ block) in
      rw (decode-whole_loop (some handle) limit x block dec s no_error still) (
        Later-Settled input dec0 s (whole_loop (some handle) limit input dec0 s) no_error (
          fields_loop-Later (some handle) limit (length input) input [] dec0 s (omega arith) refl
            still))

  -- A decoder with an error returns it.
  decode_refused :
      (block : List ℕ) (dec : Decoder) (s : S) (e : DecodeError)
      → dec.error ≡ some e
      → decode (some handle) limit block dec s ≡ some (dec, s, some e)
  unfolding decode
  decode_refused [] dec s e h = ap (λ o. some (dec, s, o)) h
  decode_refused (x ∷ block) dec s e h = rw h refl

  -- The first part of a block that is decoded without an error is, and so is the second one.
  abbrev pub Parts : List ℕ → List ℕ → Decoder → S → Decoder → S → Type ℓ
  Parts first second dec s dec' s' =
      (dec1 : Decoder) × (s1 : S) × (decode (some handle) limit first dec s ≡ some (dec1, s1, none))
      × (decode (some handle) limit second dec1 s1 ≡ some (dec', s', none))
      × (dec1.error ≡ none)
      × (dec1.size_changed ≡ false)

  resumed-Parts :
      (first second : List ℕ) (dec dec' : Decoder) (s s' : S) (o : Result)
      → decode (some handle) limit first dec s ≡ o
      → Settled o
      → resume (some handle) limit second o ≡ some (dec', s', none)
      → Parts first second dec s dec' s'
  resumed-Parts first second dec dec' s s' none run settled later = absurd (cc)
  resumed-Parts first second dec dec' s s' (some (dec1, s1, none)) run settled later =
      (dec1, s1, run, later, settled.0, settled.1)
  resumed-Parts first second dec dec' s s' (some (dec1, s1, some e)) run settled later =
      absurd (cc (decode_refused second dec1 s1 e settled))

  pub decode-Parts :
      (first second : List ℕ) (dec dec' : Decoder) (s s' : S)
      → dec.error ≡ none
      → dec.size_changed ≡ false
      → decode (some handle) limit (first ++ second) dec s ≡ some (dec', s', none)
      → Parts first second dec s dec' s'
  decode-Parts first second dec dec' s s' no_error still run =
      resumed-Parts first second dec dec' s s' (decode (some handle) limit first dec s) refl
        (decode-Settled first dec s no_error still)
        (sym (decode-append (some handle) limit first second dec s no_error still) ∙ run)

  module _ {κ} (P : S → Type κ)
      (keeps : (s : S) (name value : List ℕ) (sensitive : Bool)
        → P s
        → P (handle s name value sensitive).0) where
    kept-InResult :
        (o : Result) → InResult P handle keeps o → InResult P handle keeps (keep_error o)
    kept-InResult none p = p
    kept-InResult (some (dec, s, none)) p = p
    kept-InResult (some (dec, s, some e)) p = p

    pub decode-InResult :
        (block : List ℕ) (dec : Decoder) (s : S)
        → dec.error ≡ none
        → dec.size_changed ≡ false
        → P s
        → InResult P handle keeps (decode (some handle) limit block dec s)
    unfolding decode
    decode-InResult [] dec s no_error still p = p
    decode-InResult (x ∷ block) dec s no_error still p =
        let dec0 = record dec { b = [] } in
        let input = dec.b ++ (x ∷ block) in
        rw (decode-whole_loop (some handle) limit x block dec s no_error still) (
          kept-InResult (whole_loop (some handle) limit input dec0 s)
            (fields_loop-InResult P handle keeps (length input) limit input dec0 s p))
