-- ===== src/Hpack/Decode/Dispatch.antt =====
-- hpack/hpack.go: the `switch` of `decode` over the first byte.
use http.Prelude.{ℕ, ◌+◌, ◌^◌, ◌≤◌, ◌<◌, ◌≡◌, refl, arith, every_from, every_from_lem}
use http.Prelude.{Bool, true, not, ◌&&◌, ◌==◌, bit_and, List, Option, some}
use http.Hpack.Literal.{
  IndexType, indexed_true, indexed_false, indexed_never, literal_mask, literal_prefix,
}
use http.Hpack.Decoder.{Decoder}
use http.Hpack.Decode.{
  Handler, dec_indexed, dec_literal, dec_dynamic_table_size_update, decode_field,
}

abbrev indexed_test : ℕ → Bool
indexed_test b = not (bit_and b 128 == 0)

abbrev literal_test : IndexType → ℕ → Bool
literal_test indexed_true b = (bit_and b 128 == 0) && (bit_and b 192 == 64)
literal_test indexed_false b =
    (bit_and b 128 == 0) && (not (bit_and b 192 == 64) && (bit_and b 240 == 0))
literal_test indexed_never b =
    (bit_and b 128 == 0)
    && (not (bit_and b 192 == 64) && (not (bit_and b 240 == 0) && (bit_and b 240 == 16)))

abbrev update_test : ℕ → Bool
update_test b =
    (bit_and b 128 == 0)
    && (not (bit_and b 192 == 64)
        && (not (bit_and b 240 == 0) && (not (bit_and b 240 == 16) && (bit_and b 224 == 32))))

indexed_passes : every_from indexed_test 128 128 ≡ true
unfolding every_from
indexed_passes = refl

literal_passes :
    (ty : IndexType) → every_from (literal_test ty) (literal_mask ty) (2 ^ literal_prefix ty) ≡ true
unfolding every_from
literal_passes indexed_true = refl
literal_passes indexed_false = refl
literal_passes indexed_never = refl

update_passes : every_from update_test 32 32 ≡ true
unfolding every_from
update_passes = refl

module _ {ℓ} {S : Type ℓ} (handle : Option (Handler S)) (b : ℕ) (input : List ℕ) (dec : Decoder)
    (s : S) where
  pub decode_field-indexed :
      128 ≤ b → b < 256 → decode_field handle b input dec s ≡ some (dec_indexed handle input dec s)
  unfolding decode_field
  decode_field-indexed lo hi =
      let test = every_from_lem indexed_test 128 128 b indexed_passes lo (omega arith) in
      rw test refl

  pub decode_field-literal :
      (ty : IndexType)
      → literal_mask ty ≤ b
      → b < literal_mask ty + 2 ^ literal_prefix ty
      → decode_field handle b input dec s ≡ dec_literal handle ty input dec s
  unfolding decode_field
  decode_field-literal indexed_true lo hi =
      let test =
        every_from_lem (literal_test indexed_true) 64 64 b (literal_passes indexed_true) lo
          (omega arith) in
      ground arith
  decode_field-literal indexed_false lo hi =
      let test =
        every_from_lem (literal_test indexed_false) 0 16 b (literal_passes indexed_false) lo
          (omega arith) in
      ground arith
  decode_field-literal indexed_never lo hi =
      let test =
        every_from_lem (literal_test indexed_never) 16 16 b (literal_passes indexed_never) lo
          (omega arith) in
      ground arith

  pub decode_field-update :
      32 ≤ b
      → b < 64
      → decode_field handle b input dec s ≡ dec_dynamic_table_size_update input dec s
  unfolding decode_field
  decode_field-update lo hi =
      let test = every_from_lem update_test 32 32 b update_passes lo (omega arith) in ground arith
