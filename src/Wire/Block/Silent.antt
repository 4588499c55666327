-- ===== src/Wire/Block/Silent.antt =====
-- write.go: a header block without another key than the pseudo-header fields.
use http.Prelude.{ℕ, ◌-◌, ◌<◌, ◌≡◌, ap, ◌∙◌, arith, All, false, ◌==◌}
use http.Prelude.{List, [], none, some}
use http.Frame.Frames.{Header}
use http.Headers.{header_len}
use http.Hpack.Encoder.{Encoder}
use http.Hpack.Table.Eviction.{IsValid}
use http.Hpack.Sync.Blocks.{Allowed, Encodes, encode_fields, encode_fields_code}
use http.Wire.Block.{
  Lead, BlockState, BlockWriter, ◌>>=◌, values_at, keys_loop, pseudo_loop, written_block,
  write_block,
}
use http.Wire.Block.Keys.{regular_len, MaySend, encoded, no_fields, keys_loop_idle}
use mathlib.Core.Path.{subst}
use http.Wire.Block.Whole.{IsSingle, block_fields, pseudo_len, pseudo_loop-Encoded}

-- Where a header map has fields, but none other than pseudo-header fields, with one value each, of
-- bytes with sizes of 32 bits, and the writer has a valid header table, with a bound below 2 ^ 31
-- and no change of it to announce, and no limit for the header list, nothing is sent of the HEADERS
-- or PUSH_PROMISE frame and no error is returned, though the encoder has encoded the fields.
pub write_block_silent :
    (unicode : List ℕ → List ℕ) (pseudo : List (List ℕ)) (k : Lead) (h : Header) (b : BlockWriter)
    (enc' : Encoder) (block : List ℕ)
    → All (λ key. IsSingle (values_at key h)) pseudo
    → All MaySend h
    → regular_len h ≡ 0
    → 0 < header_len h
    → b.max_header_list_size ≡ 0
    → IsValid b.encoder.table
    → b.encoder.size_changed ≡ false
    → All Allowed (block_fields unicode pseudo h)
    → encode_fields b.encoder [] (block_fields unicode pseudo h) ≡ some (enc', block)
    → write_block unicode pseudo k h b ≡ some (record b { encoder = enc' }, none)
unfolding write_block
write_block_silent unicode pseudo k h b enc' block single may only some_value no_limit valid
      unchanged allowed encoded_as =
    let codes : Encodes b.encoder (block_fields unicode pseudo h) enc' block =
      encode_fields_code b.encoder enc' (block_fields unicode pseudo h) block valid unchanged
        allowed encoded_as in
    let s : BlockState = record {
      writer = b.writer;
      encoder = b.encoder;
      buf = [];
      written = 0;
      remaining = header_len h;
      first_sent = false;
    } in
    let (enc1, code, rest, written, run, parts, later) =
      pseudo_loop-Encoded h pseudo _ s enc' block single codes in
    let s1 = encoded s enc1 code written (header_len h - pseudo_len h pseudo) in
    let (same, empty) =
      subst (λ fs. Encodes enc1 fs enc' rest) (no_fields unicode h may only) later in
    let more : (header_len h == 0) ≡ false = ground (arith, some_value) in
    rw more (
      ap (λ limit. written_block b (pseudo_loop h pseudo s >>= keys_loop unicode k limit h))
        no_limit
      ∙ ap (λ r. written_block b (r >>= keys_loop unicode k 0 h)) run
      ∙ ap (written_block b) (keys_loop_idle unicode k h s1 may only)
      ∙ ap (λ e. some (record b { encoder = e }, none)) same)
