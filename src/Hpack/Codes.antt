-- ===== src/Hpack/Codes.antt =====
-- hpack/huffman.go: the code of every byte, and of the end of the string behind them.
use http.Prelude.{ℕ, List, [], ◌∷◌}

pub record HuffmanCode : Type 0 where
  pub code : ℕ
  pub bits : ℕ

abbrev pub huffman : ℕ → ℕ → HuffmanCode
huffman code bits = record { code = code; bits = bits }

-- The codes of the bytes below 128.
unfoldable pub ascii_codes : List HuffmanCode
ascii_codes =
    huffman 0x1ff8 13
    ∷ huffman 0x7fffd8 23
    ∷ huffman 0xfffffe2 28
    ∷ huffman 0xfffffe3 28
    ∷ huffman 0xfffffe4 28
    ∷ huffman 0xfffffe5 28
    ∷ huffman 0xfffffe6 28
    ∷ huffman 0xfffffe7 28
    ∷ huffman 0xfffffe8 28
    ∷ huffman 0xffffea 24
    ∷ huffman 0x3ffffffc 30
    ∷ huffman 0xfffffe9 28
    ∷ huffman 0xfffffea 28
    ∷ huffman 0x3ffffffd 30
    ∷ huffman 0xfffffeb 28
    ∷ huffman 0xfffffec 28
    ∷ huffman 0xfffffed 28
    ∷ huffman 0xfffffee 28
    ∷ huffman 0xfffffef 28
    ∷ huffman 0xffffff0 28
    ∷ huffman 0xffffff1 28
    ∷ huffman 0xffffff2 28
    ∷ huffman 0x3ffffffe 30
    ∷ huffman 0xffffff3 28
    ∷ huffman 0xffffff4 28
    ∷ huffman 0xffffff5 28
    ∷ huffman 0xffffff6 28
    ∷ huffman 0xffffff7 28
    ∷ huffman 0xffffff8 28
    ∷ huffman 0xffffff9 28
    ∷ huffman 0xffffffa 28
    ∷ huffman 0xffffffb 28
    ∷ huffman 0x14 6
    ∷ huffman 0x3f8 10
    ∷ huffman 0x3f9 10
    ∷ huffman 0xffa 12
    ∷ huffman 0x1ff9 13
    ∷ huffman 0x15 6
    ∷ huffman 0xf8 8
    ∷ huffman 0x7fa 11
    ∷ huffman 0x3fa 10
    ∷ huffman 0x3fb 10
    ∷ huffman 0xf9 8
    ∷ huffman 0x7fb 11
    ∷ huffman 0xfa 8
    ∷ huffman 0x16 6
    ∷ huffman 0x17 6
    ∷ huffman 0x18 6
    ∷ huffman 0x0 5
    ∷ huffman 0x1 5
    ∷ huffman 0x2 5
    ∷ huffman 0x19 6
    ∷ huffman 0x1a 6
    ∷ huffman 0x1b 6
    ∷ huffman 0x1c 6
    ∷ huffman 0x1d 6
    ∷ huffman 0x1e 6
    ∷ huffman 0x1f 6
    ∷ huffman 0x5c 7
    ∷ huffman 0xfb 8
    ∷ huffman 0x7ffc 15
    ∷ huffman 0x20 6
    ∷ huffman 0xffb 12
    ∷ huffman 0x3fc 10
    ∷ huffman 0x1ffa 13
    ∷ huffman 0x21 6
    ∷ huffman 0x5d 7
    ∷ huffman 0x5e 7
    ∷ huffman 0x5f 7
    ∷ huffman 0x60 7
    ∷ huffman 0x61 7
    ∷ huffman 0x62 7
    ∷ huffman 0x63 7
    ∷ huffman 0x64 7
    ∷ huffman 0x65 7
    ∷ huffman 0x66 7
    ∷ huffman 0x67 7
    ∷ huffman 0x68 7
    ∷ huffman 0x69 7
    ∷ huffman 0x6a 7
    ∷ huffman 0x6b 7
    ∷ huffman 0x6c 7
    ∷ huffman 0x6d 7
    ∷ huffman 0x6e 7
    ∷ huffman 0x6f 7
    ∷ huffman 0x70 7
    ∷ huffman 0x71 7
    ∷ huffman 0x72 7
    ∷ huffman 0xfc 8
    ∷ huffman 0x73 7
    ∷ huffman 0xfd 8
    ∷ huffman 0x1ffb 13
    ∷ huffman 0x7fff0 19
    ∷ huffman 0x1ffc 13
    ∷ huffman 0x3ffc 14
    ∷ huffman 0x22 6
    ∷ huffman 0x7ffd 15
    ∷ huffman 0x3 5
    ∷ huffman 0x23 6
    ∷ huffman 0x4 5
    ∷ huffman 0x24 6
    ∷ huffman 0x5 5
    ∷ huffman 0x25 6
    ∷ huffman 0x26 6
    ∷ huffman 0x27 6
    ∷ huffman 0x6 5
    ∷ huffman 0x74 7
    ∷ huffman 0x75 7
    ∷ huffman 0x28 6
    ∷ huffman 0x29 6
    ∷ huffman 0x2a 6
    ∷ huffman 0x7 5
    ∷ huffman 0x2b 6
    ∷ huffman 0x76 7
    ∷ huffman 0x2c 6
    ∷ huffman 0x8 5
    ∷ huffman 0x9 5
    ∷ huffman 0x2d 6
    ∷ huffman 0x77 7
    ∷ huffman 0x78 7
    ∷ huffman 0x79 7
    ∷ huffman 0x7a 7
    ∷ huffman 0x7b 7
    ∷ huffman 0x7ffe 15
    ∷ huffman 0x7fc 11
    ∷ huffman 0x3ffd 14
    ∷ huffman 0x1ffd 13
    ∷ huffman 0xffffffc 28
    ∷ []

-- The codes of the other bytes, and the end of the string.
unfoldable pub other_codes : List HuffmanCode
other_codes =
    huffman 0xfffe6 20
    ∷ huffman 0x3fffd2 22
    ∷ huffman 0xfffe7 20
    ∷ huffman 0xfffe8 20
    ∷ huffman 0x3fffd3 22
    ∷ huffman 0x3fffd4 22
    ∷ huffman 0x3fffd5 22
    ∷ huffman 0x7fffd9 23
    ∷ huffman 0x3fffd6 22
    ∷ huffman 0x7fffda 23
    ∷ huffman 0x7fffdb 23
    ∷ huffman 0x7fffdc 23
    ∷ huffman 0x7fffdd 23
    ∷ huffman 0x7fffde 23
    ∷ huffman 0xffffeb 24
    ∷ huffman 0x7fffdf 23
    ∷ huffman 0xffffec 24
    ∷ huffman 0xffffed 24
    ∷ huffman 0x3fffd7 22
    ∷ huffman 0x7fffe0 23
    ∷ huffman 0xffffee 24
    ∷ huffman 0x7fffe1 23
    ∷ huffman 0x7fffe2 23
    ∷ huffman 0x7fffe3 23
    ∷ huffman 0x7fffe4 23
    ∷ huffman 0x1fffdc 21
    ∷ huffman 0x3fffd8 22
    ∷ huffman 0x7fffe5 23
    ∷ huffman 0x3fffd9 22
    ∷ huffman 0x7fffe6 23
    ∷ huffman 0x7fffe7 23
    ∷ huffman 0xffffef 24
    ∷ huffman 0x3fffda 22
    ∷ huffman 0x1fffdd 21
    ∷ huffman 0xfffe9 20
    ∷ huffman 0x3fffdb 22
    ∷ huffman 0x3fffdc 22
    ∷ huffman 0x7fffe8 23
    ∷ huffman 0x7fffe9 23
    ∷ huffman 0x1fffde 21
    ∷ huffman 0x7fffea 23
    ∷ huffman 0x3fffdd 22
    ∷ huffman 0x3fffde 22
    ∷ huffman 0xfffff0 24
    ∷ huffman 0x1fffdf 21
    ∷ huffman 0x3fffdf 22
    ∷ huffman 0x7fffeb 23
    ∷ huffman 0x7fffec 23
    ∷ huffman 0x1fffe0 21
    ∷ huffman 0x1fffe1 21
    ∷ huffman 0x3fffe0 22
    ∷ huffman 0x1fffe2 21
    ∷ huffman 0x7fffed 23
    ∷ huffman 0x3fffe1 22
    ∷ huffman 0x7fffee 23
    ∷ huffman 0x7fffef 23
    ∷ huffman 0xfffea 20
    ∷ huffman 0x3fffe2 22
    ∷ huffman 0x3fffe3 22
    ∷ huffman 0x3fffe4 22
    ∷ huffman 0x7ffff0 23
    ∷ huffman 0x3fffe5 22
    ∷ huffman 0x3fffe6 22
    ∷ huffman 0x7ffff1 23
    ∷ huffman 0x3ffffe0 26
    ∷ huffman 0x3ffffe1 26
    ∷ huffman 0xfffeb 20
    ∷ huffman 0x7fff1 19
    ∷ huffman 0x3fffe7 22
    ∷ huffman 0x7ffff2 23
    ∷ huffman 0x3fffe8 22
    ∷ huffman 0x1ffffec 25
    ∷ huffman 0x3ffffe2 26
    ∷ huffman 0x3ffffe3 26
    ∷ huffman 0x3ffffe4 26
    ∷ huffman 0x7ffffde 27
    ∷ huffman 0x7ffffdf 27
    ∷ huffman 0x3ffffe5 26
    ∷ huffman 0xfffff1 24
    ∷ huffman 0x1ffffed 25
    ∷ huffman 0x7fff2 19
    ∷ huffman 0x1fffe3 21
    ∷ huffman 0x3ffffe6 26
    ∷ huffman 0x7ffffe0 27
    ∷ huffman 0x7ffffe1 27
    ∷ huffman 0x3ffffe7 26
    ∷ huffman 0x7ffffe2 27
    ∷ huffman 0xfffff2 24
    ∷ huffman 0x1fffe4 21
    ∷ huffman 0x1fffe5 21
    ∷ huffman 0x3ffffe8 26
    ∷ huffman 0x3ffffe9 26
    ∷ huffman 0xffffffd 28
    ∷ huffman 0x7ffffe3 27
    ∷ huffman 0x7ffffe4 27
    ∷ huffman 0x7ffffe5 27
    ∷ huffman 0xfffec 20
    ∷ huffman 0xfffff3 24
    ∷ huffman 0xfffed 20
    ∷ huffman 0x1fffe6 21
    ∷ huffman 0x3fffe9 22
    ∷ huffman 0x1fffe7 21
    ∷ huffman 0x1fffe8 21
    ∷ huffman 0x7ffff3 23
    ∷ huffman 0x3fffea 22
    ∷ huffman 0x3fffeb 22
    ∷ huffman 0x1ffffee 25
    ∷ huffman 0x1ffffef 25
    ∷ huffman 0xfffff4 24
    ∷ huffman 0xfffff5 24
    ∷ huffman 0x3ffffea 26
    ∷ huffman 0x7ffff4 23
    ∷ huffman 0x3ffffeb 26
    ∷ huffman 0x7ffffe6 27
    ∷ huffman 0x3ffffec 26
    ∷ huffman 0x3ffffed 26
    ∷ huffman 0x7ffffe7 27
    ∷ huffman 0x7ffffe8 27
    ∷ huffman 0x7ffffe9 27
    ∷ huffman 0x7ffffea 27
    ∷ huffman 0x7ffffeb 27
    ∷ huffman 0xffffffe 28
    ∷ huffman 0x7ffffec 27
    ∷ huffman 0x7ffffed 27
    ∷ huffman 0x7ffffee 27
    ∷ huffman 0x7ffffef 27
    ∷ huffman 0x7fffff0 27
    ∷ huffman 0x3ffffee 26
    ∷ huffman 0x3fffffff 30
    ∷ []
