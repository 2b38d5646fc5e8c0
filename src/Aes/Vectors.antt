-- ===== src/Aes/Vectors.antt =====
-- `VECTORS` and `run_vectors` of modules/aes/bench/aes_benchmark.py, without what is printed.
use risc_v_so_c.Base.{ℕ, suc, if◌then◌else◌, Option, some, List, [], ◌∷◌, replicate}
use risc_v_so_c.Base.Text.{Text, codes, text_eq}
use risc_v_so_c.Base.Options.{◌>>=◌}
use risc_v_so_c.Aes.{aes128_encrypt}

pub record Vector : Type 0 where
  pub name : Text
  pub key : List ℕ
  pub plain : List ℕ
  pub ctxt : List ℕ

abbrev pub vectors : List Vector
vectors =
    record {
      name = codes "FIPS 197 Appendix B";
      key =
          0x2b ∷ 0x7e ∷ 0x15 ∷ 0x16 ∷ 0x28 ∷ 0xae ∷ 0xd2 ∷ 0xa6 ∷ 0xab ∷ 0xf7 ∷ 0x15 ∷ 0x88 ∷ 0x09
          ∷ 0xcf ∷ 0x4f ∷ 0x3c ∷ [];
      plain =
          0x32 ∷ 0x43 ∷ 0xf6 ∷ 0xa8 ∷ 0x88 ∷ 0x5a ∷ 0x30 ∷ 0x8d ∷ 0x31 ∷ 0x31 ∷ 0x98 ∷ 0xa2 ∷ 0xe0
          ∷ 0x37 ∷ 0x07 ∷ 0x34 ∷ [];
      ctxt =
          0x39 ∷ 0x25 ∷ 0x84 ∷ 0x1d ∷ 0x02 ∷ 0xdc ∷ 0x09 ∷ 0xfb ∷ 0xdc ∷ 0x11 ∷ 0x85 ∷ 0x97 ∷ 0x19
          ∷ 0x6a ∷ 0x0b ∷ 0x32 ∷ [];
    }
    ∷ record {
      name = codes "FIPS 197 C.1 key (OpenSSL verified)";
      key =
          0x00 ∷ 0x01 ∷ 0x02 ∷ 0x03 ∷ 0x04 ∷ 0x05 ∷ 0x06 ∷ 0x07 ∷ 0x08 ∷ 0x09 ∷ 0x0a ∷ 0x0b ∷ 0x0c
          ∷ 0x0d ∷ 0x0e ∷ 0x0f ∷ [];
      plain =
          0x00 ∷ 0x11 ∷ 0x22 ∷ 0x33 ∷ 0x44 ∷ 0x55 ∷ 0x66 ∷ 0x77 ∷ 0x88 ∷ 0x99 ∷ 0xaa ∷ 0xbb ∷ 0xcc
          ∷ 0xdd ∷ 0xee ∷ 0xff ∷ [];
      ctxt =
          0x69 ∷ 0xc4 ∷ 0xe0 ∷ 0xd8 ∷ 0x6a ∷ 0x7b ∷ 0x04 ∷ 0x30 ∷ 0xd8 ∷ 0xcd ∷ 0xb7 ∷ 0x80 ∷ 0x70
          ∷ 0xb4 ∷ 0xc5 ∷ 0x5a ∷ [];
    }
    ∷ record {
      name = codes "All-zero key and plaintext";
      key = replicate 16 0;
      plain = replicate 16 0;
      ctxt =
          0x66 ∷ 0xe9 ∷ 0x4b ∷ 0xd4 ∷ 0xef ∷ 0x8a ∷ 0x2c ∷ 0x3b ∷ 0x88 ∷ 0x4c ∷ 0xfa ∷ 0x59 ∷ 0xca
          ∷ 0x34 ∷ 0x2b ∷ 0x2e ∷ [];
    }
    ∷ record {
      name = codes "NIST SP 800-38A F.1.1";
      key =
          0x2b ∷ 0x7e ∷ 0x15 ∷ 0x16 ∷ 0x28 ∷ 0xae ∷ 0xd2 ∷ 0xa6 ∷ 0xab ∷ 0xf7 ∷ 0x15 ∷ 0x88 ∷ 0x09
          ∷ 0xcf ∷ 0x4f ∷ 0x3c ∷ [];
      plain =
          0x6b ∷ 0xc1 ∷ 0xbe ∷ 0xe2 ∷ 0x2e ∷ 0x40 ∷ 0x9f ∷ 0x96 ∷ 0xe9 ∷ 0x3d ∷ 0x7e ∷ 0x11 ∷ 0x73
          ∷ 0x93 ∷ 0x17 ∷ 0x2a ∷ [];
      ctxt =
          0x3a ∷ 0xd7 ∷ 0x7b ∷ 0xb4 ∷ 0x0d ∷ 0x7a ∷ 0x36 ∷ 0x60 ∷ 0xa8 ∷ 0x9e ∷ 0xca ∷ 0xf3 ∷ 0x24
          ∷ 0x66 ∷ 0xef ∷ 0x97 ∷ [];
    }
    ∷ []

-- The number of vectors whose ciphertext is another.
unfoldable pub run_vectors : List Vector → Option ℕ
unfolding text_eq
run_vectors [] = some 0
run_vectors (v ∷ vs) = do
  result ← aes128_encrypt v.plain v.key
  failures ← run_vectors vs
  some (if text_eq result v.ctxt then failures else suc failures)
