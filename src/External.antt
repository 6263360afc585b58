-- ===== src/External.antt =====
-- The functions of src/ext that the protocol calls: BLAKE3, libfec's Reed-Solomon coder and the
-- Golay coder of gr-satellites. These are copies of other projects' code, so that they are
-- parameters: a node is modelled for any such functions.
use skylink.Base.{ℕ, Option, List}

-- In `blake3_keyed` the key, the bytes and the length of the output; in `encode_rs_8` the bytes
-- and their number of missing bytes, for the parity bytes; in `decode_rs_8` the block and that
-- number, for the number of corrected bytes, or `none` for -1, and the block that is left. The
-- Golay coder works on a word, and `none` stands for a failure.
pub record External : Type 0 where
  pub blake3_keyed : List ℕ → List ℕ → ℕ → List ℕ
  pub encode_rs_8 : List ℕ → ℕ → List ℕ
  pub decode_rs_8 : List ℕ → ℕ → Option ℕ × List ℕ
  pub encode_golay24 : ℕ → ℕ
  pub decode_golay24 : ℕ → Option ℕ
