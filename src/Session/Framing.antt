-- ===== src/Session/Framing.antt =====
-- The header of a frame gives back the length.
use peerpaste.Base.{
  ltb, length, Bytes, ℕ, suc, ◌+◌, ◌*◌, ◌%◌, ◌<◌, ◌≡◌, refl, ◌∙◌, false, ◌∷◌, ◌++◌, arith,
}
use peerpaste.Session.{header_size, u32_mod, encode_header, decode_loop, decode_header}

decode_loop-four :
    (a b c d : ℕ) (rest : Bytes)
    → a < 256
    → b < 256
    → c < 256
    → d < 256
    → decode_loop header_size 0 (a ∷ b ∷ c ∷ d ∷ rest) ≡ a * 16777216 + b * 65536 + c * 256 + d
unfolding decode_loop
decode_loop-four a b c d rest h k l m = omega arith

decode_header-long :
    (a b c d : ℕ) (rest : Bytes)
    → decode_header (a ∷ b ∷ c ∷ d ∷ rest) ≡ decode_loop header_size 0 (a ∷ b ∷ c ∷ d ∷ rest)
unfolding decode_header
decode_header-long a b c d rest = rw (long (length rest))
  where
    long : (n : ℕ) → ltb (suc (suc (suc (suc n)))) header_size ≡ false
    long n = ground arith

-- Decoding what was encoded gives the length back, cut to 32 bits; what follows the header in the
-- buffer does not matter.
pub decode_header-encode_header :
    (size : ℕ) (rest : Bytes) → decode_header (encode_header size ++ rest) ≡ size % u32_mod
unfolding encode_header
decode_header-encode_header size rest =
    decode_header-long _ _ _ _ rest
    ∙ decode_loop-four _ _ _ _ rest (omega arith) (omega arith) (omega arith) (omega arith)
    ∙ omega arith

pub length-encode_header : (size : ℕ) → length (encode_header size) ≡ header_size
unfolding encode_header
length-encode_header size = refl
