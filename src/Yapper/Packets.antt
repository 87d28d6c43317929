-- ===== src/Yapper/Packets.antt =====
-- yapper/src/lib.rs: `send_thing`, `recv_thing`, `recv_packet`: one message on the stream, with padding,
-- encryption and its length in front. The crates ende and openssl are parameters.
pub mod RoundTrip
use mind_craft.Base.{
  ℕ, zero, suc, ◌+◌, ◌-◌, ◌*◌, ◌/◌, ◌%◌, ◌^◌, Text, codes, length, take, drop, replicate, ltb, Bool,
  true, false, Option, none, some, List, [], ◌∷◌, ◌++◌, Result, ok, err, panic, diverge, Error,
  ok_or, ◌>>=◌, if◌then◌else◌,
}

-- What the protocol uses of ende for messages of a type, and of AES-128-CBC: `decode` reads a message
-- from the front of some bytes; `encrypt` and `decrypt` fail where the crate reports an error.
pub record Codec (T : Type 0) : Type 0 where
  pub encode : T → Option (List ℕ)
  pub decode : List ℕ → Option T

pub record Cipher : Type 0 where
  pub encrypt : List ℕ → List ℕ → Option (List ℕ)
  pub decrypt : List ℕ → List ℕ → Option (List ℕ)

-- Zeros up to a multiple of 16, and at least one.
unfoldable pub pad : List ℕ → List ℕ
pad vec = vec ++ replicate (16 - length vec % 16) 0

-- `(len as u32).to_be_bytes()`.
unfoldable pub be_bytes : ℕ → List ℕ
be_bytes n = n / 2 ^ 24 % 256 ∷ n / 2 ^ 16 % 256 ∷ n / 2 ^ 8 % 256 ∷ n % 256 ∷ []

-- `u32::from_be_bytes`.
unfoldable pub from_be : List ℕ → ℕ
from_be (a ∷ b ∷ c ∷ d ∷ []) = ((a * 256 + b) * 256 + c) * 256 + d
from_be _ = 0

-- `read_exact`: the bytes and the rest of the stream, if there are enough.
unfoldable pub read_exact : ℕ → List ℕ → Result (List ℕ × List ℕ)
read_exact n stream =
    if ltb (length stream) n
    then err "failed to fill whole buffer"
    else ok (take n stream, drop n stream)

module _ {T : Type 0} (codec : Codec T) (cipher : Cipher) where
  -- What is written to the stream, with the random bytes of the IV.
  unfoldable pub send_thing : List ℕ → T → Result (List ℕ)
  send_thing iv t = do
    vec ← ok_or (codec.encode t) "encode"
    output_crypt ← ok_or (cipher.encrypt iv (pad vec)) "encrypt"
    ok (iv ++ (be_bytes (length output_crypt) ++ output_crypt))

  -- The message at the front of the stream, and the rest of the stream.
  unfoldable pub recv_thing : List ℕ → Result (T × List ℕ)
  recv_thing stream = do
    (iv, after_iv) ← read_exact 16 stream
    (len, after_len) ← read_exact 4 after_iv
    (vec, rest) ← read_exact (from_be len) after_len
    decrypted_vec ← ok_or (cipher.decrypt iv vec) "decrypt"
    decoded ← ok_or (codec.decode decrypted_vec) "decode"
    ok (decoded, rest)
