-- ===== src/Yapper/Packets/RoundTrip.antt =====
-- yapper/src/lib.rs: a message that is sent is received.
use mind_craft.Base.{
  ℕ, ◌+◌, ◌-◌, ◌%◌, ◌^◌, ◌<◌, ◌≡◌, refl, ◌∙◌, ap, length, length-append, length-replicate,
  take-append_left, drop-append_left, Option, none, some, List, ◌++◌, append_assoc, ok, arith,
  Error, >>=-eq-ok, ok_or,
}
use mind_craft.Yapper.Packets.{
  Codec, Cipher, pad, be_bytes, from_be, read_exact, send_thing, recv_thing,
}

-- The padded length is a multiple of the block size.
pub pad-length : (vec : List ℕ) → length (pad vec) % 16 ≡ 0
unfolding pad
pad-length vec = rw (length-append, length-replicate {0}) (padded (length vec))
  where
    padded : (n : ℕ) → (n + (16 - n % 16)) % 16 ≡ 0
    padded n = omega arith

from_be-be_bytes : (n : ℕ) → n < 2 ^ 32 → from_be (be_bytes n) ≡ n
unfolding from_be be_bytes
from_be-be_bytes n h = omega arith

length-be_bytes : (n : ℕ) → length (be_bytes n) ≡ 4
unfolding be_bytes
length-be_bytes n = refl

read_exact-append : (xs ys : List ℕ) → read_exact (length xs) (xs ++ ys) ≡ ok (xs, ys)
unfolding read_exact
read_exact-append xs ys =
    ground (arith, length-append {0} xs ys, take-append_left {0} xs ys, drop-append_left {0} xs ys)

read_exact-front : (n : ℕ) (xs ys : List ℕ) → length xs ≡ n → read_exact n (xs ++ ys) ≡ ok (xs, ys)
read_exact-front n xs ys e = rw (← e) (read_exact-append xs ys)

ok_or-some : {A : Type 0} → (o : Option A) (e : Error) (a : A) → ok_or o e ≡ ok a → o ≡ some a
ok_or-some none e a h = absurd (ground arith)
ok_or-some (some b) e a h = ground arith

below :
    (iv secret bytes : List ℕ)
    → bytes ≡ iv ++ (be_bytes (length secret) ++ secret)
    → length bytes < 2 ^ 32
    → length secret < 2 ^ 32
below iv secret bytes shape short = ground (
  arith,
  ap length shape,
  length-append {0} iv (be_bytes (length secret) ++ secret),
  length-append {0} (be_bytes (length secret)) secret,
)

module _ {T : Type 0} (codec : Codec T) (cipher : Cipher)
    -- The crate decrypts what it encrypted.
    (decrypts : (iv plain secret : List ℕ)
      → cipher.encrypt iv plain ≡ some secret
      → cipher.decrypt iv secret ≡ some plain)
    -- A message is read from the front of the bytes, whatever follows.
    (decodes : (t : T) (vec more : List ℕ)
      → codec.encode t ≡ some vec
      → codec.decode (vec ++ more) ≡ some t) where
  send_thing-inv :
      (iv : List ℕ) (t : T) (bytes : List ℕ)
      → send_thing codec cipher iv t ≡ ok bytes
      → (vec : List ℕ) × (secret : List ℕ) × (codec.encode t ≡ some vec)
        × (cipher.encrypt iv (pad vec) ≡ some secret)
        × (bytes ≡ iv ++ (be_bytes (length secret) ++ secret))
  unfolding send_thing
  send_thing-inv iv t bytes h =
      let (vec, e1, h1) = >>=-eq-ok (ok_or (codec.encode t) _) _ h in
      let (secret, e2, h2) = >>=-eq-ok (ok_or (cipher.encrypt iv (pad vec)) _) _ h1 in
      (vec, secret, ok_or-some _ _ _ e1, ok_or-some _ _ _ e2, ground (arith, h2))

  recv_thing-parts :
      (iv secret more : List ℕ) (t : T) (plain : List ℕ)
      → length iv ≡ 16
      → length secret < 2 ^ 32
      → cipher.decrypt iv secret ≡ some plain
      → codec.decode plain ≡ some t
      → recv_thing codec cipher (iv ++ (be_bytes (length secret) ++ (secret ++ more)))
        ≡ ok (t, more)
  unfolding recv_thing
  recv_thing-parts iv secret more t plain full short d c =
      rw
        (
          read_exact-front 16 iv (be_bytes (length secret) ++ (secret ++ more)) full,
          read_exact-front 4 (be_bytes (length secret)) (secret ++ more)
              (length-be_bytes (length secret)),
          from_be-be_bytes (length secret) short,
          read_exact-front (length secret) secret more refl,
          d,
          c,
        )
        refl

  -- What is sent is received, and the rest of the stream stays, if the IV has 16 bytes and the
  -- encrypted message fewer than 2^32.
  pub recv_thing-send_thing :
      (iv : List ℕ) (t : T) (bytes more : List ℕ)
      → length iv ≡ 16
      → length bytes < 2 ^ 32
      → send_thing codec cipher iv t ≡ ok bytes
      → recv_thing codec cipher (bytes ++ more) ≡ ok (t, more)
  recv_thing-send_thing iv t bytes more full short h =
      let (vec, secret, e1, e2, shape) = send_thing-inv iv t bytes h in
      let size : length secret < 2 ^ 32 = below iv secret bytes shape short in
      ap (λ b. recv_thing codec cipher (b ++ more)) shape
      ∙ ap (recv_thing codec cipher) (
          append_assoc iv (be_bytes (length secret) ++ secret) more
          ∙ ap (λ b. iv ++ b) (append_assoc (be_bytes (length secret)) secret more))
      ∙ recv_thing-parts iv secret more t (pad vec) full size (decrypts iv (pad vec) secret e2)
          (unfold pad in decodes t vec _ e1)
