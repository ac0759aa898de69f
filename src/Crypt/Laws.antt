-- ===== src/Crypt/Laws.antt =====
-- What is left of a message that goes through `encrypt` and `decrypt`.
use peerpaste.Base.{
  length, take, Bytes, ℕ, zero, suc, ◌+◌, ◌%◌, ◌≤◌, ◌<◌, ◌≡◌, refl, sym, ap, ◌∙◌, ◌⊎◌, inl, inr,
  Option, none, some, arith,
}
use peerpaste.Crypt.{SecretBox, key_of, nonce_of, open_box, encrypt, decrypt, generate_limited_hash}

module _ (box : SecretBox) (uninitialised : ℕ → Bytes) where
  -- A box has its authentication in front of the message, and a box that was made with a key and a
  -- nonce opens with them.
  abbrev pub IsBoxed : Type 0
  IsBoxed =
      ((m nonce key : Bytes) → length (box.easy m nonce key) ≡ box.mac_bytes + length m)
      × ((m nonce key : Bytes) → box.open_easy (box.easy m nonce key) nonce key ≡ some m)

  key_of-take :
      (key : Bytes) → box.key_bytes ≤ length key → key_of box key ≡ some (take box.key_bytes key)
  key_of-take key h = ground arith

  open_box-easy :
      (m k : Bytes) → IsBoxed → open_box box uninitialised (box.easy m (nonce_of box) k) k ≡ some m
  unfolding open_box
  open_box-easy m k (long, opens) =
      ground (arith, long m (nonce_of box) k, opens m (nonce_of box) k)

  decrypt-key_of :
      (other a k : Bytes)
      → key_of box other ≡ some k
      → decrypt box uninitialised other a ≡ open_box box uninitialised a k
  unfolding decrypt
  decrypt-key_of other a k e = ap opened e
    where
      opened : Option Bytes → Option Bytes
      opened none = none
      opened (some x) = open_box box uninitialised a x

  -- What libsodium boxes is longer than the message by the authentication, and opens again with the
  -- same nonce and key. Then of two keys that are long enough and agree as far as they are read, one
  -- encrypts every message, and the other decrypts it again.
  pub decrypt-encrypt :
      (key other m : Bytes)
      → IsBoxed
      → box.key_bytes ≤ length key
      → box.key_bytes ≤ length other
      → take box.key_bytes key ≡ take box.key_bytes other
      → (a : Bytes) × (encrypt box key m ≡ some a) × (decrypt box uninitialised other a ≡ some m)
  unfolding encrypt decrypt
  decrypt-encrypt key other m boxed h k same = (
    box.easy m (nonce_of box) (take box.key_bytes key),
    ground (arith, key_of-take key h),
    decrypt-key_of other _ (take box.key_bytes key) (key_of-take other k ∙ ap some (sym same))
        ∙ open_box-easy m (take box.key_bytes key) boxed,
  )

-- A limited hash is below its limit, and there is one for every limit but zero.
pub generate_limited_hash-lt :
    (hash : Bytes → ℕ) (bytes : Bytes) (limit : ℕ)
    → ((generate_limited_hash hash bytes limit ≡ none) × (limit ≡ 0))
      ⊎ ((h : ℕ) × (generate_limited_hash hash bytes limit ≡ some h) × (h < limit))
unfolding generate_limited_hash
generate_limited_hash-lt hash bytes zero = inl (refl, refl)
generate_limited_hash-lt hash bytes (suc n) = inr (hash bytes % suc n, ground arith, grind arith)
