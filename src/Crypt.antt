-- ===== src/Crypt.antt =====
-- The encryption and the limited hash of src/cryptowrapper.cpp.
pub mod Laws
use peerpaste.Base.{
  ltb, ◌==◌, if◌then◌else◌, length, take, replicate, Bytes, ℕ, ◌-◌, ◌%◌, Option, none, some,
}

-- libsodium's secret box, without its laws.
pub record SecretBox : Type 0 where
  pub key_bytes : ℕ
  pub nonce_bytes : ℕ
  pub mac_bytes : ℕ
  pub easy : Bytes → Bytes → Bytes → Bytes  -- message, nonce, key
  pub open_easy : Bytes → Bytes → Bytes → Option Bytes  -- box, nonce, key

-- A key that is too short is read behind its end.
abbrev pub key_of : SecretBox → Bytes → Option Bytes
key_of box key_str =
    if ltb (length key_str) box.key_bytes then none else some (take box.key_bytes key_str)

abbrev pub nonce_of : SecretBox → Bytes
nonce_of box = replicate box.nonce_bytes 0

unfoldable pub encrypt : SecretBox → Bytes → Bytes → Option Bytes
encrypt box key_str data_str = elim (key_of box key_str) [
  | none ↦ none
  | some key ↦ some (box.easy data_str (nonce_of box) key)
]

-- What cannot be opened is logged, and the array `decrypted` is given back as it is: `uninitialised`
-- tells which bytes an array of a size then has. An array of a negative size is undefined.
unfoldable pub open_box : SecretBox → (ℕ → Bytes) → Bytes → Bytes → Option Bytes
open_box box uninitialised ciphertext key =
    if ltb (length ciphertext) box.mac_bytes
    then none
    else elim (box.open_easy ciphertext (nonce_of box) key) [
      | none ↦ some (uninitialised (length ciphertext - box.mac_bytes))
      | some message ↦ some message
    ]

unfoldable pub decrypt : SecretBox → (ℕ → Bytes) → Bytes → Bytes → Option Bytes
unfolding open_box
decrypt box uninitialised key_str data_str = elim (key_of box key_str) [
  | none ↦ none
  | some key ↦ open_box box uninitialised data_str key
]

-- `std::hash` is a parameter. A limit of zero divides by it.
unfoldable pub generate_limited_hash : (Bytes → ℕ) → Bytes → ℕ → Option ℕ
generate_limited_hash hash bytes limit = if limit == 0 then none else some (hash bytes % limit)
