-- ===== src/Crypto.antt =====
-- internal/crypto/aesgcm.go: the encryption of the upstream key at rest, and its masked display.
-- Bytes are numbers. AES-GCM, base64 and the random source are parameters.
pub mod RoundTrip
pub mod Masking
pub mod Tests
use shadraw.Base.{
  ℕ, ◌-◌, String, ◌≡◌, Bool, not, List, [], ◌∷◌, ◌++◌, Result, ok, err, ltb, ◌==◌, length, take,
  drop, if◌then◌else◌,
}

abbrev pub Bytes : Type 0
Bytes = List ℕ

-- `cipher.AEAD` without additional data: what was sealed is opened with the same nonce.
pub record Aead : Type 0 where
  pub nonce_size : ℕ
  pub seal : Bytes → Bytes → Bytes
  pub open_sealed : Bytes → Bytes → Result String Bytes
  pub open-seal :
      (nonce plain : Bytes)
      → length nonce ≡ nonce_size
      → open_sealed nonce (seal nonce plain) ≡ ok plain

pub data Error : Type 0 where
  not_base64 : String → Error
  wrong_key_length : ℕ → Error
  cipher nonce open_failed : String → Error
  too_short : Error

abbrev pub with_key : (Bytes → Result String Aead) → Result String Bytes → Result Error Aead
with_key gcm (err text) = err (not_base64 text)
with_key gcm (ok key) =
    if length key == 32
    then (elim (gcm key) [ ok aead ↦ ok aead | err text ↦ err (cipher text) ])
    else err (wrong_key_length (length key))

unfoldable pub new :
    (String → Result String Bytes) → (Bytes → Result String Aead) → String → Result Error Aead
new decode gcm master_key = with_key gcm (decode master_key)

-- The first argument is what the random source gave for the nonce.
unfoldable pub encrypt : Aead → Result String Bytes → Bytes → Result Error Bytes
encrypt aead (err text) plain = err (nonce text)
encrypt aead (ok fresh) plain = ok (fresh ++ aead.seal fresh plain)

abbrev pub opened : Result String Bytes → Result Error Bytes
opened (ok plain) = ok plain
opened (err text) = err (open_failed text)

unfoldable pub decrypt : Aead → Bytes → Result Error Bytes
decrypt aead blob =
    if ltb (length blob) aead.nonce_size
    then err too_short
    else opened (aead.open_sealed (take aead.nonce_size blob) (drop aead.nonce_size blob))

-- `***`
abbrev pub stars : Bytes
stars = 42 ∷ 42 ∷ 42 ∷ []

unfoldable pub mask_api_key : Bytes → Bytes
mask_api_key plain =
    if ltb (length plain) 12 then stars else take 4 plain ++ stars ++ drop (length plain - 4) plain
