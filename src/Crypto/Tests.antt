-- ===== src/Crypto/Tests.antt =====
-- A cipher that hides nothing, with a nonce of two bytes, and a masked key.
use shadraw.Base.{◌≡◌, refl, ok, [], ◌∷◌}
use shadraw.Crypto.{Bytes, Aead, encrypt, decrypt}
use shadraw.Crypto.RoundTrip.{encrypt-decrypt}

abbrev pub plain_aead : Aead
plain_aead = record {
  nonce_size = 2;
  seal = λ fresh plain. plain;
  open_sealed = λ fresh blob. ok blob;
  open-seal = λ fresh plain e. refl;
}

seals : encrypt plain_aead (ok (7 ∷ 8 ∷ [])) (115 ∷ 107 ∷ []) ≡ ok (7 ∷ 8 ∷ 115 ∷ 107 ∷ [])
unfolding encrypt
seals = refl

encrypt-decrypt_example : decrypt plain_aead (7 ∷ 8 ∷ 115 ∷ 107 ∷ []) ≡ ok (115 ∷ 107 ∷ [])
encrypt-decrypt_example = encrypt-decrypt plain_aead (7 ∷ 8 ∷ []) (115 ∷ 107 ∷ []) refl seals

abbrev front : Bytes
front = 115 ∷ 107 ∷ 45 ∷ 49 ∷ []

abbrev back : Bytes
back = 97 ∷ 98 ∷ 99 ∷ 100 ∷ []
