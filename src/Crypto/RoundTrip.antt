-- ===== src/Crypto/RoundTrip.antt =====
-- What was encrypted is decrypted, and what is too short is refused.
use shadraw.Base.{
  ◌≡◌, refl, sym, false, ◌++◌, ok, ltb, arith, length, length-append, take-append, drop-append,
}
use shadraw.Crypto.{Bytes, Aead, encrypt, decrypt}

sealed-decrypt :
    (aead : Aead) (fresh plain : Bytes)
    → length fresh ≡ aead.nonce_size
    → decrypt aead (fresh ++ aead.seal fresh plain) ≡ ok plain
unfolding decrypt
sealed-decrypt aead fresh plain e =
    let long : ltb (length (fresh ++ aead.seal fresh plain)) aead.nonce_size ≡ false =
      ground (arith, length-append fresh (aead.seal fresh plain)) in
    rw
      (
        long,
        take-append aead.nonce_size fresh (aead.seal fresh plain) (sym e),
        drop-append aead.nonce_size fresh (aead.seal fresh plain) (sym e),
        aead.open-seal fresh plain e,
      )
      refl

-- Decrypting with the same key gives back what was encrypted, for a nonce of the cipher's size.
pub encrypt-decrypt :
    (aead : Aead) (fresh plain : Bytes) {blob : Bytes}
    → length fresh ≡ aead.nonce_size
    → encrypt aead (ok fresh) plain ≡ ok blob
    → decrypt aead blob ≡ ok plain
unfolding encrypt
encrypt-decrypt aead fresh plain {blob} e h =
    let same : fresh ++ aead.seal fresh plain ≡ blob = cc in
    rw (← same) (sealed-decrypt aead fresh plain e)
