-- ===== src/Crypto/Masking.antt =====
-- What a masked key shows.
use shadraw.Base.{
  ◌+◌, ◌-◌, ◌≤◌, ◌≡◌, refl, sym, ap, false, [], ◌∷◌, ◌++◌, ltb, arith, length, drop, length-append,
  take-append, drop-append,
}
use shadraw.Crypto.{Bytes, stars, mask_api_key}

append_assoc : (a b c : Bytes) → (a ++ b) ++ c ≡ a ++ (b ++ c)
append_assoc [] b c = refl
append_assoc (x ∷ a) b c = ap (λ l. x ∷ l) (append_assoc a b c)

-- A masked key shows the four bytes at each end and nothing between them, not even how many there
-- are, if there are at least four.
pub mask_api_key-ends :
    (a middle b : Bytes)
    → length a ≡ 4
    → length b ≡ 4
    → 4 ≤ length middle
    → mask_api_key (a ++ (middle ++ b)) ≡ a ++ (stars ++ b)
unfolding mask_api_key
mask_api_key-ends a middle b ea eb em =
    let total : length (a ++ (middle ++ b)) ≡ length (a ++ middle) + 4 =
      omega
        (arith, length-append a (middle ++ b), length-append middle b, length-append a middle) in
    let front : length (a ++ (middle ++ b)) ≡ length a + (length middle + length b) =
      omega (arith, length-append a (middle ++ b), length-append middle b) in
    let long : ltb (length (a ++ (middle ++ b))) 12 ≡ false = ground arith in
    let last : drop (length (a ++ (middle ++ b)) - 4) (a ++ (middle ++ b)) ≡ b =
      rw (← append_assoc a middle b) (
        drop-append _ (a ++ middle) b
          (omega (arith, ap length (append_assoc a middle b), total))) in
    rw (long, take-append 4 a (middle ++ b) (sym ea), last) (append_assoc a stars b)
