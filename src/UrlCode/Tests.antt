-- ===== src/UrlCode/Tests.antt =====
-- The encoders on short strings.
use funcodes.Prelude.{
  ◌<◌, ◌≢◌, false, ℕ, zero, suc, ◌≡◌, refl, true, List, [], ◌∷◌, none, some, load, arith,
}
use funcodes.UrlCode.{between, url_encode, convert_to_encode}
use funcodes.UrlCode.RoundTrip.{url_decode, url_encode-decode, convert_to_encode-decode}

-- "a " and the two bytes of a Chinese character
abbrev mixed : List ℕ
mixed = 97 ∷ 32 ∷ 214 ∷ 208 ∷ []

mixed_low : (k c : ℕ) → load mixed k ≡ some c → (c < 256) × (between 9 13 c ≡ false)
unfolding load
mixed_low zero c e = let f : 97 ≡ c = cc e in rw (← f) (omega arith, refl)
mixed_low (suc zero) c e = let f : 32 ≡ c = cc e in rw (← f) (omega arith, refl)
mixed_low (suc (suc zero)) c e = let f : 214 ≡ c = cc e in rw (← f) (omega arith, refl)
mixed_low (suc (suc (suc zero))) c e = let f : 208 ≡ c = cc e in rw (← f) (omega arith, refl)
mixed_low (suc (suc (suc (suc k)))) c e = absurd (cc e)

url_encode-decode_example : url_decode (url_encode mixed) ≡ mixed
url_encode-decode_example = url_encode-decode mixed mixed_low

abbrev text : List ℕ
text = 97 ∷ 32 ∷ []

text_low :
    (k c : ℕ) → load text k ≡ some c → (0 < c) × (c < 128) × (between 9 13 c ≡ false) × (c ≢ 37)
unfolding load
text_low zero c e = let f : 97 ≡ c = cc e in rw (← f) (omega arith, omega arith, refl, omega arith)
text_low (suc zero) c e =
    let f : 32 ≡ c = cc e in rw (← f) (omega arith, omega arith, refl, omega arith)
text_low (suc (suc k)) c e = absurd (cc e)

convert_to_encode-decode_example :
    (dst : List ℕ) × (convert_to_encode (λ part. none) text ≡ (true, some dst))
    × (url_decode dst ≡ text)
convert_to_encode-decode_example =
    convert_to_encode-decode (λ part. none) text (λ e. absurd (cc e)) text_low
