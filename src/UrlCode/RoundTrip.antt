-- ===== src/UrlCode/RoundTrip.antt =====
-- urlEncode and convertToEncode against a reader of escapes.
use native.Mathlib.Decide.{ℕ_discrete}
use funcodes.Prelude.{
  ℕ, suc, ◌+◌, ◌-◌, ◌*◌, ◌/◌, ◌%◌, ◌<◌, ◌≡◌, ◌≢◌, refl, ap, ◌∙◌, Bool, true, false, List, [], ◌∷◌,
  Option, some, ltb, ◌==◌, if◌then◌else◌, load, arith,
}
use funcodes.UrlCode.{
  between, is_alnum, is_space, is_gbk_first_part, hex, escape, space, url_encode, word, extract,
  convert_loop, convert_to_encode,
}

-- The number that a digit of `hex` stands for.
abbrev pub digit : ℕ → ℕ
digit h = if ltb h 65 then h - 48 else h - 55

-- A reader of escapes.
unfoldable pub url_decode : List ℕ → List ℕ
url_decode [] = []
url_decode (c ∷ []) = c ∷ []
url_decode (c ∷ h ∷ []) = c ∷ h ∷ []
url_decode (c ∷ h ∷ l ∷ str) =
    let escaped = (16 * digit h + digit l) ∷ url_decode str in
    let plain = c ∷ url_decode (h ∷ l ∷ str) in if c == 37 then escaped else plain

url_decode-plain : (c : ℕ) (str : List ℕ) → c ≢ 37 → url_decode (c ∷ str) ≡ c ∷ url_decode str
unfolding url_decode
url_decode-plain c [] ne = refl
url_decode-plain c (h ∷ []) ne = refl
url_decode-plain c (h ∷ l ∷ str) ne = ground arith

url_decode-escape :
    (c : ℕ) (str : List ℕ) → c < 256 → url_decode (escape c str) ≡ c ∷ url_decode str
unfolding url_decode
url_decode-escape c str low =
    let value : 16 * digit (hex (c / 16)) + digit (hex (c % 16)) ≡ c = ground arith in rw value refl

-- A byte that is no white space but the blank.
abbrev pub IsPrintable : ℕ → Type 0
IsPrintable c = (c < 256) × (between 9 13 c ≡ false)

abbrev pub ArePrintable : List ℕ → Type 0
ArePrintable str = (k c : ℕ) → load str k ≡ some c → IsPrintable c

-- The three ways in which urlEncode writes a byte, where `rest` and `last` read back as they should.
choose :
    (c : ℕ) (rest last : List ℕ) {t : List ℕ} (b e : Bool)
    → (b ≡ true → c ≢ 37)
    → (e ≡ true → c ≡ 32)
    → url_decode rest ≡ t
    → url_decode last ≡ c ∷ t
    → url_decode (if b then c ∷ rest else if e then space rest else last) ≡ c ∷ t
choose c rest last true e plain blank r l = url_decode-plain c rest (plain refl) ∙ ap (λ x. c ∷ x) r
choose c rest last false true plain blank r l =
    let at_blank : c ≡ 32 = blank refl in
    rw at_blank (url_decode-escape 32 rest (omega arith) ∙ ap (λ x. 32 ∷ x) r)
choose c rest last false false plain blank r l = l

choose_byte :
    (c : ℕ) (rest last : List ℕ) {t : List ℕ}
    → IsPrintable c
    → url_decode rest ≡ t
    → url_decode last ≡ c ∷ t
    → url_decode (if is_alnum c then c ∷ rest else if is_space c then space rest else last) ≡ c ∷ t
choose_byte c rest last p =
    choose c rest last (is_alnum c) (is_space c) (λ e. ground (arith, e))
      (λ e. ground (arith, e, p))

escape_one :
    (c : ℕ) (rest : List ℕ) {t : List ℕ}
    → c < 256
    → url_decode rest ≡ t
    → url_decode (escape c rest) ≡ c ∷ t
escape_one c rest low r = url_decode-escape c rest low ∙ ap (λ x. c ∷ x) r

escape_pair :
    (b : Bool) (c d : ℕ) (rest beyond : List ℕ) {str : List ℕ}
    → c < 256
    → d < 256
    → url_decode rest ≡ d ∷ str
    → url_decode beyond ≡ str
    → url_decode (if b then escape c (escape d beyond) else escape c rest) ≡ c ∷ d ∷ str
escape_pair true c d rest beyond low next r e =
    escape_one c (escape d beyond) low (escape_one d beyond next e)
escape_pair false c d rest beyond low next r e = escape_one c rest low r

-- For a string of bytes without white space but the blank: the escapes that urlEncode writes read
-- back as the string.
pub url_encode-decode : (str : List ℕ) → ArePrintable str → url_decode (url_encode str) ≡ str
unfolding url_encode load url_decode
url_encode-decode [] all = refl
url_encode-decode (c ∷ []) all =
    let p = all 0 c refl in choose_byte c [] (escape c []) p refl (escape_one c [] p.0 refl)
url_encode-decode (c ∷ d ∷ str) all =
    let p = all 0 c refl in
    let q = all 1 d refl in
    let rest = url_encode-decode (d ∷ str) (λ k. all (suc k)) in
    let beyond = url_encode-decode str (λ k. all (suc (suc k))) in
    choose_byte c (url_encode (d ∷ str)) _ p rest (
      escape_pair (is_gbk_first_part c) c d (url_encode (d ∷ str)) (url_encode str) p.0 q.0 rest
        beyond)

-- A byte of text below 128 that is no white space but the blank, and no percent sign.
abbrev pub IsText : ℕ → Type 0
IsText c = (0 < c) × (c < 128) × (between 9 13 c ≡ false) × (c ≢ 37)

abbrev pub AreText : List ℕ → Type 0
AreText str = (k c : ℕ) → load str k ≡ some c → IsText c

-- What the loop writes: one word, empty only for empty text, which reads back as the text.
record Written (str : List ℕ) (ss : List ℕ) : Type 0 where
  whole : word ss ≡ ss
  reads_back : url_decode ss ≡ str
  extracted : str ≢ [] → extract ss ≡ some ss

Written-byte :
    (c : ℕ) (str ss : List ℕ)
    → IsText c
    → Written str ss
    → Written (c ∷ str) (if c == 32 then space ss else c ∷ ss)
unfolding word extract
Written-byte c str ss p w = elim (ℕ_discrete c 32) [
  | yes e ↦ rw e (record {
    whole = rw w.whole refl;
    reads_back = url_decode-escape 32 ss (omega arith) ∙ ap (λ x. 32 ∷ x) w.reads_back;
    extracted = λ f. rw w.whole refl;
  })
  | no ne ↦
      let other : (c == 32) ≡ false = ground arith in
      let plain : is_space c ≡ false = ground (arith, p) in
      rw other (record {
        whole = rw (plain, w.whole) refl;
        reads_back = url_decode-plain c ss p.3 ∙ ap (λ x. c ∷ x) w.reads_back;
        extracted = λ f. rw (plain, w.whole) refl;
      })
]

module _ (utf8_to_gbk : List ℕ → Option (List ℕ)) where
  convert_loop-Written :
      (str : List ℕ)
      → AreText str
      → (ss : List ℕ) × (convert_loop utf8_to_gbk 0 str ≡ some ss) × Written str ss
  unfolding convert_loop load word url_decode
  convert_loop-Written [] all =
      ([], refl, record { whole = refl; reads_back = refl; extracted = λ f. absurd (f refl) })
  convert_loop-Written (c ∷ str) all =
      let (ss, e, w) = convert_loop-Written str (λ k. all (suc k)) in
      let p = all 0 c refl in
      let low : between 1 127 c ≡ true = ground (arith, p) in
      ((if c == 32 then space ss else c ∷ ss), rw (low, e) refl, Written-byte c str ss p w)

-- For text that is not empty, of bytes below 128 without a zero, a percent sign and white space but the
-- blank: convertToEncode, whatever iconv does, returns true and writes a string whose escapes read
-- back as the text.
pub convert_to_encode-decode :
    (utf8_to_gbk : List ℕ → Option (List ℕ)) (str : List ℕ)
    → str ≢ []
    → AreText str
    → (dst : List ℕ) × (convert_to_encode utf8_to_gbk str ≡ (true, some dst))
      × (url_decode dst ≡ str)
unfolding convert_to_encode
convert_to_encode-decode utf8_to_gbk [] full all = absurd (full refl)
convert_to_encode-decode utf8_to_gbk (c ∷ str) full all =
    let (ss, e, w) = convert_loop-Written utf8_to_gbk (c ∷ str) all in
    (ss, rw (e, convert_to_encode) (ap (λ x. (true, x)) (w.extracted full)), w.reads_back)
