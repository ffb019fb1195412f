-- ===== src/UrlCode.antt =====
-- c++/utils/convert_to_encoded.cpp: the encoding of text for a URL. Strings are lists of bytes.
-- `utf8_to_gbk` of the file calls iconv and is a parameter: it gives nothing where it returns false.
pub mod RoundTrip
mod Tests
use funcodes.Prelude.{
  ℕ, zero, suc, length, ◌+◌, ◌/◌, ◌%◌, Bool, true, false, ◌&&◌, ◌||◌, List, [], ◌∷◌, ◌++◌, Option,
  none, some, ◌>>=◌, ltb, leb, ◌==◌, if◌then◌else◌,
}

-- first <= c && c <= last
abbrev pub between : ℕ → ℕ → ℕ → Bool
between first last c = leb first c && leb c last

-- isalnum of the C locale
abbrev pub is_alnum : ℕ → Bool
is_alnum c = between 48 57 c || between 65 90 c || between 97 122 c

-- isspace of the C locale
abbrev pub is_space : ℕ → Bool
is_space c = between 9 13 c || c == 32

abbrev pub is_gbk_first_part : ℕ → Bool
is_gbk_first_part ch = between 129 254 ch

-- hex[n]
abbrev pub hex : ℕ → ℕ
hex n = if ltb n 10 then n + 48 else n + 55

-- dstStr += '%', hex[c >> 4], hex[c % 16]
abbrev pub escape : ℕ → List ℕ → List ℕ
escape c rest = 37 ∷ hex (c / 16) ∷ hex (c % 16) ∷ rest

-- dstStr += "%20"
abbrev pub space : List ℕ → List ℕ
space rest = 37 ∷ 50 ∷ 48 ∷ rest

unfoldable pub url_encode : List ℕ → List ℕ
url_encode [] = []
url_encode (cc ∷ []) =
    if is_alnum cc then cc ∷ [] else if is_space cc then space [] else escape cc []
url_encode (cc ∷ c_next ∷ str) =
    let rest = url_encode (c_next ∷ str) in
    let beyond = url_encode str in
    if is_alnum cc
    then cc ∷ rest
    else if is_space cc
    then space rest
    else if is_gbk_first_part cc
    then escape cc (escape c_next beyond)
    else escape cc rest

-- srcStr.substr(0, n)
pub substr : ℕ → List ℕ → List ℕ
substr zero str = []
substr n [] = []
substr (suc n) (c ∷ str) = c ∷ substr n str

-- The first word, up to a white space.
unfoldable pub word : List ℕ → List ℕ
word [] = []
word (c ∷ str) = let rest = word str in if is_space c then [] else c ∷ rest

-- ss >> dstStr: white space is skipped; dstStr stays as it was if nothing follows.
unfoldable pub extract : List ℕ → Option (List ℕ)
extract [] = none
extract (c ∷ str) = let rest = extract str in if is_space c then rest else some (word (c ∷ str))

module _ (utf8_to_gbk : List ℕ → Option (List ℕ)) where
  -- encodeSub, with the string from `index` on and what the loop writes afterwards.
  pub encode_sub : ℕ → List ℕ → Option (List ℕ) → Option (List ℕ)
  encode_sub sub_len str rest =
      let encoded : Option (List ℕ) = do
        tmp ← utf8_to_gbk (substr (sub_len + 1) str)
        r ← rest
        some (url_encode tmp ++ r)
      in if ltb sub_len (length str) then encoded else none

  -- What the loop of convertToEncode writes to `ss`, or nothing where `ret` is false; the first
  -- argument is how far encodeSub has moved the index on. A char is signed, so a byte from 0x80 on is
  -- below 0.
  unfoldable pub convert_loop : ℕ → List ℕ → Option (List ℕ)
  convert_loop skip [] = some []
  convert_loop (suc skip) (c ∷ str) = convert_loop skip str
  convert_loop zero (c ∷ str) =
      let rest = convert_loop 0 str in
      let after_two = convert_loop 1 str in
      let after_three = convert_loop 2 str in
      if between 1 127 c
      then (do r ← rest; some (if c == 32 then space r else c ∷ r))
      else if between 192 223 c
      then encode_sub 1 (c ∷ str) after_two
      else if between 224 239 c
      then encode_sub 2 (c ∷ str) after_three
      else none

  -- The result, and what dstStr holds afterwards, if that is not what it held before.
  pub convert_to_encode : List ℕ → Bool × Option (List ℕ)
  convert_to_encode [] = (false, some [])
  convert_to_encode (c ∷ str) = elim (convert_loop 0 (c ∷ str)) [
    | none ↦ (false, some [])
    | some ss ↦ (true, extract ss)
  ]
