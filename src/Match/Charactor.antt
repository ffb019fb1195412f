-- ===== src/Match/Charactor.antt =====
-- c++/algos/dumpKMP/charactor.h and charactor.cpp: CharactorMatcher, which searches in strings of
-- bytes whose characters take one byte or two. The order of the bytes in the machine's words is a
-- parameter.
pub mod Matching
use funcodes.Prelude.{
  ℕ, suc, ◌+◌, ◌*◌, Bool, true, false, ◌&&◌, not, List, [], ◌∷◌, ◌++◌, Option, none, some, ◌>>=◌,
  ltb, ◌==◌, if◌then◌else◌, ℤ, pos, negsuc, length,
}
use funcodes.Match.{fresh_array, get_next, search_with}

pub record Charactor : Type 0 where
  pub length : ℕ
  pub value : ℕ

-- operator ==
abbrev pub same_charactor : Charactor → Charactor → Bool
same_charactor c d = c.length == d.length && c.value == d.value

pub data EncodingType : Type 0 where
  ascii : EncodingType
  gbk : EncodingType
  utf8 : EncodingType

-- A char, which is signed, as a uint32_t.
abbrev pub as_uint32 : ℕ → ℕ
as_uint32 c = if ltb c 128 then c else c + 4294967040

-- The characters that the loop of preProcessASCII appends.
pub ascii_charactors : List ℕ → List Charactor
ascii_charactors [] = []
ascii_charactors (c ∷ str) = record { length = 1; value = as_uint32 c } ∷ ascii_charactors str

-- `chars` with what is appended, and what the function returns.
pub pre_process_ascii : Bool → List ℕ → List Charactor → Bool × List Charactor
pre_process_ascii valid str chars =
    if valid then (true, chars ++ ascii_charactors str) else (false, chars)

-- The loop of preProcessGBK where the high byte comes first. ss.get(cs, n) reads n - 1 bytes: none for
-- n = 1, after which the stream has failed and peek gives EOF, and one for n = 2.
pub gbk_big : List ℕ → List Charactor → Bool × List Charactor
gbk_big [] chars = (true, chars)
gbk_big (tmp ∷ str) chars =
    let rest = gbk_big str (chars ++ record { length = 2; value = tmp * 16777216 } ∷ []) in
    if ltb tmp 128 then (true, chars ++ record { length = 1; value = 0 } ∷ []) else rest

-- The loop where the low byte comes first, with the byte in cs[0] when is_first is false. The round
-- that appends a single byte reads none; it is taken together with the round that reads the next.
pub gbk_little : List ℕ → Option ℕ → List Charactor → Bool × List Charactor
gbk_little [] none chars = (true, chars)
gbk_little [] (some c) chars = (true, chars ++ record { length = 1; value = c } ∷ [])
gbk_little (tmp ∷ str) none chars =
    let rest = gbk_little str (some tmp) chars in if ltb tmp 128 then rest else (false, chars)
gbk_little (tmp ∷ str) (some c) chars =
    let single = gbk_little str (some tmp) (chars ++ record { length = 1; value = c } ∷ []) in
    let double = gbk_little str none (chars ++ record { length = 2; value = tmp + 256 * c } ∷ []) in
    if ltb tmp 128 then single else double

pub pre_process_gbk : Bool → Bool → List ℕ → List Charactor → Bool × List Charactor
pre_process_gbk big_endian valid str chars =
    if valid
    then (if big_endian then gbk_big str chars else gbk_little str none chars)
    else (false, chars)

pub record CharactorMatcher : Type 0 where
  pub match_chars : List Charactor
  pub search_chars : List Charactor
  pub valid : Bool

-- valid && preProcess(match_str, match_chars) && preProcess(search_str, search_chars)
pub both :
    (Bool → List ℕ → List Charactor → Bool × List Charactor)
    → Bool
    → List ℕ
    → List ℕ
    → CharactorMatcher
both pre_process valid search_str match_str =
    let (m, match_chars) = pre_process valid match_str [] in
    let (s, search_chars) = pre_process valid search_str [] in
    if valid
    then (if m
        then record { match_chars = match_chars; search_chars = search_chars; valid = s }
        else record { match_chars = match_chars; search_chars = []; valid = false })
    else record { match_chars = []; search_chars = []; valid = false }

abbrev pub not_empty : List ℕ → Bool
not_empty [] = false
not_empty (c ∷ str) = true

-- The constructor.
pub new : Bool → List ℕ → List ℕ → EncodingType → CharactorMatcher
new big_endian search_str match_str ascii =
    both pre_process_ascii (not_empty search_str && not_empty match_str) search_str match_str
new big_endian search_str match_str gbk =
    both (pre_process_gbk big_endian) (not_empty search_str && not_empty match_str) search_str
      match_str
new big_endian search_str match_str utf8 = record {
  match_chars = [];
  search_chars = [];
  valid = not_empty search_str && not_empty match_str;
}

-- getNextVal, whose table is that of get_next: its size_t holds -1 where get_next has an int.
pub get_next_val : List Charactor → List ℤ → Option (List ℤ)
get_next_val = get_next same_charactor

-- What KMPSearch returns and writes to `pos`; -1 in a size_t is its greatest value.
abbrev pub outcome : ℤ → Bool × ℕ
outcome (pos p) = (true, p)
outcome (negsuc p) = (false, 18446744073709551615)

-- The table is memory that new gives, with `fresh` in it.
pub kmp_search_charactors : ℤ → CharactorMatcher → Option (Bool × ℕ)
kmp_search_charactors fresh m = do
  next ← get_next_val m.match_chars (fresh_array (length m.match_chars) fresh)
  r ← search_with same_charactor m.search_chars m.match_chars next
  some (outcome r)
