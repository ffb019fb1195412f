-- ===== src/Match/Charactor/Matching.antt =====
-- KMPSearch of CharactorMatcher, with one-byte characters and with GBK.
use funcodes.Prelude.{
  load-some, ◌++◌, ◌>>=◌, ℕ, suc, zero, ◌+◌, ◌<◌, ◌≤◌, ◌≡◌, refl, sym, ap, ◌∙◌, Bool, true, false,
  ◌&&◌, List, [], ◌∷◌, Option, none, some, ltb, ℤ, length, load, store, arith, Yields, yields,
  Yields-bind, Yields-map,
}
use mathlib.Core.List.{append_assoc}
use funcodes.Match.{fresh_array, get_next, build_table}
use funcodes.Match.Border.{IsEquality, IsNext-Falls, Occurs}
use funcodes.Match.Table.{get_next-IsNext}
use funcodes.Match.Search.{IsFirst, first, absent, search_with-IsFirst, length-fresh_array}
use funcodes.Match.Charactor.{
  Charactor, same_charactor, ascii, gbk, as_uint32, ascii_charactors, pre_process_ascii, gbk_little,
  pre_process_gbk, CharactorMatcher, both, new, not_empty, get_next_val, outcome,
  kmp_search_charactors,
}

same_charactor-IsEquality : IsEquality same_charactor
same_charactor-IsEquality = record {
  sound = λ c d e.
      let l : c.length ≡ d.length = ground (arith, e) in
      let v : c.value ≡ d.value = ground (arith, e) in λ i. record { length = l i; value = v i };
  complete = λ c. ground arith;
}

-- For a matcher whose pattern has characters, whatever memory new gives: KMPSearch comes back. It
-- returns true with the first place of the pattern's characters among those of the text, or false
-- with the greatest size_t if there is none.
kmp_search_charactors-IsFirst :
    (fresh : ℤ) (m : CharactorMatcher)
    → 0 < length m.match_chars
    → Yields
        (λ r. (p : ℤ) × (r ≡ outcome p) × IsFirst m.search_chars m.match_chars p)
        (kmp_search_charactors fresh m)
unfolding kmp_search_charactors get_next_val
kmp_search_charactors-IsFirst fresh m some_left =
    let same = same_charactor in
    Yields-bind
      (get_next-IsNext same same_charactor-IsEquality m.match_chars some_left
        (fresh_array (length m.match_chars) fresh)
        (length-fresh_array (length m.match_chars) fresh))
      λ next table.
        Yields-bind
          (search_with-IsFirst same same_charactor-IsEquality m.search_chars m.match_chars next
            some_left λ q h. let (v, e, n) = table q h in (v, e, IsNext-Falls n))
          λ p f. yields (p, refl, f)

one_byte : ℕ → Charactor
one_byte c = record { length = 1; value = as_uint32 c }

length-ascii_charactors : (str : List ℕ) → length (ascii_charactors str) ≡ length str
unfolding ascii_charactors
length-ascii_charactors [] = refl
length-ascii_charactors (c ∷ str) = ap suc (length-ascii_charactors str)

load-ascii_charactors :
    (str : List ℕ) (k : ℕ) → load (ascii_charactors str) k ≡ (load str k >>= λ c. some (one_byte c))
unfolding ascii_charactors load one_byte
load-ascii_charactors [] k = refl
load-ascii_charactors (c ∷ str) zero = refl
load-ascii_charactors (c ∷ str) (suc k) = load-ascii_charactors str k

abbrev pub AreBytes : List ℕ → Type 0
AreBytes str = (k c : ℕ) → load str k ≡ some c → c < 256

one_byte-injective : (c d : ℕ) → c < 256 → d < 256 → one_byte c ≡ one_byte d → c ≡ d
unfolding one_byte
one_byte-injective c d h l e =
    let v : as_uint32 c ≡ as_uint32 d = ap (λ x. x.value) e in ground (arith, v)

same_byte :
    (a : Option ℕ) (d : ℕ)
    → ((c : ℕ) → a ≡ some c → c < 256)
    → d < 256
    → (a >>= λ c. some (one_byte c)) ≡ some (one_byte d)
    → a ≡ some d
same_byte none d h l e = absurd (cc e)
same_byte (some c) d h l e = ap some (one_byte-injective c d (h c refl) l (cc e))

Occurs-bytes :
    (s t : List ℕ) (p : ℕ)
    → AreBytes s
    → AreBytes t
    → Occurs (ascii_charactors s) (ascii_charactors t) p
    → Occurs s t p
unfolding Occurs
Occurs-bytes s t p bs bt o m h =
    let (d, e) = load-some t m h in
    let there = o m (rw (length-ascii_charactors t) h) in
    let e' = load-ascii_charactors t m in
    let f = load-ascii_charactors s (p + m) in
    same_byte (load s (p + m)) d (bs (p + m)) (bt m d e) (sym f ∙ there ∙ rw e at e') ∙ sym e

Occurs-charactors :
    (s t : List ℕ) (p : ℕ) → Occurs s t p → Occurs (ascii_charactors s) (ascii_charactors t) p
unfolding Occurs
Occurs-charactors s t p o m h =
    rw
      (
        load-ascii_charactors s (p + m),
        load-ascii_charactors t m,
        o m (omega (arith, length-ascii_charactors t)),
      )
      refl

IsFirst-bytes :
    (s t : List ℕ) {p : ℤ}
    → AreBytes s
    → AreBytes t
    → IsFirst (ascii_charactors s) (ascii_charactors t) p
    → IsFirst s t p
IsFirst-bytes s t bs bt (first o least) =
    first (Occurs-bytes s t _ bs bt o) λ q r. least q (Occurs-charactors s t q r)
IsFirst-bytes s t bs bt (absent never) = absent λ q r. never q (Occurs-charactors s t q r)

-- For a text and a pattern of bytes, neither empty, and whatever memory new gives: the matcher that
-- is made for one-byte characters is valid, and its KMPSearch comes back. It returns true with the
-- first place of the pattern in the text, or false with the greatest size_t if there is none.
pub ascii_search-IsFirst :
    (fresh : ℤ) (big_endian : Bool) (s t : List ℕ)
    → 0 < length s
    → 0 < length t
    → AreBytes s
    → AreBytes t
    → ((new big_endian s t ascii).valid ≡ true)
      × Yields
          (λ r. (p : ℤ) × (r ≡ outcome p) × IsFirst s t p)
          (kmp_search_charactors fresh (new big_endian s t ascii))
unfolding new both pre_process_ascii
ascii_search-IsFirst fresh big_endian [] t hs ht bs bt = absurd (omega arith)
ascii_search-IsFirst fresh big_endian s [] hs ht bs bt = absurd (omega arith)
ascii_search-IsFirst fresh big_endian (c ∷ s) (d ∷ t) hs ht bs bt = (
  refl,
  Yields-map
      (kmp_search_charactors-IsFirst fresh
        (record {
          match_chars = ascii_charactors (d ∷ t);
          search_chars = ascii_charactors (c ∷ s);
          valid = true;
        })
        (rw length-ascii_charactors ht))
      λ r (p, e, f). (p, e, IsFirst-bytes (c ∷ s) (d ∷ t) bs bt f),
)

-- Where the low byte of a word comes first: a matcher for GBK whose pattern starts with a byte of 128
-- or more, as the first byte of each two-byte character is, is not valid and has no pattern, and its
-- KMPSearch writes outside its table.
pub gbk_search-none :
    (fresh : ℤ) (s t : List ℕ) (lead : ℕ)
    → 128 ≤ lead
    → ((new false s (lead ∷ t) gbk).valid ≡ false)
      × ((new false s (lead ∷ t) gbk).match_chars ≡ [])
      × (kmp_search_charactors fresh (new false s (lead ∷ t) gbk) ≡ none)
unfolding new both pre_process_gbk gbk_little kmp_search_charactors get_next_val get_next
    build_table fresh_array store
gbk_search-none fresh [] t lead h = (refl, refl, refl)
gbk_search-none fresh (c ∷ s) t lead h =
    let high : ltb lead 128 ≡ false = ground arith in (rw high refl, rw high refl, rw high refl)

abbrev pub AreAscii : List ℕ → Type 0
AreAscii str = (k c : ℕ) → load str k ≡ some c → c < 128

gbk_little-pending :
    (str : List ℕ) (c : ℕ) (chars : List Charactor)
    → c < 128
    → AreAscii str
    → gbk_little str (some c) chars ≡ (true, chars ++ ascii_charactors (c ∷ str))
unfolding gbk_little ascii_charactors load
gbk_little-pending [] c chars h all = let low : ltb c 128 ≡ true = ground arith in rw low refl
gbk_little-pending (d ∷ str) c chars h all =
    let as_c : as_uint32 c ≡ c = ground arith in
    let as_d : as_uint32 d ≡ d = ground (arith, all 0 d refl) in
    let next_low : ltb d 128 ≡ true = ground (arith, all 0 d refl) in
    let one : Charactor = record { length = 1; value = c } in
    rw next_low (
      gbk_little-pending str d (chars ++ one ∷ []) (all 0 d refl) (λ k. all (suc k))
      ∙ ap (λ x. (true, x))
          (append_assoc chars (one ∷ []) (ascii_charactors (d ∷ str)) ∙ rw (as_c, as_d) refl))

pre_process_gbk-eq :
    (valid : Bool) (str : List ℕ)
    → AreAscii str
    → pre_process_gbk false valid str [] ≡ pre_process_ascii valid str []
unfolding pre_process_gbk pre_process_ascii gbk_little load ascii_charactors
pre_process_gbk-eq false str all = refl
pre_process_gbk-eq true [] all = refl
pre_process_gbk-eq true (c ∷ str) all =
    let low : ltb c 128 ≡ true = ground (arith, all 0 c refl) in
    rw low (rw low at (gbk_little-pending str c [] (all 0 c refl) (λ k. all (suc k))))

both-eq :
    (f g : Bool → List ℕ → List Charactor → Bool × List Charactor) (valid : Bool) (s t : List ℕ)
    → f valid s [] ≡ g valid s []
    → f valid t [] ≡ g valid t []
    → both f valid s t ≡ both g valid s t
unfolding both
both-eq f g valid s t e h = rw (e, h) refl

-- For a text and a pattern whose bytes are all below 128, where the low byte of a word comes first: a
-- matcher for GBK is the matcher for one-byte characters.
new_gbk-eq : (s t : List ℕ) → AreAscii s → AreAscii t → new false s t gbk ≡ new false s t ascii
unfolding new
new_gbk-eq s t low_s low_t =
    let valid = not_empty s && not_empty t in
    both-eq (pre_process_gbk false) pre_process_ascii valid s t (pre_process_gbk-eq valid s low_s)
      (pre_process_gbk-eq valid t low_t)
