-- ===== src/Match/Tests.antt =====
-- Searches on small texts of numbers.
use funcodes.Prelude.{
  ℕ, zero, suc, ◌==◌, ◌<◌, ◌≡◌, Bool, true, false, List, [], ◌∷◌, some, none, ℤ, pos, load, Yields,
  arith,
}
use funcodes.Match.{kmp_search}
use funcodes.Match.Border.{IsEquality}
use funcodes.Match.Search.{IsFirst, kmp_search-IsFirst}
use funcodes.Match.Charactor.{ascii, gbk, new, outcome, kmp_search_charactors}
use funcodes.Match.Charactor.Matching.{ascii_search-IsFirst, gbk_search-none}

abbrev same_ℕ : ℕ → ℕ → Bool
same_ℕ m n = m == n

same_ℕ-IsEquality : IsEquality same_ℕ
same_ℕ-IsEquality = record { sound = λ m n e. ground arith; complete = λ m. ground arith }

-- abab
abbrev pattern_abab : List ℕ
pattern_abab = 1 ∷ 2 ∷ 1 ∷ 2 ∷ []

-- abaabab
abbrev text : List ℕ
text = 1 ∷ 2 ∷ 1 ∷ 1 ∷ 2 ∷ 1 ∷ 2 ∷ []

abbrev zeros : List ℤ
zeros = pos 0 ∷ pos 0 ∷ pos 0 ∷ pos 0 ∷ []

kmp_search-IsFirst_example :
    Yields (IsFirst text pattern_abab) (kmp_search same_ℕ (pos 0) text pattern_abab)
kmp_search-IsFirst_example =
    kmp_search-IsFirst same_ℕ same_ℕ-IsEquality (pos 0) text pattern_abab (omega arith)

abbrev ba : List ℕ
ba = 98 ∷ 97 ∷ []

-- Every byte of `ba` is below 128.
ba_low : (k c : ℕ) → load ba k ≡ some c → c < 128
unfolding load
ba_low zero c e = let f : 98 ≡ c = cc e in omega arith
ba_low (suc zero) c e = let f : 97 ≡ c = cc e in omega arith
ba_low (suc (suc k)) c e = absurd (cc e)

ascii_search-IsFirst_example :
    ((new false ba ba ascii).valid ≡ true)
    × Yields
        (λ r. (p : ℤ) × (r ≡ outcome p) × IsFirst ba ba p)
        (kmp_search_charactors (pos 0) (new false ba ba ascii))
ascii_search-IsFirst_example =
    ascii_search-IsFirst (pos 0) false ba ba (omega arith) (omega arith)
      (λ k c e. omega (arith, ba_low k c e)) (λ k c e. omega (arith, ba_low k c e))

-- The two bytes of a Chinese character, in text that starts with it.
gbk_search-none_example :
    ((new false (214 ∷ 208 ∷ []) (214 ∷ 208 ∷ []) gbk).valid ≡ false)
    × ((new false (214 ∷ 208 ∷ []) (214 ∷ 208 ∷ []) gbk).match_chars ≡ [])
    × (kmp_search_charactors (pos 0) (new false (214 ∷ 208 ∷ []) (214 ∷ 208 ∷ []) gbk) ≡ none)
gbk_search-none_example = gbk_search-none (pos 0) (214 ∷ 208 ∷ []) (208 ∷ []) 214 (omega arith)
