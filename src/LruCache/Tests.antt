-- ===== src/LruCache/Tests.antt =====
-- Runs of the cache of c++/utils/cache/lru_cache.h, and the theorems at them.
use funcodes.Prelude.{
  ℕ, ◌*◌, ◌≤◌, ◌<◌, ◌≡◌, refl, true, false, [], ◌∷◌, Option, none, some, arith, length, Yields,
}
use funcodes.Links.{write, get_pred, get_next, set_pred, set_next}
use funcodes.LruCache.{LruCache, unlink, link_tail, relink_tail, put_tail, get, put}
use funcodes.LruCache.Holds.{Holds}
use funcodes.LruCache.Access.{find_key, Gets, get-Gets}
use funcodes.LruCache.Insert.{Puts, put_order, put-Puts, put-Half}

-- A cache of capacity 4 with the timeout 60, after a put of the key 7 at time 100
abbrev one : LruCache ℕ
one = record {
  links = record {
    live = λ a. write (write (write (λ _. false) 1 true) 2 true) 3 true a;
    pred = λ a. write (write (λ _. 0) 3 1) 2 3 a;
    next = λ a. write (write (λ _. 0) 1 3) 3 2 a;
  };
  key = write (λ _. 0) 3 7;
  value = write (λ _. none) 3 (some 42);
  expire_time = write (λ _. 0x8000000000000000) 3 160;
  underly = write (λ _. none) 7 (some 3);
  max_size = 4;
  current_size = 2;
  timeout = 60;
}

one-Holds : Holds one (3 ∷ [])
one-Holds = record {
  chain = (refl, refl, refl, (refl, refl, refl, (refl, refl)));
  distinct = (refl, (refl, (refl, tt)));
  dead = refl;
  mapped = λ k p h. ground arith;
  listed = λ p h. ground arith;
  stays = refl;
}

-- The value of 7 is found after its time, not before.
abbrev result : Option (LruCache ℕ × Option ℕ) → Option ℕ
result none = none
result (some (c, r)) = r

get_early : result (get 100 100 7 one) ≡ none
unfolding get
get_early = refl

get_late : result (get 161 161 7 one) ≡ some 42
unfolding get put_tail relink_tail link_tail unlink get_pred get_next set_pred set_next
get_late = refl

get-Gets_example :
    Yields (Gets one 161 162 (3 ∷ []) (find_key one.key 7 (3 ∷ []))) (get 161 162 7 one)
get-Gets_example = get-Gets one 161 162 7 (3 ∷ []) one-Holds

put-Puts_example :
    Yields
      (Puts 100 101 102 5 8 (some 43) one (3 ∷ []) (find_key one.key 8 (3 ∷ [])))
      (put 9 100 101 102 5 8 (some 43) one)
put-Puts_example =
    put-Puts 100 101 102 5 8 (some 43) one (3 ∷ []) 9 one-Holds (refl, refl) (omega arith)
      (omega arith)

put-Half_example :
    Yields
      (λ (c', b).
        Holds c' (put_order 100 101 102 5 8 (some 43) one (3 ∷ []))
        × (length (put_order 100 101 102 5 8 (some 43) one (3 ∷ [])) * 2 ≤ c'.current_size)
        × (2 < c'.current_size)
        × (length (put_order 100 101 102 5 8 (some 43) one (3 ∷ [])) * 2 ≤ c'.max_size))
      (put 9 100 101 102 5 8 (some 43) one)
unfolding find_key
put-Half_example =
    put-Half 100 101 102 5 8 (some 43) one (3 ∷ []) 9 one-Holds (refl, refl) refl (omega arith)
      (omega arith) (omega arith) (omega arith) (omega arith)
