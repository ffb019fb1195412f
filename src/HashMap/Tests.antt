-- ===== src/HashMap/Tests.antt =====
-- A map of c++/utils/cache/concurrent_hashmap.h with two buckets, and the theorems at it.
use funcodes.Prelude.{
  ℕ, zero, suc, ◌<◌, ◌≡◌, refl, true, false, List, [], ◌∷◌, none, some, arith, Yields,
}
use funcodes.Links.{write}
use funcodes.HashMap.{Bucket, HashMap, bucket, find, insert, erase}
use funcodes.HashMap.Ends.{Ends}
use funcodes.HashMap.Family.{Family, IsOutside}
use funcodes.HashMap.Contents.{look, Keyed}
use funcodes.HashMap.Access.{WellFormed, node_at, find-node_at}
use funcodes.HashMap.Insert.{Inserts, insert-Inserts}
use funcodes.HashMap.Erase.{Erases, erase-Erases}
use funcodes.HashMap.Primes.{root_from, floor_sqrt, trial, next_prime, is_prime, find_a_prime}

-- The sentinels of the four lists are 1 to 4. Node 6 is spare; node 5 has the key 4 and stands in
-- bucket 0, since the hash of a key is the key.
abbrev hash : ℕ → ℕ
hash key = key

abbrev lists : ℕ → Bucket
lists i =
    write
      (write (write (λ _. record { begin = 4; end = 4 }) 2 (record { begin = 3; end = 5 })) 1
        (record { begin = 2; end = 2 }))
      0 (record { begin = 1; end = 6 }) i

abbrev nodes : ℕ → List ℕ
nodes i = write (write (λ _. []) 2 (5 ∷ [])) 0 (6 ∷ []) i

abbrev two_buckets : HashMap ℕ
two_buckets = record {
  links = record {
    live = λ a. write (λ (_ : ℕ). true) 0 false a;
    next = λ a. write (write (λ _. 0) 1 6) 3 5 a;
    pred = λ a. write (write (λ _. 0) 6 1) 5 3 a;
  };
  timeout = λ _. 0;
  entry = λ a. write (λ _. none) 5 (some (4, 40)) a;
  lists = lists;
  bucket_count = 2;
  window_in_seconds = 1;
  running = true;
}

two_buckets-Ends : (i : ℕ) → i < 4 → Ends two_buckets.links (lists i) (nodes i)
two_buckets-Ends zero b = record {
  chain = (refl, refl, refl, (refl, refl));
  stops = refl;
  distinct = (refl, (refl, tt));
}
two_buckets-Ends (suc zero) b = record { chain = (refl, refl); stops = refl; distinct = (refl, tt) }
two_buckets-Ends (suc (suc zero)) b = record {
  chain = (refl, refl, refl, (refl, refl));
  stops = refl;
  distinct = (refl, (refl, tt));
}
two_buckets-Ends (suc (suc (suc zero))) b = record {
  chain = (refl, refl);
  stops = refl;
  distinct = (refl, tt);
}
two_buckets-Ends (suc (suc (suc (suc i)))) b = absurd (omega arith)

two_buckets-Family : Family 4 two_buckets.links lists nodes
two_buckets-Family = record {
  ends = two_buckets-Ends;
  apart = λ i j k b b' other h. ground arith;
  dead = refl;
}

two_buckets-WellFormed : WellFormed hash two_buckets nodes
unfolding look
two_buckets-WellFormed = record {
  family = two_buckets-Family;
  some_bucket = omega arith;
  keyed = keyed;
}
  where
    keyed : (i : ℕ) → i < 2 → Keyed hash 2 two_buckets.entry i (nodes (bucket i))
    keyed zero b = ((4, 40, refl, refl, refl), tt)
    keyed (suc zero) b = tt
    keyed (suc (suc i)) b = absurd (omega arith)

seven-IsOutside : IsOutside 4 lists nodes 7
seven-IsOutside i b = ground arith

find-node_at_example : find hash 9 4 two_buckets ≡ some 5
unfolding look
find-node_at_example = find-node_at hash two_buckets nodes 4 two_buckets-WellFormed 9 (omega arith)

insert-Inserts_example :
    Yields
      (Inserts hash two_buckets nodes 8 80 two_buckets-WellFormed
        (node_at hash two_buckets nodes 8))
      (insert hash 9 7 8 80 two_buckets)
insert-Inserts_example =
    insert-Inserts hash two_buckets nodes 8 80 two_buckets-WellFormed 9 7 seven-IsOutside refl
      (omega arith)

erase-Erases_example :
    Yields
      (Erases hash two_buckets nodes 4 50 two_buckets-WellFormed (node_at hash two_buckets nodes 4))
      (erase hash 9 50 4 two_buckets)
erase-Erases_example =
    erase-Erases hash two_buckets nodes 4 50 two_buckets-WellFormed 9 (omega arith)

-- No bucket for the hint 0: IsPrime accepts 0, so that HashResult divides by zero.
no_bucket : find_a_prime 1 0 ≡ some 0
unfolding find_a_prime next_prime is_prime trial floor_sqrt root_from
no_bucket = refl

next_is_29 : find_a_prime 9 24 ≡ some 29
unfolding find_a_prime next_prime is_prime trial floor_sqrt root_from
next_is_29 = refl
