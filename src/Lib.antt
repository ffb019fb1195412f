-- ===== src/Lib.antt =====
-- The C++ programs of FunCodes: sorting, a search tree, heaps of bounded size, locks on atomic words,
-- the search for a pattern in a text, the encoding of text for a URL, two thread pools, an LRU cache, and
-- the lists and the map of the caches. The repository is a collection of parts that stand alone. They
-- meet in few places: the exchange sorts and heap sort use the Swap of bubbleSort.cpp, the two matchers
-- run the same search over different tables, the node managers keep their nodes in two lists of the
-- same header, and the hash map takes its nodes from a manager and gives them back to it.
--
-- Prelude: what the other modules share. Arrays are lists under native indices (load is `a[i]`, store
--   is `a[i] = v`, swap is Swap), int is the type of integers without a bound, and a call that may fail
--   gives an Option: `none` is what C++ leaves undefined, such as an access outside an array, or a loop
--   that runs out of the rounds allotted. `Yields P r` says that the call r comes back, with a value for
--   which P holds. Prelude.Loops has the loops: for_up and for_down count their rounds, and `loop` has
--   fuel.
-- Sort: c++/algos/sort/bubbleSort.cpp (Sort.Bubble: BubbleSort, BubbleSort2), selectSort.cpp
--   (Sort.Selection), insertSort.cpp (Sort.Insertion: Insertsort1 to 3), shellSort.cpp (Sort.Shell:
--   shellsort1 to 3), heapSort.cpp (Sort.HeapSort), mergeSort.cpp (Sort.Merge:
--   mergearray, mergesort, MergeSort). Sort.Gap has the inner loops that insertion and shell sort share.
--   Each function takes the array and its length n as the code does. Fuel: n + 1 for a walk through the
--   array or down the heap, whose index moves in each round, n + 1 for the halving of the gap, and for
--   the depth of mergesort, whose range gets shorter with each call.
-- SearchTree: c++/algos/BST.cpp. A pointer to a node is the tree below it, and a pointer to a deleted
--   node is the constructor `dangling`, through which no call reads.
-- BoundedHeap: c++/utils/custom_heap.hpp (Custom, CustomHeap) and c++/utils/custom_max_heap.hpp (Max,
--   CustomMaxHeap). Their loops are the same and stand in BoundedHeap.antt, with the user's comparison
--   as a parameter. Fuel: fix_heap has n + 1 rounds, and its index at least doubles.
-- Locks: c++/utils/cache/rwlock.h (RwLock, LockFreeRWContention) and c++/utils/cache/spinlock.h
--   (SpinMutex). An access to an atomic is a step of the thread that makes it; System has the runs of
--   threads in any order. The word of 32 bits keeps its wrap-around.
-- Match: c++/algos/kmp.cpp, and c++/algos/dumpKMP/charactor.h and charactor.cpp (Match.Charactor). The
--   characters of a string are of any type with a test for equality. Fuel: twice the length of the
--   pattern for a table and twice that of the text, and two, for the search; each round moves on in the
--   text or shortens the match.
-- UrlCode: c++/utils/convert_to_encoded.cpp. urlEncode, encodeSub and convertToEncode; what iconv makes
--   of the bytes of a character is a parameter.
-- Pool: c++/utils/thread_pool/thread_safe_queue.h and thread_pool.h. What stands between the lock of the
--   queue's mutex and its release is one step of a thread; the runs are those of Locks.System.
-- Links: the memory of the linked lists, with the pointers of the nodes by address. Address 0 is the
--   null pointer, and an access through an address that is not live is undefined. Links.Chains says
--   which addresses follow one another from a node to a node, and Links.Relink and Links.Splice what
--   the changes of two pointers do to such a chain.
-- LruCache: c++/utils/cache/lru_cache.h. get, put, put_tail and pop_head are Get, Put, PutTail and
--   PopHead; Holds is the agreement of the list with the map. Each call of the clock has an argument of
--   its own. Fuel: the two loops of PopHead take at most as many rounds as the list has nodes, and one.
-- HashList: c++/utils/cache/concurrent_hashlist.h, the list between two sentinels (push_back, pop_head,
--   detach_node) and NodeManager (fill, get_one, reclaim, reuse). Fuel: the loop of Reuse takes a round
--   for each node that waits, and one.
-- HashMap: c++/utils/cache/concurrent_hashmap.h, the list that ends with a null pointer, TNodeManager
--   (get_one, reclaim) and ConcurrentHashMap (find, insert, erase). HashMap.Primes is the choice of the
--   number of buckets. Fuel: Find takes a round for each node of the bucket, and one; FindAPrime comes
--   to an end below 500009, which is a prime.
-- ElementMap: c++/utils/cache/concurrent_hashmap_element_lock.h, a map whose buckets are lists of HashList
--   and whose nodes come from its manager (find, insert). Fuel: Find takes a round for each node of the
--   bucket, one for the sentinel behind it, and one.
-- In these five one thread runs at a time, so a lock is free when it is taken.
-- Workers: c++/utils/cache/thread_pool.h, a pool with a queue for each thread. The steps are as those of
--   Pool; the number that Submit draws is any that its distribution includes.
--
-- Bounds. The lengths and indices of the sorts, heaps and searches are those of arrays, far below the
-- bound of int, so they do not wrap around. The atomics are sequentially consistent: what the weaker
-- orders that the code asks for allow beyond that is not modelled. The release of memory is modelled
-- only where the program goes on to use it, in the search tree, and where a map erases a node.
--
-- Not modelled: quick sort and radix sort, the graph algorithms, the other caches, maps and lists, the
-- threads and the waiting in the modelled ones, the HTTP server and client, the file paths, and the programs that
-- only print or call a library. Mongoose, the hash functions and the book listings are
-- copies of other projects' code.
pub mod Links
pub mod HashList
pub mod HashMap
pub mod ElementMap
pub mod LruCache
pub mod Prelude
pub mod Sort
pub mod SearchTree
pub mod BoundedHeap
pub mod Locks
pub mod Match
pub mod Pool
pub mod UrlCode
pub mod Workers
