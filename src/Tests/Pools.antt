-- ===== src/Tests/Pools.antt =====
-- The pool's theorem after two objects are acquired and the first is released.
use mm_engine.Base.{ℕ, ◌+◌, ◌<◌, ◌≡◌, ◌⊎◌, refl, none, some, List, [], ◌∷◌, length}
use mm_engine.Pool.{ObjectPool, countdown, object_pool, acquire, release, available}
use mm_engine.Pool.Ownership.{count, Owned, made, acquired, released, acquire-Owned}

abbrev two_out : ObjectPool
two_out = (acquire (acquire (object_pool 3)).1).1

owns_two : Owned 3 two_out (1 ∷ 0 ∷ [])
unfolding object_pool countdown acquire
owns_two = acquired 1 (acquired 0 made refl) refl

abbrev owned : List ℕ
owned = 1 ∷ []

owns_one : Owned 3 (release two_out 0) owned
owns_one = released (1 ∷ []) 0 [] owns_two

acquire-Owned_example :
    (available (release two_out 0) + length owned ≡ 3)
    × ((((acquire (release two_out 0)).0 ≡ none) × (length owned ≡ 3))
        ⊎ ((x : ℕ) × ((acquire (release two_out 0)).0 ≡ some x) × (x < 3) × (count x owned ≡ 0)))
acquire-Owned_example = acquire-Owned owns_one
