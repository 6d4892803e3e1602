-- ===== src/Parallel/Tests.antt =====
-- Runs of the sort, and its theorem at a concrete input.
use mathlib.Core.List.{Perm}
use live_tests.Base.{ℕ, ◌≡◌, refl, List, [], ◌∷◌, map, ok, panic, out_of_range, swap}
use live_tests.Parallel.{sort}
use live_tests.Parallel.Insertion.{Ascending, with_key}
use live_tests.Parallel.Laws.{sort_lem}

abbrev keyed : List (ℕ × ℕ)
keyed = (3, 30) ∷ (1, 10) ∷ (3, 31) ∷ (2, 20) ∷ []

abbrev key : ℕ × ℕ → ℕ
key e = e.0

abbrev value : ℕ × ℕ → ℕ
value e = e.1

sorted_run :
    sort (map key keyed) (map value keyed) ≡ ok (1 ∷ 2 ∷ 3 ∷ 3 ∷ [], 10 ∷ 20 ∷ 30 ∷ 31 ∷ [])
unfolding sort swap
sorted_run = refl

-- A second vector that is too short makes an exchange panic.
uneven : sort (map key keyed) (value (1, 10) ∷ []) ≡ panic out_of_range
unfolding sort swap
uneven = refl

sort_lem_example :
    (out : List (ℕ × ℕ)) × (sort (map key keyed) (map value keyed)
      ≡ ok (map key out, map value out))
    × Ascending key out
    × Perm out keyed
    × ((k : ℕ) → with_key key k out ≡ with_key key k keyed)
sort_lem_example = sort_lem key value keyed
