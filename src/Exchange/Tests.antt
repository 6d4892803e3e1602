-- ===== src/Exchange/Tests.antt =====
-- Runs of the exchange, and each theorem at a concrete input.
use live_tests.Base.{
  ◌==◌, if◌then◌else◌, zero, suc, ◌≡◌, ◌≢◌, refl, List, [], ◌∷◌, map, Bool, true, none, some,
  Option, Outcome, ok, panic, swap, arith,
}
use live_tests.Exchange.{
  PeerId, Cid, Block, BlockExchange, default, add_want, remove_want, remove_wants, add_block,
  get_block, insertion_sort_wants, iter_wanted_blocks, iter_who_want_block,
}
use live_tests.Exchange.Represents.{Represents, default-Represents}
use live_tests.Exchange.Want.{add_want-Represents}
use live_tests.Exchange.Pass.{Keeps}
use live_tests.Exchange.Remove.{other_cid, other_want, remove_want-Keeps, remove_wants-Keeps}
use live_tests.Exchange.Iterate.{
  held_wants, block_of, iter_wanted_blocks-held_wants, iter_who_want_block-wanters,
}
use live_tests.Exchange.Sort.{Grouped, insertion_sort_wants-Grouped}
use live_tests.Exchange.AddBlock.Both.{AddsBlock, add_block_cases}
use live_tests.Exchange.Misfiled.{
  OthersHeld, add_block_files, add_block_misfiles, add_block_loses_wants,
}
use live_tests.Exchange.Ops.{
  Call, adds_want, removes_want, sorts_wants, adds_block, ReturnsValid, apply_all,
  apply_all-default,
}

abbrev block_10 : Block
block_10 = record { cid = 10; bytes = 5 ∷ [] }

-- Peer 1 wants block 10.
abbrev one_want : BlockExchange
one_want = add_want default 1 10

-- Peers 2 and 1 want block 10, and peer 2 wants block 20.
abbrev three_wants : BlockExchange
three_wants = add_want (add_want (add_want default 2 10) 1 10) 2 20

abbrev three_pairs : List (PeerId × Cid)
three_pairs = (2, 10) ∷ (1, 10) ∷ (2, 20) ∷ []

one_want-Represents : Represents one_want ((1, 10) ∷ [])
one_want-Represents = (add_want-Represents default [] 1 10 default-Represents).0

three_wants-Represents : Represents three_wants three_pairs
three_wants-Represents =
    let one = (add_want-Represents default [] 2 10 default-Represents).0 in
    let two = (add_want-Represents (add_want default 2 10) ((2, 10) ∷ []) 1 10 one).0 in
    (add_want-Represents (add_want (add_want default 2 10) 1 10) ((2, 10) ∷ (1, 10) ∷ []) 2 20
      two).0

who_wants_10 : iter_who_want_block three_wants 10 ≡ ok (2 ∷ 1 ∷ [])
unfolding iter_who_want_block add_want
who_wants_10 = refl

abbrev lookups : Outcome (BlockExchange × Bool) → Outcome (Option Block × Option Block)
lookups (ok (e, _)) = ok (get_block e 10, get_block e 20)
lookups (panic f) = panic f

-- A block for a known CID with another CID still missing: its data goes to the other one.
block_goes_astray :
    lookups (add_block three_wants block_10) ≡ ok (none, some (record { cid = 20; bytes = 5 ∷ [] }))
unfolding add_block add_want swap get_block
block_goes_astray = refl

add_want-Represents_example :
    Represents (add_want one_want 2 20) ((1, 10) ∷ (2, 20) ∷ [])
    × ((add_want one_want 2 20).datums ≡ one_want.datums)
    × ((c : Cid) → get_block (add_want one_want 2 20) c ≡ get_block one_want c)
add_want-Represents_example = add_want-Represents one_want ((1, 10) ∷ []) 2 20 one_want-Represents

remove_want-Keeps_example :
    Keeps three_wants three_pairs (other_want 2 10) (remove_want three_wants 2 10)
remove_want-Keeps_example = remove_want-Keeps three_wants three_pairs 2 10 three_wants-Represents

remove_wants-Keeps_example :
    Keeps three_wants three_pairs (other_cid 10) (remove_wants three_wants 10)
remove_wants-Keeps_example = remove_wants-Keeps three_wants three_pairs 10 three_wants-Represents

iter_wanted_blocks-held_wants_example :
    iter_wanted_blocks three_wants ≡ map ok (held_wants three_wants three_pairs)
iter_wanted_blocks-held_wants_example =
    iter_wanted_blocks-held_wants three_wants three_pairs three_wants-Represents

iter_who_want_block-wanters_example : iter_who_want_block three_wants 10 ≡ ok (2 ∷ 1 ∷ [])
iter_who_want_block-wanters_example =
    iter_who_want_block-wanters three_wants three_pairs three_wants-Represents 10

insertion_sort_wants-Grouped_example :
    Grouped three_wants three_pairs (insertion_sort_wants three_wants)
insertion_sort_wants-Grouped_example =
    insertion_sort_wants-Grouped three_wants three_pairs three_wants-Represents

add_block_cases_example : AddsBlock three_wants three_pairs block_10
add_block_cases_example = add_block_cases three_wants three_pairs block_10 three_wants-Represents

add_block_misfiles_example :
    (after : BlockExchange) × (add_block three_wants block_10 ≡ ok (after, true))
    × (get_block after 10 ≡ none)
    × ((z : Cid) × (z ≢ 10) × (get_block after z ≡ some (block_of z (5 ∷ []))))
unfolding get_block add_want
add_block_misfiles_example =
    add_block_misfiles three_wants three_pairs three_wants-Represents block_10 refl 1 20 refl
      (omega arith) refl

-- Block 10 is the only one that is known.
one_want-OthersHeld : OthersHeld one_want 10
unfolding add_want
one_want-OthersHeld zero c h other = λ _. other (ground arith)
one_want-OthersHeld (suc k) c h other = cc

add_block_files_example :
    (after : BlockExchange) × (add_block one_want block_10 ≡ ok (after, true))
    × Represents after ((1, 10) ∷ [])
    × ((c : Cid) → get_block after c ≡ (if c == 10 then some block_10 else get_block one_want c))
unfolding get_block add_want
add_block_files_example =
    add_block_files one_want ((1, 10) ∷ []) one_want-Represents block_10 refl one_want-OthersHeld

add_block_loses_wants_example :
    (after : BlockExchange) × (add_block three_wants block_10 ≡ ok (after, true))
    × (iter_who_want_block after 10 ≡ ok [])
unfolding get_block add_want
add_block_loses_wants_example =
    add_block_loses_wants three_wants three_pairs three_wants-Represents block_10 refl 0 refl
      (omega arith)

abbrev calls : List Call
calls = adds_want 1 10 ∷ adds_want 2 20 ∷ adds_block block_10 ∷ sorts_wants ∷ removes_want 1 20 ∷ []

apply_all-default_example : ReturnsValid (apply_all default calls)
apply_all-default_example = apply_all-default calls
