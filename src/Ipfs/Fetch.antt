-- ===== src/Ipfs/Fetch.antt =====
-- The task that the player spawns for an announcement (`play` of
-- plans/streaming_test/src/video_player.rs): it gets every block and then reports the segment.
pub mod Handled
pub mod Asked
pub mod Brought
pub mod Joined
pub mod Done
use live_tests.Base.{
  ℕ, zero, suc, List, [], ◌∷◌, Bool, true, false, ◌&&◌, ◌||◌, Option, none, some, Outcome, ok,
  panic, ◌>>=◌, ◌==◌,
}
use live_tests.Exchange.{PeerId, Cid, Block}
use live_tests.Client.{Sender}
use live_tests.Client.Handle
use live_tests.Client.Handle.{IpfsClient}
use live_tests.Service.Events.{Reply, World}
use live_tests.Ipfs.{Ipfs, take, hear, receive}
use live_tests.Ipfs.Calls.{arrives}

-- The calls of `get_block` up to their awaits. `join_all` makes them in order when it is polled first.
unfoldable pub request_all : List Cid → IpfsClient → Outcome (IpfsClient × List Sender)
unfolding Handle.get_block
request_all [] c = ok (c, [])
request_all (cid ∷ cids) c = do
  (c', k) ← Handle.get_block cid c
  (c'', ks) ← request_all cids c'
  ok (c'', k ∷ ks)

-- One more future that is joined: a panic of one is a panic of all, and all wait while one does.
abbrev pub joined :
    Option (Outcome Reply) → Option (Outcome (List Reply)) → Option (Outcome (List Reply))
joined (some (panic e)) rest = some (panic e)
joined none (some (panic e)) = some (panic e)
joined none (some (ok rs)) = none
joined none none = none
joined (some (ok r)) (some (ok rs)) = some (ok (r ∷ rs))
joined (some (ok r)) (some (panic e)) = some (panic e)
joined (some (ok r)) none = none

unfoldable pub join_all : List Sender → Ipfs → Option (Outcome (List Reply))
unfolding receive
join_all [] n = some (ok [])
join_all (k ∷ ks) n = joined (receive k n) (join_all ks n)

-- The results are dropped, and the segment is sent to the player.
abbrev pub reported : ℕ → ℕ → Option (Outcome (List Reply)) → Option (Outcome (ℕ × ℕ))
reported count timestamp none = none
reported count timestamp (some (panic e)) = some (panic e)
reported count timestamp (some (ok rs)) = some (ok (count, timestamp))

-- What the task, once it has been polled, has sent to the player: `none` while it waits.
unfoldable pub fetch : ℕ → ℕ → List Sender → Ipfs → Option (Outcome (ℕ × ℕ))
unfolding join_all
fetch count timestamp ks n = reported count timestamp (join_all ks n)

-- Some blocks come from peers.
abbrev pub brought : World → List (PeerId × Block) → Ipfs → Ipfs
brought world [] n = n
brought world (x ∷ xs) n = brought world xs (hear world (arrives x.0 x.1) n)

abbrev pub arrived : Cid → List (PeerId × Block) → Bool
arrived cid [] = false
arrived cid (x ∷ xs) = x.1.cid == cid || arrived cid xs

abbrev pub all_arrived : List Cid → List (PeerId × Block) → Bool
all_arrived [] xs = true
all_arrived (cid ∷ cids) xs = arrived cid xs && all_arrived cids xs
