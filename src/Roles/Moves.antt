-- ===== src/Roles/Moves.antt =====
-- `generate_video` (roles/streamer.rs) moves its client only by the calls of Ipfs.Reach.
use live_tests.Base.{ℕ, ◌≡◌, refl, List, [], ◌∷◌, Outcome, ok, panic, ◌>>=◌, map, add64}
use live_tests.Exchange.{Cid, Bytes, Block}
use live_tests.Client.{Topic, Sender}
use live_tests.Client.Handle
use live_tests.Client.Handle.{IpfsClient}
use live_tests.Ipfs.{Ipfs}
use live_tests.Ipfs.Reach.{Call, publishes, adds_block, Reach, here, after, calls}
use live_tests.Blocks.{generate_blocks}
use live_tests.Params.{TestCaseParams}
use live_tests.VideoPlayer.{StreamerMessage}
use live_tests.Roles.Video.{add_all, Generated, generate_video}

Reach-trans : {s t u : Ipfs} → Reach s t → Reach t u → Reach s u
Reach-trans r here = r
Reach-trans r (after q st) = after (Reach-trans r q) st

-- What a call of the client comes to, reached from the client and service before it.
abbrev pub Reaches : {A : Type 0} → (A → IpfsClient) → Ipfs → Outcome A → Type 0
Reaches client n (ok a) = Reach n (record n { client = client a })
Reaches client n (panic e) = Unit

module _ {A : Type 0} where
  step-Reaches :
      (client : A → IpfsClient) (n : Ipfs) (out : Outcome A)
      → ((a : A) → out ≡ ok a → Call n.client (client a))
      → Reaches client n out
  step-Reaches client n (ok a) h = after here (calls (client a) (h a refl))
  step-Reaches client n (panic e) h = tt

module _ {A B : Type 0} where
  pub bind-Reaches :
      (from : A → IpfsClient) (to : B → IpfsClient) (n : Ipfs) (m : Outcome A) (f : A → Outcome B)
      → Reaches from n m
      → ((a : A) → Reaches to (record n { client = from a }) (f a))
      → Reaches to n (m >>= f)
  bind-Reaches from to n (ok a) f r h = later (f a) (h a)
    where
      later : (out : Outcome B) → Reaches to (record n { client = from a }) out → Reaches to n out
      later (ok b) q = Reach-trans r q
      later (panic e) q = tt
  bind-Reaches from to n (panic e) f r h = tt

pub publish-Reaches :
    (topic : Topic) (content : List ℕ) (n : Ipfs)
    → Reaches (λ x. x.0) n (Handle.publish topic content n.client)
publish-Reaches topic content n =
    step-Reaches (λ x. x.0) n (Handle.publish topic content n.client)
      (λ x e. publishes topic content x.1 e)

pub add_all-Reaches :
    (blocks : List Block) (n : Ipfs) → Reaches (λ c. c) n (add_all blocks n.client)
unfolding add_all
add_all-Reaches [] n = here
add_all-Reaches (b ∷ blocks) n =
    bind-Reaches (λ c. c) (λ c. c) n (Handle.add_block b n.client) (λ c. add_all blocks c)
      (step-Reaches (λ c. c) n (Handle.add_block b n.client) (λ c e. adds_block b e))
      (λ c. add_all-Reaches blocks (record n { client = c }))

module _ {R : Type 0} (fill_bytes : R → ℕ → R × List ℕ) (digest : List ℕ → Cid)
    (to_vec : StreamerMessage → Bytes) (gossipsub_topic : Topic) where
  -- The client after an announcement.
  abbrev generated : R → ℕ → IpfsClient × Sender → Generated R
  generated rng counter x = record { client = x.0; answer = x.1; rng = rng; counter = counter }

  announcing-Reaches :
      (blocks : List Block) (content : Bytes) (rng : R) (counter : ℕ) (n : Ipfs)
      → Reaches
          (λ (g : Generated R). g.client)
          n
          (add_all blocks n.client >>= λ c.
            Handle.publish gossipsub_topic content c >>= λ x. ok (generated rng counter x))
  announcing-Reaches blocks content rng counter n =
      let behind = λ (c : IpfsClient).
        Handle.publish gossipsub_topic content c >>= λ x. ok (generated rng counter x) in
      bind-Reaches (λ (c : IpfsClient). c) (λ (g : Generated R). g.client) n
        (add_all blocks n.client) behind (add_all-Reaches blocks n)
        (λ c.
          bind-Reaches (λ (x : IpfsClient × Sender). x.0) (λ (g : Generated R). g.client)
            (record n { client = c }) (Handle.publish gossipsub_topic content c)
            (λ x. ok (generated rng counter x))
            (publish-Reaches gossipsub_topic content (record n { client = c })) (λ x. here))

  pub generate_video-Reaches :
      (n : Ipfs) (rng : R) (counter : ℕ) (p : TestCaseParams) (timestamp : ℕ)
      → Reaches
          (λ (g : Generated R). g.client)
          n
          (generate_video fill_bytes digest to_vec gossipsub_topic n.client rng counter p timestamp)
  unfolding generate_video
  generate_video-Reaches n rng counter p timestamp =
      bind-Reaches (λ (made : R × List Block). n.client) (λ (g : Generated R). g.client) n
        (generate_blocks fill_bytes digest rng p.video_bitrate p.segment_length p.max_size_block) _
        (unmoved
          (generate_blocks fill_bytes digest rng p.video_bitrate p.segment_length p.max_size_block))
        (λ made.
          announcing-Reaches made.1
            (to_vec (record {
              count = counter;
              timestamp = timestamp;
              cids = map (λ (b : Block). b.cid) made.1;
            }))
            made.0 (add64 counter 1) n)
    where
      unmoved : (out : Outcome (R × List Block)) → Reaches (λ made. n.client) n out
      unmoved (ok made) = here
      unmoved (panic e) = tt
