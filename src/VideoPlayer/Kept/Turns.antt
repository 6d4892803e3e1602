-- ===== src/VideoPlayer/Kept/Turns.antt =====
-- The announcements and the segments over the turns of the player's loop (video_player.rs).
use live_tests.Base.{
  ◌≡◌, refl, sym, ap, subst, ◌∙◌, List, [], ◌∷◌, ◌++◌, Bool, true, false, none, some, All, ok,
  sub64,
}
use mathlib.Core.List.{Perm}
use mathlib.Core.List.Perm
use mathlib.Core.List.{append-nil, append_assoc}
use live_tests.VideoPlayer.{VideoStream, StreamerMessage, Delay, jitter_since, add_gossip}
use live_tests.VideoPlayer.Buffer.{Entry, Buffered, add_segment-Buffered}
use live_tests.VideoPlayer.Run.{Turn, sleep, recv, tick, next, Output, gossips, blocks, video, run}
use live_tests.VideoPlayer.Kept.{same_buffer, TakenOff, taken, play-Ticks}

-- Up to the end of the simulation: the announcements that come, and the segments with their
-- timestamps.
abbrev pub announced : List Turn → List StreamerMessage
announced [] = []
announced (sleep ∷ turns) = []
announced (recv _ _ _ ∷ turns) = announced turns
announced (tick _ ∷ turns) = announced turns
announced (next _ msg ∷ turns) = taken msg ++ announced turns

abbrev pub received : List Turn → List Entry
received [] = []
received (sleep ∷ turns) = []
received (recv _ i timestamp ∷ turns) = (i, timestamp) ∷ received turns
received (tick _ ∷ turns) = received turns
received (next _ _ ∷ turns) = received turns

-- The announcements whose blocks are fetched.
abbrev pub fetched : List Output → List StreamerMessage
fetched [] = []
fetched (gossips _ ∷ out) = fetched out
fetched (blocks _ ∷ out) = fetched out
fetched (video fetch _ ∷ out) = taken fetch ++ fetched out

-- The entries of `gone` are those that the ticks took off, in the order of the ticks, each as the
-- tick's metric says.
abbrev pub Shown : List Turn → List Output → List Entry → Type 0
Shown [] [] gone = gone ≡ []
Shown (sleep ∷ turns) [] gone = gone ≡ []
Shown (recv _ _ _ ∷ turns) (blocks _ ∷ out) gone = Shown turns out gone
Shown (next _ _ ∷ turns) (gossips _ ∷ out) gone = Shown turns out gone
Shown (tick now_time ∷ turns) (video _ metric ∷ out) gone =
    (here later : List Entry) × (gone ≡ here ++ later)
    × TakenOff now_time metric.played here
    × Shown turns out later
Shown turns out gone = ⊥

-- Every message on the topic deserializes.
abbrev pub readable : Turn → Bool
readable (next _ none) = false
readable _ = true

abbrev pub RunKeeps : VideoStream → List Entry → List Turn → Type 0
RunKeeps s es turns =
    (t : VideoStream) × (out : List Output) × (gone left : List Entry) × (run s turns ≡ ok (t, out))
    × Buffered t left
    × Perm (es ++ received turns) (gone ++ left)
    × Shown turns out gone
    × (s.gossips ++ announced turns ≡ fetched out ++ t.gossips)

none_came : (es : List Entry) → Perm (es ++ []) ([] ++ es)
none_came es = subst (λ fs. Perm fs es) (sym (append-nil es)) Perm.rfl

came_in :
    (es : List Entry) (x : Entry) (es' used later : List Entry)
    → Perm es' (es ++ x ∷ [])
    → Perm (es' ++ later) used
    → Perm (es ++ x ∷ later) used
came_in es x es' used later perm n =
    Perm.trans
      (subst (λ fs. Perm fs (es' ++ later)) (append_assoc es (x ∷ []) later)
        (Perm.append_right later (Perm.symm perm)))
      n

went_out :
    (here es es' gone left later : List Entry)
    → es ≡ here ++ es'
    → Perm (es' ++ later) (gone ++ left)
    → Perm (es ++ later) ((here ++ gone) ++ left)
went_out here es es' gone left later split n =
    subst (λ fs. Perm fs ((here ++ gone) ++ left))
      (sym (ap (λ v. v ++ later) split ∙ append_assoc here es' later))
      (subst (λ fs. Perm (here ++ (es' ++ later)) fs) (sym (append_assoc here gone left))
        (Perm.append_left here n))

-- If every message on the topic deserializes, the player's loop does not panic. Its buffer stays in
-- order with its timestamps. Until the simulation ends, the segments that it held and those
-- that come are, with their timestamps and none twice or left out, those that the ticks played or
-- skipped and those still buffered at the end; a tick plays the last of those it takes off, with the latency from that
-- segment's timestamp, and counts the others as skipped. Announcements are fetched in the order in
-- which they came, none twice and none left out.
pub run-Keeps :
    (s : VideoStream) (es : List Entry) (turns : List Turn)
    → Buffered s es
    → All (λ turn. readable turn ≡ true) turns
    → RunKeeps s es turns
unfolding run add_gossip
run-Keeps s es [] b h = (s, [], [], es, refl, b, none_came es, refl, append-nil s.gossips)
run-Keeps s es (sleep ∷ turns) b h =
    (s, [], [], es, refl, b, none_came es, refl, append-nil s.gossips)
run-Keeps s es (recv receive_time i timestamp ∷ turns) b h =
    let (u, metric, es', added, c, perm, _, _, same, _, _) =
      add_segment-Buffered s es receive_time i timestamp b in
    let (t, out, gone, left, returns, d, n, shown, fifo) = run-Keeps u es' turns c h.1 in
    (
      t,
      blocks metric ∷ out,
      gone,
      left,
      rw (added, returns) refl,
      d,
      came_in es _ es' _ (received turns) perm n,
      shown,
      ap (λ q. q ++ announced turns) (sym same) ∙ fifo,
    )
run-Keeps s es (tick now_time ∷ turns) b h =
    let (u, fetch, metric, here, es', played, c, split, taken_off, first) =
      play-Ticks s es now_time b in
    let (t, out, gone, left, returns, d, n, shown, fifo) = run-Keeps u es' turns c h.1 in
    (
      t,
      video fetch metric ∷ out,
      here ++ gone,
      left,
      rw (played, returns) refl,
      d,
      went_out here es es' gone left (received turns) split n,
      (here, gone, refl, taken_off, shown),
      ap (λ q. q ++ announced turns) first
          ∙ append_assoc (taken fetch) u.gossips (announced turns)
          ∙ ap (λ q. taken fetch ++ q) fifo
          ∙ sym (append_assoc (taken fetch) (fetched out) t.gossips),
    )
run-Keeps s es (next receive_time none ∷ turns) b h = cc
run-Keeps s es (next receive_time (some msg) ∷ turns) b h =
    let u = record s { last_gossip_time = receive_time; gossips = s.gossips ++ msg ∷ [] } in
    let (t, out, gone, left, returns, d, n, shown, fifo) =
      run-Keeps u es turns (same_buffer s u es refl refl b) h.1 in
    let metric : Delay = record {
      latency = sub64 receive_time msg.timestamp;
      jitter = jitter_since s.last_gossip_time s.segment_length receive_time;
      segment_number = msg.count;
    } in
    (
      t,
      gossips metric ∷ out,
      gone,
      left,
      rw returns refl,
      d,
      n,
      shown,
      sym (append_assoc s.gossips (msg ∷ []) (announced turns)) ∙ fifo,
    )
