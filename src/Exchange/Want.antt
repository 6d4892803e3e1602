-- ===== src/Exchange/Want.antt =====
-- `add_want` puts one want at the end.
use mathlib.Core.List.{map-append}
use live_tests.Base.{
  ℕ, ◌≤◌, ◌≡◌, refl, sym, ap, ◌∙◌, List, [], ◌∷◌, ◌++◌, some, All-mono, All-append, length,
  length-append, get_elem?, get_elem?-append, get_elem?-last, position, position-get_elem?,
  Distinct, Distinct-push, Option-cases, inl, inr, arith,
}
use live_tests.Exchange.{PeerId, Cid, BlockExchange, get_block, intern, add_want}
use live_tests.Exchange.Represents.{Entry, Resolves, Represents}
use live_tests.Exchange.Lookup.{get_block-add_want}

-- After `intern` the identifier has its place, every old place keeps its identifier, and the
-- places stay distinct.
record Interned (table : List ℕ) (a : ℕ) (out : List ℕ × ℕ) : Type 0 where
  found : get_elem? out.0 out.1 ≡ some a
  kept : (i b : ℕ) → get_elem? table i ≡ some b → get_elem? out.0 i ≡ some b
  distinct : Distinct table → Distinct out.0
  grown : length table ≤ length out.0

intern-Interned : (table : List ℕ) (a : ℕ) → Interned table a (intern table a)
unfolding intern
intern-Interned table a = elim (Option-cases (position a table)) [
  | inl e ↦ rw e (record {
    found = get_elem?-last table a;
    kept = λ i b h. get_elem?-append table (a ∷ []) i b h;
    distinct = λ d. Distinct-push table a d e;
    grown = omega (arith, length-append table (a ∷ []));
  })
  | inr (i, e) ↦ rw e (record {
    found = position-get_elem? a table i e;
    kept = λ j b h. h;
    distinct = λ d. d;
    grown = omega arith;
  })
]

-- The want goes to the end of the list, whether peer and CID are new or known. The data stays, and
-- under every CID the same block is found as before, or none as before.
pub add_want-Represents :
    (e : BlockExchange) (w : List (PeerId × Cid)) (peer_id : PeerId) (cid : Cid)
    → Represents e w
    → Represents (add_want e peer_id cid) (w ++ (peer_id, cid) ∷ [])
      × ((add_want e peer_id cid).datums ≡ e.datums)
      × ((c : Cid) → get_block (add_want e peer_id cid) c ≡ get_block e c)
unfolding add_want
add_want-Represents e w peer_id cid r =
    let p = intern-Interned e.peers peer_id in
    let c = intern-Interned e.cids cid in
    let fresh : Entry = record {
      peer_index = (intern e.peers peer_id).1;
      cid_index = (intern e.cids cid).1;
      peer = peer_id;
      cid = cid;
    } in
    (
      record {
        entries = r.entries ++ fresh ∷ [];
        peer_side =
            ap (λ v. v ++ fresh.peer_index ∷ []) r.peer_side ∙ sym (map-append _ r.entries _);
        cid_side = ap (λ v. v ++ fresh.cid_index ∷ []) r.cid_side ∙ sym (map-append _ r.entries _);
        wants = ap (λ v. v ++ (peer_id, cid) ∷ []) r.wants ∙ sym (map-append _ r.entries _);
        resolved =
            All-append (Resolves (add_want e peer_id cid)) r.entries (fresh ∷ [])
              ((p.found, c.found), tt)
              (All-mono (Resolves e) (Resolves (add_want e peer_id cid))
                (λ n h. (p.kept n.peer_index n.peer h.0, c.kept n.cid_index n.cid h.1)) r.entries
                r.resolved);
        peers_distinct = p.distinct r.peers_distinct;
        cids_distinct = c.distinct r.cids_distinct;
        held = let h = r.held in let g = c.grown in omega arith;
      },
      refl,
      λ c. get_block-add_want e w peer_id cid c r,
    )
