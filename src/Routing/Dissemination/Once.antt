-- ===== src/Routing/Dissemination/Once.antt =====
-- Source-based dissemination (daemon/route.c) forwards a packet once, whatever comes in between.
use spines.Prelude.{
  ℕ, ◌≤◌, ◌<◌, ◌≡◌, ◌⊎◌, inl, inr, Option, none, some, List, [], ◌∷◌, arith, Option-cases,
}
use spines.Routing.Dissemination.{
  SeqPair, History, Packet, Env, is_duplicate, is_very_old, slot, record_seq,
  source_based_disseminate, receive,
}

-- What a slot holds is no older than a packet.
abbrev pub NotOlder : SeqPair → Packet → Type 0
NotOlder prev p =
    (p.source_incarnation < prev.incarnation)
    ⊎ ((p.source_incarnation ≡ prev.incarnation) × (p.source_seq ≤ prev.seq))

module _ (env : Env) where
  -- A packet of a known source is dropped exactly when its slot holds nothing older.
  dropped :
      (hist : History) (last_hop : Option ℕ) (p : Packet) (src_id : ℕ)
      → env.lookup_addr_to_id p.source ≡ some src_id
      → (NotOlder (hist src_id (slot p)) p
          → source_based_disseminate env hist last_hop p ≡ (none, hist))
        × ((source_based_disseminate env hist last_hop p).0 ≡ none
            → NotOlder (hist src_id (slot p)) p)
  unfolding source_based_disseminate is_duplicate is_very_old
  dropped hist last_hop p src_id e = (λ h. ground arith, λ h. ground arith)

  -- No packet makes a slot older.
  disseminate-NotOlder :
      (hist : History) (last_hop : Option ℕ) (q p : Packet) (src_id : ℕ)
      → NotOlder (hist src_id (slot p)) p
      → NotOlder ((source_based_disseminate env hist last_hop q).1 src_id (slot p)) p
  unfolding source_based_disseminate is_duplicate is_very_old
  disseminate-NotOlder hist last_hop q p src_id h =
      elim (Option-cases (env.lookup_addr_to_id q.source)) [
        | inl t ↦ rw (t, source_based_disseminate) h
        | inr (s, t) ↦ ground arith
      ]

  receive-NotOlder :
      (rest : List (Option ℕ × Packet)) (hist : History) (p : Packet) (src_id : ℕ)
      → NotOlder (hist src_id (slot p)) p
      → NotOlder (receive env rest hist src_id (slot p)) p
  unfolding receive
  receive-NotOlder [] hist p src_id h = h
  receive-NotOlder ((last_hop, q) ∷ rest) hist p src_id h =
      receive-NotOlder rest _ p src_id (disseminate-NotOlder hist last_hop q p src_id h)

  recorded-NotOlder :
      (hist hist' : History) (last_hop : Option ℕ) (p : Packet) (src_id : ℕ) (f : Packet × List ℕ)
      → env.lookup_addr_to_id p.source ≡ some src_id
      → source_based_disseminate env hist last_hop p ≡ (some f, hist')
      → NotOlder (hist' src_id (slot p)) p
  unfolding source_based_disseminate
  recorded-NotOlder hist hist' last_hop p src_id f e h =
      let s : hist' ≡ record_seq hist src_id p = ground arith in rw s (ground arith)

  -- A packet that was forwarded once is dropped whenever it comes again, from any neighbor and
  -- after any packets in between.
  pub forwarded_once :
      (hist hist' : History) (last_hop : Option ℕ) (p : Packet) (f : Packet × List ℕ)
      → source_based_disseminate env hist last_hop p ≡ (some f, hist')
      → (rest : List (Option ℕ × Packet)) (again : Option ℕ)
      → source_based_disseminate env (receive env rest hist') again p
        ≡ (none, receive env rest hist')
  forwarded_once hist hist' last_hop p f h rest again =
      elim (Option-cases (env.lookup_addr_to_id p.source)) [
        | inl t ↦ unfold source_based_disseminate in ground arith
        | inr (src_id, t) ↦ (dropped (receive env rest hist') again p src_id t).0 (
            receive-NotOlder rest hist' p src_id
              (recorded-NotOlder hist hist' last_hop p src_id f t h))
      ]
