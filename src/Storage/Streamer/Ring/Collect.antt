-- ===== src/Storage/Streamer/Ring/Collect.antt =====
-- The reader thread of src/storage/streamer.c, and what `io_collect` finds of it.
use multi_model_llm_engine.Base.{
  ℕ, ◌≤◌, ◌≡◌, ◌≢◌, refl, subst, inl, inr, Bool, true, false, Option, none, some, arith, ◌==◌,
  is_some, Bool-cases, sym, List, take, drop, length,
}
use multi_model_llm_engine.Storage.Streamer.Ring.{
  Io, SlotBuffer, Streamer, after_read, from_pad, Collected, load_block, read_request,
  publish_block, io_collect,
}
use multi_model_llm_engine.Storage.Streamer.Ring.Sound.{
  Shows, Slots, IsSound, Pending, CanReuse, IsFaithful, update_same, write_free, enter,
}

-- The reader has not got the next slot of the ring.
abbrev pub Unclaimed : ℕ → Io → Type 0
Unclaimed ring (Io.reading _ i) = ring ≢ i
Unclaimed ring (Io.fetched _ i _) = ring ≢ i
Unclaimed ring Io.synchronous = Unit
Unclaimed ring Io.idle = Unit

module _ (content : ℕ → List ℕ) where
  pub got-content :
      (old : SlotBuffer) (o : Option (ℕ × List ℕ)) (b : ℕ)
      → ((pad : ℕ) (bytes : List ℕ)
          → o ≡ some (pad, bytes)
          → take (length (content b)) (drop pad bytes) ≡ content b)
      → is_some o ≡ true
      → Shows (content b) (after_read old o)
  unfolding after_read from_pad
  got-content old none b h e = absurd (ground arith)
  got-content old (some (pad, bytes)) b h e = h pad bytes refl

  -- What `io_collect` returned: no request for `b`, one that landed, or one that failed.
  unfoldable pub Collects : Streamer → ℕ → Collected × Streamer → Type 0
  Collects s b (Collected.nothing, s') = (s' ≡ s) × (CanReuse content s b → Unclaimed s.ring s.io)
  Collects s b (Collected.landed, s') =
      IsSound content s' × ((i : ℕ) × (s'.slot_of b ≡ some i) × (Shows (content b) (s'.arena i)))
  Collects s b (Collected.failed, s') = IsSound content s'

  module _ (read_aligned : ℕ → ℕ → ℕ → Option (ℕ × List ℕ))
      (faithful : IsFaithful content read_aligned) where
    read_io :
        (s : Streamer) (io : Io)
        → Slots content s.npin s.pin s.arena s.block_of s.slot_of
        → Pending content s.npin s.arena s.block_of io
        → IsSound content (read_request read_aligned (record s { io = io }))
    unfolding read_request load_block
    read_io s Io.synchronous h pend = record { slots = h; pending = tt }
    read_io s Io.idle h pend = record { slots = h; pending = tt }
    read_io s (Io.fetched b i ok) h pend = record { slots = h; pending = pend }
    read_io s (Io.reading b i) h (streamed, free) = record {
      slots =
          write_free content i (after_read (s.arena i) (read_aligned s.reads b s.slot_bytes)) h
            free;
      pending = (
        streamed,
        free,
        λ ok.
            subst (Shows (content b)) (sym (update_same s.arena i _))
              (got-content (s.arena i) _ b (faithful s.reads b s.slot_bytes) ok),
      );
    }

    -- A round of the reader thread keeps sound slots sound, if reads that succeed give their block's
    -- bytes.
    pub read_request-IsSound :
        (s : Streamer) → IsSound content s → IsSound content (read_request read_aligned s)
    read_request-IsSound s h = read_io s s.io h.slots h.pending

    publish_io :
        (s₀ s : Streamer) (b' b i : ℕ) (ok : Bool)
        → b' ≡ b
        → Slots content s.npin s.pin s.arena s.block_of s.slot_of
        → Pending content s.npin s.arena s.block_of (Io.fetched b' i ok)
        → Collects s₀ b (publish_block read_aligned (record s { io = Io.fetched b' i ok }) b)
    unfolding publish_block Collects
    publish_io s₀ s b' b i true e h (streamed, free, bytes) =
        let at_i : Shows (content b) (s.arena i) =
          subst (λ x. Shows (content x) (s.arena i)) e (bytes refl) in
        (
          record {
            slots = enter content i b h (subst (λ x. s.npin ≤ x) e streamed) at_i;
            pending = tt;
          },
          (i, update_same s.slot_of b (some i), at_i),
        )
    publish_io s₀ s b' b i false e h pend = record { slots = h; pending = tt }

    pub collect_io :
        (s : Streamer) (b : ℕ) (io : Io)
        → Slots content s.npin s.pin s.arena s.block_of s.slot_of
        → Pending content s.npin s.arena s.block_of io
        → Collects (record s { io = io }) b (io_collect read_aligned (record s { io = io }) b)
    unfolding io_collect read_request load_block Collects
    collect_io s b Io.synchronous h pend = (refl, λ u. u)
    collect_io s b Io.idle h pend = (refl, λ u. u)
    collect_io s b (Io.reading b' i) h (streamed, free) = elim (Bool-cases (b' == b)) [
      | inr e ↦ rw e (refl, λ u. elim u [ inl same ↦ absurd (ground arith) | inr ne ↦ ne ])
      | inl e ↦
          let done = read_io s (Io.reading b' i) h (streamed, free) in
          rw e (
            publish_io (record s { io = Io.reading b' i })
              (read_request read_aligned (record s { io = Io.reading b' i })) b' b i _
              (ground arith) done.slots done.pending)
    ]
    collect_io s b (Io.fetched b' i ok) h pend = elim (Bool-cases (b' == b)) [
      | inr e ↦ rw e (refl, λ u. elim u [ inl same ↦ absurd (ground arith) | inr ne ↦ ne ])
      | inl e ↦
          rw e (publish_io (record s { io = Io.fetched b' i ok }) s b' b i ok (ground arith) h pend)
    ]
