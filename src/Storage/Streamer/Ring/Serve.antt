-- ===== src/Storage/Streamer/Ring/Serve.antt =====
-- The calls of src/storage/streamer.c return the bytes of the block that they are asked for.
use multi_model_llm_engine.Base.{
  ℕ, zero, suc, ◌≤◌, ◌<◌, ◌≡◌, ◌≢◌, ap, sym, ◌∙◌, subst, inl, inr, Option, none, some, arith, leb,
  ltb, ◌==◌, Bool-cases, Option-cases, refl, List, take, length,
}
use multi_model_llm_engine.Base.Words.{update}
use multi_model_llm_engine.Storage.Streamer.Sizing.{need}
use multi_model_llm_engine.Storage.Streamer.Ring.{
  Io, SlotBuffer, Streamer, after_read, Place, Collected, find, bytes_at, claim, load_block,
  get_pinned, get_read, get_streamed, streamer_get, ring_slot,
}
use multi_model_llm_engine.Storage.Streamer.Ring.Sound.{
  Shows, IsSound, Pending, CanReuse, IsFaithful, update_same, update_other, none-some,
  some_injective, write_free, enter, leave, write_pin, enter_pin,
}
use multi_model_llm_engine.Storage.Streamer.Ring.Collect.{
  Unclaimed, Collects, collect_io, got-content,
}

-- A block that the search finds is in the slot that it names.
find-entered :
    (block_of : ℕ → Option ℕ) (b i left k : ℕ)
    → find block_of b i left ≡ some k
    → block_of k ≡ some b
unfolding find
find-entered block_of b i zero k h = absurd (none-some k h)
find-entered block_of b i (suc left) k h = elim (Option-cases (block_of i)) [
  | inl e ↦ find-entered block_of b (suc i) left k (rw (e, find) at h)
  | inr (b', e) ↦ elim (Bool-cases (b' == b)) [
    | inl same ↦
        ap block_of (sym (some_injective (rw (e, same, find) at h))) ∙ e ∙ ap some (ground arith)
    | inr other ↦ find-entered block_of b (suc i) left k (rw (e, other, find) at h)
  ]
]

module _ (content : ℕ → List ℕ) where
  -- A request survives when another slot is taken and written.
  take_other :
      (npin : ℕ) (arena arena' : ℕ → SlotBuffer) (block_of block_of' : ℕ → Option ℕ) (io : Io)
      (i : ℕ)
      → Unclaimed i io
      → ((j : ℕ) → j ≢ i → arena' j ≡ arena j)
      → ((j : ℕ) → j ≢ i → block_of' j ≡ block_of j)
      → Pending content npin arena block_of io
      → Pending content npin arena' block_of' io
  take_other npin arena arena' block_of block_of' Io.synchronous i u same_a same_b h = tt
  take_other npin arena arena' block_of block_of' Io.idle i u same_a same_b h = tt
  take_other npin arena arena' block_of block_of' (Io.reading b j) i u same_a same_b h =
      (h.0, same_b j (λ e. u (sym e)) ∙ h.1)
  take_other npin arena arena' block_of block_of' (Io.fetched b j ok) i u same_a same_b h = (
    h.0,
    same_b j (λ e. u (sym e)) ∙ h.1,
    λ good. subst (Shows (content b)) (sym (same_a j (λ e. u (sym e)))) (h.2 good),
  )

  -- What a call returned, and what it left: a place with the bytes of `b`, or nothing.
  pub Serves : ℕ → Option Place × Streamer → Type 0
  Serves b (none, s) = IsSound content s
  Serves b (some p, s) = IsSound content s × (take (length (content b)) (bytes_at s p) ≡ content b)

  pub Serves-IsSound : (b : ℕ) (r : Option Place × Streamer) → Serves b r → IsSound content r.1
  unfolding Serves
  Serves-IsSound b (none, s) h = h
  Serves-IsSound b (some p, s) h = h.0

  module _ (read_aligned : ℕ → ℕ → ℕ → Option (ℕ × List ℕ))
      (faithful : IsFaithful content read_aligned) where
    get_read-Serves :
        (s : Streamer) (b : ℕ)
        → IsSound content s
        → s.npin ≤ b
        → Unclaimed s.ring s.io
        → Serves b (get_read read_aligned s b)
    unfolding get_read claim load_block Serves bytes_at
    get_read-Serves s b h streamed u =
        let left = leave content s.ring h.slots in
        let got = after_read (s.arena s.ring) (read_aligned s.reads b s.slot_bytes) in
        elim (Option-cases (read_aligned s.reads b s.slot_bytes)) [
          | inl e ↦
              rw (e, get_read, Serves)
                (record {
                  slots = write_free content s.ring got left (update_same s.block_of s.ring none);
                  pending =
                      take_other s.npin s.arena _ s.block_of _ s.io s.ring u
                        (λ j. update_other s.arena got) (λ j. update_other s.block_of none)
                        h.pending;
                })
          | inr ((pad, bytes), e) ↦
              let at_ring : Shows (content b) (update s.arena s.ring got s.ring) =
                subst (Shows (content b)) (sym (update_same s.arena s.ring got)) (
                  got-content content (s.arena s.ring) _ b (faithful s.reads b s.slot_bytes)
                    (rw e refl)) in
              rw (e, get_read, Serves)
                (
                  record {
                    slots =
                        enter content s.ring b
                          (write_free content s.ring got left (update_same s.block_of s.ring none))
                          streamed at_ring;
                    pending =
                        take_other s.npin s.arena _ s.block_of _ s.io s.ring u
                          (λ j. update_other s.arena got)
                          (λ j ne.
                            update_other (update s.block_of s.ring none) (some b) ne
                            ∙ update_other s.block_of none ne)
                          h.pending;
                  },
                  at_ring,
                )
        ]

    get_streamed-Serves :
        (s : Streamer) (b : ℕ)
        → IsSound content s
        → s.npin ≤ b
        → Unclaimed s.ring s.io
        → Serves b (get_streamed read_aligned s b)
    unfolding get_streamed Serves bytes_at
    get_streamed-Serves s b h streamed u = elim (Option-cases (find s.block_of b 0 s.nslot)) [
      | inl e ↦ rw (e, get_streamed, Serves) (get_read-Serves s b h streamed u)
      | inr (i, e) ↦
          rw (e, get_streamed, Serves)
            (
              record { slots = h.slots; pending = h.pending },
              (h.slots.resident i b (find-entered s.block_of b 0 s.nslot i e)).1,
            )
    ]

    get_pinned-Serves :
        (s : Streamer) (b : ℕ)
        → IsSound content s
        → b < s.npin
        → Serves b (get_pinned read_aligned s b)
    unfolding get_pinned load_block Serves bytes_at
    get_pinned-Serves s b h less = elim (Option-cases (s.slot_of b)) [
      | inr (k, e) ↦
          rw (e, get_pinned, Serves)
            (record { slots = h.slots; pending = h.pending }, h.slots.pinned b k less e)
      | inl free ↦ elim (Option-cases (read_aligned s.reads b (need s.extra_bytes (s.nbytes b)))) [
        | inl e ↦
            rw (free, e, get_pinned, Serves)
              (record { slots = write_pin content b _ h.slots free; pending = h.pending })
        | inr ((pad, bytes), e) ↦
            let got =
              after_read (s.pin b) (read_aligned s.reads b (need s.extra_bytes (s.nbytes b))) in
            let at_b : Shows (content b) (update s.pin b got b) =
              subst (Shows (content b)) (sym (update_same s.pin b got)) (
                got-content content (s.pin b) _ b
                  (faithful s.reads b (need s.extra_bytes (s.nbytes b))) (rw e refl)) in
            rw (free, e, get_pinned, Serves)
              (
                record {
                  slots = enter_pin content b b (write_pin content b got h.slots free) at_b;
                  pending = h.pending;
                },
                at_b,
              )
      ]
    ]

    streamed_after :
        (s s' : Streamer) (b : ℕ) (c : Collected)
        → IsSound content s
        → CanReuse content s b
        → s.npin ≤ b
        → Collects content s b (c, s')
        → Serves b (elim c as (λ _. Option Place × Streamer) [
          | Collected.failed ↦ (none, s')
          | Collected.landed ↦
              (elim (s'.slot_of b) [ none ↦ none | some i ↦ some (ring_slot i) ], s')
          | Collected.nothing ↦ get_streamed read_aligned s' b
        ])
    unfolding Collects Serves bytes_at
    streamed_after s s' b Collected.failed h u streamed held = held
    streamed_after s s' b Collected.landed h u streamed (sound, (i, at_b, bytes)) =
        rw (at_b, Serves) (sound, bytes)
    streamed_after s s' b Collected.nothing h u streamed (same, unclaimed) =
        subst (λ x. Serves b (get_streamed read_aligned x b)) (sym same)
          (get_streamed-Serves s b h streamed (unclaimed u))

    -- `eng_streamer_get` on sound slots, when the next slot of the ring is not the reader's for
    -- another block and reads that succeed give their block's bytes, leaves the slots sound; and if
    -- it returns a place, the bytes from the payload's place in that buffer on begin with those of the
    -- block asked for, whether it was pinned, found, collected from the reader or read.
    pub streamer_get-Serves :
        (s : Streamer) (b : ℕ)
        → IsSound content s
        → CanReuse content s b
        → Serves b (streamer_get read_aligned s b)
    unfolding streamer_get Serves
    streamer_get-Serves s b h u = elim (Bool-cases (leb s.nblocks b)) [
      | inl e ↦ rw (e, streamer_get, Serves) h
      | inr e ↦ elim (Bool-cases (ltb b s.npin)) [
        | inl f ↦ rw (e, f, streamer_get) (get_pinned-Serves s b h (ground arith))
        | inr f ↦
            rw (e, f, streamer_get)
              (streamed_after s _ b _ h u (ground arith)
                (collect_io content read_aligned faithful s b s.io h.slots h.pending))
      ]
    ]
