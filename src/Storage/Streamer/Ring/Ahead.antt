-- ===== src/Storage/Streamer/Ring/Ahead.antt =====
-- `eng_streamer_prefetch` of src/storage/streamer.c.
use native.Mathlib.Nat.{mod-eq_of_lt, mod_self}
use multi_model_llm_engine.Base.{
  List, ℕ, ◌+◌, ◌%◌, ◌≤◌, ◌<◌, ◌≡◌, ◌≢◌, sym, subst, inl, inr, ◌||◌, none, arith, leb, ltb,
  if◌then◌else◌, is_some, dec_lt, Bool-cases,
}
use multi_model_llm_engine.Storage.Streamer.Ring.{Io, Streamer, find, claim, streamer_prefetch}
use multi_model_llm_engine.Storage.Streamer.Ring.Sound.{
  Slots, IsSound, Pending, CanReuse, update_same, leave,
}

next-slot : (r n : ℕ) → 1 < n → r < n → (r + 1) % n ≢ r
next-slot r n two less e = elim (dec_lt (r + 1) n) [
  | yes within ↦ absurd (omega (arith, mod-eq_of_lt within))
  | no last ↦
      let whole : r + 1 ≡ n = omega arith in
      let start : (r + 1) % n ≡ 0 = rw whole (mod_self n) in absurd (omega arith)
]

module _ (content : ℕ → List ℕ) where
  request_io :
      (s : Streamer) (b : ℕ) (io : Io)
      → Slots content s.npin s.pin s.arena s.block_of s.slot_of
      → Pending content s.npin s.arena s.block_of io
      → s.npin ≤ b
      → IsSound content (elim io as (λ _. Streamer) [
        | Io.idle ↦
            if is_some (s.slot_of b)
            then record s { io = io }
            else record ((claim s).1) { io = Io.reading b (claim s).0 }
        | _ ↦ record s { io = io }
      ])
  unfolding claim
  request_io s b Io.synchronous h pend streamed = record { slots = h; pending = pend }
  request_io s b (Io.reading _ _) h pend streamed = record { slots = h; pending = pend }
  request_io s b (Io.fetched _ _ _) h pend streamed = record { slots = h; pending = pend }
  request_io s b Io.idle h pend streamed = elim (Bool-cases (is_some (s.slot_of b))) [
    | inl e ↦ rw e (record { slots = h; pending = tt })
    | inr e ↦ rw e (record {
      slots = leave content s.ring h;
      pending = (streamed, update_same s.block_of s.ring none);
    })
  ]

  -- `eng_streamer_prefetch` leaves sound slots sound, whatever the reader is doing.
  pub streamer_prefetch-IsSound :
      (s : Streamer) (b : ℕ) → IsSound content s → IsSound content (streamer_prefetch s b)
  unfolding streamer_prefetch claim
  streamer_prefetch-IsSound s b h =
      elim (Bool-cases (leb s.nblocks b || ltb b s.npin || is_some (find s.block_of b 0 s.nslot))) [
        | inl e ↦ rw (e, streamer_prefetch) h
        | inr e ↦ rw (e, streamer_prefetch) (request_io s b s.io h.slots h.pending (ground arith))
      ]

  -- After `eng_streamer_prefetch` with two or more slots, the ring at one of them and a reader
  -- without a request, the next slot of the ring is not the reader's, so that `eng_streamer_get` may
  -- be called for any block.
  pub streamer_prefetch-CanReuse :
      (s : Streamer) (b b' : ℕ)
      → 1 < s.nslot
      → s.ring < s.nslot
      → s.io ≡ Io.idle
      → CanReuse content (streamer_prefetch s b) b'
  unfolding streamer_prefetch claim
  streamer_prefetch-CanReuse s b b' two ring idle =
      elim (Bool-cases (leb s.nblocks b || ltb b s.npin || is_some (find s.block_of b 0 s.nslot))) [
        | inl e ↦ rw (e, streamer_prefetch) free
        | inr e ↦
            rw (e, streamer_prefetch)
              (subst
                (λ io.
                  CanReuse content
                    (elim io as (λ _. Streamer) [
                      | Io.idle ↦
                          if is_some (s.slot_of b)
                          then s
                          else record ((claim s).1) { io = Io.reading b (claim s).0 }
                      | _ ↦ s
                    ])
                    b')
                (sym idle)
                (elim (Bool-cases (is_some (s.slot_of b))) [
                  | inl f ↦ rw f free
                  | inr f ↦ rw f (inr (next-slot s.ring s.nslot two ring))
                ]))
      ]
    where
      free : CanReuse content s b'
      free = rw idle tt
