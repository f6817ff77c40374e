-- ===== src/Storage/Streamer/Ring/Sound.antt =====
-- What the slots of src/storage/streamer.c hold: from the pad on, the bytes of the block they are entered for.
use multi_model_llm_engine.Base.{
  ℕ, ◌≤◌, ◌<◌, ◌≡◌, ◌≢◌, ◌⊎◌, ap, sym, ◌∙◌, subst, inl, inr, true, Option, none, some, arith, ◌==◌,
  List, take, drop, length, Bool-cases, Option-cases,
}
use multi_model_llm_engine.Base.Words.{update}
use multi_model_llm_engine.Storage.Streamer.Ring.{Io, SlotBuffer, Streamer, from_pad}

-- The bytes from the payload's place on begin with those of the block.
abbrev pub Shows : List ℕ → SlotBuffer → Type 0
Shows c b = take (length c) (from_pad b) ≡ c

module _ (content : ℕ → List ℕ) where
  -- The request of the reader thread: its slot is entered for no block, and holds the bytes of its
  -- block once they are read.
  abbrev pub Pending : ℕ → (ℕ → SlotBuffer) → (ℕ → Option ℕ) → Io → Type 0
  Pending npin arena block_of Io.synchronous = Unit
  Pending npin arena block_of Io.idle = Unit
  Pending npin arena block_of (Io.reading b i) = (npin ≤ b) × (block_of i ≡ none)
  Pending npin arena block_of (Io.fetched b i ok) =
      (npin ≤ b) × (block_of i ≡ none) × ((ok ≡ true) → Shows (content b) (arena i))

  pub record Slots (npin : ℕ) (pin arena : ℕ → SlotBuffer) (block_of slot_of : ℕ → Option ℕ)
      : Type 0 where
    pub pinned : (b k : ℕ) → b < npin → slot_of b ≡ some k → Shows (content b) (pin b)
    pub resident : (i b : ℕ) → block_of i ≡ some b → (npin ≤ b) × (Shows (content b) (arena i))

  -- Every loaded pinned buffer and every entered slot holds its block's bytes, slots are entered only
  -- for blocks that are not pinned, and a request of the reader has a slot entered for no block.
  pub record IsSound (s : Streamer) : Type 0 where
    pub slots : Slots s.npin s.pin s.arena s.block_of s.slot_of
    pub pending : Pending s.npin s.arena s.block_of s.io

  -- The next slot of the ring is not the one that the reader has for another block.
  abbrev pub CanReuse : Streamer → ℕ → Type 0
  CanReuse s b = elim s.io [
    | Io.reading b' i ↦ (b' ≡ b) ⊎ (s.ring ≢ i)
    | Io.fetched b' i _ ↦ (b' ≡ b) ⊎ (s.ring ≢ i)
    | _ ↦ Unit
  ]

  -- A read that succeeds gives the block's bytes, from the place on that it tells.
  abbrev pub IsFaithful : (ℕ → ℕ → ℕ → Option (ℕ × List ℕ)) → Type 0
  IsFaithful read_aligned =
      (at_read b cap pad : ℕ) (bytes : List ℕ)
      → read_aligned at_read b cap ≡ some (pad, bytes)
      → take (length (content b)) (drop pad bytes) ≡ content b

pub update_same : {A : Type 0} (f : ℕ → A) (i : ℕ) (v : A) → update f i v i ≡ v
update_same f i v = ground arith

pub update_other : {A : Type 0} (f : ℕ → A) {i j : ℕ} (v : A) → j ≢ i → update f i v j ≡ f j
update_other f v h = ground arith

update_cases :
    {A : Type 0} (f : ℕ → A) (i j : ℕ) (v : A)
    → ((j ≡ i) × (update f i v j ≡ v)) ⊎ ((j ≢ i) × (update f i v j ≡ f j))
update_cases f i j v = elim (Bool-cases (j == i)) [
  | inl e ↦ inl (ground arith, rw e)
  | inr e ↦ inr (ground arith, rw e)
]

pub none-some : {A : Type 0} (a : A) → none ≢ some a
none-some a e = ground arith

pub some_injective : {A : Type 0} {a b : A} → some a ≡ some b → a ≡ b
some_injective e = cc

module _ (content : ℕ → List ℕ) where
  -- A slot that is entered for no block may be written.
  pub write_free :
      {npin : ℕ} {pin arena : ℕ → SlotBuffer} {block_of slot_of : ℕ → Option ℕ} (i : ℕ)
      (r : SlotBuffer)
      → Slots content npin pin arena block_of slot_of
      → block_of i ≡ none
      → Slots content npin pin (update arena i r) block_of slot_of
  write_free {arena = arena} {block_of = block_of} i r h free = record {
    pinned = h.pinned;
    resident = λ j b e. elim (update_cases arena i j r) [
      | inl (same, _) ↦ absurd (none-some b (sym free ∙ ap block_of (sym same) ∙ e))
      | inr (_, kept) ↦
          ((h.resident j b e).0, subst (Shows (content b)) (sym kept) (h.resident j b e).1)
    ];
  }

  -- A slot that holds a block's bytes may be entered for it.
  pub enter :
      {npin : ℕ} {pin arena : ℕ → SlotBuffer} {block_of slot_of : ℕ → Option ℕ} (i b : ℕ)
      → Slots content npin pin arena block_of slot_of
      → npin ≤ b
      → Shows (content b) (arena i)
      → Slots content npin pin arena (update block_of i (some b)) (update slot_of b (some i))
  enter {npin = npin} {arena = arena} {block_of = block_of} {slot_of = slot_of} i b h streamed
        at_i =
      record {
        pinned = λ b' k less e.
            h.pinned b' k less (sym (update_other slot_of (some i) (omega arith)) ∙ e);
        resident = λ j b' e. elim (update_cases block_of i j (some b)) [
          | inl (same, new) ↦
              subst (λ x. (npin ≤ x) × Shows (content x) (arena j)) (some_injective (sym new ∙ e))
                (streamed, subst (λ k. Shows (content b) (arena k)) (sym same) at_i)
          | inr (_, kept) ↦ h.resident j b' (sym kept ∙ e)
        ];
      }

  -- A slot may be entered for no block.
  pub leave :
      {npin : ℕ} {pin arena : ℕ → SlotBuffer} {block_of slot_of : ℕ → Option ℕ} (i : ℕ)
      → Slots content npin pin arena block_of slot_of
      → Slots content npin pin arena
          (update block_of i none)
          (elim (block_of i) [ none ↦ slot_of | some b ↦ update slot_of b none ])
  leave {block_of = block_of} {slot_of = slot_of} i h = record {
    pinned = λ b k less e. h.pinned b k less (elim (Option-cases (block_of i)) [
      | inl n ↦ rw n at e
      | inr (b', at_i) ↦ elim (update_cases slot_of b' b none) [
        | inl (_, gone) ↦ absurd (none-some k (sym gone ∙ rw at_i at e))
        | inr (_, kept) ↦ sym kept ∙ rw at_i at e
      ]
    ]);
    resident = λ j b e. elim (update_cases block_of i j none) [
      | inl (_, gone) ↦ absurd (none-some b (sym gone ∙ e))
      | inr (_, kept) ↦ h.resident j b (sym kept ∙ e)
    ];
  }

  -- The buffer of a pinned block that is not loaded may be written.
  pub write_pin :
      {npin : ℕ} {pin arena : ℕ → SlotBuffer} {block_of slot_of : ℕ → Option ℕ} (b : ℕ)
      (r : SlotBuffer)
      → Slots content npin pin arena block_of slot_of
      → slot_of b ≡ none
      → Slots content npin (update pin b r) arena block_of slot_of
  write_pin {pin = pin} {slot_of = slot_of} b r h free = record {
    pinned = λ b' k less e. elim (update_cases pin b b' r) [
      | inl (same, _) ↦ absurd (none-some k (sym free ∙ ap slot_of (sym same) ∙ e))
      | inr (_, kept) ↦ subst (Shows (content b')) (sym kept) (h.pinned b' k less e)
    ];
    resident = h.resident;
  }

  -- A pinned block whose buffer holds its bytes may be entered as loaded.
  pub enter_pin :
      {npin : ℕ} {pin arena : ℕ → SlotBuffer} {block_of slot_of : ℕ → Option ℕ} (b k : ℕ)
      → Slots content npin pin arena block_of slot_of
      → Shows (content b) (pin b)
      → Slots content npin pin arena block_of (update slot_of b (some k))
  enter_pin {pin = pin} {slot_of = slot_of} b k h at_b = record {
    pinned = λ b' k' less e. elim (update_cases slot_of b b' (some k)) [
      | inl (same, _) ↦ subst (λ x. Shows (content x) (pin x)) (sym same) at_b
      | inr (_, kept) ↦ h.pinned b' k' less (sym kept ∙ e)
    ];
    resident = h.resident;
  }
