-- ===== src/Storage/Streamer/Sizing.antt =====
-- How `eng_streamer_create` of src/storage/streamer.c splits its budget: the pinned prefix, the ring and
-- the size of a ring slot. Sizes are those of existing blocks, so they are not negative.
pub mod Fits
use multi_model_llm_engine.Base.{
  ℕ, zero, suc, ◌+◌, ◌-◌, ◌*◌, ◌/◌, ◌%◌, ◌≤◌, ◌<◌, Bool, true, false, Option, none, some, List, [],
  ◌∷◌, ltb, ◌==◌, ◌&&◌, if◌then◌else◌, length, drop, max,
}

-- `align_up` with ENG_IO_ALIGN: clearing the low bits of x is x - x % 4096.
unfoldable pub align_up : ℕ → ℕ
align_up v = (v + 4096 - 1) - (v + 4096 - 1) % 4096

-- The bytes that a pinned block is given.
unfoldable pub need : ℕ → ℕ → ℕ
need extra nbytes = align_up nbytes + 4096 + extra

-- The largest of some blocks, from `big` on.
unfoldable pub largest : ℕ → List ℕ → ℕ
largest big [] = big
largest big (n ∷ ns) = largest (if ltb big n then n else big) ns

-- `s->blk[s->nblocks - 1].nbytes`.
unfoldable pub last_block : List ℕ → ℕ
last_block [] = 0
last_block (n ∷ []) = n
last_block (n ∷ m ∷ ns) = last_block (m ∷ ns)

-- The slot that holds the largest block behind the first `npin`.
unfoldable pub slot_for : ℕ → List ℕ → ℕ → ℕ
slot_for extra blocks npin =
    let big = largest 0 (drop npin blocks) in
    align_up (need extra (if big == 0 then last_block blocks else big))

-- `while (ring > 1 && ring * rs > budget) ring--`.
unfoldable pub shrink : ℕ → ℕ → ℕ → ℕ
shrink rs budget zero = zero
shrink rs budget (suc r) =
    let smaller = shrink rs budget r in
    if ltb 1 (suc r) && ltb budget (suc r * rs) then smaller else suc r

-- The loop that pins blocks while they fit: how many, and what is spent.
unfoldable pub pin_prefix : ℕ → ℕ → List ℕ → ℕ → ℕ × ℕ
pin_prefix extra budget [] sp = (0, sp)
pin_prefix extra budget (n ∷ ns) sp =
    let (np, sp') = pin_prefix extra budget ns (sp + need extra n) in
    if ltb budget (sp + need extra n) then (0, sp) else (suc np, sp')

-- The locals that one pass leaves.
pub record Split : Type 0 where
  pub ring_slot : ℕ
  pub npin : ℕ
  pub ring : ℕ
  pub spent : ℕ

-- One pass, and whether it found what the pass before it did.
unfoldable pub pass : ℕ → ℕ → ℕ → List ℕ → Split → Bool × Split
pass extra budget ring_want blocks s =
    let rs = slot_for extra blocks s.npin in
    let ring = shrink rs budget ring_want in
    let (np, sp) = pin_prefix extra budget blocks (ring * rs) in
    (
      rs == s.ring_slot && np == s.npin,
      record { ring_slot = rs; npin = np; ring = ring; spent = sp },
    )

-- At most `n` passes.
unfoldable pub passes : ℕ → ℕ → ℕ → ℕ → List ℕ → Split → Split
passes extra budget ring_want zero blocks s = s
passes extra budget ring_want (suc n) blocks s =
    let (stable, s') = pass extra budget ring_want blocks s in
    elim stable [ true ↦ s' | false ↦ passes extra budget ring_want n blocks s' ]

-- The sizing of `eng_streamer_create`: `none` where it refuses the budget.
unfoldable pub sizing : ℕ → ℕ → ℕ → List ℕ → Option Split
sizing extra budget ring_want blocks =
    let want = if ring_want == 0 then 2 else ring_want in
    let s =
      passes extra budget want 4 blocks
        (record { ring_slot = 0; npin = 0; ring = want; spent = 0 }) in
    if s.ring_slot == 0 then none else if ltb budget (s.ring * s.ring_slot) then none else some s
