-- ===== src/Storage/Cache/Batch.antt =====
-- The batch path of src/storage/cache.c: `eng_cache_get_many` in its three phases. The reads of the
-- second phase run concurrently in the source; each writes the bytes of its own slot only, so they are
-- taken in the order of the list.
use multi_model_llm_engine.Base.{
  ℕ, ◌+◌, Bool, false, ◌&&◌, ◌||◌, none, some, List, [], ◌∷◌, ◌++◌, leb, ◌==◌, if◌then◌else◌,
  length, not, is_some,
}
use multi_model_llm_engine.Base.Int.{ℤ, pos, ltb_ℤ, eq_ℤ, to_u64}
use multi_model_llm_engine.Base.Words.{update, inc64}
use multi_model_llm_engine.Storage.Cache.Types.{
  SlotKey, Loaded, Source, Cache, max_batch, pick_victim, evict,
}
use multi_model_llm_engine.Storage.Cache.Admit.{set_meta, land, abandon, publish}

-- The local `Work`, before its read.
pub record Work : Type 0 where
  pub slot : ℕ
  pub key : ℕ
  pub need : ℤ
  pub device : ℤ
  pub offset : ℤ

-- `for (j < nw) if (w[j].key == k) dup = 1`.
unfoldable pub has_key : List Work → ℕ → Bool
has_key [] k = false
has_key (w ∷ ws) k = w.key == k || has_key ws k

-- The test of the insertion sort: `a` lies behind `b` in storage order.
unfoldable pub behind : Work → Work → Bool
behind a b = ltb_ℤ b.device a.device || (eq_ℤ a.device b.device && ltb_ℤ b.offset a.offset)

-- One outer round of the sort. The sorted part is held last entry first: entries behind `t` move up,
-- and `t` lands before the first that is not.
unfoldable pub sift : Work → List Work → List Work
sift t [] = t ∷ []
sift t (w ∷ ws) = if behind w t then w ∷ sift t ws else t ∷ w ∷ ws

-- The outer loop of the sort.
unfoldable pub sort_from : List Work → List Work → List Work
sort_from sorted [] = sorted
sort_from sorted (t ∷ ts) = sort_from (sift t sorted) ts

-- The sorted part read from its first entry on.
unfoldable pub forwards : List Work → List Work → List Work
forwards [] out = out
forwards (w ∷ ws) out = forwards ws (w ∷ out)

unfoldable pub sort_work : List Work → List Work
sort_work ws = forwards (sort_from [] ws) []

-- One round of the first phase: the loop ends, or goes on with a new list and cache.
pub data Reserved (Meta Payload : Type 0) : Type 0 where
  stop : Reserved Meta Payload
  next : List Work → Cache Meta Payload → Reserved Meta Payload

module _ {Meta Payload : Type 0} where
  -- The victim loses its key and is marked as being read into.
  unfoldable pub mark : Cache Meta Payload → ℕ → Cache Meta Payload
  mark c slot = record (evict c slot) {
    key_of = update c.key_of slot SlotKey.inflight;
    clock = inc64 c.clock;
    used_at = update c.used_at slot (inc64 c.clock);
  }

  -- `locate`, if there is one.
  unfoldable pub place : Source Meta Payload → Meta → ℤ × ℤ
  place src m = elim src.locate [ none ↦ (pos 0, pos 0) | some f ↦ f m ]

  -- What the loop does with the victim of key `k`. The metadata of the victim is overwritten before it
  -- is known whether the key is admissible.
  unfoldable pub reserve_slot :
      Source Meta Payload → Cache Meta Payload → ℕ → List Work → ℕ → Reserved Meta Payload
  reserve_slot src c k ws slot =
      let d = src.describe k (c.meta slot) in
      let c₁ = set_meta c slot d.meta in
      let (device, offset) = place src d.meta in
      if not d.accepted
      then next ws c₁
      else if ltb_ℤ c.cfg.slot_bytes d.need
      then next ws c₁
      else next
          (ws
            ++ (record { slot = slot; key = k; need = d.need; device = device; offset = offset }
                ∷ []))
          (mark c₁ slot)

  unfoldable pub reserve_step :
      Source Meta Payload → Cache Meta Payload → ℕ → List Work → Reserved Meta Payload
  reserve_step src c k ws =
      if leb max_batch (length ws)
      then stop
      else if leb (to_u64 c.cfg.nkeys) k || is_some (c.slot_of k) || has_key ws k
      then next ws c
      else elim (pick_victim c) [ none ↦ stop | some slot ↦ reserve_slot src c k ws slot ]

  -- Phase 1: reserve a slot for each key that needs one, serially.
  unfoldable pub reserve :
      Source Meta Payload → Cache Meta Payload → List ℕ → List Work → List Work × Cache Meta Payload
  reserve src c [] ws = (ws, c)
  reserve src c (k ∷ ks) ws = elim (reserve_step src c k ws) [
    | stop ↦ (ws, c)
    | next ws' c' ↦ reserve src c' ks ws'
  ]

  -- The reads are issued in storage order if the owner can tell it.
  unfoldable pub order : Source Meta Payload → List Work → List Work
  order src ws = if is_some src.locate then sort_work ws else ws

  -- Phase 2: the reads, each into its own slot.
  unfoldable pub read_all :
      Source Meta Payload
      → Cache Meta Payload
      → List Work
      → List (Work × Loaded Payload) × Cache Meta Payload
  read_all src c [] = ([], c)
  read_all src c (w ∷ ws) =
      let l = src.load w.key (c.meta w.slot) (c.arena w.slot) in
      let (done, c') = read_all src (land c w.slot l) ws in ((w, l) ∷ done, c')

  -- One round of the third phase, and how many objects it admits.
  unfoldable pub publish_one : Cache Meta Payload → Work → Loaded Payload → ℕ × Cache Meta Payload
  publish_one c w l =
      let c' = publish c w.slot w.key l in
      if eq_ℤ l.got w.need
      then (1, record c' { prefetch_reads = inc64 c.prefetch_reads })
      else (0, abandon c w.slot)

  -- Phase 3: publish what arrived.
  unfoldable pub publish_all :
      Cache Meta Payload → List (Work × Loaded Payload) → ℕ × Cache Meta Payload
  publish_all c [] = (0, c)
  publish_all c ((w, l) ∷ rest) =
      let (n, c₁) = publish_one c w l in let (m, c₂) = publish_all c₁ rest in (n + m, c₂)

  -- `eng_cache_get_many`: how many keys were newly admitted, and the cache afterwards. A `keys` that
  -- is NULL is the empty list.
  unfoldable pub get_many :
      Source Meta Payload → Cache Meta Payload → List ℕ → ℕ × Cache Meta Payload
  get_many src c keys =
      let (ws, c₁) = reserve src c keys [] in
      let (done, c₂) = read_all src c₁ (order src ws) in publish_all c₂ done
