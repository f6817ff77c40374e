-- ===== src/Storage/Cache/Tests.antt =====
-- The theorems on src/storage/cache.c, at a cache of two slots and an owner with three objects, of
-- which object k has the byte content k.
use multi_model_llm_engine.Base.{
  ℕ, ◌*◌, ◌/◌, ◌≤◌, ◌<◌, ◌≡◌, inl, refl, Bool, true, false, none, some, arith, [], ◌∷◌, ltb, ◌==◌,
}
use multi_model_llm_engine.Base.Int.{ℤ, pos, to_u64, to_i32, ◌/ℤ◌, ◌≤ℤ◌}
use multi_model_llm_engine.Base.Words.{inc64, add64, inc32}
use multi_model_llm_engine.Storage.Cache.Types.{
  SlotKey, Source, CacheCfg, Cache, stride_for, entry_of, scan, pick_victim, evict,
}
use multi_model_llm_engine.Storage.Cache.Admit.{
  publish, land, set_meta, load_into, admit_miss, miss, admit, record_trace, note_request, get,
  peek, pin, create,
}
use multi_model_llm_engine.Storage.Cache.Batch.{get_many}
use multi_model_llm_engine.Storage.Cache.Invariant.{IsFaithful, IsSound, IsQuiet}
use multi_model_llm_engine.Storage.Cache.Victim.{Picked, pick_victim_lru}
use multi_model_llm_engine.Storage.Cache.Sound.Serve.{Serves, get-IsSound, pin-IsSound}
use multi_model_llm_engine.Storage.Cache.Sound.Publish.{get_many-IsSound}
use multi_model_llm_engine.Storage.Cache.Run.{
  serve, batch, here, then_call, create-IsSound, get-IsQuiet, pin-IsQuiet, Reach-IsSound,
}
use multi_model_llm_engine.Storage.Cache.Pinned.{IsPinnedAt}
use multi_model_llm_engine.Storage.Cache.Pinned.Calls.{get_many-IsPinnedAt}
use multi_model_llm_engine.Storage.Cache.Sizes.{create_fits}
use multi_model_llm_engine.Storage.Cache.StaleMeta.{get_many-stale_meta}

abbrev good : ℕ → ℕ → ℤ → ℤ → Bool
good k bytes start n = bytes == k

abbrev files : Source ℕ ℕ
files = record {
  describe = λ k old. record { accepted = ltb k 3; need = pos 100; meta = k };
  load = λ k m buf. record { got = pos 100; pad = pos 0; bytes = k };
  locate = some (λ m. (pos 0, pos (4096 * m)));
  zero_meta = 0;
  scratch_ok = true;
  trace_ok = true;
}

files-IsFaithful : IsFaithful good files
files-IsFaithful = record { delivers = λ k old buf a e. ground arith }

abbrev small_cfg : CacheCfg
small_cfg = record {
  budget_bytes = pos 25000;
  slot_bytes = pos 1000;
  nkeys = pos 5;
  min_slots = pos 1;
  meta_bytes = 8;
  want_hist = true;
  want_trace = true;
}

abbrev fresh : Cache ℕ ℕ
fresh = record {
  cfg = small_cfg;
  stride = 12288;
  nslot = 2;
  slot_of = λ _. none;
  key_of = λ _. SlotKey.empty;
  used_at = λ _. 0;
  pinned = λ _. false;
  meta = λ _. 0;
  pad = λ _. pos 0;
  nbytes = λ _. pos 0;
  arena = λ _. 9;
  clock = 0;
  hits = 0;
  misses = 0;
  evictions = 0;
  bytes_read = 0;
  prefetch_reads = 0;
  requests = 0;
  hist = some (λ _. 0);
  trace = [];
  captrace = 0;
}

created : create small_cfg true (λ _. 9) (λ _. 0) ≡ some fresh
unfolding create stride_for ◌/ℤ◌ to_i32
created = refl

fresh-IsSound : IsSound good fresh × IsQuiet fresh
fresh-IsSound = create-IsSound good small_cfg true (λ _. 9) (λ _. 0) created

-- Object 1 is resident and pinned, object 2 resident.
one : Cache ℕ ℕ
one = (pin (get files fresh 1).1 1 true).1

one-IsSound : IsSound good one × IsQuiet one
unfolding one
one-IsSound = (
  pin-IsSound good (get files fresh 1).1 1 true
      (get-IsSound good files files-IsFaithful fresh 1 fresh-IsSound.0).0,
  pin-IsQuiet (get files fresh 1).1 1 true (get-IsQuiet files fresh 1 fresh-IsSound.1),
)

one-IsPinnedAt : IsPinnedAt 1 0 1 1 one
unfolding one pin get note_request record_trace admit miss admit_miss pick_victim scan load_into
    evict set_meta land publish to_u64 inc64 add64 inc32 to_i32
one-IsPinnedAt = record {
  resident = refl;
  named = refl;
  only = λ t less e. ground arith;
  pinned = refl;
  bytes = refl;
  meta = refl;
}

get_many-IsSound_example :
    IsSound good (get_many files one (2 ∷ 7 ∷ 3 ∷ 0 ∷ [])).1
    × IsQuiet (get_many files one (2 ∷ 7 ∷ 3 ∷ 0 ∷ [])).1
get_many-IsSound_example =
    get_many-IsSound good files one (2 ∷ 7 ∷ 3 ∷ 0 ∷ []) files-IsFaithful one-IsSound.0
      one-IsSound.1

get-IsSound_example : IsSound good (get files one 2).1 × Serves good 2 (get files one 2).0
get-IsSound_example = get-IsSound good files files-IsFaithful one 2 one-IsSound.0

abbrev after : Cache ℕ ℕ
after = (get_many files (get files fresh 1).1 (2 ∷ 0 ∷ [])).1

Reach-IsSound_example : IsSound good after × IsQuiet after
Reach-IsSound_example =
    Reach-IsSound good
      (then_call (then_call here (serve files fresh 1 files-IsFaithful))
        (batch files (get files fresh 1).1 (2 ∷ 0 ∷ []) files-IsFaithful))
      fresh-IsSound

pick_victim_lru_example : Picked one (pick_victim one)
pick_victim_lru_example = pick_victim_lru one

get_many-IsPinnedAt_example : IsPinnedAt 1 0 1 1 (get_many files one (2 ∷ 0 ∷ [])).1
get_many-IsPinnedAt_example =
    get_many-IsPinnedAt 1 0 1 1 good files one (2 ∷ 0 ∷ []) files-IsFaithful one-IsSound.0
      one-IsSound.1 one-IsPinnedAt

create_fits_example :
    (2 ≡ 25000 / stride_for (pos 1000)) × (2 * 12288 ≤ 25000) × (1 ≤ 2) × (pos 1 ≤ℤ pos 2)
unfolding stride_for
create_fits_example =
    create_fits small_cfg true (λ _. 9) (λ _. 0) 25000 1000 refl refl (omega arith) created

-- Both slots are taken, and object 0 was used least recently.
full : Cache ℕ ℕ
full = (get files (get files fresh 0).1 1).1

full_slots :
    (full.slot_of 0 ≡ some 0)
    × (full.slot_of 3 ≡ none)
    × (pick_victim full ≡ some 0)
    × (0 < to_u64 full.cfg.nkeys)
    × (3 < to_u64 full.cfg.nkeys)
unfolding full get note_request record_trace admit miss admit_miss pick_victim scan load_into evict
    set_meta land publish to_u64 inc64 add64 inc32 to_i32
full_slots = (refl, refl, refl, omega arith, omega arith)

get_many-stale_meta_example :
    ((get_many files full (3 ∷ [])).0 ≡ 0)
    × (peek (get_many files full (3 ∷ [])).1 0
        ≡ some (record (entry_of full 0) { meta = (files.describe 3 (full.meta 0)).meta }))
get_many-stale_meta_example =
    get_many-stale_meta files full 0 3 0 full_slots.3 full_slots.0 full_slots.4 full_slots.1
      full_slots.2 (inl refl)
