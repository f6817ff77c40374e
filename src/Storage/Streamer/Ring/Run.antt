-- ===== src/Storage/Streamer/Ring/Run.antt =====
-- Every interleaving of the calls of src/storage/streamer.c with the rounds of its reader thread.
use multi_model_llm_engine.Base.{List, ℕ, ◌≡◌, Bool, Option, some}
use multi_model_llm_engine.Storage.Streamer.Ring.{
  Streamer, read_request, streamer_get, streamer_prefetch,
}
use multi_model_llm_engine.Storage.Streamer.Ring.Sound.{IsSound, IsFaithful, CanReuse}
use multi_model_llm_engine.Storage.Streamer.Ring.Serve.{Serves-IsSound, streamer_get-Serves}
use multi_model_llm_engine.Storage.Streamer.Ring.Collect.{read_request-IsSound}
use multi_model_llm_engine.Storage.Streamer.Ring.Ahead.{streamer_prefetch-IsSound}
use multi_model_llm_engine.Storage.Streamer.Ring.Create.{
  StreamerCfg, streamer_create, streamer_create-IsReady,
}

module _ (content : ℕ → List ℕ) where
  -- One step. Reads may fail in one step and succeed in the next.
  pub data Step : Streamer → Streamer → Type 0 where
    getting :
        (read_aligned : ℕ → ℕ → ℕ → Option (ℕ × List ℕ)) (s : Streamer) (b : ℕ)
        → IsFaithful content read_aligned
        → CanReuse content s b
        → Step s (streamer_get read_aligned s b).1
    reading_ahead : (s : Streamer) (b : ℕ) → Step s (streamer_prefetch s b)
    reader :
        (read_aligned : ℕ → ℕ → ℕ → Option (ℕ × List ℕ)) (s : Streamer)
        → IsFaithful content read_aligned
        → Step s (read_request read_aligned s)

  pub data Walk (s : Streamer) : Streamer → Type 0 where
    start : Walk s s
    then_step : {t u : Streamer} → Walk s t → Step t u → Walk s u

  Step-IsSound : {s t : Streamer} → Step s t → IsSound content s → IsSound content t
  Step-IsSound (getting read_aligned s b faithful free) h =
      Serves-IsSound content b _ (streamer_get-Serves content read_aligned faithful s b h free)
  Step-IsSound (reading_ahead s b) h = streamer_prefetch-IsSound content s b h
  Step-IsSound (reader read_aligned s faithful) h =
      read_request-IsSound content read_aligned faithful s h

  steps-IsSound : {s t : Streamer} → Walk s t → IsSound content s → IsSound content t
  steps-IsSound start h = h
  steps-IsSound (then_step w step) h = Step-IsSound step (steps-IsSound w h)

  -- Every interleaving of gets, prefetches and rounds of the reader thread leads from a streamer that
  -- `eng_streamer_create` returned to sound slots, if reads that succeed give their block's bytes and each
  -- get is made while the next slot of the ring is not the reader's for another block.
  pub Walk-IsSound :
      (cfg : StreamerCfg) (memory_ok thread_ok : Bool) {s t : Streamer}
      → streamer_create cfg memory_ok thread_ok ≡ some s
      → Walk s t
      → IsSound content t
  Walk-IsSound cfg memory_ok thread_ok {s} made w =
      steps-IsSound w (streamer_create-IsReady content cfg memory_ok thread_ok s made).sound
