-- ===== src/Storage/Cache/Counts.antt =====
-- What a call of `eng_cache_get` of src/storage/cache.c leaves behind: the entry, and the counters.
use multi_model_llm_engine.Base.{
  ℕ, ◌+◌, ◌<◌, ◌^◌, ◌≡◌, inl, inr, refl, true, false, Option, none, some, arith, ap, Bool-cases,
  leb, is_some, if◌then◌else◌, ◌∙◌,
}
use multi_model_llm_engine.Base.Int.{to_u64}
use multi_model_llm_engine.Base.Words.{inc64, inc64_small}
use multi_model_llm_engine.Storage.Cache.Types.{Source, Cache, evict}
use multi_model_llm_engine.Storage.Cache.Admit.{
  touch, miss, publish, land, abandon, set_meta, admit, answer, note_request, record_trace, get,
  peek,
}
use multi_model_llm_engine.Storage.Cache.Rule.{admit_rule}
use multi_model_llm_engine.Storage.Cache.Victim.{SlotKey-cases}

module _ {Meta Payload : Type 0} where
  -- Where `admit` says that the key is, and the configuration, which stays.
  abbrev Placed : Cache Meta Payload → ℕ → Option ℕ × Cache Meta Payload → Type 0
  Placed c key r = (r.1.slot_of key ≡ r.0) × (r.1.cfg ≡ c.cfg)

  evict-Placed :
      (c : Cache Meta Payload) (slot key : ℕ)
      → ((evict c slot).cfg ≡ c.cfg) × (c.slot_of key ≡ none → (evict c slot).slot_of key ≡ none)
  unfolding evict
  evict-Placed c slot key = elim (SlotKey-cases (c.key_of slot)) [
    | inl q ↦ rw (q, evict) (refl, λ e. e)
    | inr (inl q) ↦ rw (q, evict) (refl, λ e. e)
    | inr (inr (k, q)) ↦ rw (q, evict) (refl, λ e. ground arith)
  ]

  admit-Placed :
      (src : Source Meta Payload) (c : Cache Meta Payload) (key : ℕ)
      → Placed c key (admit src c key)
  unfolding touch miss publish land abandon set_meta
  admit-Placed src c key =
      admit_rule (Placed c key) src c key (λ s e. (e, refl)) (λ e. (e, refl))
        (λ s l e. (ground arith, (evict-Placed (miss c) s key).0))
        (λ s l e. ((evict-Placed (miss c) s key).1 l.absent, (evict-Placed (miss c) s key).0))

  note_request-cfg :
      (src : Source Meta Payload) (c : Cache Meta Payload) (key : ℕ)
      → (note_request src c key).cfg ≡ c.cfg
  unfolding note_request record_trace
  note_request-cfg src c key = elim (Bool-cases c.cfg.want_trace) [
    | inl e ↦ rw e refl
    | inr e ↦ rw e refl
  ]

  get_within :
      (src : Source Meta Payload) (c : Cache Meta Payload) (key : ℕ)
      → leb (to_u64 c.cfg.nkeys) key ≡ false
      → get src c key ≡ answer (admit src (note_request src c key) key)
  unfolding get
  get_within src c key w = rw w refl

  get_outside :
      (src : Source Meta Payload) (c : Cache Meta Payload) (key : ℕ)
      → leb (to_u64 c.cfg.nkeys) key ≡ true
      → get src c key ≡ (none, c)
  unfolding get
  get_outside src c key w = rw w refl

  peek_outside :
      (c : Cache Meta Payload) (key : ℕ) → leb (to_u64 c.cfg.nkeys) key ≡ true → peek c key ≡ none
  unfolding peek
  peek_outside c key w = rw w refl

  peek-answer :
      (c : Cache Meta Payload) (key : ℕ) (r : Option ℕ × Cache Meta Payload)
      → leb (to_u64 c.cfg.nkeys) key ≡ false
      → Placed c key r
      → peek (answer r).1 key ≡ (answer r).0
  unfolding peek
  peek-answer c key (none, d) w h =
      let q : leb (to_u64 d.cfg.nkeys) key ≡ false = ap (λ f. leb (to_u64 f.nkeys) key) h.1 ∙ w in
      rw (q, h.0) refl
  peek-answer c key (some s, d) w h =
      let q : leb (to_u64 d.cfg.nkeys) key ≡ false = ap (λ f. leb (to_u64 f.nkeys) key) h.1 ∙ w in
      rw (q, h.0) refl

  -- `eng_cache_peek` right after `eng_cache_get` for the same key tells the same: the same entry if one
  -- was returned, and none if the key was out of range, refused, or fell short.
  peek-get :
      (src : Source Meta Payload) (c : Cache Meta Payload) (key : ℕ)
      → peek (get src c key).1 key ≡ (get src c key).0
  peek-get src c key = elim (Bool-cases (leb (to_u64 c.cfg.nkeys) key)) [
    | inl out ↦ rw (get_outside src c key out) (peek_outside c key out)
    | inr within ↦
        let n = note_request src c key in
        rw (get_within src c key within) (
          peek-answer c key (admit src n key) within
            ((admit-Placed src n key).0, (admit-Placed src n key).1 ∙ note_request-cfg src c key))
  ]

  -- The counters that one request moves, if they do not wrap: a hit for a resident key, a miss otherwise.
  abbrev Counted : Cache Meta Payload → ℕ → Option ℕ × Cache Meta Payload → Type 0
  Counted c key r =
      (r.1.hits ≡ (if is_some (c.slot_of key) then c.hits + 1 else c.hits))
      × (r.1.misses ≡ (if is_some (c.slot_of key) then c.misses else c.misses + 1))
      × (r.1.requests ≡ c.requests)

  evict-counters :
      (c : Cache Meta Payload) (slot : ℕ)
      → ((evict c slot).hits ≡ c.hits)
        × ((evict c slot).misses ≡ c.misses)
        × ((evict c slot).requests ≡ c.requests)
  unfolding evict
  evict-counters c slot = ground arith

  admit-Counted :
      (src : Source Meta Payload) (c : Cache Meta Payload) (key : ℕ)
      → c.hits + 1 < 2 ^ 64
      → c.misses + 1 < 2 ^ 64
      → Counted c key (admit src c key)
  unfolding touch miss publish land abandon set_meta
  admit-Counted src c key sh sm =
      admit_rule (Counted c key) src c key (λ s e. ground (arith, inc64_small c.hits))
        (λ e. ground (arith, inc64_small c.misses))
        (λ s l e. ground (arith, l.absent, inc64_small c.misses, evict-counters (miss c) s))
        (λ s l e. ground (arith, l.absent, inc64_small c.misses, evict-counters (miss c) s))

  note_request-parts :
      (src : Source Meta Payload) (c : Cache Meta Payload) (key : ℕ)
      → ((note_request src c key).hits ≡ c.hits)
        × ((note_request src c key).misses ≡ c.misses)
        × ((note_request src c key).requests ≡ inc64 c.requests)
        × ((note_request src c key).slot_of key ≡ c.slot_of key)
  unfolding note_request record_trace
  note_request-parts src c key = elim (Bool-cases c.cfg.want_trace) [
    | inl e ↦ rw e (refl, refl, refl, refl)
    | inr e ↦ rw e (refl, refl, refl, refl)
  ]

  answer-counters : (r : Option ℕ × Cache Meta Payload) → (answer r).1 ≡ r.1
  answer-counters (none, d) = refl
  answer-counters (some s, d) = refl

  -- Every request for a key in range is counted once, as a hit exactly if the key was resident and
  -- else as a miss; a key out of range counts nothing. The three counters are not at their largest
  -- value before.
  get_counts :
      (src : Source Meta Payload) (c : Cache Meta Payload) (key : ℕ)
      → c.hits + 1 < 2 ^ 64
      → c.misses + 1 < 2 ^ 64
      → c.requests + 1 < 2 ^ 64
      → let d = (get src c key).1 in
        if leb (to_u64 c.cfg.nkeys) key
        then (d.hits ≡ c.hits) × (d.misses ≡ c.misses) × (d.requests ≡ c.requests)
        else (d.hits ≡ (if is_some (c.slot_of key) then c.hits + 1 else c.hits))
          × (d.misses ≡ (if is_some (c.slot_of key) then c.misses else c.misses + 1))
          × (d.requests ≡ c.requests + 1)
  unfolding get
  get_counts src c key sh sm sr = elim (Bool-cases (leb (to_u64 c.cfg.nkeys) key)) [
    | inl out ↦ rw out (refl, refl, refl)
    | inr within ↦
        let n = note_request src c key in
        let p = note_request-parts src c key in
        let h = admit-Counted src n key (rw p.0 sh) (rw p.1 sm) in
        rw (within, answer-counters (admit src n key))
          (ground (arith, p, h, inc64_small c.requests))
  ]
