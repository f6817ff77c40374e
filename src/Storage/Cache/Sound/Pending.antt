-- ===== src/Storage/Cache/Sound/Pending.antt =====
-- What the list of reserved slots of a batch says of the cache: `Work w[]` of src/storage/cache.c.
use multi_model_llm_engine.Base.{
  ℕ, ◌≡◌, ◌≢◌, inl, inr, refl, Bool, false, ◌||◌, arith, Bool-cases, List, [], ◌∷◌, ◌++◌, ◌==◌, All,
  All-snoc,
}
use multi_model_llm_engine.Storage.Cache.Batch.{Work, behind, sift, sort_from, forwards, sort_work}

-- Two reservations share neither slot nor key.
abbrev pub Apart : Work → Work → Type 0
Apart a b = (a.slot ≢ b.slot) × (a.key ≢ b.key)

abbrev pub Distinct : List Work → Type 0
Distinct [] = Unit
Distinct (w ∷ ws) = All (Apart w) ws × Distinct ws

Apart-symm : (a b : Work) → Apart a b → Apart b a
Apart-symm a b h = (λ e. h.0 (ground arith), λ e. h.1 (ground arith))

pub Distinct-snoc :
    (ws : List Work) (w : Work) → Distinct ws → All (λ x. Apart x w) ws → Distinct (ws ++ (w ∷ []))
Distinct-snoc [] w d h = (tt, tt)
Distinct-snoc (x ∷ ws) w d h = (All-snoc (Apart x) ws w d.0 h.0, Distinct-snoc ws w d.1 h.1)

-- Whether a slot is reserved.
abbrev pub has_slot : List Work → ℕ → Bool
has_slot [] s = false
has_slot (w ∷ ws) s = w.slot == s || has_slot ws s

pub has_slot-snoc :
    (ws : List Work) (w : Work) (s : ℕ)
    → has_slot (ws ++ (w ∷ [])) s ≡ (w.slot == s || has_slot ws s)
has_slot-snoc [] w s = refl
has_slot-snoc (x ∷ ws) w s = ground (arith, has_slot-snoc ws w s)

-- The sort loses and adds nothing.
module _ {κ} (P : Work → Type κ) where
  All-sift : (t : Work) (ws : List Work) → P t → All P ws → All P (sift t ws)
  unfolding sift
  All-sift t [] p h = (p, tt)
  All-sift t (w ∷ ws) p h = elim (Bool-cases (behind w t)) [
    | inl e ↦ rw e (h.0, All-sift t ws p h.1)
    | inr e ↦ rw e (p, h)
  ]

  All-forwards : (ws out : List Work) → All P ws → All P out → All P (forwards ws out)
  unfolding forwards
  All-forwards [] out h g = g
  All-forwards (w ∷ ws) out h g = All-forwards ws (w ∷ out) h.1 (h.0, g)

  All-sort_from : (s ws : List Work) → All P s → All P ws → All P (sort_from s ws)
  unfolding sort_from
  All-sort_from s [] g h = g
  All-sort_from s (w ∷ ws) g h = All-sort_from (sift w s) ws (All-sift w s h.0 g) h.1

  pub All-sort_work : (ws : List Work) → All P ws → All P (sort_work ws)
  unfolding sort_work
  All-sort_work ws h = All-forwards (sort_from [] ws) [] (All-sort_from [] ws tt h) tt

-- All of the first list lie apart from all of the second.
abbrev Across : List Work → List Work → Type 0
Across ws out = All (λ w. All (Apart w) out) ws

Across-cons :
    (ws out : List Work) (t : Work) → All (Apart t) ws → Across ws out → Across ws (t ∷ out)
Across-cons [] out t h a = tt
Across-cons (w ∷ ws) out t h a = ((Apart-symm t w h.0, a.0), Across-cons ws out t h.1 a.1)

Distinct-sift : (t : Work) (ws : List Work) → All (Apart t) ws → Distinct ws → Distinct (sift t ws)
unfolding sift
Distinct-sift t [] a d = (tt, tt)
Distinct-sift t (w ∷ ws) a d = elim (Bool-cases (behind w t)) [
  | inl e ↦ rw e (All-sift (Apart w) t ws (Apart-symm t w a.0) d.0, Distinct-sift t ws a.1 d.1)
  | inr e ↦ rw e (a, d)
]

Distinct-forwards :
    (ws out : List Work) → Distinct ws → Distinct out → Across ws out → Distinct (forwards ws out)
unfolding forwards
Distinct-forwards [] out d g a = g
Distinct-forwards (w ∷ ws) out d g a =
    Distinct-forwards ws (w ∷ out) d.1 (a.0, g) (Across-cons ws out w d.0 a.1)

Distinct-sort_from :
    (s ws : List Work) → Distinct s → Distinct ws → Across ws s → Distinct (sort_from s ws)
unfolding sort_from
Distinct-sort_from s [] g d a = g
Distinct-sort_from s (w ∷ ws) g d a =
    Distinct-sort_from (sift w s) ws (Distinct-sift w s a.0 g) d.1 (sifted ws d.0 a.1)
  where
    sifted : (xs : List Work) → All (Apart w) xs → Across xs s → Across xs (sift w s)
    sifted [] h b = tt
    sifted (x ∷ xs) h b = (All-sift (Apart x) w s (Apart-symm w x h.0) b.0, sifted xs h.1 b.1)

Across-nil : (ws : List Work) → Across ws []
Across-nil [] = tt
Across-nil (w ∷ ws) = (tt, Across-nil ws)

pub Distinct-sort_work : (ws : List Work) → Distinct ws → Distinct (sort_work ws)
unfolding sort_work
Distinct-sort_work ws d =
    Distinct-forwards (sort_from [] ws) [] (Distinct-sort_from [] ws tt d (Across-nil ws)) tt
      (Across-nil (sort_from [] ws))

module _ (s : ℕ) where
  has_slot-sift :
      (t : Work) (ws : List Work) → has_slot (sift t ws) s ≡ (t.slot == s || has_slot ws s)
  unfolding sift
  has_slot-sift t [] = refl
  has_slot-sift t (w ∷ ws) = ground (arith, has_slot-sift t ws)

  has_slot-forwards :
      (ws out : List Work) → has_slot (forwards ws out) s ≡ (has_slot ws s || has_slot out s)
  unfolding forwards
  has_slot-forwards [] out = refl
  has_slot-forwards (w ∷ ws) out = ground (arith, has_slot-forwards ws (w ∷ out))

  has_slot-sort_from :
      (xs ws : List Work) → has_slot (sort_from xs ws) s ≡ (has_slot ws s || has_slot xs s)
  unfolding sort_from
  has_slot-sort_from xs [] = refl
  has_slot-sort_from xs (w ∷ ws) =
      ground (arith, has_slot-sort_from (sift w xs) ws, has_slot-sift w xs)

  pub has_slot-sort_work : (ws : List Work) → has_slot (sort_work ws) s ≡ has_slot ws s
  unfolding sort_work
  has_slot-sort_work ws =
      ground (arith, has_slot-forwards (sort_from [] ws) [], has_slot-sort_from [] ws)
