-- ===== src/Tokenizer/Map/Steps.antt =====
-- What a put does to the probes of the map of src/tokenizer/bpe.c.
use multi_model_llm_engine.Base.{
  ℕ, zero, suc, ◌+◌, ◌≡◌, ◌⊎◌, refl, sym, subst, ap, ◌∙◌, true, false, Option, none, some,
  Option-cases, inl, inr, Bool-cases, List, [], ◌∷◌, arith, ◌==◌, ==_iff, if◌then◌else◌,
}
use multi_model_llm_engine.Base.Words.{update}
use multi_model_llm_engine.Formats.Gguf.Types.{same_text}
use multi_model_llm_engine.Tokenizer.Map.{Ent, Map, Probe, hit, free, probe, next}

pub same_text_refl : (xs : List ℕ) → same_text xs xs ≡ true
unfolding same_text
same_text_refl [] = refl
same_text_refl (x ∷ xs) = ground (arith, same_text_refl xs)

pub same_text→eq : (xs ys : List ℕ) → same_text xs ys ≡ true → xs ≡ ys
unfolding same_text
same_text→eq [] [] h = refl
same_text→eq [] (y ∷ ys) h = cc
same_text→eq (x ∷ xs) [] h = cc
same_text→eq (x ∷ xs) (y ∷ ys) h = ground (arith, same_text→eq xs ys)

abbrev pub write : Map → ℕ → Ent → Map
write m i ent = record m { e = update m.e i (some ent); n = m.n + 1 }

-- A step of a probe, by what stands in the slot.
abbrev look : Option Ent → List ℕ → ℕ → Probe → Probe
look none s h rest = free h
look (some ent) s h rest = if same_text ent.s s then hit ent.val else rest

pub probe_step :
    (fuel : ℕ) (m : Map) (s : List ℕ) (h : ℕ)
    → probe (suc fuel) m s h ≡ look (m.e h) s h (probe fuel m s (next m.cap h))
unfolding probe
probe_step fuel m s h = elim (Option-cases (m.e h)) [
  | inl e ↦ rw (probe, e) refl
  | inr (ent, e) ↦ rw (probe, e) refl
]

-- The three ways a probe goes on from a slot.
pub probe-at_none :
    (fuel : ℕ) (m : Map) (s : List ℕ) (h : ℕ) → m.e h ≡ none → probe (suc fuel) m s h ≡ free h
probe-at_none fuel m s h e =
    probe_step fuel m s h ∙ ap (λ o. look o s h (probe fuel m s (next m.cap h))) e

pub probe-at_key :
    (fuel : ℕ) (m : Map) (s : List ℕ) (h : ℕ) (ent : Ent)
    → m.e h ≡ some ent
    → same_text ent.s s ≡ true
    → probe (suc fuel) m s h ≡ hit ent.val
probe-at_key fuel m s h ent e t =
    probe_step fuel m s h ∙ ap (λ o. look o s h (probe fuel m s (next m.cap h))) e ∙ rw t refl

pub probe-at_other :
    (fuel : ℕ) (m : Map) (s : List ℕ) (h : ℕ) (ent : Ent)
    → m.e h ≡ some ent
    → same_text ent.s s ≡ false
    → probe (suc fuel) m s h ≡ probe fuel m s (next m.cap h)
probe-at_other fuel m s h ent e t =
    probe_step fuel m s h ∙ ap (λ o. look o s h (probe fuel m s (next m.cap h))) e ∙ rw t refl

free_injective : {a b : ℕ} → free a ≡ free b → a ≡ b
free_injective e = cc

hit_injective : {a b : ℕ} → hit a ≡ hit b → a ≡ b
hit_injective e = cc

hit≢free : {a b : ℕ} → hit a ≡ free b → ⊥
hit≢free e = cc

free≢hit : {a b : ℕ} → free a ≡ hit b → ⊥
free≢hit e = cc

-- What a slot can be to a key.
pub slot-cases :
    (o : Option Ent) (s : List ℕ)
    → (o ≡ none)
      ⊎ ((ent : Ent) × ((o ≡ some ent)
            × ((same_text ent.s s ≡ true) ⊎ (same_text ent.s s ≡ false))))
slot-cases none s = inl refl
slot-cases (some ent) s = inr (ent, (refl, Bool-cases (same_text ent.s s)))

pub probe-free :
    (fuel : ℕ) (m : Map) (s : List ℕ) (h i : ℕ) → probe fuel m s h ≡ free i → m.e i ≡ none
unfolding probe
probe-free zero m s h i e = cc
probe-free (suc fuel) m s h i e = elim (slot-cases (m.e h) s) [
  | inl o ↦
      let same : h ≡ i = free_injective (sym (probe-at_none fuel m s h o) ∙ e) in
      subst (λ j. m.e j ≡ none) same o
  | inr (ent, (o, inl t)) ↦ absurd (hit≢free (sym (probe-at_key fuel m s h ent o t) ∙ e))
  | inr (ent, (o, inr t)) ↦
      probe-free fuel m s (next m.cap h) i (sym (probe-at_other fuel m s h ent o t) ∙ e)
]

pub probe-hit :
    (fuel : ℕ) (m : Map) (s : List ℕ) (h v : ℕ)
    → probe fuel m s h ≡ hit v
    → (i : ℕ) × ((ent : Ent) × ((m.e i ≡ some ent) × ((ent.s ≡ s) × (ent.val ≡ v))))
unfolding probe
probe-hit zero m s h v e = cc
probe-hit (suc fuel) m s h v e = elim (slot-cases (m.e h) s) [
  | inl o ↦ absurd (free≢hit (sym (probe-at_none fuel m s h o) ∙ e))
  | inr (ent, (o, inl t)) ↦ (
    h,
    (ent, (o, (same_text→eq ent.s s t, hit_injective (sym (probe-at_key fuel m s h ent o t) ∙ e)))),
  )
  | inr (ent, (o, inr t)) ↦
      probe-hit fuel m s (next m.cap h) v (sym (probe-at_other fuel m s h ent o t) ∙ e)
]

some≢none : {a : Ent} → some a ≡ none → ⊥
some≢none e = cc

-- A write to a free slot leaves the others.
pub write-other :
    (m : Map) (i j : ℕ) (ent old : Ent)
    → m.e i ≡ none
    → m.e j ≡ some old
    → (write m i ent).e j ≡ some old
write-other m i j ent old e o = let ne : (j == i) ≡ false = apart (Bool-cases (j == i)) in rw ne o
  where
    apart : ((j == i) ≡ true) ⊎ ((j == i) ≡ false) → (j == i) ≡ false
    apart (inl same) =
        let k : j ≡ i = (==_iff j i).0 same in absurd (some≢none (sym o ∙ (ap m.e k ∙ e)))
    apart (inr ne) = ne

pub write-same : (m : Map) (i : ℕ) (ent : Ent) → (write m i ent).e i ≡ some ent
write-same m i ent = let same : (i == i) ≡ true = ground arith in rw same refl

-- A key that was found is found after a write to a free slot.
pub probe-write_hit :
    (fuel : ℕ) (m : Map) (i : ℕ) (ent : Ent) (s : List ℕ) (h v : ℕ)
    → m.e i ≡ none
    → probe fuel m s h ≡ hit v
    → probe fuel (write m i ent) s h ≡ hit v
unfolding probe
probe-write_hit zero m i ent s h v e p = cc
probe-write_hit (suc fuel) m i ent s h v e p = elim (slot-cases (m.e h) s) [
  | inl o ↦ absurd (free≢hit (sym (probe-at_none fuel m s h o) ∙ p))
  | inr (old, (o, inl t)) ↦
      probe-at_key fuel (write m i ent) s h old (write-other m i h ent old e o) t
      ∙ sym (probe-at_key fuel m s h old o t)
      ∙ p
  | inr (old, (o, inr t)) ↦
      probe-at_other fuel (write m i ent) s h old (write-other m i h ent old e o) t
      ∙ probe-write_hit fuel m i ent s (next m.cap h) v e
          (sym (probe-at_other fuel m s h old o t) ∙ p)
]

-- A key that was put where its probe ended is found there.
pub probe-write_self :
    (fuel : ℕ) (m : Map) (i : ℕ) (ent : Ent) (h : ℕ)
    → probe fuel m ent.s h ≡ free i
    → probe fuel (write m i ent) ent.s h ≡ hit ent.val
unfolding probe
probe-write_self zero m i ent h p = cc
probe-write_self (suc fuel) m i ent h p = elim (slot-cases (m.e h) ent.s) [
  | inl o ↦
      let same : h ≡ i = free_injective (sym (probe-at_none fuel m ent.s h o) ∙ p) in
      probe-at_key fuel (write m i ent) ent.s h ent (ap (write m i ent).e same ∙ write-same m i ent)
        (same_text_refl ent.s)
  | inr (old, (o, inl t)) ↦ absurd (hit≢free (sym (probe-at_key fuel m ent.s h old o t) ∙ p))
  | inr (old, (o, inr t)) ↦
      probe-at_other fuel (write m i ent) ent.s h old
        (write-other m i h ent old (probe-free (suc fuel) m ent.s h i p) o) t
      ∙ probe-write_self fuel m i ent (next m.cap h)
          (sym (probe-at_other fuel m ent.s h old o t) ∙ p)
]
