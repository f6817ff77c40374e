-- ===== src/Tokenizer/Map/Room.antt =====
-- The slots and the capacity of the map of src/tokenizer/bpe.c.
use native.Mathlib.Nat.{
  mod-lt, mod-add-mod, mod-eq_of_lt, add-mod_right, one-le-pow, pow-suc, mul_assoc,
}
use multi_model_llm_engine.Base.{
  ℕ, zero, suc, ◌+◌, ◌-◌, ◌*◌, ◌%◌, ◌^◌, ◌<◌, ◌≤◌, ◌≡◌, ◌≢◌, refl, sym, subst, ap, ◌∙◌, Option,
  none, some, Option-cases, inl, inr, Bool-cases, List, arith, ltb, if◌then◌else◌, dec_lt, is_some,
}
use multi_model_llm_engine.Base.Words.{update}
use multi_model_llm_engine.Base.Masks.{bit_and_mask}
use multi_model_llm_engine.Tokenizer.Map.{
  Ent, Map, hit, free, looping, probe, next, home, hash_bytes, capacity,
}
use multi_model_llm_engine.Tokenizer.Map.Steps.{
  slot-cases, probe-at_none, probe-at_key, probe-at_other,
}

-- How many of the first `k` slots are taken.
pub occupied : (ℕ → Option Ent) → ℕ → ℕ
occupied e zero = 0
occupied e (suc k) = (if is_some (e k) then 1 else 0) + occupied e k

pub occupied-room :
    (e : ℕ → Option Ent) (k : ℕ) → occupied e k < k → (j : ℕ) × ((j < k) × (e j ≡ none))
unfolding occupied
occupied-room e zero h = absurd (omega arith)
occupied-room e (suc k) h = elim (Option-cases (e k)) [
  | inl o ↦ (k, (omega arith, o))
  | inr (ent, o) ↦
      let (j, (l, f)) = occupied-room e k (ground (arith, h, o)) in (j, (omega arith, f))
]

pub occupied-none : (k : ℕ) → occupied (λ i. none) k ≡ 0
unfolding occupied
occupied-none zero = refl
occupied-none (suc k) = omega (arith, occupied-none k)

pub occupied-update :
    (e : ℕ → Option Ent) (i k : ℕ) (ent : Ent)
    → occupied (update e i (some ent)) k ≤ occupied e k + (if ltb i k then 1 else 0)
unfolding occupied
occupied-update e i zero ent = omega arith
occupied-update e i (suc k) ent = ground (arith, occupied-update e i k ent)

next-mod : (k h : ℕ) → next (2 ^ k) h ≡ (h + 1) % 2 ^ k
unfolding next
next-mod k h = bit_and_mask k (h + 1)

pub home_lt : (k : ℕ) (s : List ℕ) → home (2 ^ k) s < 2 ^ k
unfolding home
home_lt k s = omega (
  arith,
  bit_and_mask k (hash_bytes s),
  mod-lt (hash_bytes s) {m = 2 ^ k} (one-le-pow k 2 (omega arith)),
)

free≢looping : {a : ℕ} → free a ≡ looping → ⊥
free≢looping e = cc

hit≢looping : {a : ℕ} → hit a ≡ looping → ⊥
hit≢looping e = cc

-- Slots in the order of the probe: an empty one that is `d` steps away ends it.
ends_within :
    (k fuel d : ℕ) (m : Map) (s : List ℕ) (h j : ℕ)
    → m.cap ≡ 2 ^ k
    → m.e j ≡ none
    → (h + d) % 2 ^ k ≡ j
    → h < 2 ^ k
    → d < fuel
    → probe fuel m s h ≢ looping
ends_within k zero d m s h j c e at l w p = absurd (omega arith)
ends_within k (suc fuel) zero m s h j c e at l w p =
    let here : h ≡ j = sym (mod-eq_of_lt l) ∙ ap (λ x. x % 2 ^ k) (omega arith) ∙ at in
    free≢looping (sym (probe-at_none fuel m s h (ap m.e here ∙ e)) ∙ p)
ends_within k (suc fuel) (suc d) m s h j c e at l w p = elim (slot-cases (m.e h) s) [
  | inl o ↦ free≢looping (sym (probe-at_none fuel m s h o) ∙ p)
  | inr (ent, (o, inl t)) ↦ hit≢looping (sym (probe-at_key fuel m s h ent o t) ∙ p)
  | inr (ent, (o, inr t)) ↦
      ends_within k fuel d m s ((h + 1) % 2 ^ k) j c e
        (mod-add-mod (h + 1) (2 ^ k) d ∙ ap (λ x. x % 2 ^ k) (omega arith) ∙ at)
        (mod-lt (h + 1) (omega (arith, l))) (omega arith)
        (ap (probe fuel m s) (sym (ap (λ x. next x h) c ∙ next-mod k h))
          ∙ sym (probe-at_other fuel m s h ent o t)
          ∙ p)
]

pub probe-ends :
    (k : ℕ) (m : Map) (s : List ℕ) (h j : ℕ)
    → m.cap ≡ 2 ^ k
    → m.e j ≡ none
    → j < 2 ^ k
    → h < 2 ^ k
    → probe m.cap m s h ≢ looping
probe-ends k m s h j c e l l' = elim (dec_lt j h) [
  | yes before ↦
      ends_within k m.cap (j + 2 ^ k - h) m s h j c e
        (ap (λ x. x % 2 ^ k) (omega arith) ∙ add-mod_right j (2 ^ k) ∙ mod-eq_of_lt l) l'
        (omega (arith, c))
  | no behind ↦
      ends_within k m.cap (j - h) m s h j c e (ap (λ x. x % 2 ^ k) (omega arith) ∙ mod-eq_of_lt l)
        l' (omega (arith, c))
]

-- The capacity that `map_init` chooses: a power of two, and twice what is wanted.
pub capacity-fits :
    (fuel want k : ℕ)
    → want * 2 ≤ 2 ^ k * 2 ^ fuel
    → (k' : ℕ) × ((capacity fuel want (2 ^ k) ≡ 2 ^ k') × ((want * 2 ≤ 2 ^ k') × (2 ^ k ≤ 2 ^ k')))
unfolding capacity
capacity-fits zero want k h = (k, (refl, (omega arith, omega arith)))
capacity-fits (suc fuel) want k h =
    let twice : 2 ^ suc k ≡ 2 ^ k * 2 = omega (arith, pow-suc 2 k) in
    let twice_fuel : 2 ^ suc fuel ≡ 2 * 2 ^ fuel = omega (arith, pow-suc 2 fuel) in
    let h' : want * 2 ≤ 2 ^ suc k * 2 ^ fuel =
      subst (λ x. want * 2 ≤ x)
        (ap (λ x. 2 ^ k * x) twice_fuel
          ∙ sym (mul_assoc (2 ^ k) 2 (2 ^ fuel))
          ∙ ap (λ x. x * 2 ^ fuel) (sym twice))
        h in
    elim (Bool-cases (ltb (2 ^ k) (want * 2))) [
      | inl small ↦
          let (k', (e, (w, l))) = capacity-fits fuel want (suc k) h' in
          (k', (rw small (ap (capacity fuel want) (sym twice) ∙ e), (w, omega (arith, l, twice))))
      | inr big ↦ (k, (rw big refl, (ground arith, omega arith)))
    ]
