-- ===== src/Tokenizer/Map/FirstWins.antt =====
-- The map of src/tokenizer/bpe.c and the list of what was put into it.
use multi_model_llm_engine.Base.{
  ℕ, ◌+◌, ◌^◌, ◌<◌, ◌≤◌, ◌≡◌, ◌≢◌, ◌⊎◌, refl, sym, subst, ap, ◌∙◌, Option, none, some, Option-cases,
  inl, inr, Bool-cases, List, [], ◌∷◌, ◌++◌, arith, if◌then◌else◌, length, length-append, ◌==◌,
}
use multi_model_llm_engine.Formats.Gguf.Types.{same_text}
use multi_model_llm_engine.Tokenizer.Map.{
  Ent, Map, Probe, hit, free, looping, probe, home, map_init, map_put, map_get, put_all, Got, found,
  absent, capacity,
}
use multi_model_llm_engine.Tokenizer.Map.Steps.{
  same_text_refl, same_text→eq, write, probe-free, probe-hit, probe-write_hit, probe-write_self,
}
use multi_model_llm_engine.Tokenizer.Map.Room.{
  occupied, occupied-room, occupied-none, occupied-update, home_lt, probe-ends, capacity-fits,
}

-- The value of the first pair with the key.
unfoldable pub first_value : List ℕ → List (List ℕ × ℕ) → Option ℕ
first_value s [] = none
first_value s ((t, v) ∷ rest) = if same_text t s then some v else first_value s rest

-- The same, as the map answers.
abbrev pub answer : Option ℕ → Got
answer none = absent
answer (some v) = found v

some≢none : {A : Type 0} {a : A} → some a ≡ none → ⊥
some≢none e = cc

some_injective : {A : Type 0} {a b : A} → some a ≡ some b → a ≡ b
some_injective e = cc

-- The map holds the keys of `log`, which were put in that order.
pub record Holds (k : ℕ) (log : List (List ℕ × ℕ)) (m : Map) : Type 0 where
  pub wide : m.cap ≡ 2 ^ k
  pub few : occupied m.e m.cap ≤ length log
  pub stored : (i : ℕ) (ent : Ent) → m.e i ≡ some ent → first_value ent.s log ≡ some ent.val
  pub finds :
      (s : List ℕ) (v : ℕ) → first_value s log ≡ some v → probe m.cap m s (home m.cap s) ≡ hit v

-- A later pair changes nothing for a key that is there.
first_value-append :
    (s : List ℕ) (log : List (List ℕ × ℕ)) (t : List ℕ) (w : ℕ)
    → first_value s (log ++ ((t, w) ∷ [])) ≡ elim (first_value s log) [
      | none ↦ (if same_text t s then some w else none)
      | some v ↦ some v
    ]
unfolding first_value
first_value-append s [] t w = refl
first_value-append s ((t', w') ∷ log) t w = elim (Bool-cases (same_text t' s)) [
  | inl e ↦ rw e refl
  | inr e ↦ rw e (first_value-append s log t w)
]

hit≢free : {a b : ℕ} → hit a ≡ free b → ⊥
hit≢free e = cc

-- How a probe for a key ends, by whether the key is in the log.
pub probe-Holds :
    (k : ℕ) (log : List (List ℕ × ℕ)) (m : Map) (s : List ℕ)
    → Holds k log m
    → length log < 2 ^ k
    → ((v : ℕ) × ((first_value s log ≡ some v) × (probe m.cap m s (home m.cap s) ≡ hit v)))
      ⊎ ((i : ℕ) × ((first_value s log ≡ none) × (probe m.cap m s (home m.cap s) ≡ free i)))
probe-Holds k log m s holds room =
    let (j, (l, e)) = occupied-room m.e m.cap (omega (arith, holds.few, holds.wide)) in
    by_probe (probe m.cap m s (home m.cap s)) refl (
      probe-ends k m s (home m.cap s) j holds.wide e (omega (arith, holds.wide))
        (subst (λ c. home c s < 2 ^ k) (sym holds.wide) (home_lt k s)))
  where
    by_probe :
        (p : Probe)
        → probe m.cap m s (home m.cap s) ≡ p
        → probe m.cap m s (home m.cap s) ≢ looping
        → ((v : ℕ) × ((first_value s log ≡ some v) × (probe m.cap m s (home m.cap s) ≡ hit v)))
          ⊎ ((i : ℕ) × ((first_value s log ≡ none) × (probe m.cap m s (home m.cap s) ≡ free i)))
    by_probe (hit v) e ne =
        let (i, (ent, (o, (t, w)))) = probe-hit m.cap m s (home m.cap s) v e in
        inl (v, (subst (λ x. first_value x log ≡ some v) t (holds.stored i ent o ∙ ap some w), e))
    by_probe (free i) e ne = elim (Option-cases (first_value s log)) [
      | inl o ↦ inr (i, (o, e))
      | inr (v, o) ↦ absurd (hit≢free (sym (holds.finds s v o) ∙ e))
    ]
    by_probe looping e ne = absurd (ne e)

append-kept :
    (s t : List ℕ) (w v : ℕ) (log : List (List ℕ × ℕ))
    → first_value s log ≡ some v
    → first_value s (log ++ ((t, w) ∷ [])) ≡ some v
append-kept s t w v log e = rw (first_value-append s log t w, e) refl

append-first :
    (s t : List ℕ) (w : ℕ) (log : List (List ℕ × ℕ))
    → first_value s log ≡ none
    → first_value s (log ++ ((t, w) ∷ [])) ≡ (if same_text t s then some w else none)
append-first s t w log e = rw (first_value-append s log t w, e) refl

-- A key that was put again changes no value.
append-again :
    (s t : List ℕ) (w v : ℕ) (log : List (List ℕ × ℕ))
    → first_value t log ≡ some v
    → first_value s (log ++ ((t, w) ∷ [])) ≡ first_value s log
append-again s t w v log e = elim (Option-cases (first_value s log)) [
  | inr (u, o) ↦ append-kept s t w u log o ∙ sym o
  | inl o ↦ append-first s t w log o ∙ elim (Bool-cases (same_text t s)) [
    | inl same ↦
        absurd (some≢none (sym e ∙ (ap (λ x. first_value x log) (same_text→eq t s same) ∙ o)))
    | inr apart ↦ rw (apart, o) refl
  ]
]

put_again-Holds :
    (k : ℕ) (log : List (List ℕ × ℕ)) (m : Map) (s : List ℕ) (w v : ℕ)
    → Holds k log m
    → first_value s log ≡ some v
    → Holds k (log ++ ((s, w) ∷ [])) m
put_again-Holds k log m s w v holds e = record {
  wide = holds.wide;
  few = omega (arith, holds.few, length-append log ((s, w) ∷ []));
  stored = λ i ent o. append-again ent.s s w v log e ∙ holds.stored i ent o;
  finds = λ t u f. holds.finds t u (sym (append-again t s w v log e) ∙ f);
}

pub put_new-Holds :
    (k : ℕ) (log : List (List ℕ × ℕ)) (m : Map) (s : List ℕ) (w i : ℕ)
    → Holds k log m
    → first_value s log ≡ none
    → probe m.cap m s (home m.cap s) ≡ free i
    → Holds k (log ++ ((s, w) ∷ [])) (write m i (record { s = s; val = w }))
put_new-Holds k log m s w i holds new p = record {
  wide = holds.wide;
  few = ground (arith, holds.few, length-append log ((s, w) ∷ []), occupied-update m.e i m.cap ent);
  stored = stored;
  finds = finds;
}
  where
    ent : Ent
    ent = record { s = s; val = w }

    empty : m.e i ≡ none
    empty = probe-free m.cap m s (home m.cap s) i p

    now_there : first_value s (log ++ ((s, w) ∷ [])) ≡ some w
    now_there = append-first s s w log new ∙ rw (same_text_refl s) refl

    stored :
        (j : ℕ) (x : Ent)
        → (write m i ent).e j ≡ some x
        → first_value x.s (log ++ ((s, w) ∷ [])) ≡ some x.val
    stored j x o = elim (Bool-cases (j == i)) [
      | inl same ↦
          let e : ent ≡ x = some_injective (rw same at o) in
          subst (λ y. first_value y.s (log ++ ((s, w) ∷ [])) ≡ some y.val) e now_there
      | inr other ↦ append-kept x.s s w x.val log (holds.stored j x (rw other at o))
    ]

    finds :
        (t : List ℕ) (u : ℕ)
        → first_value t (log ++ ((s, w) ∷ [])) ≡ some u
        → probe m.cap (write m i ent) t (home m.cap t) ≡ hit u
    finds t u f = elim (Option-cases (first_value t log)) [
      | inr (v, o) ↦
          let e : v ≡ u = some_injective (sym (append-kept t s w v log o) ∙ f) in
          probe-write_hit m.cap m i ent t (home m.cap t) u empty (holds.finds t u (o ∙ ap some e))
      | inl o ↦ elim (Bool-cases (same_text s t)) [
        | inl same ↦
            let e : w ≡ u = some_injective (sym (append-first t s w log o ∙ rw same refl) ∙ f) in
            subst (λ x. probe m.cap (write m i ent) x (home m.cap x) ≡ hit u)
              (same_text→eq s t same) (probe-write_self m.cap m i ent (home m.cap s) p ∙ ap hit e)
        | inr apart ↦ absurd (some≢none (sym f ∙ (append-first t s w log o ∙ rw apart refl)))
      ]
    ]

map_put-Holds :
    (k : ℕ) (log : List (List ℕ × ℕ)) (m : Map) (s : List ℕ) (w : ℕ)
    → Holds k log m
    → length log < 2 ^ k
    → (m' : Map) × ((map_put m s w ≡ some m') × Holds k (log ++ ((s, w) ∷ [])) m')
unfolding map_put
map_put-Holds k log m s w holds room = elim (probe-Holds k log m s holds room) [
  | inl (v, (o, e)) ↦ (m, (rw (map_put, e) refl, put_again-Holds k log m s w v holds o))
  | inr (i, (o, e)) ↦ (_, (rw (map_put, e) refl, put_new-Holds k log m s w i holds o e))
]

append_assoc : (xs ys zs : List (List ℕ × ℕ)) → (xs ++ ys) ++ zs ≡ xs ++ (ys ++ zs)
append_assoc [] ys zs = refl
append_assoc (x ∷ xs) ys zs = ap (λ l. x ∷ l) (append_assoc xs ys zs)

append-nil : (xs : List (List ℕ × ℕ)) → xs ++ [] ≡ xs
append-nil [] = refl
append-nil (x ∷ xs) = ap (λ l. x ∷ l) (append-nil xs)

put_all-Holds :
    (k : ℕ) (log rest : List (List ℕ × ℕ)) (m : Map)
    → Holds k log m
    → length log + length rest < 2 ^ k
    → (m' : Map) × ((put_all m rest ≡ some m') × Holds k (log ++ rest) m')
unfolding put_all
put_all-Holds k log [] m holds room =
    (m, (refl, subst (λ l. Holds k l m) (sym (append-nil log)) holds))
put_all-Holds k log ((s, w) ∷ rest) m holds room =
    let (m₁, (e₁, h₁)) = map_put-Holds k log m s w holds (omega arith) in
    let (m₂, (e₂, h₂)) =
      put_all-Holds k (log ++ ((s, w) ∷ [])) rest m₁ h₁
        (omega (arith, length-append log ((s, w) ∷ []))) in
    (m₂, (rw (put_all, e₁) e₂, subst (λ l. Holds k l m₂) (append_assoc log ((s, w) ∷ []) rest) h₂))

-- After any puts into a map that was made for at least as many, and for 2^29 keys at most, a get answers
-- for each key with the value that was put first with it, or that there is none; no put and no get loops.
pub map_get-first_wins :
    (want : ℕ) (log : List (List ℕ × ℕ))
    → length log ≤ want
    → want ≤ 2 ^ 29
    → (m : Map) × ((put_all (map_init want) log ≡ some m)
        × ((s : List ℕ) → map_get m s ≡ answer (first_value s log)))
unfolding map_get map_init first_value
map_get-first_wins want log few bound =
    let (k, (e, (w, l))) = capacity-fits 27 want 4 (omega (arith, bound)) in
    let fresh : Holds k [] (map_init want) = record {
      wide = e;
      few = omega (arith, occupied-none (capacity 27 want 16));
      stored = λ i ent o. absurd (some≢none (sym o));
      finds = λ s v o. absurd (some≢none (sym o));
    } in
    let (m, (p, holds)) = put_all-Holds k [] log (map_init want) fresh (omega arith) in
    (
      m,
      (
        p,
        λ s. elim (probe-Holds k log m s holds (omega arith)) [
          | inl (v, (o, g)) ↦ rw (map_get, g, o) refl
          | inr (i, (o, g)) ↦ rw (map_get, g, o) refl
        ],
      ),
    )
