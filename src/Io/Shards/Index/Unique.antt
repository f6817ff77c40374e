-- ===== src/Io/Shards/Index/Unique.antt =====
-- The index of src/io/k3_st.c against the list of the tensors.
use multi_model_llm_engine.Base.{
  ℕ, suc, ◌+◌, ◌^◌, ◌<◌, ◌≤◌, ◌≡◌, ◌⊎◌, refl, sym, ap, ◌∙◌, subst, inl, inr, none, some, List, [],
  ◌∷◌, ◌++◌, length, length-append, map, get_elem?, arith, Bool, true, false, ◌&&◌, not, is_some,
  Bool-cases, if◌then◌else◌,
}
use multi_model_llm_engine.Formats.Gguf.Types.{same_text}
use multi_model_llm_engine.Tokenizer.Map.{Map}
use multi_model_llm_engine.Tokenizer.Map.Room.{occupied-none, capacity-fits}
use multi_model_llm_engine.Tokenizer.Map.FirstWins.{first_value, Holds, probe-Holds, put_new-Holds}
use multi_model_llm_engine.Io.Shards.{K3Tensor, until_nul}
use multi_model_llm_engine.Io.Shards.Index.{
  bucket_count, no_buckets, indexed, duplicate, index_from, index_tensors, Found, tensor, missing,
  st_find,
}

some≢none : {A : Type 0} {a : A} → some a ≡ none → ⊥
some≢none e = cc

-- The first tensor of a name, as a walk over the list finds it.
unfoldable pub first_of_name : List ℕ → List K3Tensor → Found
first_of_name name [] = missing
first_of_name name (t ∷ ts) = if same_text t.name name then tensor t else first_of_name name ts

unfoldable pub is_in : List ℕ → List (List ℕ) → Bool
is_in s [] = false
is_in s (t ∷ ts) = if same_text t s then true else is_in s ts

-- None of the names is among those before it.
unfoldable pub distinct : List (List ℕ) → List (List ℕ) → Bool
distinct before [] = true
distinct before (s ∷ names) = not (is_in s before) && distinct (before ++ (s ∷ [])) names

abbrev pub names_of : List K3Tensor → List (List ℕ)
names_of ts = map (λ t. t.name) ts

-- The names with their places, from `i` on.
numbered : ℕ → List (List ℕ) → List (List ℕ × ℕ)
numbered i [] = []
numbered i (s ∷ names) = (s, i) ∷ numbered (i + 1) names

keys_of : List (List ℕ × ℕ) → List (List ℕ)
keys_of [] = []
keys_of ((s, i) ∷ log) = s ∷ keys_of log

keys_of-append :
    (log : List (List ℕ × ℕ)) (s : List ℕ) (i : ℕ)
    → keys_of (log ++ ((s, i) ∷ [])) ≡ keys_of log ++ (s ∷ [])
unfolding keys_of
keys_of-append [] s i = refl
keys_of-append ((t, j) ∷ log) s i = ap (λ l. t ∷ l) (keys_of-append log s i)

append_assoc : {A : Type 0} (xs ys zs : List A) → (xs ++ ys) ++ zs ≡ xs ++ (ys ++ zs)
append_assoc [] ys zs = refl
append_assoc (x ∷ xs) ys zs = ap (λ l. x ∷ l) (append_assoc xs ys zs)

append-nil : {A : Type 0} (xs : List A) → xs ++ [] ≡ xs
append-nil [] = refl
append-nil (x ∷ xs) = ap (λ l. x ∷ l) (append-nil xs)

-- A key is in the log if it has a value there.
is_in-keys_of :
    (s : List ℕ) (log : List (List ℕ × ℕ)) → is_in s (keys_of log) ≡ is_some (first_value s log)
unfolding is_in keys_of first_value
is_in-keys_of s [] = refl
is_in-keys_of s ((t, i) ∷ log) = elim (Bool-cases (same_text t s)) [
  | inl e ↦ rw e refl
  | inr e ↦ rw e (is_in-keys_of s log)
]

-- The index of distinct names holds each with its place; others are refused.
index_from-Holds :
    (k i : ℕ) (names : List (List ℕ)) (log : List (List ℕ × ℕ)) (m : Map)
    → Holds k log m
    → length log + length names < 2 ^ k
    → ((distinct (keys_of log) names ≡ true)
        × ((m' : Map) × ((index_from i names m ≡ indexed m')
              × Holds k (log ++ numbered i names) m')))
      ⊎ ((distinct (keys_of log) names ≡ false) × (index_from i names m ≡ duplicate))
unfolding index_from numbered distinct
index_from-Holds k i [] log m holds room =
    inl (refl, (m, (refl, subst (λ l. Holds k l m) (sym (append-nil log)) holds)))
index_from-Holds k i (s ∷ names) log m holds room =
    elim (probe-Holds k log m s holds (omega arith)) [
      | inl (v, (o, e)) ↦
          let there : is_in s (keys_of log) ≡ true = is_in-keys_of s log ∙ ap is_some o in
          inr (rw there refl, rw (index_from, e) refl)
      | inr (j, (o, e)) ↦
          let new : is_in s (keys_of log) ≡ false = is_in-keys_of s log ∙ ap is_some o in
          let next = put_new-Holds k log m s i j holds o e in
          elim (index_from-Holds k (i + 1) names (log ++ ((s, i) ∷ [])) _ next
            (omega (arith, length-append log ((s, i) ∷ [])))) [
              | inl (d, (m', (r, h))) ↦ inl (
                rw (new, ← keys_of-append log s i) d,
                (
                  m',
                  (
                    rw (index_from, e) r,
                    subst (λ l. Holds k l m')
                        (append_assoc log ((s, i) ∷ []) (numbered (i + 1) names)) h,
                  ),
                ),
              )
              | inr (d, r) ↦ inr (rw (new, ← keys_of-append log s i) d, rw (index_from, e) r)
            ]
    ]

-- What the places of the names say about the first tensor of a name.
first_of_name-places :
    (s : List ℕ) (i : ℕ) (ts : List K3Tensor)
    → ((first_value s (numbered i (names_of ts)) ≡ none) × (first_of_name s ts ≡ missing))
      ⊎ ((d : ℕ) × ((t : K3Tensor) × ((first_value s (numbered i (names_of ts)) ≡ some (i + d))
              × ((get_elem? ts d ≡ some t) × (first_of_name s ts ≡ tensor t)))))
unfolding first_of_name numbered first_value
first_of_name-places s i [] = inl (refl, refl)
first_of_name-places s i (t ∷ ts) = elim (Bool-cases (same_text t.name s)) [
  | inl e ↦ inr (0, (t, (rw e (ap some (omega arith)), (refl, rw e refl))))
  | inr e ↦ elim (first_of_name-places s (i + 1) ts) [
    | inl (a, b) ↦ inl (rw e a, rw e b)
    | inr (d, (u, (a, (b, c)))) ↦ inr (suc d, (u, (rw e (a ∙ ap some (omega arith)), (b, rw e c))))
  ]
]

length-numbered : (i : ℕ) (names : List (List ℕ)) → length (numbered i names) ≡ length names
unfolding numbered
length-numbered i [] = refl
length-numbered i (s ∷ names) = ap suc (length-numbered (i + 1) names)

length-names_of : (ts : List K3Tensor) → length (names_of ts) ≡ length ts
length-names_of [] = refl
length-names_of (t ∷ ts) = ap suc (length-names_of ts)

some_injective : {a b : ℕ} → some a ≡ some b → a ≡ b
some_injective e = cc

st_find-first_of_name :
    (k : ℕ) (ts : List K3Tensor) (m : Map) (name : List ℕ)
    → Holds k (numbered 0 (names_of ts)) m
    → length ts < 2 ^ k
    → st_find ts m name ≡ first_of_name (until_nul name) ts
unfolding st_find
st_find-first_of_name k ts m name holds room =
    let s = until_nul name in
    let small : length (numbered 0 (names_of ts)) < 2 ^ k =
      omega (arith, room, length-numbered 0 (names_of ts), length-names_of ts) in
    elim (probe-Holds k (numbered 0 (names_of ts)) m s holds small) [
      | inl (v, (o, e)) ↦ elim (first_of_name-places s 0 ts) [
        | inl (a, b) ↦ absurd (some≢none (sym o ∙ a))
        | inr (d, (t, (a, (b, c)))) ↦
            let same : v ≡ d = some_injective (sym o ∙ a) ∙ omega arith in
            rw (st_find, e, same, b) (sym c)
      ]
      | inr (j, (o, e)) ↦ elim (first_of_name-places s 0 ts) [
        | inl (a, b) ↦ rw (st_find, e) (sym b)
        | inr (d, (t, (a, (b, c)))) ↦ absurd (some≢none (sym a ∙ o))
      ]
    ]

-- For at most 2^29 tensors the index is built exactly if no name stands twice, and refused otherwise; a
-- search with it gives for each name the tensor that a walk over the list finds first, or that there is none.
pub index_tensors-distinct :
    (ts : List K3Tensor)
    → length ts ≤ 2 ^ 29
    → ((distinct [] (names_of ts) ≡ true)
        × ((m : Map) × ((index_tensors ts ≡ indexed m)
              × ((name : List ℕ) → st_find ts m name ≡ first_of_name (until_nul name) ts))))
      ⊎ ((distinct [] (names_of ts) ≡ false) × (index_tensors ts ≡ duplicate))
unfolding index_tensors no_buckets bucket_count keys_of first_value
index_tensors-distinct ts few =
    let (k, (e, (w, l))) = capacity-fits 20 (length ts) 10 (omega (arith, few)) in
    let names = names_of ts in
    let fresh : Holds k [] (no_buckets (length ts)) = record {
      wide = e;
      few = omega (arith, occupied-none (bucket_count (length ts)));
      stored = λ i ent o. absurd (some≢none (sym o));
      finds = λ s v o. absurd (some≢none (sym o));
    } in
    let room : length ts < 2 ^ k = omega (arith, w, l) in
    elim (index_from-Holds k 0 names [] (no_buckets (length ts)) fresh
      (omega (arith, room, length-names_of ts))) [
        | inr r ↦ inr r
        | inl (d, (m, (r, h))) ↦ inl (d, (m, (r, λ name. st_find-first_of_name k ts m name h room)))
      ]
