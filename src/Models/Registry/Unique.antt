-- ===== src/Models/Registry/Unique.antt =====
-- The names in the registry of src/models/registry.c.
use multi_model_llm_engine.Base.{
  ℕ, ◌+◌, ◌≤◌, ◌≡◌, ◌⊎◌, refl, sym, true, false, some, Bool-cases, inl, inr, List, [], ◌∷◌, ◌++◌,
  length, length-append, arith, leb, All, All-snoc,
}
use multi_model_llm_engine.Formats.Gguf.Types.{same_text}
use multi_model_llm_engine.Tokenizer.Map.Steps.{same_text_refl}
use multi_model_llm_engine.Models.Registry.{
  Backend, Registry, max_backends, is_usable, find_in, has_name, append, add, add_all,
  register_builtins, register, find,
}

abbrev pub Distinct : List Backend → Type 0
Distinct [] = Unit
Distinct (b ∷ bs) = All (λ c. same_text b.name c.name ≡ false) bs × Distinct bs

-- No name stands twice, each backend can be used, and there are no more than the array has room for.
pub record IsValid (bs : List Backend) : Type 0 where
  pub few : length bs ≤ max_backends
  pub usable : All (λ b. is_usable b ≡ true) bs
  pub distinct : Distinct bs

true≢false : true ≡ false → ⊥
true≢false e = cc

-- A name that is not found is none of theirs.
no_name :
    (name : List ℕ) (bs : List Backend)
    → has_name name bs ≡ false
    → All (λ b. same_text b.name name ≡ false) bs
unfolding has_name find_in
no_name name [] h = tt
no_name name (b ∷ bs) h = elim (Bool-cases (same_text b.name name)) [
  | inl e ↦ absurd (true≢false (rw (has_name, find_in, e) at h))
  | inr e ↦ (e, no_name name bs (rw (has_name, find_in, e) at h))
]

Distinct-snoc :
    (b : Backend) (bs : List Backend)
    → All (λ c. same_text c.name b.name ≡ false) bs
    → Distinct bs
    → Distinct (bs ++ (b ∷ []))
Distinct-snoc b [] a d = (tt, tt)
Distinct-snoc b (c ∷ bs) (e, a) (f, d) = (All-snoc _ bs b f e, Distinct-snoc b bs a d)

-- The two ways a call of `append` ends.
append-cases :
    (bs : List Backend) (b : Backend)
    → (append bs b ≡ (false, bs))
      ⊎ ((append bs b ≡ (true, bs ++ (b ∷ [])))
          × ((has_name b.name bs ≡ false) × (length bs + 1 ≤ max_backends)))
unfolding append
append-cases bs b = elim (Bool-cases (leb max_backends (length bs))) [
  | inl e ↦ inl (rw (append, e) refl)
  | inr e ↦ elim (Bool-cases (has_name b.name bs)) [
    | inl f ↦ inl (rw (append, e, f) refl)
    | inr f ↦ inr (rw (append, e, f) refl, (f, ground (arith, e)))
  ]
]

append-IsValid :
    (bs : List Backend) (b : Backend) → is_usable b ≡ true → IsValid bs → IsValid (append bs b).1
append-IsValid bs b u v = elim (append-cases bs b) [
  | inl e ↦ rw e v
  | inr (e, (new, room)) ↦ rw e (record {
    few = omega (arith, length-append bs (b ∷ []));
    usable = All-snoc _ bs b v.usable u;
    distinct = Distinct-snoc b bs (no_name b.name bs new) v.distinct;
  })
]

add-IsValid : (bs : List Backend) (b : Backend) → IsValid bs → IsValid (add bs b).1
unfolding add
add-IsValid bs b v = elim (Bool-cases (is_usable b)) [
  | inl u ↦ rw (add, u) (append-IsValid bs b u v)
  | inr u ↦ rw (add, u) v
]

add_all-IsValid : (bs rest : List Backend) → IsValid bs → IsValid (add_all bs rest)
unfolding add_all
add_all-IsValid bs [] v = v
add_all-IsValid bs (b ∷ rest) v = add_all-IsValid (add bs b).1 rest (add-IsValid bs b v)

pub empty-IsValid : IsValid []
empty-IsValid = record { few = omega arith; usable = tt; distinct = tt }

pub register_builtins-IsValid :
    (built_in : List Backend) (r : Registry)
    → IsValid r.reg
    → IsValid (register_builtins built_in r).reg
unfolding register_builtins
register_builtins-IsValid built_in r v = elim (Bool-cases r.ready) [
  | inl e ↦ rw (register_builtins, e) v
  | inr e ↦ rw (register_builtins, e) (add_all-IsValid r.reg built_in v)
]

-- Whatever is registered, and whether it is refused or not, the registry stays such that no name stands
-- twice, that each of its backends can be used and that there are no more than it has room for, if it is
-- so before; whatever the built-in backends are.
pub register-IsValid :
    (built_in : List Backend) (r : Registry) (b : Backend)
    → IsValid r.reg
    → IsValid (register built_in r b).1.reg
unfolding register
register-IsValid built_in r b v = elim (Bool-cases (is_usable b)) [
  | inl u ↦
      rw (register, u)
        (append-IsValid (register_builtins built_in r).reg b u
          (register_builtins-IsValid built_in r v))
  | inr u ↦ rw (register, u) v
]

find_in-snoc :
    (b : Backend) (bs : List Backend)
    → has_name b.name bs ≡ false
    → find_in b.name (bs ++ (b ∷ [])) ≡ some b
unfolding has_name find_in
find_in-snoc b [] h = rw (same_text_refl b.name) refl
find_in-snoc b (c ∷ bs) h = elim (Bool-cases (same_text c.name b.name)) [
  | inl e ↦ absurd (true≢false (rw (has_name, find_in, e) at h))
  | inr e ↦ rw (find_in, e) (find_in-snoc b bs (rw (has_name, find_in, e) at h))
]

builtins_ready :
    (built_in : List Backend) (r : Registry) → (register_builtins built_in r).ready ≡ true
unfolding register_builtins
builtins_ready built_in r = elim (Bool-cases r.ready) [
  | inl e ↦ rw (register_builtins, e) refl
  | inr e ↦ rw (register_builtins, e) refl
]

-- A backend whose registration returns 0 is what `eng_model_find` gives for its name.
register-find :
    (built_in : List Backend) (r : Registry) (b : Backend)
    → (register built_in r b).0 ≡ true
    → (find built_in (register built_in r b).1 b.name).0 ≡ some b
unfolding register find register_builtins
register-find built_in r b h = elim (Bool-cases (is_usable b)) [
  | inr u ↦ absurd (true≢false (sym (rw (register, u) at h)))
  | inl u ↦
      let r' = register_builtins built_in r in
      elim (append-cases r'.reg b) [
        | inl e ↦ absurd (true≢false (sym (rw (register, u, e) at h)))
        | inr (e, (new, room)) ↦
            let stays : (register_builtins built_in (record r' { reg = r'.reg ++ (b ∷ []) })).reg
                ≡ r'.reg ++ (b ∷ []) =
              rw (register_builtins, builtins_ready built_in r) refl in
            rw (register, u, e, stays) (find_in-snoc b r'.reg new)
      ]
]
