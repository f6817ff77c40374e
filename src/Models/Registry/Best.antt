-- ===== src/Models/Registry/Best.antt =====
-- Which backend `eng_model_probe` of src/models/registry.c chooses.
use multi_model_llm_engine.Base.{
  ℕ, ◌≡◌, ◌⊎◌, refl, sym, ap, ◌∙◌, subst, true, false, Option, none, some, Bool-cases, inl, inr,
  List, [], ◌∷◌, ◌++◌, arith, if◌then◌else◌, All, All-snoc, All-map,
}
use multi_model_llm_engine.Base.Int.{ℤ, pos, leb_ℤ, ltb_ℤ, eq_ℤ, ◌≤ℤ◌, ◌<ℤ◌, ltb_ℤ→lt, not_ltb_ℤ→le}
use multi_model_llm_engine.Models.Registry.{
  Backend, Registry, Leader, score_of, consider, probe_from, no_leader, probe, register_builtins,
}

-- The first backend whose score is at least `s`.
unfoldable pub first_reaching : ℤ → List ℕ → List Backend → Option Backend
first_reaching s path [] = none
first_reaching s path (b ∷ bs) =
    if leb_ℤ s (score_of b path) then some b else first_reaching s path bs

-- `l` leads among `bs`: no score is above its own, and its backend is the first that reaches it, or there is
-- none as no score is above 0.
pub record Leads (path : List ℕ) (bs : List Backend) (l : Leader) : Type 0 where
  pub highest : All (λ b. score_of b path ≤ℤ l.score) bs
  pub chosen :
      ((l.score ≡ pos 0) × (l.best ≡ none))
      ⊎ ((pos 0 <ℤ l.score)
          × ((b : Backend) × ((l.best ≡ some b) × (first_reaching l.score path bs ≡ some b))))

none_reaches :
    (s : ℤ) (path : List ℕ) (bs : List Backend)
    → All (λ b. score_of b path <ℤ s) bs
    → first_reaching s path bs ≡ none
unfolding first_reaching
none_reaches s path [] a = refl
none_reaches s path (b ∷ bs) (l, a) =
    let below : leb_ℤ s (score_of b path) ≡ false = ground (arith, l) in
    rw (first_reaching, below) (none_reaches s path bs a)

-- A backend behind changes nothing where one was found, and is found where none was.
first_reaching-snoc :
    (s : ℤ) (path : List ℕ) (bs : List Backend) (b : Backend)
    → first_reaching s path (bs ++ (b ∷ [])) ≡ elim (first_reaching s path bs) [
      | none ↦ if leb_ℤ s (score_of b path) then some b else none
      | some c ↦ some c
    ]
unfolding first_reaching
first_reaching-snoc s path [] b = refl
first_reaching-snoc s path (c ∷ bs) b = elim (Bool-cases (leb_ℤ s (score_of c path))) [
  | inl e ↦ rw (first_reaching, e) refl
  | inr e ↦ rw (first_reaching, e) (first_reaching-snoc s path bs b)
]

some_reaches :
    (s : ℤ) (path : List ℕ) (bs : List Backend) (b c : Backend)
    → first_reaching s path bs ≡ some c
    → first_reaching s path (bs ++ (b ∷ [])) ≡ some c
some_reaches s path bs b c e = first_reaching-snoc s path bs b ∙ rw e refl

-- A leader that stays.
stay :
    (path : List ℕ) (bs : List Backend) (l l' : Leader) (b : Backend)
    → Leads path bs l
    → score_of b path ≤ℤ l.score
    → l'.best ≡ l.best
    → l'.score ≡ l.score
    → Leads path (bs ++ (b ∷ [])) l'
stay path bs l l' b leads le e f = record {
  highest =
      subst (λ s. All (λ c. score_of c path ≤ℤ s) (bs ++ (b ∷ []))) (sym f)
        (All-snoc _ bs b leads.highest le);
  chosen = elim leads.chosen [
    | inl (z, n) ↦ inl (f ∙ z, e ∙ n)
    | inr (p, (c, (g, r))) ↦ inr (
      subst (λ s. pos 0 <ℤ s) (sym f) p,
      (
        c,
        (
          e ∙ g,
          subst (λ s. first_reaching s path (bs ++ (b ∷ [])) ≡ some c) (sym f)
              (some_reaches l.score path bs b c r),
        ),
      ),
    )
  ];
}

score_pos : (path : List ℕ) (bs : List Backend) (l : Leader) → Leads path bs l → pos 0 ≤ℤ l.score
score_pos path bs l leads = elim leads.chosen [
  | inl (z, n) ↦ subst (λ s. pos 0 ≤ℤ s) (sym z) (omega arith)
  | inr (p, r) ↦ ground arith
]

-- A backend with a higher score takes the lead.
lead :
    (path : List ℕ) (bs : List Backend) (l : Leader) (b : Backend)
    → Leads path bs l
    → l.score <ℤ score_of b path
    → Leads path (bs ++ (b ∷ [])) (record { best = some b; score = score_of b path; ties = 0 })
lead path bs l b leads lt = record {
  highest =
      All-snoc _ bs b
        (All-map (λ c. score_of c path ≤ℤ l.score) (λ c. score_of c path ≤ℤ score_of b path) bs
          (λ c h. ground (arith, h, lt)) leads.highest)
        (ground arith);
  chosen =
      let z = score_pos path bs l leads in
      let none_yet = none_reaches (score_of b path) path bs (
        All-map (λ c. score_of c path ≤ℤ l.score) (λ c. score_of c path <ℤ score_of b path) bs
          (λ c h. ground (arith, h, lt)) leads.highest) in
      let itself : leb_ℤ (score_of b path) (score_of b path) ≡ true = ground arith in
      inr (
        ground (arith, z, lt),
        (b, (refl, first_reaching-snoc (score_of b path) path bs b ∙ rw (none_yet, itself) refl)),
      );
}

consider-Leads :
    (path : List ℕ) (bs : List Backend) (l : Leader) (b : Backend)
    → Leads path bs l
    → Leads path (bs ++ (b ∷ [])) (consider path l b)
unfolding consider
consider-Leads path bs l b leads = elim (Bool-cases (leb_ℤ (score_of b path) (pos 0))) [
  | inl e ↦
      let z = score_pos path bs l leads in
      rw (consider, e) (stay path bs l l b leads (ground (arith, e, z)) refl refl)
  | inr e ↦ elim (Bool-cases (ltb_ℤ l.score (score_of b path))) [
    | inl f ↦ rw (consider, e, f) (lead path bs l b leads (ltb_ℤ→lt l.score (score_of b path) f))
    | inr f ↦ elim (Bool-cases (eq_ℤ (score_of b path) l.score)) [
      | inl g ↦
          rw (consider, e, f, g)
            (stay path bs l _ b leads (not_ltb_ℤ→le l.score (score_of b path) f) refl refl)
      | inr g ↦
          rw (consider, e, f, g)
            (stay path bs l l b leads (not_ltb_ℤ→le l.score (score_of b path) f) refl refl)
    ]
  ]
]

append_assoc : (xs ys zs : List Backend) → (xs ++ ys) ++ zs ≡ xs ++ (ys ++ zs)
append_assoc [] ys zs = refl
append_assoc (x ∷ xs) ys zs = ap (λ l. x ∷ l) (append_assoc xs ys zs)

append-nil : (xs : List Backend) → xs ++ [] ≡ xs
append-nil [] = refl
append-nil (x ∷ xs) = ap (λ l. x ∷ l) (append-nil xs)

probe_from-Leads :
    (path : List ℕ) (bs rest : List Backend) (l : Leader)
    → Leads path bs l
    → Leads path (bs ++ rest) (probe_from path l rest)
unfolding probe_from
probe_from-Leads path bs [] l leads = subst (λ v. Leads path v l) (sym (append-nil bs)) leads
probe_from-Leads path bs (b ∷ rest) l leads =
    subst (λ v. Leads path v (probe_from path (consider path l b) rest))
      (append_assoc bs (b ∷ []) rest)
      (probe_from-Leads path (bs ++ (b ∷ [])) rest (consider path l b)
        (consider-Leads path bs l b leads))

-- `eng_model_probe` gives the first of the registered backends whose score none exceeds, with this score,
-- and none with the score 0 if no score is above 0.
pub probe-Leads :
    (built_in : List Backend) (r : Registry) (path : List ℕ)
    → Leads path (register_builtins built_in r).reg (probe built_in r path).0
unfolding probe
probe-Leads built_in r path =
    probe_from-Leads path [] (register_builtins built_in r).reg no_leader
      (record { highest = tt; chosen = inl (refl, refl) })
