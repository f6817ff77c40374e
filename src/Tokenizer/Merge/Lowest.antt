-- ===== src/Tokenizer/Merge/Lowest.antt =====
-- Which pair the loop of `merge_fragment` in src/tokenizer/bpe.c joins, and where the loop ends.
use multi_model_llm_engine.Base.{
  ℕ, zero, suc, ◌+◌, ◌≤◌, ◌≡◌, ◌⊎◌, refl, sym, ap, ◌∙◌, subst, Option, none, some, Option-cases,
  Bool-cases, inl, inr, List, [], ◌∷◌, length, arith, ltb, ltb→lt,
}
use multi_model_llm_engine.Tokenizer.State.{EngBpe, lookup_if}
use multi_model_llm_engine.Tokenizer.Merge.{Sym, text_at, better, best_pair, join_at, merge_loop}

-- The rank of the pair at a place, if there is such a pair and the table has it.
unfoldable pub rank_at : EngBpe → List ℕ → ℕ → List Sym → Option ℕ
rank_at b buf i [] = none
rank_at b buf i (x ∷ []) = none
rank_at b buf zero (x ∷ y ∷ ys) = lookup_if b.merge (text_at buf x.off (x.len + y.len))
rank_at b buf (suc i) (x ∷ y ∷ ys) = rank_at b buf i (y ∷ ys)

-- What is known of the best of the pairs from `i` on and of one that was found before.
record IsBest (b : EngBpe) (buf : List ℕ) (i : ℕ) (ys : List Sym) (best : Option (ℕ × ℕ)) (j r : ℕ)
    : Type 0 where
  pub before : (k q : ℕ) → best ≡ some (k, q) → r ≤ q
  pub low : (d q : ℕ) → rank_at b buf d ys ≡ some q → r ≤ q
  pub source : (best ≡ some (j, r)) ⊎ ((d : ℕ) × ((j ≡ i + d) × (rank_at b buf d ys ≡ some r)))

none≢some : {A : Type 0} {a : A} → none ≡ some a → ⊥
none≢some e = cc

some_injective : {A : Type 0} {a c : A} → some a ≡ some c → a ≡ c
some_injective e = cc

-- A pair that is looked at: the better one is no worse than either, and is one of the two.
record IsBetter (best : Option (ℕ × ℕ)) (i : ℕ) (o : Option ℕ) (k q : ℕ) : Type 0 where
  pub than_best : (k' q' : ℕ) → best ≡ some (k', q') → q ≤ q'
  pub than_new : (q' : ℕ) → o ≡ some q' → q ≤ q'
  pub either : (best ≡ some (k, q)) ⊎ ((k ≡ i) × (o ≡ some q))

better-none :
    (best : Option (ℕ × ℕ)) (i : ℕ) (o : Option ℕ)
    → better best i o ≡ none
    → (best ≡ none) × (o ≡ none)
unfolding better
better-none none i none h = (refl, refl)
better-none none i (some r) h = absurd (none≢some (sym h))
better-none (some (j, q)) i none h = absurd (none≢some (sym h))
better-none (some (j, q)) i (some r) h = elim (Bool-cases (ltb r q)) [
  | inl e ↦ absurd (none≢some (sym (rw e at h)))
  | inr e ↦ absurd (none≢some (sym (rw e at h)))
]

abbrev pair_of : ℕ → ℕ → Option (ℕ × ℕ)
pair_of i q = some (i, q)

second : {a b c d : ℕ} → pair_of a b ≡ pair_of c d → b ≡ d
second e = ap (λ (x : ℕ × ℕ). x.1) (some_injective e)

first : {a b c d : ℕ} → pair_of a b ≡ pair_of c d → a ≡ c
first e = ap (λ (x : ℕ × ℕ). x.0) (some_injective e)

better-some :
    (best : Option (ℕ × ℕ)) (i : ℕ) (o : Option ℕ) (k q : ℕ)
    → better best i o ≡ some (k, q)
    → IsBetter best i o k q
unfolding better
better-some none i none k q h = absurd (none≢some h)
better-some (some (j, p)) i none k q h = record {
  than_best = λ k' q' e. omega (arith, second (sym h ∙ e));
  than_new = λ q' e. absurd (none≢some e);
  either = inl h;
}
better-some none i (some r) k q h = record {
  than_best = λ k' q' e. absurd (none≢some e);
  than_new = λ q' e. omega (arith, second h, some_injective e);
  either = inr (sym (first h), ap some (second h));
}
better-some (some (j, p)) i (some r) k q h = elim (Bool-cases (ltb r p)) [
  | inl e ↦
      let new = rw e at h in
      record {
        than_best = λ k' q' f. omega (arith, second new, second f, ltb→lt r p e);
        than_new = λ q' f. omega (arith, second new, some_injective f);
        either = inr (sym (first new), ap some (second new));
      }
  | inr e ↦
      let old = rw e at h in
      record {
        than_best = λ k' q' f. omega (arith, second old, second f);
        than_new = λ q' f. ground (arith, second old, some_injective f, e);
        either = inl old;
      }
]

-- One more pair in front.
extend :
    (b : EngBpe) (buf : List ℕ) (i : ℕ) (x y : Sym) (ys : List Sym) (best : Option (ℕ × ℕ))
    (j r : ℕ)
    → IsBest b buf (suc i) (y ∷ ys) (better best i (rank_at b buf 0 (x ∷ y ∷ ys))) j r
    → IsBest b buf i (x ∷ y ∷ ys) best j r
unfolding rank_at
extend b buf i x y ys best j r ih =
    let o = rank_at b buf 0 (x ∷ y ∷ ys) in
    elim (Option-cases (better best i o)) [
      | inl e ↦
          let (no_best, no_rank) = better-none best i o e in
          record {
            before = λ k q f. absurd (none≢some (sym no_best ∙ f));
            low = λ d q f. lower d q f (λ q g. absurd (none≢some (sym no_rank ∙ g)));
            source = later (λ g. absurd (none≢some (sym e ∙ g))) ih.source;
          }
      | inr ((k, q), e) ↦
          let chosen = better-some best i o k q e in
          let r_le = ih.before k q e in
          record {
            before = λ k' q' f. omega (arith, r_le, chosen.than_best k' q' f);
            low = λ d q' f. lower d q' f (λ q'' g. omega (arith, r_le, chosen.than_new q'' g));
            source = later (λ g. of_either chosen.either (sym e ∙ g)) ih.source;
          }
    ]
  where
    lower :
        (d q : ℕ)
        → rank_at b buf d (x ∷ y ∷ ys) ≡ some q
        → ((q : ℕ) → rank_at b buf 0 (x ∷ y ∷ ys) ≡ some q → r ≤ q)
        → r ≤ q
    lower zero q f here = here q f
    lower (suc d) q f here = ih.low d q f

    later :
        (better best i (rank_at b buf 0 (x ∷ y ∷ ys)) ≡ some (j, r)
          → (best ≡ some (j, r))
            ⊎ ((d : ℕ) × ((j ≡ i + d) × (rank_at b buf d (x ∷ y ∷ ys) ≡ some r))))
        → (better best i (rank_at b buf 0 (x ∷ y ∷ ys)) ≡ some (j, r))
          ⊎ ((d : ℕ) × ((j ≡ suc i + d) × (rank_at b buf d (y ∷ ys) ≡ some r)))
        → (best ≡ some (j, r)) ⊎ ((d : ℕ) × ((j ≡ i + d) × (rank_at b buf d (x ∷ y ∷ ys) ≡ some r)))
    later now (inl g) = now g
    later now (inr (d, (e, f))) = inr (suc d, (omega arith, f))

    of_either :
        {k q : ℕ}
        → (best ≡ some (k, q)) ⊎ ((k ≡ i) × (rank_at b buf 0 (x ∷ y ∷ ys) ≡ some q))
        → pair_of k q ≡ pair_of j r
        → (best ≡ some (j, r)) ⊎ ((d : ℕ) × ((j ≡ i + d) × (rank_at b buf d (x ∷ y ∷ ys) ≡ some r)))
    of_either (inl f) g = inl (f ∙ g)
    of_either (inr (e, f)) g = inr (0, (omega (arith, first g, e), f ∙ ap some (second g)))

best_pair-IsBest :
    (b : EngBpe) (buf : List ℕ) (i : ℕ) (ys : List Sym) (best : Option (ℕ × ℕ)) (j r : ℕ)
    → best_pair b buf i ys best ≡ some (j, r)
    → IsBest b buf i ys best j r
unfolding best_pair rank_at
best_pair-IsBest b buf i [] best j r h = record {
  before = λ k q e. omega (arith, second (sym h ∙ e));
  low = λ d q e. absurd (none≢some e);
  source = inl h;
}
best_pair-IsBest b buf i (x ∷ []) best j r h = record {
  before = λ k q e. omega (arith, second (sym h ∙ e));
  low = λ d q e. absurd (none≢some e);
  source = inl h;
}
best_pair-IsBest b buf i (x ∷ y ∷ ys) best j r h =
    extend b buf i x y ys best j r (best_pair-IsBest b buf (suc i) (y ∷ ys) _ j r h)

best_pair-none :
    (b : EngBpe) (buf : List ℕ) (i : ℕ) (ys : List Sym) (best : Option (ℕ × ℕ))
    → best_pair b buf i ys best ≡ none
    → (best ≡ none) × ((d : ℕ) → rank_at b buf d ys ≡ none)
unfolding best_pair rank_at
best_pair-none b buf i [] best h = (h, λ d. refl)
best_pair-none b buf i (x ∷ []) best h = (h, λ d. refl)
best_pair-none b buf i (x ∷ y ∷ ys) best h =
    let (e, later) = best_pair-none b buf (suc i) (y ∷ ys) _ h in
    let (no_best, no_rank) =
      better-none best i (lookup_if b.merge (text_at buf x.off (x.len + y.len))) e in
    (no_best, λ d. at_place d no_rank later)
  where
    at_place :
        (d : ℕ)
        → lookup_if b.merge (text_at buf x.off (x.len + y.len)) ≡ none
        → ((d : ℕ) → rank_at b buf d (y ∷ ys) ≡ none)
        → rank_at b buf d (x ∷ y ∷ ys) ≡ none
    at_place zero here later = here
    at_place (suc d) here later = later d

best_pair-ranked :
    (b : EngBpe) (buf : List ℕ) (ys : List Sym) (i r : ℕ)
    → best_pair b buf 0 ys none ≡ some (i, r)
    → rank_at b buf i ys ≡ some r
best_pair-ranked b buf ys i r h = elim (best_pair-IsBest b buf 0 ys none i r h).source [
  | inl e ↦ absurd (none≢some e)
  | inr (d, (e, f)) ↦ subst (λ k. rank_at b buf k ys ≡ some r) (omega arith) f
]

-- The pair that a round of `merge_fragment` joins has a rank, and no pair has a lower one.
pub best_pair-lowest :
    (b : EngBpe) (buf : List ℕ) (ys : List Sym) (i r d q : ℕ)
    → best_pair b buf 0 ys none ≡ some (i, r)
    → rank_at b buf d ys ≡ some q
    → (rank_at b buf i ys ≡ some r) × (r ≤ q)
best_pair-lowest b buf ys i r d q h f =
    (best_pair-ranked b buf ys i r h, (best_pair-IsBest b buf 0 ys none i r h).low d q f)

join_at-length :
    (b : EngBpe) (buf : List ℕ) (i : ℕ) (ys : List Sym) (r : ℕ)
    → rank_at b buf i ys ≡ some r
    → length (join_at i ys) + 1 ≡ length ys
unfolding join_at rank_at
join_at-length b buf i [] r h = absurd (none≢some h)
join_at-length b buf i (x ∷ []) r h = absurd (none≢some h)
join_at-length b buf zero (x ∷ y ∷ ys) r h = omega arith
join_at-length b buf (suc i) (x ∷ y ∷ ys) r h = omega (arith, join_at-length b buf i (y ∷ ys) r h)

loop_ends :
    (fuel : ℕ) (b : EngBpe) (buf : List ℕ) (ys : List Sym)
    → length ys ≤ fuel
    → (d : ℕ) → rank_at b buf d (merge_loop fuel b buf ys) ≡ none
unfolding merge_loop best_pair
loop_ends zero b buf [] l = (best_pair-none b buf 0 [] none refl).1
loop_ends zero b buf (y ∷ ys) l = absurd (omega arith)
loop_ends (suc fuel) b buf ys l = elim (Option-cases (best_pair b buf 0 ys none)) [
  | inl o ↦ λ d. rw (merge_loop, o) ((best_pair-none b buf 0 ys none o).1 d)
  | inr ((i, r), o) ↦ λ d.
      rw (merge_loop, o)
        (loop_ends fuel b buf (join_at i ys)
          (omega (arith, join_at-length b buf i ys r (best_pair-ranked b buf ys i r o))) d)
]

-- The merges of a fragment come to an end: after as many rounds as it has symbols, at most, no two
-- neighbours are in the merge table.
pub merge_loop-ends :
    (b : EngBpe) (buf : List ℕ) (ys : List Sym) (d : ℕ)
    → rank_at b buf d (merge_loop (length ys) b buf ys) ≡ none
merge_loop-ends b buf ys = loop_ends (length ys) b buf ys (omega arith)
