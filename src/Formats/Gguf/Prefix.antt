-- ===== src/Formats/Gguf/Prefix.antt =====
-- The prefixes that `gguf_open` of src/formats/gguf.c reads, and the whole file.
use multi_model_llm_engine.Base.{
  ℕ, zero, suc, ◌*◌, ◌^◌, ◌≤◌, ◌≡◌, refl, sym, subst, ap, ◌∙◌, Bool, true, false, not, ◌||◌, Option,
  none, some, List, [], ◌∷◌, ◌++◌, ltb, leb, ◌==◌, if◌then◌else◌, length, drop, take,
  take-append-drop, length-take, inl, inr, arith, Bool-cases, min, length-append,
}
use multi_model_llm_engine.Base.Int.{ℤ, pos}
use multi_model_llm_engine.Formats.Gguf.Cursor.{Walk, ok, grow, malformed, Cur}
use multi_model_llm_engine.Formats.Gguf.Types.{Header}
use multi_model_llm_engine.Formats.Gguf.Header.{parse_with, parse_header, has_magic}
use multi_model_llm_engine.Formats.Gguf.Open.{
  Opened, opened, failed, out_of_fuel, hdr_first, hdr_max, next_want, open_round, open_loop,
  gguf_open,
}
use multi_model_llm_engine.Formats.Gguf.Rounds.{next_want_reaches, next_want_le}
use multi_model_llm_engine.Formats.Gguf.Stable.{Extends, parse_counted-IsStable}
use multi_model_llm_engine.Formats.Gguf.Pool.{parse_header-unpooled}

take-append : (n : ℕ) (xs ys : List ℕ) → n ≤ length xs → take n (xs ++ ys) ≡ take n xs
take-append zero xs ys h = refl
take-append (suc n) [] ys h = absurd (omega arith)
take-append (suc n) (x ∷ xs) ys h = ap (λ zs. x ∷ zs) (take-append n xs ys (omega arith))

drop-append : (n : ℕ) (xs ys : List ℕ) → n ≤ length xs → drop n (xs ++ ys) ≡ drop n xs ++ ys
drop-append zero xs ys h = refl
drop-append (suc n) [] ys h = absurd (omega arith)
drop-append (suc n) (x ∷ xs) ys h = drop-append n xs ys (omega arith)

take-take : (n m : ℕ) (xs : List ℕ) → n ≤ m → take n (take m xs) ≡ take n xs
take-take zero m xs h = refl
take-take (suc n) zero xs h = absurd (omega arith)
take-take (suc n) (suc m) [] h = refl
take-take (suc n) (suc m) (x ∷ xs) h = ap (λ zs. x ∷ zs) (take-take n m xs (omega arith))

guard_stable :
    {A : Type 0} (more : List ℕ) (b : Bool) (w w' : Walk (A × Cur))
    → Extends more w w'
    → Extends more (if b then malformed else w) (if b then malformed else w')
guard_stable more true w w' h = refl
guard_stable more false w w' h = h

parse_with_stable :
    (room : ℕ → ℕ → Bool) (file_size : ℤ) (blob more : List ℕ)
    → Extends more (parse_with room file_size blob) (parse_with room file_size (blob ++ more))
unfolding parse_with has_magic
parse_with_stable room file_size blob more = elim (Bool-cases (ltb (length blob) 24)) [
  | inl short ↦ rw short tt
  | inr long ↦
      let longer : ltb (length (blob ++ more)) 24 ≡ false =
        grind (arith, length-append blob more) in
      let four : 4 ≤ length blob = ground arith in
      rw (long, longer, take-append 4 blob more four, drop-append 4 blob more four)
        (guard_stable more _ _ _
          (parse_counted-IsStable room file_size (record { at = 4; rest = drop 4 blob }) more))
]

pub parse_header_stable :
    (file_size : ℤ) (blob more : List ℕ)
    → Extends more (parse_header file_size blob) (parse_header file_size (blob ++ more))
parse_header_stable file_size blob more =
    rw (parse_header-unpooled file_size blob, parse_header-unpooled file_size (blob ++ more))
      (parse_with_stable (λ n u. true) file_size blob more)

-- The header that a walk found, and the one that `gguf_open` did.
abbrev pub found : Walk (Header × Cur) → Option Header
found (ok (h, c)) = some h
found grow = none
found malformed = none

abbrev pub opened_header : Opened → Option Header
opened_header (opened g) = some g.header
opened_header failed = none
opened_header out_of_fuel = none

-- What a round returns when the read is complete and its walk is known.
abbrev round_of : Walk (Header × Cur) → List ℕ → ℕ → Bool → Opened → Opened
round_of (ok (h, c)) blob size last rest =
    opened (record { header = h; blob = blob; file_size = size })
round_of malformed blob size last rest = failed
round_of grow blob size last rest = if last then failed else rest

open_round-whole :
    (file : List ℕ) (want : ℕ) (rest : Opened)
    → want ≤ length file
    → open_round (λ n. take n file) (length file) want rest
      ≡ round_of
          (parse_header (pos (length file)) (take want file))
          (take want file)
          (length file)
          (leb hdr_max want || leb (length file) want)
          rest
unfolding open_round
open_round-whole file want rest h =
    let e : length (take want file) ≡ want = omega (arith, length-take want file) in
    let f : not (length (take want file) == want) ≡ false = ground (arith, e) in
    rw f (of_walk (parse_header (pos (length file)) (take want file)))
  where
    of_walk :
        (w : Walk (Header × Cur))
        → elim w [
          | ok (h, c) ↦
              opened (record { header = h; blob = take want file; file_size = length file })
          | malformed ↦ failed
          | grow ↦ if leb hdr_max want || leb (length file) want then failed else rest
        ]
          ≡ round_of w
              (take want file)
              (length file)
              (leb hdr_max want || leb (length file) want)
              rest
    of_walk (ok (h, c)) = refl
    of_walk grow = refl
    of_walk malformed = refl

-- What a round finds, if the rounds behind it find what the longer walk does.
round_found :
    (w w' : Walk (Header × Cur)) (more blob : List ℕ) (size : ℕ) (last : Bool) (rest : Opened)
    → Extends more w w'
    → (last ≡ true → w ≡ w')
    → (last ≡ false → opened_header rest ≡ found w')
    → opened_header (round_of w blob size last rest) ≡ found w'
round_found (ok (h, c)) w' more blob size last rest e l r = rw e refl
round_found malformed w' more blob size last rest e l r = rw e refl
round_found grow w' more blob size true rest e l r = rw (sym (l refl)) refl
round_found grow w' more blob size false rest e l r = r refl

-- The header in the longest prefix that is ever read.
unfoldable pub whole_header : List ℕ → Option Header
whole_header file = found (parse_header (pos (length file)) (take (min hdr_max (length file)) file))

round_lem :
    (file : List ℕ) (want : ℕ) (rest : Opened)
    → want ≤ min hdr_max (length file)
    → ((leb hdr_max want || leb (length file) want) ≡ false
        → opened_header rest ≡ whole_header file)
    → opened_header (open_round (λ n. take n file) (length file) want rest) ≡ whole_header file
unfolding whole_header
round_lem file want rest h r =
    let most = min hdr_max (length file) in
    let more = drop want (take most file) in
    let joined : take want file ++ more ≡ take most file =
      ap (λ xs. xs ++ more) (sym (take-take want most file h))
      ∙ take-append-drop want (take most file) in
    ap opened_header (open_round-whole file want rest (omega arith))
    ∙ round_found (parse_header (pos (length file)) (take want file)) _ more (take want file)
        (length file) (leb hdr_max want || leb (length file) want) rest
        (subst
          (λ xs.
            Extends more (parse_header (pos (length file)) (take want file))
              (parse_header (pos (length file)) xs))
          joined (parse_header_stable (pos (length file)) (take want file) more))
        (λ last. let e : want ≡ most = ground arith in rw (sym e) refl) r

loop_lem :
    (file : List ℕ) (fuel want : ℕ)
    → want ≤ min hdr_max (length file)
    → min hdr_max (length file) ≤ want * 4 ^ fuel
    → opened_header (open_loop (λ n. take n file) (length file) (suc fuel) want) ≡ whole_header file
unfolding open_loop
loop_lem file zero want h g = round_lem file want _ h (λ more. absurd (ground (arith, more, g)))
loop_lem file (suc fuel) want h g = round_lem file want _ h (λ more.
    loop_lem file fuel (next_want (length file) want) (next_want_le (length file) want)
      (next_want_reaches (length file) want fuel g))

-- Reading prefixes of growing length is as good as reading the header at once: where each read gives
-- what the file has, `gguf_open` gives the header that `parse_header` finds in the first 256 MiB of the
-- file, and none where there is none, or the file has less than 24 bytes.
pub gguf_open-eq-whole :
    (file : List ℕ)
    → opened_header (gguf_open (λ n. take n file) (length file))
      ≡ (if ltb (length file) 24 then none else whole_header file)
unfolding gguf_open
gguf_open-eq-whole file = elim (Bool-cases (ltb (length file) 24)) [
  | inl small ↦ rw small refl
  | inr big ↦ rw big (loop_lem file 3 (min hdr_first (length file)) (omega arith) (omega arith))
]
