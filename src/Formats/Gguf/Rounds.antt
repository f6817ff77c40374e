-- ===== src/Formats/Gguf/Rounds.antt =====
-- The rounds of `gguf_open` in src/formats/gguf.c.
use native.Mathlib.Nat.{mul_assoc}
use multi_model_llm_engine.Base.{
  ℕ, zero, suc, ◌*◌, ◌^◌, ◌≤◌, ◌≡◌, ◌≢◌, refl, Bool-cases, inl, inr, arith, ltb, List, min, dec_lt,
}
use multi_model_llm_engine.Formats.Gguf.Open.{
  Opened, out_of_fuel, hdr_first, hdr_max, next_want, open_round, open_loop, gguf_open,
}

pow_pos : (n : ℕ) → 1 ≤ 4 ^ n
pow_pos zero = omega arith
pow_pos (suc n) = omega (arith, pow_pos n)

mul_le : (a p : ℕ) → 1 ≤ p → a ≤ a * p
mul_le a zero h = elim h [ ]
mul_le a (suc p) h = omega arith

reached :
    (size want p : ℕ)
    → 1 ≤ p
    → min hdr_max size ≤ want * 4 * p
    → min hdr_max size ≤ min hdr_max (min size (want * 4)) * p
reached size want p h g =
    let a = mul_le hdr_max p h in
    let b = mul_le size p h in
    elim (dec_lt hdr_max (min size (want * 4))) [
      | yes l ↦
          let e : min hdr_max (min size (want * 4)) ≡ hdr_max = omega arith in rw e (omega arith)
      | no m ↦ elim (dec_lt size (want * 4)) [
        | yes l' ↦
            let e : min hdr_max (min size (want * 4)) ≡ size = omega arith in rw e (omega arith)
        | no m' ↦ let e : min hdr_max (min size (want * 4)) ≡ want * 4 = omega arith in rw e g
      ]
    ]

shift : (want p q : ℕ) → q ≡ 4 * p → want * q ≡ want * 4 * p
shift want p q e = rw (e, mul_assoc want 4 p) refl

-- The next prefix is four times as close to the longest.
pub next_want_reaches :
    (size want fuel : ℕ)
    → min hdr_max size ≤ want * 4 ^ suc fuel
    → min hdr_max size ≤ next_want size want * 4 ^ fuel
unfolding next_want
next_want_reaches size want fuel h =
    reached size want (4 ^ fuel) (pow_pos fuel)
      (omega (arith, h, shift want (4 ^ fuel) (4 ^ suc fuel) (omega arith)))

pub next_want_le : (size want : ℕ) → next_want size want ≤ min hdr_max size
unfolding next_want
next_want_le size want = omega arith

round_rest :
    (read : ℕ → List ℕ) (size want : ℕ) (rest : Opened)
    → open_round read size want rest ≡ out_of_fuel
    → rest ≡ out_of_fuel
unfolding open_round
round_rest read size want rest e = ground arith

settles :
    (read : ℕ → List ℕ) (size fuel want : ℕ)
    → min hdr_max size ≤ want * 4 ^ fuel
    → open_loop read size (suc fuel) want ≢ out_of_fuel
unfolding open_loop open_round
settles read size zero want h e = ground arith
settles read size (suc fuel) want h e =
    settles read size fuel (next_want size want) (next_want_reaches size want fuel h)
      (round_rest read size want _ e)

-- `gguf_open` returns, whatever the file and the reads: the four rounds that the model gives its loop
-- are never used up.
pub gguf_open-terminates : (read : ℕ → List ℕ) (size : ℕ) → gguf_open read size ≢ out_of_fuel
unfolding gguf_open
gguf_open-terminates read size e = elim (Bool-cases (ltb size 24)) [
  | inl small ↦ ground (arith, rw small at e)
  | inr big ↦ settles read size 3 (min hdr_first size) (omega arith) (rw big at e)
]
