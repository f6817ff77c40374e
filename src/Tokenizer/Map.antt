-- ===== src/Tokenizer/Map.antt =====
-- The hash map of src/tokenizer/bpe.c: open addressing, FNV-1a, keys that are never removed. The array is
-- a function of the slot; `s` is the text of `len` bytes that an entry points to, and stays unchanged.
pub mod Steps
pub mod Room
pub mod FirstWins
mod Tests
use Prim.Native.Nat.{bit_and, bit_xor}
use multi_model_llm_engine.Base.{
  ℕ, zero, suc, ◌+◌, ◌-◌, ◌*◌, ◌%◌, ◌^◌, Option, none, some, List, [], ◌∷◌, ltb, if◌then◌else◌,
}
use multi_model_llm_engine.Base.Words.{update}
use multi_model_llm_engine.Formats.Gguf.Types.{same_text}

-- `Ent`.
pub record Ent : Type 0 where
  pub s : List ℕ
  pub val : ℕ

-- `Map`; a slot whose `s` is NULL is `none`.
pub record Map : Type 0 where
  pub e : ℕ → Option Ent
  pub cap : ℕ
  pub n : ℕ

-- `hash_bytes`, from the hash so far.
unfoldable pub hash_from : ℕ → List ℕ → ℕ
hash_from h [] = h
hash_from h (b ∷ bs) = hash_from (bit_xor h b * 1099511628211 % 2 ^ 64) bs

unfoldable pub hash_bytes : List ℕ → ℕ
hash_bytes s = hash_from 1469598103934665603 s

-- `while (cap < want * 2) cap <<= 1`, in so many rounds at most.
unfoldable pub capacity : ℕ → ℕ → ℕ → ℕ
capacity zero want cap = cap
capacity (suc fuel) want cap =
    let rest = capacity fuel want (cap * 2) in if ltb cap (want * 2) then rest else cap

-- `map_init`; an `int` is doubled at most 27 times from 16.
unfoldable pub map_init : ℕ → Map
map_init want = record { e = λ i. none; cap = capacity 27 want 16; n = 0 }

-- Where a key starts, and the slot behind one.
unfoldable pub home : ℕ → List ℕ → ℕ
home cap s = bit_and (hash_bytes s) (cap - 1)

unfoldable pub next : ℕ → ℕ → ℕ
next cap h = bit_and (h + 1) (cap - 1)

-- Where the loop of `map_put` and `map_get` ends: at the entry of the key, at a free slot, or not in so
-- many rounds.
pub data Probe : Type 0 where
  hit : ℕ → Probe
  free : ℕ → Probe
  looping : Probe

unfoldable pub probe : ℕ → Map → List ℕ → ℕ → Probe
probe zero m s h = looping
probe (suc fuel) m s h =
    let rest = probe fuel m s (next m.cap h) in
    elim (m.e h) [ none ↦ free h | some ent ↦ if same_text ent.s s then hit ent.val else rest ]

-- `map_put`: `none` is a loop that never ends.
unfoldable pub map_put : Map → List ℕ → ℕ → Option Map
map_put m s val = elim (probe m.cap m s (home m.cap s)) [
  | hit v ↦ some m
  | free h ↦ some (record m { e = update m.e h (some (record { s = s; val = val })); n = m.n + 1 })
  | looping ↦ none
]

-- What `map_get` returns: a value, -1, or nothing, as its loop never ends.
pub data Got : Type 0 where
  found : ℕ → Got
  absent : Got
  endless : Got

unfoldable pub map_get : Map → List ℕ → Got
map_get m s = elim (probe m.cap m s (home m.cap s)) [
  | hit v ↦ found v
  | free h ↦ absent
  | looping ↦ endless
]

-- The calls of `map_put` for a list of keys and values, in their order.
unfoldable pub put_all : Map → List (List ℕ × ℕ) → Option Map
put_all m [] = some m
put_all m ((s, val) ∷ rest) = elim (map_put m s val) [ none ↦ none | some m' ↦ put_all m' rest ]
