-- ===== src/Models/Registry.antt =====
-- src/models/registry.c. `REG`, `reg_n` and `reg_ready` are the record that each call takes and returns.
-- `built_in` are the two backends of their own directories, in the order in which they are registered.
pub mod Unique
pub mod Best
mod Tests
use Prim.Native.Nat.{bit_and}
use multi_model_llm_engine.Base.{
  ℕ, zero, suc, ◌+◌, Bool, true, false, not, ◌&&◌, ◌||◌, Option, none, some, List, [], ◌∷◌, ◌++◌,
  ltb, leb, ◌==◌, if◌then◌else◌, length, get_elem?,
}
use multi_model_llm_engine.Base.Int.{ℤ, pos, pos_part, ltb_ℤ, leb_ℤ, eq_ℤ}
use multi_model_llm_engine.Formats.Gguf.Types.{same_text}

-- Which of the functions of the run path a backend has.
pub record RunPath : Type 0 where
  pub load : Bool
  pub destroy : Bool
  pub decode : Bool
  pub logits : Bool
  pub state_create : Bool
  pub state_destroy : Bool
  pub state_bytes : Bool

-- `EngModelBackend`, which has a name; `probe` is `none` where it is NULL, and `caps` where it is, else the
-- flags that it reports.
pub record Backend : Type 0 where
  pub name : List ℕ
  pub probe : Option (List ℕ → ℤ)
  pub inspect : Bool
  pub caps : Option ℕ
  pub run : RunPath

pub record Registry : Type 0 where
  pub reg : List Backend
  pub ready : Bool

-- ENG_MAX_BACKENDS.
abbrev pub max_backends : ℕ
max_backends = 16

unfoldable pub runs : RunPath → Bool
runs p =
    p.load && p.destroy && p.decode && p.logits && p.state_create && p.state_destroy
    && p.state_bytes

-- What `eng_model_register` asks of a backend alone; ENG_MCAP_EXECUTE is the lowest flag.
unfoldable pub is_usable : Backend → Bool
is_usable b = elim b.probe [
  | none ↦ false
  | some p ↦ elim b.caps [
    | none ↦ false
    | some flags ↦ b.inspect && not (not (bit_and flags 1 == 0) && not (runs b.run))
  ]
]

unfoldable pub find_in : List ℕ → List Backend → Option Backend
find_in name [] = none
find_in name (b ∷ bs) = if same_text b.name name then some b else find_in name bs

unfoldable pub has_name : List ℕ → List Backend → Bool
has_name name bs = elim (find_in name bs) [ none ↦ false | some b ↦ true ]

-- `eng_model_register` once the built-in ones are there: whether it returns 0, and `REG`.
unfoldable pub append : List Backend → Backend → Bool × List Backend
append bs b =
    if leb max_backends (length bs)
    then (false, bs)
    else if has_name b.name bs
    then (false, bs)
    else (true, bs ++ (b ∷ []))

-- `eng_model_register` while `reg_ready` is set.
unfoldable pub add : List Backend → Backend → Bool × List Backend
add bs b = if is_usable b then append bs b else (false, bs)

unfoldable pub add_all : List Backend → List Backend → List Backend
add_all bs [] = bs
add_all bs (b ∷ rest) = add_all (add bs b).1 rest

module _ (built_in : List Backend) where
  -- `eng_model_register_builtins`.
  unfoldable pub register_builtins : Registry → Registry
  register_builtins r = if r.ready then r else record { reg = add_all r.reg built_in; ready = true }

  unfoldable pub register : Registry → Backend → Bool × Registry
  register r b =
      let r' = register_builtins r in
      let (ok, bs) = append r'.reg b in
      if is_usable b then (ok, record r' { reg = bs }) else (false, r)

  -- `eng_model_find`.
  unfoldable pub find : Registry → List ℕ → Option Backend × Registry
  find r name = let r' = register_builtins r in (find_in name r'.reg, r')

  -- `eng_model_count` and `eng_model_at`.
  unfoldable pub count : Registry → ℕ × Registry
  count r = let r' = register_builtins r in (length r'.reg, r')

  unfoldable pub at : Registry → ℤ → Option Backend × Registry
  at r i =
      let r' = register_builtins r in
      (
        (if leb_ℤ (pos 0) i && ltb_ℤ i (pos (length r'.reg))
            then get_elem? r'.reg (pos_part i)
            else none),
        r',
      )

-- `b->probe(path)`; a registered backend has one.
unfoldable pub score_of : Backend → List ℕ → ℤ
score_of b path = elim b.probe [ none ↦ pos 0 | some p ↦ p path ]

-- `best`, `best_score` and `ties` of `eng_model_probe`.
pub record Leader : Type 0 where
  pub best : Option Backend
  pub score : ℤ
  pub ties : ℕ

unfoldable pub consider : List ℕ → Leader → Backend → Leader
consider path l b =
    let s = score_of b path in
    if leb_ℤ s (pos 0)
    then l
    else if ltb_ℤ l.score s
    then record { best = some b; score = s; ties = 0 }
    else if eq_ℤ s l.score
    then record l { ties = l.ties + 1 }
    else l

unfoldable pub probe_from : List ℕ → Leader → List Backend → Leader
probe_from path l [] = l
probe_from path l (b ∷ bs) = probe_from path (consider path l b) bs

abbrev pub no_leader : Leader
no_leader = record { best = none; score = pos 0; ties = 0 }

-- `eng_model_probe`.
unfoldable pub probe : List Backend → Registry → List ℕ → Leader × Registry
probe built_in r path =
    let r' = register_builtins built_in r in (probe_from path no_leader r'.reg, r')
