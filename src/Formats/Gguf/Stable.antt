-- ===== src/Formats/Gguf/Stable.antt =====
-- Walks over a prefix of the file and over a longer one: about the loop of `gguf_open` in src/formats/gguf.c.
use multi_model_llm_engine.Base.{
  ℕ, zero, suc, ◌+◌, ◌*◌, ◌≡◌, refl, Bool, true, false, not, Option, none, some, List, [], ◌∷◌,
  ◌++◌, ltb, if◌then◌else◌, subst, sym,
}
use multi_model_llm_engine.Base.Int.{ℤ, pos, pos_part, ltb_ℤ}
use multi_model_llm_engine.Tensor.Shape.{tensor_nbytes}
use multi_model_llm_engine.Tensor.Dtype.{DType}
use multi_model_llm_engine.Formats.Gguf.Cursor.{
  Walk, ok, grow, malformed, Cur, Parser, pure, reject, ◌>>=◌, then_parse, require, rd, read_le,
  rd_str, split, take_bytes, position, signed,
}
use multi_model_llm_engine.Formats.Gguf.Types.{
  GgufType, uint8, int8, uint16, int16, uint32, int32, float32, bool, string, array, uint64, int64,
  float64, unknown, type_of, scalar_size, GgufKv, GgufTensor,
}
use multi_model_llm_engine.Formats.Gguf.Metadata.{
  skip_strings, skip_array, parse_array, parse_value, parse_kv, parse_kvs,
}
use multi_model_llm_engine.Formats.Gguf.Header.{
  read_shape, size_of, parse_tensor, parse_tensors, alignment_of, is_power_of_two, data_start_of,
  place_tensors, finish, parse_counted,
}

abbrev pub extend : Cur → List ℕ → Cur
extend c more = record { at = c.at; rest = c.rest ++ more }

-- `w'` is what `w` becomes when there is more to read.
abbrev pub Extends : {A : Type 0} → List ℕ → Walk (A × Cur) → Walk (A × Cur) → Type 0
Extends more (ok (a, c)) w' = w' ≡ ok (a, extend c more)
Extends more grow w' = Unit
Extends more malformed w' = w' ≡ malformed

abbrev pub IsStable : {A : Type 0} → Parser A → Type 0
IsStable p = (c : Cur) (more : List ℕ) → Extends more (p c) (p (extend c more))

then_stable :
    {A B : Type 0} (more : List ℕ) (w w' : Walk (A × Cur)) (f : A → Parser B)
    → ((a : A) → IsStable (f a))
    → Extends more w w'
    → Extends more (then_parse w f) (then_parse w' f)
then_stable more (ok (a, c)) w' f hf h =
    subst (λ v. Extends more (f a c) (then_parse v f)) (sym h) (hf a c more)
then_stable more grow w' f hf h = tt
then_stable more malformed w' f hf h = rw h

pub bind-IsStable :
    {A B : Type 0} (p : Parser A) (f : A → Parser B)
    → IsStable p
    → ((a : A) → IsStable (f a))
    → IsStable (p >>= f)
bind-IsStable p f hp hf c more = then_stable more (p c) (p (extend c more)) f hf (hp c more)

pub pure-IsStable : {A : Type 0} (a : A) → IsStable (pure a)
pure-IsStable a c more = refl

pub reject-IsStable : {A : Type 0} → IsStable (reject {A = A})
reject-IsStable c more = refl

pub require-IsStable : (b : Bool) → IsStable (require b)
unfolding require
require-IsStable true c more = refl
require-IsStable false c more = refl

pub if_IsStable :
    {A : Type 0} (b : Bool) (p q : Parser A)
    → IsStable p
    → IsStable q
    → IsStable (if b then p else q)
if_IsStable true p q hp hq = hp
if_IsStable false p q hp hq = hq

abbrev Longer : {A : Type 0} → List ℕ → Option (A × List ℕ) → Option (A × List ℕ) → Type 0
Longer more none o' = Unit
Longer more (some (a, rest)) o' = o' ≡ some (a, rest ++ more)

Longer-next :
    {A B : Type 0} (more : List ℕ) (o o' : Option (A × List ℕ)) (g : A → B)
    → Longer more o o'
    → Longer more
        (elim o [ none ↦ none | some (v, rest) ↦ some (g v, rest) ])
        (elim o' [ none ↦ none | some (v, rest) ↦ some (g v, rest) ])
Longer-next more none o' g h = tt
Longer-next more (some (v, rest)) o' g h = rw h

read_le-Longer : (n : ℕ) (bs more : List ℕ) → Longer more (read_le n bs) (read_le n (bs ++ more))
unfolding read_le
read_le-Longer zero bs more = refl
read_le-Longer (suc n) [] more = tt
read_le-Longer (suc n) (b ∷ bs) more =
    Longer-next more (read_le n bs) (read_le n (bs ++ more)) (λ v. b + 256 * v)
      (read_le-Longer n bs more)

split-Longer : (n : ℕ) (bs more : List ℕ) → Longer more (split n bs) (split n (bs ++ more))
unfolding split
split-Longer zero bs more = refl
split-Longer (suc n) [] more = tt
split-Longer (suc n) (b ∷ bs) more =
    Longer-next more (split n bs) (split n (bs ++ more)) (λ s. b ∷ s) (split-Longer n bs more)

Longer-ok :
    {A : Type 0} (more : List ℕ) (o o' : Option (A × List ℕ)) (at : ℕ)
    → Longer more o o'
    → Extends more
        (elim o [ none ↦ grow | some (v, rest) ↦ ok (v, record { at = at; rest = rest }) ])
        (elim o' [ none ↦ grow | some (v, rest) ↦ ok (v, record { at = at; rest = rest }) ])
Longer-ok more none o' at h = tt
Longer-ok more (some (v, rest)) o' at h = rw h

pub rd-IsStable : (n : ℕ) → IsStable (rd n)
unfolding rd
rd-IsStable n c more =
    Longer-ok more (read_le n c.rest) (read_le n (c.rest ++ more)) (c.at + n)
      (read_le-Longer n c.rest more)

pub take_bytes-IsStable : (n : ℕ) → IsStable (take_bytes n)
unfolding take_bytes
take_bytes-IsStable n c more =
    Longer-ok more (split n c.rest) (split n (c.rest ++ more)) (c.at + n)
      (split-Longer n c.rest more)

pub rd_str-IsStable : IsStable rd_str
unfolding rd_str
rd_str-IsStable = bind-IsStable (rd 8) take_bytes (rd-IsStable 8) take_bytes-IsStable

position-IsStable : IsStable position
unfolding position
position-IsStable c more = refl

skip_strings-IsStable : (n : ℕ) → IsStable (skip_strings n)
unfolding skip_strings
skip_strings-IsStable zero = pure-IsStable tt
skip_strings-IsStable (suc n) =
    bind-IsStable rd_str (λ s. skip_strings n) rd_str-IsStable (λ s. skip_strings-IsStable n)

skip_array-IsStable : (t : GgufType) (n : ℕ) → IsStable (skip_array t n)
unfolding skip_array
skip_array-IsStable t n =
    if_IsStable (ltb 0 (scalar_size t)) _ _
      (bind-IsStable _ _ (take_bytes-IsStable _) (λ bytes. pure-IsStable tt)) (not_scalar t)
  where
    not_scalar :
        (t : GgufType)
        → IsStable (elim t as (λ t. Parser (Unit {0})) [
          | string ↦ skip_strings (pos_part (signed 64 n))
          | _ ↦ reject
        ])
    not_scalar string = skip_strings-IsStable _
    not_scalar uint8 = reject-IsStable
    not_scalar int8 = reject-IsStable
    not_scalar uint16 = reject-IsStable
    not_scalar int16 = reject-IsStable
    not_scalar uint32 = reject-IsStable
    not_scalar int32 = reject-IsStable
    not_scalar uint64 = reject-IsStable
    not_scalar int64 = reject-IsStable
    not_scalar float32 = reject-IsStable
    not_scalar float64 = reject-IsStable
    not_scalar bool = reject-IsStable
    not_scalar array = reject-IsStable
    not_scalar (unknown _) = reject-IsStable

parse_array-IsStable : (k : GgufKv) → IsStable (parse_array k)
unfolding parse_array
parse_array-IsStable k = bind-IsStable _ _ (rd-IsStable 4) (λ t.
    bind-IsStable _ _ (rd-IsStable 8) (λ n.
      bind-IsStable _ _ position-IsStable
        (λ at. bind-IsStable _ _ (skip_array-IsStable (type_of t) n) (λ u. pure-IsStable _))))

parse_value-IsStable : (t : GgufType) (k : GgufKv) → IsStable (parse_value t k)
unfolding parse_value
parse_value-IsStable uint8 k = bind-IsStable _ _ (rd-IsStable 1) (λ v. pure-IsStable _)
parse_value-IsStable int8 k = bind-IsStable _ _ (rd-IsStable 1) (λ v. pure-IsStable _)
parse_value-IsStable uint16 k = bind-IsStable _ _ (rd-IsStable 2) (λ v. pure-IsStable _)
parse_value-IsStable int16 k = bind-IsStable _ _ (rd-IsStable 2) (λ v. pure-IsStable _)
parse_value-IsStable uint32 k = bind-IsStable _ _ (rd-IsStable 4) (λ v. pure-IsStable _)
parse_value-IsStable int32 k = bind-IsStable _ _ (rd-IsStable 4) (λ v. pure-IsStable _)
parse_value-IsStable float32 k = bind-IsStable _ _ (rd-IsStable 4) (λ v. pure-IsStable _)
parse_value-IsStable uint64 k = bind-IsStable _ _ (rd-IsStable 8) (λ v. pure-IsStable _)
parse_value-IsStable int64 k = bind-IsStable _ _ (rd-IsStable 8) (λ v. pure-IsStable _)
parse_value-IsStable float64 k = bind-IsStable _ _ (rd-IsStable 8) (λ v. pure-IsStable _)
parse_value-IsStable bool k = bind-IsStable _ _ (rd-IsStable 1) (λ v. pure-IsStable _)
parse_value-IsStable string k = bind-IsStable _ _ rd_str-IsStable (λ s. pure-IsStable _)
parse_value-IsStable array k = parse_array-IsStable k
parse_value-IsStable (unknown _) k = reject-IsStable

parse_kv-IsStable : (room : ℕ → Bool) (used : ℕ) → IsStable (parse_kv room used)
unfolding parse_kv
parse_kv-IsStable room used = bind-IsStable _ _ rd_str-IsStable (λ key.
    bind-IsStable _ _ (require-IsStable _) (λ u.
      bind-IsStable _ _ (rd-IsStable 4)
        (λ t. bind-IsStable _ _ (parse_value-IsStable _ _) (λ k. pure-IsStable _))))

parse_kvs-IsStable : (room : ℕ → Bool) (n used : ℕ) → IsStable (parse_kvs room n used)
unfolding parse_kvs
parse_kvs-IsStable room zero used = pure-IsStable _
parse_kvs-IsStable room (suc n) used =
    bind-IsStable _ _ (parse_kv-IsStable room used)
      (λ a. bind-IsStable _ _ (parse_kvs-IsStable room n a.1) (λ b. pure-IsStable _))

read_shape-IsStable : (n : ℕ) → IsStable (read_shape n)
unfolding read_shape
read_shape-IsStable zero = pure-IsStable _
read_shape-IsStable (suc n) =
    bind-IsStable _ _ (rd-IsStable 8)
      (λ d. bind-IsStable _ _ (read_shape-IsStable n) (λ ds. pure-IsStable _))

size_of-IsStable : (d : DType) (shape : List ℤ) → IsStable (size_of d shape)
unfolding size_of
size_of-IsStable d shape = of_size (tensor_nbytes d shape)
  where
    of_size :
        (o : Option ℤ)
        → IsStable {A = ℤ}
            (elim o [ none ↦ reject | some n ↦ require (not (ltb_ℤ n (pos 0))) >>= λ u. pure n ])
    of_size none = reject-IsStable
    of_size (some n) = bind-IsStable _ _ (require-IsStable _) (λ u. pure-IsStable _)

parse_tensor-IsStable : (room : ℕ → Bool) (used : ℕ) → IsStable (parse_tensor room used)
unfolding parse_tensor
parse_tensor-IsStable room used = bind-IsStable _ _ rd_str-IsStable (λ name.
    bind-IsStable _ _ (require-IsStable _) (λ u. bind-IsStable _ _ (rd-IsStable 4) (λ n.
      bind-IsStable _ _ (require-IsStable _) (λ u.
        bind-IsStable _ _ (read_shape-IsStable n) (λ shape. bind-IsStable _ _ (rd-IsStable 4) (λ t.
          bind-IsStable _ _ (rd-IsStable 8) (λ off.
            bind-IsStable _ _ (require-IsStable _)
              (λ u. bind-IsStable _ _ (size_of-IsStable _ shape) (λ nbytes. pure-IsStable _)))))))))

parse_tensors-IsStable : (room : ℕ → Bool) (n used : ℕ) → IsStable (parse_tensors room n used)
unfolding parse_tensors
parse_tensors-IsStable room zero used = pure-IsStable _
parse_tensors-IsStable room (suc n) used =
    bind-IsStable _ _ (parse_tensor-IsStable room used)
      (λ a. bind-IsStable _ _ (parse_tensors-IsStable room n a.1) (λ b. pure-IsStable _))

ends_stable :
    {A B : Type 0} (b : Bool) (o : Option A) (f : A → B) (c : Cur) (more : List ℕ)
    → Extends {A = B} more
        (if not b then malformed else elim o [ none ↦ malformed | some x ↦ ok (f x, c) ])
        (if not b
          then malformed
          else elim o [ none ↦ malformed | some x ↦ ok (f x, extend c more) ])
ends_stable false o f c more = refl
ends_stable true none f c more = refl
ends_stable true (some x) f c more = refl

finish-IsStable :
    (file_size : ℤ) (version : ℕ) (kvs : List GgufKv) (ts : List GgufTensor) (hdr_end : ℕ)
    → IsStable (finish file_size version kvs ts hdr_end)
unfolding finish
finish-IsStable file_size version kvs ts hdr_end c more =
    let start = data_start_of hdr_end (alignment_of kvs) in
    ends_stable (is_power_of_two (alignment_of kvs)) (place_tensors start file_size ts (pos 0)) _ c
      more

pub parse_counted-IsStable :
    (room : ℕ → ℕ → Bool) (file_size : ℤ) → IsStable (parse_counted room file_size)
unfolding parse_counted
parse_counted-IsStable room file_size = bind-IsStable _ _ (rd-IsStable 4) (λ version.
    bind-IsStable _ _ (require-IsStable _) (λ u. bind-IsStable _ _ (rd-IsStable 8) (λ nt.
      bind-IsStable _ _ (rd-IsStable 8) (λ nk. bind-IsStable _ _ (require-IsStable _) (λ u.
        bind-IsStable _ _ (parse_kvs-IsStable _ nk 0) (λ a.
          bind-IsStable _ _ (parse_tensors-IsStable _ nt a.1) (λ b.
            bind-IsStable _ _ position-IsStable
              (λ hdr_end. finish-IsStable file_size version a.0 b.0 hdr_end))))))))
