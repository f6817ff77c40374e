-- ===== src/Formats/Gguf/Ends.antt =====
-- What holds of the value and the place where a walk ends, if it ends well: about the cursor of
-- src/formats/gguf.c and the values that `parse_header` reads with it.
use multi_model_llm_engine.Base.{
  ℕ, zero, suc, ◌+◌, ◌*◌, ◌≤◌, ◌≡◌, refl, subst, Bool, true, false, Option, none, some, List, [],
  ◌∷◌, ltb, if◌then◌else◌, length, arith,
}
use multi_model_llm_engine.Base.Int.{pos_part}
use multi_model_llm_engine.Formats.Gguf.Cursor.{
  Walk, ok, grow, malformed, Cur, Parser, pure, reject, ◌>>=◌, then_parse, require, rd, read_le,
  rd_str, split, take_bytes, position, signed,
}
use multi_model_llm_engine.Formats.Gguf.Types.{
  GgufType, uint8, int8, uint16, int16, uint32, int32, float32, bool, string, array, uint64, int64,
  float64, unknown, type_of, scalar_size, GgufKv,
}
use multi_model_llm_engine.Formats.Gguf.Metadata.{
  skip_strings, skip_array, parse_array, parse_value,
}

abbrev pub Ends : {A : Type 0} → (A → Cur → Type 0) → Walk (A × Cur) → Type 0
Ends P (ok (a, c)) = P a c
Ends P grow = Unit
Ends P malformed = Unit

pub then-Ends :
    {A B : Type 0} (P : A → Cur → Type 0) (Q : B → Cur → Type 0) (w : Walk (A × Cur))
    (f : A → Parser B)
    → Ends P w
    → ((a : A) (c : Cur) → P a c → Ends Q (f a c))
    → Ends Q (then_parse w f)
then-Ends P Q (ok (a, c)) f h k = k a c h
then-Ends P Q grow f h k = tt
then-Ends P Q malformed f h k = tt

-- Two continuations that agree where the first walk can end.
pub then_same :
    {A B : Type 0} (P : A → Cur → Type 0) (w : Walk (A × Cur)) (f g : A → Parser B)
    → Ends P w
    → ((a : A) (c : Cur) → P a c → f a c ≡ g a c)
    → then_parse w f ≡ then_parse w g
then_same P (ok (a, c)) f g h k = k a c h
then_same P grow f g h k = refl
then_same P malformed f g h k = refl

-- The bytes before the cursor and those behind, together.
abbrev pub extent : Cur → ℕ
extent c = c.at + length c.rest

-- A walk that stays inside the blob.
abbrev pub After : {A : Type 0} → Cur → A → Cur → Type 0
After c a c' = (c.at ≤ c'.at) × (extent c' ≡ extent c)

abbrev pub IsInside : {A : Type 0} → Parser A → Type 0
IsInside p = (c : Cur) → Ends (After c) (p c)

After-trans :
    {A B : Type 0} (c : Cur) (a : A) (c' : Cur)
    → After c a c'
    → (w : Walk (B × Cur)) → Ends (After c') w
    → Ends (After c) w
After-trans c a c' (h₁, h₂) (ok (b, c'')) (g₁, g₂) = (omega arith, omega arith)
After-trans c a c' h grow g = tt
After-trans c a c' h malformed g = tt

pub bind-IsInside :
    {A B : Type 0} (p : Parser A) (f : A → Parser B)
    → IsInside p
    → ((a : A) → IsInside (f a))
    → IsInside (p >>= f)
bind-IsInside p f hp hf c =
    then-Ends (After c) (After c) (p c) f (hp c) (λ a c' h. After-trans c a c' h (f a c') (hf a c'))

pub pure-IsInside : {A : Type 0} (a : A) → IsInside (pure a)
pure-IsInside a c = (omega arith, refl)

map-IsInside :
    {A B : Type 0} (p : Parser A) (f : A → B) → IsInside p → IsInside (p >>= λ a. pure (f a))
map-IsInside p f hp = bind-IsInside p (λ a. pure (f a)) hp (λ a. pure-IsInside (f a))

pub reject-IsInside : (A : Type 0) → IsInside (reject {A = A})
reject-IsInside A c = tt

pub require-IsInside : (b : Bool) → IsInside (require b)
unfolding require
require-IsInside true c = (omega arith, refl)
require-IsInside false c = tt

pub if_IsInside :
    {A : Type 0} (b : Bool) (p q : Parser A)
    → IsInside p
    → IsInside q
    → IsInside (if b then p else q)
if_IsInside true p q hp hq = hp
if_IsInside false p q hp hq = hq

-- What a read of `n` bytes leaves.
abbrev Left : {A : Type 0} → ℕ → List ℕ → Option (A × List ℕ) → Type 0
Left n bs none = Unit
Left n bs (some (a, rest)) = n + length rest ≡ length bs

Left-next :
    {A B : Type 0} (n : ℕ) (b : ℕ) (bs : List ℕ) (o : Option (A × List ℕ)) (g : A → B)
    → Left n bs o
    → Left (suc n) (b ∷ bs) (elim o [ none ↦ none | some (v, rest) ↦ some (g v, rest) ])
Left-next n b bs none g h = tt
Left-next n b bs (some (v, rest)) g h = omega arith

read_le-Left : (n : ℕ) (bs : List ℕ) → Left n bs (read_le n bs)
unfolding read_le
read_le-Left zero bs = omega arith
read_le-Left (suc n) [] = tt
read_le-Left (suc n) (b ∷ bs) =
    Left-next n b bs (read_le n bs) (λ v. b + 256 * v) (read_le-Left n bs)

split-Left : (n : ℕ) (bs : List ℕ) → Left n bs (split n bs)
unfolding split
split-Left zero bs = omega arith
split-Left (suc n) [] = tt
split-Left (suc n) (b ∷ bs) = Left-next n b bs (split n bs) (λ s. b ∷ s) (split-Left n bs)

abbrev Took : {A : Type 0} → Cur → ℕ → A → Cur → Type 0
Took c n a c' = (c'.at ≡ c.at + n) × (extent c' ≡ extent c)

Left-Took :
    {A : Type 0} (c : Cur) (n : ℕ) (o : Option (A × List ℕ))
    → Left n c.rest o
    → Ends
        (Took c n)
        (elim o [ none ↦ grow | some (v, rest) ↦ ok (v, record { at = c.at + n; rest = rest }) ])
Left-Took c n none h = tt
Left-Took c n (some (v, rest)) h = (refl, omega arith)

pub rd-Took : (n : ℕ) (c : Cur) → Ends (Took c n) (rd n c)
unfolding rd
rd-Took n c = Left-Took c n (read_le n c.rest) (read_le-Left n c.rest)

pub take_bytes-Took : (n : ℕ) (c : Cur) → Ends (Took c n) (take_bytes n c)
unfolding take_bytes
take_bytes-Took n c = Left-Took c n (split n c.rest) (split-Left n c.rest)

Took-inside :
    {A : Type 0} (c : Cur) (n : ℕ) (w : Walk (A × Cur)) → Ends (Took c n) w → Ends (After c) w
Took-inside c n (ok (a, c')) (h₁, h₂) = (omega arith, h₂)
Took-inside c n grow h = tt
Took-inside c n malformed h = tt

pub rd-IsInside : (n : ℕ) → IsInside (rd n)
rd-IsInside n c = Took-inside c n (rd n c) (rd-Took n c)

pub take_bytes-IsInside : (n : ℕ) → IsInside (take_bytes n)
take_bytes-IsInside n c = Took-inside c n (take_bytes n c) (take_bytes-Took n c)

pub rd_str-IsInside : IsInside rd_str
unfolding rd_str
rd_str-IsInside = bind-IsInside (rd 8) take_bytes (rd-IsInside 8) take_bytes-IsInside

abbrev Text : ℕ → List ℕ → Option (List ℕ × List ℕ) → Type 0
Text n bs none = Unit
Text n bs (some (s, rest)) = (length s ≡ n) × (n + length rest ≡ length bs)

Text-next :
    (n b : ℕ) (bs : List ℕ) (o : Option (List ℕ × List ℕ))
    → Text n bs o
    → Text (suc n) (b ∷ bs) (elim o [ none ↦ none | some (s, rest) ↦ some (b ∷ s, rest) ])
Text-next n b bs none h = tt
Text-next n b bs (some (s, rest)) (h₁, h₂) = (omega arith, omega arith)

split_length : (n : ℕ) (bs : List ℕ) → Text n bs (split n bs)
unfolding split
split_length zero bs = (refl, omega arith)
split_length (suc n) [] = tt
split_length (suc n) (b ∷ bs) = Text-next n b bs (split n bs) (split_length n bs)

-- A text that was read, and the place behind it.
abbrev pub TextRead : ℕ → Cur → List ℕ → Cur → Type 0
TextRead k c s c' = (c'.at ≡ c.at + k + length s) × (extent c' ≡ extent c)

take_bytes_text : (n : ℕ) (c : Cur) → Ends (TextRead 0 c) (take_bytes n c)
unfolding take_bytes
take_bytes_text n c = of_split (split n c.rest) (split_length n c.rest)
  where
    of_split :
        (o : Option (List ℕ × List ℕ))
        → Text n c.rest o
        → Ends (TextRead 0 c) (elim o [
          | none ↦ grow
          | some (v, rest) ↦ ok (v, record { at = c.at + n; rest = rest })
        ])
    of_split none h = tt
    of_split (some (s, rest)) (h₁, h₂) = (omega arith, omega arith)

pub rd_str_text : (c : Cur) → Ends (TextRead 8 c) (rd_str c)
unfolding rd_str
rd_str_text c =
    then-Ends (Took c 8) (TextRead 8 c) (rd 8 c) take_bytes (rd-Took 8 c)
      (λ n c' h. weaken c' h (take_bytes n c') (take_bytes_text n c'))
  where
    weaken :
        (c' : Cur)
        → ((c'.at ≡ c.at + 8) × (extent c' ≡ extent c))
        → (w : Walk (List ℕ × Cur)) → Ends (TextRead 0 c') w
        → Ends (TextRead 8 c) w
    weaken c' (h₁, h₂) (ok (s, c'')) (g₁, g₂) = (omega arith, omega arith)
    weaken c' h grow g = tt
    weaken c' h malformed g = tt

skip_strings-IsInside : (n : ℕ) → IsInside (skip_strings n)
unfolding skip_strings
skip_strings-IsInside zero = pure-IsInside tt
skip_strings-IsInside (suc n) =
    bind-IsInside rd_str (λ s. skip_strings n) rd_str-IsInside (λ s. skip_strings-IsInside n)

skip_array-IsInside : (t : GgufType) (n : ℕ) → IsInside (skip_array t n)
unfolding skip_array
skip_array-IsInside t n =
    if_IsInside (ltb 0 (scalar_size t)) _ _
      (bind-IsInside _ _ (take_bytes-IsInside _) (λ bytes. pure-IsInside tt)) (not_scalar t)
  where
    not_scalar :
        (t : GgufType)
        → IsInside (elim t as (λ t. Parser (Unit {0})) [
          | string ↦ skip_strings (pos_part (signed 64 n))
          | _ ↦ reject
        ])
    not_scalar string = skip_strings-IsInside _
    not_scalar uint8 = reject-IsInside (Unit {0})
    not_scalar int8 = reject-IsInside (Unit {0})
    not_scalar uint16 = reject-IsInside (Unit {0})
    not_scalar int16 = reject-IsInside (Unit {0})
    not_scalar uint32 = reject-IsInside (Unit {0})
    not_scalar int32 = reject-IsInside (Unit {0})
    not_scalar uint64 = reject-IsInside (Unit {0})
    not_scalar int64 = reject-IsInside (Unit {0})
    not_scalar float32 = reject-IsInside (Unit {0})
    not_scalar float64 = reject-IsInside (Unit {0})
    not_scalar bool = reject-IsInside (Unit {0})
    not_scalar array = reject-IsInside (Unit {0})
    not_scalar (unknown _) = reject-IsInside (Unit {0})

position-IsInside : IsInside position
unfolding position
position-IsInside c = (omega arith, refl)

parse_array-IsInside : (k : GgufKv) → IsInside (parse_array k)
unfolding parse_array
parse_array-IsInside k = bind-IsInside _ _ (rd-IsInside 4) (λ t.
    bind-IsInside _ _ (rd-IsInside 8) (λ n. bind-IsInside _ _ position-IsInside (λ at.
      bind-IsInside _ _ (skip_array-IsInside (type_of t) n) (λ u.
        pure-IsInside (record k { arr_type = type_of t; arr_len = signed 64 n; arr_at = at })))))

pub parse_value-IsInside : (t : GgufType) (k : GgufKv) → IsInside (parse_value t k)
unfolding parse_value
parse_value-IsInside uint8 k = map-IsInside _ _ (rd-IsInside 1)
parse_value-IsInside int8 k = map-IsInside _ _ (rd-IsInside 1)
parse_value-IsInside uint16 k = map-IsInside _ _ (rd-IsInside 2)
parse_value-IsInside int16 k = map-IsInside _ _ (rd-IsInside 2)
parse_value-IsInside uint32 k = map-IsInside _ _ (rd-IsInside 4)
parse_value-IsInside int32 k = map-IsInside _ _ (rd-IsInside 4)
parse_value-IsInside float32 k = map-IsInside _ _ (rd-IsInside 4)
parse_value-IsInside uint64 k = map-IsInside _ _ (rd-IsInside 8)
parse_value-IsInside int64 k = map-IsInside _ _ (rd-IsInside 8)
parse_value-IsInside float64 k = map-IsInside _ _ (rd-IsInside 8)
parse_value-IsInside bool k = map-IsInside _ _ (rd-IsInside 1)
parse_value-IsInside string k = map-IsInside _ _ rd_str-IsInside
parse_value-IsInside array k = parse_array-IsInside k
parse_value-IsInside (unknown _) k = reject-IsInside GgufKv

pub Ends-any : {A : Type 0} (w : Walk (A × Cur)) → Ends (λ a c. Unit) w
Ends-any (ok (a, c)) = tt
Ends-any grow = tt
Ends-any malformed = tt

-- A parser whose values have a property.
pub record Yields {A : Type 0} (Q : A → Type 0) (p : Parser A) : Type 0 where
  pub holds : (c : Cur) → Ends (λ a c'. Q a) (p c)

pub bind-Yields :
    {A B : Type 0} (P : A → Type 0) (Q : B → Type 0) (p : Parser A) (f : A → Parser B)
    → Yields P p
    → ((a : A) → P a → Yields Q (f a))
    → Yields Q (p >>= f)
bind-Yields P Q p f hp hf = record {
  holds =
      λ c. then-Ends (λ a c'. P a) (λ b c'. Q b) (p c) f (hp.holds c) (λ a c' h. (hf a h).holds c');
}

-- A step of which nothing is asked.
pub bind_any :
    {A B : Type 0} (Q : B → Type 0) (p : Parser A) (f : A → Parser B)
    → ((a : A) → Yields Q (f a))
    → Yields Q (p >>= f)
bind_any Q p f hf =
    bind-Yields (λ a. Unit) Q p f (record { holds = λ c. Ends-any (p c) }) (λ a h. hf a)

pub pure-Yields : {A : Type 0} (Q : A → Type 0) (a : A) → Q a → Yields Q (pure a)
pure-Yields Q a h = record { holds = λ c. h }

pub reject-Yields : {A : Type 0} (Q : A → Type 0) → Yields Q reject
reject-Yields Q = record { holds = λ c. tt }

pub then_any :
    {A B : Type 0} (Q : B → Cur → Type 0) (w : Walk (A × Cur)) (f : A → Parser B)
    → ((a : A) (c : Cur) → Ends Q (f a c))
    → Ends Q (then_parse w f)
then_any Q w f k = then-Ends (λ a c. Unit) Q w f (Ends-any w) (λ a c u. k a c)

pub then_position :
    {B : Type 0} (Q : B → Cur → Type 0) (c : Cur) (f : ℕ → Parser B)
    → Ends Q (f c.at c)
    → Ends Q (then_parse (position c) f)
unfolding position
then_position Q c f h = h

pub if_Ends :
    {A : Type 0} (P : A → Cur → Type 0) (b : Bool) (w w' : Walk (A × Cur))
    → Ends P w
    → Ends P w'
    → Ends P (if b then w else w')
if_Ends P true w w' h h' = h
if_Ends P false w w' h h' = h'

pub ends_ok :
    {A : Type 0} (P : A → Cur → Type 0) {w : Walk (A × Cur)} {a : A} {c : Cur}
    → Ends P w
    → w ≡ ok (a, c)
    → P a c
ends_ok P h e = subst (Ends P) e h

-- A test that was passed.
pub require-Yields : (b : Bool) → Yields (λ u. b ≡ true) (require b)
unfolding require
require-Yields true = record { holds = λ c. refl }
require-Yields false = record { holds = λ c. tt }
