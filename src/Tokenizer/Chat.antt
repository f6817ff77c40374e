-- ===== src/Tokenizer/Chat.antt =====
-- src/tokenizer/chat.c: the family of a model's chat template, and the prompt of a single turn. A text is the
-- bytes before its NUL, shorter than 2^31; `none` is NULL or -1; messages are left out.
pub mod Room
mod Tests
use multi_model_llm_engine.Base.{
  ℕ, zero, suc, ◌+◌, ◌-◌, Bool, true, false, ◌&&◌, ◌||◌, not, Option, none, some, List, [], ◌∷◌,
  ◌++◌, ltb, leb, ◌==◌, if◌then◌else◌, length, map,
}
use multi_model_llm_engine.Base.Int.{ℤ, pos, negsuc}
use multi_model_llm_engine.Formats.Gguf.Open.{Gguf}
use multi_model_llm_engine.Formats.Gguf.Access.{gguf_str}
use multi_model_llm_engine.Tokenizer.State.{EngBpe, find}
use multi_model_llm_engine.Tokenizer.Encode.{starts_with, encode}

-- The texts of the markers and roles.
abbrev pub im_start_text : List ℕ
im_start_text =
    b'<' ∷ b'|' ∷ b'i' ∷ b'm' ∷ b'_' ∷ b's' ∷ b't' ∷ b'a' ∷ b'r' ∷ b't' ∷ b'|' ∷ b'>' ∷ []

abbrev pub im_end_text : List ℕ
im_end_text = b'<' ∷ b'|' ∷ b'i' ∷ b'm' ∷ b'_' ∷ b'e' ∷ b'n' ∷ b'd' ∷ b'|' ∷ b'>' ∷ []

abbrev pub enable_thinking : List ℕ
enable_thinking =
    b'e' ∷ b'n' ∷ b'a' ∷ b'b' ∷ b'l' ∷ b'e' ∷ b'_' ∷ b't' ∷ b'h' ∷ b'i' ∷ b'n' ∷ b'k' ∷ b'i' ∷ b'n'
    ∷ b'g' ∷ []

abbrev pub chat_template : List ℕ
chat_template =
    b't' ∷ b'o' ∷ b'k' ∷ b'e' ∷ b'n' ∷ b'i' ∷ b'z' ∷ b'e' ∷ b'r' ∷ b'.' ∷ b'c' ∷ b'h' ∷ b'a' ∷ b't'
    ∷ b'_' ∷ b't' ∷ b'e' ∷ b'm' ∷ b'p' ∷ b'l' ∷ b'a' ∷ b't' ∷ b'e' ∷ []

abbrev pub system_role : List ℕ
system_role = b's' ∷ b'y' ∷ b's' ∷ b't' ∷ b'e' ∷ b'm' ∷ 10 ∷ []

abbrev pub user_role : List ℕ
user_role = b'u' ∷ b's' ∷ b'e' ∷ b'r' ∷ 10 ∷ []

abbrev pub assistant_role : List ℕ
assistant_role = b'a' ∷ b's' ∷ b's' ∷ b'i' ∷ b's' ∷ b't' ∷ b'a' ∷ b'n' ∷ b't' ∷ 10 ∷ []

abbrev pub newline : List ℕ
newline = 10 ∷ []

abbrev pub no_thoughts : List ℕ
no_thoughts =
    b'<' ∷ b't' ∷ b'h' ∷ b'i' ∷ b'n' ∷ b'k' ∷ b'>' ∷ 10 ∷ 10 ∷ b'<' ∷ b'/' ∷ b't' ∷ b'h' ∷ b'i'
    ∷ b'n' ∷ b'k' ∷ b'>' ∷ 10 ∷ 10 ∷ []

-- `contains`: an empty needle is in nothing.
unfoldable pub found_in : List ℕ → List ℕ → Bool
found_in [] needle = false
found_in (c ∷ hay) needle = starts_with needle (c ∷ hay) || found_in hay needle

unfoldable pub contains : List ℕ → List ℕ → Bool
contains hay [] = false
contains hay (c ∷ needle) = found_in hay (c ∷ needle)

-- `EngChatFamily`.
pub data ChatFamily : Type 0 where
  plain : ChatFamily
  chatml : ChatFamily

-- `EngChat`.
pub record Chat : Type 0 where
  family : ChatFamily
  im_start : ℤ
  im_end : ℤ
  eos : ℤ
  supports_think : Bool

-- A model without a template that the engine knows.
unfoldable pub plain_chat : EngBpe → Chat
plain_chat b = record {
  family = plain;
  im_start = negsuc 0;
  im_end = negsuc 0;
  eos = b.eos;
  supports_think = false;
}

-- A ChatML template needs both markers in the vocabulary.
unfoldable pub detect_chatml : EngBpe → List ℕ → Chat
detect_chatml b template = elim (find b im_start_text) [
  | none ↦ plain_chat b
  | some s ↦ elim (find b im_end_text) [
    | none ↦ plain_chat b
    | some e ↦ record {
      family = chatml;
      im_start = pos s;
      im_end = pos e;
      eos = b.eos;
      supports_think = contains template enable_thinking;
    }
  ]
]

unfoldable pub detect : Gguf → EngBpe → Chat
detect g b = elim (gguf_str g chat_template) [
  | none ↦ plain_chat b
  | some template ↦
      if contains template im_start_text then detect_chatml b template else plain_chat b
]

-- `put_id` and `put_text`, behind the ids in the buffer.
unfoldable pub put_id : ℕ → List ℤ → ℤ → Option (List ℤ)
put_id cap out id = if leb cap (length out) then none else some (out ++ (id ∷ []))

unfoldable pub put_text : EngBpe → ℕ → List ℤ → List ℕ → Option (List ℤ)
put_text b cap out [] = some out
put_text b cap out (c ∷ s) = elim (encode b (c ∷ s) (cap - length out) false) [
  | none ↦ none
  | some ids ↦ some (out ++ map pos ids)
]

-- The calls of the two, in order, up to the first that fails.
pub data Piece : Type 0 where
  control : ℤ → Piece
  ordinary : List ℕ → Piece

unfoldable pub put : EngBpe → ℕ → List ℤ → Piece → Option (List ℤ)
put b cap out (control i) = put_id cap out i
put b cap out (ordinary s) = put_text b cap out s

unfoldable pub put_pieces : EngBpe → ℕ → List ℤ → List Piece → Option (List ℤ)
put_pieces b cap out [] = some out
put_pieces b cap out (p ∷ ps) = elim (put b cap out p) [
  | none ↦ none
  | some out' ↦ put_pieces b cap out' ps
]

unfoldable pub turn : Chat → List ℕ → List ℕ → List Piece
turn c role s =
    control c.im_start ∷ ordinary role ∷ ordinary s ∷ control c.im_end ∷ ordinary newline ∷ []

unfoldable pub system_turn : Chat → Option (List ℕ) → List Piece
system_turn c none = []
system_turn c (some []) = []
system_turn c (some (x ∷ s)) = turn c system_role (x ∷ s)

unfoldable pub user_text : Option (List ℕ) → List ℕ
user_text none = []
user_text (some s) = s

unfoldable pub prompt : Chat → Option (List ℕ) → Option (List ℕ) → Bool → List Piece
prompt c system user think =
    system_turn c system
    ++ turn c user_role (user_text user)
    ++ (control c.im_start
        ∷ ordinary assistant_role
        ∷ (if not think && c.supports_think then ordinary no_thoughts ∷ [] else []))

-- `eng_chat_build`, with a capacity that is not negative.
unfoldable pub build :
    Chat → EngBpe → Option (List ℕ) → Option (List ℕ) → Bool → ℕ → Option (List ℤ)
build c b system user think cap = elim (c.family) [
  | plain ↦ none
  | chatml ↦ if cap == 0 then none else put_pieces b cap [] (prompt c system user think)
]
