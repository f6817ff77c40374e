-- ===== src/Formats/Gguf/Open.antt =====
-- `gguf_open` of src/formats/gguf.c: it reads a prefix, and a longer one while the header does not fit.
-- `read` gives the bytes that `store->read` delivers when asked for so many from 0.
use multi_model_llm_engine.Base.{
  ℕ, zero, suc, ◌*◌, ◌^◌, not, ◌||◌, List, ltb, leb, ◌==◌, if◌then◌else◌, length, min,
}
use multi_model_llm_engine.Base.Int.{pos}
use multi_model_llm_engine.Formats.Gguf.Cursor.{ok, grow, malformed}
use multi_model_llm_engine.Formats.Gguf.Types.{Header}
use multi_model_llm_engine.Formats.Gguf.Header.{parse_header}

-- `Gguf`.
pub record Gguf : Type 0 where
  pub header : Header
  pub blob : List ℕ
  pub file_size : ℕ

-- What `gguf_open` returns: 0, -1, or that the rounds given to the loop were used up.
pub data Opened : Type 0 where
  opened : Gguf → Opened
  failed : Opened
  out_of_fuel : Opened

-- GGUF_HDR_FIRST and GGUF_HDR_MAX.
abbrev pub hdr_first : ℕ
hdr_first = 8 * 2 ^ 20

abbrev pub hdr_max : ℕ
hdr_max = 256 * 2 ^ 20

-- `want *= 4` and its two bounds.
unfoldable pub next_want : ℕ → ℕ → ℕ
next_want size want = min hdr_max (min size (want * 4))

-- What a round does, with what the next one would return.
unfoldable pub open_round : (ℕ → List ℕ) → ℕ → ℕ → Opened → Opened
open_round read size want rest =
    if not (length (read want) == want)
    then failed
    else elim (parse_header (pos size) (read want)) [
      | ok (h, c) ↦ opened (record { header = h; blob = read want; file_size = size })
      | malformed ↦ failed
      | grow ↦ if leb hdr_max want || leb size want then failed else rest
    ]

unfoldable pub open_loop : (ℕ → List ℕ) → ℕ → ℕ → ℕ → Opened
open_loop read size zero want = out_of_fuel
open_loop read size (suc fuel) want =
    open_round read size want (open_loop read size fuel (next_want size want))

unfoldable pub gguf_open : (ℕ → List ℕ) → ℕ → Opened
gguf_open read size = if ltb size 24 then failed else open_loop read size 4 (min hdr_first size)
