-- ===== src/Lib.antt =====
-- The engine runs language models whose weights do not fit in memory. Its planner divides a memory
-- budget; a streamer reads the layers' weights in a fixed order through a pinned prefix and a ring of
-- slots; a keyed cache holds the experts that the router picks; tensors describe where bytes lie.
--
-- Base: numbers, lists, integers (`int64_t`, `int`) and 64-bit counters. Signed arithmetic is exact
--   where the code's own values keep it in range. On numbers that a file gives (`add_i64`, `sub_i64`,
--   `mul_i64`) it wraps round, which C leaves undefined; theorems about such numbers name what must not
--   overflow. Unsigned counters wrap.
-- Storage/Cache: src/storage/cache.c. `Cache` is `struct EngCache`, with arrays as functions of the index
--   and -1 as `none`; `Source` is `EngCacheSrc`, of which one call sees one value, so that reads may
--   fail in one call and succeed in the next. Types has the state and `pick_victim`, Admit the serial
--   calls, Batch `eng_cache_get_many`. Rule, Invariant and Sound carry the invariant through each of
--   them, Run through every sequence; Victim, Pinned, Counts and Sizes have the eviction order, pinned
--   objects, the counters and the sizes; StaleMeta a refusal that is not free.
-- Storage/Streamer: src/storage/streamer.c. Sizing is the fixed-point loop of `eng_streamer_create`, with
--   its four passes as the fuel `passes`; Ring has the calls and the reader thread, whose `busy` and
--   `done` are the constructors of `Io`, and the buffers with their `slot_pad` and `pin_pad`, Ring/Create the construction, and Ring/Run every
--   interleaving of them.
-- Storage/File: src/storage/file.c over `pread` as a parameter, of whose direct descriptor only reads of whole pages
--   are promised anything; the alignment of the buffer's address is left out. `read_loop` has as many turns as bytes are asked
--   for, since a turn reads one at least. Deliver is about what arrives.
-- Runtime/Memory and Runtime/Planner: src/runtime/memory.c and planner.c. The planner calls
--   `mem_plan`, which is `eng_mem_plan`.
-- Tensor/Dtype and Tensor/Shape: src/tensor/dtype.c and tensor.c.
-- Kimi/ExpertCache: src/cache/k3_cache.c, which binds the weight cache to the experts of K3: a key is
--   layer * n_experts + expert. Binding gives the cache its source, and Served
--   follows any sequence of calls on it.
--
-- Formats/Gguf: src/formats/gguf.c. Cursor is the bounds-checked cursor as a parser monad, whose three ends
--   are what `parse_header` returns: 0, 1 for a header that does not fit, and -1. Metadata and Header
--   are its loops, Open the loop of `gguf_open` over growing prefixes, Access the accessors. Ends is
--   about what a walk leaves, Stable about walks over a longer prefix.
-- Tokenizer: src/tokenizer/bpe.c. Map is the open-addressing hash map, Bytes the byte alphabet and the decoding
--   of a token, Split `next_fragment`, State `EngBpe`, Merge `merge_fragment`, Encode
--   `eng_bpe_encode`, and Load `eng_bpe_from_gguf`, which reads the tokens by `gguf_arr_str`. Chat
--   is src/tokenizer/chat.c.
-- Io/Shards: src/io/k3_st.c. Scan is the scanner, a parser over the bytes of a header, Header the loops of
--   `scan_shard`, Index the hash index with `k3_st_find` and `k3_st_open`, Read the raw reads. A loop over
--   the header has as many rounds as bytes are left, of which each takes one at least. Extents and
--   Open are about the tensors, Shrinks is about what a round leaves, Settled about the rounds, Index/Unique about the index.
-- Io/Experts: src/io/k3_load.c. Pieces, Bounds, Run and Each are about the ways to read an expert.
-- Kimi/Weights: src/model/k3_bind.c. A plan is a list of requests, each for the field that is set. Resolve is
--   `plan_resolve` with the fallback to 32-bit floats, Resolve/Layout and Laid the places in the blob, Resolve/Filed
--   the same on the index of Io/Shards; Packed is
--   `k3_bind_layer_mem`, Packed/Room the widen area. The lookup of a tensor and the text of its name are
--   parameters. Products of dimensions stay below 2^63.
-- Models/Registry: src/models/registry.c, with the built-in backends as a parameter.
--
-- Loops run over lists or count down the rest of their range, and so end, or are given fuel: the four passes
-- of the sizing are the source's own; `gguf_open` has four rounds, as the prefix is four times as long
-- in each and is bounded by 256 MiB; a probe has as many rounds as the map has slots, the doubling of
-- a map's capacity 27, the merges as many as there are symbols, and decoding and encoding as many as
-- there are bytes.
--
-- Not modelled: opening and closing files, src/formats/safetensors.c, the trunk (src/io/k3_trunk.c), the models, the
-- kernels and quantised formats (floating point), hardware detection, the command lines, messages, timing
-- and the failure of single allocations, of which one Boolean says whether all succeed. The reads of a batch,
-- which run in parallel into slots of their own, are taken in the order of their list. The reader
-- thread writes its slot in one step, when its read ends.
pub mod Base
pub mod Storage
pub mod Runtime
pub mod Tensor
pub mod Kimi
pub mod Formats
pub mod Io
pub mod Tokenizer
pub mod Models
