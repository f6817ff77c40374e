-- ===== src/Storage/File/Tests.antt =====
-- Runs of src/storage/file.c on a file of eight bytes. The buffered descriptor gives three of them at most at a time, the
-- direct one, which is not the third, whole pages, and refuses what is none.
use multi_model_llm_engine.Base.{
  Bool, true, false, zero, suc, ap, subst, ◌==◌, ◌%◌, ◌&&◌, if◌then◌else◌, ℕ, ◌≡◌, refl, arith,
  some, List, [], ◌∷◌, take, drop, min,
}
use multi_model_llm_engine.Base.Int.{pos}
use multi_model_llm_engine.Storage.Streamer.Sizing.{align_up}
use multi_model_llm_engine.Io.Shards.Open.{some_injective}
use multi_model_llm_engine.Storage.File.{
  FileCtx, ReadStats, Delivery, read_loop, pread_all, align_down, payload_size, read_window,
  file_read_aligned, aligned_capacity,
}
use multi_model_llm_engine.Storage.File.Deliver.{
  drop_all, IsRegular, IsDirect, Delivers, file_read_aligned-Delivers,
}

abbrev digits : List ℕ
digits = 10 ∷ 11 ∷ 12 ∷ 13 ∷ 14 ∷ 15 ∷ 16 ∷ 17 ∷ []

abbrev by_threes : ℕ → ℕ → ℕ → List ℕ
by_threes fd off n = take (min n 3) (drop off digits)

abbrev by_pages : ℕ → ℕ → ℕ → List ℕ
by_pages fd off n =
    if fd == 3
    then by_threes fd off n
    else if off % 4096 == 0 && n % 4096 == 0
    then take n (drop off digits)
    else []

abbrev opened : FileCtx
opened = record { fd = 3; dfd = some 4; size = 8 }

abbrev unread : ReadStats
unread = record { reads = 0; direct_reads = 0; bytes_read = 0 }

nothing_lem : (b : Bool) (n : ℕ) (xs : List ℕ) → xs ≡ [] → (if b then take n xs else []) ≡ []
nothing_lem true zero xs e = refl
nothing_lem true (suc n) xs e = ap (take (suc n)) e
nothing_lem false n xs e = refl

by_pages-IsRegular : IsRegular by_pages 3 digits
unfolding IsRegular
by_pages-IsRegular off n positive = (min n 3, omega arith, omega arith, refl)

by_pages-IsDirect : IsDirect by_pages 4 digits
by_pages-IsDirect = record {
  pages = λ off n a b positive. (n, positive, omega arith, b, rw (a, b) refl);
  ended = λ off n h. nothing_lem _ n (drop off digits) (drop_all off digits h);
}

capacity_of_four : aligned_capacity (pos 4) ≡ some 12288
unfolding aligned_capacity align_up
capacity_of_four = refl

-- The payload begins two bytes into the window, of which eight bytes exist.
from_two : Delivery.payload_off (file_read_aligned by_pages opened unread (pos 2) (pos 4) 12288) ≡ 2
unfolding file_read_aligned read_window align_down align_up
from_two = refl

from_two_bytes :
    Delivery.buffer (file_read_aligned by_pages opened unread (pos 2) (pos 4) 12288) ≡ digits
unfolding file_read_aligned read_window pread_all read_loop align_down align_up
from_two_bytes = refl

past_the_end :
    Delivery.returned (file_read_aligned by_pages opened unread (pos 6) (pos 4) 12288) ≡ 2
unfolding file_read_aligned read_window pread_all read_loop align_down align_up payload_size
past_the_end = refl

file_read_aligned-Delivers_example :
    Delivers (file_read_aligned by_pages opened unread (pos 2) (pos 4) 12288) 2 4 digits
file_read_aligned-Delivers_example =
    file_read_aligned-Delivers by_pages digits unread opened 2 4 12288 by_pages-IsRegular
      (λ d e. subst (λ k. IsDirect by_pages k digits) (some_injective e) by_pages-IsDirect)
      capacity_of_four
