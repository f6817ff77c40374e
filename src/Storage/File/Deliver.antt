-- ===== src/Storage/File/Deliver.antt =====
-- What the reads of src/storage/file.c deliver.
use multi_model_llm_engine.Base.{
  ◌%◌, ℕ, zero, suc, ◌+◌, ◌-◌, ◌*◌, ◌<◌, ◌≤◌, ◌≡◌, refl, sym, ap, ◌∙◌, arith, false, some, List, [],
  ◌∷◌, ◌++◌, ltb, length, take, drop, min, length-take, length-drop, inl, inr, subst, Bool-cases,
  Option-cases, ltb→lt, lt→ltb,
}
use multi_model_llm_engine.Base.Int.{pos, ltb_ℤ}
use multi_model_llm_engine.Storage.Streamer.Sizing.{align_up}
use multi_model_llm_engine.Storage.File.{
  FileCtx, ReadStats, Delivery, read_loop, pread_all, file_read, align_down, payload_size,
  read_window, file_read_aligned, aligned_capacity,
}

module _ {ℓ} {A : Type ℓ} where
  take_nil : (k : ℕ) → let none_left : List A = [] in none_left ≡ take k none_left
  take_nil zero = refl
  take_nil (suc k) = refl

  drop_nil : (k : ℕ) → let none_left : List A = [] in none_left ≡ drop k none_left
  drop_nil zero = refl
  drop_nil (suc k) = refl

  drop-drop : (a b : ℕ) (xs : List A) → drop b (drop a xs) ≡ drop (a + b) xs
  drop-drop zero b xs = ap (λ k. drop k xs) (omega arith)
  drop-drop (suc a) b [] =
      let step : suc a + b ≡ suc (a + b) = omega arith in rw (step, sym (drop_nil b)) refl
  drop-drop (suc a) b (x ∷ xs) =
      let step : suc a + b ≡ suc (a + b) = omega arith in rw step (drop-drop a b xs)

  take_all : (xs : List A) → take (length xs) xs ≡ xs
  take_all [] = refl
  take_all (x ∷ xs) = ap (λ ys. x ∷ ys) (take_all xs)

  drop-take : (a k : ℕ) (xs : List A) → drop a (take k xs) ≡ take (k - a) (drop a xs)
  drop-take zero k xs = ap (λ j. take j xs) (omega arith)
  drop-take (suc a) zero [] = let step : 0 - suc a ≡ 0 = omega arith in rw step
  drop-take (suc a) (suc k) [] = take_nil (suc k - suc a)
  drop-take (suc a) zero (x ∷ xs) = let step : 0 - suc a ≡ 0 = omega arith in rw step
  drop-take (suc a) (suc k) (x ∷ xs) =
      let step : suc k - suc a ≡ k - a = omega arith in rw step (drop-take a k xs)

  -- A short piece and what is missing, read from where the piece ends.
  take_rest :
      (m n : ℕ) (xs : List A)
      → m ≤ n
      → take m xs ++ take (n - length (take m xs)) (drop (length (take m xs)) xs) ≡ take n xs
  take_rest zero n xs h = ap (λ j. take j xs) (omega arith)
  take_rest (suc m) zero xs h = absurd (omega arith)
  take_rest (suc m) (suc n) [] h = sym (take_nil (suc n - 0))
  take_rest (suc m) (suc n) (x ∷ xs) h =
      let step : suc n - suc (length (take m xs)) ≡ n - length (take m xs) = omega arith in
      rw step (ap (λ ys. x ∷ ys) (take_rest m n xs (omega arith)))

  take-min : (n k : ℕ) (xs : List A) → n ≤ k → take (min n (length xs)) (take k xs) ≡ take n xs
  take-min zero k xs h = let step : min 0 (length xs) ≡ 0 = omega arith in rw step
  take-min (suc n) zero xs h = absurd (omega arith)
  take-min (suc n) (suc k) [] h = let step : min (suc n) 0 ≡ 0 = omega arith in rw step
  take-min (suc n) (suc k) (x ∷ xs) h =
      let step : min (suc n) (suc (length xs)) ≡ suc (min n (length xs)) = omega arith in
      rw step (ap (λ ys. x ∷ ys) (take-min n k xs (omega arith)))

-- A regular file: a call delivers one byte at least of those asked for, or none at the end.
unfoldable pub IsRegular : (ℕ → ℕ → ℕ → List ℕ) → ℕ → List ℕ → Type 0
IsRegular pread fd contents =
    (off n : ℕ)
    → 0 < n
    → (m : ℕ) × (0 < m) × (m ≤ n) × (pread fd off n ≡ take m (drop off contents))

-- The payload is the file's bytes from `off` on, `n` of them or as many as there are.
unfoldable pub Delivers : Delivery → ℕ → ℕ → List ℕ → Type 0
Delivers r off n contents =
    (r.returned ≡ min n (length contents - off))
    × (take (r.returned) (drop (r.payload_off) (r.buffer)) ≡ take n (drop off contents))

-- A descriptor opened with O_DIRECT: at a place and for a length that are whole pages a call delivers whole pages, one
-- at least, or what there is up to the end of the file; elsewhere it may fail. From the end of the file on there is
-- nothing.
pub record IsDirect (pread : ℕ → ℕ → ℕ → List ℕ) (fd : ℕ) (contents : List ℕ) : Type 0 where
  pub pages :
      (off n : ℕ)
      → off % 4096 ≡ 0
      → n % 4096 ≡ 0
      → 0 < n
      → (m : ℕ) × (0 < m) × (m ≤ n) × (m % 4096 ≡ 0) × (pread fd off n ≡ take m (drop off contents))
  pub ended : (off n : ℕ) → length contents ≤ off → pread fd off n ≡ []

pub drop_all : (k : ℕ) (xs : List ℕ) → length xs ≤ k → drop k xs ≡ []
drop_all zero [] h = refl
drop_all (suc k) [] h = refl
drop_all zero (x ∷ xs) h = absurd (omega arith)
drop_all (suc k) (x ∷ xs) h = drop_all k xs (omega arith)

module _ (pread : ℕ → ℕ → ℕ → List ℕ) (fd : ℕ) (contents : List ℕ) where
  -- One turn and what the next turns read.
  read_turn :
      (turns m n off : ℕ) (rest : List ℕ)
      → drop off contents ≡ rest
      → pread fd off n ≡ take m rest
      → 0 < m
      → m ≤ n
      → (0 < length (take m rest)
          → length (take m rest) < n
          → read_loop pread turns fd (n - length (take m rest)) (off + length (take m rest))
            ≡ take (n - length (take m rest)) (drop (off + length (take m rest)) contents))
      → read_loop pread (suc turns) fd n off ≡ take n rest
  unfolding read_loop
  read_turn turns zero n off rest at eq positive fits later = absurd (omega arith)
  read_turn turns (suc m) n off [] at eq positive fits later = rw (read_loop, eq) (take_nil n)
  read_turn turns (suc m) n off (x ∷ xs) at eq positive fits later =
      let got : ℕ = length (x ∷ take m xs) in
      let whole = take_rest (suc m) n (x ∷ xs) fits in
      elim (Bool-cases (ltb got n)) [
        | inl more ↦
            let moved : drop (off + got) contents ≡ drop got (x ∷ xs) =
              sym (drop-drop off got contents) ∙ ap (drop got) at in
            rw (read_loop, eq, more, later (omega arith) (ltb→lt got n more), moved) whole
        | inr done ↦
            let filled : n - got ≡ 0 = ground arith in
            rw (read_loop, eq, done)
              (subst (λ k. take (suc m) (x ∷ xs) ++ take k (drop got (x ∷ xs)) ≡ take n (x ∷ xs))
                filled whole)
      ]

  -- Enough turns read all that there is of what was asked for.
  read_loop_lem :
      IsRegular pread fd contents
      → (turns n off : ℕ) → 0 < n
      → n ≤ turns
      → read_loop pread turns fd n off ≡ take n (drop off contents)
  unfolding IsRegular
  read_loop_lem regular zero n off positive h = absurd (omega arith)
  read_loop_lem regular (suc turns) n off positive h =
      let (m, some_read, fits, eq) = regular off n positive in
      read_turn turns m n off (drop off contents) refl eq some_read fits (λ moves less.
        read_loop_lem regular turns _ _ (omega (arith, less)) (omega (arith, h, moves)))

  -- Behind the end nothing is read.
  read_loop_ended :
      IsDirect pread fd contents
      → (turns n off : ℕ) → length contents ≤ off
      → read_loop pread turns fd n off ≡ take n (drop off contents)
  unfolding read_loop
  read_loop_ended direct zero n off h = rw (drop_all off contents h) (take_nil n)
  read_loop_ended direct (suc turns) n off h =
      rw (read_loop, direct.ended off n h, drop_all off contents h) (take_nil n)

  read_direct_lem :
      IsDirect pread fd contents
      → (turns n off : ℕ) → off % 4096 ≡ 0
      → n % 4096 ≡ 0
      → 0 < n
      → n ≤ turns
      → read_loop pread turns fd n off ≡ take n (drop off contents)
  read_direct_lem direct zero n off a b positive h = absurd (omega arith)
  read_direct_lem direct (suc turns) n off a b positive h =
      let (m, some_read, fits, pages, eq) = direct.pages off n a b positive in
      let got = length-take m (drop off contents) in
      let left = length-drop off contents in
      read_turn turns m n off (drop off contents) refl eq some_read fits (λ moves less.
        elim (Bool-cases (ltb (length (drop off contents)) m)) [
          | inl short ↦
              read_loop_ended direct turns _ _
                (omega (arith, got, left, ltb→lt (length (drop off contents)) m short, moves))
          | inr full ↦
              let whole : length (take m (drop off contents)) ≡ m = ground (arith, got) in
              read_direct_lem direct turns _ _ (omega (arith, whole, a, pages))
                (omega (arith, whole, b, pages, fits)) (omega (arith, less))
                (omega (arith, h, moves))
        ])

  pub pread_all_lem :
      IsRegular pread fd contents
      → (n off : ℕ) → pread_all pread fd n off ≡ take n (drop off contents)
  unfolding pread_all
  pread_all_lem regular zero off = refl
  pread_all_lem regular (suc n) off =
      rw (lt→ltb 0 (suc n) (omega arith))
        (read_loop_lem regular (suc n) (suc n) off (omega arith) (omega arith))

  pub pread_pages_lem :
      IsDirect pread fd contents
      → (n off : ℕ) → off % 4096 ≡ 0
      → n % 4096 ≡ 0
      → pread_all pread fd n off ≡ take n (drop off contents)
  unfolding pread_all
  pread_pages_lem direct zero off a b = refl
  pread_pages_lem direct (suc n) off a b =
      rw (lt→ltb 0 (suc n) (omega arith))
        (read_direct_lem direct (suc n) (suc n) off a b (omega arith) (omega arith))

-- What is returned of a window is the payload's size, as far as the file reaches.
payload_size_lem :
    (pad n len : ℕ) (xs : List ℕ)
    → pad + n ≤ len
    → payload_size pad n (length (take len xs)) ≡ min n (length xs - pad)
unfolding payload_size
payload_size_lem pad n len xs h = let got = length-take len xs in ground arith

payload :
    (pad n len : ℕ) (xs : List ℕ)
    → pad + n ≤ len
    → take (min n (length xs - pad)) (drop pad (take len xs)) ≡ take n (drop pad xs)
payload pad n len xs h =
    rw (drop-take pad len xs, ← length-drop pad xs)
      (take-min n (len - pad) (drop pad xs) (omega arith))

nonnegative : (k : ℕ) → ltb_ℤ (pos k) (pos 0) ≡ false
nonnegative k = ground arith

capacity_room : (n cap : ℕ) → aligned_capacity (pos n) ≡ some cap → n + 2 * 4096 ≤ cap
unfolding aligned_capacity align_up
capacity_room n cap h = ground arith

module _ (pread : ℕ → ℕ → ℕ → List ℕ) (contents : List ℕ) (st : ReadStats) where
  read_window-Delivers :
      (d off n bufcap : ℕ)
      → IsDirect pread d contents
      → n + 2 * 4096 ≤ bufcap
      → Delivers (read_window pread d st off n bufcap) off n contents
  unfolding Delivers read_window align_down align_up
  read_window-Delivers d off n bufcap direct room =
      let lo = align_down off in
      let pad = off - lo in
      let len = align_up (off + n) - lo in
      let back : lo + pad ≡ off = omega arith in
      let covers : pad + n ≤ len = omega arith in
      let fits : ltb bufcap len ≡ false = ground arith in
      let whole = length-drop lo contents in
      let size : length contents - lo - pad ≡ length contents - off = omega (arith, back) in
      let from : drop pad (drop lo contents) ≡ drop off contents =
        drop-drop lo pad contents ∙ ap (λ k. drop k contents) back in
      let reached = payload_size_lem pad n len (drop lo contents) covers in
      let got = pread_pages_lem pread d contents direct len lo (omega arith) (omega arith) in
      let sized = reached ∙ ap (λ k. min n (k - pad)) whole ∙ ap (min n) size in
      let bytes =
        ap (λ r. take r (drop pad (take len (drop lo contents)))) reached
        ∙ payload pad n len (drop lo contents) covers
        ∙ ap (take n) from in
      rw (read_window, fits, got) (sized, bytes)

  file_read-Delivers :
      (c : FileCtx) (off n : ℕ)
      → IsRegular pread (c.fd) contents
      → Delivers (file_read pread c st (pos off) (pos n)) off n contents
  unfolding Delivers file_read
  file_read-Delivers c off n regular =
      let got = pread_all_lem pread (c.fd) contents regular n off in
      let sized = length-take n (drop off contents) ∙ ap (min n) (length-drop off contents) in
      rw (file_read, nonnegative off, nonnegative n, got)
        (sized, take_all (take n (drop off contents)))

  -- The aligned read of a regular file, whose direct descriptor promises what O_DIRECT does at whole pages only,
  -- delivers the bytes from the offset on, as many as were asked for or as
  -- the file has, at the place in the buffer that it tells, on the direct path and on the buffered one, into
  -- any buffer of the capacity that the allocation for that size gives.
  pub file_read_aligned-Delivers :
      (c : FileCtx) (off n bufcap : ℕ)
      → IsRegular pread (c.fd) contents
      → ((d : ℕ) → c.dfd ≡ some d → IsDirect pread d contents)
      → aligned_capacity (pos n) ≡ some bufcap
      → Delivers (file_read_aligned pread c st (pos off) (pos n) bufcap) off n contents
  unfolding file_read_aligned
  file_read_aligned-Delivers c off n bufcap regular direct alloc =
      let room : n + 2 * 4096 ≤ bufcap = capacity_room n bufcap alloc in
      let fits : ltb bufcap n ≡ false = ground arith in
      elim (Option-cases (c.dfd)) [
        | inl e ↦
            rw (file_read_aligned, nonnegative off, nonnegative n, e, fits)
              (file_read-Delivers c off n regular)
        | inr (d, e) ↦
            rw (file_read_aligned, nonnegative off, nonnegative n, e)
              (read_window-Delivers d off n bufcap (direct d e) room)
      ]
