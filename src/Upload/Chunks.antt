-- ===== src/Upload/Chunks.antt =====
-- The loop that measures an upload agrees with the file's size.
use di_wei_wei_nano_market.Prelude.{
  ℕ, zero, suc, ◌+◌, ◌≤◌, ◌<◌, ◌≡◌, refl, true, false, inl, inr, Bool-cases, ltb, none, some, List,
  [], ◌∷◌, leb, length, take, drop, length-take, length-drop, arith, if◌then◌else◌,
}
use di_wei_wei_nano_market.Prelude.Text.{is_empty}
use di_wei_wei_nano_market.Session.{http_exception, file_too_large}
use di_wei_wei_nano_market.Upload.Validation.{
  UploadFile, read_chunks, validate_file_size, max_upload_size, chunk_size,
}

is_empty-take : (k : ℕ) (xs : List ℕ) → 0 < k → is_empty (take k xs) ≡ is_empty xs
is_empty-take zero xs h = absurd (omega arith)
is_empty-take (suc k) [] h = refl
is_empty-take (suc k) (x ∷ xs) h = refl

length-empty : (xs : List ℕ) → is_empty xs ≡ true → length xs ≡ 0
length-empty [] h = refl
length-empty (x ∷ xs) h = absurd (ground arith)

length-nonempty : (xs : List ℕ) → is_empty xs ≡ false → 0 < length xs
length-nonempty [] h = absurd (ground arith)
length-nonempty (x ∷ xs) h = ground arith

-- With fuel for every byte, and chunks that are not empty, the loop tells whether the bytes that it
-- counted before and those of the file keep to the limit.
read_chunks-size :
    (chunk limit fuel total : ℕ) (xs : List ℕ)
    → 0 < chunk
    → total ≤ limit
    → length xs < fuel
    → read_chunks chunk limit fuel total xs ≡ some (leb (total + length xs) limit)
unfolding read_chunks
read_chunks-size chunk limit zero total xs pos low enough = absurd (omega arith)
read_chunks-size chunk limit (suc fuel) total xs pos low enough = elim (Bool-cases (is_empty xs)) [
  | inl done ↦ ground (arith, is_empty-take chunk xs pos, length-empty xs done)
  | inr more ↦
      let read = length-take chunk xs in
      let rest = length-drop chunk xs in
      let some_ : 0 < length xs = length-nonempty xs more in
      elim (Bool-cases (ltb limit (total + length (take chunk xs)))) [
        | inl over ↦ ground (arith, is_empty-take chunk xs pos, read)
        | inr under ↦
            let shorter : length (drop chunk xs) < fuel = omega arith in
            let later =
              read_chunks-size chunk limit fuel (total + length (take chunk xs)) (drop chunk xs) pos
                (ground arith) shorter in
            let all_ : total + length (take chunk xs) + length (drop chunk xs) ≡ total + length xs =
              omega arith in
            ground (arith, is_empty-take chunk xs pos, later, all_)
      ]
]

-- The check of the size, which reads the file in chunks of a megabyte, ends, and refuses with 413
-- exactly the files of more than 100 megabytes.
pub size_check :
    (file : UploadFile)
    → validate_file_size file ≡ (
        if leb (length file.content) max_upload_size
        then none
        else some (http_exception 413 file_too_large))
unfolding validate_file_size
size_check file =
    let whole =
      read_chunks-size chunk_size max_upload_size (suc (length file.content)) 0 file.content
        (omega arith) (omega arith) (omega arith) in
    let zero_ : 0 + length file.content ≡ length file.content = omega arith in
    ground (arith, whole, zero_)
