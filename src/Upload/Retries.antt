-- ===== src/Upload/Retries.antt =====
-- How an upload deals with an object store that fails for a while.
use di_wei_wei_nano_market.Prelude.{
  ℕ, zero, suc, ◌<◌, ◌≡◌, refl, ◌⊎◌, inl, inr, true, false, List, arith, Bool-cases,
}
use di_wei_wei_nano_market.Models.{Text}
use di_wei_wei_nano_market.Upload.Storage.{
  Minio, Attempt, verified, failed, Stored, stored, storage_error, attempt, is_transient_error,
  try_upload,
}

module _ (lower : Text → Text) {B : Type 0} (minio : Minio B) (key : Text) (content : List ℕ) where
  abbrev pub Tried : B → Attempt × B
  Tried b = attempt lower minio key content b

  -- So many attempts one after the other that fail for a transient reason.
  pub data Outage : ℕ → B → B → Type 0 where
    over : (b : B) → Outage 0 b b
    fails :
        (k : ℕ) (b b' b'' : B) (message : Text)
        → Tried b ≡ (failed message, b')
        → is_transient_error lower message ≡ true
        → Outage k b' b''
        → Outage (suc k) b b''

  -- How an upload with a number of attempts ends, after some that failed for a transient reason.
  pub data Ends (n k : ℕ) (b : B) : Stored × B → Type 0 where
    in_time : (b' : B) → k < n → Tried b ≡ (verified, b') → Ends n k b (stored key, b')
    refused :
        (b' : B) (message : Text)
        → k < n
        → Tried b ≡ (failed message, b')
        → is_transient_error lower message ≡ false
        → Ends n k b (storage_error false, b')
    given_up : k ≡ n → Ends n k b (storage_error true, b)

  Attempt-cases :
      (r : Attempt × B)
      → ((b' : B) × (r ≡ (verified, b'))) ⊎ ((m : Text) × (b' : B) × (r ≡ (failed m, b')))
  Attempt-cases (verified, b') = inl (b', refl)
  Attempt-cases (failed m, b') = inr (m, b', refl)

  later_end : (n k : ℕ) (b : B) (r : Stored × B) → Ends n k b r → Ends (suc n) (suc k) b r
  later_end n k b _ (in_time b' lt h) = in_time b' (omega arith) h
  later_end n k b _ (refused b' m lt h permanent) = refused b' m (omega arith) h permanent
  later_end n k b _ (given_up e) = given_up (omega arith)

  abbrev Upload : ℕ → B → Stored × B
  Upload n b = try_upload lower minio key content n b

  tried_once :
      (left : ℕ) (b b' : B) → Tried b ≡ (verified, b') → Upload (suc left) b ≡ (stored key, b')
  unfolding try_upload
  tried_once left b b' done = ground arith

  tried_in_vain :
      (left : ℕ) (b b' : B) (m : Text)
      → Tried b ≡ (failed m, b')
      → is_transient_error lower m ≡ false
      → Upload (suc left) b ≡ (storage_error false, b')
  unfolding try_upload
  tried_in_vain left b b' m failure permanent = ground arith

  tried_last :
      (b b' : B) (m : Text)
      → Tried b ≡ (failed m, b')
      → is_transient_error lower m ≡ true
      → Upload 1 b ≡ (storage_error true, b')
  unfolding try_upload
  tried_last b b' m failure transient = ground arith

  tried_again :
      (left : ℕ) (b b' : B) (m : Text)
      → Tried b ≡ (failed m, b')
      → is_transient_error lower m ≡ true
      → Upload (suc (suc left)) b ≡ Upload (suc left) b'
  unfolding try_upload
  tried_again left b b' m failure transient = ground arith

  abbrev Outcome : ℕ → B → Type 0
  Outcome n b = (k : ℕ) × (c : B) × Outage k b c × Ends n k c (Upload n b)

  retried :
      (left : ℕ) (b b' : B) (m : Text)
      → Tried b ≡ (failed m, b')
      → is_transient_error lower m ≡ true
      → (0 < left → Outcome left b')
      → Outcome (suc left) b
  retried zero b b' m failure transient later = (
    1,
    b',
    fails 0 b b' b' m failure transient (over b'),
    rw (tried_last b b' m failure transient) (given_up refl),
  )
  retried (suc left) b b' m failure transient later =
      let (k, c, outage, end) = later (omega arith) in
      (
        suc k,
        c,
        fails k b b' c m failure transient outage,
        rw (tried_again left b b' m failure transient)
            (later_end (suc left) k c (Upload (suc left) b') end),
      )

  -- Whatever the object store does, an upload that may be tried has some number of transient failures
  -- first. Then, if attempts are left, either the next one stores the object and verifies its size, or
  -- it fails for a reason that is not transient, which ends the upload at once as not retryable. If
  -- none is left, the upload ends as retryable.
  pub upload_retries :
      (n : ℕ) (b : B)
      → 0 < n
      → (k : ℕ) × (b' : B) × Outage k b b' × Ends n k b' (try_upload lower minio key content n b)
  upload_retries zero b h = absurd (omega arith)
  upload_retries (suc left) b h = elim (Attempt-cases (Tried b)) [
    | inl (b', done) ↦
        (0, b, over b, rw (tried_once left b b' done) (in_time b' (omega arith) done))
    | inr (m, b', failure) ↦ elim (Bool-cases (is_transient_error lower m)) [
      | inr permanent ↦ (
        0,
        b,
        over b,
        rw (tried_in_vain left b b' m failure permanent)
            (refused b' m (omega arith) failure permanent),
      )
      | inl transient ↦ retried left b b' m failure transient (upload_retries left b')
    ]
  ]
