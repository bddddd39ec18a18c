-- ===== src/Blob/Tests.antt =====
-- Concrete calls of src/aivm_vm_blob.c.
use ai_vm.Common.{ℕ, ◌<◌, ◌≡◌, refl, true, false, none, some, List, [], ◌∷◌, take, drop, arith}
use ai_vm.Blob.{BlobStatus, Blobs, init_blobs, blob_create, blob_read, blob_release, find_blob}
use ai_vm.Blob.Invariant.{stored, IsBlobs}
use ai_vm.Blob.Creation.{Outcome, admits, blob_create_refines}
use ai_vm.Blob.Release.{IsReleased, blob_read-slice, blob_release_refines}
use ai_vm.Blob.Histories.{BlobEvent, blob_steps, init-IsBlobs, released_handles_stay_empty}

abbrev three_bytes : List ℕ
three_bytes = 1 ∷ 2 ∷ 3 ∷ []

abbrev calls : List BlobEvent
calls =
    BlobEvent.create_event true true (some three_bytes)
    ∷ BlobEvent.create_event true false (some three_bytes)
    ∷ BlobEvent.create_event true false (some [])
    ∷ []

one_blob : Blobs
unfolding blob_steps
one_blob = blob_steps init_blobs calls

nothing_at_zero : stored init_blobs 0 ≡ none
unfolding stored find_blob
nothing_at_zero = refl

one_blob-IsBlobs : IsBlobs one_blob
unfolding one_blob
one_blob-IsBlobs =
    (released_handles_stay_empty init_blobs [] calls 0 init-IsBlobs (refl, (refl, (refl, tt)))
      (omega arith) nothing_at_zero).0

three_bytes_are_stored : stored one_blob 1 ≡ some three_bytes
unfolding stored one_blob
three_bytes_are_stored = refl

blob_create_refines_example :
    Outcome one_blob
      (admits one_blob true true (some three_bytes))
      (some three_bytes)
      (blob_create one_blob true true (some three_bytes))
blob_create_refines_example =
    blob_create_refines one_blob true true (some three_bytes) one_blob-IsBlobs

blob_read-slice_example : blob_read one_blob 1 1 5 ≡ (elim (stored one_blob 1) [
  | none ↦ (BlobStatus.blob_not_found, [])
  | some bytes ↦ (BlobStatus.blob_ok, take 5 (drop 1 bytes))
])
blob_read-slice_example = blob_read-slice one_blob 1 1 5

blob_release_refines_example : IsReleased one_blob 1 (blob_release one_blob 1)
blob_release_refines_example = blob_release_refines one_blob 1 one_blob-IsBlobs

-- A machine that is used, reset and used again, until the handle 1 is released once more.
abbrev first_calls : List BlobEvent
first_calls =
    BlobEvent.create_event true true (some three_bytes)
    ∷ BlobEvent.reset_event
    ∷ BlobEvent.create_event true true (some three_bytes)
    ∷ BlobEvent.release_event 1
    ∷ []

-- Behind a reset the handle 1 is given out again, with bytes.
one_is_reused :
    stored
      (blob_steps one_blob
        (BlobEvent.reset_event ∷ BlobEvent.create_event true true (some three_bytes) ∷ []))
      1
    ≡ some three_bytes
unfolding stored blob_steps one_blob
one_is_reused = refl

one_is_given : 1 < (blob_steps one_blob first_calls).next_blob_handle
unfolding blob_steps one_blob
one_is_given = omega arith

one_is_empty : stored (blob_steps one_blob first_calls) 1 ≡ none
unfolding stored blob_steps one_blob
one_is_empty = refl

released_handles_stay_empty_example :
    IsBlobs (blob_steps (blob_steps one_blob first_calls) calls)
    × (stored (blob_steps (blob_steps one_blob first_calls) calls) 1 ≡ none)
released_handles_stay_empty_example =
    released_handles_stay_empty one_blob first_calls calls 1 one_blob-IsBlobs
      (refl, (refl, (refl, tt))) one_is_given one_is_empty
