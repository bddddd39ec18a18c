-- ===== src/Blob/Invariant.antt =====
-- The blob table of src/aivm_vm_blob.c as a map from handles to bytes.
use ai_vm.Common.{
  ℕ, ◌^◌, ◌≤◌, ◌<◌, ◌≡◌, ◌⊎◌, inl, inr, refl, sym, ap, ◌∙◌, Option, none, some, List, ◌==◌,
  if◌then◌else◌, length, arith, Bool-cases,
}
use ai_vm.Blob.{
  BlobRecord, Blobs, blob_capacity, blob_bytes, is_nonpositive, find_record, find_blob,
}
use ai_vm.Blob.Contents.{active_count, active_bytes, IsTable, find_record-IsTable}

abbrev pub bytes_of : Option BlobRecord → Option (List ℕ)
bytes_of none = none
bytes_of (some blob) = some blob.data_bytes

-- The bytes behind a handle.
unfoldable pub stored : Blobs → ℕ → Option (List ℕ)
unfolding find_blob
stored vm handle = bytes_of (find_blob vm handle)

-- The counters count the slots in use, these have handles of their own that were given out, and the
-- limits hold.
pub record IsBlobs (vm : Blobs) : Type 0 where
  pub slots : length vm.blobs ≡ blob_capacity
  pub table : IsTable vm.next_blob_handle vm.blobs
  pub counted : vm.blob_count ≡ active_count vm.blobs
  pub summed : vm.blob_bytes_used ≡ active_bytes vm.blobs
  pub limited : vm.blob_bytes_used ≤ blob_bytes
  pub high_water : vm.blob_bytes_used ≤ vm.blob_bytes_high_water
  pub positive : 0 < vm.next_blob_handle
  pub handles : vm.next_blob_handle ≤ 2 ^ 63

-- The test of a handle's sign is not felt.
pub stored-record : (vm : Blobs) (h : ℕ) → IsBlobs vm → find_blob vm h ≡ find_record vm.blobs h
unfolding find_blob
stored-record vm h v = elim (Bool-cases (is_nonpositive h)) [
  | inl e ↦
      let z : (h ≡ 0) ⊎ (vm.next_blob_handle ≤ h) =
        (let p : vm.next_blob_handle ≤ 2 ^ 63 = v.handles in ground (arith, e, p)) in
      let n : find_record vm.blobs h ≡ none =
        find_record-IsTable vm.next_blob_handle h vm.blobs v.table z in
      ground (arith, e, n)
  | inr e ↦ ground (arith, e)
]

-- What is found in the slots is what is stored.
pub stored_lem :
    (vm vm' : Blobs) (h k : ℕ) (o : Option BlobRecord)
    → IsBlobs vm
    → IsBlobs vm'
    → find_record vm'.blobs k ≡ (if h == k then o else find_record vm.blobs k)
    → stored vm' k ≡ (if h == k then bytes_of o else stored vm k)
unfolding stored
stored_lem vm vm' h k o v v' y =
    let t : find_blob vm k ≡ find_record vm.blobs k = stored-record vm k v in
    ap bytes_of (stored-record vm' k v' ∙ y)
    ∙ elim (Bool-cases (h == k)) [ inl m ↦ rw m refl | inr m ↦ rw m (ap bytes_of (sym t)) ]
