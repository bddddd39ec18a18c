-- ===== src/Blob/Release.antt =====
-- `aivm_blob_read` and `aivm_blob_release` of src/aivm_vm_blob.c.
use ai_vm.Common.{
  take-min, length-drop, drop-nil, take-nil, ℕ, ◌+◌, min, ◌≤◌, ◌≡◌, refl, sym, ap, ◌∙◌, subst,
  Option, none, some, List, [], leb, ◌==◌, if◌then◌else◌, length, take, drop, arith, if_cases,
  option_cases, leb→le, ==_iff,
}
use ai_vm.Blob.{
  read_found, removed, BlobStatus, BlobRecord, Blobs, blob_bytes, find_record, find_blob,
  clear_record, blob_read, blob_release,
}
use ai_vm.Blob.Contents.{active_count, active_bytes, IsCleared, clear_record-IsCleared}
use ai_vm.Blob.Invariant.{bytes_of, stored, stored-record, stored_lem, IsBlobs}

read_found-slice :
    (o : Option BlobRecord) (offset size : ℕ)
    → read_found o offset size ≡ (elim (bytes_of o) [
      | none ↦ (BlobStatus.blob_not_found, [])
      | some bytes ↦ (BlobStatus.blob_ok, take size (drop offset bytes))
    ])
read_found-slice none offset size = refl
read_found-slice (some blob) offset size =
    let d : List ℕ = blob.data_bytes in
    if_cases (λ r. r ≡ (BlobStatus.blob_ok, take size (drop offset d))) (leb (length d) offset)
      (λ h.
        let e : drop offset d ≡ [] = drop-nil offset d (leb→le (length d) offset h) in
        ap (λ l. (BlobStatus.blob_ok, l)) (sym (take-nil size) ∙ ap (λ l. take size l) (sym e)))
      (λ h.
        ap (λ l. (BlobStatus.blob_ok, l))
          (ap (λ m. take (min size m) (drop offset d)) (sym (length-drop offset d))
            ∙ take-min size (drop offset d)))

-- Reading, with the two comparisons of the code, is cutting a slice out of the bytes stored: it stops
-- at their end, is empty when the offset is beyond it, and the handle is not found when nothing is
-- stored there.
pub blob_read-slice :
    (vm : Blobs) (handle offset size : ℕ)
    → blob_read vm handle offset size ≡ (elim (stored vm handle) [
      | none ↦ (BlobStatus.blob_not_found, [])
      | some bytes ↦ (BlobStatus.blob_ok, take size (drop offset bytes))
    ])
unfolding blob_read stored
blob_read-slice vm handle offset size = read_found-slice (find_blob vm handle) offset size

-- The status of a release.
abbrev pub status_of : Option (List ℕ) → BlobStatus
status_of none = BlobStatus.blob_not_found
status_of (some bytes) = BlobStatus.blob_ok

-- What a release may do to the map.
pub record IsReleased (vm : Blobs) (handle : ℕ) (r : BlobStatus × Blobs) : Type 0 where
  pub status : r.0 ≡ (elim (stored vm handle) [
    | none ↦ BlobStatus.blob_not_found
    | some bytes ↦ BlobStatus.blob_ok
  ])
  pub others : (k : ℕ) → stored r.1 k ≡ (if handle == k then none else stored vm k)
  pub valid : IsBlobs r.1
  pub same_next : r.1.next_blob_handle ≡ vm.next_blob_handle

removed-IsBlobs :
    (vm : Blobs) (handle : ℕ) (blob : BlobRecord) (bs : List BlobRecord)
    → IsBlobs vm
    → IsCleared vm.next_blob_handle handle blob vm.blobs bs
    → IsBlobs (removed vm bs blob)
removed-IsBlobs vm handle blob bs v w =
    let c : vm.blob_count ≡ active_count vm.blobs = v.counted in
    let u : vm.blob_bytes_used ≡ active_bytes vm.blobs = v.summed in
    let l : vm.blob_bytes_used ≤ blob_bytes = v.limited in
    let m : vm.blob_bytes_used ≤ vm.blob_bytes_high_water = v.high_water in
    let p : active_count bs + 1 ≡ active_count vm.blobs = w.one_less in
    let q : active_bytes bs + length blob.data_bytes ≡ active_bytes vm.blobs = w.less_bytes in
    record {
      slots = w.same_length ∙ v.slots;
      table = w.table;
      counted = ground (arith, c, p);
      summed = ground (arith, u, q);
      limited = ground (arith, l);
      high_water = ground (arith, m);
      positive = v.positive;
      handles = v.handles;
    }

others_of_none :
    (vm : Blobs) (handle k : ℕ)
    → find_blob vm handle ≡ none
    → stored vm k ≡ (if handle == k then none else stored vm k)
unfolding stored
others_of_none vm handle k e =
    if_cases (λ o. stored vm k ≡ o) (handle == k)
      (λ m. subst (λ k. stored vm k ≡ none) ((==_iff handle k).0 m) (ap bytes_of e)) (λ m. refl)

-- Releasing a blob, on every branch: the status says whether bytes were stored at the handle; behind
-- the call none are, the bytes of the other handles are as before, and the invariant holds.
pub blob_release_refines :
    (vm : Blobs) (handle : ℕ) → IsBlobs vm → IsReleased vm handle (blob_release vm handle)
unfolding blob_release stored
blob_release_refines vm handle v =
    option_cases (λ r. IsReleased vm handle r) (find_blob vm handle)
      (λ e. record {
        status = ap (λ o. status_of (bytes_of o)) (sym e);
        others = λ k. others_of_none vm handle k e;
        valid = v;
        same_next = refl;
      })
      (λ blob e.
        let f : find_record vm.blobs handle ≡ some blob = sym (stored-record vm handle v) ∙ e in
        let w : IsCleared vm.next_blob_handle handle blob vm.blobs (clear_record vm.blobs handle) =
          clear_record-IsCleared vm.next_blob_handle handle blob vm.blobs v.table f in
        let z : IsBlobs (removed vm (clear_record vm.blobs handle) blob) =
          removed-IsBlobs vm handle blob (clear_record vm.blobs handle) v w in
        record {
          status = ap (λ o. status_of (bytes_of o)) (sym e);
          others = λ k.
              stored_lem vm (removed vm (clear_record vm.blobs handle) blob) handle k none v z
                (w.found k);
          valid = z;
          same_next = refl;
        })
