-- ===== src/Blob/Creation.antt =====
-- `aivm_blob_create` of src/aivm_vm_blob.c.
use ai_vm.Common.{
  ℕ, ◌+◌, ◌%◌, ◌^◌, ◌≤◌, ◌<◌, ◌≡◌, ◌≢◌, inr, refl, sym, ◌∙◌, subst, Bool, true, false, not, ◌&&◌,
  ◌||◌, Option, none, some, List, ltb, leb, ◌==◌, if◌then◌else◌, length, size_mod, arith, if_cases,
  option_cases,
}
use ai_vm.Blob.{
  BlobStatus, BlobRecord, Blobs, blob_capacity, blob_bytes, find_record, find_blob, fill_slot,
  pressed, bytes_needed, new_record, entered, blob_create,
}
use ai_vm.Blob.Contents.{
  active_count, active_bytes, IsTable, find_record-IsTable, IsFilled, fill_slot-IsFilled,
  fill_slot-none, fill_slot-IsTable,
}
use ai_vm.Blob.Invariant.{stored, stored-record, stored_lem, IsBlobs}

-- The call can be served: the host gives memory, a slot is free, the bytes fit and a handle is left.
abbrev pub admits : Blobs → Bool → Bool → Option (List ℕ) → Bool
admits vm storage_ok malloc_ok none = false
admits vm storage_ok malloc_ok (some bytes) =
    storage_ok
    && ltb (active_count vm.blobs) blob_capacity
    && leb (active_bytes vm.blobs + length bytes) blob_bytes
    && ltb vm.next_blob_handle (2 ^ 63)
    && (malloc_ok || length bytes == 0)

-- What a call of `aivm_blob_create` may do to the map.
pub data Outcome (vm : Blobs) (admitted : Bool) (input : Option (List ℕ))
    : BlobStatus × Option ℕ × Blobs → Type 0 where
  made :
      (vm' : Blobs)
      → admitted ≡ true
      → stored vm vm.next_blob_handle ≡ none
      → ((h : ℕ) → stored vm' h ≡ (if vm.next_blob_handle == h then input else stored vm h))
      → vm'.next_blob_handle ≡ vm.next_blob_handle + 1
      → IsBlobs vm'
      → Outcome vm admitted input (BlobStatus.blob_ok, some vm.next_blob_handle, vm')
  refused :
      (status : BlobStatus) (vm' : Blobs)
      → admitted ≡ false
      → status ≢ BlobStatus.blob_ok
      → ((h : ℕ) → stored vm' h ≡ stored vm h)
      → vm'.next_blob_handle ≡ vm.next_blob_handle
      → IsBlobs vm'
      → Outcome vm admitted input (status, none, vm')

pressed-IsBlobs : (vm : Blobs) → IsBlobs vm → IsBlobs (pressed vm)
pressed-IsBlobs vm v = record {
  slots = v.slots;
  table = v.table;
  counted = v.counted;
  summed = v.summed;
  limited = v.limited;
  high_water = v.high_water;
  positive = v.positive;
  handles = v.handles;
}

refused_pressed :
    (vm : Blobs) (admitted : Bool) (input : Option (List ℕ)) (status : BlobStatus)
    → IsBlobs vm
    → admitted ≡ false
    → status ≢ BlobStatus.blob_ok
    → Outcome vm admitted input (status, none, pressed vm)
unfolding stored find_blob
refused_pressed vm admitted input status v a n =
    Outcome.refused status (pressed vm) a n (λ h. refl) refl (pressed-IsBlobs vm v)

-- The checks ahead of the search of a slot.
bytes_needed-some :
    (vm : Blobs) (size needed : ℕ)
    → IsBlobs vm
    → bytes_needed vm size ≡ some needed
    → (active_count vm.blobs < blob_capacity)
      × (needed ≡ active_bytes vm.blobs + size)
      × (needed ≤ blob_bytes)
      × (vm.next_blob_handle < 2 ^ 63)
bytes_needed-some vm size needed v e =
    let c : vm.blob_count ≡ active_count vm.blobs = v.counted in
    let u : vm.blob_bytes_used ≡ active_bytes vm.blobs = v.summed in
    (ground (arith, c, e), ground (arith, u, e), ground (arith, e), ground (arith, e))

bytes_needed-none :
    (vm : Blobs) (storage_ok malloc_ok : Bool) (bytes : List ℕ)
    → IsBlobs vm
    → bytes_needed vm (length bytes) ≡ none
    → admits vm storage_ok malloc_ok (some bytes) ≡ false
bytes_needed-none vm storage_ok malloc_ok bytes v e =
    let c : vm.blob_count ≡ active_count vm.blobs = v.counted in
    let u : vm.blob_bytes_used ≡ active_bytes vm.blobs = v.summed in
    let p : 0 < vm.next_blob_handle = v.positive in ground (arith, e)

-- A blob entered in a slot.
entered-made :
    (vm : Blobs) (admitted : Bool) (bytes : List ℕ) (needed : ℕ) (bs : List BlobRecord)
    → IsBlobs vm
    → admitted ≡ true
    → needed ≡ active_bytes vm.blobs + length bytes
    → needed ≤ blob_bytes
    → vm.next_blob_handle < 2 ^ 63
    → fill_slot (new_record vm bytes) vm.blobs ≡ some bs
    → Outcome vm admitted
        (some bytes)
        (BlobStatus.blob_ok, some vm.next_blob_handle, entered vm needed bs)
unfolding stored
entered-made vm admitted bytes needed bs v a n l h e =
    let s : BlobRecord = new_record vm bytes in
    let f : find_record vm.blobs vm.next_blob_handle ≡ none =
      find_record-IsTable vm.next_blob_handle vm.next_blob_handle vm.blobs v.table
        (inr (omega arith)) in
    let w : IsFilled s vm.blobs bs = fill_slot-IsFilled s vm.blobs bs refl f e in
    let z : (vm.next_blob_handle + 1) % size_mod ≡ vm.next_blob_handle + 1 = omega (arith, h) in
    let c : vm.blob_count ≡ active_count vm.blobs = v.counted in
    let valid : IsBlobs (entered vm needed bs) = record {
      slots = w.same_length ∙ v.slots;
      table =
          subst (λ k. IsTable k bs) (sym z)
            (fill_slot-IsTable vm.next_blob_handle s vm.blobs bs v.table refl v.positive refl e);
      counted = omega (arith, c, w.one_more);
      summed = omega (arith, n, w.more_bytes);
      limited = l;
      high_water = ground arith;
      positive = omega (arith, z);
      handles = omega (arith, z, h);
    } in
    let found : (k : ℕ)
        → stored (entered vm needed bs) k
          ≡ (if vm.next_blob_handle == k then some bytes else stored vm k) =
      λ k.
        stored_lem vm (entered vm needed bs) vm.next_blob_handle k (some s) v valid (w.found k) in
    Outcome.made (entered vm needed bs) a (rw (stored-record vm vm.next_blob_handle v, f) refl)
      found z valid

invalid_ne_ok : BlobStatus.blob_invalid ≢ BlobStatus.blob_ok
invalid_ne_ok e = absurd (ground (arith, e))

oom_ne_ok : BlobStatus.blob_oom ≢ BlobStatus.blob_ok
oom_ne_ok e = absurd (ground (arith, e))

limit_ne_ok : BlobStatus.blob_limit ≢ BlobStatus.blob_ok
limit_ne_ok e = absurd (ground (arith, e))

-- Creating a blob, on every branch: exactly when the host gives memory, a slot is free, the bytes fit
-- within the limit and a handle is left, the call succeeds and gives out a handle at which nothing was
-- stored and the bytes are from now on; otherwise it fails and gives out none. No other handle's bytes
-- change, and the invariant holds behind the call.
pub blob_create_refines :
    (vm : Blobs) (storage_ok malloc_ok : Bool) (input : Option (List ℕ))
    → IsBlobs vm
    → Outcome vm
        (admits vm storage_ok malloc_ok input)
        input
        (blob_create vm storage_ok malloc_ok input)
unfolding blob_create stored
blob_create_refines vm storage_ok malloc_ok none v =
    Outcome.refused BlobStatus.blob_invalid vm refl invalid_ne_ok (λ h. refl) refl v
blob_create_refines vm storage_ok malloc_ok (some bytes) v =
    let A : Bool = admits vm storage_ok malloc_ok (some bytes) in
    let P : BlobStatus × Option ℕ × Blobs → Type 0 = λ r. Outcome vm A (some bytes) r in
    if_cases P (not storage_ok)
      (λ n. refused_pressed vm A (some bytes) BlobStatus.blob_oom v (ground (arith, n)) oom_ne_ok)
      (λ s.
        option_cases P (bytes_needed vm (length bytes))
          (λ e.
            refused_pressed vm A (some bytes) BlobStatus.blob_limit v
              (bytes_needed-none vm storage_ok malloc_ok bytes v e) limit_ne_ok)
          (λ needed e.
            let (c, n, l, h) = bytes_needed-some vm (length bytes) needed v e in
            option_cases P (fill_slot (new_record vm bytes) vm.blobs)
              (λ f.
                absurd (omega (arith, fill_slot-none (new_record vm bytes) vm.blobs f, c, v.slots)))
              (λ slots f.
                if_cases P (ltb 0 (length bytes) && not malloc_ok)
                  (λ m.
                    refused_pressed vm A (some bytes) BlobStatus.blob_oom v (ground (arith, m))
                      oom_ne_ok)
                  (λ m.
                    entered-made vm A bytes needed slots v (ground (arith, s, c, n, l, h, m)) n l h
                      f))))
