-- ===== src/Blob/Histories.antt =====
-- Sequences of calls of src/aivm_vm_blob.c.
use ai_vm.Common.{
  ℕ, zero, suc, ◌≤◌, ◌<◌, ◌≡◌, refl, sym, ◌∙◌, Bool, true, false, Option, none, List, [], ◌∷◌, ◌==◌,
  All, subst, if◌then◌else◌, replicate, arith,
}
use mathlib.Core.Bool.{false≢true}
use ai_vm.Blob.{
  BlobStatus, Blobs, cleared, init_blobs, reset_blobs, release_all_blobs, find_record, blob_create,
  blob_release,
}
use ai_vm.Blob.Contents.{active_count, active_bytes, IsTable}
use ai_vm.Blob.Invariant.{stored, IsBlobs}
use ai_vm.Blob.Creation.{admits, Outcome, blob_create_refines}
use ai_vm.Blob.Release.{IsReleased, blob_release_refines}

-- A call, with what the host answers to it.
pub data BlobEvent : Type 0 where
  create_event : Bool → Bool → Option (List ℕ) → BlobEvent
  release_event : ℕ → BlobEvent
  reset_event : BlobEvent

unfoldable pub blob_step : Blobs → BlobEvent → Blobs
unfolding blob_create blob_release reset_blobs
blob_step vm (create_event storage_ok malloc_ok input) =
    (blob_create vm storage_ok malloc_ok input).2
blob_step vm (release_event handle) = (blob_release vm handle).1
blob_step vm reset_event = reset_blobs vm

-- Every call but the reset of the machine.
abbrev pub is_blob_call : BlobEvent → Bool
is_blob_call reset_event = false
is_blob_call _ = true

unfoldable pub blob_steps : Blobs → List BlobEvent → Blobs
unfolding blob_step
blob_steps vm [] = vm
blob_steps vm (e ∷ es) = blob_steps (blob_step vm e) es

-- An empty table.
cleared_slots :
    (next n : ℕ)
    → IsTable next (replicate n cleared)
      × (active_count (replicate n cleared) ≡ 0)
      × (active_bytes (replicate n cleared) ≡ 0)
      × ((h : ℕ) → find_record (replicate n cleared) h ≡ none)
unfolding find_record
cleared_slots next zero = (tt, refl, refl, λ h. refl)
cleared_slots next (suc n) =
    let (t, c, b, f) = cleared_slots next n in
    (((λ e. absurd (ground (arith, e))), t), omega (arith, c), omega (arith, b), f)

pub init-IsBlobs : IsBlobs init_blobs
init-IsBlobs =
    let (t, c, b, f) = cleared_slots 1 64 in
    record {
      slots = refl;
      table = t;
      counted = refl;
      summed = refl;
      limited = omega arith;
      high_water = omega arith;
      positive = omega arith;
      handles = omega arith;
    }

-- What a step keeps: the invariant, the order of the handles given out, and the emptiness behind a
-- handle that was given out.
pub record IsKept (vm vm' : Blobs) : Type 0 where
  pub valid : IsBlobs vm'
  pub later : vm.next_blob_handle ≤ vm'.next_blob_handle
  pub dead : (h : ℕ) → h < vm.next_blob_handle → stored vm h ≡ none → stored vm' h ≡ none

create-IsKept :
    (vm : Blobs) (admitted : Bool) (input : Option (List ℕ)) (r : BlobStatus × Option ℕ × Blobs)
    → Outcome vm admitted input r
    → IsKept vm (r.2)
create-IsKept vm admitted input _ (Outcome.made vm' a n f z v) = record {
  valid = v;
  later = omega (arith, z);
  dead = λ h l e.
      (let q : stored vm' h ≡ (if vm.next_blob_handle == h then input else stored vm h) = f h in
        ground (arith, l, e, q));
}
create-IsKept vm admitted input _ (Outcome.refused status vm' a n f z v) = record {
  valid = v;
  later = omega (arith, z);
  dead = λ h l e. f h ∙ e;
}

release-IsKept :
    (vm : Blobs) (handle : ℕ) (r : BlobStatus × Blobs) → IsReleased vm handle r → IsKept vm r.1
release-IsKept vm handle r w = record {
  valid = w.valid;
  later = omega (arith, w.same_next);
  dead = λ h l e.
      (let q : stored r.1 h ≡ (if handle == h then none else stored vm h) = w.others h in
        ground (arith, e, q));
}

blob_call-IsKept :
    (vm : Blobs) (e : BlobEvent) → is_blob_call e ≡ true → IsBlobs vm → IsKept vm (blob_step vm e)
unfolding blob_step
blob_call-IsKept vm (create_event storage_ok malloc_ok input) k v =
    create-IsKept vm (admits vm storage_ok malloc_ok input) input
      (blob_create vm storage_ok malloc_ok input)
      (blob_create_refines vm storage_ok malloc_ok input v)
blob_call-IsKept vm (release_event handle) k v =
    release-IsKept vm handle (blob_release vm handle) (blob_release_refines vm handle v)
blob_call-IsKept vm reset_event k v = absurd (false≢true k)

-- A reset leaves the blobs of a new machine.
reset_blobs-init : (vm : Blobs) → reset_blobs vm ≡ init_blobs
unfolding reset_blobs release_all_blobs
reset_blobs-init vm = refl

blob_step-IsBlobs : (vm : Blobs) (e : BlobEvent) → IsBlobs vm → IsBlobs (blob_step vm e)
unfolding blob_step
blob_step-IsBlobs vm (create_event storage_ok malloc_ok input) v =
    (blob_call-IsKept vm (create_event storage_ok malloc_ok input) refl v).valid
blob_step-IsBlobs vm (release_event handle) v =
    (blob_call-IsKept vm (release_event handle) refl v).valid
blob_step-IsBlobs vm reset_event v = subst IsBlobs (sym (reset_blobs-init vm)) init-IsBlobs

blob_steps-IsBlobs : (vm : Blobs) (es : List BlobEvent) → IsBlobs vm → IsBlobs (blob_steps vm es)
unfolding blob_steps
blob_steps-IsBlobs vm [] v = v
blob_steps-IsBlobs vm (e ∷ es) v = blob_steps-IsBlobs (blob_step vm e) es (blob_step-IsBlobs vm e v)

blob_calls_keep :
    (vm : Blobs) (es : List BlobEvent) (handle : ℕ)
    → IsBlobs vm
    → All (λ e. is_blob_call e ≡ true) es
    → handle < vm.next_blob_handle
    → stored vm handle ≡ none
    → IsBlobs (blob_steps vm es) × (stored (blob_steps vm es) handle ≡ none)
unfolding blob_steps
blob_calls_keep vm [] handle v k l e = (v, e)
blob_calls_keep vm (x ∷ es) handle v (k, ks) l e =
    let w : IsKept vm (blob_step vm x) = blob_call-IsKept vm x k v in
    blob_calls_keep (blob_step vm x) es handle w.valid ks (omega (arith, l, w.later))
      (w.dead handle l e)

-- The table behind any sequence of calls `before`, in which the machine may be reset, satisfies the
-- invariant, and so does the one behind every further sequence `es`. Where the machine is not reset in
-- `es`, however the host answers the calls, a handle that was given out before and behind which nothing
-- is stored any more, as after its release, never gets bytes again. A reset hands out handles from 1.
pub released_handles_stay_empty :
    (vm : Blobs) (before es : List BlobEvent) (handle : ℕ)
    → IsBlobs vm
    → All (λ e. is_blob_call e ≡ true) es
    → handle < (blob_steps vm before).next_blob_handle
    → stored (blob_steps vm before) handle ≡ none
    → IsBlobs (blob_steps (blob_steps vm before) es)
      × (stored (blob_steps (blob_steps vm before) es) handle ≡ none)
released_handles_stay_empty vm before es handle v k l e =
    blob_calls_keep (blob_steps vm before) es handle (blob_steps-IsBlobs vm before v) k l e
