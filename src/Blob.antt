-- ===== src/Blob.antt =====
-- Blobs (src/aivm_vm_blob.c): the table of byte blocks that a machine hands out by handle. A handle is
-- the pattern of its 64 bits, which is a negative number from 2 ^ 63 on; the host's allocations are
-- Booleans that say whether they succeed.
pub mod Contents
pub mod Invariant
pub mod Creation
pub mod Release
pub mod Histories
mod Tests
use ai_vm.Common.{
  ℕ, zero, suc, ◌+◌, ◌-◌, ◌*◌, ◌%◌, ◌^◌, min, Bool, true, false, not, ◌&&◌, ◌||◌, Option, none,
  some, List, [], ◌∷◌, ltb, leb, ◌==◌, if◌then◌else◌, length, take, drop, replicate, size_mod,
}
use ai_vm.Vm.State.{size_add_checked}

pub data BlobStatus : Type 0 where
  blob_ok blob_invalid blob_limit blob_not_found blob_oom : BlobStatus

pub record BlobRecord : Type 0 where
  handle : ℕ
  data_bytes : List ℕ
  active : Bool

-- The fields of a machine that concern blobs.
pub record Blobs : Type 0 where
  blobs : List BlobRecord
  blob_count : ℕ
  blob_bytes_used : ℕ
  blob_bytes_high_water : ℕ
  blob_pressure_count : ℕ
  next_blob_handle : ℕ

abbrev pub blob_capacity : ℕ
blob_capacity = 64

abbrev pub blob_bytes : ℕ
blob_bytes = 16 * 1024 * 1024

-- What `clear_blob_record` leaves.
abbrev pub cleared : BlobRecord
cleared = record { handle = 0; data_bytes = []; active = false }

-- The blobs of a new machine (`aivm_init`).
abbrev pub init_blobs : Blobs
init_blobs = record {
  blobs = replicate blob_capacity cleared;
  blob_count = 0;
  blob_bytes_used = 0;
  blob_bytes_high_water = 0;
  blob_pressure_count = 0;
  next_blob_handle = 1;
}

-- `aivm_release_all_blobs`
unfoldable pub release_all_blobs : Blobs → Blobs
release_all_blobs vm = record vm {
  blobs = replicate blob_capacity cleared;
  blob_count = 0;
  blob_bytes_used = 0;
}

-- What `aivm_reset_state` does to the blobs of a machine that has its storage: it releases them all and
-- hands handles out from 1 again.
unfoldable pub reset_blobs : Blobs → Blobs
unfolding release_all_blobs
reset_blobs vm = record (release_all_blobs vm) {
  blob_count = 0;
  blob_bytes_used = 0;
  blob_bytes_high_water = 0;
  blob_pressure_count = 0;
  next_blob_handle = 1;
}

-- `aivm_counter_increment_saturating`
abbrev pub counter_increment_saturating : ℕ → ℕ
counter_increment_saturating counter = elim (size_add_checked counter 1) [
  | none ↦ size_mod - 1
  | some next_value ↦ next_value
]

-- `handle <= 0`
abbrev pub is_nonpositive : ℕ → Bool
is_nonpositive handle = handle == 0 || leb (2 ^ 63) handle

-- The loop of `find_blob`: the first active record of the handle.
unfoldable pub find_record : List BlobRecord → ℕ → Option BlobRecord
find_record [] handle = none
find_record (b ∷ bs) handle =
    if b.active && b.handle == handle then some b else find_record bs handle

-- `find_blob` and `find_blob_const`
unfoldable pub find_blob : Blobs → ℕ → Option BlobRecord
unfolding find_record
find_blob vm handle = if is_nonpositive handle then none else find_record vm.blobs handle

-- `clear_blob_record` of the record that is found.
unfoldable pub clear_record : List BlobRecord → ℕ → List BlobRecord
clear_record [] handle = []
clear_record (b ∷ bs) handle =
    if b.active && b.handle == handle then cleared ∷ bs else b ∷ clear_record bs handle

-- The search for the first slot that is not active, and the record written to it.
unfoldable pub fill_slot : BlobRecord → List BlobRecord → Option (List BlobRecord)
fill_slot slot [] = none
fill_slot slot (b ∷ bs) =
    let rest = fill_slot slot bs in
    if b.active then elim rest [ none ↦ none | some bs' ↦ some (b ∷ bs') ] else some (slot ∷ bs)

abbrev pub pressed : Blobs → Blobs
pressed vm = record vm { blob_pressure_count = counter_increment_saturating vm.blob_pressure_count }

-- The checks before a slot is sought: the bytes in use behind the new blob, or `none` for a limit.
abbrev pub bytes_needed : Blobs → ℕ → Option ℕ
bytes_needed vm size =
    if leb blob_capacity vm.blob_count
    then none
    else elim (size_add_checked vm.blob_bytes_used size) [
      | none ↦ none
      | some needed ↦
          if ltb blob_bytes needed || is_nonpositive vm.next_blob_handle then none else some needed
    ]

-- The record of a new blob, and the counters behind it.
abbrev pub new_record : Blobs → List ℕ → BlobRecord
new_record vm bytes = record { handle = vm.next_blob_handle; data_bytes = bytes; active = true }

abbrev pub entered : Blobs → ℕ → List BlobRecord → Blobs
entered vm needed slots = record {
  blobs = slots;
  blob_count = vm.blob_count + 1;
  blob_bytes_used = needed;
  blob_bytes_high_water =
      if ltb vm.blob_bytes_high_water needed then needed else vm.blob_bytes_high_water;
  blob_pressure_count = vm.blob_pressure_count;
  next_blob_handle = (vm.next_blob_handle + 1) % size_mod;
}

-- `aivm_blob_create`: the status, the handle that is given out, and the machine. The host says whether
-- the storage of the machine is there (`aivm_vm_ensure_storage`) and whether `malloc` succeeds; no data
-- is the null pointer beside a length that is not zero.
unfoldable pub blob_create : Blobs → Bool → Bool → Option (List ℕ) → BlobStatus × Option ℕ × Blobs
unfolding fill_slot
blob_create vm storage_ok malloc_ok none = (BlobStatus.blob_invalid, none, vm)
blob_create vm storage_ok malloc_ok (some bytes) =
    if not storage_ok
    then (BlobStatus.blob_oom, none, pressed vm)
    else elim (bytes_needed vm (length bytes)) [
      | none ↦ (BlobStatus.blob_limit, none, pressed vm)
      | some needed ↦ elim (fill_slot (new_record vm bytes) vm.blobs) [
        | none ↦ (BlobStatus.blob_limit, none, pressed vm)
        | some slots ↦
            if ltb 0 (length bytes) && not malloc_ok
            then (BlobStatus.blob_oom, none, pressed vm)
            else (BlobStatus.blob_ok, some vm.next_blob_handle, entered vm needed slots)
      ]
    ]

-- The bytes that `memcpy` copies out of a blob.
abbrev pub read_found : Option BlobRecord → ℕ → ℕ → BlobStatus × List ℕ
read_found none offset size = (BlobStatus.blob_not_found, [])
read_found (some blob) offset size =
    if leb (length blob.data_bytes) offset then (BlobStatus.blob_ok, []) else (
      BlobStatus.blob_ok,
      take (min size (length blob.data_bytes - offset)) (drop offset blob.data_bytes),
    )

-- `aivm_blob_read` with an output: the status and the bytes that are read, so many as `out_read` says.
unfoldable pub blob_read : Blobs → ℕ → ℕ → ℕ → BlobStatus × List ℕ
unfolding find_blob
blob_read vm handle offset size = read_found (find_blob vm handle) offset size

-- The machine behind the release of a blob of the handle.
abbrev pub removed : Blobs → List BlobRecord → BlobRecord → Blobs
removed vm slots blob = record vm {
  blobs = slots;
  blob_count = if ltb 0 vm.blob_count then vm.blob_count - 1 else vm.blob_count;
  blob_bytes_used =
      if leb (length blob.data_bytes) vm.blob_bytes_used
      then vm.blob_bytes_used - length blob.data_bytes
      else 0;
}

-- `aivm_blob_release`
unfoldable pub blob_release : Blobs → ℕ → BlobStatus × Blobs
unfolding find_blob clear_record
blob_release vm handle = elim (find_blob vm handle) [
  | none ↦ (BlobStatus.blob_not_found, vm)
  | some blob ↦ (BlobStatus.blob_ok, removed vm (clear_record vm.blobs handle) blob)
]

-- `aivm_blob_active_count`
abbrev pub blob_active_count : Blobs → ℕ
blob_active_count vm = vm.blob_count
