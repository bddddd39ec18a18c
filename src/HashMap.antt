-- ===== src/HashMap.antt =====
-- Maps of the machine (src/aivm_vm_map.c): hash tables with linear probing, built up by a builder and
-- immutable once it is finished. A key is the bytes before its terminator; a slot is an entry where it
-- is occupied; the outcomes of the host's allocations are arguments. A probe has as much fuel as the
-- table has slots, a value is the pattern of its 64 bits, and `none` is a probe that does not end.
pub mod Probe
pub mod Table
pub mod Resize
pub mod Contents
pub mod Puts
pub mod Lookups
pub mod Handles
pub mod Histories
mod Tests
use Prim.Native.Nat.{bit_xor}
use ai_vm.Common.{
  ℕ, zero, suc, ◌+◌, ◌-◌, ◌*◌, ◌/◌, ◌%◌, ◌^◌, Bool, true, false, not, ◌&&◌, ◌||◌, Option, none,
  some, List, [], ◌∷◌, ltb, leb, ◌==◌, if◌then◌else◌, size_mod, Memory, write, get_elem?, set,
  replicate,
}

abbrev pub Key : Type 0
Key = List ℕ

-- `AivmMapSlot`, where it is occupied.
pub record MapSlot : Type 0 where
  hash : ℕ
  key : Key
  value : ℕ

abbrev pub Slots : Type 0
Slots = Memory (Option MapSlot)

pub record MapRecord : Type 0 where
  active : Bool
  frozen : Bool
  slots : Slots
  slot_capacity : ℕ
  count : ℕ

-- Whether the growth is admitted and its `calloc` succeeds, and the `malloc` of a key.
pub record MapHost : Type 0 where
  admits_growth : Bool
  grows : Bool
  copies_key : Bool

-- The loop of `map_hash_string`.
unfoldable pub hash_from : ℕ → Key → ℕ
hash_from hash [] = hash
hash_from hash (c ∷ cs) = hash_from (bit_xor hash c * 1099511628211 % size_mod) cs

-- `map_hash_string`
unfoldable pub map_hash_string : Key → ℕ
unfolding hash_from
map_hash_string key = hash_from 1469598103934665603 key

-- `strcmp(a, b) == 0`
unfoldable pub same_key : Key → Key → Bool
same_key [] [] = true
same_key (x ∷ xs) (y ∷ ys) = (x == y) && same_key xs ys
same_key _ _ = false

-- The loop of `map_slot_for` ends at such a slot.
unfoldable pub stops : Key → ℕ → Option MapSlot → Bool
unfolding same_key
stops key hash none = true
stops key hash (some slot) = (slot.hash == hash) && same_key slot.key key

unfoldable pub probe : ℕ → Slots → ℕ → Key → ℕ → ℕ → Option ℕ
unfolding stops
probe zero slots capacity key hash slot = none
probe (suc fuel) slots capacity key hash slot =
    let further = probe fuel slots capacity key hash ((slot + 1) % capacity) in
    if stops key hash (slots slot) then some slot else further

-- `map_slot_for`
unfoldable pub map_slot_for : Slots → ℕ → Key → ℕ → Option ℕ
unfolding probe
map_slot_for slots capacity key hash = probe capacity slots capacity key hash (hash % capacity)

-- One slot of the loop of `map_resize`.
unfoldable pub insert_entry : ℕ → Slots → Option MapSlot → Option Slots
unfolding map_slot_for
insert_entry capacity replacement none = some replacement
insert_entry capacity replacement (some entry) =
    elim (map_slot_for replacement capacity entry.key entry.hash) [
      | none ↦ none
      | some slot ↦ some (write replacement slot (some entry))
    ]

-- The loop over the slots below `n`.
unfoldable pub reinsert : Slots → ℕ → ℕ → Option Slots
unfolding insert_entry
reinsert old capacity zero = some (λ _. none)
reinsert old capacity (suc n) = elim (reinsert old capacity n) [
  | none ↦ none
  | some replacement ↦ insert_entry capacity replacement (old n)
]

-- `sizeof(AivmMapSlot)`
abbrev pub slot_size : ℕ
slot_size = 32

-- `map_resize`: whether it returns 1, and the map.
unfoldable pub map_resize : MapHost → MapRecord → ℕ → Option (Bool × MapRecord)
unfolding reinsert
map_resize host map capacity =
    if ltb ((size_mod - 1) / slot_size) capacity
    then some (false, map)
    else if ltb (map.slot_capacity * slot_size) (capacity * slot_size) && not host.admits_growth
    then some (false, map)
    else if not host.grows
    then some (false, map)
    else elim (reinsert map.slots capacity map.slot_capacity) [
      | none ↦ none
      | some replacement ↦ some (true, record map { slots = replacement; slot_capacity = capacity })
    ]

-- `map_dispose`
abbrev pub disposed : MapRecord
disposed = record {
  active = false;
  frozen = false;
  slots = λ _. none;
  slot_capacity = 0;
  count = 0;
}

-- The end of `aivm_vm_map_builder_put_string_int`, behind the growth.
unfoldable pub put_slot : MapHost → MapRecord → Key → ℕ → Option (Bool × MapRecord)
unfolding map_slot_for map_hash_string
put_slot host map key value =
    let entry : MapSlot = record { hash = map_hash_string key; key = key; value = value } in
    elim (map_slot_for map.slots map.slot_capacity key (map_hash_string key)) [
      | none ↦ none
      | some slot ↦ elim (map.slots slot) [
        | some old ↦ some (
          true,
          record map { slots = write map.slots slot (some (record old { value = value })) },
        )
        | none ↦
            if host.copies_key
            then some (
              true,
              record map { slots = write map.slots slot (some entry); count = map.count + 1 },
            )
            else some (false, map)
      ]
    ]

-- `aivm_vm_map_builder_put_string_int` on the record of a builder, behind the growth and whole.
unfoldable pub put_behind :
    MapHost → Key → ℕ → Option (Bool × MapRecord) → Option (Bool × MapRecord)
unfolding put_slot
put_behind host key value none = none
put_behind host key value (some (grown, map)) =
    if grown then put_slot host map key value else some (false, map)

unfoldable pub put_string_int : MapHost → MapRecord → Key → ℕ → Option (Bool × MapRecord)
unfolding map_resize put_behind
put_string_int host map key value =
    if leb (map.slot_capacity * 7 % size_mod) ((map.count + 1) * 10 % size_mod)
    then put_behind host key value (map_resize host map (map.slot_capacity * 2 % size_mod))
    else put_slot host map key value

-- `aivm_vm_map_get_string_int` on the record of a finished map: the value and whether it is found.
unfoldable pub get_string_int : MapRecord → Key → ℕ → Option (ℕ × Bool)
unfolding map_slot_for map_hash_string
get_string_int map key fallback =
    elim (map_slot_for map.slots map.slot_capacity key (map_hash_string key)) [
      | none ↦ none
      | some slot ↦ elim (map.slots slot) [
        | none ↦ some (fallback, false)
        | some entry ↦ some (entry.value, true)
      ]
    ]

abbrev pub map_capacity : ℕ
map_capacity = 128

-- `map_lookup` and `map_lookup_const`; a handle is the pattern of its 64 bits.
abbrev pub in_use : Option MapRecord → Option MapRecord
in_use none = none
in_use (some map) = if map.active then some map else none

unfoldable pub map_lookup : List MapRecord → ℕ → Option MapRecord
map_lookup maps handle =
    if handle == 0 || leb (2 ^ 63) handle || ltb map_capacity handle
    then none
    else in_use (get_elem? maps (handle - 1))

-- `aivm_vm_reset_maps`
abbrev pub reset_maps : List MapRecord → List MapRecord
reset_maps maps = replicate map_capacity disposed

-- The first record that is not active, counted from `index`.
unfoldable pub free_map : ℕ → List MapRecord → Option ℕ
free_map index [] = none
free_map index (map ∷ maps) = if map.active then free_map (index + 1) maps else some index

-- The record of a new builder: whether there is memory, and the record.
abbrev pub new_map : MapHost → MapRecord → Option (Bool × MapRecord)
new_map host map = elim (map_resize host (record map { active = true }) 16) [
  | none ↦ none
  | some (grown, map') ↦ if grown then some (true, map') else some (false, disposed)
]

-- The record of a handle set to what a call has left, with the value that the call returns.
abbrev pub store_map :
    List MapRecord → ℕ → Option (Bool × MapRecord) → Option (Bool × List MapRecord)
store_map maps index none = none
store_map maps index (some (ok, map)) = some (ok, set maps index map)

-- `aivm_vm_map_builder_new`: whether it returns 1, the machine's maps, and the handle.
unfoldable pub map_builder_new : MapHost → List MapRecord → Option (Bool × List MapRecord) × ℕ
unfolding map_resize free_map
map_builder_new host maps = elim (free_map 0 maps) [
  | none ↦ (some (false, maps), 0)
  | some index ↦ elim (get_elem? maps index) [
    | none ↦ (some (false, maps), 0)
    | some map ↦ (store_map maps index (new_map host map), index + 1)
  ]
]

-- `aivm_vm_map_builder_put_string_int`; no key is the null pointer.
unfoldable pub map_builder_put_string_int :
    MapHost → List MapRecord → ℕ → Option Key → ℕ → Option (Bool × List MapRecord)
unfolding map_lookup put_string_int
map_builder_put_string_int host maps handle none value = some (false, maps)
map_builder_put_string_int host maps handle (some key) value = elim (map_lookup maps handle) [
  | none ↦ some (false, maps)
  | some map ↦
      if map.frozen
      then some (false, maps)
      else store_map maps (handle - 1) (put_string_int host map key value)
]

-- `aivm_vm_map_builder_finish`
unfoldable pub map_builder_finish : List MapRecord → ℕ → Bool × List MapRecord
unfolding map_lookup
map_builder_finish maps handle = elim (map_lookup maps handle) [
  | none ↦ (false, maps)
  | some map ↦
      if map.frozen
      then (false, maps)
      else (true, set maps (handle - 1) (record map { frozen = true }))
]

-- `aivm_vm_map_count`
unfoldable pub map_count : List MapRecord → ℕ → Option ℕ
unfolding map_lookup
map_count maps handle = elim (map_lookup maps handle) [
  | none ↦ none
  | some map ↦ if map.frozen then some map.count else none
]

-- `aivm_vm_map_get_string_int`: nothing where it returns 0.
unfoldable pub map_get_string_int : List MapRecord → ℕ → Key → ℕ → Option (Option (ℕ × Bool))
unfolding map_lookup get_string_int
map_get_string_int maps handle key fallback = elim (map_lookup maps handle) [
  | none ↦ some none
  | some map ↦
      if map.frozen
      then elim (get_string_int map key fallback) [ none ↦ none | some r ↦ some (some r) ]
      else some none
]
