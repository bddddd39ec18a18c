-- ===== src/HashMap/Histories.antt =====
-- Sequences of calls of src/aivm_vm_map.c on the maps of a machine.
use ai_vm.Common.{
  ℕ, zero, suc, ◌≡◌, inr, refl, ap, ◌∙◌, Bool, true, false, Option, none, some, List, [], ◌∷◌, All,
  get_elem?, replicate,
}
use mathlib.Core.Bool.{false≢true}
use ai_vm.HashMap.{
  Key, MapRecord, MapHost, disposed, reset_maps, map_builder_new, map_builder_put_string_int,
  map_builder_finish,
}
use ai_vm.HashMap.Handles.{
  IsEntry, IsCall, map_builder_new-IsCall, map_builder_put_string_int-IsCall,
  map_builder_finish-IsCall,
}

-- A call that changes the maps, with the handle it names and what the host answers to it.
pub data MapEvent : Type 0 where
  new_event : MapHost → MapEvent
  put_event : MapHost → ℕ → Option Key → ℕ → MapEvent
  finish_event : ℕ → MapEvent
  reset_event : MapEvent

unfoldable pub map_step : List MapRecord → MapEvent → Option (Bool × List MapRecord)
unfolding map_builder_new map_builder_put_string_int map_builder_finish
map_step maps (new_event host) = (map_builder_new host maps).0
map_step maps (put_event host handle key value) =
    map_builder_put_string_int host maps handle key value
map_step maps (finish_event handle) = some (map_builder_finish maps handle)
map_step maps reset_event = some (true, reset_maps maps)

-- Every call but the reset of the maps, with which the machine is reset or disposed of.
abbrev pub is_map_call : MapEvent → Bool
is_map_call reset_event = false
is_map_call _ = true

-- The calls one after the other, whatever they return; `none` is a call that does not end.
abbrev pub then_steps :
    Option (Bool × List MapRecord)
    → (List MapRecord → Option (List MapRecord))
    → Option (List MapRecord)
then_steps none rest = none
then_steps (some (ok, maps)) rest = rest maps

unfoldable pub map_steps : List MapRecord → List MapEvent → Option (List MapRecord)
unfolding map_step
map_steps maps [] = some maps
map_steps maps (e ∷ es) = then_steps (map_step maps e) (λ m. map_steps m es)

pub reset-All : (n : ℕ) → All IsEntry (replicate n disposed)
unfolding IsEntry
reset-All zero = tt
reset-All (suc n) = (inr refl, reset-All n)

-- The maps of a machine that was reset.
pub reset_maps-All : (maps : List MapRecord) → All IsEntry (reset_maps maps)
reset_maps-All maps = reset-All 128

-- A call ends and leaves well formed maps.
record IsStep (result : Option (Bool × List MapRecord)) : Type 0 where
  ok : Bool
  after : List MapRecord
  ends : result ≡ some (ok, after)
  valid : All IsEntry after

call-IsStep :
    (maps : List MapRecord) (r : Option (Bool × List MapRecord)) → IsCall maps r → IsStep r
call-IsStep maps r c = record { ok = c.ok; after = c.after; ends = c.ends; valid = c.valid }

map_step-IsCall :
    (maps : List MapRecord) (e : MapEvent)
    → is_map_call e ≡ true
    → All IsEntry maps
    → IsCall maps (map_step maps e)
unfolding map_step
map_step-IsCall maps (new_event host) k v = map_builder_new-IsCall host maps v
map_step-IsCall maps (put_event host handle key value) k v =
    map_builder_put_string_int-IsCall host maps handle key value v
map_step-IsCall maps (finish_event handle) k v = map_builder_finish-IsCall maps handle v
map_step-IsCall maps reset_event k v = absurd (false≢true k)

map_step-IsStep :
    (maps : List MapRecord) (e : MapEvent) → All IsEntry maps → IsStep (map_step maps e)
unfolding map_step
map_step-IsStep maps (new_event host) v =
    call-IsStep maps _ (map_step-IsCall maps (new_event host) refl v)
map_step-IsStep maps (put_event host handle key value) v =
    call-IsStep maps _ (map_step-IsCall maps (put_event host handle key value) refl v)
map_step-IsStep maps (finish_event handle) v =
    call-IsStep maps _ (map_step-IsCall maps (finish_event handle) refl v)
map_step-IsStep maps reset_event v = record {
  ok = true;
  after = reset_maps maps;
  ends = refl;
  valid = reset_maps-All maps;
}

-- Every sequence of calls ends and leaves well formed maps.
map_steps_end :
    (maps : List MapRecord) (es : List MapEvent)
    → All IsEntry maps
    → (after : List MapRecord) × (map_steps maps es ≡ some after) × All IsEntry after
unfolding map_steps
map_steps_end maps [] v = (maps, refl, v)
map_steps_end maps (e ∷ es) v =
    let c : IsStep (map_step maps e) = map_step-IsStep maps e v in
    let (after, q, w) = map_steps_end c.after es c.valid in
    (after, ap (λ r. then_steps r (λ m. map_steps m es)) c.ends ∙ q, w)

map_calls_keep :
    (maps : List MapRecord) (es : List MapEvent)
    → All IsEntry maps
    → All (λ e. is_map_call e ≡ true) es
    → (after : List MapRecord) × (map_steps maps es ≡ some after)
      × All IsEntry after
      × ((index : ℕ) (m : MapRecord)
          → get_elem? maps index ≡ some m
          → m.active ≡ true
          → m.frozen ≡ true
          → get_elem? after index ≡ some m)
unfolding map_steps
map_calls_keep maps [] v k = (maps, refl, v, λ i m e a f. e)
map_calls_keep maps (e ∷ es) v (k, ks) =
    let c : IsCall maps (map_step maps e) = map_step-IsCall maps e k v in
    let (after, q, w, f) = map_calls_keep c.after es c.valid ks in
    (
      after,
      ap (λ r. then_steps r (λ m. map_steps m es)) c.ends ∙ q,
      w,
      λ i m g a z. f i m (c.finished i m g a z) a z,
    )

-- Finished maps are immutable until the maps are reset. From well formed maps every sequence of calls
-- `before`, resets among them, ends and leaves well formed maps; and every sequence `es` behind it in
-- which the maps are not reset ends too, leaves well formed maps, and keeps every map as it was that
-- was finished by then.
pub finished_maps_stay :
    (maps : List MapRecord) (before es : List MapEvent)
    → All IsEntry maps
    → All (λ e. is_map_call e ≡ true) es
    → (middle after : List MapRecord) × (map_steps maps before ≡ some middle)
      × (map_steps middle es ≡ some after)
      × All IsEntry middle
      × All IsEntry after
      × ((index : ℕ) (m : MapRecord)
          → get_elem? middle index ≡ some m
          → m.active ≡ true
          → m.frozen ≡ true
          → get_elem? after index ≡ some m)
finished_maps_stay maps before es v k =
    let (middle, p, w) = map_steps_end maps before v in
    let (after, q, u, f) = map_calls_keep middle es w k in (middle, after, p, q, w, u, f)
