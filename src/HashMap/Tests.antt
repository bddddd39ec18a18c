-- ===== src/HashMap/Tests.antt =====
-- Concrete calls of src/aivm_vm_map.c.
use ai_vm.Common.{
  ℕ, ◌≡◌, refl, ◌&&◌, Bool, true, none, some, List, [], ◌∷◌, All, get_elem?, replicate, inl,
}
use ai_vm.HashMap.{
  Key, MapRecord, MapHost, disposed, put_string_int, get_string_int, map_hash_string,
}
use ai_vm.HashMap.Contents.{IsMap, IsPutCall}
use ai_vm.HashMap.Puts.{can_grow, put_string_int_refines}
use ai_vm.HashMap.Lookups.{
  empty_map, empty_map-IsMap, latest, answer, put_all, get_string_int-put_all,
}
use ai_vm.HashMap.Handles.{IsEntry}
use ai_vm.HashMap.Histories.{MapEvent, map_steps, reset-All, finished_maps_stay}

abbrev generous : MapHost
generous = record { admits_growth = true; grows = true; copies_key = true }

abbrev key_a : Key
key_a = b'a' ∷ []

abbrev key_b : Key
key_b = b'b' ∷ []

put_string_int_refines_example :
    IsPutCall
      (can_grow generous empty_map && generous.copies_key)
      empty_map
      key_a
      7
      (put_string_int generous empty_map key_a 7)
put_string_int_refines_example = put_string_int_refines generous empty_map key_a 7 empty_map-IsMap

abbrev three_puts : List (MapHost × Key × ℕ)
three_puts = (generous, key_a, 1) ∷ (generous, key_b, 2) ∷ (generous, key_a, 3) ∷ []

get_string_int-put_all_example :
    (ok : Bool) × (after : MapRecord) × (put_all empty_map three_puts ≡ some (ok, after))
    × IsMap 0 after
    × (ok ≡ true → get_string_int after key_a 0 ≡ some (answer (latest none three_puts key_a) 0))
get_string_int-put_all_example = get_string_int-put_all three_puts key_a 0

-- The hash of a text, as the program computes it.
hash_of_a : map_hash_string key_a ≡ 4953267810257967366
unfolding map_hash_string
hash_of_a = refl

-- A finished map, and calls that try to change it.
abbrev finished_maps : List MapRecord
finished_maps = record empty_map { frozen = true } ∷ replicate 127 disposed

finished_maps-All : All IsEntry finished_maps
unfolding IsEntry
finished_maps-All =
    let v : IsMap 0 empty_map = empty_map-IsMap in
    let w : IsMap 0 (record empty_map { frozen = true }) = record {
      table = v.table;
      counted = v.counted;
      loaded = v.loaded;
      wide = v.wide;
      fits = v.fits;
    } in
    (inl (refl, w), reset-All 127)

abbrev calls : List MapEvent
calls =
    MapEvent.put_event generous 1 (some key_a) 8
    ∷ MapEvent.new_event generous
    ∷ MapEvent.put_event generous 2 (some key_a) 7
    ∷ MapEvent.finish_event 2
    ∷ []

-- A machine that was reset, a builder that is filled, and the calls above behind it.
abbrev first_calls : List MapEvent
first_calls =
    MapEvent.new_event generous
    ∷ MapEvent.reset_event
    ∷ MapEvent.new_event generous
    ∷ MapEvent.put_event generous 1 (some key_a) 5
    ∷ MapEvent.finish_event 1
    ∷ []

finished_maps_stay_example :
    (middle after : List MapRecord) × (map_steps finished_maps first_calls ≡ some middle)
    × (map_steps middle calls ≡ some after)
    × All IsEntry middle
    × All IsEntry after
    × ((index : ℕ) (m : MapRecord)
        → get_elem? middle index ≡ some m
        → m.active ≡ true
        → m.frozen ≡ true
        → get_elem? after index ≡ some m)
finished_maps_stay_example =
    finished_maps_stay finished_maps first_calls calls finished_maps-All
      (refl, (refl, (refl, (refl, tt))))
