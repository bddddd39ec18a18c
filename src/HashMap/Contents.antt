-- ===== src/HashMap/Contents.antt =====
-- The map of a builder of src/aivm_vm_map.c as a relation between keys and values.
use ai_vm.Common.{
  ℕ, ◌+◌, ◌-◌, ◌*◌, ◌/◌, ◌≤◌, ◌<◌, ◌≡◌, ◌≢◌, ◌⊎◌, inl, inr, refl, sym, ap, ◌∙◌, subst, Bool, true,
  false, Option, none, some, size_mod, write, arith, if_cases, option_cases,
}
use mathlib.Core.Option.{none-ne-some}
use mathlib.Core.Bool.{false≢true}
use ai_vm.HashMap.{
  Key, MapSlot, MapRecord, MapHost, map_hash_string, stops, map_slot_for, slot_size, put_slot,
}
use ai_vm.HashMap.Probe.{stops-some, map_slot_for-some, map_slot_for-stops}
use ai_vm.HashMap.Table.{IsTable, Holds, IsPut, written-IsPut}
use ai_vm.HashMap.Resize.{occupied, is_occupied, occupied-write, some_empty_slot}

-- The greatest capacity that `map_resize` takes.
abbrev pub max_capacity : ℕ
max_capacity = (size_mod - 1) / slot_size

-- A map: the entries are where their keys are looked for, the count counts them, and so many more
-- fit below the load at which the table grows.
pub record IsMap (more : ℕ) (map : MapRecord) : Type 0 where
  pub table : IsTable map.slots map.slot_capacity
  pub counted : map.count ≡ occupied map.slots map.slot_capacity
  pub loaded : (map.count + more) * 10 < map.slot_capacity * 7
  pub wide : 16 ≤ map.slot_capacity
  pub fits : map.slot_capacity ≤ max_capacity

abbrev pub Has : MapRecord → Key → ℕ → Type 0
Has map key value = Holds map.slots map.slot_capacity key value

-- What a call that puts a value at a key may do: it ends; if it returns 1 the key has that value and
-- every other key what it had; if it returns 0 every key has what it had; and it returns 1 whenever the
-- host gives memory and the capacity can be doubled.
pub record IsPutCall (served : Bool) (map : MapRecord) (key : Key) (value : ℕ)
    (r : Option (Bool × MapRecord)) : Type 0 where
  pub ok : Bool
  pub after : MapRecord
  pub ends : r ≡ some (ok, after)
  pub valid : IsMap 0 after
  pub here : ok ≡ true → Has after key value
  pub there : (k : Key) (v : ℕ) → (ok ≡ false) ⊎ (key ≢ k) → Has map k v → Has after k v
  pub back :
      (k : Key) (v : ℕ)
      → Has after k v
      → ((ok ≡ true) × (key ≡ k) × (value ≡ v)) ⊎ (((ok ≡ false) ⊎ (key ≢ k)) × Has map k v)
  pub serves : served ≡ true → ok ≡ true
  pub same_flags : (after.active ≡ map.active) × (after.frozen ≡ map.frozen)

IsMap-weaken : (map : MapRecord) → IsMap 1 map → IsMap 0 map
IsMap-weaken map v = record {
  table = v.table;
  counted = v.counted;
  loaded = (let l : (map.count + 1) * 10 < map.slot_capacity * 7 = v.loaded in omega (arith, l));
  wide = v.wide;
  fits = v.fits;
}

-- The call refused.
pub refused :
    (map : MapRecord) (key : Key) (value : ℕ)
    → IsMap 0 map
    → IsPutCall false map key value (some (false, map))
refused map key value v = record {
  ok = false;
  after = map;
  ends = refl;
  valid = v;
  here = λ e. absurd (false≢true e);
  there = λ k w _ h. h;
  back = λ k w h. inr (inl refl, h);
  serves = λ e. absurd (false≢true e);
  same_flags = (refl, refl);
}

-- An entry written at the slot found.
entered :
    (served : Bool) (map : MapRecord) (key : Key) (value count s : ℕ) (e : MapSlot)
    → IsMap 1 map
    → s < map.slot_capacity
    → count ≤ map.count + 1
    → count + is_occupied (map.slots s) ≡ map.count + 1
    → IsPut map.slots (write map.slots s (some e)) map.slot_capacity key value
    → IsPutCall served map key value
        (some (true, record map { slots = write map.slots s (some e); count = count }))
entered served map key value count s e v m l c u = record {
  ok = true;
  after = record map { slots = write map.slots s (some e); count = count };
  ends = refl;
  valid = record {
    table = u.table;
    counted =
        (let d : map.count ≡ occupied map.slots map.slot_capacity = v.counted in
          omega (arith, c, d, occupied-write map.slots s map.slot_capacity e m));
    loaded =
        (let d : (map.count + 1) * 10 < map.slot_capacity * 7 = v.loaded in omega (arith, l, d));
    wide = v.wide;
    fits = v.fits;
  };
  here = λ _. u.here;
  there = λ k w o h. elim o [ inl x ↦ absurd (false≢true (sym x)) | inr n ↦ u.there k w n h ];
  back = λ k w h. elim (u.back k w h) [ inl p ↦ inl (refl, p.0, p.1) | inr p ↦ inr (inr p.0, p.1) ];
  serves = λ _. refl;
  same_flags = (refl, refl);
}

-- The end of a put, on a map with room for one more.
written_old :
    (served : Bool) (map : MapRecord) (key : Key) (value s : ℕ) (old : MapSlot)
    → IsMap 1 map
    → map_slot_for map.slots map.slot_capacity key (map_hash_string key) ≡ some s
    → map.slots s ≡ some old
    → IsPutCall served map key value (
        some (true, record map { slots = write map.slots s (some (record old { value = value })) }))
written_old served map key value s old v f p =
    let pos : 0 < map.slot_capacity =
      (let w : 16 ≤ map.slot_capacity = v.wide in omega (arith, w)) in
    let (m, t) = map_slot_for-stops map.slots map.slot_capacity key (map_hash_string key) s pos f in
    let (a, b) =
      stops-some key (map_hash_string key) old (ap (stops key (map_hash_string key)) (sym p) ∙ t) in
    let e : MapSlot = record old { value = value } in
    let h : e.hash ≡ map_hash_string e.key = a ∙ ap map_hash_string (sym b) in
    let g : map_slot_for map.slots map.slot_capacity e.key e.hash ≡ some s =
      ap (λ k. map_slot_for map.slots map.slot_capacity k e.hash) b
      ∙ ap (map_slot_for map.slots map.slot_capacity key) a
      ∙ f in
    let u : IsPut map.slots (write map.slots s (some e)) map.slot_capacity key value =
      subst (λ k. IsPut map.slots (write map.slots s (some e)) map.slot_capacity k value) b
        (written-IsPut map.slots map.slot_capacity s e v.table pos h g) in
    let o : is_occupied (map.slots s) ≡ 1 = ap is_occupied p in
    entered served map key value map.count s e v m (omega arith) (omega (arith, o)) u

written_new :
    (served : Bool) (map : MapRecord) (key : Key) (value s : ℕ)
    → IsMap 1 map
    → map_slot_for map.slots map.slot_capacity key (map_hash_string key) ≡ some s
    → map.slots s ≡ none
    → IsPutCall served map key value (
        some (
          true,
          record map {
            slots =
                write map.slots s
                  (some (record { hash = map_hash_string key; key = key; value = value }));
            count = map.count + 1;
          },
        ))
written_new served map key value s v f p =
    let pos : 0 < map.slot_capacity =
      (let w : 16 ≤ map.slot_capacity = v.wide in omega (arith, w)) in
    let (m, t) = map_slot_for-stops map.slots map.slot_capacity key (map_hash_string key) s pos f in
    let e : MapSlot = record { hash = map_hash_string key; key = key; value = value } in
    let o : is_occupied (map.slots s) ≡ 0 = ap is_occupied p in
    entered served map key value (map.count + 1) s e v m (omega arith) (omega (arith, o))
      (written-IsPut map.slots map.slot_capacity s e v.table pos refl f)

pub put_slot-IsPutCall :
    (host : MapHost) (map : MapRecord) (key : Key) (value : ℕ)
    → IsMap 1 map
    → IsPutCall host.copies_key map key value (put_slot host map key value)
unfolding put_slot
put_slot-IsPutCall host map key value v =
    let c : map.count ≡ occupied map.slots map.slot_capacity = v.counted in
    let d : (map.count + 1) * 10 < map.slot_capacity * 7 = v.loaded in
    let (j, l, n) = some_empty_slot map.slots map.slot_capacity (omega (arith, c, d)) in
    let (s, f, m, t) =
      map_slot_for-some map.slots map.slot_capacity key (map_hash_string key) j l n in
    let P : Option (Bool × MapRecord) → Type 0 = λ r. IsPutCall host.copies_key map key value r in
    option_cases P (map_slot_for map.slots map.slot_capacity key (map_hash_string key))
      (λ e. absurd (none-ne-some s (sym e ∙ f)))
      (λ s e.
        option_cases P (map.slots s)
          (λ p.
            if_cases P host.copies_key (λ _. written_new host.copies_key map key value s v e p)
              (λ q.
                subst (λ b. IsPutCall b map key value (some (false, map))) (sym q)
                  (refused map key value (IsMap-weaken map v))))
          (λ old p. written_old host.copies_key map key value s old v e p))
