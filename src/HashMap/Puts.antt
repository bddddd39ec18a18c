-- ===== src/HashMap/Puts.antt =====
-- A put of src/aivm_vm_map.c with the growth of its table.
use native.Mathlib.Nat.{mod-eq_of_lt}
use ai_vm.Common.{
  ℕ, ◌+◌, ◌*◌, ◌%◌, ◌≤◌, ◌<◌, ◌≡◌, inl, inr, refl, sym, ◌∙◌, subst, Bool, true, false, not, ◌&&◌,
  Option, some, ltb, leb, size_mod, arith, Bool-cases, if_cases, option_cases, &&_parts,
}
use mathlib.Core.Option.{none-ne-some, some-injective}
use mathlib.Core.Bool.{false≢true}
use ai_vm.HashMap.{
  Key, MapRecord, MapHost, Slots, reinsert, map_resize, slot_size, put_slot, put_behind,
  put_string_int,
}
use ai_vm.HashMap.Resize.{occupied, IsRehashed, reinsert-IsRehashed}
use ai_vm.HashMap.Contents.{max_capacity, IsMap, Has, IsPutCall, refused, put_slot-IsPutCall}

-- What a call that doubles the capacity may do.
record IsGrowCall (served : Bool) (map : MapRecord) (r : Option (Bool × MapRecord)) : Type 0 where
  ok : Bool
  after : MapRecord
  ends : r ≡ some (ok, after)
  fails : ok ≡ false → after ≡ map
  grows : ok ≡ true → IsMap 1 after
  into : (k : Key) (v : ℕ) → Has map k v → Has after k v
  back : (k : Key) (v : ℕ) → Has after k v → Has map k v
  serves : served ≡ true → ok ≡ true
  same_flags : (after.active ≡ map.active) × (after.frozen ≡ map.frozen)

grow_refused : (map : MapRecord) → IsGrowCall false map (some (false, map))
grow_refused map = record {
  ok = false;
  after = map;
  ends = refl;
  fails = λ _. refl;
  grows = λ e. absurd (false≢true e);
  into = λ k v h. h;
  back = λ k v h. h;
  serves = λ e. absurd (false≢true e);
  same_flags = (refl, refl);
}

grow_done :
    (map : MapRecord) (new : Slots)
    → IsMap 0 map
    → map.slot_capacity * 2 ≤ max_capacity
    → IsRehashed map.slots (map.slot_capacity * 2) map.slot_capacity new
    → IsGrowCall true map
        (some (true, record map { slots = new; slot_capacity = map.slot_capacity * 2 }))
grow_done map new v l w = record {
  ok = true;
  after = record map { slots = new; slot_capacity = map.slot_capacity * 2 };
  ends = refl;
  fails = λ e. absurd (false≢true (sym e));
  grows = λ _. record {
    table = w.table;
    counted = v.counted ∙ sym w.counted;
    loaded =
        (let d : (map.count + 0) * 10 < map.slot_capacity * 7 = v.loaded in
          let u : 16 ≤ map.slot_capacity = v.wide in omega (arith, d, u));
    wide = (let u : 16 ≤ map.slot_capacity = v.wide in omega (arith, u));
    fits = l;
  };
  into = w.into;
  back = w.back;
  serves = λ _. refl;
  same_flags = (refl, refl);
}

-- The host admits the growth and gives the memory for it, and the capacity is not too great.
abbrev pub can_grow : MapHost → MapRecord → Bool
can_grow host map = host.admits_growth && host.grows && leb (map.slot_capacity * 2) max_capacity

served_as :
    (b c : Bool) (map : MapRecord) (r : Option (Bool × MapRecord))
    → b ≡ c
    → IsGrowCall b map r
    → IsGrowCall c map r
served_as b c map r e w = subst (λ b. IsGrowCall b map r) e w

map_resize-IsGrowCall :
    (host : MapHost) (map : MapRecord)
    → IsMap 0 map
    → IsGrowCall (can_grow host map) map (map_resize host map (map.slot_capacity * 2))
unfolding map_resize
map_resize-IsGrowCall host map v =
    let P : Option (Bool × MapRecord) → Type 0 = λ r. IsGrowCall (can_grow host map) map r in
    let c : map.count ≡ occupied map.slots map.slot_capacity = v.counted in
    let d : (map.count + 0) * 10 < map.slot_capacity * 7 = v.loaded in
    let u : 16 ≤ map.slot_capacity = v.wide in
    let (new, e, w) =
      reinsert-IsRehashed map.slots map.slot_capacity (map.slot_capacity * 2) v.table
        map.slot_capacity (omega arith) (omega (arith, c, d, u)) in
    if_cases P (ltb max_capacity (map.slot_capacity * 2))
      (λ q.
        served_as false (can_grow host map) map (some (false, map)) (ground (arith, q))
          (grow_refused map))
      (λ big.
        if_cases P
          (ltb (map.slot_capacity * slot_size) (map.slot_capacity * 2 * slot_size)
            && not host.admits_growth)
          (λ q.
            served_as false (can_grow host map) map (some (false, map)) (ground (arith, q))
              (grow_refused map))
          (λ admitted.
            if_cases P (not host.grows)
              (λ q.
                served_as false (can_grow host map) map (some (false, map)) (ground (arith, q))
                  (grow_refused map))
              (λ grows.
                option_cases P (reinsert map.slots (map.slot_capacity * 2) map.slot_capacity)
                  (λ n. absurd (none-ne-some new (sym n ∙ e)))
                  (λ new2 e2.
                    let w2 : IsRehashed map.slots (map.slot_capacity * 2) map.slot_capacity new2 =
                      subst (λ n. IsRehashed map.slots (map.slot_capacity * 2) map.slot_capacity n)
                        (some-injective new new2 (sym e ∙ e2)) w in
                    served_as true (can_grow host map) map
                      (some
                        (true, record map { slots = new2; slot_capacity = map.slot_capacity * 2 }))
                      (ground (arith, big, admitted, grows, u))
                      (grow_done map new2 v (ground (arith, big)) w2)))))

-- A put on the map grown.
put_grown :
    (host : MapHost) (map : MapRecord) (key : Key) (value : ℕ) (r : Option (Bool × MapRecord))
    → (g : IsGrowCall (can_grow host map) map r) → g.ok ≡ true
    → IsPutCall
        (can_grow host map && host.copies_key)
        map
        key
        value
        (put_slot host g.after key value)
put_grown host map key value r g t =
    let p : IsPutCall host.copies_key g.after key value (put_slot host g.after key value) =
      put_slot-IsPutCall host g.after key value (g.grows t) in
    record {
      ok = p.ok;
      after = p.after;
      ends = p.ends;
      valid = p.valid;
      here = p.here;
      there = λ k v o h. p.there k v o (g.into k v h);
      back = λ k v h. elim (p.back k v h) [ inl x ↦ inl x | inr x ↦ inr (x.0, g.back k v x.1) ];
      serves = λ q. p.serves ((&&_parts (can_grow host map) host.copies_key q).1);
      same_flags = (p.same_flags.0 ∙ g.same_flags.0, p.same_flags.1 ∙ g.same_flags.1);
    }

weaken_served :
    (b c : Bool) (map : MapRecord) (key : Key) (value : ℕ) (r : Option (Bool × MapRecord))
    → (c ≡ true → b ≡ true)
    → IsPutCall b map key value r
    → IsPutCall c map key value r
weaken_served b c map key value r f p = record {
  ok = p.ok;
  after = p.after;
  ends = p.ends;
  valid = p.valid;
  here = p.here;
  there = p.there;
  back = p.back;
  serves = λ q. p.serves (f q);
  same_flags = p.same_flags;
}

put_behind-IsPutCall :
    (host : MapHost) (map : MapRecord) (key : Key) (value : ℕ) (r : Option (Bool × MapRecord))
    → IsMap 0 map
    → IsGrowCall (can_grow host map) map r
    → IsPutCall (can_grow host map && host.copies_key) map key value (put_behind host key value r)
unfolding put_behind
put_behind-IsPutCall host map key value r v g =
    let S : Bool = can_grow host map && host.copies_key in
    let Q : Option (Bool × MapRecord) → Type 0 =
      λ r. IsPutCall S map key value (put_behind host key value r) in
    subst Q (sym g.ends) (
      if_cases (λ o. IsPutCall S map key value o) g.ok (λ t. put_grown host map key value r g t)
        (λ t.
          let n : S ≡ false = elim (Bool-cases S) [
            | inl y ↦
                absurd
                  (false≢true (sym t ∙ g.serves (&&_parts (can_grow host map) host.copies_key y).0))
            | inr y ↦ y
          ] in
          subst (λ m. IsPutCall S map key value (some (false, m))) (sym (g.fails t))
            (subst (λ b. IsPutCall b map key value (some (false, map))) (sym n)
              (refused map key value v))))

-- Putting a value at a key of a builder: the probe and the growth end, the invariant holds behind the
-- call, and the map has the value at the key and all else as before, unless the call fails; then it has
-- what it had. The call does not fail where the host gives memory and the doubled capacity is allowed.
pub put_string_int_refines :
    (host : MapHost) (map : MapRecord) (key : Key) (value : ℕ)
    → IsMap 0 map
    → IsPutCall
        (can_grow host map && host.copies_key)
        map
        key
        value
        (put_string_int host map key value)
unfolding put_string_int
put_string_int_refines host map key value v =
    let S : Bool = can_grow host map && host.copies_key in
    let P : Option (Bool × MapRecord) → Type 0 = λ r. IsPutCall S map key value r in
    let c : map.slot_capacity ≤ max_capacity = v.fits in
    let d : (map.count + 0) * 10 < map.slot_capacity * 7 = v.loaded in
    let m7 : map.slot_capacity * 7 % size_mod ≡ map.slot_capacity * 7 =
      mod-eq_of_lt (omega (arith, c)) in
    let m10 : (map.count + 1) * 10 % size_mod ≡ (map.count + 1) * 10 =
      mod-eq_of_lt (omega (arith, c, d)) in
    let m2 : map.slot_capacity * 2 % size_mod ≡ map.slot_capacity * 2 =
      mod-eq_of_lt (omega (arith, c)) in
    if_cases P (leb (map.slot_capacity * 7 % size_mod) ((map.count + 1) * 10 % size_mod))
      (λ q.
        let g : IsGrowCall (can_grow host map) map
            (map_resize host map (map.slot_capacity * 2 % size_mod)) =
          subst (λ c. IsGrowCall (can_grow host map) map (map_resize host map c)) (sym m2)
            (map_resize-IsGrowCall host map v) in
        put_behind-IsPutCall host map key value
          (map_resize host map (map.slot_capacity * 2 % size_mod)) v g)
      (λ q.
        weaken_served host.copies_key S map key value (put_slot host map key value)
          (λ t. (&&_parts (can_grow host map) host.copies_key t).1)
          (put_slot-IsPutCall host map key value (record {
            table = v.table;
            counted = v.counted;
            loaded = ground (arith, q, m7, m10);
            wide = v.wide;
            fits = v.fits;
          })))
