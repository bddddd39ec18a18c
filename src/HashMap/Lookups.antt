-- ===== src/HashMap/Lookups.antt =====
-- Lookups in a map of src/aivm_vm_map.c behind a sequence of puts.
use ai_vm.Common.{
  ℕ, ◌+◌, ◌*◌, ◌<◌, ◌≡◌, ◌≢◌, inl, inr, refl, sym, ap, ◌∙◌, subst, Bool, true, false, Option, none,
  some, ◌&&◌, List, [], ◌∷◌, if◌then◌else◌, arith, Bool-cases, if_cases, option_cases,
}
use mathlib.Core.Option.{some-injective, none-ne-some}
use mathlib.Core.Bool.{false≢true}
use ai_vm.HashMap.{
  Key, MapRecord, MapHost, map_hash_string, same_key, stops, map_slot_for, put_string_int,
  get_string_int, disposed,
}
use ai_vm.HashMap.Probe.{stops-some, map_slot_for-some, same_key-equal, same_key_refl}
use ai_vm.HashMap.Table.{IsTable, IsTable-found}
use ai_vm.HashMap.Resize.{occupied, some_empty_slot}
use ai_vm.HashMap.Contents.{IsMap, Has, IsPutCall}
use ai_vm.HashMap.Puts.{can_grow, put_string_int_refines}

-- What a lookup may give.
pub data Got (map : MapRecord) (key : Key) (fallback : ℕ) : Option (ℕ × Bool) → Type 0 where
  found : (v : ℕ) → Has map key v → Got map key fallback (some (v, true))
  absent : ((v : ℕ) → Has map key v → ⊥) → Got map key fallback (some (fallback, false))

Got-at :
    (map : MapRecord) (key : Key) (fallback s : ℕ)
    → IsMap 0 map
    → map_slot_for map.slots map.slot_capacity key (map_hash_string key) ≡ some s
    → s < map.slot_capacity
    → stops key (map_hash_string key) (map.slots s) ≡ true
    → Got map key fallback (elim (map.slots s) [
      | none ↦ some (fallback, false)
      | some entry ↦ some (entry.value, true)
    ])
Got-at map key fallback s v e l t =
    option_cases (λ r. Got map key fallback r) (map.slots s)
      (λ p. Got.absent (λ w h.
        (let q : map_slot_for map.slots map.slot_capacity key (map_hash_string key) ≡ some h.index =
            IsTable-found map.slots map.slot_capacity h.index h.entry key v.table h.inside h.at
              h.of_key in
          let m : s ≡ h.index = some-injective s h.index (sym e ∙ q) in
          none-ne-some h.entry (sym p ∙ ap map.slots m ∙ h.at))))
      (λ x p.
        let (a, b) =
          stops-some key (map_hash_string key) x
            (ap (stops key (map_hash_string key)) (sym p) ∙ t) in
        Got.found x.value
          (record { index = s; entry = x; inside = l; at = p; of_key = b; of_value = refl }))

-- A lookup ends, and gives the value that the map has at the key, or the fallback where it has none.
pub get_string_int-Got :
    (map : MapRecord) (key : Key) (fallback : ℕ)
    → IsMap 0 map
    → Got map key fallback (get_string_int map key fallback)
unfolding get_string_int
get_string_int-Got map key fallback v =
    let c : map.count ≡ occupied map.slots map.slot_capacity = v.counted in
    let d : (map.count + 0) * 10 < map.slot_capacity * 7 = v.loaded in
    let (j, l, n) = some_empty_slot map.slots map.slot_capacity (omega (arith, c, d)) in
    let (s, e, m, t) =
      map_slot_for-some map.slots map.slot_capacity key (map_hash_string key) j l n in
    option_cases (λ r. Got map key fallback r)
      (map_slot_for map.slots map.slot_capacity key (map_hash_string key))
      (λ q. absurd (none-ne-some s (sym q ∙ e)))
      (λ s2 q.
        let z : s ≡ s2 = some-injective s s2 (sym e ∙ q) in
        Got-at map key fallback s2 v q (subst (λ s. s < map.slot_capacity) z m)
          (subst (λ s. stops key (map_hash_string key) (map.slots s) ≡ true) z t))

-- The value of the last pair with the key.
abbrev pub latest : Option ℕ → List (MapHost × Key × ℕ) → Key → Option ℕ
latest before [] key = before
latest before ((host, k, v) ∷ puts) key =
    latest (if same_key k key then some v else before) puts key

-- Puts one after the other, until one fails.
abbrev pub put_next :
    Option (Bool × MapRecord) → (MapRecord → Option (Bool × MapRecord)) → Option (Bool × MapRecord)
put_next none rest = none
put_next (some (ok, map)) rest = if ok then rest map else some (false, map)

unfoldable pub put_all : MapRecord → List (MapHost × Key × ℕ) → Option (Bool × MapRecord)
unfolding put_string_int
put_all map [] = some (true, map)
put_all map ((host, k, v) ∷ puts) = put_next (put_string_int host map k v) (λ m. put_all m puts)

-- The map has at the key what the option says.
Agrees : MapRecord → Key → Option ℕ → Type 0
Agrees map key none = (v : ℕ) → Has map key v → ⊥
Agrees map key (some v) = Has map key v

-- A new builder of a machine.
abbrev pub empty_map : MapRecord
empty_map = record disposed { active = true; slot_capacity = 16 }

pub empty_map-IsMap : IsMap 0 empty_map
unfolding IsTable
empty_map-IsMap = record {
  table = λ j e l p. absurd (none-ne-some e p);
  counted = refl;
  loaded = omega arith;
  wide = omega arith;
  fits = omega arith;
}

Agrees-put :
    (served : Bool) (map : MapRecord) (k : Key) (v : ℕ) (r : Option (Bool × MapRecord)) (key : Key)
    (before : Option ℕ)
    → (p : IsPutCall served map k v r) → p.ok ≡ true
    → Agrees map key before
    → Agrees p.after key (if same_key k key then some v else before)
unfolding Agrees
Agrees-put served map k v r key before p t a =
    if_cases (λ o. Agrees p.after key o) (same_key k key)
      (λ q. subst (λ k. Has p.after k v) (same_key-equal k key q) (p.here t))
      (λ q.
        let n : k ≢ key = λ e. false≢true (sym q ∙ sym (ap (same_key k) e) ∙ same_key_refl k) in
        other n before a)
  where
    other : k ≢ key → (before : Option ℕ) → Agrees map key before → Agrees p.after key before
    other n none a = λ w h. elim (p.back key w h) [ inl x ↦ n x.1 | inr x ↦ a w x.1 ]
    other n (some w) a = p.there key w (inr n) a

-- Behind any puts, for one key.
put_all_lem :
    (map : MapRecord) (puts : List (MapHost × Key × ℕ)) (key : Key) (before : Option ℕ)
    → IsMap 0 map
    → Agrees map key before
    → (ok : Bool) × (after : MapRecord) × (put_all map puts ≡ some (ok, after))
      × IsMap 0 after
      × (ok ≡ true → Agrees after key (latest before puts key))
unfolding put_all
put_all_lem map [] key before v a = (true, map, refl, v, λ _. a)
put_all_lem map ((host, k, w) ∷ puts) key before v a =
    let p : IsPutCall (can_grow host map && host.copies_key) map k w (put_string_int host map k w) =
      put_string_int_refines host map k w v in
    let e : put_all map ((host, k, w) ∷ puts)
        ≡ (if p.ok then put_all p.after puts else some (false, p.after)) =
      ap (λ r. put_next r (λ m. put_all m puts)) p.ends in
    elim (Bool-cases p.ok) [
      | inl t ↦
          let (ok, after, q, v2, f) =
            put_all_lem p.after puts key (if same_key k key then some w else before) p.valid (
              Agrees-put (can_grow host map && host.copies_key) map k w
                (put_string_int host map k w) key before p t a) in
          (
            ok,
            after,
            e ∙ ap (λ b. if b then put_all p.after puts else some (false, p.after)) t ∙ q,
            v2,
            f,
          )
      | inr t ↦ (
        false,
        p.after,
        e ∙ ap (λ b. if b then put_all p.after puts else some (false, p.after)) t,
        p.valid,
        λ x. absurd (false≢true x),
      )
    ]

-- What a lookup gives where the map agrees with an option.
abbrev pub answer : Option ℕ → ℕ → ℕ × Bool
answer none fallback = (fallback, false)
answer (some v) fallback = (v, true)

-- A key has one value.
Has-unique :
    (map : MapRecord) (key : Key) (v w : ℕ) → IsMap 0 map → Has map key v → Has map key w → v ≡ w
Has-unique map key v w m a b =
    let p : map_slot_for map.slots map.slot_capacity key (map_hash_string key) ≡ some a.index =
      IsTable-found map.slots map.slot_capacity a.index a.entry key m.table a.inside a.at
        a.of_key in
    let q : map_slot_for map.slots map.slot_capacity key (map_hash_string key) ≡ some b.index =
      IsTable-found map.slots map.slot_capacity b.index b.entry key m.table b.inside b.at
        b.of_key in
    let i : a.index ≡ b.index = some-injective a.index b.index (sym p ∙ q) in
    let e : a.entry ≡ b.entry = some-injective a.entry b.entry (sym a.at ∙ ap map.slots i ∙ b.at) in
    sym a.of_value ∙ ap (λ x. x.value) e ∙ b.of_value

Got-answer :
    (map : MapRecord) (key : Key) (fallback : ℕ) (o : Option ℕ) (r : Option (ℕ × Bool))
    → IsMap 0 map
    → Agrees map key o
    → Got map key fallback r
    → r ≡ some (answer o fallback)
unfolding Agrees
Got-answer map key fallback none _ m a (Got.found v h) = absurd (a v h)
Got-answer map key fallback none _ m a (Got.absent f) = refl
Got-answer map key fallback (some w) _ m a (Got.found v h) =
    ap (λ x. some (x, true)) (Has-unique map key v w m h a)
Got-answer map key fallback (some w) _ m a (Got.absent f) = absurd (f w a)

empty_map-Agrees : (key : Key) → Agrees empty_map key none
unfolding Agrees
empty_map-Agrees key v h = none-ne-some h.entry h.at

-- Any sequence of puts on a new builder, however the host answers them: every probe and every growth
-- ends, the invariant holds behind them, and if none of them fails, a lookup gives the value of the last
-- put with its key, or the fallback where there was none.
pub get_string_int-put_all :
    (puts : List (MapHost × Key × ℕ)) (key : Key) (fallback : ℕ)
    → (ok : Bool) × (after : MapRecord) × (put_all empty_map puts ≡ some (ok, after))
      × IsMap 0 after
      × (ok ≡ true
          → get_string_int after key fallback ≡ some (answer (latest none puts key) fallback))
get_string_int-put_all puts key fallback =
    let (ok, after, e, v, f) =
      put_all_lem empty_map puts key none empty_map-IsMap (empty_map-Agrees key) in
    (
      ok,
      after,
      e,
      v,
      λ t.
          Got-answer after key fallback (latest none puts key) (get_string_int after key fallback) v
            (f t) (get_string_int-Got after key fallback v),
    )
