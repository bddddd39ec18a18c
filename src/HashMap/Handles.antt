-- ===== src/HashMap/Handles.antt =====
-- The maps of a machine (src/aivm_vm_map.c) by their handles.
use ai_vm.Common.{
  ℕ, zero, suc, ◌+◌, ◌-◌, ◌≡◌, ◌≢◌, ◌⊎◌, inl, inr, refl, sym, ap, ◌∙◌, subst, Bool, true, false,
  Option, none, some, List, [], ◌∷◌, ◌==◌, ltb, leb, arith, if_cases, option_cases, if_some,
  test_cases, ◌&&◌, ◌||◌, ◌^◌, All, get_elem?, set,
}
use mathlib.Core.Option.{some-injective, none-ne-some}
use mathlib.Core.Bool.{false≢true}
use ai_vm.HashMap.{
  Key, MapRecord, MapHost, map_resize, reinsert, put_string_int, disposed, map_capacity, in_use,
  map_lookup, free_map, new_map, store_map, map_builder_new, map_builder_put_string_int,
  map_builder_finish,
}
use ai_vm.HashMap.Contents.{IsMap, IsPutCall}
use ai_vm.HashMap.Puts.{can_grow, put_string_int_refines}
use ai_vm.HashMap.Lookups.{empty_map, empty_map-IsMap}

-- A record in use is a map, and one that is not is as it was disposed of.
unfoldable pub IsEntry : MapRecord → Type 0
IsEntry map = ((map.active ≡ true) × IsMap 0 map) ⊎ (map ≡ disposed)

All-get :
    (P : MapRecord → Type 0) (maps : List MapRecord) (i : ℕ) (m : MapRecord)
    → All P maps
    → get_elem? maps i ≡ some m
    → P m
All-get P [] i m h e = absurd (none-ne-some m e)
All-get P (x ∷ xs) zero m h e = subst P (some-injective x m e) h.0
All-get P (x ∷ xs) (suc i) m h e = All-get P xs i m h.1 e

All-set :
    (P : MapRecord → Type 0) (maps : List MapRecord) (i : ℕ) (m : MapRecord)
    → All P maps
    → P m
    → All P (set maps i m)
All-set P [] i m h p = tt
All-set P (x ∷ xs) zero m h p = (p, h.1)
All-set P (x ∷ xs) (suc i) m h p = (h.0, All-set P xs i m h.1 p)

get-set_self :
    (maps : List MapRecord) (i : ℕ) (x m : MapRecord)
    → get_elem? maps i ≡ some x
    → get_elem? (set maps i m) i ≡ some m
get-set_self [] i x m e = absurd (none-ne-some x e)
get-set_self (y ∷ ys) zero x m e = refl
get-set_self (y ∷ ys) (suc i) x m e = get-set_self ys i x m e

get-set_ne :
    (maps : List MapRecord) (i j : ℕ) (m : MapRecord)
    → i ≢ j
    → get_elem? (set maps i m) j ≡ get_elem? maps j
get-set_ne [] i j m n = refl
get-set_ne (x ∷ xs) zero zero m n = absurd (n refl)
get-set_ne (x ∷ xs) zero (suc j) m n = refl
get-set_ne (x ∷ xs) (suc i) zero m n = refl
get-set_ne (x ∷ xs) (suc i) (suc j) m n = get-set_ne xs i j m (λ e. n (ap suc e))

-- What a call keeps: it ends, the records stay well formed, and a finished map stays as it is.
pub record IsCall (maps : List MapRecord) (r : Option (Bool × List MapRecord)) : Type 0 where
  pub ok : Bool
  pub after : List MapRecord
  pub ends : r ≡ some (ok, after)
  pub valid : All IsEntry after
  pub finished :
      (i : ℕ) (m : MapRecord)
      → get_elem? maps i ≡ some m
      → m.active ≡ true
      → m.frozen ≡ true
      → get_elem? after i ≡ some m

unchanged : (maps : List MapRecord) → All IsEntry maps → IsCall maps (some (false, maps))
unchanged maps v = record {
  ok = false;
  after = maps;
  ends = refl;
  valid = v;
  finished = λ i m e a f. e;
}

-- A record that is not a finished map set to another.
stored_map :
    (maps : List MapRecord) (index : ℕ) (old new : MapRecord) (ok : Bool)
    → All IsEntry maps
    → get_elem? maps index ≡ some old
    → (old.active ≡ true → old.frozen ≡ true → ⊥)
    → IsEntry new
    → IsCall maps (store_map maps index (some (ok, new)))
stored_map maps index old new ok v e n w = record {
  ok = ok;
  after = set maps index new;
  ends = refl;
  valid = All-set IsEntry maps index new v w;
  finished = λ i m p a f.
      get-set_ne maps index i new (λ q.
        (let x : old ≡ m = some-injective old m (sym e ∙ ap (get_elem? maps) q ∙ p) in
          n (ap (λ r. r.active) x ∙ a) (ap (λ r. r.frozen) x ∙ f)))
      ∙ p;
}

in_use-some :
    (o : Option MapRecord) (map : MapRecord)
    → in_use o ≡ some map
    → (o ≡ some map) × (map.active ≡ true)
in_use-some none map e = absurd (none-ne-some map e)
in_use-some (some x) map e =
    let (a, q) = if_some x.active x map e in (ap some q, sym (ap (λ r. r.active) q) ∙ a)

lookup_lem :
    (maps : List MapRecord) (handle : ℕ) (map : MapRecord)
    → map_lookup maps handle ≡ some map
    → (get_elem? maps (handle - 1) ≡ some map) × (map.active ≡ true)
unfolding map_lookup
lookup_lem maps handle map e =
    test_cases (handle == 0 || leb (2 ^ 63) handle || ltb map_capacity handle) e
      (λ _ q. absurd (none-ne-some map q)) (λ _ q. in_use-some (get_elem? maps (handle - 1)) map q)

-- The record of a handle is a map.
lookup-IsMap :
    (maps : List MapRecord) (handle : ℕ) (map : MapRecord)
    → All IsEntry maps
    → map_lookup maps handle ≡ some map
    → IsMap 0 map
unfolding IsEntry
lookup-IsMap maps handle map v e =
    let (g, a) = lookup_lem maps handle map e in
    elim (All-get IsEntry maps (handle - 1) map v g) [
      | inl p ↦ p.1
      | inr q ↦ absurd (false≢true (sym (ap (λ r. r.active) q) ∙ a))
    ]

put-IsCall :
    (host : MapHost) (maps : List MapRecord) (handle : ℕ) (key : Key) (value : ℕ) (map : MapRecord)
    → All IsEntry maps
    → map_lookup maps handle ≡ some map
    → map.frozen ≡ false
    → IsCall maps (store_map maps (handle - 1) (put_string_int host map key value))
unfolding IsEntry
put-IsCall host maps handle key value map v e f =
    let (g, a) = lookup_lem maps handle map e in
    let p : IsPutCall (can_grow host map && host.copies_key) map key value
        (put_string_int host map key value) =
      put_string_int_refines host map key value (lookup-IsMap maps handle map v e) in
    let w : IsEntry p.after = inl (p.same_flags.0 ∙ a, p.valid) in
    subst (λ r. IsCall maps (store_map maps (handle - 1) r)) (sym p.ends)
      (stored_map maps (handle - 1) map p.after p.ok v g (λ _ t. false≢true (sym f ∙ t)) w)

pub map_builder_put_string_int-IsCall :
    (host : MapHost) (maps : List MapRecord) (handle : ℕ) (key : Option Key) (value : ℕ)
    → All IsEntry maps
    → IsCall maps (map_builder_put_string_int host maps handle key value)
unfolding map_builder_put_string_int
map_builder_put_string_int-IsCall host maps handle none value v = unchanged maps v
map_builder_put_string_int-IsCall host maps handle (some key) value v =
    option_cases (λ r. IsCall maps r) (map_lookup maps handle) (λ _. unchanged maps v)
      (λ map e.
        if_cases (λ r. IsCall maps r) map.frozen (λ _. unchanged maps v)
          (λ f. put-IsCall host maps handle key value map v e f))

pub map_builder_finish-IsCall :
    (maps : List MapRecord) (handle : ℕ)
    → All IsEntry maps
    → IsCall maps (some (map_builder_finish maps handle))
unfolding map_builder_finish IsEntry
map_builder_finish-IsCall maps handle v =
    option_cases (λ r. IsCall maps (some r)) (map_lookup maps handle) (λ _. unchanged maps v)
      (λ map e.
        if_cases (λ r. IsCall maps (some r)) map.frozen (λ _. unchanged maps v)
          (λ f.
            let (g, a) = lookup_lem maps handle map e in
            let m : IsMap 0 map = lookup-IsMap maps handle map v e in
            let w : IsEntry (record map { frozen = true }) = inl (
              a,
              record {
                table = m.table;
                counted = m.counted;
                loaded = m.loaded;
                wide = m.wide;
                fits = m.fits;
              },
            ) in
            stored_map maps (handle - 1) map (record map { frozen = true }) true v g
              (λ _ t. false≢true (sym f ∙ t)) w))

-- A new builder is empty, or there is no memory for it.
IsNew : Option (Bool × MapRecord) → Type 0
IsNew r = (r ≡ some (true, empty_map)) ⊎ (r ≡ some (false, disposed))

new_map_lem :
    (a b c : Bool)
    → IsNew (new_map (record { admits_growth = a; grows = b; copies_key = c }) disposed)
unfolding map_resize reinsert IsNew
new_map_lem true true c = inl refl
new_map_lem true false c = inr refl
new_map_lem false b c = inr refl

free_map-some :
    (base index : ℕ) (maps : List MapRecord)
    → free_map base maps ≡ some index
    → (k : ℕ) × (m : MapRecord) × (index ≡ base + k)
      × (get_elem? maps k ≡ some m)
      × (m.active ≡ false)
unfolding free_map
free_map-some base index [] e = absurd (none-ne-some index e)
free_map-some base index (x ∷ xs) e =
    test_cases x.active e
      (λ _ q.
        let (k, m, i, g, a) = free_map-some (base + 1) index xs q in
        (suc k, m, omega (arith, i), g, a))
      (λ a q. (0, x, omega (arith, some-injective base index q), refl, a))

new-IsCall :
    (host : MapHost) (maps : List MapRecord) (index : ℕ) (m : MapRecord)
    → All IsEntry maps
    → get_elem? maps index ≡ some m
    → m.active ≡ false
    → IsCall maps (store_map maps index (new_map host m))
unfolding IsEntry IsNew
new-IsCall host maps index m v g a =
    let d : m ≡ disposed = elim (All-get IsEntry maps index m v g) [
      | inl p ↦ absurd (false≢true (sym a ∙ p.0))
      | inr p ↦ p
    ] in
    let opened : (new : MapRecord) (ok : Bool)
        → IsEntry new
        → IsCall maps (store_map maps index (some (ok, new))) =
      λ new ok w. stored_map maps index m new ok v g (λ t _. false≢true (sym a ∙ t)) w in
    subst (λ x. IsCall maps (store_map maps index (new_map host x))) (sym d)
      (elim (new_map_lem host.admits_growth host.grows host.copies_key) [
        | inl e ↦
            subst (λ r. IsCall maps (store_map maps index r)) (sym e)
              (opened empty_map true (inl (refl, empty_map-IsMap)))
        | inr e ↦
            subst (λ r. IsCall maps (store_map maps index r)) (sym e)
              (opened disposed false (inr refl))
      ])

pub map_builder_new-IsCall :
    (host : MapHost) (maps : List MapRecord)
    → All IsEntry maps
    → IsCall maps (map_builder_new host maps).0
unfolding map_builder_new
map_builder_new-IsCall host maps v =
    option_cases (λ (r : Option (Bool × List MapRecord) × ℕ). IsCall maps r.0) (free_map 0 maps)
      (λ _. unchanged maps v)
      (λ index e.
        option_cases (λ (r : Option (Bool × List MapRecord) × ℕ). IsCall maps r.0)
          (get_elem? maps index) (λ _. unchanged maps v)
          (λ m g.
            let (k, m2, i, g2, a) = free_map-some 0 index maps e in
            let x : m2 ≡ m =
              some-injective m2 m (sym g2 ∙ ap (get_elem? maps) (sym (i ∙ omega arith)) ∙ g) in
            new-IsCall host maps index m v g (ap (λ r. r.active) (sym x) ∙ a)))
