-- ===== src/HashMap/Resize.antt =====
-- The growth of a table of src/aivm_vm_map.c (`map_resize`).
use ai_vm.Common.{
  ℕ, zero, suc, ◌+◌, ◌≤◌, ◌<◌, ◌≡◌, ◌≢◌, ◌⊎◌, inl, inr, refl, sym, ap, ◌∙◌, subst, true, Option,
  none, some, ◌==◌, write, write_self, write_ne, arith, Bool-cases, Option-cases, ==_iff,
}
use mathlib.Core.Option.{some-injective, none-ne-some}
use mathlib.Core.Bool.{false≢true}
use ai_vm.HashMap.{
  Key, MapSlot, Slots, map_hash_string, stops, map_slot_for, insert_entry, reinsert,
}
use ai_vm.HashMap.Probe.{stops-some, map_slot_for-some}
use ai_vm.HashMap.Table.{IsTable, Holds, IsTable-found, IsPut, written-IsPut}

-- The occupied slots below `n`.
abbrev pub is_occupied : Option MapSlot → ℕ
is_occupied none = 0
is_occupied (some e) = 1

abbrev pub occupied : Slots → ℕ → ℕ
occupied slots zero = 0
occupied slots (suc n) = occupied slots n + is_occupied (slots n)

occupied-write_ge :
    (slots : Slots) (s n : ℕ) (o : Option MapSlot)
    → n ≤ s
    → occupied (write slots s o) n ≡ occupied slots n
occupied-write_ge slots s zero o h = refl
occupied-write_ge slots s (suc n) o h =
    let e : write slots s o n ≡ slots n =
      write_ne slots s n o (λ m. absurd (omega (arith, h, m))) in
    rw (e, occupied-write_ge slots s n o (omega (arith, h))) refl

-- The slot written to is counted as before, but for what is written.
pub occupied-write :
    (slots : Slots) (s n : ℕ) (e : MapSlot)
    → s < n
    → occupied (write slots s (some e)) n + is_occupied (slots s) ≡ occupied slots n + 1
occupied-write slots s zero e h = absurd (omega (arith, h))
occupied-write slots s (suc n) e h = elim (Bool-cases (s == n)) [
  | inl q ↦
      let m : s ≡ n = (==_iff s n).0 q in
      let a : occupied (write slots s (some e)) n ≡ occupied slots n =
        occupied-write_ge slots s n (some e) (omega (arith, m)) in
      let b : write slots s (some e) n ≡ some e =
        ap (write slots s (some e)) (sym m) ∙ write_self slots s (some e) in
      let c : is_occupied (slots s) ≡ is_occupied (slots n) = ap (λ k. is_occupied (slots k)) m in
      let d : is_occupied (write slots s (some e) n) ≡ 1 = ap is_occupied b in
      omega (arith, a, c, d)
  | inr q ↦
      let far : s ≢ n = λ m. absurd (false≢true (sym q ∙ (==_iff s n).1 m)) in
      let d : is_occupied (write slots s (some e) n) ≡ is_occupied (slots n) =
        ap is_occupied (write_ne slots s n (some e) far) in
      let ih : occupied (write slots s (some e)) n + is_occupied (slots s) ≡ occupied slots n + 1 =
        occupied-write slots s n e (ground (arith, h, far)) in
      omega (arith, d, ih)
]

-- Fewer occupied slots than slots: one is empty.
pub some_empty_slot :
    (slots : Slots) (n : ℕ) → occupied slots n < n → (j : ℕ) × (j < n) × (slots j ≡ none)
some_empty_slot slots zero h = absurd (omega (arith, h))
some_empty_slot slots (suc n) h = elim (Option-cases (slots n)) [
  | inl e ↦ (n, omega arith, e)
  | inr (x, e) ↦
      let d : is_occupied (slots n) ≡ 1 = ap is_occupied e in
      let (j, l, q) = some_empty_slot slots n (omega (arith, h, d)) in (j, omega (arith, l), q)
]

pub occupied_empty : (n : ℕ) → occupied (λ _. none) n ≡ 0
occupied_empty zero = refl
occupied_empty (suc n) = omega (arith, occupied_empty n)

pub occupied_le : (slots : Slots) (n m : ℕ) → n ≤ m → occupied slots n ≤ occupied slots m
occupied_le slots n zero h = let e : n ≡ 0 = omega (arith, h) in rw e (omega arith)
occupied_le slots n (suc m) h = elim (Bool-cases (n == suc m)) [
  | inl q ↦ rw ((==_iff n (suc m)).0 q) (omega arith)
  | inr q ↦ let l : n ≤ m = ground (arith, q, h) in omega (arith, occupied_le slots n m l)
]

-- What the loop has made of the slots below `n`.
pub record IsRehashed (old : Slots) (capacity n : ℕ) (new : Slots) : Type 0 where
  pub table : IsTable new capacity
  pub counted : occupied new capacity ≡ occupied old n
  pub into : (k : Key) (v : ℕ) → Holds old n k v → Holds new capacity k v
  pub back : (k : Key) (v : ℕ) → Holds new capacity k v → Holds old n k v

Holds-weaken :
    (slots : Slots) (n : ℕ) (k : Key) (v : ℕ) → Holds slots n k v → Holds slots (suc n) k v
Holds-weaken slots n k v h = record {
  index = h.index;
  entry = h.entry;
  inside = (let l : h.index < n = h.inside in omega (arith, l));
  at = h.at;
  of_key = h.of_key;
  of_value = h.of_value;
}

-- A holder below `suc n` is below `n`, or is `n`.
Holds-below :
    (slots : Slots) (n : ℕ) (k : Key) (v : ℕ) (h : Holds slots (suc n) k v)
    → (h.index ≡ n) ⊎ Holds slots n k v
Holds-below slots n k v h = elim (Bool-cases (h.index == n)) [
  | inl q ↦ inl ((==_iff h.index n).0 q)
  | inr q ↦ inr (record {
    index = h.index;
    entry = h.entry;
    inside = (let l : h.index < suc n = h.inside in ground (arith, l, q));
    at = h.at;
    of_key = h.of_key;
    of_value = h.of_value;
  })
]

insert_entry-some :
    (capacity : ℕ) (new : Slots) (e : MapSlot) (s : ℕ)
    → map_slot_for new capacity e.key e.hash ≡ some s
    → insert_entry capacity new (some e) ≡ some (write new s (some e))
unfolding insert_entry
insert_entry-some capacity new e s f = rw (insert_entry, f) refl

module _ (old : Slots) (old_capacity capacity : ℕ) (table : IsTable old old_capacity) where
  entry_at :
      (n : ℕ) (e : MapSlot)
      → n < old_capacity
      → old n ≡ some e
      → (e.hash ≡ map_hash_string e.key) × (map_slot_for old old_capacity e.key e.hash ≡ some n)
  unfolding IsTable
  entry_at = table

  -- An entry behind those already inserted has a key of its own.
  new_key :
      (n : ℕ) (e : MapSlot) (v : ℕ) → n < old_capacity → old n ≡ some e → Holds old n e.key v → ⊥
  new_key n e v l p h =
      let i : h.index < n = h.inside in
      let x : map_slot_for old old_capacity e.key (map_hash_string e.key) ≡ some h.index =
        IsTable-found old old_capacity h.index h.entry e.key table (omega (arith, l, i)) h.at
          h.of_key in
      let y : map_slot_for old old_capacity e.key (map_hash_string e.key) ≡ some n =
        IsTable-found old old_capacity n e e.key table l p refl in
      let m : h.index ≡ n = some-injective h.index n (sym x ∙ y) in omega (arith, m, i)

  rehash_none :
      (n : ℕ) (new : Slots)
      → old n ≡ none
      → IsRehashed old capacity n new
      → IsRehashed old capacity (suc n) new
  rehash_none n new p w = record {
    table = w.table;
    counted =
        (let c : occupied new capacity ≡ occupied old n = w.counted in
          let d : is_occupied (old n) ≡ 0 = ap is_occupied p in omega (arith, c, d));
    into = λ k v h. elim (Holds-below old n k v h) [
      | inl m ↦ absurd (none-ne-some h.entry (sym p ∙ ap old (sym m) ∙ h.at))
      | inr b ↦ w.into k v b
    ];
    back = λ k v h. Holds-weaken old n k v (w.back k v h);
  }

  rehash_some :
      (n s : ℕ) (e : MapSlot) (new : Slots)
      → n < old_capacity
      → old n ≡ some e
      → new s ≡ none
      → s < capacity
      → IsRehashed old capacity n new
      → IsPut new (write new s (some e)) capacity e.key e.value
      → IsRehashed old capacity (suc n) (write new s (some e))
  rehash_some n s e new l p q m w u = record {
    table = u.table;
    counted =
        (let c : occupied new capacity ≡ occupied old n = w.counted in
          let d : is_occupied (old n) ≡ 1 = ap is_occupied p in
          let z : is_occupied (new s) ≡ 0 = ap is_occupied q in
          omega (arith, c, d, z, occupied-write new s capacity e m));
    into = λ k v h. elim (Holds-below old n k v h) [
      | inl i ↦
          let x : h.entry ≡ e = some-injective h.entry e (sym h.at ∙ ap old i ∙ p) in
          let y : e.key ≡ k = ap (λ x. x.key) (sym x) ∙ h.of_key in
          let z : e.value ≡ v = ap (λ x. x.value) (sym x) ∙ h.of_value in
          subst (λ k. Holds (write new s (some e)) capacity k v) y
            (subst (λ v. Holds (write new s (some e)) capacity e.key v) z u.here)
      | inr b ↦
          u.there k v (λ x. new_key n e v l p (subst (λ k. Holds old n k v) (sym x) b))
            (w.into k v b)
    ];
    back = λ k v h. elim (u.back k v h) [
      | inl c ↦
          let (x, y) = c in
          record { index = n; entry = e; inside = omega arith; at = p; of_key = x; of_value = y }
      | inr c ↦ Holds-weaken old n k v (w.back k v c.1)
    ];
  }

  rehash_empty : IsRehashed old capacity zero (λ _. none)
  unfolding IsTable
  rehash_empty = record {
    table = λ j e l p. absurd (none-ne-some e p);
    counted = occupied_empty capacity;
    into = λ k v h. (let l : h.index < 0 = h.inside in absurd (omega (arith, l)));
    back = λ k v h. absurd (none-ne-some h.entry h.at);
  }

  -- The slot that is found for a new key is empty.
  free_slot :
      (n s : ℕ) (e : MapSlot) (new : Slots)
      → n < old_capacity
      → old n ≡ some e
      → IsRehashed old capacity n new
      → s < capacity
      → stops e.key e.hash (new s) ≡ true
      → new s ≡ none
  free_slot n s e new l p w m t = elim (Option-cases (new s)) [
    | inl q ↦ q
    | inr (y, q) ↦
        let (a, b) = stops-some e.key e.hash y (ap (stops e.key e.hash) (sym q) ∙ t) in
        let h : Holds new capacity e.key y.value = record {
          index = s;
          entry = y;
          inside = m;
          at = q;
          of_key = b;
          of_value = refl;
        } in
        absurd (new_key n e y.value l p (w.back e.key y.value h))
  ]

  -- One slot of the loop.
  insert_entry-IsRehashed :
      (n : ℕ) (new : Slots)
      → n < old_capacity
      → occupied old old_capacity < capacity
      → IsRehashed old capacity n new
      → (new' : Slots) × (insert_entry capacity new (old n) ≡ some new')
        × IsRehashed old capacity (suc n) new'
  unfolding insert_entry
  insert_entry-IsRehashed n new l h w = elim (Option-cases (old n)) [
    | inl p ↦ (new, ap (insert_entry capacity new) p, rehash_none n new p w)
    | inr (x, p) ↦
        let c : occupied new capacity ≡ occupied old n = w.counted in
        let (j, lj, q) =
          some_empty_slot new capacity
            (omega (arith, c, h, occupied_le old n old_capacity (omega (arith, l)))) in
        let (s, f, ls, t) = map_slot_for-some new capacity x.key x.hash j lj q in
        let r : new s ≡ none = free_slot n s x new l p w ls t in
        let hashed : x.hash ≡ map_hash_string x.key = (entry_at n x l p).0 in
        (
          write new s (some x),
          ap (insert_entry capacity new) p ∙ insert_entry-some capacity new x s f,
          rehash_some n s x new l p r ls w
              (written-IsPut new capacity s x w.table (omega (arith, ls)) hashed f),
        )
  ]

  -- The loop reaches its end, and the new table holds what the old one held.
  pub reinsert-IsRehashed :
      (n : ℕ)
      → n ≤ old_capacity
      → occupied old old_capacity < capacity
      → (new : Slots) × (reinsert old capacity n ≡ some new) × IsRehashed old capacity n new
  unfolding reinsert
  reinsert-IsRehashed zero l h = (λ _. none, refl, rehash_empty)
  reinsert-IsRehashed (suc n) l h =
      let (new, e, w) = reinsert-IsRehashed n (omega (arith, l)) h in
      let (new', e', w') = insert_entry-IsRehashed n new (omega (arith, l)) h w in
      (new', rw e e', w')
