-- ===== src/HashMap/Table.antt =====
-- The hash table of src/aivm_vm_map.c: where the entries are, and an entry written to it.
use ai_vm.Common.{
  ℕ, ◌<◌, ◌≡◌, ◌≢◌, ◌⊎◌, inl, inr, refl, sym, ap, ◌∙◌, subst, true, false, some, ◌==◌, write,
  write_self, write_ne, Bool-cases, Option-cases, if_cases, ==_iff,
}
use mathlib.Core.Option.{some-injective}
use mathlib.Core.Bool.{false≢true}
use ai_vm.HashMap.{Key, MapSlot, Slots, map_hash_string, stops, map_slot_for}
use ai_vm.HashMap.Probe.{stops-some, stops_self, stops-none, map_slot_for-stops, map_slot_for_keeps}

-- Every entry has the hash of its key and stands where a probe for its key ends.
unfoldable pub IsTable : Slots → ℕ → Type 0
IsTable slots capacity =
    (j : ℕ) (e : MapSlot)
    → j < capacity
    → slots j ≡ some e
    → (e.hash ≡ map_hash_string e.key) × (map_slot_for slots capacity e.key e.hash ≡ some j)

-- The table has the key with the value.
pub record Holds (slots : Slots) (capacity : ℕ) (key : Key) (value : ℕ) : Type 0 where
  pub index : ℕ
  pub entry : MapSlot
  pub inside : index < capacity
  pub at : slots index ≡ some entry
  pub of_key : entry.key ≡ key
  pub of_value : entry.value ≡ value

-- An entry is where its key is looked for.
pub IsTable-found :
    (slots : Slots) (capacity j : ℕ) (e : MapSlot) (key : Key)
    → IsTable slots capacity
    → j < capacity
    → slots j ≡ some e
    → e.key ≡ key
    → map_slot_for slots capacity key (map_hash_string key) ≡ some j
unfolding IsTable
IsTable-found slots capacity j e key t l p q =
    let (h, m) = t j e l p in
    subst (λ k. map_slot_for slots capacity k (map_hash_string k) ≡ some j) q
      (subst (λ h. map_slot_for slots capacity e.key h ≡ some j) h m)

-- What a put does to a table.
pub record IsPut (slots slots' : Slots) (capacity : ℕ) (key : Key) (value : ℕ) : Type 0 where
  pub table : IsTable slots' capacity
  pub here : Holds slots' capacity key value
  pub there : (k : Key) (v : ℕ) → key ≢ k → Holds slots capacity k v → Holds slots' capacity k v
  pub back :
      (k : Key) (v : ℕ)
      → Holds slots' capacity k v
      → ((key ≡ k) × (value ≡ v)) ⊎ ((key ≢ k) × Holds slots capacity k v)

module _ (slots : Slots) (capacity s : ℕ) (e : MapSlot) where
  -- A write that keeps the tests that fail keeps the slots found.
  written_keeps :
      (key : Key) (hash j : ℕ)
      → (stops key hash (slots s) ≡ false → stops key hash (some e) ≡ false)
      → stops key hash (write slots s (some e) j) ≡ true
      → map_slot_for slots capacity key hash ≡ some j
      → map_slot_for (write slots s (some e)) capacity key hash ≡ some j
  written_keeps key hash j f t q =
      map_slot_for_keeps slots (write slots s (some e)) capacity key hash j
        (λ m u.
          if_cases (λ o. stops key hash o ≡ false) (s == m)
            (λ p. f (subst (λ k. stops key hash (slots k) ≡ false) (sym ((==_iff s m).0 p)) u))
            (λ p. u))
        t q

  -- A write where the probe for its key ended.
  module _ (table : IsTable slots capacity) (positive : 0 < capacity)
      (hashed : e.hash ≡ map_hash_string e.key)
      (found : map_slot_for slots capacity e.key e.hash ≡ some s) where
    replaced : (old : MapSlot) → slots s ≡ some old → (old.hash ≡ e.hash) × (old.key ≡ e.key)
    replaced old p = stops-some e.key e.hash old (
        subst (λ o. stops e.key e.hash o ≡ true) p
          (map_slot_for-stops slots capacity e.key e.hash s positive found).1)

    stops_kept :
        (key : Key) (hash : ℕ) → stops key hash (slots s) ≡ false → stops key hash (some e) ≡ false
    unfolding stops
    stops_kept key hash u = elim (Option-cases (slots s)) [
      | inl n ↦ absurd (false≢true (sym u ∙ ap (stops key hash) n ∙ stops-none key hash))
      | inr (old, p) ↦
          let (a, b) = replaced old p in
          let w : stops key hash (some old) ≡ false = sym (ap (stops key hash) p) ∙ u in
          rw (sym a, sym b) w
    ]

    written_self : write slots s (some e) s ≡ some e
    written_self = write_self slots s (some e)

    written-IsTable : IsTable (write slots s (some e)) capacity
    unfolding IsTable
    written-IsTable j e2 l p = elim (Bool-cases (s == j)) [
      | inl q ↦
          let m : s ≡ j = (==_iff s j).0 q in
          let n : e ≡ e2 =
            some-injective e e2 (sym written_self ∙ ap (write slots s (some e)) m ∙ p) in
          subst
            (λ e2.
              (e2.hash ≡ map_hash_string e2.key)
              × (map_slot_for (write slots s (some e)) capacity e2.key e2.hash ≡ some j))
            n
            (
              hashed,
              written_keeps e.key e.hash j (stops_kept e.key e.hash)
                  (ap (stops e.key e.hash) (p ∙ ap some (sym n)) ∙ stops_self e)
                  (found ∙ ap some m),
            )
      | inr q ↦
          let r : write slots s (some e) j ≡ slots j =
            write_ne slots s j (some e) (λ m. absurd (false≢true (sym q ∙ (==_iff s j).1 m))) in
          let (h, k) = table j e2 l (sym r ∙ p) in
          (
            h,
            written_keeps e2.key e2.hash j (stops_kept e2.key e2.hash)
                (ap (stops e2.key e2.hash) p ∙ stops_self e2) k,
          )
    ]

    not_here : (k : Key) (v : ℕ) (h : Holds slots capacity k v) → e.key ≢ k → s ≢ h.index
    not_here k v h n m = let (a, b) = replaced h.entry (ap slots m ∙ h.at) in n (sym b ∙ h.of_key)

    written_there :
        (k : Key) (v : ℕ)
        → e.key ≢ k
        → Holds slots capacity k v
        → Holds (write slots s (some e)) capacity k v
    written_there k v n h = record {
      index = h.index;
      entry = h.entry;
      inside = h.inside;
      at = write_ne slots s h.index (some e) (not_here k v h n) ∙ h.at;
      of_key = h.of_key;
      of_value = h.of_value;
    }

    written_back :
        (k : Key) (v : ℕ)
        → Holds (write slots s (some e)) capacity k v
        → ((e.key ≡ k) × (e.value ≡ v)) ⊎ ((e.key ≢ k) × Holds slots capacity k v)
    written_back k v h = elim (Bool-cases (s == h.index)) [
      | inl q ↦
          let m : s ≡ h.index = (==_iff s h.index).0 q in
          let n : e ≡ h.entry =
            some-injective e h.entry (sym written_self ∙ ap (write slots s (some e)) m ∙ h.at) in
          inl (ap (λ x. x.key) n ∙ h.of_key, ap (λ x. x.value) n ∙ h.of_value)
      | inr q ↦
          let far : s ≢ h.index = λ m. absurd (false≢true (sym q ∙ (==_iff s h.index).1 m)) in
          let at : slots h.index ≡ some h.entry =
            sym (write_ne slots s h.index (some e) far) ∙ h.at in
          let other : e.key ≢ k = λ p.
            (let x : map_slot_for slots capacity e.key (map_hash_string e.key) ≡ some h.index =
                IsTable-found slots capacity h.index h.entry e.key table h.inside at
                  (h.of_key ∙ sym p) in
              let y : map_slot_for slots capacity e.key (map_hash_string e.key) ≡ some s =
                subst (λ c. map_slot_for slots capacity e.key c ≡ some s) hashed found in
              far (some-injective s h.index (sym y ∙ x))) in
          inr (
            other,
            record {
              index = h.index;
              entry = h.entry;
              inside = h.inside;
              at = at;
              of_key = h.of_key;
              of_value = h.of_value;
            },
          )
    ]

    pub written-IsPut : IsPut slots (write slots s (some e)) capacity e.key e.value
    written-IsPut = record {
      table = written-IsTable;
      here = record {
        index = s;
        entry = e;
        inside = (map_slot_for-stops slots capacity e.key e.hash s positive found).0;
        at = written_self;
        of_key = refl;
        of_value = refl;
      };
      there = written_there;
      back = written_back;
    }
