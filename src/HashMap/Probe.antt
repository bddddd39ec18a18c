-- ===== src/HashMap/Probe.antt =====
-- The probe of `map_slot_for` of src/aivm_vm_map.c.
use native.Mathlib.Nat.{mod-lt, mod_self, mod-eq_of_lt}
use ai_vm.Common.{
  ℕ, zero, suc, ◌+◌, ◌-◌, ◌%◌, ◌<◌, ◌≡◌, ◌⊎◌, inl, inr, refl, sym, ap, ◌∙◌, subst, true, false,
  none, some, [], ◌∷◌, ltb, leb, ◌==◌, arith, Bool-cases, test_cases, &&_parts, ==_iff, ==_refl,
}
use mathlib.Core.Option.{some-injective, none-ne-some}
use mathlib.Core.Bool.{false≢true}
use ai_vm.HashMap.{Key, MapSlot, Slots, same_key, stops, probe, map_slot_for}

pub same_key-equal : (a b : Key) → same_key a b ≡ true → a ≡ b
unfolding same_key
same_key-equal [] [] h = refl
same_key-equal [] (y ∷ ys) h = absurd (false≢true h)
same_key-equal (x ∷ xs) [] h = absurd (false≢true h)
same_key-equal (x ∷ xs) (y ∷ ys) h =
    let (p, q) = &&_parts (x == y) (same_key xs ys) h in
    let e : x ≡ y = (==_iff x y).0 p in rw (e, same_key-equal xs ys q) refl

pub same_key_refl : (a : Key) → same_key a a ≡ true
unfolding same_key
same_key_refl [] = refl
same_key_refl (x ∷ xs) = rw (==_refl x, same_key_refl xs) refl

-- A probe ends at the entry of its key, or at an empty slot.
pub stops-some :
    (key : Key) (hash : ℕ) (slot : MapSlot)
    → stops key hash (some slot) ≡ true
    → (slot.hash ≡ hash) × (slot.key ≡ key)
unfolding stops
stops-some key hash slot h =
    let (p, q) = &&_parts (slot.hash == hash) (same_key slot.key key) h in
    ((==_iff slot.hash hash).0 p, same_key-equal slot.key key q)

pub stops_self : (slot : MapSlot) → stops slot.key slot.hash (some slot) ≡ true
unfolding stops
stops_self slot = rw (==_refl slot.hash, same_key_refl slot.key) refl

pub stops-none : (key : Key) (hash : ℕ) → stops key hash none ≡ true
unfolding stops
stops-none key hash = refl

-- One slot on, around the end of the table.
next_slot :
    (capacity i : ℕ)
    → i < capacity
    → ((i + 1) % capacity ≡ i + 1) × (i + 1 < capacity)
      ⊎ ((i + 1) % capacity ≡ 0) × (i + 1 ≡ capacity)
next_slot capacity i h = elim (Bool-cases (ltb (i + 1) capacity)) [
  | inl e ↦ let l : i + 1 < capacity = ground (arith, e) in inl (mod-eq_of_lt l, l)
  | inr e ↦
      let l : i + 1 ≡ capacity = ground (arith, e, h) in
      inr (ap (λ k. k % capacity) l ∙ mod_self capacity, l)
]

next_distance :
    (capacity i j distance : ℕ)
    → i < capacity
    → j < capacity
    → (i + suc distance ≡ j) ⊎ (i + suc distance ≡ j + capacity)
    → ((i + 1) % capacity + distance ≡ j) ⊎ ((i + 1) % capacity + distance ≡ j + capacity)
next_distance capacity i j distance h l e = elim (next_slot capacity i h) [
  | inl p ↦ let (q, r) = p in ground (arith, e, q, r)
  | inr p ↦ let (q, r) = p in ground (arith, e, q, r, l)
]

module _ (capacity : ℕ) (key : Key) (hash : ℕ) where
  -- The slot found is in the table, and the probe stops there.
  pub probe-stops :
      (fuel : ℕ) (slots : Slots) (i j : ℕ)
      → i < capacity
      → probe fuel slots capacity key hash i ≡ some j
      → (j < capacity) × (stops key hash (slots j) ≡ true)
  unfolding probe
  probe-stops zero slots i j h e = absurd (none-ne-some j e)
  probe-stops (suc fuel) slots i j h e =
      test_cases (stops key hash (slots i)) e
        (λ t q.
          (let m : i ≡ j = some-injective i j q in
            subst (λ k. (k < capacity) × (stops key hash (slots k) ≡ true)) m (h, t)))
        (λ _ q. probe-stops fuel slots ((i + 1) % capacity) j (mod-lt (i + 1) (omega (arith, h))) q)

  -- A change that keeps the slots passed over and the end keeps the slot found.
  pub probe_keeps :
      (fuel : ℕ) (slots slots' : Slots) (i j : ℕ)
      → ((m : ℕ) → stops key hash (slots m) ≡ false → stops key hash (slots' m) ≡ false)
      → stops key hash (slots' j) ≡ true
      → probe fuel slots capacity key hash i ≡ some j
      → probe fuel slots' capacity key hash i ≡ some j
  unfolding probe
  probe_keeps zero slots slots' i j f t e = absurd (none-ne-some j e)
  probe_keeps (suc fuel) slots slots' i j f t e =
      test_cases (stops key hash (slots i)) e
        (λ _ q.
          let m : i ≡ j = some-injective i j q in
          let t2 : stops key hash (slots' i) ≡ true =
            subst (λ k. stops key hash (slots' k) ≡ true) (sym m) t in
          rw (t2, m) refl)
        (λ u q. rw (f i u) (probe_keeps fuel slots slots' ((i + 1) % capacity) j f t q))

  -- An empty slot so many slots on is reached, or the probe has ended before it.
  pub probe_reaches :
      (fuel distance : ℕ) (slots : Slots) (i j : ℕ)
      → i < capacity
      → j < capacity
      → distance < fuel
      → (i + distance ≡ j) ⊎ (i + distance ≡ j + capacity)
      → slots j ≡ none
      → (s : ℕ) × (probe fuel slots capacity key hash i ≡ some s)
  unfolding probe
  probe_reaches zero distance slots i j h l d e n = absurd (omega (arith, d))
  probe_reaches (suc fuel) zero slots i j h l d e n =
      let m : i ≡ j = ground (arith, e, h, l) in
      let t : stops key hash (slots i) ≡ true =
        subst (λ k. stops key hash (slots k) ≡ true) (sym m)
          (ap (stops key hash) n ∙ stops-none key hash) in
      (i, rw t refl)
  probe_reaches (suc fuel) (suc distance) slots i j h l d e n =
      elim (Bool-cases (stops key hash (slots i))) [
        | inl t ↦ (i, rw t refl)
        | inr t ↦
            let e2 : ((i + 1) % capacity + distance ≡ j)
                ⊎ ((i + 1) % capacity + distance ≡ j + capacity) =
              next_distance capacity i j distance h l e in
            let (s, q) =
              probe_reaches fuel distance slots ((i + 1) % capacity) j
                (mod-lt (i + 1) (omega (arith, h))) l (omega (arith, d)) e2 n in
            (s, rw t q)
      ]

-- A table with an empty slot: the loop of `map_slot_for` ends within as many rounds as there are slots.
pub map_slot_for-some :
    (slots : Slots) (capacity : ℕ) (key : Key) (hash j : ℕ)
    → j < capacity
    → slots j ≡ none
    → (s : ℕ) × (map_slot_for slots capacity key hash ≡ some s)
      × (s < capacity)
      × (stops key hash (slots s) ≡ true)
unfolding map_slot_for
map_slot_for-some slots capacity key hash j l n =
    let i : ℕ = hash % capacity in
    let h : i < capacity = mod-lt hash (omega (arith, l)) in
    let found : (s : ℕ) × (probe capacity slots capacity key hash i ≡ some s) =
      elim (Bool-cases (leb i j)) [
        | inl p ↦
            probe_reaches capacity key hash capacity (j - i) slots i j h l (omega (arith, l))
              (ground (arith, p)) n
        | inr p ↦
            probe_reaches capacity key hash capacity (j + capacity - i) slots i j h l
              (ground (arith, p)) (ground (arith, p)) n
      ] in
    let (s, e) = found in
    let (a, b) = probe-stops capacity key hash capacity slots i s h e in (s, e, a, b)

pub map_slot_for-stops :
    (slots : Slots) (capacity : ℕ) (key : Key) (hash s : ℕ)
    → 0 < capacity
    → map_slot_for slots capacity key hash ≡ some s
    → (s < capacity) × (stops key hash (slots s) ≡ true)
unfolding map_slot_for
map_slot_for-stops slots capacity key hash s p e =
    probe-stops capacity key hash capacity slots (hash % capacity) s (mod-lt hash p) e

pub map_slot_for_keeps :
    (slots slots' : Slots) (capacity : ℕ) (key : Key) (hash j : ℕ)
    → ((m : ℕ) → stops key hash (slots m) ≡ false → stops key hash (slots' m) ≡ false)
    → stops key hash (slots' j) ≡ true
    → map_slot_for slots capacity key hash ≡ some j
    → map_slot_for slots' capacity key hash ≡ some j
unfolding map_slot_for
map_slot_for_keeps slots slots' capacity key hash j f t e =
    probe_keeps capacity key hash capacity slots slots' (hash % capacity) j f t e
