-- ===== src/Blob/Contents.antt =====
-- The slots of the table of src/aivm_vm_blob.c: how many are in use, for how many bytes, and what is
-- found by a handle, before and after a slot is filled or cleared.
use ai_vm.Common.{
  ℕ, suc, ◌+◌, ◌≤◌, ◌<◌, ◌≡◌, ◌⊎◌, inl, inr, refl, ap, ◌∙◌, subst, true, false, ◌&&◌, none, some,
  List, [], ◌∷◌, ◌==◌, if◌then◌else◌, length, arith, Bool-cases, Option-cases, test_cases, if_cases,
  ==_iff, &&_parts,
}
use mathlib.Core.Bool.{false≢true}
use mathlib.Core.Option.{some-injective, none-ne-some}
use ai_vm.Blob.{BlobRecord, cleared, find_record, clear_record, fill_slot}

-- The slots in use, and their bytes.
abbrev pub active_count : List BlobRecord → ℕ
active_count [] = 0
active_count (b ∷ bs) = (if b.active then 1 else 0) + active_count bs

abbrev pub active_bytes : List BlobRecord → ℕ
active_bytes [] = 0
active_bytes (b ∷ bs) = (if b.active then length b.data_bytes else 0) + active_bytes bs

-- The handles in use are positive, below the next one, and no two slots have the same.
abbrev pub IsTable : ℕ → List BlobRecord → Type 0
IsTable next [] = Unit
IsTable next (b ∷ bs) =
    (b.active ≡ true → (0 < b.handle) × (b.handle < next) × (find_record bs b.handle ≡ none))
    × IsTable next bs

pub find_record-IsTable :
    (next h : ℕ) (bs : List BlobRecord)
    → IsTable next bs
    → (h ≡ 0) ⊎ (next ≤ h)
    → find_record bs h ≡ none
unfolding find_record
find_record-IsTable next h [] v l = refl
find_record-IsTable next h (b ∷ bs) (p, v) l =
    let ih : find_record bs h ≡ none = find_record-IsTable next h bs v l in
    elim (Bool-cases b.active) [
      | inl e ↦ let (q, r, s) = p e in ground (arith, e, ih, q, r, l)
      | inr e ↦ ground (arith, e, ih)
    ]

IsTable-weaken : (next : ℕ) (bs : List BlobRecord) → IsTable next bs → IsTable (next + 1) bs
IsTable-weaken next [] v = tt
IsTable-weaken next (b ∷ bs) (p, v) =
    ((λ t. (let (x, y, d) = p t in (x, omega (arith, y), d))), IsTable-weaken next bs v)

-- A slot filled.
pub record IsFilled (s : BlobRecord) (bs bs' : List BlobRecord) : Type 0 where
  pub same_length : length bs' ≡ length bs
  pub one_more : active_count bs' ≡ active_count bs + 1
  pub more_bytes : active_bytes bs' ≡ active_bytes bs + length s.data_bytes
  pub found : (h : ℕ) → find_record bs' h ≡ (if s.handle == h then some s else find_record bs h)

-- Behind a slot in use, and in one that is free.
IsFilled-behind :
    (s b : BlobRecord) (bs bs' : List BlobRecord)
    → b.active ≡ true
    → find_record (b ∷ bs) s.handle ≡ none
    → IsFilled s bs bs'
    → IsFilled s (b ∷ bs) (b ∷ bs')
unfolding find_record
IsFilled-behind s b bs bs' t f w = record {
  same_length = ap suc w.same_length;
  one_more = omega (arith, w.one_more);
  more_bytes = omega (arith, w.more_bytes);
  found = λ h.
      (let q : find_record bs' h ≡ (if s.handle == h then some s else find_record bs h) =
          w.found h in
        ground (arith, q, t, f));
}

IsFilled-here :
    (s b : BlobRecord) (bs : List BlobRecord)
    → s.active ≡ true
    → b.active ≡ false
    → IsFilled s (b ∷ bs) (s ∷ bs)
unfolding find_record
IsFilled-here s b bs a t = record {
  same_length = refl;
  one_more = ground (arith, a, t);
  more_bytes = ground (arith, a, t);
  found = λ h. ground (arith, a, t);
}

pub fill_slot-IsFilled :
    (s : BlobRecord) (bs bs' : List BlobRecord)
    → s.active ≡ true
    → find_record bs s.handle ≡ none
    → fill_slot s bs ≡ some bs'
    → IsFilled s bs bs'
unfolding fill_slot find_record
fill_slot-IsFilled s [] bs' a f e = absurd (none-ne-some bs' e)
fill_slot-IsFilled s (b ∷ bs) bs' a f e =
    test_cases b.active e
      (λ t q. elim (Option-cases (fill_slot s bs)) [
        | inl n ↦ absurd (ground (arith, n, q))
        | inr (bs2, n) ↦
            let g : find_record bs s.handle ≡ none = ground (arith, f) in
            let p : b ∷ bs2 ≡ bs' = ground (arith, n, q) in
            subst (λ l. IsFilled s (b ∷ bs) l) p
              (IsFilled-behind s b bs bs2 t f (fill_slot-IsFilled s bs bs2 a g n))
      ])
      (λ t q.
        subst (λ l. IsFilled s (b ∷ bs) l) (some-injective (s ∷ bs) bs' q)
          (IsFilled-here s b bs a t))

pub fill_slot-none :
    (s : BlobRecord) (bs : List BlobRecord) → fill_slot s bs ≡ none → active_count bs ≡ length bs
unfolding fill_slot
fill_slot-none s [] e = refl
fill_slot-none s (b ∷ bs) e =
    test_cases b.active e
      (λ t q.
        let n : fill_slot s bs ≡ none = ground (arith, q) in
        (let ih : active_count bs ≡ length bs = fill_slot-none s bs n in ground (arith, ih, t)))
      (λ t q. absurd (ground (arith, q)))

pub fill_slot-IsTable :
    (next : ℕ) (s : BlobRecord) (bs bs' : List BlobRecord)
    → IsTable next bs
    → s.active ≡ true
    → 0 < next
    → s.handle ≡ next
    → fill_slot s bs ≡ some bs'
    → IsTable (next + 1) bs'
unfolding fill_slot find_record
fill_slot-IsTable next s [] bs' v a z n e = absurd (none-ne-some bs' e)
fill_slot-IsTable next s (b ∷ bs) bs' (p, v) a z n e =
    test_cases b.active e
      (λ t q. elim (Option-cases (fill_slot s bs)) [
        | inl m ↦ absurd (ground (arith, m, q))
        | inr (bs2, m) ↦
            let f : find_record bs s.handle ≡ none =
              find_record-IsTable next s.handle bs v (inr (omega (arith, n))) in
            let w : IsFilled s bs bs2 = fill_slot-IsFilled s bs bs2 a f m in
            let g : b ∷ bs2 ≡ bs' = ground (arith, m, q) in
            subst (λ l. IsTable (next + 1) l) g
              (
                (λ t2.
                    (let (x, y, d) = p t2 in
                      (x, omega (arith, y), w.found b.handle ∙ ground (arith, y, n, d)))),
                fill_slot-IsTable next s bs bs2 v a z n m,
              )
      ])
      (λ t q.
        subst (λ l. IsTable (next + 1) l) (some-injective (s ∷ bs) bs' q)
          (
            (λ _. (
              omega (arith, z, n),
              omega (arith, n),
              find_record-IsTable next s.handle bs v (inr (omega (arith, n))),
            )),
            IsTable-weaken next bs v,
          ))

-- A record cleared.
pub record IsCleared (next h : ℕ) (r : BlobRecord) (bs bs' : List BlobRecord) : Type 0 where
  pub same_length : length bs' ≡ length bs
  pub one_less : active_count bs' + 1 ≡ active_count bs
  pub less_bytes : active_bytes bs' + length r.data_bytes ≡ active_bytes bs
  pub found : (k : ℕ) → find_record bs' k ≡ (if h == k then none else find_record bs k)
  pub table : IsTable next bs'

-- The first record, and one behind it.
IsCleared-here :
    (next h : ℕ) (b : BlobRecord) (bs : List BlobRecord)
    → IsTable next (b ∷ bs)
    → b.active ≡ true
    → (b.handle == h) ≡ true
    → IsCleared next h b (b ∷ bs) (cleared ∷ bs)
unfolding find_record
IsCleared-here next h b bs (p, v) t q =
    let (x, y, d) = p t in
    let e : b.handle ≡ h = ground (arith, q) in
    let d2 : find_record bs h ≡ none = subst (λ k. find_record bs k ≡ none) e d in
    record {
      same_length = refl;
      one_less = ground (arith, t);
      less_bytes = ground (arith, t);
      found = λ k. elim (Bool-cases (h == k)) [
        | inl m ↦
            let n : find_record bs k ≡ none =
              subst (λ k. find_record bs k ≡ none) ((==_iff h k).0 m) d2 in
            ground (arith, n, m)
        | inr m ↦ ground (arith, m, e)
      ];
      table = ((λ f. absurd (false≢true f)), v);
    }

IsCleared-behind :
    (next h : ℕ) (r b : BlobRecord) (bs bs' : List BlobRecord)
    → IsTable next (b ∷ bs)
    → (b.active && b.handle == h) ≡ false
    → IsCleared next h r bs bs'
    → IsCleared next h r (b ∷ bs) (b ∷ bs')
unfolding find_record
IsCleared-behind next h r b bs bs' (p, v) t w = record {
  same_length = ap suc w.same_length;
  one_less = omega (arith, w.one_less);
  less_bytes = omega (arith, w.less_bytes);
  found = λ k.
      (let q : find_record bs' k ≡ (if h == k then none else find_record bs k) = w.found k in
        ground (arith, q, t));
  table = (
    (λ a.
        (let (x, y, d) = p a in
          let q : find_record bs' b.handle
              ≡ (if h == b.handle then none else find_record bs b.handle) =
            w.found b.handle in
          (x, y, ground (arith, q, d)))),
    w.table,
  );
}

pub clear_record-IsCleared :
    (next h : ℕ) (r : BlobRecord) (bs : List BlobRecord)
    → IsTable next bs
    → find_record bs h ≡ some r
    → IsCleared next h r bs (clear_record bs h)
unfolding clear_record find_record
clear_record-IsCleared next h r [] v e = absurd (none-ne-some r e)
clear_record-IsCleared next h r (b ∷ bs) v e =
    if_cases (λ l. IsCleared next h r (b ∷ bs) l) (b.active && b.handle == h)
      (λ t.
        let (ta, th) = &&_parts b.active (b.handle == h) t in
        let g : b ≡ r = ground (arith, t, e) in
        subst (λ r. IsCleared next h r (b ∷ bs) (cleared ∷ bs)) g
          (IsCleared-here next h b bs v ta th))
      (λ t.
        let f : find_record bs h ≡ some r = ground (arith, t, e) in
        IsCleared-behind next h r b bs (clear_record bs h) v t
          (clear_record-IsCleared next h r bs v.1 f))
