-- ===== src/Sdp/Slots/Replace.antt =====
-- What the abstract operations do at an index: the slot that is reused or closed.
use libmediasouphandler.Base.{
  ℕ, zero, suc, String, true, false, none, some, List, [], ◌∷◌, ◌++◌, ◌≡◌, refl, sym, ◌∙◌, ap,
  arith, ◌==◌, eq_iff, Bool-cases, Option-cases, inl, inr, if◌then◌else◌,
}
use libmediasouphandler.Sdp.RemoteSdp.Store.{element_at, replace_at}
use libmediasouphandler.Sdp.Slots.{
  Slot, opened, position, reusable, add_slot, mark_closed, close_slot, Distinct, head_mid,
}

-- With no slot to reuse, the new one comes last.
pub add_last :
    (mid : String) (ss : List Slot) → reusable ss ≡ none → add_slot mid ss ≡ ss ++ (opened mid ∷ [])
unfolding add_slot reusable
add_last mid [] h = refl
add_last mid (s ∷ ss) h = ground (arith, add_last mid ss)

pub position-zero :
    (k : String) (s : Slot) (ss : List Slot) → position k (s ∷ ss) ≡ some 0 → s.mid ≡ k
unfolding position
position-zero k s ss h = elim (Option-cases (position k ss)) [
  | inl n ↦ ground (arith, eq_iff s.mid k)
  | inr (i, p) ↦ ground (arith, eq_iff s.mid k)
]

pub position-suc :
    (k : String) (s : Slot) (ss : List Slot) (i : ℕ)
    → position k (s ∷ ss) ≡ some (suc i)
    → ((s.mid == k) ≡ false) × (position k ss ≡ some i)
unfolding position
position-suc k s ss i h = elim (Option-cases (position k ss)) [
  | inl n ↦ ground arith
  | inr (j, p) ↦ ground arith
]

-- What a position is: the slot there has the mid.
pub position-element_at :
    (k : String) (ss : List Slot) (i : ℕ)
    → position k ss ≡ some i
    → (s : Slot) × (element_at i ss ≡ some s) × (s.mid ≡ k)
unfolding position element_at
position-element_at k [] i h = cc
position-element_at k (s ∷ ss) zero h = (s, refl, position-zero k s ss h)
position-element_at k (s ∷ ss) (suc i) h = position-element_at k ss i (position-suc k s ss i h).1

-- Distinct mids: a mid that has a position in the tail is not the head's.
other_mid :
    (s : Slot) (ss : List Slot) (k : String) (i : ℕ)
    → position s.mid ss ≡ none
    → position k ss ≡ some i
    → (s.mid == k) ≡ false
other_mid s ss k i n p = ground (arith, eq_iff s.mid k)

-- Otherwise the first closed slot is replaced, at its mid's position.
pub add_at :
    (mid old : String) (ss : List Slot)
    → reusable ss ≡ some old
    → Distinct ss
    → (i : ℕ) × (position old ss ≡ some i) × (add_slot mid ss ≡ replace_at i (opened mid) ss)
unfolding add_slot reusable position replace_at
add_at mid old [] h d = cc
add_at mid old (s ∷ ss) h d = elim (Bool-cases s.closed) [
  | inl e ↦ (0, ground (arith, eq_iff s.mid old), ground arith)
  | inr e ↦
      let (i, p, q) = add_at mid old ss (ground arith) d.1 in
      (suc i, ground (arith, p, other_mid s ss old i d.0 p), ground (arith, q))
]

some_injective : {a b : Slot} → some a ≡ some b → a ≡ b
some_injective h = cc

mark_at :
    (mid : String) (ss : List Slot) (i : ℕ)
    → position mid ss ≡ some i
    → mark_closed mid ss ≡ replace_at i (record { mid = mid; closed = true }) ss
unfolding mark_closed position replace_at
mark_at mid [] i h = cc
mark_at mid (s ∷ ss) zero h = ground (arith, position-zero mid s ss h, eq_iff s.mid mid)
mark_at mid (s ∷ ss) (suc i) h =
    let (e, p) = position-suc mid s ss i h in ground (arith, e, mark_at mid ss i p)

-- Closing the slot at a position puts a slot there: the first slot itself, any other one closed.
pub close_slot_at :
    (mid : String) (ss : List Slot) (i : ℕ) (s : Slot)
    → position mid ss ≡ some i
    → element_at i ss ≡ some s
    → close_slot mid ss
      ≡ replace_at i
          (record { mid = s.mid; closed = if mid == head_mid ss then s.closed else true })
          ss
unfolding position element_at replace_at close_slot
close_slot_at mid [] i s p e = cc
close_slot_at mid (t ∷ ss) zero s p e =
    let q = position-zero mid t ss p in
    let u = some_injective e in ground (arith, q, u, eq_iff t.mid mid, eq_iff mid t.mid)
close_slot_at mid (t ∷ ss) (suc i) s p e =
    let (n, u) = position-suc mid t ss i p in
    let (s', se, sm) = position-element_at mid ss i u in
    ground (
      arith,
      n,
      mark_at mid ss i u,
      some_injective (sym se ∙ e),
      sm,
      eq_iff t.mid mid,
      eq_iff mid t.mid,
    )

pub replace_same :
    (i : ℕ) (ss : List Slot) (s : Slot) → element_at i ss ≡ some s → replace_at i s ss ≡ ss
unfolding element_at replace_at
replace_same i [] s h = refl
replace_same zero (t ∷ ss) s h = ap (λ x. x ∷ ss) (sym (some_injective h))
replace_same (suc i) (t ∷ ss) s h = ap (λ xs. t ∷ xs) (replace_same i ss s h)
