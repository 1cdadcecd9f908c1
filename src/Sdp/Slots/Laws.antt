-- ===== src/Sdp/Slots/Laws.antt =====
-- Adding and closing slots keeps the lists well formed.
use libmediasouphandler.Base.{
  String, false, none, List, [], ◌∷◌, ◌≡◌, refl, ◌∙◌, arith, ◌==◌, eq_iff, if-cases, Bool-cases,
  Option-cases, inl, inr,
}
use libmediasouphandler.Base.Text.{is_empty}
use libmediasouphandler.Sdp.Slots.{
  Slot, position, add_slot, mark_closed, close_slot, HeadOpen, Distinct, Named, WellFormed,
}

-- The mids are those that were there, without the one whose slot is taken.
pub position_add_none :
    (k mid : String) (ss : List Slot)
    → (mid == k) ≡ false
    → position k ss ≡ none
    → position k (add_slot mid ss) ≡ none
unfolding position add_slot
position_add_none k mid [] n h = ground arith
position_add_none k mid (s ∷ ss) n h = ground (arith, position_add_none k mid ss)

pub position_tail :
    (k : String) (s : Slot) (ss : List Slot)
    → position k (s ∷ ss) ≡ none
    → ((s.mid == k) ≡ false) × (position k ss ≡ none)
unfolding position
position_tail k s ss h = elim (Bool-cases (s.mid == k)) [
  | inl e ↦ ground (arith, e, h)
  | inr e ↦
      (e, elim (Option-cases (position k ss)) [ inl n ↦ n | inr (i, p) ↦ ground (arith, e, p, h) ])
]

eq_swap : (a b : String) → (a == b) ≡ false → (b == a) ≡ false
eq_swap a b h = ground (arith, eq_iff a b, eq_iff b a)

add_slot-Distinct :
    (mid : String) (ss : List Slot)
    → position mid ss ≡ none
    → Distinct ss
    → Distinct (add_slot mid ss)
unfolding position add_slot
add_slot-Distinct mid [] h d = (refl, tt)
add_slot-Distinct mid (s ∷ ss) h d =
    let (n, t) = position_tail mid s ss h in
    if-cases Distinct s.closed (λ c. (t, d.1))
      λ o.
        (position_add_none s.mid mid ss (eq_swap s.mid mid n) d.0, add_slot-Distinct mid ss t d.1)

add_slot-Named :
    (mid : String) (ss : List Slot) → is_empty mid ≡ false → Named ss → Named (add_slot mid ss)
unfolding add_slot
add_slot-Named mid [] h n = (h, tt)
add_slot-Named mid (s ∷ ss) h n =
    if-cases Named s.closed (λ c. (h, n.1)) λ o. (n.0, add_slot-Named mid ss h n.1)

add_slot-HeadOpen : (mid : String) (ss : List Slot) → HeadOpen ss → HeadOpen (add_slot mid ss)
unfolding add_slot
add_slot-HeadOpen mid [] h = refl
add_slot-HeadOpen mid (s ∷ ss) h = if-cases HeadOpen s.closed (λ c. refl) λ o. h

pub add_slot-WellFormed :
    (mid : String) (ss : List Slot)
    → is_empty mid ≡ false
    → position mid ss ≡ none
    → WellFormed ss
    → WellFormed (add_slot mid ss)
add_slot-WellFormed mid ss n h w = record {
  named = add_slot-Named mid ss n w.named;
  distinct = add_slot-Distinct mid ss h w.distinct;
  head_open = add_slot-HeadOpen mid ss w.head_open;
}

position-mark_closed :
    (k mid : String) (ss : List Slot) → position k (mark_closed mid ss) ≡ position k ss
unfolding position mark_closed
position-mark_closed k mid [] = refl
position-mark_closed k mid (s ∷ ss) = ground (arith, position-mark_closed k mid ss)

-- Closing moves no slot.
pub position-close_slot :
    (k mid : String) (ss : List Slot) → position k (close_slot mid ss) ≡ position k ss
unfolding position close_slot
position-close_slot k mid [] = refl
position-close_slot k mid (s ∷ ss) = ground (arith, position-mark_closed k mid ss)

mark_closed-Distinct : (mid : String) (ss : List Slot) → Distinct ss → Distinct (mark_closed mid ss)
unfolding mark_closed
mark_closed-Distinct mid [] d = tt
mark_closed-Distinct mid (s ∷ ss) d =
    if-cases Distinct (s.mid == mid) (λ e. d)
      λ e. (position-mark_closed s.mid mid ss ∙ d.0, mark_closed-Distinct mid ss d.1)

mark_closed-Named : (mid : String) (ss : List Slot) → Named ss → Named (mark_closed mid ss)
unfolding mark_closed
mark_closed-Named mid [] n = tt
mark_closed-Named mid (s ∷ ss) n =
    if-cases Named (s.mid == mid) (λ e. n) λ e. (n.0, mark_closed-Named mid ss n.1)

pub close_slot-WellFormed :
    (mid : String) (ss : List Slot) → WellFormed ss → WellFormed (close_slot mid ss)
unfolding close_slot
close_slot-WellFormed mid [] w = w
close_slot-WellFormed mid (s ∷ ss) w =
    if-cases WellFormed (s.mid == mid) (λ e. w)
      λ e. record {
        named = (w.named.0, mark_closed-Named mid ss w.named.1);
        distinct = (
          position-mark_closed s.mid mid ss ∙ w.distinct.0,
          mark_closed-Distinct mid ss w.distinct.1,
        );
        head_open = w.head_open;
      }
