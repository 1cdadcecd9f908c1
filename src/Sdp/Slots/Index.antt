-- ===== src/Sdp/Slots/Index.antt =====
-- The positions of mids, and the first mid, after a slot is added or reused.
use libmediasouphandler.Base.{
  ℕ, zero, suc, String, none, some, List, [], ◌∷◌, ◌++◌, ◌≡◌, refl, arith, ◌==◌, eq_iff,
  Option-cases, inl, inr, if◌then◌else◌,
}
use libmediasouphandler.Base.Text.{is_empty}
use libmediasouphandler.Json.{length}
use libmediasouphandler.Sdp.RemoteSdp.Store.{replace_at}
use libmediasouphandler.Sdp.Slots.{
  Slot, opened, position, reusable, add_slot, close_slot, HeadOpen, Distinct, Named, head_mid,
}
use libmediasouphandler.Sdp.Slots.Replace.{position-zero, position-suc}
use libmediasouphandler.Sdp.Slots.Laws.{position_tail}

-- A new mid at the end comes after all others.
pub position_last :
    (k mid : String) (ss : List Slot)
    → position mid ss ≡ none
    → position k (ss ++ (opened mid ∷ [])) ≡ (if mid == k then some (length ss) else position k ss)
unfolding position
position_last k mid [] h = refl
position_last k mid (s ∷ ss) h = elim (Option-cases (position mid ss)) [
  | inl n ↦ ground (arith, position_last k mid ss n, eq_iff s.mid k, eq_iff mid k, eq_iff s.mid mid)
  | inr (i, p) ↦ ground (arith, p)
]

-- A new mid in the place of an old one.
pub position-replace_at :
    (k mid old : String) (ss : List Slot) (i : ℕ)
    → Distinct ss
    → position old ss ≡ some i
    → position mid ss ≡ none
    → position k (replace_at i (opened mid) ss)
      ≡ (if mid == k then some i else if old == k then none else position k ss)
unfolding position replace_at
position-replace_at k mid old [] i d p n = cc
position-replace_at k mid old (s ∷ ss) zero d p n =
    ground (arith, position-zero old s ss p, d.0, eq_iff old k)
position-replace_at k mid old (s ∷ ss) (suc i) d p n =
    let (q, t) = position_tail mid s ss n in
    let (e, u) = position-suc old s ss i p in
    ground (
      arith,
      q,
      e,
      position-replace_at k mid old ss i d.1 u t,
      eq_iff s.mid k,
      eq_iff mid k,
      eq_iff old k,
      eq_iff s.mid mid,
      eq_iff s.mid old,
    )

pub head_mid_add :
    (mid : String) (ss : List Slot)
    → Named ss
    → HeadOpen ss
    → head_mid (add_slot mid ss) ≡ (if is_empty (head_mid ss) then mid else head_mid ss)
unfolding add_slot
head_mid_add mid [] n h = refl
head_mid_add mid (s ∷ ss) n h = rw (h, n.0) refl

-- The first slot is open, so that another one is reused.
pub head_mid_reuse :
    (mid old : String) (ss : List Slot)
    → HeadOpen ss
    → reusable ss ≡ some old
    → head_mid (add_slot mid ss) ≡ head_mid ss
unfolding add_slot reusable
head_mid_reuse mid old [] h o = cc
head_mid_reuse mid old (s ∷ ss) h o = rw h refl

pub head_mid_close : (mid : String) (ss : List Slot) → head_mid (close_slot mid ss) ≡ head_mid ss
unfolding close_slot
head_mid_close mid [] = refl
head_mid_close mid (s ∷ ss) = ground arith
