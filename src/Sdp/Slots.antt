-- ===== src/Sdp/Slots.antt =====
-- The abstract view of RemoteSdp (src/sdp/RemoteSdp.cpp): a list of slots, each with a mid, open or
-- closed. What RemoteSdp promises is said of the slots.
pub mod Laws
pub mod Replace
pub mod Index
use libmediasouphandler.Base.{
  ℕ, suc, String, Bool, true, false, Option, none, some, List, [], ◌∷◌, ◌≡◌, ◌==◌, if◌then◌else◌,
}
use libmediasouphandler.Base.Text.{is_empty, join}

pub record Slot : Type 0 where
  pub mid : String
  pub closed : Bool

abbrev pub opened : String → Slot
opened mid = record { mid = mid; closed = false }

abbrev shifted : Option ℕ → Option ℕ
shifted none = none
shifted (some n) = some (suc n)

-- The index of a mid.
unfoldable pub position : String → List Slot → Option ℕ
position mid [] = none
position mid (s ∷ ss) = if s.mid == mid then some 0 else shifted (position mid ss)

-- The first closed slot's mid.
unfoldable pub reusable : List Slot → Option String
reusable [] = none
reusable (s ∷ ss) = if s.closed then some s.mid else reusable ss

-- The index of the first closed slot and its mid, or the length and no mid.
unfoldable pub next_slot : ℕ → List Slot → ℕ × String
next_slot idx [] = (idx, "")
next_slot idx (s ∷ ss) =
    let rest = next_slot (suc idx) ss in if s.closed then (idx, s.mid) else rest

-- A new mid takes the first closed slot, or one after the last.
unfoldable pub add_slot : String → List Slot → List Slot
add_slot mid [] = opened mid ∷ []
add_slot mid (s ∷ ss) = let rest = add_slot mid ss in if s.closed then opened mid ∷ ss else s ∷ rest

unfoldable pub mark_closed : String → List Slot → List Slot
mark_closed mid [] = []
mark_closed mid (s ∷ ss) =
    let rest = mark_closed mid ss in
    if s.mid == mid then record { mid = s.mid; closed = true } ∷ ss else s ∷ rest

-- Any slot but the first is closed.
unfoldable pub close_slot : String → List Slot → List Slot
unfolding mark_closed
close_slot mid [] = []
close_slot mid (s ∷ ss) = if s.mid == mid then s ∷ ss else s ∷ mark_closed mid ss

abbrev pub open_mids : List Slot → List String
open_mids [] = []
open_mids (s ∷ ss) = if s.closed then open_mids ss else s.mid ∷ open_mids ss

abbrev pub head_mid : List Slot → String
head_mid [] = ""
head_mid (s ∷ ss) = s.mid

abbrev pub HeadOpen : List Slot → Type 0
HeadOpen [] = Unit {0}
HeadOpen (s ∷ ss) = s.closed ≡ false

abbrev pub Distinct : List Slot → Type 0
Distinct [] = Unit {0}
Distinct (s ∷ ss) = (position s.mid ss ≡ none) × Distinct ss

abbrev pub Named : List Slot → Type 0
Named [] = Unit {0}
Named (s ∷ ss) = (is_empty s.mid ≡ false) × Named ss

-- No mid is empty or stands twice, and the first slot is open.
pub record WellFormed (slots : List Slot) : Type 0 where
  pub named : Named slots
  pub distinct : Distinct slots
  pub head_open : HeadOpen slots

-- What the group BUNDLE names.
unfoldable pub bundle : List Slot → String
unfolding join
bundle slots = join " " (open_mids slots)
