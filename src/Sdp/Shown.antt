-- ===== src/Sdp/Shown.antt =====
-- The media sections of RemoteSdp that show a list of slots, and what its loops read off them.
pub mod Section
pub mod Bundle
pub mod Made
pub mod Answered
use libmediasouphandler.Base.{
  ℕ, zero, suc, String, Bool, true, false, Option, none, some, List, [], ◌∷◌, ◌++◌, ◌≡◌, refl, ap,
  subst, sym, ◌∙◌, if-cases, Bool-cases, inl, inr, if◌then◌else◌, arith,
}
use libmediasouphandler.Base.Result.{Result, ok}
use libmediasouphandler.Json.{Pairwise}
use libmediasouphandler.Sdp.MediaSection.{MediaSection, get_mid, is_closed, get_object}
use libmediasouphandler.Sdp.RemoteSdp.Scan.{next_from, bundle_from, first_closed, append_mid}
use libmediasouphandler.Sdp.RemoteSdp.Store.{element_at, replace_at, put_at}
use libmediasouphandler.Sdp.Slots.{Slot, reusable, next_slot}
use libmediasouphandler.Sdp.Shown.Section.{Shows}
use libmediasouphandler.Json.{Json, length}

abbrev pub objects : List MediaSection → List Json
objects [] = []
objects (m ∷ ms) = get_object m ∷ objects ms

abbrev pub Shown : List MediaSection → List Slot → Type 0
Shown = Pairwise Shows

pub next_from-Shown :
    (idx : ℕ) (ms : List MediaSection) (ss : List Slot)
    → Shown ms ss
    → next_from idx ms ≡ ok (next_slot idx ss)
unfolding next_from next_slot
next_from-Shown idx [] (s ∷ ss) h = elim h [ ]
next_from-Shown idx (m ∷ ms) [] h = elim h [ ]
next_from-Shown idx [] [] h = refl
next_from-Shown idx (m ∷ ms) (s ∷ ss) h =
    rw (h.0.1, h.0.0, next_from-Shown (suc idx) ms ss h.1) (ground arith)

-- The section found shows the first closed slot's mid.
abbrev pub FirstClosed : Option String → Option MediaSection → Type 0
FirstClosed none none = Unit {0}
FirstClosed (some mid) (some m) = get_mid m ≡ ok mid
FirstClosed _ _ = ⊥

pub first_closed-Shown :
    (ms : List MediaSection) (ss : List Slot)
    → Shown ms ss
    → (o : Option MediaSection) × (first_closed ms ≡ ok o) × FirstClosed (reusable ss) o
unfolding first_closed reusable
first_closed-Shown [] (s ∷ ss) h = elim h [ ]
first_closed-Shown (m ∷ ms) [] h = elim h [ ]
first_closed-Shown [] [] h = (none, refl, tt)
first_closed-Shown (m ∷ ms) (s ∷ ss) h = elim (Bool-cases s.closed) [
  | inl e ↦ (some m, rw (h.0.1, e) refl, rw e h.0.0)
  | inr e ↦ let (o, p, q) = first_closed-Shown ms ss h.1 in (o, rw (h.0.1, e) p, rw e q)
]

some_injective : {A : Type 0} {a b : A} → some a ≡ some b → a ≡ b
some_injective h = cc

pub element_at-Shown :
    (i : ℕ) (ms : List MediaSection) (ss : List Slot) (s : Slot)
    → Shown ms ss
    → element_at i ss ≡ some s
    → (m : MediaSection) × (element_at i ms ≡ some m) × Shows m s
unfolding element_at
element_at-Shown i [] (t ∷ ss) s h e = elim h [ ]
element_at-Shown i (m ∷ ms) [] s h e = elim h [ ]
element_at-Shown i [] [] s h e = cc
element_at-Shown zero (m ∷ ms) (t ∷ ss) s h e = (m, refl, subst (Shows m) (some_injective e) h.0)
element_at-Shown (suc i) (m ∷ ms) (t ∷ ss) s h e = element_at-Shown i ms ss s h.1 e

pub replace_at-Shown :
    (i : ℕ) (ms : List MediaSection) (ss : List Slot) (m : MediaSection) (s : Slot)
    → Shown ms ss
    → Shows m s
    → Shown (replace_at i m ms) (replace_at i s ss)
unfolding replace_at
replace_at-Shown i [] (t ∷ ss) m s h k = elim h [ ]
replace_at-Shown i (n ∷ ms) [] m s h k = elim h [ ]
replace_at-Shown i [] [] m s h k = tt
replace_at-Shown zero (n ∷ ms) (t ∷ ss) m s h k = (k, h.1)
replace_at-Shown (suc i) (n ∷ ms) (t ∷ ss) m s h k = (h.0, replace_at-Shown i ms ss m s h.1 k)

pub append-Shown :
    (ms : List MediaSection) (ss : List Slot) (m : MediaSection) (s : Slot)
    → Shown ms ss
    → Shows m s
    → Shown (ms ++ (m ∷ [])) (ss ++ (s ∷ []))
append-Shown [] (t ∷ ss) m s h k = elim h [ ]
append-Shown (n ∷ ms) [] m s h k = elim h [ ]
append-Shown [] [] m s h k = (k, tt)
append-Shown (n ∷ ms) (t ∷ ss) m s h k = (h.0, append-Shown ms ss m s h.1 k)

pub put_at-objects :
    (i : ℕ) (ms : List MediaSection) (old m : MediaSection)
    → element_at i ms ≡ some old
    → put_at i (get_object m) (objects ms) ≡ objects (replace_at i m ms)
unfolding element_at put_at replace_at
put_at-objects i [] old m h = cc
put_at-objects zero (n ∷ ms) old m h = refl
put_at-objects (suc i) (n ∷ ms) old m h = ap (λ xs. get_object n ∷ xs) (put_at-objects i ms old m h)

pub objects-append :
    (ms : List MediaSection) (m : MediaSection)
    → objects (ms ++ (m ∷ [])) ≡ objects ms ++ (get_object m ∷ [])
objects-append [] m = refl
objects-append (n ∷ ms) m = rw (objects-append ms m)

-- The slot that a section shows.
pub slot_at-Shown :
    (i : ℕ) (ms : List MediaSection) (ss : List Slot) (m : MediaSection)
    → Shown ms ss
    → element_at i ms ≡ some m
    → (s : Slot) × (element_at i ss ≡ some s) × Shows m s
unfolding element_at
slot_at-Shown i [] (t ∷ ss) m h e = elim h [ ]
slot_at-Shown i (n ∷ ms) [] m h e = elim h [ ]
slot_at-Shown i [] [] m h e = cc
slot_at-Shown zero (n ∷ ms) (t ∷ ss) m h e =
    (t, refl, subst (λ x. Shows x t) (some_injective e) h.0)
slot_at-Shown (suc i) (n ∷ ms) (t ∷ ss) m h e = slot_at-Shown i ms ss m h.1 e
