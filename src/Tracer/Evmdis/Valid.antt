-- ===== src/Tracer/Evmdis/Valid.antt =====
-- What holds of the frames and records of evmdis_tracer.js between two instructions.
use rmit.Prelude.{
  ℕ, zero, suc, ◌≤◌, ◌<◌, ◌≡◌, some, List, [], ◌∷◌, ◌++◌, ◌∙◌, sym, arith, length, length-set, set,
  take, ◌&&◌, ltb, if◌then◌else◌,
}
use rmit.Tracer.Evmdis.{Slot, missing, null, held, OpInfo, Tracer, Effect, enter, last, ops_of}
use rmit.Tracer.Evmdis.Heap.{ops_at, ops_at-set_same, sum_ops, sum_ops-set, times_in}

-- A frame has the list `ops`.
abbrev pub IsFrame : List OpInfo → ℕ → Type 0
IsFrame heap i = (ids : List ℕ) × (ops_at heap i ≡ some (held ids))

abbrev pub Frames : List OpInfo → List ℕ → Type 0
Frames heap [] = Unit {0}
Frames heap (i ∷ is) = IsFrame heap i × Frames heap is

-- Records in a list are younger than `i` and in the heap.
abbrev pub Younger : ℕ → ℕ → List ℕ → Type 0
Younger i n [] = Unit {0}
Younger i n (j ∷ js) = (i < j) × (j < n) × Younger i n js

abbrev pub YoungerSlot : ℕ → ℕ → Slot (List ℕ) → Type 0
YoungerSlot i n (held ids) = Younger i n ids
YoungerSlot i n _ = Unit {0}

-- How often a record of so many is listed.
abbrev pub listed_times : ℕ → ℕ → ℕ
listed_times i n = if ltb 0 i && ltb i n then 1 else 0

pub record IsValid (t : Tracer) : Type 0 where
  -- The root frame is at the bottom of the stack.
  pub rooted : (rest : List ℕ) × (t.stack ≡ 0 ∷ rest)
  pub frames : Frames t.heap t.stack
  -- A record stands in the `ops` of an older one only, and each but the root stands there once: the
  -- records form a tree with the root frame at its top.
  pub ordered :
      (i : ℕ) (s : Slot (List ℕ)) → ops_at t.heap i ≡ some s → YoungerSlot i (length t.heap) s
  pub once : (i : ℕ) → sum_ops (times_in i) t.heap ≡ listed_times i (length t.heap)

pub Younger-mono : (i n m : ℕ) (js : List ℕ) → n ≤ m → Younger i n js → Younger i m js
Younger-mono i n m [] h y = tt
Younger-mono i n m (j ∷ js) h y = (y.0, omega arith, Younger-mono i n m js h y.2)

pub Younger-append :
    (i n : ℕ) (js : List ℕ) → i < n → Younger i n js → Younger i (suc n) (js ++ n ∷ [])
Younger-append i n [] h y = (h, omega arith, tt)
Younger-append i n (j ∷ js) h y = (y.0, omega arith, Younger-append i n js h y.2)

pub YoungerSlot-mono :
    (i n m : ℕ) (s : Slot (List ℕ)) → n ≤ m → YoungerSlot i n s → YoungerSlot i m s
YoungerSlot-mono i n m missing h y = tt
YoungerSlot-mono i n m null h y = tt
YoungerSlot-mono i n m (held js) h y = Younger-mono i n m js h y

pub Frames-transfer :
    (heap heap' : List OpInfo)
    → ((j : ℕ) → IsFrame heap j → IsFrame heap' j)
    → (is : List ℕ) → Frames heap is
    → Frames heap' is
Frames-transfer heap heap' keep [] h = tt
Frames-transfer heap heap' keep (i ∷ is) h = (keep i h.0, Frames-transfer heap heap' keep is h.1)

pub Frames-append :
    (heap : List OpInfo) (is : List ℕ) (j : ℕ)
    → Frames heap is
    → IsFrame heap j
    → Frames heap (is ++ j ∷ [])
Frames-append heap [] j h f = (f, tt)
Frames-append heap (i ∷ is) j h f = (h.0, Frames-append heap is j h.1 f)

pub Frames-take :
    (heap : List OpInfo) (n : ℕ) (is : List ℕ) → Frames heap is → Frames heap (take n is)
Frames-take heap zero is h = tt
Frames-take heap (suc n) [] h = tt
Frames-take heap (suc n) (i ∷ is) h = (h.0, Frames-take heap n is h.1)

pub Frames-last :
    (heap : List OpInfo) (is : List ℕ) {f : ℕ} → Frames heap is → last is ≡ some f → IsFrame heap f
unfolding last
Frames-last heap [] h e = absurd (cc)
Frames-last heap (i ∷ []) h e = (h.0.0, ground (arith, h.0.1))
Frames-last heap (i ∷ j ∷ is) h e = Frames-last heap (j ∷ is) h.1 e

pub ops_of-held : (o : OpInfo) {ids : List ℕ} → ops_of o ≡ some ids → o.ops ≡ held ids
unfolding ops_of
ops_of-held o h = ground arith

-- The `ops` of the record that an effect comes with.
unfoldable pub opening : Effect → Slot (List ℕ)
opening enter = held []
opening _ = missing

-- Writing a record whose `ops` stay keeps the invariant.
pub same-IsValid :
    (stack : List ℕ) (heap : List OpInfo) (i : ℕ) (o : OpInfo)
    → ops_at heap i ≡ some o.ops
    → IsValid (record { stack = stack; heap = heap })
    → IsValid (record { stack = stack; heap = set heap i o })
same-IsValid stack heap i o e v = record {
  rooted = v.rooted;
  frames =
      Frames-transfer heap (set heap i o) (λ j f. (f.0, ops_at-set_same heap i j o e ∙ f.1)) stack
        v.frames;
  ordered =
      λ j s h. rw (length-set heap i o) (v.ordered j s (sym (ops_at-set_same heap i j o e) ∙ h));
  once =
      λ j. rw (length-set heap i o) (omega (arith, v.once j, sum_ops-set (times_in j) heap i o e));
}
