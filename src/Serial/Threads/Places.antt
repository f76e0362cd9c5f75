-- ===== src/Serial/Threads/Places.antt =====
-- What the delivery thread has in its hands at each place of its loop, and which lists of frames
-- come out of a ring whose frames may be dropped.
use p.Common.{◌^◌, ◌≡◌, refl, List, [], ◌∷◌, ◌++◌}
use p.Serial.Queue.{Frame}
use p.Serial.Threads.{At, looping, sleeping, batching, holding, appended, handing, notify}

-- The batch, the frame that has been taken but is not in it, and frame_tmp's size
abbrev pub batch_of : At → List Frame
batch_of (batching n t b) = b
batch_of (holding n t f b) = b
batch_of (appended n t b) = b
batch_of (handing b) = b
batch_of a = []

abbrev pub held : At → List Frame
held (holding n t f b) = f ∷ []
held a = []

abbrev pub HasTmp : At → Type 0
HasTmp (batching n t b) = t.size ≡ 2 ^ 16
HasTmp (holding n t f b) = t.size ≡ 2 ^ 16
HasTmp (appended n t b) = t.size ≡ 2 ^ 16
HasTmp a = Unit

pub batch_of-notify : (a : At) → batch_of a ≡ batch_of (notify a)
batch_of-notify sleeping = refl
batch_of-notify _ = refl

pub held-notify : (a : At) → held a ≡ held (notify a)
held-notify sleeping = refl
held-notify _ = refl

pub notify-HasTmp : (a : At) → HasTmp a → HasTmp (notify a)
notify-HasTmp sleeping h = h
notify-HasTmp looping h = h
notify-HasTmp _ h = h

-- The frames of the second list are some of the first, in its order.
pub data Picks : List Frame → List Frame → Type 0 where
  done : Picks [] []
  picks : {f : Frame} {fs gs : List Frame} → Picks fs gs → Picks (f ∷ fs) (f ∷ gs)
  skips : {f : Frame} {fs gs : List Frame} → Picks fs gs → Picks (f ∷ fs) gs

none_picked : (fs : List Frame) → Picks fs []
none_picked [] = done
none_picked (f ∷ fs) = skips (none_picked fs)

pub Picks_both :
    (fs gs : List Frame) (f : Frame) → Picks fs gs → Picks (fs ++ (f ∷ [])) (gs ++ (f ∷ []))
Picks_both [] [] f done = picks done
Picks_both [] (h ∷ gs) f p = elim p [ ]
Picks_both (g ∷ fs) (h ∷ gs) f (picks p) = picks (Picks_both fs gs f p)
Picks_both (g ∷ fs) gs f (skips p) = skips (Picks_both fs gs f p)

pub Picks_less : (fs gs : List Frame) (f : Frame) → Picks fs (gs ++ (f ∷ [])) → Picks fs gs
Picks_less [] [] f p = done
Picks_less [] (h ∷ gs) f p = elim p [ ]
Picks_less (g ∷ fs) [] f p = none_picked (g ∷ fs)
Picks_less (g ∷ fs) (h ∷ gs) f (picks p) = picks (Picks_less fs gs f p)
Picks_less (g ∷ fs) (h ∷ gs) f (skips p) = skips (Picks_less fs (h ∷ gs) f p)
